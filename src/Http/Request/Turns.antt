-- ===== src/Http/Request/Turns.antt =====
-- What HttpClient.request may send and how long it waits: the requests that one step adds, the
-- waits, and that the options of the client stay (.github/actions/propose/dist/index.js).
use forta_node_tr.Prelude.{
  ℕ, ◌+◌, ◌≤◌, Text, Dict, List, [], ◌++◌, Option, none, some, Result, ok, err, Effect, ◌>>=◌,
  >>=-ok, >>=-err, outcome_cases, result_cases, subst, All, All-append, length, length-append,
  append_assoc, append-nil, ◌≡◌, refl, sym, ap, ◌∙◌, inl, inr, arith, Bool-cases, Option-cases,
}
use forta_node_tr.Js.{Thrown}
use forta_node_tr.Http.Options.{HttpClient, Agent}
use forta_node_tr.Http.Url.{Url, ParseUrl}
use forta_node_tr.Http.Client.{
  Info, Net, prepare_request, prepared, get_agent, make_agent, kept_agent, used_proxy, is_https,
}
use forta_node_tr.Http.Proxy.{get_proxy_url}

-- The options of a client, without the agents that it keeps.
unfoldable pub policy : HttpClient → HttpClient
policy c = record c { agent = none; proxy_agent = none }

module _ {S : Type 0} (P : Info → Type 0) where
  -- From one state to another: at most `k` requests, all as `P` says, and these waits.
  abbrev pub Sends : ℕ → List ℕ → Net S → Net S → Type 0
  Sends k ws n n' =
      ((new : List Info) × (n'.sent ≡ n.sent ++ new) × All P new × (length new ≤ k))
      × (n'.delays ≡ n.delays ++ ws)
      × (policy n'.client ≡ policy n.client)

  pub Sends-nothing : (k : ℕ) (n : Net S) → Sends k [] n n
  Sends-nothing k n =
      (([], sym (append-nil n.sent), tt, omega arith), sym (append-nil n.delays), refl)

  pub Sends-join :
      (k j : ℕ) (ws vs : List ℕ) (a b c : Net S)
      → Sends k ws a b
      → Sends j vs b c
      → Sends (k + j) (ws ++ vs) a c
  Sends-join k j ws vs a b c ((new, e, p, l), d, o) ((new', e', p', l'), d', o') = (
    (
      new ++ new',
      e' ∙ ap (λ l. l ++ new') e ∙ append_assoc a.sent new new',
      All-append P new new' p p',
      omega (arith, length-append new new'),
    ),
    d' ∙ ap (λ l. l ++ vs) d ∙ append_assoc a.delays ws vs,
    o' ∙ o,
  )

  -- More may be allowed.
  pub Sends-le : (k j : ℕ) (ws : List ℕ) (a b : Net S) → k ≤ j → Sends k ws a b → Sends j ws a b
  Sends-le k j ws a b le ((new, e, p, l), d, o) = ((new, e, p, omega arith), d, o)

-- What holds of a value that is returned.
abbrev pub Post : {A : Type 0} → (A → Type 0) → Result Thrown A → Type 0
Post Q (ok a) = Q a
Post Q (err e) = Unit

-- A step that sends nothing, waits for nothing and keeps the options.
abbrev pub Quiet : {S : Type 0} → Net S → Net S → Type 0
Quiet n n' = (n'.sent ≡ n.sent) × (n'.delays ≡ n.delays) × (policy n'.client ≡ policy n.client)

module _ {S : Type 0} (parse_url : ParseUrl) (u : Url) where
  -- The agent of a request changes the client's agents only.
  make_agent_lem : (p : Option Url) (n : Net S) → Quiet n (make_agent u p n).1
  unfolding make_agent policy
  make_agent_lem (some p) n = (refl, refl, refl)
  make_agent_lem none n = elim (Bool-cases n.client.keep_alive) [
    | inl e ↦ rw e (refl, refl, refl)
    | inr e ↦ elim (Bool-cases (is_https u)) [
      | inl h ↦ rw (e, h) (refl, refl, refl)
      | inr h ↦ rw (e, h) (refl, refl, refl)
    ]
  ]

  get_agent_lem : (n : Net S) → Quiet n (get_agent parse_url u n).1
  unfolding get_agent
  get_agent_lem n = elim (result_cases (get_proxy_url parse_url n.process u)) [
    | inr (e, h) ↦ rw (h, get_agent) (refl, refl, refl)
    | inl (p, h) ↦ elim (Option-cases (kept_agent n.client (used_proxy p))) [
      | inl g ↦ rw (h, get_agent) (rw g (make_agent_lem (used_proxy p) n))
      | inr (a, g) ↦ rw (h, get_agent) (rw g (refl, refl, refl))
    ]
  ]

  prepared_lem :
      (c : HttpClient) (verb : Text) (headers : Dict Text) (n : Net S)
      (x : Result Thrown Agent × Net S)
      → Quiet n x.1
      → Quiet n (prepared c verb u headers x).1
  unfolding prepared
  prepared_lem c verb headers n (ok a, n') q = q
  prepared_lem c verb headers n (err e, n') q = q

  pub prepare_request_lem :
      (verb : Text) (headers : Dict Text) (n : Net S)
      → Quiet n (prepare_request parse_url verb u headers n).1
  unfolding prepare_request
  prepare_request_lem verb headers n =
      prepared_lem n.client verb headers n (get_agent parse_url u n) (get_agent_lem n)

pub Sends-Quiet :
    {S : Type 0} (P : Info → Type 0) (k : ℕ) (n n' : Net S) → Quiet n n' → Sends P k [] n n'
Sends-Quiet P k n n' (e, d, o) =
    (([], e ∙ sym (append-nil n.sent), tt, omega arith), d ∙ sym (append-nil n.delays), o)

module _ {S : Type 0} (P : Info → Type 0) (c : HttpClient) where
  -- From a client with these options, at most `k` requests and no wait; a value is as `Q` says.
  abbrev pub Bounded : {A : Type 0} → ℕ → (A → Type 0) → Effect (Net S) Thrown A → Type 0
  Bounded k Q m = (n : Net S) → policy n.client ≡ policy c → Sends P k [] n (m n).1 × Post Q (m n).0

  pub Bounded-bind :
      {A B : Type 0} (k j : ℕ) (Q : A → Type 0) (R : B → Type 0) (m : Effect (Net S) Thrown A)
      (f : A → Effect (Net S) Thrown B)
      → Bounded k Q m
      → ((a : A) → Q a → Bounded j R (f a))
      → Bounded (k + j) R (m >>= f)
  Bounded-bind k j Q R m f hm hf n o = elim (outcome_cases (m n)) [
    | inl (a, n', h) ↦
        let (s, q) = subst (λ x. Sends P k [] n x.1 × Post Q x.0) h (hm n o) in
        let (s', r) = hf a q n' (s.2 ∙ o) in
        rw (>>=-ok m f n n' a h) (Sends-join P k j [] [] n n' (f a n').1 s s', r)
    | inr (e, n', h) ↦
        let (s, q) = subst (λ x. Sends P k [] n x.1 × Post Q x.0) h (hm n o) in
        rw (>>=-err m f n n' e h) (Sends-le P k (k + j) [] n n' (omega arith) s, tt)
  ]
