-- ===== src/Http/Request/Tries.antt =====
-- One try of HttpClient.request of the toolkit's http-client: how many
-- requests are sent, that each is as a predicate says, and which waits lie between them
-- (.github/actions/propose/dist/index.js).
use forta_node_tr.Prelude.{
  ℕ, zero, suc, ◌+◌, Text, Dict, List, [], ◌∷◌, true, false, Option, none, some, ok, Effect, ◌>>=◌,
  outcome_cases, result_cases, ◌≡◌, refl, sym, ap, subst, ◌∙◌, inl, inr, arith, Bool-cases, ==_iff,
  Option-cases, ◌==◌, append-nil,
}
use forta_node_tr.Js.{Thrown}
use forta_node_tr.Http.Options.{HttpClient}
use forta_node_tr.Http.Handlers.{
  Handler, basic, bearer, personal_access_token, can_handle_authentication,
}
use forta_node_tr.Http.Url.{Url, ParseUrl}
use forta_node_tr.Http.Client.{Info, HttpResponse, Net, prepare_request}
use forta_node_tr.Http.Request.{
  Send, Answer, Turn, done, again, with_length, request_raw, follow, redirect_step, redirects,
  respond, try_once, answer_of, turn_of, redirect_target, allowed_target, redirect_location,
  redirect_headers, find_handler, is_retry_code,
}
use forta_node_tr.Http.Request.Turns.{
  policy, Sends, Sends-nothing, Sends-le, Post, Bounded, Bounded-bind, prepare_request_lem,
  Sends-Quiet, Quiet,
}

same_target :
    (parse_url : ParseUrl) (from : Url) (location : Text) (c d : HttpClient)
    → policy d ≡ policy c
    → redirect_target parse_url c from location ≡ redirect_target parse_url d from location
unfolding policy redirect_target allowed_target
same_target parse_url from location c d o =
    ap (λ x. redirect_target parse_url x from location) (sym o)

same_max_redirects : (c d : HttpClient) → policy d ≡ policy c → d.max_redirects ≡ c.max_redirects
unfolding policy
same_max_redirects c d o = ap (λ (x : HttpClient). x.max_redirects) o

-- No handler of the toolkit answers a challenge.
find_handler-none : (hs : List Handler) → find_handler hs ≡ none
unfolding find_handler can_handle_authentication
find_handler-none [] = refl
find_handler-none (basic a b ∷ hs) = find_handler-none hs
find_handler-none (bearer a ∷ hs) = find_handler-none hs
find_handler-none (personal_access_token a ∷ hs) = find_handler-none hs

challenge_ends : (n : ℕ) → (n == 401) ≡ true → is_retry_code n ≡ false
unfolding is_retry_code
challenge_ends n h = subst (λ m. is_retry_code m ≡ false) (sym ((==_iff n 401).0 h)) refl

module _ {S : Type 0} (parse_url : ParseUrl) (send : Send S) (P : Info → Type 0) (c : HttpClient)
    (verb : Text) (from : Url) (body : Option Text) where
  -- Every request that may be prepared for this url and these headers is as `P` says.
  abbrev pub Good : Url → Dict Text → Type 0
  Good to headers =
      (n n' : Net S) (info : Info)
      → policy n.client ≡ policy c
      → prepare_request parse_url verb to headers n ≡ (ok info, n')
      → P (with_length body info)

  abbrev pub GoodRedirects : Type 0
  GoodRedirects =
      (location : Text) (to : Url) (headers : Dict Text)
      → redirect_target parse_url c from location ≡ ok to
      → Good to (redirect_headers from to headers)

  abbrev pub GoodAnswer : Answer → Type 0
  GoodAnswer a = P (with_length body a.info)

  abbrev pub GoodTurn : Turn → Type 0
  GoodTurn (done r) = (x : HttpResponse) × (r ≡ some x) × (is_retry_code x.status ≡ false)
  GoodTurn (again a) = GoodAnswer a

  -- One request.
  answer_of_lem :
      (headers : Dict Text) (info : Info)
      → P (with_length body info)
      → Bounded {S = S} P c 1 GoodAnswer
          (λ n. answer_of headers info (request_raw parse_url send body info n))
  unfolding answer_of request_raw
  answer_of_lem headers info p n o =
      elim (outcome_cases (send (with_length body info) body n.outside)) [
        | inl (r, s, h) ↦ rw h (
          (
            ((with_length body info ∷ []), refl, (p, tt), omega arith),
            sym (append-nil n.delays),
            refl,
          ),
          p,
        )
        | inr (e, s, h) ↦ rw h (
          (
            ((with_length body info ∷ []), refl, (p, tt), omega arith),
            sym (append-nil n.delays),
            refl,
          ),
          tt,
        )
      ]

  prepare_lem :
      (to : Url) (headers : Dict Text)
      → Good to headers
      → Bounded {S = S} P c 0
          (λ i. P (with_length body i))
          (prepare_request parse_url verb to headers)
  prepare_lem to headers good n o =
      let q = prepare_request_lem parse_url to verb headers n in
      elim (outcome_cases (prepare_request parse_url verb to headers n)) [
        | inl (info, n', h) ↦
            subst (λ x. Sends P 0 [] n x.1 × Post (λ i. P (with_length body i)) x.0) (sym h)
              (Sends-Quiet P 0 n n' (subst (λ x. Quiet n x.1) h q), good n n' info o h)
        | inr (e, n', h) ↦
            subst (λ x. Sends P 0 [] n x.1 × Post (λ i. P (with_length body i)) x.0) (sym h)
              (Sends-Quiet P 0 n n' (subst (λ x. Quiet n x.1) h q), tt)
      ]

  follow_lem :
      (to : Url) (headers : Dict Text)
      → Good to headers
      → Bounded {S = S} P c 1 GoodAnswer (follow parse_url send body verb to headers)
  unfolding follow
  follow_lem to headers good =
      Bounded-bind P c 0 1 (λ i. P (with_length body i)) GoodAnswer
        (prepare_request parse_url verb to headers)
        (λ i n. answer_of headers i (request_raw parse_url send body i n))
        (prepare_lem to headers good) (λ i p. answer_of_lem headers i p)

  redirect_step_lem :
      (k : ℕ) (next : Answer → Effect (Net S) Thrown Answer) (a : Answer)
      → GoodRedirects
      → GoodAnswer a
      → ((b : Answer) → GoodAnswer b → Bounded {S = S} P c k GoodAnswer (next b))
      → Bounded {S = S} P c (1 + k) GoodAnswer (redirect_step parse_url send body verb from next a)
  unfolding redirect_step
  redirect_step_lem k next a good p hn n o =
      elim (Option-cases (redirect_location n.client a.response)) [
        | inl h ↦ rw (h, redirect_step) (Sends-nothing P (1 + k) n, p)
        | inr (location, h) ↦
            elim (result_cases (redirect_target parse_url n.client from location)) [
              | inr (e, g) ↦ rw (h, redirect_step) (rw g (Sends-nothing P (1 + k) n, tt))
              | inl (to, g) ↦
                  rw (h, redirect_step)
                    (rw g (
                      Bounded-bind P c 1 k GoodAnswer GoodAnswer
                        (follow parse_url send body verb to (redirect_headers from to a.headers))
                        next
                        (follow_lem to (redirect_headers from to a.headers) (
                          good location to a.headers
                            (same_target parse_url from location c n.client o ∙ g)))
                        hn n o))
            ]
      ]

  redirects_lem :
      (k : ℕ) (a : Answer)
      → GoodRedirects
      → GoodAnswer a
      → Bounded {S = S} P c k GoodAnswer (redirects parse_url send k body verb from a)
  unfolding redirects
  redirects_lem zero a good p n o = (Sends-nothing P 0 n, p)
  redirects_lem (suc k) a good p n o =
      let (s, q) =
        redirect_step_lem k (λ b. redirects parse_url send k body verb from b) a good p
          (λ b q. redirects_lem k b good q) n o in
      (
        Sends-le P (1 + k) (suc k) [] n (redirects parse_url send (suc k) body verb from a n).1
            (omega arith) s,
        q,
      )

  turn_of_lem : (a : Answer) → GoodAnswer a → Bounded {S = S} P c 0 GoodTurn (turn_of a)
  unfolding turn_of
  turn_of_lem a p n o = elim (Bool-cases (is_retry_code a.response.status)) [
    | inl h ↦ rw h (Sends-nothing P 0 n, p)
    | inr h ↦ rw h (Sends-nothing P 0 n, (a.response, refl, h))
  ]

  respond_lem :
      (a : Answer)
      → GoodRedirects
      → GoodAnswer a
      → Bounded {S = S} P c c.max_redirects GoodTurn (respond parse_url send body verb from a)
  unfolding respond
  respond_lem a good p n o = elim (Bool-cases (a.response.status == 401)) [
    | inl h ↦
        rw (h, find_handler-none n.client.handlers)
          (
            Sends-nothing P c.max_redirects n,
            (a.response, refl, challenge_ends a.response.status h),
          )
    | inr h ↦
        let (s, t) =
          Bounded-bind P c c.max_redirects 0 GoodAnswer GoodTurn
            (redirects parse_url send c.max_redirects body verb from a) turn_of
            (redirects_lem c.max_redirects a good p) turn_of_lem n o in
        rw h (
          subst
            (λ k.
              Sends P c.max_redirects [] n
                ((redirects parse_url send k body verb from a >>= turn_of) n).1
              × Post GoodTurn ((redirects parse_url send k body verb from a >>= turn_of) n).0)
            (sym (same_max_redirects c n.client o))
            (
              Sends-le P (c.max_redirects + 0) c.max_redirects [] n
                  ((redirects parse_url send c.max_redirects body verb from a >>= turn_of) n).1
                  (omega arith) s,
              t,
            ))
  ]

  pub try_once_lem :
      (info : Info) (headers : Dict Text)
      → GoodRedirects
      → P (with_length body info)
      → Bounded {S = S} P c
          (1 + c.max_redirects)
          GoodTurn
          (try_once parse_url send body verb from info headers)
  unfolding try_once
  try_once_lem info headers good p =
      Bounded-bind P c 1 c.max_redirects GoodAnswer GoodTurn
        (λ n. answer_of headers info (request_raw parse_url send body info n))
        (respond parse_url send body verb from) (answer_of_lem headers info p)
        (λ a q. respond_lem a good q)
