-- ===== src/Http/Request/Loop.antt =====
-- The tries of HttpClient.request of the toolkit's http-client, one after the other: how many
-- requests are sent and which waits lie between them (.github/actions/propose/dist/index.js).
use forta_node_tr.Prelude.{
  ℕ, zero, suc, ◌+◌, ◌*◌, ◌≤◌, Text, Dict, List, [], ◌∷◌, ◌++◌, true, Option, some, Result, ok, err,
  Effect, pure, ◌>>◌, >>=-ok, >>=-err, outcome_cases, ◌≡◌, refl, sym, ap, subst, ◌∙◌, inl, inr,
  arith, append-nil, true≢false,
}
use forta_node_tr.Js.{Thrown}
use forta_node_tr.Http.Options.{HttpClient}
use forta_node_tr.Http.Url.{Url, ParseUrl}
use forta_node_tr.Http.Client.{Info, HttpResponse, Net}
use forta_node_tr.Http.Request.{
  Send, Turn, done, again, with_length, try_once, tries, last_response, wait, backoff_delay,
  is_retry_code,
}
use forta_node_tr.Http.Request.Turns.{policy, Sends, Sends-join, Sends-le, Post}
use forta_node_tr.Http.Request.Tries.{GoodRedirects, GoodTurn, try_once_lem}

one_of : (k m : ℕ) → 1 + m ≤ suc (suc k) * (1 + m)
one_of k m = ground arith

all_of : (k m : ℕ) → 1 + m + (0 + suc k * (1 + m)) ≤ suc (suc k) * (1 + m)
all_of k m = ground arith

-- The waits from a try on.
unfoldable pub backoffs : ℕ → ℕ → List ℕ
backoffs num zero = []
backoffs num (suc j) = backoff_delay num ∷ backoffs (suc num) j

-- What is returned after a number of waits, of those that are allowed.
abbrev pub Returned : ℕ → ℕ → Option HttpResponse → Type 0
Returned j k r = (x : HttpResponse) × (r ≡ some x) × (is_retry_code x.status ≡ true → j ≡ k)

module _ {S : Type 0} (parse_url : ParseUrl) (send : Send S) (P : Info → Type 0) (c : HttpClient)
    (verb : Text) (from : Url) (body : Option Text) where
  abbrev Ran : Net S → Result Thrown Turn × Net S → Type 0
  Ran n x =
      Sends P (1 + c.max_redirects) [] n x.1 × Post (GoodTurn parse_url send P c verb from body) x.0

  ran :
      {x : Result Thrown Turn × Net S} (t : Turn) (n n' : Net S)
      → x ≡ (ok t, n')
      → Ran n x
      → Sends P (1 + c.max_redirects) [] n n' × (GoodTurn parse_url send P c verb from body) t
  ran t n n' h run = subst (Ran n) h run

  failed :
      {x : Result Thrown Turn × Net S} (e : Thrown) (n n' : Net S)
      → x ≡ (err e, n')
      → Ran n x
      → Sends P (1 + c.max_redirects) [] n n'
  failed e n n' h run = (subst (Ran n) h run).0

  -- A try, a wait and the tries that follow.
  after_wait :
      (k num j : ℕ) (n n' z : Net S)
      → Sends P (1 + c.max_redirects) [] n n'
      → Sends P
          (suc k * (1 + c.max_redirects))
          (backoffs (suc num) j)
          (record n' { delays = n'.delays ++ (backoff_delay num ∷ []) })
          z
      → Sends P (suc (suc k) * (1 + c.max_redirects)) (backoffs num (suc j)) n z
  unfolding backoffs policy
  after_wait k num j n n' z s s' =
      let m = c.max_redirects in
      let n'' : Net S = record n' { delays = n'.delays ++ (backoff_delay num ∷ []) } in
      let waited : Sends P 0 (backoff_delay num ∷ []) n' n'' =
        (([], sym (append-nil n'.sent), tt, omega arith), refl, refl) in
      let later =
        Sends-join P 0 (suc k * (1 + m)) (backoff_delay num ∷ []) (backoffs (suc num) j) n' n'' z
          waited s' in
      Sends-le P ((1 + m) + (0 + suc k * (1 + m))) (suc (suc k) * (1 + m)) (backoffs num (suc j)) n
        z (all_of k m)
        (Sends-join P (1 + m) (0 + suc k * (1 + m)) [] (backoffs num (suc j)) n n' z s later)

  Returned-later :
      (j k : ℕ) (r : Result Thrown (Option HttpResponse))
      → Post (Returned j k) r
      → Post (Returned (suc j) (suc k)) r
  Returned-later j k (err e) h = tt
  Returned-later j k (ok r) (x, e, w) = (x, e, λ v. ap suc (w v))

  pub tries_lem :
      (k num : ℕ) (info : Info) (headers : Dict Text)
      → (GoodRedirects parse_url send P c verb from body)
      → P (with_length body info)
      → (n : Net S) → policy n.client ≡ policy c
      → (j : ℕ) × (j ≤ k)
        × Sends P
            (suc k * (1 + c.max_redirects))
            (backoffs num j)
            n
            (tries parse_url send k num body verb from info headers n).1
        × Post (Returned j k) (tries parse_url send k num body verb from info headers n).0
  unfolding tries backoffs wait last_response
  tries_lem zero num info headers good p n o =
      let m = try_once parse_url send body verb from info headers in
      let f : Turn → Effect (Net S) Thrown (Option HttpResponse) = λ t. pure (last_response t) in
      let run = try_once_lem parse_url send P c verb from body info headers good p n o in
      elim (outcome_cases (m n)) [
        | inl (done r, n', h) ↦
            let (s, (x, e, w)) = ran (done r) n n' h run in
            rw (>>=-ok m f n n' (done r) h) (
              0,
              omega arith,
              Sends-le P (1 + c.max_redirects) (1 * (1 + c.max_redirects)) [] n n' (omega arith) s,
              (x, e, λ v. absurd (true≢false (sym v ∙ w))),
            )
        | inl (again a, n', h) ↦
            let (s, q) = ran (again a) n n' h run in
            rw (>>=-ok m f n n' (again a) h) (
              0,
              omega arith,
              Sends-le P (1 + c.max_redirects) (1 * (1 + c.max_redirects)) [] n n' (omega arith) s,
              (a.response, refl, λ _. refl),
            )
        | inr (e, n', h) ↦ rw (>>=-err m f n n' e h) (
          0,
          omega arith,
          Sends-le P (1 + c.max_redirects) (1 * (1 + c.max_redirects)) [] n n' (omega arith)
              (failed e n n' h run),
          tt,
        )
      ]
  tries_lem (suc k) num info headers good p n o =
      let m = try_once parse_url send body verb from info headers in
      let f : Turn → Effect (Net S) Thrown (Option HttpResponse) = λ t. elim t [
        | done r ↦ pure r
        | again a ↦ wait num >> tries parse_url send k (suc num) body verb from a.info a.headers
      ] in
      let run = try_once_lem parse_url send P c verb from body info headers good p n o in
      elim (outcome_cases (m n)) [
        | inl (done r, n', h) ↦
            let (s, (x, e, w)) = ran (done r) n n' h run in
            rw (>>=-ok m f n n' (done r) h) (
              0,
              omega arith,
              Sends-le P (1 + c.max_redirects) (suc (suc k) * (1 + c.max_redirects)) [] n n'
                  (one_of k c.max_redirects) s,
              (x, e, λ v. absurd (true≢false (sym v ∙ w))),
            )
        | inl (again a, n', h) ↦
            let (s, q) = ran (again a) n n' h run in
            let n'' : Net S = record n' { delays = n'.delays ++ (backoff_delay num ∷ []) } in
            let (j, le, s', r) = tries_lem k (suc num) a.info a.headers good q n'' (s.2 ∙ o) in
            rw (>>=-ok m f n n' (again a) h) (
              suc j,
              omega arith,
              after_wait k num j n n'
                  (tries parse_url send k (suc num) body verb from a.info a.headers n'').1 s s',
              Returned-later j k
                  (tries parse_url send k (suc num) body verb from a.info a.headers n'').0 r,
            )
        | inr (e, n', h) ↦ rw (>>=-err m f n n' e h) (
          0,
          omega arith,
          Sends-le P (1 + c.max_redirects) (suc (suc k) * (1 + c.max_redirects)) [] n n'
              (one_of k c.max_redirects) (failed e n n' h run),
          tt,
        )
      ]
