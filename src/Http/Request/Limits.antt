-- ===== src/Http/Request/Limits.antt =====
-- What HttpClient.request of the toolkit's http-client does in the whole: how often it sends, how
-- long it waits and what it returns (.github/actions/propose/dist/index.js).
use forta_node_tr.Prelude.{
  ℕ, suc, ◌+◌, ◌*◌, ◌≤◌, Text, Dict, List, [], ◌++◌, Bool, true, false, Option, none, some, Result,
  err, Effect, ◌>>=◌, >>=-ok, >>=-err, outcome_cases, ◌≡◌, refl, ap, subst, inl, inr, arith, length,
  length-append, codes,
}
use forta_node_tr.Js.{Thrown, error}
use forta_node_tr.Http.Url.{Url, ParseUrl}
use forta_node_tr.Http.Client.{Info, HttpResponse, Net, prepare_request}
use forta_node_tr.Http.Request.{Send, tries, request, request_at, extra_tries}
use forta_node_tr.Http.Request.Turns.{
  Sends, Sends-nothing, Sends-join, Sends-le, Post, Quiet, prepare_request_lem, Sends-Quiet,
}
use forta_node_tr.Http.Request.Tries.{Good, GoodRedirects}
use forta_node_tr.Http.Request.Loop.{Returned, backoffs, tries_lem}

more_by :
    (xs new ys : List Info) (k : ℕ) → ys ≡ xs ++ new → length new ≤ k → length ys ≤ length xs + k
more_by xs new ys k e l = omega (arith, ap length e, length-append xs new)

module _ {S : Type 0} (parse_url : ParseUrl) (send : Send S) (verb request_url : Text)
    (body : Option Text) (headers : Dict Text) where
  -- A run of a request that started as `n`: the requests, the waits and the result.
  abbrev pub Kept : (Info → Type 0) → Net S → Result Thrown (Option HttpResponse) × Net S → Type 0
  Kept P n out =
      (j : ℕ) × (j ≤ extra_tries n.client verb)
      × Sends P (suc (extra_tries n.client verb) * (1 + n.client.max_redirects)) (backoffs 1 j) n
          out.1
      × Post (Returned j (extra_tries n.client verb)) out.0

  Kept-nothing : (P : Info → Type 0) (n : Net S) (e : Thrown) → Kept P n (err e, n)
  unfolding backoffs
  Kept-nothing P n e = (
    0,
    omega arith,
    Sends-nothing P (suc (extra_tries n.client verb) * (1 + n.client.max_redirects)) n,
    tt,
  )

  Kept-tries :
      (P : Info → Type 0) (n : Net S) (u : Url)
      → Good parse_url send P n.client verb u body u headers
      → GoodRedirects parse_url send P n.client verb u body
      → Kept P n (
          (prepare_request parse_url verb u headers >>= λ info.
          tries parse_url send (extra_tries n.client verb) 1 body verb u info headers)
            n)
  unfolding backoffs
  Kept-tries P n u first later =
      let m = prepare_request parse_url verb u headers in
      let f : Info → Effect (Net S) Thrown (Option HttpResponse) =
        λ info. tries parse_url send (extra_tries n.client verb) 1 body verb u info headers in
      let most = suc (extra_tries n.client verb) * (1 + n.client.max_redirects) in
      let quiet = prepare_request_lem parse_url u verb headers n in
      elim (outcome_cases (m n)) [
        | inl (info, n', h) ↦
            let q = subst (λ x. Quiet n x.1) h quiet in
            let (j, le, s, r) =
              tries_lem parse_url send P n.client verb u body (extra_tries n.client verb) 1 info
                headers later (first n n' info refl h) n' q.2 in
            rw (>>=-ok m f n n' info h) (
              j,
              le,
              Sends-le P (0 + most) most (backoffs 1 j) n (f info n').1 (omega arith) (
                  Sends-join P 0 most [] (backoffs 1 j) n n' (f info n').1 (Sends-Quiet P 0 n n' q)
                    s),
              r,
            )
        | inr (e, n', h) ↦
            rw (>>=-err m f n n' e h)
              (0, omega arith, Sends-Quiet P most n n' (subst (λ x. Quiet n x.1) h quiet), tt)
      ]

  Kept-at :
      (P : Info → Type 0) (n : Net S) (b : Bool) (o : Option Url)
      → ((u : Url)
          → o ≡ some u
          → Good parse_url send P n.client verb u body u headers
            × GoodRedirects parse_url send P n.client verb u body)
      → Kept P n (request_at parse_url send b o verb body headers n)
  unfolding request_at
  Kept-at P n true o good =
      Kept-nothing P n (error (codes "Error") (codes "Client has already been disposed."))
  Kept-at P n false none good = Kept-nothing P n (error (codes "TypeError") (codes "Invalid URL"))
  Kept-at P n false (some u) good = Kept-tries P n u (good u refl).0 (good u refl).1

  pub request_lem :
      (P : Info → Type 0) (n : Net S)
      → ((u : Url)
          → parse_url request_url ≡ some u
          → Good parse_url send P n.client verb u body u headers
            × GoodRedirects parse_url send P n.client verb u body)
      → Kept P n (request parse_url send verb request_url body headers n)
  unfolding request
  request_lem P n good = Kept-at P n n.client.disposed (parse_url request_url) good

  -- Whatever the network answers, a request ends: it sends at most one request more than the
  -- client's redirects for each try, it waits between tries only, for the times of the exponential
  -- backoff in order, and what it returns is a response. Only after all tries, the retries that
  -- the client allows for the verb, is that a response with a code that is tried again.
  pub request_limits :
      (n : Net S)
      → (j : ℕ) × (j ≤ extra_tries n.client verb)
        × (length (request parse_url send verb request_url body headers n).1.sent
            ≤ length n.sent + suc (extra_tries n.client verb) * (1 + n.client.max_redirects))
        × ((request parse_url send verb request_url body headers n).1.delays
            ≡ n.delays ++ backoffs 1 j)
        × Post
            (Returned j (extra_tries n.client verb))
            (request parse_url send verb request_url body headers n).0
  request_limits n =
      let (j, le, ((new, e, _, l), d, o), r) =
        request_lem (λ _. Unit {0}) n (λ u h. ((λ _ _ _ _ _. tt), (λ _ _ _ _ _ _ _ _ _. tt))) in
      (j, le, more_by n.sent new _ _ e l, d, r)
