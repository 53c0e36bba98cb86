-- ===== src/Defender/Client/Retry.antt =====
-- What apiCall of defender-base-client (.github/actions/propose/dist/index.js) does over the
-- network: signing in, the request, and both once more when the session has expired.
use forta_node_tr.Prelude.{
  List, [], ◌∷◌, ◌++◌, append_assoc, append-nil, Bool, true, false, none, Result, ok, err, Effect,
  ◌>>=◌, >>=-ok, >>=-err, outcome_cases, ◌≡◌, refl, sym, ap, subst, ◌∙◌, inl, inr, arith,
}
use forta_node_tr.Defender.Client.Steps.{
  on_error-throws, on_error-passes, on_error-renews, api_call-refused, api_call-answered,
  api_call-failed,
}
use forta_node_tr.Js.{Thrown}
use forta_node_tr.Defender.Remote.{
  Credentials, PoolData, Api, Request, Remote, Event, signed_in, sent, World,
}
use forta_node_tr.Defender.Client.{
  Client, Settings, authenticate, create_authenticated_api, init, run, on_error, api_call,
  is_expired,
}

abbrev pub credentials : Client → Credentials
credentials c = record { username = c.api_key; password = c.api_secret }

-- What may follow a request that failed: nothing; or, where the session had expired, a second
-- sign-in and, if that succeeds, the request once more.
pub data Renewal (k : Credentials) (request : Api → Request) : List Event → Type 0 where
  stopped : Renewal k request []
  refused : (p : PoolData) → Renewal k request (signed_in k p ∷ [])
  repeated :
      (p : PoolData) (api : Api) → Renewal k request (signed_in k p ∷ sent (request api) ∷ [])

-- What one call of a client that has not signed in sends: a sign-in and, if that succeeds, the
-- request and a renewal.
pub data Traffic (k : Credentials) (request : Api → Request) : List Event → Type 0 where
  not_admitted : (p : PoolData) → Traffic k request (signed_in k p ∷ [])
  requested :
      (p : PoolData) (api : Api) {more : List Event}
      → Renewal k request more
      → Traffic k request (signed_in k p ∷ sent (request api) ∷ more)

-- The world `w'` is `w` after the events `more`, with the same process.
abbrev pub Follows : {S : Type 0} → World S → List Event → World S → Type 0
Follows w more w' = (w'.log ≡ w.log ++ more) × (w'.process ≡ w.process)

Follows-append :
    {S : Type 0} (w w' w'' : World S) (more more' : List Event)
    → Follows w more w'
    → Follows w' more' w''
    → Follows w (more ++ more') w''
Follows-append w w' w'' more more' (l, p) (l', p') =
    (l' ∙ ap (λ t. t ++ more') l ∙ append_assoc w.log more more', p' ∙ p)

module _ {S : Type 0} (remote : Remote S) (settings : World S → Settings) where
  abbrev pool : World S → PoolData
  pool w = record { user_pool_id = (settings w).pool_id; client_id = (settings w).pool_client_id }

  -- Signing in is one event, and leaves the process and the credentials alone.
  init-log :
      (c : Client) (w : World S)
      → let (_, (c', w')) = init remote settings (c, w) in
        Follows w (signed_in (credentials c) (pool w) ∷ []) w' × (credentials c' ≡ credentials c)
  unfolding init create_authenticated_api authenticate
  init-log c w = ground arith

  init-Follows :
      (c : Client) (w : World S) (r : Result Thrown Api) (c' : Client) (w' : World S)
      → init remote settings (c, w) ≡ (r, (c', w'))
      → Follows w (signed_in (credentials c) (pool w) ∷ []) w'
  init-Follows c w r c' w' e = rw e at ((init-log c w).0)

  module _ {A : Type 0} (fn : Api → Effect (World S) Thrown A) (request : Api → Request)
      (sends : (api : Api) (w : World S) → Follows w (sent (request api) ∷ []) (fn api w).1) where
    -- The state after a call of `init` and, if that signed in, of `fn`.
    init-run-Follows :
        (c : Client) (w : World S)
        → (more : List Event) × Follows w more
            ((init remote settings >>= run remote settings fn) (c, w)).1.1
          × Renewal (credentials c) request more
    init-run-Follows c w = elim (outcome_cases (init remote settings (c, w))) [
      | inl (api, (c', w'), e) ↦
          let first : Follows w (signed_in (credentials c) (pool w) ∷ []) w' =
            init-Follows c w (ok api) c' w' e in
          (
            signed_in (credentials c) (pool w) ∷ sent (request api) ∷ [],
            rw (>>=-ok (init remote settings) (run remote settings fn) (c, w) (c', w') api e) (
                unfold run in
                Follows-append w w' (fn api w').1 (signed_in (credentials c) (pool w) ∷ [])
                  (sent (request api) ∷ []) first (sends api w')),
            repeated (pool w) api,
          )
      | inr (t, (c', w'), e) ↦ (
        signed_in (credentials c) (pool w) ∷ [],
        rw (>>=-err (init remote settings) (run remote settings fn) (c, w) (c', w') t e)
            (init-Follows c w (err t) c' w' e),
        refused (pool w),
      )
    ]

    on_error_checked :
        (e : Thrown) (c : Client) (w : World S) (r : Result Thrown Bool)
        → is_expired e ≡ r
        → (more : List Event) × Follows w more (on_error remote settings fn e (c, w)).1.1
          × Renewal (credentials c) request more
    on_error_checked e c w (err t) q = (
      [],
      rw (on_error-throws remote settings fn e c w t q) (sym (append-nil w.log), refl),
      stopped,
    )
    on_error_checked e c w (ok false) q = (
      [],
      rw (on_error-passes remote settings fn e c w q) (sym (append-nil w.log), refl),
      stopped,
    )
    on_error_checked e c w (ok true) q =
        rw (on_error-renews remote settings fn e c w q) (init-run-Follows c w)

    on_error-Follows :
        (e : Thrown) (c : Client) (w : World S)
        → (more : List Event) × Follows w more (on_error remote settings fn e (c, w)).1.1
          × Renewal (credentials c) request more
    on_error-Follows e c w = on_error_checked e c w (is_expired e) refl

    -- Signed in, the request is sent, and a failure may renew the session.
    api_call_admitted :
        (c : Client) (w : World S) (fresh : c.api ≡ none) (api : Api) (c' : Client) (w' : World S)
        → init remote settings (c, w) ≡ (ok api, (c', w'))
        → (events : List Event) × Follows w events (api_call remote settings fn (c, w)).1.1
          × Traffic (credentials c) request events
    api_call_admitted c w fresh api c' w' e =
        let signed = signed_in (credentials c) (pool w) ∷ [] in
        let first : Follows w signed w' = init-Follows c w (ok api) c' w' e in
        let same : credentials c' ≡ credentials c = rw e at ((init-log c w).1) in
        elim (outcome_cases (fn api w')) [
          | inl (a, w'', f) ↦ (
            signed ++ sent (request api) ∷ [],
            rw (api_call-answered remote settings fn c w fresh api c' w' w'' a e f) (
                Follows-append w w' w'' signed (sent (request api) ∷ []) first
                  (rw f at (sends api w'))),
            requested (pool w) api stopped,
          )
          | inr (t, w'', f) ↦
              let (more, after, renewal) = on_error-Follows t c' w'' in
              (
                signed ++ (sent (request api) ∷ more),
                rw (api_call-failed remote settings fn c w fresh api c' w' w'' t e f) (
                    Follows-append w w' (on_error remote settings fn t (c', w'')).1.1 signed
                      (sent (request api) ∷ more) first
                      (Follows-append w' w'' (on_error remote settings fn t (c', w'')).1.1
                        (sent (request api) ∷ []) more (rw f at (sends api w')) after)),
                requested (pool w) api (subst (λ k. Renewal k request more) same renewal),
              )
        ]

    -- A call of a client that has not signed in: what it sends is a sign-in, then the request,
    -- then at most one more sign-in and one more request; the process is left alone.
    pub api_call-Traffic :
        (c : Client) (w : World S)
        → c.api ≡ none
        → (events : List Event) × Follows w events (api_call remote settings fn (c, w)).1.1
          × Traffic (credentials c) request events
    api_call-Traffic c w fresh = elim (outcome_cases (init remote settings (c, w))) [
      | inr (t, (c', w'), e) ↦ (
        signed_in (credentials c) (pool w) ∷ [],
        rw (api_call-refused remote settings fn c w fresh c' w' t e)
            (init-Follows c w (err t) c' w' e),
        not_admitted (pool w),
      )
      | inl (api, (c', w'), e) ↦ api_call_admitted c w fresh api c' w' e
    ]

  -- A value that `apiCall` returns is one that the function returned, with some instance.
  module _ {A : Type 0} (fn : Api → Effect (World S) Thrown A) where
    abbrev Returned : A → Type 0
    Returned a = (api : Api) × (w : World S) × ((fn api w).0 ≡ ok a)

    renewed-eq-ok :
        (c : Client) (w : World S) (a : A)
        → ((init remote settings >>= run remote settings fn) (c, w)).0 ≡ ok a
        → Returned a
    renewed-eq-ok c w a h = elim (outcome_cases (init remote settings (c, w))) [
      | inl (api, (c', w'), e) ↦ (
        api,
        w',
        unfold run in
            rw (>>=-ok (init remote settings) (run remote settings fn) (c, w) (c', w') api e) at h,
      )
      | inr (t, s', e) ↦
          cc (rw (>>=-err (init remote settings) (run remote settings fn) (c, w) s' t e) at h)
    ]

    on_error-eq-ok :
        (e : Thrown) (c : Client) (w : World S) (a : A) (r : Result Thrown Bool)
        → is_expired e ≡ r
        → (on_error remote settings fn e (c, w)).0 ≡ ok a
        → Returned a
    on_error-eq-ok e c w a (err t) q h = cc (rw (on_error-throws remote settings fn e c w t q) at h)
    on_error-eq-ok e c w a (ok false) q h =
        cc (rw (on_error-passes remote settings fn e c w q) at h)
    on_error-eq-ok e c w a (ok true) q h =
        renewed-eq-ok c w a (rw (on_error-renews remote settings fn e c w q) at h)

    pub api_call-eq-ok :
        (c : Client) (w : World S) (a : A)
        → c.api ≡ none
        → (api_call remote settings fn (c, w)).0 ≡ ok a
        → Returned a
    api_call-eq-ok c w a fresh h = elim (outcome_cases (init remote settings (c, w))) [
      | inr (t, (c', w'), e) ↦
          cc (rw (api_call-refused remote settings fn c w fresh c' w' t e) at h)
      | inl (api, (c', w'), e) ↦ elim (outcome_cases (fn api w')) [
        | inl (b, w'', f) ↦ (
          api,
          w',
          cc (f, rw (api_call-answered remote settings fn c w fresh api c' w' w'' b e f) at h),
        )
        | inr (t, w'', f) ↦
            on_error-eq-ok t c' w'' a (is_expired t) refl
              (rw (api_call-failed remote settings fn c w fresh api c' w' w'' t e f) at h)
      ]
    ]
