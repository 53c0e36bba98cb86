-- ===== src/Defender/Client/Steps.antt =====
-- The branches of apiCall and of its `catch`, as equations
-- (defender-base-client in .github/actions/propose/dist/index.js).
use forta_node_tr.Prelude.{true, false, none, Result, ok, err, Effect, ◌>>=◌, ◌≡◌, ◌∙◌, arith}
use forta_node_tr.Js.{Thrown}
use forta_node_tr.Defender.Remote.{Api, Remote, World}
use forta_node_tr.Defender.Client.{
  Client, Settings, init, ensure_init, run, on_error, api_call, is_expired,
}

module _ {S : Type 0} (remote : Remote S) (settings : World S → Settings) {A : Type 0}
    (fn : Api → Effect (World S) Thrown A) where
  pub on_error-throws :
      (e : Thrown) (c : Client) (w : World S) (t : Thrown)
      → is_expired e ≡ err t
      → on_error remote settings fn e (c, w) ≡ (err t, (c, w))
  unfolding on_error
  on_error-throws e c w t q = rw (q, on_error)

  pub on_error-passes :
      (e : Thrown) (c : Client) (w : World S)
      → is_expired e ≡ ok false
      → on_error remote settings fn e (c, w) ≡ (err e, (c, w))
  unfolding on_error
  on_error-passes e c w q = rw (q, on_error)

  pub on_error-renews :
      (e : Thrown) (c : Client) (w : World S)
      → is_expired e ≡ ok true
      → on_error remote settings fn e (c, w)
        ≡ (init remote settings >>= run remote settings fn) (c, w)
  unfolding on_error
  on_error-renews e c w q = rw (q, on_error)

  module _ (c : Client) (w : World S) (fresh : c.api ≡ none) where
    ensure_init-eq : ensure_init remote settings (c, w) ≡ init remote settings (c, w)
    unfolding ensure_init
    ensure_init-eq = ground arith

    pub api_call-refused :
        (c' : Client) (w' : World S) (t : Thrown)
        → init remote settings (c, w) ≡ (err t, (c', w'))
        → api_call remote settings fn (c, w) ≡ (err t, (c', w'))
    unfolding api_call
    api_call-refused c' w' t e = let q = ensure_init-eq ∙ e in rw (q, api_call) (rw q)

    run_ready :
        (api : Api) (c' : Client) (w' w'' : World S) (r : Result Thrown A)
        → init remote settings (c, w) ≡ (ok api, (c', w'))
        → fn api w' ≡ (r, w'')
        → run remote settings fn api (ensure_init remote settings (c, w)).1 ≡ (r, (c', w''))
    unfolding run
    run_ready api c' w' w'' r e f = rw (ensure_init-eq ∙ e) (rw f)

    pub api_call-answered :
        (api : Api) (c' : Client) (w' w'' : World S) (a : A)
        → init remote settings (c, w) ≡ (ok api, (c', w'))
        → fn api w' ≡ (ok a, w'')
        → api_call remote settings fn (c, w) ≡ (ok a, (c', w''))
    unfolding api_call
    api_call-answered api c' w' w'' a e f =
        let g = run_ready api c' w' w'' (ok a) e f in
        rw (ensure_init-eq ∙ e, api_call) (rw g (rw g))

    pub api_call-failed :
        (api : Api) (c' : Client) (w' w'' : World S) (t : Thrown)
        → init remote settings (c, w) ≡ (ok api, (c', w'))
        → fn api w' ≡ (err t, w'')
        → api_call remote settings fn (c, w) ≡ on_error remote settings fn t (c', w'')
    unfolding api_call
    api_call-failed api c' w' w'' t e f =
        let g = run_ready api c' w' w'' (err t) e f in
        rw (ensure_init-eq ∙ e, api_call) (rw g (rw g))
