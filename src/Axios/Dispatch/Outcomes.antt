-- ===== src/Axios/Dispatch/Outcomes.antt =====
-- When a request of axios is cancelled or fails (.github/actions/propose/dist/index.js).
use forta_node_tr.Prelude.{
  Text, List, none, some, Result, ok, err, Effect, ◌≡◌, refl, sym, ap, ◌∙◌, Option-cases, inl, inr,
}
use forta_node_tr.Axios.Dispatch.{
  AxiosResponse, Reason, failure, cancel, Config, Token, cancelled, after_adapter, prepared_config,
  dispatch_request, Transform,
}

after_adapter-cancelled :
    {S : Type 0} (fs : List Transform) (token : Token S) (x : Result Reason AxiosResponse × S)
    (message : Text)
    → cancelled token x.1 ≡ some message
    → (m : Text) × ((after_adapter fs token x).0 ≡ err (cancel m))
unfolding after_adapter
after_adapter-cancelled fs token (ok r, s) message h = (message, rw (h, after_adapter) refl)
after_adapter-cancelled fs token (err (cancel m), s) message h = (m, refl)
after_adapter-cancelled fs token (err (failure m r), s) message h =
    (message, rw (h, after_adapter) refl)

after_adapter-state :
    {S : Type 0} (fs : List Transform) (token : Token S) (x : Result Reason AxiosResponse × S)
    → (after_adapter fs token x).1 ≡ x.1
unfolding after_adapter
after_adapter-state fs token (ok r, s) = elim (Option-cases (cancelled token s)) [
  | inl h ↦ rw (h, after_adapter) refl
  | inr (m, h) ↦ rw (h, after_adapter) refl
]
after_adapter-state fs token (err (cancel m), s) = refl
after_adapter-state fs token (err (failure m none), s) = elim (Option-cases (cancelled token s)) [
  | inl h ↦ rw (h, after_adapter) refl
  | inr (m, h) ↦ rw (h, after_adapter) refl
]
after_adapter-state fs token (err (failure m (some r)), s) =
    elim (Option-cases (cancelled token s)) [
      | inl h ↦ rw (h, after_adapter) refl
      | inr (m, h) ↦ rw (h, after_adapter) refl
    ]

-- A request whose token is cancelled by the time that it ends is rejected with a cancellation,
-- whatever the adapter answered.
pub dispatch_request-cancelled :
    {S : Type 0} (adapter : Config S → Effect S Reason AxiosResponse) (token : Token S)
    (c : Config S) (s : S) (message : Text)
    → cancelled token (dispatch_request adapter token c s).1 ≡ some message
    → (m : Text) × ((dispatch_request adapter token c s).0 ≡ err (cancel m))
unfolding dispatch_request
dispatch_request-cancelled adapter token c s message h = elim (Option-cases (cancelled token s)) [
  | inr (m, e) ↦ (m, rw (e, dispatch_request) refl)
  | inl e ↦
      let x = adapter (prepared_config c) s in
      let fs = c.transform_response in
      let run : dispatch_request adapter token c s ≡ after_adapter fs token x =
        rw (e, dispatch_request) refl in
      let (m, g) = after_adapter-cancelled fs token x message (
        ap (cancelled token) (sym (after_adapter-state fs token x))
        ∙ ap (λ y. cancelled token y.1) (sym run)
        ∙ h) in
      (m, ap (λ y. y.0) run ∙ g)
]
