-- ===== src/Axios/Cancel.antt =====
-- Cancel, CancelToken and isCancel of axios (.github/actions/propose/dist/index.js). What waits for
-- the promise of a token is not modelled.
use forta_node_tr.Prelude.{
  Text, List, [], ◌∷◌, ◌++◌, Bool, true, false, Option, none, some, codes, is_empty, if◌then◌else◌,
  Result, ok, err, ◌≡◌, refl, ap,
}

-- `Cancel`, with the message that it was made with.
pub record CancelReason : Type 0 where
  pub message : Text

-- What a promise may be rejected with.
pub data Rejection : Type 0 where
  cancel_reason : CancelReason → Rejection
  other_error : Text → Rejection

is_cancel : Rejection → Bool
is_cancel (cancel_reason c) = true
is_cancel (other_error t) = false

cancel_text : CancelReason → Text
cancel_text c = codes "Cancel" ++ (if is_empty c.message then [] else codes ": " ++ c.message)

pub record CancelToken : Type 0 where
  pub reason : Option CancelReason

-- `CancelToken.source()`: a token that is not cancelled; its `cancel` is the next function.
pub new_token : CancelToken
new_token = record { reason = none }

cancel_token : Text → CancelToken → CancelToken
cancel_token message t = elim t.reason [
  | some r ↦ t
  | none ↦ record t { reason = some (record { message = message }) }
]

pub throw_if_requested : CancelToken → Result CancelReason (Unit {0})
throw_if_requested t = elim t.reason [ some r ↦ err r | none ↦ ok tt ]

-- `cancel` is called for each message.
pub cancel_each : List Text → CancelToken → CancelToken
unfolding cancel_token
cancel_each [] t = t
cancel_each (m ∷ ms) t = cancel_each ms (cancel_token m t)

cancel_each-cancelled :
    (ms : List Text) (r : CancelReason)
    → cancel_each ms (record { reason = some r }) ≡ record { reason = some r }
unfolding cancel_each
cancel_each-cancelled [] r = refl
cancel_each-cancelled (m ∷ ms) r = cancel_each-cancelled ms r

-- Only the first of several cancellations counts: it is what is thrown from then on.
pub throw_if_requested-cancel_each :
    (m : Text) (ms : List Text)
    → throw_if_requested (cancel_each (m ∷ ms) new_token) ≡ err (record { message = m })
unfolding throw_if_requested cancel_each new_token
throw_if_requested-cancel_each m ms =
    ap throw_if_requested (cancel_each-cancelled ms (record { message = m }))
