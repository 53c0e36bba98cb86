-- ===== src/Axios/Interceptors.antt =====
-- InterceptorManager and the part of Axios.prototype.request that runs the interceptors
-- (.github/actions/propose/dist/index.js). What runs in between, dispatchRequest, is an argument.
pub mod Order
use forta_node_tr.Prelude.{
  ℕ, zero, suc, ◌-◌, Text, List, [], ◌∷◌, ◌++◌, Bool, true, false, not, ◌&&◌, Option, none, some,
  codes, if◌then◌else◌, length, Result, ok, err, Effect,
}
use forta_node_tr.Js.{Value, Thrown, error}

abbrev pub Handler : Type 0 → Type 0 → Type 0
Handler S A = A → Effect S Thrown Value

-- `then(f, r)`, and one entry of a manager; a handler may be missing.
pub record Interceptor (S : Type 0) : Type 0 where
  pub fulfilled : Option (Handler S Value)
  pub rejected : Option (Handler S Thrown)
  pub synchronous : Bool
  pub run_when : Option (Value → Bool)

-- The entries of a manager, null once ejected.
abbrev pub Manager : Type 0 → Type 0
Manager S = List (Option (Interceptor S))

no_function : Text → Thrown
no_function name = error (codes "TypeError") (name ++ codes " is not a function")

module _ {S : Type 0} where
  -- `use`: the manager and the id of the new entry.
  pub use_interceptor : Interceptor S → Manager S → ℕ × Manager S
  use_interceptor i m = (length (m ++ (some i ∷ [])) - 1, m ++ (some i ∷ []))

  pub eject : ℕ → Manager S → Manager S
  eject id [] = []
  eject zero (h ∷ m) = none ∷ m
  eject (suc id) (h ∷ m) = h ∷ eject id m

  -- What `forEach` calls its function for.
  pub active : Manager S → List (Interceptor S)
  active [] = []
  active (none ∷ m) = active m
  active (some i ∷ m) = i ∷ active m

  pub skipped : Interceptor S → Value → Bool
  skipped i config = elim i.run_when [ none ↦ false | some f ↦ not (f config) ]

  -- `requestInterceptorChain`: each is put in front of the earlier ones.
  pub request_chain : Value → List (Interceptor S) → List (Interceptor S) → List (Interceptor S)
  request_chain config chain [] = chain
  request_chain config chain (i ∷ is) =
      request_chain config (if skipped i config then chain else i ∷ chain) is

  -- `synchronousRequestInterceptors`
  pub all_synchronous : Value → Bool → List (Interceptor S) → Bool
  all_synchronous config flag [] = flag
  all_synchronous config flag (i ∷ is) =
      all_synchronous config (if skipped i config then flag else flag && i.synchronous) is

  -- `promise.then(fulfilled, rejected)` on a promise that is settled.
  pub then_settled : Interceptor S → Result Thrown Value × S → Result Thrown Value × S
  then_settled i (ok v, s) = elim i.fulfilled [ none ↦ (ok v, s) | some f ↦ f v s ]
  then_settled i (err e, s) = elim i.rejected [ none ↦ (err e, s) | some r ↦ r e s ]

  pub then_all : List (Interceptor S) → Result Thrown Value × S → Result Thrown Value × S
  then_all [] x = x
  then_all (i ∷ is) x = then_all is (then_settled i x)

  pub dispatched :
      (Value → Effect S Thrown Value) → Result Thrown Value × S → Result Thrown Value × S
  dispatched dispatch (ok v, s) = dispatch v s
  dispatched dispatch (err e, s) = (err e, s)

  -- `onRejected(error)` and `break`: the request goes on with the configuration so far, unless
  -- this throws.
  pub broken : Interceptor S → Value → Thrown → S → Result Thrown Value × S
  unfolding no_function
  broken i config e s = elim i.rejected [
    | none ↦ (err (no_function (codes "onRejected")), s)
    | some r ↦ let (x, s') = r e s in elim x [ ok v ↦ (ok config, s') | err e' ↦ (err e', s') ]
  ]

  -- The loop over synchronous interceptors.
  pub run_synchronous : List (Interceptor S) → Value → S → Result Thrown Value × S
  unfolding no_function
  run_synchronous [] config s = (ok config, s)
  run_synchronous (i ∷ is) config s = elim i.fulfilled [
    | none ↦ broken i config (no_function (codes "onFulfilled")) s
    | some f ↦
        let (x, s') = f config s in
        elim x [ ok config' ↦ run_synchronous is config' s' | err e ↦ broken i config e s' ]
  ]

  -- The part of `request` from the interceptors on.
  pub run_interceptors :
      Manager S → Manager S → (Value → Effect S Thrown Value) → Value → Effect S Thrown Value
  run_interceptors requests responses dispatch config s =
      let chain = request_chain config [] (active requests) in
      then_all (active responses) (
        dispatched dispatch (
          if all_synchronous config true (active requests)
          then run_synchronous chain config s
          else then_all chain (ok config, s)))
