-- ===== src/Axios/Interceptors/Order.antt =====
-- The order in which axios runs interceptors, and what ejecting one undoes
-- (.github/actions/propose/dist/index.js).
use forta_node_tr.Prelude.{
  ℕ, ◌-◌, ◌+◌, List, [], ◌∷◌, ◌++◌, Bool, none, some, length, length-append, Result, ok, err, ◌≡◌,
  refl, ap, ◌∙◌, arith,
}
use forta_node_tr.Js.{Value, Thrown}
use forta_node_tr.Axios.Interceptors.{Interceptor, Manager, use_interceptor, eject, active}

last_id : (k m n : ℕ) → n ≡ m + 1 → n - 1 ≡ m
last_id k m n e = omega (arith, e)

-- The last one first.
abbrev pub apply_last_first : List (Value → Value) → Value → Value
apply_last_first [] v = v
apply_last_first (f ∷ fs) v = f (apply_last_first fs v)

-- The first one first.
abbrev pub apply_first_first : List (Value → Value) → Value → Value
apply_first_first [] v = v
apply_first_first (f ∷ fs) v = apply_first_first fs (f v)

module _ {S : Type 0} where
  eject_last :
      (i : Interceptor S) (m : Manager S)
      → active (eject (length m) (m ++ (some i ∷ []))) ≡ active m
  unfolding eject active
  eject_last i [] = refl
  eject_last i (none ∷ m) = eject_last i m
  eject_last i (some j ∷ m) = ap (λ l. j ∷ l) (eject_last i m)

  -- Ejecting the id that `use` returned leaves the interceptors that were active before it.
  eject-use_interceptor :
      (i : Interceptor S) (m : Manager S)
      → active (eject (use_interceptor i m).0 (use_interceptor i m).1) ≡ active m
  unfolding use_interceptor
  eject-use_interceptor i m =
      ap (λ n. active (eject n (m ++ (some i ∷ []))))
        (last_id 0 (length m) (length (m ++ (some i ∷ []))) (length-append m (some i ∷ [])))
      ∙ eject_last i m

  -- An interceptor that maps values and never throws.
  abbrev pub mapping : Bool → (Value → Value) → Interceptor S
  mapping sync f = record {
    fulfilled = some (λ v s. (ok (f v), s));
    rejected = none;
    synchronous = sync;
    run_when = none;
  }

  abbrev pub mappings : Bool → List (Value → Value) → Manager S
  mappings sync [] = []
  mappings sync (f ∷ fs) = some (mapping sync f) ∷ mappings sync fs

  abbrev pub map_ok : (Value → Value) → Result Thrown Value × S → Result Thrown Value × S
  map_ok f (ok v, s) = (ok (f v), s)
  map_ok f (err e, s) = (err e, s)
