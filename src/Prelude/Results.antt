-- ===== src/Prelude/Results.antt =====
-- A computation that returns a value or throws, and the same over a state that is kept when it
-- throws.
use mathlib.Core.Path.{◌≡◌, refl, sym, subst}
use mathlib.Core.Logic.{◌⊎◌, inl, inr}

pub data Result (E A : Type 0) : Type 0 where
  ok : A → Result E A
  err : E → Result E A

-- An effect on a state `S`: what was written before a throw stays written.
abbrev pub Effect : Type 0 → Type 0 → Type 0 → Type 0
Effect S E A = S → Result E A × S

module _ {S E A : Type 0} where
  abbrev pub pure : A → Effect S E A
  pure a s = (ok a, s)

  abbrev pub raise : E → Effect S E A
  raise e s = (err e, s)

  abbrev pub gets : (S → A) → Effect S E A
  gets f s = (ok (f s), s)

module _ {S E : Type 0} where
  abbrev pub modify : (S → S) → Effect S E (Unit {0})
  modify f s = (ok tt, f s)

infixl 5 ◌>>=◌ ◌>>◌
abbrev pub ◌>>=◌ : {S E A B : Type 0} → Effect S E A → (A → Effect S E B) → Effect S E B
◌>>=◌ m f s = let (r, s') = m s in elim r [ ok a ↦ f a s' | err e ↦ (err e, s') ]

abbrev pub ◌>>◌ : {S E A B : Type 0} → Effect S E A → Effect S E B → Effect S E B
m >> k = m >>= λ _. k

module _ {S E A B : Type 0} (m : Effect S E A) (f : A → Effect S E B) where
  pub >>=-ok : (s s' : S) (a : A) → m s ≡ (ok a, s') → (m >>= f) s ≡ f a s'
  >>=-ok s s' a h = rw (h, ◌>>=◌) (rw h)

  pub >>=-err : (s s' : S) (e : E) → m s ≡ (err e, s') → (m >>= f) s ≡ (err e, s')
  >>=-err s s' e h = rw (h, ◌>>=◌) (rw h)

-- A call returned a value or threw, with the state that it left.
pub outcome_cases :
    {S E A : Type 0} (x : Result E A × S)
    → ((a : A) × (s : S) × (x ≡ (ok a, s))) ⊎ ((e : E) × (s : S) × (x ≡ (err e, s)))
outcome_cases (ok a, s) = inl (a, s, refl)
outcome_cases (err e, s) = inr (e, s, refl)

pub result_cases :
    {E A : Type 0} (r : Result E A) → ((a : A) × (r ≡ ok a)) ⊎ ((e : E) × (r ≡ err e))
result_cases (ok a) = inl (a, refl)
result_cases (err e) = inr (e, refl)

-- How a call ends: `P` holds of what it returns, `Q` of what it throws.
module _ {S E A : Type 0} (P : A → S → Type 0) (Q : E → S → Type 0) where
  abbrev pub Ends : Result E A × S → Type 0
  Ends (ok a, s) = P a s
  Ends (err e, s) = Q e s

pub Ends-any : {S E A : Type 0} (x : Result E A × S) → Ends (λ _ _. Unit {0}) (λ _ _. Unit {0}) x
Ends-any (ok a, s) = tt
Ends-any (err e, s) = tt

-- A weaker end follows.
pub Ends-imp :
    {S E A : Type 0} (P P' : A → S → Type 0) (Q Q' : E → S → Type 0) (x : Result E A × S)
    → ((a : A) (s : S) → P a s → P' a s)
    → ((e : E) (s : S) → Q e s → Q' e s)
    → Ends P Q x
    → Ends P' Q' x
Ends-imp P P' Q Q' (ok a, s) f g h = f a s h
Ends-imp P P' Q Q' (err e, s) f g h = g e s h

-- A chain ends well when each call does.
pub Ends-bind :
    {S E A B : Type 0} (P : A → S → Type 0) (P' : B → S → Type 0) (Q : E → S → Type 0)
    (m : Effect S E A) (f : A → Effect S E B) (s : S)
    → Ends P Q (m s)
    → ((a : A) (t : S) → P a t → Ends P' Q (f a t))
    → Ends P' Q ((m >>= f) s)
Ends-bind P P' Q m f s h k = elim (outcome_cases (m s)) [
  | inl (a, t, e) ↦ subst (Ends P' Q) (sym (>>=-ok m f s t a e)) (k a t (subst (Ends P Q) e h))
  | inr (e, t, q) ↦ subst (Ends P' Q) (sym (>>=-err m f s t e q)) (subst (Ends P Q) q h)
]
