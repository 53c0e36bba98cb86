-- ===== src/Prelude/Lists.antt =====
-- Lists measured by native numbers, membership tests and predicates that hold of every item.
use Prim.Native.Nat.{ℕ, zero, suc, ◌+◌}
use mathlib.Core.Path.{◌≡◌, refl, sym, subst, ap, ◌∙◌}
use mathlib.Core.Bool.{Bool, true, false, true≢false, ◌||◌, ◌&&◌}
use forta_node_tr.Prelude.Tests.{◌==◌, ==_iff, if◌then◌else◌, Bool-cases}
use mathlib.Core.List.{List, [], ◌∷◌, ◌++◌, map}
use mathlib.Core.Logic.{◌≢◌, inl, inr}
use native.Mathlib.Omega.{arith}

module _ {ℓ} {A : Type ℓ} where
  abbrev pub length : List A → ℕ
  length [] = 0
  length (x ∷ xs) = suc (length xs)

  pub length-append : (xs ys : List A) → length (xs ++ ys) ≡ length xs + length ys
  length-append [] ys = omega arith
  length-append (x ∷ xs) ys = omega (arith, length-append xs ys)

  abbrev pub drop : ℕ → List A → List A
  drop zero xs = xs
  drop (suc n) [] = []
  drop (suc n) (x ∷ xs) = drop n xs

module _ {ℓ κ} {A : Type ℓ} (P : A → Type κ) where
  abbrev pub All : List A → Type κ
  All [] = Unit
  All (x ∷ xs) = P x × All xs

  pub All-append : (xs ys : List A) → All xs → All ys → All (xs ++ ys)
  All-append [] ys _ hy = hy
  All-append (x ∷ xs) ys (px, hx) hy = (px, All-append xs ys hx hy)

pub All-imp {ℓ κ κ'} :
    {A : Type ℓ} (P : A → Type κ) (Q : A → Type κ') (xs : List A)
    → ((x : A) → P x → Q x)
    → All P xs
    → All Q xs
All-imp P Q [] f _ = tt
All-imp P Q (x ∷ xs) f (px, hx) = (f x px, All-imp P Q xs f hx)

pub All-zip {ℓ κ κ' κ''} :
    {A : Type ℓ} (P : A → Type κ) (Q : A → Type κ') (R : A → Type κ'') (xs : List A)
    → ((x : A) → P x → Q x → R x)
    → All P xs
    → All Q xs
    → All R xs
All-zip P Q R [] f _ _ = tt
All-zip P Q R (x ∷ xs) f (px, hx) (qx, kx) = (f x px qx, All-zip P Q R xs f hx kx)

-- No item is the given number.
abbrev pub Lacks : ℕ → List ℕ → Type 0
Lacks c = All (λ x. x ≢ c)

-- The items that pass a test.
unfoldable pub select {ℓ} : {A : Type ℓ} → (A → Bool) → List A → List A
select f [] = []
select f (x ∷ xs) = if f x then x ∷ select f xs else select f xs

pub select-pass {ℓ} :
    {A : Type ℓ} (f : A → Bool) (x : A) (xs : List A)
    → f x ≡ true
    → select f (x ∷ xs) ≡ x ∷ select f xs
unfolding select
select-pass f x xs e = rw e refl

pub select-fail {ℓ} :
    {A : Type ℓ} (f : A → Bool) (x : A) (xs : List A)
    → f x ≡ false
    → select f (x ∷ xs) ≡ select f xs
unfolding select
select-fail f x xs e = rw e refl

pub All-select {ℓ κ} :
    {A : Type ℓ} (P : A → Type κ) (f : A → Bool) (xs : List A) → All P xs → All P (select f xs)
unfolding select
All-select P f [] _ = tt
All-select P f (x ∷ xs) (px, h) = elim (Bool-cases (f x)) [
  | inl e ↦ rw e (px, All-select P f xs h)
  | inr e ↦ rw e (All-select P f xs h)
]

unfoldable pub member : ℕ → List ℕ → Bool
member k [] = false
member k (j ∷ js) = (j == k) || member k js

pub member-append : (k : ℕ) (xs ys : List ℕ) → member k (xs ++ ys) ≡ (member k xs || member k ys)
unfolding member
member-append k [] ys = refl
member-append k (x ∷ xs) ys = ground (arith, member-append k xs ys)

pub member-select :
    (f : ℕ → Bool) (k : ℕ) (xs : List ℕ) → member k (select f xs) ≡ (member k xs && f k)
unfolding member select
member-select f k [] = refl
member-select f k (x ∷ xs) = ground (arith, member-select f k xs, ==_iff x k)

pub All-of-member {ℓ} :
    (P : ℕ → Type ℓ) (xs : List ℕ) → ((k : ℕ) → member k xs ≡ true → P k) → All P xs
unfolding member
All-of-member P [] f = tt
All-of-member P (x ∷ xs) f = (f x (ground arith), All-of-member P xs (λ k h. f k (ground arith)))

pub All-member {ℓ} : (P : ℕ → Type ℓ) (k : ℕ) (xs : List ℕ) → All P xs → member k xs ≡ true → P k
unfolding member
All-member P k [] h m = absurd (true≢false (sym m))
All-member P k (x ∷ xs) (px, h) m = elim (Bool-cases (x == k)) [
  | inl e ↦ subst P ((==_iff x k).0 e) px
  | inr e ↦ All-member P k xs h (ground arith)
]

-- Functions that agree on a list pick and map the same items.
pub map-select-agree {ℓ} :
    {A : Type ℓ} (f g : ℕ → Bool) (c d : ℕ → A) (ks : List ℕ)
    → ((k : ℕ) → member k ks ≡ true → (f k ≡ g k) × (c k ≡ d k))
    → map c (select f ks) ≡ map d (select g ks)
unfolding member select
map-select-agree f g c d [] e = refl
map-select-agree f g c d (k ∷ ks) e =
    let (test, item) = e k (ground (arith, ==_iff k k)) in
    let rest = map-select-agree f g c d ks (λ j m. e j (ground arith)) in
    subst
      (λ b.
        map c (if f k then k ∷ select f ks else select f ks)
        ≡ map d (if b then k ∷ select g ks else select g ks))
      test
      (elim (Bool-cases (f k)) [
        | inl h ↦ rw h (ap (λ x. x ∷ map c (select f ks)) item ∙ ap (λ l. d k ∷ l) rest)
        | inr h ↦ rw h rest
      ])

-- No number occurs twice.
abbrev pub Distinct : List ℕ → Type 0
Distinct [] = Unit
Distinct (k ∷ ks) = (member k ks ≡ false) × Distinct ks

pub Distinct-append :
    (xs ys : List ℕ)
    → Distinct xs
    → Distinct ys
    → ((k : ℕ) → member k xs ≡ true → member k ys ≡ false)
    → Distinct (xs ++ ys)
unfolding member
Distinct-append [] ys _ dy h = dy
Distinct-append (x ∷ xs) ys (fresh, dx) dy h = (
  ground (arith, member-append x xs ys, h x (ground (arith, ==_iff x x)), fresh),
  Distinct-append xs ys dx dy (λ k m. h k (ground arith)),
)

pub Distinct-select : (f : ℕ → Bool) (xs : List ℕ) → Distinct xs → Distinct (select f xs)
unfolding select
Distinct-select f [] _ = tt
Distinct-select f (x ∷ xs) (fresh, d) = elim (Bool-cases (f x)) [
  | inl e ↦ rw e (ground (arith, member-select f x xs, fresh), Distinct-select f xs d)
  | inr e ↦ rw e (Distinct-select f xs d)
]
