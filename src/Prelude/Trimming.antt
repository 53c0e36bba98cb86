-- ===== src/Prelude/Trimming.antt =====
-- What `trim`, and splitting with the empty parts dropped, keep of a text.
use mathlib.Core.Path.{◌≡◌, refl, sym, ap, ◌∙◌}
use mathlib.Core.Logic.{inl, inr}
use mathlib.Core.Bool.{true, false}
use mathlib.Core.List.{[], ◌∷◌, ◌++◌, reverse, reverse-append, reverse-reverse}
use Prim.Native.Nat.{ℕ}
use forta_node_tr.Prelude.Tests.{Bool-cases, if◌then◌else◌}
use forta_node_tr.Prelude.Lists.{All, All-append}
use forta_node_tr.Prelude.Strings.{Text, is_space, trim_start, trim}

abbrev pub IsSpace : ℕ → Type 0
IsSpace x = is_space x ≡ true

-- The text is empty or begins with a unit that is no white space.
abbrev pub StartsInk : Text → Type 0
StartsInk [] = Unit
StartsInk (x ∷ s) = is_space x ≡ false

-- The white space at the start, which `trim_start` takes off.
abbrev lead : Text → Text
lead [] = []
lead (x ∷ s) = if is_space x then x ∷ lead s else []

lead-trim_start : (s : Text) → lead s ++ trim_start s ≡ s
lead-trim_start [] = refl
lead-trim_start (x ∷ s) = elim (Bool-cases (is_space x)) [
  | inl space ↦ rw space (ap (λ t. x ∷ t) (lead-trim_start s))
  | inr ink ↦ rw ink
]

lead-IsSpace : (s : Text) → All IsSpace (lead s)
lead-IsSpace [] = tt
lead-IsSpace (x ∷ s) = elim (Bool-cases (is_space x)) [
  | inl space ↦ rw space (space, lead-IsSpace s)
  | inr ink ↦ rw ink tt
]

trim_start-StartsInk : (s : Text) → StartsInk (trim_start s)
trim_start-StartsInk [] = tt
trim_start-StartsInk (x ∷ s) = elim (Bool-cases (is_space x)) [
  | inl space ↦ rw space (trim_start-StartsInk s)
  | inr ink ↦ rw ink ink
]

StartsInk-append : (s t : Text) → StartsInk (s ++ t) → StartsInk s
StartsInk-append [] t h = tt
StartsInk-append (x ∷ s) t h = h

All-reverse {ℓ} : (P : ℕ → Type ℓ) (s : Text) → All P s → All P (reverse s)
All-reverse P [] h = tt
All-reverse P (x ∷ s) h =
    rw (reverse-append (x ∷ []) s)
      (All-append P (reverse s) (x ∷ []) (All-reverse P s h.1) (h.0, tt))

-- The white space at the end, which the second pass takes off.
trail : Text → Text
trail s = reverse (lead (reverse s))

trail-trim_start : (s : Text) → reverse (trim_start (reverse s)) ++ trail s ≡ s
unfolding trail
trail-trim_start s =
    sym (reverse-append (lead (reverse s)) (trim_start (reverse s)))
    ∙ ap reverse (lead-trim_start (reverse s))
    ∙ reverse-reverse s

-- What `trim` returns lies in the text between white space, and neither begins nor ends with any.
pub trim_lem :
    (s : Text)
    → (before : Text) × (after : Text) × (s ≡ before ++ (trim s ++ after))
      × All IsSpace before
      × All IsSpace after
      × StartsInk (trim s)
      × StartsInk (reverse (trim s))
unfolding trim trail
trim_lem s =
    let u = trim_start s in
    (
      lead s,
      trail u,
      sym (lead-trim_start s) ∙ ap (λ t. lead s ++ t) (sym (trail-trim_start u)),
      lead-IsSpace s,
      All-reverse IsSpace (lead (reverse u)) (lead-IsSpace (reverse u)),
      StartsInk-append (reverse (trim_start (reverse u))) (trail u)
          (rw (trail-trim_start u) (trim_start-StartsInk s)),
      rw (reverse-reverse (trim_start (reverse u))) (trim_start-StartsInk (reverse u)),
    )
