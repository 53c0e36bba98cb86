-- ===== src/Prelude/Strings.antt =====
-- JavaScript strings: lists of UTF-16 code units, with the string operations that the code uses.
-- `to_upper` and `to_lower` change the ASCII letters.
use Prim.Native.Nat.{ℕ, ◌+◌, ◌-◌}
use Prim.Native.Char.{code}
use Prim.Native.String.{String}
use mathlib.Core.Path.{◌≡◌, refl}
use mathlib.Core.Logic.{◌↔◌, ◌≢◌}
use mathlib.Core.Bool.{Bool, true, false, ◌&&◌, ◌||◌}
use mathlib.Core.List.{List, [], ◌∷◌, ◌++◌, map, reverse}
use native.Mathlib.Omega.{arith}
use forta_node_tr.Prelude.Tests.{◌==◌, leb, if◌then◌else◌}

abbrev pub Text : Type 0
Text = List ℕ

abbrev pub codes : String → Text
codes String.[] = []
codes (String.◌∷◌ c s) = code c ∷ codes s

-- `a === b`
unfoldable pub text_eq : Text → Text → Bool
text_eq [] [] = true
text_eq [] (y ∷ t) = false
text_eq (x ∷ s) [] = false
text_eq (x ∷ s) (y ∷ t) = (x == y) && text_eq s t

pub text_eq_iff : (s t : Text) → (text_eq s t ≡ true) ↔ (s ≡ t)
unfolding text_eq
text_eq_iff [] [] = ground arith
text_eq_iff [] (y ∷ t) = ground arith
text_eq_iff (x ∷ s) [] = ground arith
text_eq_iff (x ∷ s) (y ∷ t) = ground (arith, text_eq_iff s t)

pub text_eq_refl : (s : Text) → text_eq s s ≡ true
text_eq_refl s = (text_eq_iff s s).1 refl

-- The empty string is falsy.
abbrev pub is_empty : Text → Bool
is_empty [] = true
is_empty (x ∷ s) = false

pub is_empty_iff : (s : Text) → (is_empty s ≡ true) ↔ (s ≡ [])
is_empty_iff [] = ground arith
is_empty_iff (x ∷ s) = ground arith

pub is_empty-eq-false : (s : Text) → s ≢ [] → is_empty s ≡ false
is_empty-eq-false [] h = absurd (h refl)
is_empty-eq-false (x ∷ s) h = refl

-- `s || t`
abbrev pub or_text : Text → Text → Text
or_text [] t = t
or_text (x ∷ s) t = x ∷ s

abbrev pub includes : List Text → Text → Bool
includes [] t = false
includes (s ∷ l) t = text_eq s t || includes l t

-- `s.replace(/c/g, w)`
unfoldable pub replace_all : ℕ → Text → Text → Text
replace_all c w [] = []
replace_all c w (x ∷ s) = (if x == c then w else x ∷ []) ++ replace_all c w s

-- `l.join(sep)`
unfoldable pub join_behind : Text → List Text → Text
join_behind sep [] = []
join_behind sep (s ∷ l) = sep ++ s ++ join_behind sep l

unfoldable pub join : Text → List Text → Text
unfolding join_behind
join sep [] = []
join sep (s ∷ l) = s ++ join_behind sep l

-- `s.split(c)`: the part before the first `c`, and the parts behind it
unfoldable pub split_first : ℕ → Text → Text × List Text
split_first c [] = ([], [])
split_first c (x ∷ s) =
    let (part, parts) = split_first c s in if x == c then ([], part ∷ parts) else (x ∷ part, parts)

unfoldable pub split : ℕ → Text → List Text
unfolding split_first
split c s = let (part, parts) = split_first c s in part ∷ parts

abbrev pub is_upper : ℕ → Bool
is_upper c = leb b'A' c && leb c b'Z'

abbrev pub is_lower : ℕ → Bool
is_lower c = leb b'a' c && leb c b'z'

unfoldable pub to_upper : Text → Text
to_upper = map (λ c. if is_lower c then c - 32 else c)

unfoldable pub to_lower : Text → Text
to_lower = map (λ c. if is_upper c then c + 32 else c)

-- The white space and line ends that `trim` removes.
unfoldable pub is_space : ℕ → Bool
is_space c =
    (leb 9 c && leb c 13)
    || c == 32
    || c == 0xa0
    || c == 0x1680
    || (leb 0x2000 c && leb c 0x200a)
    || c == 0x2028
    || c == 0x2029
    || c == 0x202f
    || c == 0x205f
    || c == 0x3000
    || c == 0xfeff

abbrev pub trim_start : Text → Text
trim_start [] = []
trim_start (x ∷ s) = if is_space x then trim_start s else x ∷ s

unfoldable pub trim : Text → Text
trim s = reverse (trim_start (reverse (trim_start s)))
