-- ===== src/Prelude/Splitting.antt =====
-- Splitting a text at a separator, and joining the parts.
use mathlib.Core.Path.{◌≡◌, refl}
use mathlib.Core.List.{List, [], ◌∷◌, ◌++◌, append-nil}
use Prim.Native.Nat.{ℕ}
use native.Mathlib.Omega.{arith}
use forta_node_tr.Prelude.Tests.{◌==◌, if◌then◌else◌}
use forta_node_tr.Prelude.Lists.{All, Lacks}
use forta_node_tr.Prelude.Strings.{Text, join, join_behind, split, split_first}

-- The text before the first `c` and the text behind it, the second empty where there is none.
abbrev pub break_at : ℕ → Text → Text × Text
break_at c [] = ([], [])
break_at c (x ∷ s) = let (a, b) = break_at c s in if x == c then ([], s) else (x ∷ a, b)

pub break_at-append : (c : ℕ) (a b : Text) → Lacks c a → break_at c (a ++ c ∷ b) ≡ (a, b)
break_at-append c [] b h = ground arith
break_at-append c (x ∷ a) b h = ground (arith, break_at-append c a b h.1)

pub break_at-Lacks : (c : ℕ) (a : Text) → Lacks c a → break_at c a ≡ (a, [])
break_at-Lacks c [] h = refl
break_at-Lacks c (x ∷ a) h = ground (arith, break_at-Lacks c a h.1)

split_first-append : (c : ℕ) (a b : Text) → Lacks c a → split_first c (a ++ c ∷ b) ≡ (a, split c b)
unfolding split split_first
split_first-append c [] b h = ground arith
split_first-append c (x ∷ a) b h = ground (arith, split_first-append c a b h.1)

split_first-Lacks : (c : ℕ) (a : Text) → Lacks c a → split_first c a ≡ (a, [])
unfolding split_first
split_first-Lacks c [] h = refl
split_first-Lacks c (x ∷ a) h = ground (arith, split_first-Lacks c a h.1)

-- Parts that do not hold the separator come back from their join.
pub split-join :
    (c : ℕ) (s : Text) (l : List Text)
    → Lacks c s
    → All (Lacks c) l
    → split c (join (c ∷ []) (s ∷ l)) ≡ s ∷ l
unfolding split join join_behind
split-join c s [] h k = rw (append-nil s, split_first-Lacks c s h)
split-join c s (t ∷ l) h k =
    rw (split_first-append c s (join (c ∷ []) (t ∷ l)) h, split-join c t l k.0 k.1)
