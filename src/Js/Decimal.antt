-- ===== src/Js/Decimal.antt =====
-- A natural number as the template literal `${n}` prints it (below 10^21, where JavaScript goes
-- over to an exponent).
use mathlib.Core.WellFounded.{Acc, WellFounded}
use mathlib.Core.Logic.{dite}
use native.Mathlib.Decide.{dec_lt}
use forta_node_tr.Prelude.{
  ℕ, zero, suc, ◌+◌, ◌/◌, ◌%◌, ◌<◌, Text, [], ◌∷◌, arith, ◌==◌, if◌then◌else◌, ◌≡◌, refl, codes,
}

Acc-below : (k n : ℕ) → n < k → Acc ◌<◌ n
Acc-below zero n h = absurd (omega arith)
Acc-below (suc k) n h = Acc.intro n (λ m hm. Acc-below k m (omega arith))

lt_wf : WellFounded ◌<◌
unfolding Acc-below
lt_wf = record { apply = λ n. Acc-below (suc n) n (omega arith) }

emit : (n : ℕ) → Acc ◌<◌ n → Text → Text
emit n (Acc.intro _ smaller) out =
    dite (dec_lt 0 n) (λ h. emit (n / 10) (smaller (n / 10) (omega arith)) ((b'0' + n % 10) ∷ out))
      (λ _. out)

unfoldable pub print_nat : ℕ → Text
unfolding emit lt_wf dec_lt
print_nat n = if n == 0 then b'0' ∷ [] else emit n (lt_wf.apply n) []

print_80 : print_nat 8080 ≡ codes "8080"
unfolding print_nat
print_80 = refl
