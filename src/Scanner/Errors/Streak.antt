-- ===== src/Scanner/Errors/Streak.antt =====
-- When the counter of errors reports too many (services/scanner/agentpool/poolagent/error_counter.go).
use forta_node_tr.Prelude.{
  ℕ, suc, ◌^◌, ◌<◌, ◌≤◌, Text, List, [], ◌∷◌, Bool, true, Option, none, some, length, if◌then◌else◌,
  ◌≡◌, refl, ap, sym, subst, ◌↔◌, arith,
}
use forta_node_tr.Scanner.Errors.{ErrorCounter, new_error_counter, too_many_errs}

module _ (max : ℕ) (check : Text → Bool) where
  -- The counter after calls, the last one first.
  pub after_calls : List (Option Text) → ErrorCounter
  unfolding new_error_counter too_many_errs
  after_calls [] = new_error_counter max check
  after_calls (e ∷ es) = (too_many_errs e (after_calls es)).1

  -- How many of the last calls in a row were told of a critical error.
  pub streak : List (Option Text) → ℕ
  streak [] = 0
  streak (none ∷ es) = 0
  streak (some e ∷ es) = if check e then suc (streak es) else 0

  streak-le : (es : List (Option Text)) → streak es ≤ length es
  unfolding streak
  streak-le [] = omega arith
  streak-le (none ∷ es) = omega arith
  streak-le (some e ∷ es) = ground (arith, streak-le es)

  counter : ℕ → ErrorCounter
  counter n = record { max = max; err_check = check; count = n }

  after_calls-counter :
      (es : List (Option Text)) → length es < 2 ^ 64 → after_calls es ≡ counter (streak es)
  unfolding after_calls streak new_error_counter too_many_errs counter
  after_calls-counter [] h = refl
  after_calls-counter (none ∷ es) h =
      ap (λ ec. (too_many_errs none ec).1) (after_calls-counter es (omega arith))
  after_calls-counter (some e ∷ es) h =
      subst (λ ec. (too_many_errs (some e) ec).1 ≡ counter (streak (some e ∷ es)))
        (sym (after_calls-counter es (omega arith))) (ground (arith, streak-le es))

  -- A counter reports too many errors exactly when at least `max` of the last calls in a row were
  -- told of a critical error, if `max` is not 0 and there were fewer than 2^64 calls.
  pub too_many_errs_iff :
      (e : Option Text) (es : List (Option Text))
      → 0 < max
      → length (e ∷ es) < 2 ^ 64
      → ((too_many_errs e (after_calls es)).0 ≡ true) ↔ (max ≤ streak (e ∷ es))
  unfolding too_many_errs streak counter
  too_many_errs_iff none es pos h = ground arith
  too_many_errs_iff (some e) es pos h =
      rw (after_calls-counter es (omega arith)) (ground (arith, streak-le es))
