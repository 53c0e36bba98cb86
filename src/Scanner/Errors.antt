-- ===== src/Scanner/Errors.antt =====
-- The counter of consecutive errors (services/scanner/agentpool/poolagent/error_counter.go).
pub mod Streak
use forta_node_tr.Prelude.{
  ℕ, ◌+◌, ◌%◌, ◌^◌, Text, Bool, false, not, Option, none, some, leb, if◌then◌else◌,
}

-- `max` and `count` are 64-bit words.
pub record ErrorCounter : Type 0 where
  pub max : ℕ
  pub err_check : Text → Bool
  pub count : ℕ

unfoldable pub new_error_counter : ℕ → (Text → Bool) → ErrorCounter
new_error_counter max check = record { max = max; err_check = check; count = 0 }

-- The call is told of success by `none`. It returns whether there are too many errors.
unfoldable pub too_many_errs : Option Text → ErrorCounter → Bool × ErrorCounter
too_many_errs none ec = (false, record ec { count = 0 })
too_many_errs (some e) ec =
    let count = (ec.count + 1) % 2 ^ 64 in
    if not (ec.err_check e)
    then (false, record ec { count = 0 })
    else (leb ec.max count, record ec { count = count })
