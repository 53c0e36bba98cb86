-- ===== src/Scanner/Agent/Sound.antt =====
-- What holds of every agent of the pool: its buffers keep their size, a goroutine has a client to
-- call, and its errors are checked by isCriticalErr (services/scanner/agentpool/poolagent/agent.go).
use forta_node_tr.Prelude.{
  is_some, ℕ, ◌≤◌, ◌<◌, Text, List, true, false, some, length, ◌≡◌, refl, arith,
}
use forta_node_tr.Agents.{AgentConfig}
use forta_node_tr.Scanner.Errors.{too_many_errs, new_error_counter}
use forta_node_tr.Scanner.Agent.{
  Agent, Request, Lane, tx, block, is_critical_err, new_agent, requests, set_requests, loops,
  end_loop, set_client, set_ready, start_processing, close,
}

abbrev pub Sound : Agent → Type 0
Sound a =
    (length a.tx_requests ≤ 2000)
    × (length a.block_requests ≤ 2000)
    × (0 < a.tx_loops → is_some a.client ≡ true)
    × (0 < a.block_loops → is_some a.client ≡ true)
    × (a.err_counter.err_check ≡ is_critical_err)

pub room-Sound : (lane : Lane) (a : Agent) → Sound a → length (requests lane a) ≤ 2000
unfolding requests
room-Sound tx a s = s.0
room-Sound block a s = s.1

pub served-Sound : (lane : Lane) (a : Agent) → Sound a → 0 < loops lane a → is_some a.client ≡ true
unfolding loops
served-Sound tx a s = s.2
served-Sound block a s = s.3

pub new_agent-Sound : (cfg : AgentConfig) → Sound (new_agent cfg)
unfolding new_agent new_error_counter
new_agent-Sound cfg =
    (omega arith, omega arith, λ l. absurd (omega arith), λ l. absurd (omega arith), refl)

pub close-Sound : (a : Agent) → Sound a → Sound (close a).0
unfolding close
close-Sound a s = ground arith

pub set_requests-Sound :
    (lane : Lane) (rs : List Request) (a : Agent)
    → length rs ≤ 2000
    → Sound a
    → Sound (set_requests lane rs a)
unfolding set_requests
set_requests-Sound tx rs a l s = (l, s.1, s.2, s.3, s.4)
set_requests-Sound block rs a l s = (s.0, l, s.2, s.3, s.4)

pub end_loop-Sound : (lane : Lane) (a : Agent) → Sound a → Sound (end_loop lane a)
unfolding end_loop
end_loop-Sound tx a s = (s.0, s.1, λ l. s.2 (omega arith), s.3, s.4)
end_loop-Sound block a s = (s.0, s.1, s.2, λ l. s.3 (omega arith), s.4)

pub attached-Sound :
    (c : ℕ) (a : Agent) → Sound a → Sound (start_processing (set_ready (set_client c a)))
unfolding start_processing set_ready set_client
attached-Sound c a s = (s.0, s.1, λ l. refl, λ l. refl, s.4)

-- An error never shuts an agent down, and the counter keeps its check.
pub too_many_errs-Sound :
    (e : Text) (a : Agent)
    → Sound a
    → ((too_many_errs (some e) a.err_counter).0 ≡ false)
      × Sound (record a { err_counter = (too_many_errs (some e) a.err_counter).1 })
unfolding too_many_errs is_critical_err
too_many_errs-Sound e a s = rw (s.4) (refl, (s.0, s.1, s.2, s.3, refl))
