-- ===== src/Scanner/Pool/Processing.antt =====
-- processTransactions and processBlocks: what a goroutine of an agent does with one request
-- (services/scanner/agentpool/poolagent/agent.go).
use forta_node_tr.Prelude.{
  false, Option, Bool, ℕ, zero, suc, ◌-◌, Text, List, [], ◌∷◌, ◌++◌, true, none, some, codes,
  length, ltb, if◌then◌else◌,
}
use forta_node_tr.Agents.{Message, action_stop, metric_agent, metric_single, create_agent_metric}
use forta_node_tr.Scanner.Errors.{too_many_errs}
use forta_node_tr.Scanner.Agent.{
  Agent, Request, Lane, tx, block, max_findings, requests, set_requests, end_loop,
}
use forta_node_tr.Scanner.Pool.{Pool, put, publish, close_agent}

-- What the agent replies to `Invoke`: findings or an error.
pub data Reply : Type 0 where
  findings : List Text → Reply
  failed : Text → Reply

unfoldable pub take : {A : Type 0} → ℕ → List A → List A
take zero xs = []
take (suc n) [] = []
take (suc n) (x ∷ xs) = x ∷ take n xs

-- `findings.dropped`, when there are too many.
unfoldable pub dropped_metrics : Agent → List Text → List Message
unfolding create_agent_metric
dropped_metrics a fs =
    if ltb max_findings (length fs)
    then metric_single
        (create_agent_metric a.config.id (codes "findings.dropped") (length fs - max_findings))
      ∷ []
    else []

unfoldable pub truncated : List Text → List Text
unfolding take
truncated fs = if ltb max_findings (length fs) then take max_findings fs else fs

-- A result goes to the channel of the lane.
unfoldable pub emit : Lane → Agent → Request → List Text → Pool → Pool
emit lane a r fs p = record p {
  results =
      p.results ++ ((lane, record { agent_config = a.config; request = r; findings = fs }) ∷ []);
}

-- What an agent that is shut down is announced with; only transactions count it in a metric.
pub stop_messages : Lane → Agent → List Message
unfolding create_agent_metric
stop_messages tx a =
    action_stop (a.config ∷ [])
    ∷ metric_agent (create_agent_metric a.config.id (codes "agent.stop") 1 ∷ [])
    ∷ []
stop_messages block a = action_stop (a.config ∷ []) ∷ []

-- The agent at `k` replied to `r`; its error may be one too many.
unfoldable pub on_error : Lane → Bool → ℕ → Pool → Pool
unfolding publish put close_agent end_loop stop_messages
on_error lane false k p = p
on_error lane true k p =
    let a = p.heap k in publish (stop_messages lane a) (close_agent k (put k (end_loop lane a) p))

unfoldable pub on_reply : Lane → Reply → Request → ℕ → Pool → Pool
unfolding publish emit truncated dropped_metrics put on_error too_many_errs
on_reply lane (findings fs) r k p =
    let a = p.heap k in emit lane a r (truncated fs) (publish (dropped_metrics a fs) p)
on_reply lane (failed e) r k p =
    let a = p.heap k in
    let (too_many, ec) = too_many_errs (some e) a.err_counter in
    on_error lane too_many k (put k (record a { err_counter = ec }) p)

-- `agent.client.Invoke` on a client that was never set panics.
unfoldable pub invoke : Option ℕ → Lane → Reply → Request → ℕ → Pool → Pool
unfolding on_reply
invoke none lane reply r k p = record p { panicked = true }
invoke (some c) lane reply r k p = on_reply lane reply r k p

-- A request was received; the goroutine ends when the agent is closed.
unfoldable pub serve : Bool → Lane → Reply → Request → ℕ → Pool → Pool
unfolding put end_loop invoke
serve true lane reply r k p = put k (end_loop lane (p.heap k)) p
serve false lane reply r k p = invoke (p.heap k).client lane reply r k p

unfoldable pub receive : List Request → Lane → Reply → ℕ → Pool → Pool
unfolding serve set_requests put
receive [] lane reply k p = p
receive (r ∷ rs) lane reply k p =
    serve (p.heap k).closed lane reply r k (put k (set_requests lane rs (p.heap k)) p)

-- One round of a goroutine of the agent at `k`; it waits while the channel is empty.
unfoldable pub process : Lane → Reply → ℕ → Pool → Pool
unfolding receive requests
process lane reply k p = receive (requests lane (p.heap k)) lane reply k p
