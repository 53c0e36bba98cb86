-- ===== src/Scanner/Pool.antt =====
-- AgentPool (services/scanner/agentpool/agent_pool.go) and the goroutines of its agents
-- (poolagent/agent.go). Agents are shared by pointer: `agents` holds addresses, and `heap` what is
-- there. An agent that left the pool stays on the heap for the goroutines that hold it.
pub mod Handlers
pub mod Loops
pub mod Additions
pub mod Updating
pub mod Invariant
pub mod Attaching
pub mod Preserved
pub mod Results
pub mod Steps
pub mod Versions
pub mod Delivery
pub mod Sending
pub mod Processing
use forta_node_tr.Prelude.{ℕ, suc, ◌==◌, Text, List, [], ◌∷◌, ◌++◌, Bool, if◌then◌else◌}
use forta_node_tr.Agents.{AgentConfig, Message}
use forta_node_tr.Scanner.Agent.{Agent, Request, Lane, new_agent, close}

-- `TxResult` and `BlockResult`: the agent, the request and the findings.
pub record AgentResult : Type 0 where
  pub agent_config : AgentConfig
  pub request : Request
  pub findings : List Text

-- `panicked` tells if a goroutine called through a nil client.
pub record Pool : Type 0 where
  pub agents : List ℕ
  pub heap : ℕ → Agent
  pub next : ℕ
  pub published : List Message
  pub closed_clients : List ℕ
  pub results : List (Lane × AgentResult)
  pub panicked : Bool

unfoldable pub write : ℕ → Agent → (ℕ → Agent) → ℕ → Agent
write k a h j = if k == j then a else h j

unfoldable pub put : ℕ → Agent → Pool → Pool
unfolding write
put k a p = record p { heap = write k a p.heap }

unfoldable pub publish : List Message → Pool → Pool
publish ms p = record p { published = p.published ++ ms }

unfoldable pub close_agent : ℕ → Pool → Pool
unfolding close put
close_agent k p =
    let (a, cs) = close (p.heap k) in record (put k a p) { closed_clients = p.closed_clients ++ cs }

-- `poolagent.New`: the address of the new agent.
unfoldable pub allocate : AgentConfig → Pool → ℕ × Pool
unfolding put new_agent
allocate cfg p = (p.next, record (put p.next (new_agent cfg) p) { next = suc p.next })

unfoldable pub without : ℕ → List ℕ → List ℕ
without k [] = []
without k (j ∷ js) = if j == k then without k js else j ∷ without k js

unfoldable pub discard_agent : ℕ → Pool → Pool
discard_agent k p = record p { agents = without k p.agents }
