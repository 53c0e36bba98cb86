-- ===== src/Scanner/Pool/Steps.antt =====
-- The steps of the pool in any order: its handlers, its senders and the goroutines of its agents
-- (services/scanner/agentpool/agent_pool.go and poolagent/agent.go).
use forta_node_tr.Prelude.{
  All, subst, ◌↔◌, ℕ, ◌≤◌, ◌<◌, List, [], Bool, true, false, true≢false, Option, member, ◌≡◌, refl,
  sym, arith, length,
}
use forta_node_tr.Agents.{AgentConfig, Library, Message}
use forta_node_tr.Scanner.Agent.{Agent, Request, Lane, requests, loops, has_room}
use forta_node_tr.Scanner.Agent.Sound.{room-Sound}
use forta_node_tr.Scanner.Pool.{Pool, publish}
use forta_node_tr.Scanner.Pool.Handlers.{
  handle_agent_versions_update, handle_status_running, handle_status_stopped,
}
use forta_node_tr.Scanner.Pool.Sending.{offer}
use forta_node_tr.Scanner.Pool.Processing.{Reply, process}
use forta_node_tr.Scanner.Pool.Invariant.{Inv, updated-Inv, publish-Inv}
use forta_node_tr.Scanner.Pool.Attaching.{running-Inv}
use forta_node_tr.Scanner.Pool.Results.{
  IsShort, Short, updated_results, running_results, stopped_results, offer_results, process-Short,
}
use forta_node_tr.Scanner.Pool.Preserved.{stopped-Inv, offer-Inv, process-Inv}

-- One step. A sender walks over the agents as they were when it began, so any agent that was ever
-- made may be offered a request; a goroutine moves only if it was started.
pub data Step (lib : Library) (p : Pool) : Pool → Type 0 where
  update : (payload : List AgentConfig) → Step lib p (handle_agent_versions_update lib payload p)
  running :
      (dial : ℕ → Option ℕ) (payload : List AgentConfig)
      → Step lib p (handle_status_running lib dial payload p)
  stopped : (payload : List AgentConfig) → Step lib p (handle_status_stopped lib payload p)
  offers :
      (lane : Lane) (req : Request) (coin : Bool) (k : ℕ)
      → k < p.next
      → Step lib p (offer lib lane req coin k p).0
  publishes : (ms : List Message) → Step lib p (publish ms p)
  processes :
      (lane : Lane) (reply : Reply) (k : ℕ)
      → k < p.next
      → 0 < loops lane (p.heap k)
      → Step lib p (process lane reply k p)

pub data Reach (lib : Library) (p : Pool) : Pool → Type 0 where
  here : Reach lib p p
  next : {q r : Pool} → Reach lib p q → Step lib q r → Reach lib p r

Step-Inv : {lib : Library} {p q : Pool} → Step lib p q → Inv p → Inv q
Step-Inv {lib} {p} (update payload) i = updated-Inv lib payload p i
Step-Inv {lib} {p} (running dial payload) i = running-Inv lib dial payload p i
Step-Inv {lib} {p} (stopped payload) i = stopped-Inv lib payload p i
Step-Inv {lib} {p} (offers lane req coin k l) i = offer-Inv lib lane req k p l i coin
Step-Inv {lib} {p} (publishes ms) i = publish-Inv ms p i
Step-Inv {lib} {p} (processes lane reply k l runs) i = process-Inv lane reply k p l runs i

Reach-Inv : {lib : Library} {p q : Pool} → Inv p → Reach lib p q → Inv q
Reach-Inv i here = i
Reach-Inv i (next r s) = Step-Inv s (Reach-Inv i r)

Step-Short : {lib : Library} {p q : Pool} → Step lib p q → Short p → Short q
unfolding publish
Step-Short {lib} {p} (update payload) s = subst IsShort (sym (updated_results lib payload p)) s
Step-Short {lib} {p} (running dial payload) s =
    subst IsShort (sym (running_results lib dial payload p)) s
Step-Short {lib} {p} (stopped payload) s = subst IsShort (sym (stopped_results lib payload p)) s
Step-Short {lib} {p} (offers lane req coin k l) s =
    subst IsShort (sym (offer_results lib lane req coin k p)) s
Step-Short {lib} {p} (publishes ms) s = s
Step-Short {lib} {p} (processes lane reply k l runs) s = process-Short lane reply k p s

Reach-Short : {lib : Library} {p q : Pool} → Short p → Reach lib p q → Short q
Reach-Short s here = s
Reach-Short s (next r x) = Step-Short x (Reach-Short s r)

-- `NewAgentPool`; nothing was allocated, so any heap will do.
unfoldable pub new_agent_pool : (ℕ → Agent) → Pool
new_agent_pool heap = record {
  agents = [];
  heap = heap;
  next = 0;
  published = [];
  closed_clients = [];
  results = [];
  panicked = false;
}

new_agent_pool-Inv : (heap : ℕ → Agent) → Inv (new_agent_pool heap)
unfolding new_agent_pool member
new_agent_pool-Inv heap = record {
  allocated = λ k m. absurd (true≢false (sym m));
  distinct = tt;
  open_iff = λ k l. absurd (omega arith);
  sound = λ k l. absurd (omega arith);
  calm = refl;
}

module _ (lib : Library) (heap : ℕ → Agent) {p : Pool} (r : Reach lib (new_agent_pool heap) p) where
  pub reach-Inv : Inv p
  reach-Inv = Reach-Inv (new_agent_pool-Inv heap) r

  -- Whatever the order of messages, sends and replies, an agent that was made is in the pool
  -- exactly as long as it is not closed, and no goroutine calls through a missing client.
  pub reach_open :
      (k : ℕ)
      → k < p.next
      → ((member k p.agents ≡ true) ↔ ((p.heap k).closed ≡ false)) × (p.panicked ≡ false)
  reach_open k l = let i = reach-Inv in (ground (arith, i.open_iff k l), i.calm)

  reach-Short : Short p
  unfolding new_agent_pool
  reach-Short = Reach-Short tt r

  -- Whatever the order of messages, sends and replies, no buffer of an agent holds more than 2000
  -- requests, so that a full buffer holds exactly 2000, and no result has more than 10 findings.
  pub reach_bounds :
      (lane : Lane) (k : ℕ)
      → k < p.next
      → (length (requests lane (p.heap k)) ≤ 2000)
        × ((has_room lane (p.heap k) ≡ false) ↔ (length (requests lane (p.heap k)) ≡ 2000))
        × All (λ x. length x.1.findings ≤ 10) p.results
  unfolding has_room
  reach_bounds lane k l =
      let i = reach-Inv in
      let bound = room-Sound lane (p.heap k) (i.sound k l) in
      (bound, ground (arith, bound), reach-Short)
