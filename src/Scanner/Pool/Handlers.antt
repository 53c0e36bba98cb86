-- ===== src/Scanner/Pool/Handlers.antt =====
-- The messages that the agent pool handles (services/scanner/agentpool/agent_pool.go). Each handler
-- runs as one step: two of them hold the lock of the pool.
use forta_node_tr.Prelude.{
  ℕ, suc, Text, List, [], ◌∷◌, ◌++◌, Bool, true, false, ◌||◌, Option, none, some, text_eq,
}
use forta_node_tr.Agents.{
  AgentConfig, Library, container_name, action_run, action_stop, status_attached, publish_any,
}
use forta_node_tr.Scanner.Agent.{Agent, set_client, set_ready, start_processing}
use forta_node_tr.Scanner.Pool.{Pool, put, publish, close_agent, allocate}

-- Where a loop over a payload stands.
pub record Update : Type 0 where
  pub pool : Pool
  pub new_agents : List ℕ
  pub to_run : List AgentConfig
  pub to_stop : List AgentConfig

pub record Running : Type 0 where
  pub pool : Pool
  pub dialed : ℕ
  pub agents_ready : List AgentConfig
  pub to_stop : List AgentConfig

-- Rounds of the loops below, with what was found.
unfoldable pub add_unless : Bool → AgentConfig → Update → Update
unfolding allocate
add_unless true c u = u
add_unless false c u =
    let (k, p) = allocate c u.pool in
    record u { pool = p; new_agents = u.new_agents ++ (k ∷ []); to_run = u.to_run ++ (c ∷ []) }

unfoldable pub keep_if : Bool → ℕ → Update → Update
unfolding close_agent
keep_if true k u = record u { new_agents = u.new_agents ++ (k ∷ []) }
keep_if false k u = record u {
  pool = close_agent k u.pool;
  to_stop = u.to_stop ++ ((u.pool.heap k).config ∷ []);
}

unfoldable pub drop_if : Bool → ℕ → List ℕ × Pool → List ℕ × Pool
unfolding close_agent
drop_if true k (kept, p) = (kept, close_agent k p)
drop_if false k (kept, p) = (kept ++ (k ∷ []), p)

-- What becomes of the agent at `k` when it was dialed.
unfoldable pub on_dialed : Option ℕ → ℕ → Running → Running
unfolding set_client set_ready start_processing put
on_dialed none k r = record r { to_stop = r.to_stop ++ ((r.pool.heap k).config ∷ []) }
on_dialed (some c) k r =
    let a = r.pool.heap k in
    record r {
      pool = put k (start_processing (set_ready (set_client c a))) r.pool;
      agents_ready = r.agents_ready ++ (a.config ∷ []);
    }

-- An agent that was started is dialed; `dial n` is what the dial number `n` returns.
unfoldable pub attach : (ℕ → Option ℕ) → ℕ → Running → Running
unfolding on_dialed
attach dial k r = on_dialed (dial r.dialed) k (record r { dialed = suc r.dialed })

unfoldable pub attach_if : Bool → (ℕ → Option ℕ) → ℕ → Running → Running
unfolding attach
attach_if true dial k r = attach dial k r
attach_if false dial k r = r

module _ (lib : Library) where
  abbrev pub agent_name : (ℕ → Agent) → ℕ → Text
  agent_name h k = container_name lib (h k).config

  -- `found`, over the agents of the pool, and over the configurations of a payload.
  unfoldable pub in_pool : (ℕ → Agent) → List ℕ → AgentConfig → Bool
  in_pool h [] cfg = false
  in_pool h (k ∷ ks) cfg = text_eq (agent_name h k) (container_name lib cfg) || in_pool h ks cfg

  unfoldable pub in_payload : List AgentConfig → Text → Bool
  in_payload [] name = false
  in_payload (c ∷ cs) name = text_eq name (container_name lib c) || in_payload cs name

  -- The first loop of handleAgentVersionsUpdate: agents that the pool lacks are added.
  unfoldable pub add_missing : List AgentConfig → Update → Update
  unfolding in_pool add_unless
  add_missing [] u = u
  add_missing (c ∷ cs) u = add_missing cs (add_unless (in_pool u.pool.heap u.pool.agents c) c u)

  -- The second loop: agents that the payload lacks are closed, the others are kept.
  unfoldable pub keep_listed : List AgentConfig → List ℕ → Update → Update
  unfolding in_payload keep_if
  keep_listed latest [] u = u
  keep_listed latest (k ∷ ks) u =
      keep_listed latest ks (keep_if (in_payload latest (agent_name u.pool.heap k)) k u)

  unfoldable pub handle_agent_versions_update : List AgentConfig → Pool → Pool
  unfolding add_missing keep_listed publish publish_any
  handle_agent_versions_update payload p =
      let u =
        keep_listed payload p.agents
          (add_missing payload (record { pool = p; new_agents = []; to_run = []; to_stop = [] })) in
      publish (publish_any action_run u.to_run ++ publish_any action_stop u.to_stop)
        (record u.pool { agents = u.new_agents })

  unfoldable pub attach_matching : (ℕ → Option ℕ) → AgentConfig → List ℕ → Running → Running
  unfolding attach_if
  attach_matching dial cfg [] r = r
  attach_matching dial cfg (k ∷ ks) r =
      attach_matching dial cfg ks
        (attach_if (text_eq (agent_name r.pool.heap k) (container_name lib cfg)) dial k r)

  unfoldable pub attach_all : (ℕ → Option ℕ) → List AgentConfig → Running → Running
  unfolding attach_matching
  attach_all dial [] r = r
  attach_all dial (c ∷ cs) r = attach_all dial cs (attach_matching dial c r.pool.agents r)

  unfoldable pub handle_status_running : (ℕ → Option ℕ) → List AgentConfig → Pool → Pool
  unfolding attach_all publish publish_any
  handle_status_running dial payload p =
      let r =
        attach_all dial payload
          (record { pool = p; dialed = 0; agents_ready = []; to_stop = [] }) in
      publish (publish_any status_attached r.agents_ready ++ publish_any action_stop r.to_stop)
        r.pool

  -- The loop of handleStatusStopped, with the agents that were kept so far.
  unfoldable pub drop_stopped : List AgentConfig → List ℕ → List ℕ × Pool → List ℕ × Pool
  unfolding in_payload drop_if
  drop_stopped payload [] x = x
  drop_stopped payload (k ∷ ks) x =
      drop_stopped payload ks (drop_if (in_payload payload (agent_name x.1.heap k)) k x)

  unfoldable pub handle_status_stopped : List AgentConfig → Pool → Pool
  unfolding drop_stopped
  handle_status_stopped payload p =
      let (kept, p') = drop_stopped payload p.agents ([], p) in record p' { agents = kept }
