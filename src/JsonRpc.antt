-- ===== src/JsonRpc.antt =====
-- The JSON-RPC proxy that agents send their requests through, and its rate limiter
-- (services/json-rpc/json_rpc_proxy.go and rate_limiter.go). The limiter of one client,
-- `rate.Limiter`, is a parameter; `now` is the time in nanoseconds.
pub mod Isolation
pub mod Tests
use forta_node_tr.Prelude.{
  lookup, insert, erase, break_at, Dict, ℕ, ◌+◌, ◌-◌, ltb, Text, codes, text_eq, List, [], ◌∷◌,
  ◌++◌, Bool, true, false, not, Option, none, some, if◌then◌else◌, includes,
}
use forta_node_tr.Agents.{
  Library, AgentConfig, container_name, Metric, create_agent_metric, Message, metric_agent,
}

-- `rate.NewLimiter` with the rate and burst of the proxy, and `Allow`.
pub record Limiter (L : Type 0) : Type 0 where
  pub new_limiter : L
  pub allow : ℕ → L → Bool × L

pub record ClientLimiter (L : Type 0) : Type 0 where
  pub last_reservation : ℕ
  pub limiter : L

abbrev pub inactive_after : ℕ
inactive_after = 600000000000

pub is_inactive : {L : Type 0} → ℕ → ClientLimiter L → Bool
is_inactive now c = ltb inactive_after (now - c.last_reservation)

module _ {L : Type 0} (lim : Limiter L) where
  pub limiter_of : Option (ClientLimiter L) → L
  limiter_of none = lim.new_limiter
  limiter_of (some c) = c.limiter

  -- ExceedsLimit for one client.
  pub reserve : ℕ → Option (ClientLimiter L) → Bool × ClientLimiter L
  unfolding limiter_of
  reserve now o =
      let (allowed, l) = lim.allow now (limiter_of o) in
      (not allowed, record { last_reservation = now; limiter = l })

  pub exceeds_limit : Text → ℕ → Dict (ClientLimiter L) → Bool × Dict (ClientLimiter L)
  unfolding reserve lookup insert
  exceeds_limit id now limiters =
      let (exceeds, c) = reserve now (lookup id limiters) in (exceeds, insert id c limiters)

-- One tick of autoCleanup.
pub auto_cleanup : {L : Type 0} → ℕ → Dict (ClientLimiter L) → Dict (ClientLimiter L)
unfolding is_inactive
auto_cleanup now [] = []
auto_cleanup now ((id, c) ∷ limiters) =
    let rest = auto_cleanup now limiters in
    if is_inactive now c then erase id rest else (id, c) ∷ rest

-- A container: `Names[0]`, and the addresses in its networks.
pub record NetworkedContainer : Type 0 where
  pub first_name : Text
  pub ip_addresses : List Text

pub container_at : Text → List NetworkedContainer → Option NetworkedContainer
container_at ip [] = none
container_at ip (c ∷ cs) = if includes c.ip_addresses ip then some c else container_at ip cs

pub config_named : Library → Text → List AgentConfig → Option AgentConfig
config_named lib name [] = none
config_named lib name (c ∷ cs) =
    if text_eq (container_name lib c) name then some c else config_named lib name cs

-- `[1:]` of a name, which starts with a slash.
pub without_slash : Text → Text
without_slash [] = []
without_slash (c ∷ name) = name

pub config_of_container :
    Library → Option NetworkedContainer → List AgentConfig → Option AgentConfig
unfolding config_named without_slash
config_of_container lib none cs = none
config_of_container lib (some c) cs = config_named lib (without_slash c.first_name) cs

-- The list of containers, or that Docker failed to give it.
pub find_agent_from_remote_addr :
    Library → Option (List NetworkedContainer) → Text → List AgentConfig → Option AgentConfig
unfolding container_at config_of_container
find_agent_from_remote_addr lib none host_port cs = none
find_agent_from_remote_addr lib (some containers) host_port cs =
    config_of_container lib (container_at (break_at b':' host_port).0 containers) cs

-- `GetJSONRPCMetrics`, in the order in which the code sets the values.
pub get_json_rpc_metrics : AgentConfig → ℕ → ℕ → ℕ → List Metric
unfolding create_agent_metric
get_json_rpc_metrics agt success throttled latency =
    let metric = λ (on : Bool) (name : Text) (value : ℕ).
      if on then create_agent_metric agt.id name value ∷ [] else [] in
    metric (ltb 0 latency) (codes "jsonrpc.latency") latency
    ++ metric (ltb 0 success) (codes "jsonrpc.success") success
    ++ metric (ltb 0 throttled) (codes "jsonrpc.throttled") throttled
    ++ metric (ltb 0 (success + throttled)) (codes "jsonrpc.request") (success + throttled)

pub data Answered : Type 0 where
  forwarded : Answered
  too_many_requests : Answered

pub record JsonRpcProxy (L : Type 0) : Type 0 where
  pub agent_configs : List AgentConfig
  pub client_limiters : Dict (ClientLimiter L)
  pub published : List Message

module _ {L : Type 0} where
  pub handle_versions : List AgentConfig → JsonRpcProxy L → JsonRpcProxy L
  handle_versions payload p = record p { agent_configs = payload }

  pub publish_metrics : List Metric → JsonRpcProxy L → JsonRpcProxy L
  publish_metrics ms p = record p { published = p.published ++ (metric_agent ms ∷ []) }

  -- The end of metricHandler for an agent that was found.
  pub answer_agent : AgentConfig → ℕ → Bool → JsonRpcProxy L → Answered × JsonRpcProxy L
  unfolding publish_metrics get_json_rpc_metrics
  answer_agent agt latency true p =
      (too_many_requests, publish_metrics (get_json_rpc_metrics agt 0 1 0) p)
  answer_agent agt latency false p =
      (forwarded, publish_metrics (get_json_rpc_metrics agt 1 0 latency) p)

module _ {L : Type 0} (lim : Limiter L) where
  -- metricHandler, by the agent that sent the request; the request takes `latency`.
  pub answer : Option AgentConfig → ℕ → ℕ → JsonRpcProxy L → Answered × JsonRpcProxy L
  unfolding exceeds_limit answer_agent
  answer none now latency p = (forwarded, p)
  answer (some agt) now latency p =
      let (exceeds, limiters) = exceeds_limit lim agt.id now p.client_limiters in
      answer_agent agt latency exceeds (record p { client_limiters = limiters })

  pub metric_handler :
      Library
      → Option (List NetworkedContainer)
      → Text
      → ℕ
      → ℕ
      → JsonRpcProxy L
      → Answered × JsonRpcProxy L
  unfolding answer find_agent_from_remote_addr
  metric_handler lib containers remote now latency p =
      answer (find_agent_from_remote_addr lib containers remote p.agent_configs) now latency p
