-- ===== src/JsonRpc/Tests.antt =====
-- Two agents behind the proxy, with limiters that allow two requests, and the theorem about it at
-- this input (services/json-rpc).
use forta_node_tr.Prelude.{
  lookup, insert, ℕ, ◌-◌, ltb, Text, codes, text_eq, List, [], ◌∷◌, ◌++◌, true, Option, none, some,
  select, length, ◌≡◌, refl, is_empty,
}
use forta_node_tr.Agents.{Library, AgentConfig, container_name, create_agent_metric}
use forta_node_tr.JsonRpc.{
  Limiter, limiter_of, reserve, exceeds_limit, NetworkedContainer, container_at, config_named,
  without_slash, config_of_container, find_agent_from_remote_addr, get_json_rpc_metrics, forwarded,
  too_many_requests, JsonRpcProxy, publish_metrics, answer_agent, answer, metric_handler,
}
use forta_node_tr.JsonRpc.Isolation.{
  ProxyEvent, requested, is_from, concerns, alone, answers_to, answers_to-alone,
}

abbrev lib : Library
lib = record {
  split_image_ref = λ t. (t, t);
  shorten_string = λ t n. t;
  decode_uint64 = λ t. (length t, is_empty t);
}

abbrev two_allowed : Limiter ℕ
two_allowed = record { new_limiter = 2; allow = λ now n. (ltb 0 n, n - 1) }

abbrev local_config : Text → AgentConfig
local_config id = record {
  id = id;
  image = [];
  manifest = [];
  is_local = true;
  start_block = none;
  stop_block = none;
}

abbrev running_at : Text → Text → NetworkedContainer
running_at name ip = record { first_name = codes "/" ++ name; ip_addresses = ip ∷ [] }

abbrev containers : Option (List NetworkedContainer)
containers = some (
    running_at (codes "forta-agent-a") (codes "10.0.0.2")
    ∷ running_at (codes "forta-agent-b") (codes "10.0.0.3")
    ∷ [])

abbrev proxy : JsonRpcProxy ℕ
proxy = record {
  agent_configs = local_config (codes "a") ∷ local_config (codes "b") ∷ [];
  client_limiters = [];
  published = [];
}

abbrev from : Text → ProxyEvent
from ip = requested containers (ip ++ codes ":4321") 5 1

-- The third request of one agent is refused, the one of the other agent is not.
abbrev events : List ProxyEvent
events =
    from (codes "10.0.0.2")
    ∷ from (codes "10.0.0.2")
    ∷ from (codes "10.0.0.9")
    ∷ from (codes "10.0.0.2")
    ∷ from (codes "10.0.0.3")
    ∷ []

refused_run :
    answers_to lib two_allowed (codes "a") events proxy
    ≡ forwarded ∷ forwarded ∷ too_many_requests ∷ []
unfolding answers_to metric_handler answer answer_agent publish_metrics exceeds_limit reserve
    limiter_of lookup insert find_agent_from_remote_addr container_at config_of_container
    config_named without_slash container_name is_from text_eq
refused_run = refl

other_run : answers_to lib two_allowed (codes "b") events proxy ≡ forwarded ∷ []
unfolding answers_to metric_handler answer answer_agent publish_metrics exceeds_limit reserve
    limiter_of lookup insert find_agent_from_remote_addr container_at config_of_container
    config_named without_slash container_name is_from text_eq
other_run = refl

throttled_run :
    get_json_rpc_metrics (local_config (codes "a")) 0 1 0
    ≡ (codes "a", codes "jsonrpc.throttled", 1) ∷ (codes "a", codes "jsonrpc.request", 1) ∷ []
unfolding get_json_rpc_metrics create_agent_metric
throttled_run = refl

answers_to-alone_example :
    answers_to lib two_allowed (codes "b") events proxy
    ≡ alone two_allowed
        (select (concerns lib (codes "b") proxy.agent_configs) events)
        (lookup (codes "b") proxy.client_limiters)
answers_to-alone_example = answers_to-alone lib two_allowed (codes "b") events proxy
