-- ===== src/Agents.antt =====
-- What the services of the node share about agents: their configuration (config/agents.go), the
-- messages that the services send to each other (clients/messaging/subjects.go) and the metrics in
-- them (metrics/agent_metrics.go). Texts are lists of byte codes; times are left out.
use forta_node_tr.Prelude.{ℕ, Text, List, [], ◌∷◌, ◌++◌, Bool, Option, codes, if◌then◌else◌}

-- What the services use of other repositories: `utils.SplitImageRef`, `utils.ShortenString` and
-- `hexutil.DecodeUint64`, which returns a number on an error too, and whether it failed.
pub record Library : Type 0 where
  pub split_image_ref : Text → Text × Text
  pub shorten_string : Text → ℕ → Text
  pub decode_uint64 : Text → ℕ × Bool

pub record AgentConfig : Type 0 where
  pub id : Text
  pub image : Text
  pub manifest : Text
  pub is_local : Bool
  pub start_block : Option ℕ
  pub stop_block : Option ℕ

abbrev pub container_name_prefix : Text
container_name_prefix = codes "forta"

pub image_hash : Library → AgentConfig → Text
image_hash lib ac = (lib.split_image_ref ac.image).1

unfoldable pub container_name : Library → AgentConfig → Text
container_name lib ac =
    if ac.is_local
    then container_name_prefix ++ codes "-agent-" ++ lib.shorten_string ac.id 8
    else container_name_prefix
      ++ codes "-agent-"
      ++ lib.shorten_string ac.id 8
      ++ codes "-"
      ++ lib.shorten_string (lib.split_image_ref ac.image).1 4

abbrev pub Metric : Type 0
Metric = Text × Text × ℕ

-- `CreateAgentMetric`: the agent, the name and the value.
unfoldable pub create_agent_metric : Text → Text → ℕ → Metric
create_agent_metric agent_id name value = (agent_id, name, value)

-- One constructor for each subject; a metric is published in a list, or alone.
pub data Message : Type 0 where
  versions_latest action_run action_stop : List AgentConfig → Message
  status_running status_attached status_stopped : List AgentConfig → Message
  metric_agent : List Metric → Message
  metric_single : Metric → Message
  scanner_block : ℕ → Message

-- `SendAgentMetrics`
unfoldable pub send_agent_metrics : List Metric → List Message
send_agent_metrics [] = []
send_agent_metrics (m ∷ ms) = metric_agent (m ∷ ms) ∷ []

-- A message with a list of agents is published only if there are any.
unfoldable pub publish_any : (List AgentConfig → Message) → List AgentConfig → List Message
publish_any subject [] = []
publish_any subject (c ∷ cs) = subject (c ∷ cs) ∷ []
