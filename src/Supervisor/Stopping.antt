-- ===== src/Supervisor/Stopping.antt =====
-- What the supervisor does to stop agents (services/supervisor/start_agent.go).
use forta_node_tr.Prelude.{Text, List, true, some, All, ◌≡◌, includes}
use forta_node_tr.Agents.{Library, AgentConfig, container_name}
use forta_node_tr.Supervisor.{Docker, Container, Supervisor, get_container}

abbrev pub container_id_of : Container → Text
container_id_of c = c.container.container_id

module _ {D : Type 0} (lib : Library) (docker : Docker D) where
  -- The ids cover the container that is known for each agent.
  abbrev Covers : List Container → List AgentConfig → List Text → Type 0
  Covers cs agents ids =
      All
        (λ a.
          (c : Container)
          → get_container (container_name lib a) cs ≡ some c
          → includes ids (container_id_of c) ≡ true)
        agents
