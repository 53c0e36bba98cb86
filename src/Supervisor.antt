-- ===== src/Supervisor.antt =====
-- How the supervisor starts and stops the containers of agents (services/supervisor/start_agent.go).
-- The Docker client is a parameter: each of its operations returns a value or an error, and changes
-- a state of its own.
pub mod Containers
pub mod Starting
pub mod Running
pub mod Stopping
pub mod Handshake
pub mod Tests
use forta_node_tr.Prelude.{
  Dict, Text, codes, text_eq, List, [], ◌∷◌, ◌++◌, Bool, true, false, not, Option, none, some,
  select, if◌then◌else◌, Result, ok, err, Effect, pure, raise, modify, ◌>>=◌, ◌>>◌, includes,
}
use forta_node_tr.Agents.{
  Library, AgentConfig, container_name, Message, status_running, status_stopped, publish_any,
}

-- `DockerContainerConfig`, as far as it differs between agents.
pub record ContainerConfig : Type 0 where
  pub name : Text
  pub image : Text
  pub network_id : Text
  pub env : Dict Text

pub record DockerContainer : Type 0 where
  pub container_id : Text
  pub name : Text

pub record Docker (D : Type 0) : Type 0 where
  pub ensure_local_image : Text → Text → Effect D Text (Unit {0})
  pub create_public_network : Text → Effect D Text Text
  pub start_container : ContainerConfig → Effect D Text DockerContainer
  pub attach_network : Text → Text → Effect D Text (Unit {0})
  pub stop_container : Text → Effect D Text (Unit {0})

pub record Container : Type 0 where
  pub container : DockerContainer
  pub is_agent : Bool
  pub agent_config : Option AgentConfig

pub record Supervisor (D : Type 0) : Type 0 where
  pub scanner_container_id : Text
  pub json_rpc_container_id : Text
  pub containers : List Container
  pub published : List Message
  pub docker : D

-- `errAgentAlreadyRunning` and the errors of the Docker client.
pub data StartError : Type 0 where
  agent_already_running : StartError
  docker_error : Text → StartError

pub get_container : Text → List Container → Option Container
get_container name [] = none
get_container name (c ∷ cs) =
    if text_eq c.container.name name then some c else get_container name cs

pub add_container : DockerContainer → Option AgentConfig → List Container → List Container
add_container c none cs =
    cs ++ (record { container = c; is_agent = false; agent_config = none } ∷ [])
add_container c (some a) cs =
    cs ++ (record { container = c; is_agent = true; agent_config = some a } ∷ [])

module _ {D : Type 0} where
  pub broadcast : Message → Supervisor D → Supervisor D
  broadcast m s = record s { published = s.published ++ (m ∷ []) }

  -- A call of the Docker client.
  pub on_docker : {A : Type 0} → Effect D Text A → Effect (Supervisor D) StartError A
  on_docker f s =
      let (r, d) = f s.docker in
      let s' = record s { docker = d } in
      elim r [ ok a ↦ (ok a, s') | err e ↦ (err (docker_error e), s') ]

  pub require_new : Option Container → Effect (Supervisor D) StartError (Unit {0})
  require_new none = pure tt
  require_new (some c) = raise agent_already_running

  unfoldable pub add : AgentConfig → DockerContainer → Effect (Supervisor D) StartError (Unit {0})
  unfolding add_container
  add agent c = modify (λ s. record s { containers = add_container c (some agent) s.containers })

-- The containers that were not stopped.
pub remaining : List Text → List Container → List Container
remaining ids = select (λ c. not (includes ids c.container.container_id))

module _ {D : Type 0} where
  -- How handleAgentStop ends after its loop.
  pub stopped_with :
      List AgentConfig
      → Supervisor D
      → Result Text (List Text) × D
      → Result Text (Unit {0}) × Supervisor D
  unfolding remaining publish_any
  stopped_with payload s (err e, d) = (err e, record s { docker = d })
  stopped_with payload s (ok ids, d) = (
    ok tt,
    record s {
      docker = d;
      containers = remaining ids s.containers;
      published = s.published ++ publish_any status_stopped payload;
    },
  )

module _ {D : Type 0} (lib : Library) (docker : Docker D) where
  pub container_config : AgentConfig → Text → ContainerConfig
  container_config agent network = record {
    name = container_name lib agent;
    image = agent.image;
    network_id = network;
    env =
        (codes "JSON_RPC_HOST", codes "forta-json-rpc")
        ∷ (codes "JSON_RPC_PORT", codes "8545")
        ∷ (codes "AGENT_GRPC_PORT", codes "50051")
        ∷ [];
  }

  -- startAgent from its end: the scanner and the JSON-RPC proxy are attached to the network of the
  -- agent, and its container is added to the list.
  pub attach_json_rpc :
      AgentConfig → Text → DockerContainer → Effect (Supervisor D) StartError (Unit {0})
  unfolding on_docker add
  attach_json_rpc agent network started s =
      (on_docker (docker.attach_network s.json_rpc_container_id network) >> add agent started) s

  pub attach_scanner :
      AgentConfig → Text → DockerContainer → Effect (Supervisor D) StartError (Unit {0})
  unfolding on_docker attach_json_rpc
  attach_scanner agent network started s =
      (on_docker (docker.attach_network s.scanner_container_id network)
          >> attach_json_rpc agent network started)
        s

  pub run_container : AgentConfig → Text → Effect (Supervisor D) StartError (Unit {0})
  unfolding on_docker container_config attach_scanner
  run_container agent network =
      on_docker (docker.start_container (container_config agent network))
      >>= attach_scanner agent network

  pub create_network : AgentConfig → Effect (Supervisor D) StartError (Unit {0})
  unfolding on_docker run_container
  create_network agent =
      on_docker (docker.create_public_network (container_name lib agent)) >>= run_container agent

  pub start_new : AgentConfig → Effect (Supervisor D) StartError (Unit {0})
  unfolding require_new get_container create_network
  start_new agent s =
      (require_new (get_container (container_name lib agent) s.containers) >> create_network agent)
        s

  pub start_agent : AgentConfig → Effect (Supervisor D) StartError (Unit {0})
  unfolding on_docker start_new
  start_agent agent =
      on_docker (docker.ensure_local_image (codes "agent " ++ agent.id) agent.image)
      >> start_new agent

  -- What follows a start: the status is published if the agent runs.
  pub after_start : AgentConfig → Result StartError (Unit {0}) × Supervisor D → Supervisor D
  unfolding broadcast
  after_start agent (ok _, s) = broadcast (status_running (agent ∷ [])) s
  after_start agent (err agent_already_running, s) = broadcast (status_running (agent ∷ [])) s
  after_start agent (err (docker_error e), s) = s

  pub handle_agent_run : List AgentConfig → Supervisor D → Supervisor D
  unfolding after_start start_agent
  handle_agent_run [] s = s
  handle_agent_run (agent ∷ agents) s =
      handle_agent_run agents (after_start agent (start_agent agent s))

  -- The loop of handleAgentStop: the ids of the containers that were stopped.
  pub stop_found : Option Container → Effect D Text (List Text)
  stop_found none = pure []
  stop_found (some c) = do
    _ ← docker.stop_container c.container.container_id
    pure (c.container.container_id ∷ [])

  pub stop_all : List Container → List AgentConfig → Effect D Text (List Text)
  unfolding stop_found get_container
  stop_all cs [] = pure []
  stop_all cs (agent ∷ agents) = do
    ids ← stop_found (get_container (container_name lib agent) cs)
    more ← stop_all cs agents
    pure (ids ++ more)

  pub handle_agent_stop : List AgentConfig → Effect (Supervisor D) Text (Unit {0})
  unfolding stop_all stopped_with
  handle_agent_stop payload s = stopped_with payload s (stop_all s.containers payload s.docker)
