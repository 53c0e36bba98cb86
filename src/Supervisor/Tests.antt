-- ===== src/Supervisor/Tests.antt =====
-- Runs of the supervisor with a Docker client that works, and with one that fails to stop a
-- container, and the theorems about it at these inputs (services/supervisor/start_agent.go).
use mathlib.Core.List.{map}
use forta_node_tr.Prelude.{
  ℕ, zero, suc, Text, codes, text_eq, List, [], ◌∷◌, ◌++◌, false, true≢false, not, none, some, All,
  member, select, length, ◌≡◌, refl, sym, ap, Result, ok, err, is_empty,
}
use forta_node_tr.Agents.{
  Library, AgentConfig, container_name, Message, action_run, status_running, publish_any,
}
use forta_node_tr.Supervisor.{
  Docker, Supervisor, get_container, add_container, broadcast, on_docker, require_new, add,
  stopped_with, container_config, attach_json_rpc, attach_scanner, run_container, create_network,
  start_new, start_agent, after_start, handle_agent_run, stop_found, stop_all, handle_agent_stop,
}
use forta_node_tr.Supervisor.Containers.{UniqueNames, Named, Works, Known}
use forta_node_tr.Supervisor.Running.{handle_agent_run_lem}
use forta_node_tr.Supervisor.Handshake.{deliver, ServesFor, handshake}
use forta_node_tr.Scanner.Agent.{new_agent}
use forta_node_tr.Scanner.Pool.{Pool}
use forta_node_tr.Scanner.Pool.Handlers.{in_pool, handle_agent_versions_update}
use forta_node_tr.Scanner.Pool.Additions.{Allocated}
use forta_node_tr.Scanner.Pool.Steps.{new_agent_pool}

abbrev lib : Library
lib = record {
  split_image_ref = λ t. (t, t);
  shorten_string = λ t n. t;
  decode_uint64 = λ t. (length t, is_empty t);
}

abbrev config : Text → AgentConfig
config id = record {
  id = id;
  image = codes "image";
  manifest = codes "Qm";
  is_local = false;
  start_block = none;
  stop_block = none;
}

abbrev both : List AgentConfig
both = config (codes "0x1") ∷ config (codes "0x2") ∷ []

-- The state counts the containers that were stopped; container ids are names.
abbrev works_with : (ℕ → Result Text (Unit {0})) → Docker ℕ
works_with stop = record {
  ensure_local_image = λ what image n. (ok tt, n);
  create_public_network = λ name n. (ok name, n);
  start_container = λ cfg n. (ok (record { container_id = cfg.name; name = cfg.name }), n);
  attach_network = λ container network n. (ok tt, n);
  stop_container = λ id n. (stop n, suc n);
}

abbrev docker : Docker ℕ
docker = works_with (λ n. ok tt)

-- The second container does not stop.
abbrev second_fails : ℕ → Result Text (Unit {0})
second_fails zero = ok tt
second_fails (suc n) = err (codes "timeout")

docker-Named : Named docker
docker-Named cfg d d' c e = ap (λ x. elim x.0 [ ok b ↦ b.name | err _ ↦ [] ]) (sym e)

docker-Works : Works docker
docker-Works = record {
  ensure_works = λ a b d. (d, refl);
  network_works = λ a d. (a, d, refl);
  start_works = λ cfg d. (record { container_id = cfg.name; name = cfg.name }, d, refl);
  attach_works = λ a b d. (d, refl);
}

abbrev empty_supervisor : Supervisor ℕ
empty_supervisor = record {
  scanner_container_id = codes "scanner";
  json_rpc_container_id = codes "json-rpc";
  containers = [];
  published = [];
  docker = 0;
}

abbrev running_both : Supervisor ℕ
running_both = handle_agent_run lib docker both empty_supervisor

-- An agent that runs is announced again, and no second container is started.
again_run :
    map (λ c. c.container.name) (handle_agent_run lib docker both running_both).containers
    ≡ map (container_name lib) both
unfolding container_name text_eq get_container add_container broadcast on_docker require_new add
    container_config attach_json_rpc attach_scanner run_container create_network start_new
    start_agent after_start handle_agent_run
again_run = refl

-- The container that was stopped before the failure is still known.
failed_stop_run :
    length (handle_agent_stop lib (works_with second_fails) both running_both).1.containers ≡ 2
unfolding container_name text_eq get_container add_container broadcast on_docker require_new add
    container_config attach_json_rpc attach_scanner run_container create_network start_new
    start_agent after_start handle_agent_run stop_found stop_all stopped_with handle_agent_stop
failed_stop_run = refl

both-UniqueNames : UniqueNames running_both.containers
unfolding container_name text_eq get_container add_container broadcast on_docker require_new add
    container_config attach_json_rpc attach_scanner run_container create_network start_new
    start_agent after_start handle_agent_run
both-UniqueNames = (refl, (refl, tt))

handle_agent_run_lem_example :
    let t = handle_agent_run lib docker both running_both in
    (new : List AgentConfig) × (t.published
      ≡ running_both.published ++ map (λ c. status_running (c ∷ [])) new)
    × All (λ c. Known (container_name lib c) t) new
    × All (λ c. Known c.container.name t) running_both.containers
    × UniqueNames t.containers
handle_agent_run_lem_example =
    handle_agent_run_lem lib docker docker-Named both running_both both-UniqueNames

abbrev empty_pool : Pool
empty_pool = new_agent_pool (λ k. new_agent (config []))

empty-Allocated : Allocated empty_pool.next empty_pool.agents
unfolding new_agent_pool member
empty-Allocated k m = absurd (true≢false (sym m))

handshake_example :
    let asked = select (λ c. not (in_pool lib empty_pool.heap empty_pool.agents c)) both in
    let p' = handle_agent_versions_update lib both empty_pool in
    let s' = handle_agent_run lib docker asked empty_supervisor in
    ((rest : List Message) × (p'.published
        ≡ empty_pool.published ++ (publish_any action_run asked ++ rest)))
    × (s'.published ≡ empty_supervisor.published ++ map (λ c. status_running (c ∷ [])) asked)
    × All (ServesFor lib (deliver lib (λ n m. some m) 0 asked p')) asked
handshake_example =
    handshake lib (λ n m. some m) (λ n m. refl) docker docker-Named docker-Works both empty_pool
      empty_supervisor empty-Allocated tt
