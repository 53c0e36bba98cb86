-- ===== src/Registry.antt =====
-- How the node learns which agents to run (store/registry.go and services/registry/registry.go). The
-- client of the registry contract and the client of manifests are parameters with one state;
-- `now` is the time in nanoseconds.
pub mod Checks
pub mod Following
pub mod Tests
use forta_node_tr.Prelude.{
  ℕ, zero, suc, ◌-◌, ltb, Text, codes, text_eq, List, [], ◌∷◌, ◌++◌, Bool, true, false, not, ◌||◌,
  Option, none, some, Result, ok, err, Effect, pure, raise, ◌>>=◌, ◌>>◌,
}
use forta_node_tr.Agents.{AgentConfig, Message, versions_latest}

-- `registry.Agent`
pub record Assigned : Type 0 where
  pub agent_id : Text
  pub manifest : Text

-- `assigned_agents` returns the agents that ForEachAssignedAgent calls its function with, and the
-- error that it ends with; a manifest is its image reference, if it has one.
pub record RegistryClient (S : Type 0) : Type 0 where
  pub get_assignment_hash : Text → Effect S Text Text
  pub is_enabled_scanner : Text → Effect S Text Bool
  pub peg_latest_block : Effect S Text (Unit {0})
  pub reset_opts : S → S
  pub assigned_agents : Text → S → (List Assigned × Option Text) × S
  pub get_agent_manifest : Text → Effect S Text (Option Text)
  pub validate_disco_image_ref : Text → Result Text Text

pub record RegistryStore (S : Type 0) : Type 0 where
  pub client : S
  pub version : Text
  pub last_update : ℕ

abbrev pub update_interval : ℕ
update_interval = 3600000000000

-- A configuration in a list of pointers: nil, or a configuration.
abbrev pub ConfigPointer : Type 0
ConfigPointer = Option AgentConfig

-- What GetAgentsIfChanged returns: the agents, and whether they changed.
abbrev pub Answer : Type 0
Answer = List ConfigPointer × Bool

module _ {S : Type 0} (rc : RegistryClient S) where
  -- The loop over at most `n` tries; `e` is the error of the last one.
  pub load_manifest : ℕ → Text → Text → Effect S Text (Option Text)
  load_manifest zero e ref s =
      (err (codes "failed to load the agent file using ipfs ref: " ++ e), s)
  load_manifest (suc n) e ref s =
      let (r, s') = rc.get_agent_manifest ref s in
      elim r [ ok m ↦ (ok m, s') | err e' ↦ load_manifest n e' ref s' ]

  pub with_image : Assigned → Text → Result Text Text → Result Text ConfigPointer
  with_image a raw (err e) =
      err (codes "invalid agent image reference '" ++ raw ++ codes "': " ++ e)
  with_image a raw (ok image) = ok (
      some (record {
        id = a.agent_id;
        image = image;
        manifest = a.manifest;
        is_local = false;
        start_block = none;
        stop_block = none;
      }))

  pub check_image : Assigned → Option Text → Result Text ConfigPointer
  unfolding with_image
  check_image a none = err (codes "invalid agent image reference, it is nil")
  check_image a (some image) = with_image a image (rc.validate_disco_image_ref image)

  -- makeAgentConfig, which returns no error and nil for an empty reference.
  pub load_agent : Text → Assigned → Effect S Text ConfigPointer
  unfolding load_manifest check_image
  load_agent [] a = pure none
  load_agent (c ∷ ref) a = load_manifest 10 [] (c ∷ ref) >>= λ m s. (check_image a m, s)

  pub make_agent_config : Assigned → Effect S Text ConfigPointer
  unfolding load_agent
  make_agent_config a = load_agent a.manifest a

  -- One call of the function that is passed to ForEachAssignedAgent, before the others.
  pub take_config :
      Result Text ConfigPointer → (List ConfigPointer × Bool) × S → (List ConfigPointer × Bool) × S
  take_config (ok c) ((cs, failed), s) = ((c ∷ cs, failed), s)
  take_config (err e) ((cs, failed), s) = ((cs, true), s)

  -- The configurations that were made, and whether any failed.
  pub make_configs : List Assigned → S → (List ConfigPointer × Bool) × S
  unfolding make_agent_config take_config
  make_configs [] s = (([], false), s)
  make_configs (a ∷ as') s =
      let (r, s') = make_agent_config a s in take_config r (make_configs as' s')

  pub on_client : {A : Type 0} → (Text → Text) → Effect S Text A → Effect (RegistryStore S) Text A
  on_client wrap f rs =
      let (r, s) = f rs.client in
      let rs' = record rs { client = s } in
      elim r [ ok a ↦ (ok a, rs') | err e ↦ (err (wrap e), rs') ]

  -- The end of GetAgentsIfChanged, by the error of ForEachAssignedAgent.
  pub loaded :
      ℕ → Text → Option Text → List ConfigPointer → Bool → Effect (RegistryStore S) Text Answer
  loaded now hash (some e) cs failed = raise e
  loaded now hash none [] true = raise (codes "loaded zero agents")
  loaded now hash none [] false =
      λ rs. (ok ([], true), record rs { version = hash; last_update = now })
  loaded now hash none (c ∷ cs) failed =
      λ rs. (ok (c ∷ cs, true), record rs { version = hash; last_update = now })

  -- With the latest block pegged, until the end.
  pub load : ℕ → Text → Text → Effect (RegistryStore S) Text Answer
  unfolding loaded make_configs
  load now scanner hash rs =
      let ((assigned, e), s) = rc.assigned_agents scanner rs.client in
      let ((cs, failed), s') = make_configs assigned s in
      let (r, rs') = loaded now hash e cs failed (record rs { client = s' }) in
      (r, record rs' { client = rc.reset_opts rs'.client })

  pub load_if : Bool → ℕ → Text → Text → Effect (RegistryStore S) Text Answer
  unfolding on_client load
  load_if false now scanner hash = pure ([], false)
  load_if true now scanner hash = on_client (λ e. e) rc.peg_latest_block >> load now scanner hash

  pub is_outdated : ℕ → Text → RegistryStore S → Bool
  is_outdated now hash rs =
      not (text_eq rs.version hash) || ltb update_interval (now - rs.last_update)

  pub if_enabled : Bool → ℕ → Text → Text → Effect (RegistryStore S) Text Answer
  unfolding load_if is_outdated
  if_enabled false now scanner hash rs = (ok ([], true), rs)
  if_enabled true now scanner hash rs = load_if (is_outdated now hash rs) now scanner hash rs

  pub with_hash : ℕ → Text → Text → Effect (RegistryStore S) Text Answer
  unfolding on_client if_enabled
  with_hash now scanner hash =
      on_client (λ e. codes "failed to check if scanner is enabled: " ++ e)
        (rc.is_enabled_scanner scanner)
      >>= λ enabled. if_enabled enabled now scanner hash

  pub get_agents_if_changed : ℕ → Text → Effect (RegistryStore S) Text Answer
  unfolding on_client with_hash
  get_agents_if_changed now scanner =
      on_client (λ e. e) (rc.get_assignment_hash scanner) >>= with_hash now scanner

pub record RegistryService (S : Type 0) : Type 0 where
  pub scanner_address : Text
  pub registry_store : RegistryStore S
  pub agents_configs : List ConfigPointer
  pub published : List Message

-- nil is sent as null, and the subscribers decode it as the configuration without values.
abbrev pub zero_config : AgentConfig
zero_config = record {
  id = [];
  image = [];
  manifest = [];
  is_local = false;
  start_block = none;
  stop_block = none;
}

pub payload_of : List ConfigPointer → List AgentConfig
payload_of [] = []
payload_of (none ∷ cs) = zero_config ∷ payload_of cs
payload_of (some c ∷ cs) = c ∷ payload_of cs

module _ {S : Type 0} where
  -- What publishLatestAgents does with the answer of the store.
  pub publish_answer :
      Result Text Answer × RegistryStore S
      → RegistryService S
      → Result Text (Unit {0}) × RegistryService S
  unfolding payload_of
  publish_answer (err e, st) rs = (
    err (codes "failed to get the scanner list agents version: " ++ e),
    record rs { registry_store = st },
  )
  publish_answer (ok (cs, false), st) rs = (ok tt, record rs { registry_store = st })
  publish_answer (ok (cs, true), st) rs = (
    ok tt,
    record rs {
      registry_store = st;
      agents_configs = cs;
      published = rs.published ++ (versions_latest (payload_of cs) ∷ []);
    },
  )

  pub publish_latest_agents : RegistryClient S → ℕ → Effect (RegistryService S) Text (Unit {0})
  unfolding publish_answer get_agents_if_changed
  publish_latest_agents rc now rs =
      publish_answer (get_agents_if_changed rc now rs.scanner_address rs.registry_store) rs

  -- The checks of the service, at these times.
  pub checks : RegistryClient S → List ℕ → RegistryService S → RegistryService S
  unfolding publish_latest_agents
  checks rc [] rs = rs
  checks rc (now ∷ nows) rs = checks rc nows (publish_latest_agents rc now rs).1
