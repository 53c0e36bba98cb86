-- ===== src/Registry/Tests.antt =====
-- Checks of a registry whose scanner is switched off for a while, and the theorems about it at this
-- input (store/registry.go and services/registry/registry.go).
use mathlib.Core.List.{map}
use forta_node_tr.Prelude.{
  ℕ, suc, ◌*◌, ◌==◌, codes, text_eq, List, [], ◌∷◌, ◌++◌, not, none, some, length, if◌then◌else◌,
  ◌≡◌, refl, ok, err, is_empty,
}
use forta_node_tr.Agents.{Library}
use forta_node_tr.Registry.{
  Assigned, RegistryClient, RegistryStore, load_manifest, with_image, check_image, load_agent,
  make_agent_config, take_config, make_configs, on_client, loaded, load, load_if, is_outdated,
  if_enabled, with_hash, get_agents_if_changed, RegistryService, zero_config, payload_of,
  publish_answer, publish_latest_agents, checks,
}
use forta_node_tr.Registry.Following.{Follows, checks_followed}
use forta_node_tr.Scanner.Agent.{Agent, new_agent}
use forta_node_tr.Scanner.Pool.Steps.{here, new_agent_pool}

abbrev lib : Library
lib = record {
  split_image_ref = λ t. (t, t);
  shorten_string = λ t n. t;
  decode_uint64 = λ t. (length t, is_empty t);
}

abbrev given : List Assigned
given =
    record { agent_id = codes "0x1"; manifest = codes "Qm1" }
    ∷ record { agent_id = codes "0x2"; manifest = codes "bad" }
    ∷ record { agent_id = codes "0x3"; manifest = [] }
    ∷ []

-- The state counts the checks; the second finds the scanner disabled.
abbrev rc : RegistryClient ℕ
rc = record {
  get_assignment_hash = λ scanner n. (ok (codes "hash"), n);
  is_enabled_scanner = λ scanner n. (ok (not (n == 1)), suc n);
  peg_latest_block = λ n. (ok tt, n);
  reset_opts = λ n. n;
  assigned_agents = λ scanner n. ((given, none), n);
  get_agent_manifest = λ ref n.
      (if text_eq ref (codes "bad") then (err (codes "timeout"), n) else (ok (some ref), n));
  validate_disco_image_ref = λ raw. ok (codes "disco/" ++ raw);
}

abbrev empty_store : RegistryStore ℕ
empty_store = record { client = 0; version = []; last_update = 0 }

abbrev service : RegistryService ℕ
service = record {
  scanner_address = codes "0xs";
  registry_store = empty_store;
  agents_configs = [];
  published = [];
}

abbrev seconds : ℕ → ℕ
seconds n = n * 1000000000

-- One of the agents failed, and one without a manifest is sent as a configuration without values.
loaded_run :
    map (λ c. c.image) (payload_of (publish_latest_agents rc (seconds 60) service).1.agents_configs)
    ≡ codes "disco/Qm1" ∷ [] ∷ []
unfolding load_manifest with_image check_image load_agent make_agent_config take_config make_configs
    on_client loaded load load_if is_outdated if_enabled with_hash get_agents_if_changed payload_of
    publish_answer publish_latest_agents text_eq
loaded_run = refl

-- After the scanner is enabled again, its agents are not published before an hour is over.
enabled_again_run :
    length (checks rc (seconds 60 ∷ seconds 75 ∷ seconds 90 ∷ []) service).published ≡ 2
unfolding load_manifest with_image check_image load_agent make_agent_config take_config make_configs
    on_client loaded load load_if is_outdated if_enabled with_hash get_agents_if_changed payload_of
    publish_answer publish_latest_agents text_eq checks
enabled_again_run = refl

later_run : length (checks rc (seconds 60 ∷ seconds 75 ∷ seconds 3661 ∷ []) service).published ≡ 3
unfolding load_manifest with_image check_image load_agent make_agent_config take_config make_configs
    on_client loaded load load_if is_outdated if_enabled with_hash get_agents_if_changed payload_of
    publish_answer publish_latest_agents text_eq checks
later_run = refl

abbrev empty_heap : ℕ → Agent
empty_heap k = new_agent zero_config

checks_followed_example :
    Follows lib empty_heap
      (new_agent_pool empty_heap)
      here
      (checks rc (seconds 60 ∷ seconds 75 ∷ []) service)
checks_followed_example =
    checks_followed lib empty_heap (new_agent_pool empty_heap) here rc
      (seconds 60 ∷ seconds 75 ∷ []) service refl
