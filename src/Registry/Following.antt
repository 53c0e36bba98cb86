-- ===== src/Registry/Following.antt =====
-- The pool of the scanner follows the lists that the registry service publishes
-- (services/registry/registry.go and services/scanner/agentpool/agent_pool.go).
use forta_node_tr.Prelude.{
  ℕ, Text, List, [], ◌∷◌, ◌++◌, true, false, All, ◌≡◌, ◌⊎◌, inl, inr, refl, sym, subst, Result, ok,
  err,
}
use forta_node_tr.Agents.{Library, AgentConfig, Message, versions_latest}
use forta_node_tr.Registry.{
  RegistryClient, RegistryStore, Answer, get_agents_if_changed, RegistryService, payload_of,
  publish_answer, publish_latest_agents, checks,
}
use forta_node_tr.Scanner.Agent.{Agent}
use forta_node_tr.Scanner.Pool.{Pool}
use forta_node_tr.Scanner.Pool.Handlers.{
  agent_name, in_pool, in_payload, handle_agent_versions_update,
}
use forta_node_tr.Scanner.Pool.Steps.{update, Reach, next, new_agent_pool, reach-Inv}
use forta_node_tr.Scanner.Pool.Versions.{handle_agent_versions_update_lem}

-- The pool handles the lists of versions among these messages.
pub deliver_lists : Library → List Message → Pool → Pool
deliver_lists lib [] p = p
deliver_lists lib (versions_latest payload ∷ ms) p =
    deliver_lists lib ms (handle_agent_versions_update lib payload p)
deliver_lists lib (m ∷ ms) p = deliver_lists lib ms p

module _ (lib : Library) (heap : ℕ → Agent) where
  deliver_lists-Reach :
      (ms : List Message) (p : Pool)
      → Reach lib (new_agent_pool heap) p
      → Reach lib (new_agent_pool heap) (deliver_lists lib ms p)
  unfolding deliver_lists
  deliver_lists-Reach [] p r = r
  deliver_lists-Reach (versions_latest payload ∷ ms) p r =
      deliver_lists-Reach ms _ (next r (update payload))
  deliver_lists-Reach (m ∷ ms) p r = deliver_lists-Reach ms p r

  deliver_lists-last :
      (ms : List Message) (payload : List AgentConfig) (p : Pool)
      → deliver_lists lib (ms ++ (versions_latest payload ∷ [])) p
        ≡ handle_agent_versions_update lib payload (deliver_lists lib ms p)
  unfolding deliver_lists
  deliver_lists-last [] payload p = refl
  deliver_lists-last (versions_latest c ∷ ms) payload p = deliver_lists-last ms payload _
  deliver_lists-last (m ∷ ms) payload p = deliver_lists-last ms payload p

  -- The agents of the pool are those of the payload.
  abbrev pub Holds : List AgentConfig → Pool → Type 0
  Holds payload p =
      All (λ c. in_pool lib p.heap p.agents c ≡ true) payload
      × All (λ k. in_payload lib payload (agent_name lib p.heap k) ≡ true) p.agents

  module _ {S : Type 0} (p : Pool) (r : Reach lib (new_agent_pool heap) p) where
    -- Nothing was published, or the pool holds the agents that the service has.
    abbrev pub Follows : RegistryService S → Type 0
    Follows rs =
        (rs.published ≡ [])
        ⊎ Holds (payload_of rs.agents_configs) (deliver_lists lib rs.published p)

    publish_answer-Follows :
        (x : Result Text Answer × RegistryStore S) (rs : RegistryService S)
        → Follows rs
        → Follows (publish_answer x rs).1
    unfolding publish_answer
    publish_answer-Follows (err e, st) rs h = h
    publish_answer-Follows (ok (cs, false), st) rs h = h
    publish_answer-Follows (ok (cs, true), st) rs h =
        let payload = payload_of cs in
        let q = deliver_lists lib rs.published p in
        let i = reach-Inv lib heap (deliver_lists-Reach rs.published p r) in
        let (present, listed, _, _) = handle_agent_versions_update_lem lib payload q i.allocated in
        inr (
          subst (Holds payload) (sym (deliver_lists-last rs.published payload p)) (present, listed))

    checks-Follows :
        (rc : RegistryClient S) (nows : List ℕ) (rs : RegistryService S)
        → Follows rs
        → Follows (checks rc nows rs)
    unfolding checks publish_latest_agents
    checks-Follows rc [] rs h = h
    checks-Follows rc (now ∷ nows) rs h =
        checks-Follows rc nows (publish_latest_agents rc now rs).1 (
          publish_answer-Follows (get_agents_if_changed rc now rs.scanner_address rs.registry_store)
            rs h)

    -- Whatever the checks of the registry give, and whichever of them fail, the agents of a pool
    -- that has handled all lists which the service published are exactly those of the service's
    -- last list, if the service has published any; the pool was reached before by any steps.
    pub checks_followed :
        (rc : RegistryClient S) (nows : List ℕ) (rs : RegistryService S)
        → rs.published ≡ []
        → Follows (checks rc nows rs)
    checks_followed rc nows rs e = checks-Follows rc nows rs (inl e)
