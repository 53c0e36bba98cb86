-- ===== src/Supervisor/Starting.antt =====
-- How a start of an agent ends (services/supervisor/start_agent.go: startAgent).
use forta_node_tr.Prelude.{
  Ends, Ends-bind, Text, codes, [], ◌∷◌, ◌++◌, true, Option, none, some, ◌≡◌, ◌≢◌, inl, inr, refl,
  sym, ap, Result, ok, err, Effect, outcome_cases,
}
use forta_node_tr.Agents.{Library, AgentConfig, container_name}
use forta_node_tr.Supervisor.{
  DockerContainer, Docker, Container, Supervisor, StartError, agent_already_running, get_container,
  add_container, on_docker, require_new, add, container_config, attach_json_rpc, attach_scanner,
  run_container, create_network, start_new, start_agent,
}
use forta_node_tr.Supervisor.Containers.{Named, Works, Known}

module _ {D : Type 0} where
  -- A call that changes neither the containers nor what was published.
  abbrev pub Quiet : Supervisor D → Supervisor D → Type 0
  Quiet s t = (t.containers ≡ s.containers) × (t.published ≡ s.published)

never_both :
    {D A : Type 0} {x : Result Text A × D} {a : A} {e : Text} {d d' : D}
    → x ≡ (err e, d)
    → x ≡ (ok a, d')
    → ⊥
never_both p q = cc

module _ {D : Type 0} (lib : Library) (docker : Docker D) (agent : AgentConfig)
    (s : Supervisor D) where
  abbrev pub agent_container : DockerContainer → Container
  agent_container c = record { container = c; is_agent = true; agent_config = some agent }

  -- How a start ends: with a container that is added under the name of the agent, or with an error.
  abbrev pub Started : Unit {0} → Supervisor D → Type 0
  Started _ t =
      (c : DockerContainer) × (c.name ≡ container_name lib agent)
      × (get_container (container_name lib agent) s.containers ≡ none)
      × (t.containers ≡ s.containers ++ (agent_container c ∷ []))
      × (t.published ≡ s.published)

  abbrev pub NotStarted : StartError → Supervisor D → Type 0
  NotStarted e t =
      Quiet s t
      × (e ≡ agent_already_running → Known (container_name lib agent) s)
      × (e ≢ agent_already_running → ¬ Works docker)

  on_docker-Ends :
      {A : Type 0} (R : A → Type 0) (f : Effect D Text A) (t : Supervisor D)
      → Quiet s t
      → ((a : A) (d : D) → f t.docker ≡ (ok a, d) → R a)
      → ((e : Text) (d : D) → f t.docker ≡ (err e, d) → ¬ Works docker)
      → Ends (λ a t'. R a × Quiet s t') NotStarted (on_docker f t)
  unfolding on_docker
  on_docker-Ends R f t q good bad = elim (outcome_cases (f t.docker)) [
    | inl (a, d, e) ↦ rw (e, on_docker) (good a d e, q)
    | inr (m, d, e) ↦ rw (e, on_docker) (q, (λ p. cc), (λ p. bad m d e))
  ]

  require_new-Ends :
      (o : Option Container) (t : Supervisor D)
      → Quiet s t
      → get_container (container_name lib agent) s.containers ≡ o
      → Ends
          (λ _ t'. (get_container (container_name lib agent) s.containers ≡ none) × Quiet s t')
          NotStarted
          (require_new o t)
  unfolding require_new
  require_new-Ends none t q e = (e, q)
  require_new-Ends (some c) t q e = (q, (λ p. (c, e)), (λ p. absurd (p refl)))

  add-Ends :
      (c : DockerContainer) (t : Supervisor D)
      → Quiet s t
      → c.name ≡ container_name lib agent
      → get_container (container_name lib agent) s.containers ≡ none
      → Ends Started NotStarted (add agent c t)
  unfolding add add_container
  add-Ends c t q n e = (c, n, e, ap (λ l. l ++ (agent_container c ∷ [])) q.0, q.1)

  abbrev IsNew : Type 0
  IsNew = get_container (container_name lib agent) s.containers ≡ none

  attach_json_rpc-Ends :
      (network : Text) (c : DockerContainer) (t : Supervisor D)
      → Quiet s t
      → c.name ≡ container_name lib agent
      → IsNew
      → Ends Started NotStarted (attach_json_rpc lib docker agent network c t)
  unfolding attach_json_rpc
  attach_json_rpc-Ends network c t q n new =
      let call = docker.attach_network t.json_rpc_container_id network in
      Ends-bind (λ _ t. Unit × Quiet s t) Started NotStarted (on_docker call) (λ _. add agent c) t
        (on_docker-Ends (λ _. Unit) call t q (λ a d e. tt)
          (λ m d e w. never_both e (w.attach_works t.json_rpc_container_id network t.docker).1))
        (λ _ t (_, q). add-Ends c t q n new)

  attach_scanner-Ends :
      (network : Text) (c : DockerContainer) (t : Supervisor D)
      → Quiet s t
      → c.name ≡ container_name lib agent
      → IsNew
      → Ends Started NotStarted (attach_scanner lib docker agent network c t)
  unfolding attach_scanner
  attach_scanner-Ends network c t q n new =
      let call = docker.attach_network t.scanner_container_id network in
      Ends-bind (λ _ t. Unit × Quiet s t) Started NotStarted (on_docker call)
        (λ _. attach_json_rpc lib docker agent network c) t
        (on_docker-Ends (λ _. Unit) call t q (λ a d e. tt)
          (λ m d e w. never_both e (w.attach_works t.scanner_container_id network t.docker).1))
        (λ _ t (_, q). attach_json_rpc-Ends network c t q n new)

  module _ (named : Named docker) where
    run_container-Ends :
        (network : Text) (t : Supervisor D)
        → Quiet s t
        → IsNew
        → Ends Started NotStarted (run_container lib docker agent network t)
    unfolding run_container container_config
    run_container-Ends network t q new =
        let cfg = container_config lib docker agent network in
        let call = docker.start_container cfg in
        Ends-bind (λ c t. (c.name ≡ container_name lib agent) × Quiet s t) Started NotStarted
          (on_docker call) (attach_scanner lib docker agent network) t
          (on_docker-Ends (λ c. c.name ≡ container_name lib agent) call t q
            (λ c d e. named cfg t.docker d c e)
            (λ m d e w. never_both e (w.start_works cfg t.docker).2))
          (λ c t (n, q). attach_scanner-Ends network c t q n new)

    create_network-Ends :
        (t : Supervisor D)
        → Quiet s t
        → IsNew
        → Ends Started NotStarted (create_network lib docker agent t)
    unfolding create_network
    create_network-Ends t q new =
        let call = docker.create_public_network (container_name lib agent) in
        Ends-bind (λ _ t. Unit × Quiet s t) Started NotStarted (on_docker call)
          (run_container lib docker agent) t
          (on_docker-Ends (λ _. Unit) call t q (λ a d e. tt)
            (λ m d e w. never_both e (w.network_works (container_name lib agent) t.docker).2))
          (λ network t (_, q). run_container-Ends network t q new)

    start_new-Ends :
        (t : Supervisor D) → Quiet s t → Ends Started NotStarted (start_new lib docker agent t)
    unfolding start_new
    start_new-Ends t q =
        let known = get_container (container_name lib agent) t.containers in
        Ends-bind (λ _ t. IsNew × Quiet s t) Started NotStarted (require_new known)
          (λ _. create_network lib docker agent) t
          (require_new-Ends known t q (ap (get_container (container_name lib agent)) (sym q.0)))
          (λ _ t (new, q). create_network-Ends t q new)

    pub start_agent-Ends : Ends Started NotStarted (start_agent lib docker agent s)
    unfolding start_agent
    start_agent-Ends =
        let call = docker.ensure_local_image (codes "agent " ++ agent.id) agent.image in
        Ends-bind (λ _ t. Unit × Quiet s t) Started NotStarted (on_docker call)
          (λ _. start_new lib docker agent) s
          (on_docker-Ends (λ _. Unit) call s (refl, refl) (λ a d e. tt)
            (λ m d e w.
              never_both e (w.ensure_works (codes "agent " ++ agent.id) agent.image s.docker).1))
          (λ _ t (_, q). start_new-Ends t q)
