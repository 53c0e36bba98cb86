-- ===== src/Supervisor/Running.antt =====
-- What the supervisor does to run agents: which containers it knows afterwards and which agents it
-- announces (services/supervisor/start_agent.go).
use mathlib.Core.List.{map-append, map}
use forta_node_tr.Prelude.{
  Ends, Text, text_eq, text_eq_refl, List, [], ◌∷◌, ◌++◌, append-nil, append_assoc, Bool-cases,
  none, some, All, All-imp, All-append, ◌≡◌, inl, inr, refl, sym, ap, ◌∙◌, subst, Result, ok, err,
}
use forta_node_tr.Agents.{Library, AgentConfig, container_name, Message, status_running}
use forta_node_tr.Supervisor.{
  Docker, Container, Supervisor, StartError, agent_already_running, docker_error, get_container,
  broadcast, start_agent, after_start, handle_agent_run,
}
use forta_node_tr.Supervisor.Containers.{
  UniqueNames, Named, Works, Known, get_container-append, get_container-last, UniqueNames-append,
}
use forta_node_tr.Supervisor.Starting.{agent_container, Started, NotStarted, start_agent-Ends}

module _ {D : Type 0} (lib : Library) (docker : Docker D) (named : Named docker) where
  abbrev announced : List AgentConfig → List Message
  announced = map (λ c. status_running (c ∷ []))

  -- From `s` to `t` the agents `new` were announced, and the supervisor knows a container for each.
  abbrev pub Ran : List AgentConfig → Supervisor D → Supervisor D → Type 0
  Ran new s t =
      (t.published ≡ s.published ++ announced new)
      × All (λ c. Known (container_name lib c) t) new
      × ((name : Text) → Known name s → Known name t)
      × UniqueNames t.containers

  Ran-join :
      (new more : List AgentConfig) (s t u : Supervisor D)
      → Ran new s t
      → Ran more t u
      → Ran (new ++ more) s u
  Ran-join new more s t u (p, k, m, _) (p', k', m', u') = (
    p'
        ∙ ap (λ l. l ++ announced more) p
        ∙ append_assoc s.published (announced new) (announced more)
        ∙ ap (λ l. s.published ++ l) (sym (map-append _ new more)),
    All-append (λ c. Known (container_name lib c) u) new more
        (All-imp _ _ new (λ c. m' (container_name lib c)) k) k',
    λ name h. m' name (m name h),
    u',
  )

  after_start-Ran :
      (agent : AgentConfig) (s : Supervisor D) (x : Result StartError (Unit {0}) × Supervisor D)
      → UniqueNames s.containers
      → Ends (Started lib docker agent s) (NotStarted lib docker agent s) x
      → (new : List AgentConfig) × Ran new s (after_start lib docker agent x)
        × (Works docker → new ≡ agent ∷ [])
  unfolding after_start broadcast
  after_start-Ran agent s (ok _, t) u (c, n, new, e, p) =
      let known =
        get_container-last (container_name lib agent) s.containers
          (agent_container lib docker agent s c) new n in
      (
        agent ∷ [],
        (
          ap (λ l. l ++ (status_running (agent ∷ []) ∷ [])) p,
          (
            (
              agent_container lib docker agent s c,
              ap (get_container (container_name lib agent)) e ∙ known,
            ),
            tt,
          ),
          (λ name (d, q).
              (d, ap (get_container name) e ∙ get_container-append name s.containers _ d q)),
          subst UniqueNames (sym e) (
              UniqueNames-append s.containers _ u
                (subst (λ t. get_container t s.containers ≡ none) (sym n) new)),
        ),
        λ w. refl,
      )
  after_start-Ran agent s (err agent_already_running, t) u ((e, p), known, _) =
      let (c, q) = known refl in
      (
        agent ∷ [],
        (
          ap (λ l. l ++ (status_running (agent ∷ []) ∷ [])) p,
          ((c, ap (get_container (container_name lib agent)) e ∙ q), tt),
          (λ name (d, r). (d, ap (get_container name) e ∙ r)),
          subst UniqueNames (sym e) u,
        ),
        λ w. refl,
      )
  after_start-Ran agent s (err (docker_error m), t) u ((e, p), _, broken) = (
    [],
    (
      p ∙ sym (append-nil s.published),
      tt,
      (λ name (d, r). (d, ap (get_container name) e ∙ r)),
      subst UniqueNames (sym e) u,
    ),
    λ w. absurd (broken (λ q. cc) w),
  )

  pub handle_agent_run-Ran :
      (agents : List AgentConfig) (s : Supervisor D)
      → UniqueNames s.containers
      → (new : List AgentConfig) × Ran new s (handle_agent_run lib docker agents s)
        × (Works docker → new ≡ agents)
  unfolding handle_agent_run
  handle_agent_run-Ran [] s u =
      ([], (sym (append-nil s.published), tt, (λ name k. k), u), λ w. refl)
  handle_agent_run-Ran (a ∷ agents) s u =
      let x = start_agent lib docker a s in
      let t = after_start lib docker a x in
      let (new, ran, works) = after_start-Ran a s x u (start_agent-Ends lib docker a s named) in
      let (more, ran', works') = handle_agent_run-Ran agents t ran.3 in
      (
        new ++ more,
        Ran-join new more s t (handle_agent_run lib docker agents t) ran ran',
        λ w. ap (λ l. l ++ more) (works w) ∙ ap (λ l. a ∷ l) (works' w),
      )

  known_here :
      (cs : List Container)
      → All (λ c. (d : Container) × (get_container c.container.name cs ≡ some d)) cs
  unfolding get_container
  known_here [] = tt
  known_here (c ∷ cs) = (
    (c, rw (text_eq_refl c.container.name) refl),
    All-imp _ _ cs
        (λ b (d, e). elim (Bool-cases (text_eq c.container.name b.container.name)) [
          | inl q ↦ (c, rw q refl)
          | inr q ↦ (d, rw q e)
        ])
        (known_here cs),
  )

  -- If the Docker client names containers as it is asked to and no two known containers share a
  -- name, a run message announces agents that the supervisor knows a container for afterwards, one
  -- message for each, every container that was known still is, and no two share a name.
  pub handle_agent_run_lem :
      (agents : List AgentConfig) (s : Supervisor D)
      → UniqueNames s.containers
      → let t = handle_agent_run lib docker agents s in
        (new : List AgentConfig) × (t.published
          ≡ s.published ++ map (λ c. status_running (c ∷ [])) new)
        × All (λ c. Known (container_name lib c) t) new
        × All (λ c. Known c.container.name t) s.containers
        × UniqueNames t.containers
  handle_agent_run_lem agents s u =
      let (new, (p, k, m, u'), _) = handle_agent_run-Ran agents s u in
      (new, p, k, All-imp _ _ s.containers (λ c. m c.container.name) (known_here s.containers), u')
