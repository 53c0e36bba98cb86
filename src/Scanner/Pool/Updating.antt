-- ===== src/Scanner/Pool/Updating.antt =====
-- handleAgentVersionsUpdate as a whole: which agents the pool has afterwards, which are closed, and
-- what is published (services/scanner/agentpool/agent_pool.go).
use mathlib.Core.List.{map}
use forta_node_tr.Prelude.{
  ◌⊎◌, Distinct-select, true≢false, Distinct-append, Distinct, ℕ, ◌≤◌, ◌<◌, ltb, leb, text_eq_refl,
  List, [], ◌∷◌, ◌++◌, Bool, true, not, ◌&&◌, ◌||◌, All, All-imp, member, member-append,
  member-select, map-select-agree, select, ◌≡◌, refl, sym, ap, ◌∙◌, subst, arith, &&-agree, inl,
  inr,
}
use forta_node_tr.Agents.{
  AgentConfig, Library, container_name, action_run, action_stop, publish_any,
}
use forta_node_tr.Scanner.Agent.{new_agent}
use forta_node_tr.Scanner.Pool.{Pool, publish}
use forta_node_tr.Scanner.Pool.Handlers.{
  Update, agent_name, in_pool, in_payload, add_missing, keep_listed, handle_agent_versions_update,
}
use forta_node_tr.Scanner.Pool.Loops.{
  close_where, close_where-agree, close_where-absent, keep_listed-Kept, is_listed, is_unlisted,
  Kept,
}
use forta_node_tr.Scanner.Pool.Additions.{Allocated, Allocated-absent, Added, add_missing-Added}

in_payload_self :
    (lib : Library) (c : AgentConfig) (cs : List AgentConfig)
    → in_payload lib (c ∷ cs) (container_name lib c) ≡ true
unfolding in_payload
in_payload_self lib c cs = ground (arith, text_eq_refl (container_name lib c))

-- Every configuration of a payload is in it.
pub in_payload_each :
    (lib : Library) (cs : List AgentConfig)
    → All (λ c. in_payload lib cs (container_name lib c) ≡ true) cs
unfolding in_payload
in_payload_each lib [] = tt
in_payload_each lib (c ∷ cs) =
    (in_payload_self lib c cs, All-imp _ _ cs (λ d h. ground (arith, h)) (in_payload_each lib cs))

module _ (lib : Library) (payload : List AgentConfig) (p : Pool) where
  abbrev started : Update
  started = record { pool = p; new_agents = []; to_run = []; to_stop = [] }

  abbrev added : Update
  added = add_missing lib payload started

  abbrev finished : Update
  finished = keep_listed lib payload p.agents added

  abbrev pub updated : Pool
  updated = handle_agent_versions_update lib payload p

  abbrev pub had_agent : AgentConfig → Bool
  had_agent = in_pool lib p.heap p.agents

  abbrev pub stays : ℕ → Bool
  stays k = in_payload lib payload (agent_name lib p.heap k)

  module _ (below : Allocated p.next p.agents) where
    added-Added : Added lib payload had_agent payload started added
    added-Added =
        add_missing-Added lib payload had_agent payload started (in_payload_each lib payload)
          (below, λ c. refl)

    finished-Kept : Kept lib payload (λ k. (added.pool.heap k).config) p.agents added finished
    finished-Kept =
        keep_listed-Kept lib payload (λ k. (added.pool.heap k).config) p.agents added (λ k. refl)

    updated-next : updated.next ≡ added.pool.next
    unfolding handle_agent_versions_update publish
    updated-next = finished-Kept.4.0

    pub updated-grows : p.next ≤ updated.next
    updated-grows = subst (λ n. p.next ≤ n) (sym updated-next) added-Added.grows

    pub updated-calm : updated.panicked ≡ p.panicked
    unfolding handle_agent_versions_update publish
    updated-calm = finished-Kept.4.2 ∙ added-Added.calm

    stays_old :
        (k : ℕ) → k < p.next → is_listed lib payload (λ k. (added.pool.heap k).config) k ≡ stays k
    stays_old k l =
        ap (λ a. in_payload lib payload (container_name lib a.config)) (added-Added.old k l)

    -- The agents: those at fresh addresses, and those that stay.
    pub updated-member :
        (k : ℕ)
        → member k updated.agents
          ≡ ((leb p.next k && ltb k updated.next) || (member k p.agents && stays k))
    unfolding handle_agent_versions_update publish member
    updated-member k =
        let listed = is_listed lib payload (λ k. (added.pool.heap k).config) in
        subst
          (λ n.
            member k finished.new_agents
            ≡ ((leb p.next k && ltb k n) || (member k p.agents && stays k)))
          (sym updated-next)
          (ap (member k) finished-Kept.1
            ∙ member-append k added.new_agents (select listed p.agents)
            ∙ ap (λ b. b || member k (select listed p.agents)) (added-Added.kept k)
            ∙ ap (λ b. (leb p.next k && ltb k added.pool.next) || b)
                (member-select listed k p.agents
                  ∙ &&-agree (member k p.agents) (listed k) (stays k)
                      (λ m. stays_old k (below k m))))

    -- An agent from before is closed if it does not stay, and is unchanged otherwise.
    pub updated-old :
        (k : ℕ) → k < p.next → updated.heap k ≡ close_where (λ k. not (stays k)) p.agents p.heap k
    unfolding handle_agent_versions_update publish
    updated-old k l =
        finished-Kept.0 k
        ∙ close_where-agree (is_unlisted lib payload (λ k. (added.pool.heap k).config))
            (λ k. not (stays k)) p.agents added.pool.heap p.heap k (ap not (stays_old k l))
            (added-Added.old k l)

    updated-absent : (k : ℕ) → p.next ≤ k → updated.heap k ≡ added.pool.heap k
    unfolding handle_agent_versions_update publish
    updated-absent k l =
        finished-Kept.0 k
        ∙ close_where-absent (is_unlisted lib payload (λ k. (added.pool.heap k).config)) p.agents
            added.pool.heap k (Allocated-absent p.next p.agents k below l)

    pub updated-fresh :
        (k : ℕ)
        → p.next ≤ k
        → k < updated.next
        → (c : AgentConfig) × (updated.heap k ≡ new_agent c)
          × (in_payload lib payload (container_name lib c) ≡ true)
    updated-fresh k l m =
        let (c, e, listed) = added-Added.fresh k l (subst (λ n. k < n) updated-next m) in
        (c, updated-absent k l ∙ e, listed)

    stopped_configs :
        finished.to_stop ≡ map (λ k. (p.heap k).config) (select (λ k. not (stays k)) p.agents)
    stopped_configs =
        let cfg_of = λ (k : ℕ). (added.pool.heap k).config in
        finished-Kept.3
        ∙ ap (λ l. l ++ map cfg_of (select (is_unlisted lib payload cfg_of) p.agents))
            added-Added.stop
        ∙ map-select-agree (is_unlisted lib payload cfg_of) (λ k. not (stays k)) cfg_of
            (λ k. (p.heap k).config) p.agents
            (λ k m. (
              ap not (stays_old k (below k m)),
              ap (λ a. a.config) (added-Added.old k (below k m)),
            ))

    pub updated-Distinct : Distinct p.agents → Distinct updated.agents
    unfolding handle_agent_versions_update publish member
    updated-Distinct d =
        let listed = is_listed lib payload (λ k. (added.pool.heap k).config) in
        subst Distinct (sym finished-Kept.1) (
          Distinct-append added.new_agents (select listed p.agents)
            (added-Added.distinct (λ k m. absurd (true≢false (sym m))) tt)
            (Distinct-select listed p.agents d)
            (λ k m. ground (arith, added-Added.kept k, member-select listed k p.agents, below k)))

    -- Each configuration of the payload had an agent, or has a new one.
    pub updated-covered :
        All
          (λ c.
            (had_agent c ≡ true)
            ⊎ ((k : ℕ) × (member k updated.agents ≡ true) × (updated.heap k ≡ new_agent c)))
          payload
    unfolding member
    updated-covered =
        All-imp _ _ payload
          (λ c. λ h. elim h [
            | inl e ↦ inl e
            | inr (k, m, e) ↦ inr (
              k,
              ground (arith, updated-member k, updated-next, added-Added.kept k),
              updated-absent k (ground (arith, added-Added.kept k)) ∙ e,
            )
          ])
          added-Added.covered

    -- What is published: the configurations that the pool had no agent for, and those of the agents
    -- that do not stay.
    pub updated-published :
        updated.published
        ≡ p.published
          ++ (publish_any action_run (select (λ c. not (had_agent c)) payload)
              ++ publish_any action_stop
                  (map (λ k. (p.heap k).config) (select (λ k. not (stays k)) p.agents)))
    unfolding handle_agent_versions_update publish
    updated-published =
        let messages = λ (run stop : List AgentConfig).
          publish_any action_run run ++ publish_any action_stop stop in
        ap (λ l. l ++ messages finished.to_run finished.to_stop)
          (finished-Kept.4.1 ∙ added-Added.published)
        ∙ ap (λ l. p.published ++ messages l finished.to_stop) (finished-Kept.2 ∙ added-Added.run)
        ∙ ap (λ l. p.published ++ messages (select (λ c. not (had_agent c)) payload) l)
            stopped_configs
