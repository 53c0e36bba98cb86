-- ===== src/Scanner/Pool/Versions.antt =====
-- What a list of the latest versions does to the pool (services/scanner/agentpool/agent_pool.go).
use mathlib.Core.List.{map}
use forta_node_tr.Prelude.{
  ℕ, lt_or_le, List, ◌++◌, true, not, All, All-zip, All-of-member, member, member-select, select,
  ◌≡◌, ◌⊎◌, inl, inr, refl, sym, ap, ◌∙◌, subst, arith,
}
use forta_node_tr.Agents.{
  Library, AgentConfig, container_name, action_run, action_stop, publish_any,
}
use forta_node_tr.Scanner.Agent.{new_agent}
use forta_node_tr.Scanner.Pool.{Pool}
use forta_node_tr.Scanner.Pool.Handlers.{
  agent_name, in_pool, in_payload, handle_agent_versions_update,
}
use forta_node_tr.Scanner.Pool.Loops.{close_where}
use forta_node_tr.Scanner.Pool.Additions.{
  Allocated, Allocated-absent, in_pool-member, in_pool-found,
}
use forta_node_tr.Scanner.Pool.Updating.{
  in_payload_each, updated, had_agent, stays, updated-member, updated-old, updated-fresh,
  updated-covered, updated-published,
}

module _ (lib : Library) (payload : List AgentConfig) (p : Pool)
    (below : Allocated p.next p.agents) where
  stay-updated :
      (k : ℕ)
      → member k p.agents ≡ true
      → stays lib payload p k ≡ true
      → (member k (updated lib payload p).agents ≡ true)
        × ((updated lib payload p).heap k ≡ p.heap k)
  unfolding close_where
  stay-updated k m s = (
    ground (arith, updated-member lib payload p below k),
    updated-old lib payload p below k (below k m) ∙ rw s (rw m refl),
  )

  covers :
      (c : AgentConfig)
      → in_payload lib payload (container_name lib c) ≡ true
      → (had_agent lib payload p c ≡ true)
        ⊎ ((k : ℕ) × (member k (updated lib payload p).agents ≡ true)
            × ((updated lib payload p).heap k ≡ new_agent c))
      → in_pool lib (updated lib payload p).heap (updated lib payload p).agents c ≡ true
  unfolding new_agent
  covers c listed (inl e) =
      let (k, m, name) = in_pool-found lib p.heap p.agents c e in
      let (m', same) =
        stay-updated k m (subst (λ t. in_payload lib payload t ≡ true) (sym name) listed) in
      in_pool-member lib (updated lib payload p).heap (updated lib payload p).agents c k m'
        (ap (λ a. container_name lib a.config) same ∙ name)
  covers c listed (inr (k, m, e)) =
      in_pool-member lib (updated lib payload p).heap (updated lib payload p).agents c k m
        (ap (λ a. container_name lib a.config) e)

  listed-updated :
      (k : ℕ)
      → member k (updated lib payload p).agents ≡ true
      → in_payload lib payload (agent_name lib (updated lib payload p).heap k) ≡ true
  unfolding new_agent
  listed-updated k m = elim (lt_or_le k p.next) [
    | inl old ↦
        let (m', s) : (member k p.agents ≡ true) × (stays lib payload p k ≡ true) =
          ground (arith, updated-member lib payload p below k) in
        subst (λ a. in_payload lib payload (container_name lib a.config) ≡ true)
          (sym (stay-updated k m' s).1) s
    | inr fresh ↦
        let (c, e, s) = updated-fresh lib payload p below k fresh (
          ground (
            arith,
            updated-member lib payload p below k,
            Allocated-absent p.next p.agents k below fresh,
          )) in
        subst (λ a. in_payload lib payload (container_name lib a.config) ≡ true) (sym e) s
  ]

  -- After a list of the latest versions, every configuration of it has an agent in the pool and
  -- every agent of the pool is of a configuration in it; an agent that the list names stays in the
  -- pool as it was. A run message is published for the configurations that had no agent and a stop
  -- message for the agents that the list lacks, each if there are any.
  pub handle_agent_versions_update_lem :
      let p' = handle_agent_versions_update lib payload p in
      All (λ c. in_pool lib p'.heap p'.agents c ≡ true) payload
      × All (λ k. in_payload lib payload (agent_name lib p'.heap k) ≡ true) p'.agents
      × All
          (λ k. (member k p'.agents ≡ true) × (p'.heap k ≡ p.heap k))
          (select (λ k. in_payload lib payload (agent_name lib p.heap k)) p.agents)
      × (p'.published
          ≡ p.published
            ++ (publish_any action_run (select (λ c. not (in_pool lib p.heap p.agents c)) payload)
                ++ publish_any action_stop (
                    map
                      (λ k. (p.heap k).config)
                      (select
                        (λ k. not (in_payload lib payload (agent_name lib p.heap k)))
                        p.agents))))
  handle_agent_versions_update_lem = (
    All-zip _ _ _ payload covers (in_payload_each lib payload)
        (updated-covered lib payload p below),
    All-of-member _ (updated lib payload p).agents listed-updated,
    All-of-member _ (select (stays lib payload p) p.agents) (λ k m.
        let (m', s) : (member k p.agents ≡ true) × (stays lib payload p k ≡ true) =
          ground (arith, member-select (stays lib payload p) k p.agents) in
        stay-updated k m' s),
    updated-published lib payload p below,
  )
