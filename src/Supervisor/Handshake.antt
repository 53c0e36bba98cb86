-- ===== src/Supervisor/Handshake.antt =====
-- How an agent that is new comes to serve requests: the pool asks for it, the supervisor starts its
-- container and announces it, and the pool attaches it (services/scanner/agentpool/agent_pool.go
-- and services/supervisor/start_agent.go).
use mathlib.Core.List.{map}
use forta_node_tr.Prelude.{
  is_some, All-select, ℕ, suc, ◌<◌, ◌==◌, ==_iff, ==_refl, Text, text_eq, text_eq_iff, List, [],
  ◌∷◌, ◌++◌, Bool, true, false, true≢false, not, Bool-cases, Option, none, some, All, All-imp,
  member, select, if◌then◌else◌, ◌≡◌, inl, inr, refl, sym, ap, ◌∙◌, subst, arith,
}
use forta_node_tr.Agents.{
  Library, AgentConfig, container_name, Message, action_run, status_running, publish_any,
}
use forta_node_tr.Scanner.Agent.{Agent, set_client, set_ready, start_processing}
use forta_node_tr.Scanner.Pool.{Pool, write, put, publish}
use forta_node_tr.Scanner.Pool.Handlers.{
  Running, on_dialed, attach, attach_if, agent_name, in_pool, handle_agent_versions_update,
  attach_matching, attach_all, handle_status_running,
}
use forta_node_tr.Scanner.Pool.Additions.{write-same, Allocated, in_pool-agree, in_pool-found}
use forta_node_tr.Scanner.Pool.Versions.{handle_agent_versions_update_lem}
use forta_node_tr.Supervisor.{Docker, Supervisor, handle_agent_run}
use forta_node_tr.Supervisor.Containers.{UniqueNames, Named, Works}
use forta_node_tr.Supervisor.Running.{handle_agent_run-Ran}

-- The agent is ready, and both of its goroutines run with a client.
abbrev pub Serving : Agent → Type 0
Serving a = (a.ready ≡ true) × (is_some a.client ≡ true) × (0 < a.tx_loops) × (0 < a.block_loops)

attached-Serving : (c : ℕ) (a : Agent) → Serving (start_processing (set_ready (set_client c a)))
unfolding start_processing set_ready set_client
attached-Serving c a = (refl, refl, omega arith, omega arith)

-- From one heap to another agents only come to serve.
abbrev Gains : (ℕ → Agent) → (ℕ → Agent) → Type 0
Gains h h' = (k : ℕ) → ((h' k).config ≡ (h k).config) × (Serving (h k) → Serving (h' k))

Gains-write :
    (c k : ℕ) (h : ℕ → Agent)
    → Gains h (write k (start_processing (set_ready (set_client c (h k)))) h)
unfolding write start_processing set_ready set_client
Gains-write c k h j = elim (Bool-cases (k == j)) [
  | inl e ↦
      subst
        (λ i.
          ((if k == i then start_processing (set_ready (set_client c (h k))) else h i).config
            ≡ (h i).config)
          × (Serving (h i)
              → Serving
                  (if k == i then start_processing (set_ready (set_client c (h k))) else h i)))
        ((==_iff k j).0 e) (rw (==_refl k) (refl, λ s. attached-Serving c (h k)))
  | inr e ↦ rw e (refl, λ s. s)
]

Gains-join : (h h' h'' : ℕ → Agent) → Gains h h' → Gains h' h'' → Gains h h''
Gains-join h h' h'' g g' k = ((g' k).0 ∙ (g k).0, λ s. (g' k).1 ((g k).1 s))

module _ (lib : Library) (dial : ℕ → Option ℕ) (dials : (n : ℕ) → is_some (dial n) ≡ true) where
  -- From `r` to `r'` the agents `ks` of a name were attached.
  abbrev Joined : Text → List ℕ → Running → Running → Type 0
  Joined name ks r r' =
      (r'.pool.agents ≡ r.pool.agents)
      × Gains r.pool.heap r'.pool.heap
      × ((k : ℕ)
          → member k ks ≡ true
          → agent_name lib r.pool.heap k ≡ name
          → Serving (r'.pool.heap k))

  on_dialed-Joined :
      (o : Option ℕ) (k : ℕ) (r : Running)
      → is_some o ≡ true
      → (name : Text) → Joined name (k ∷ []) r (on_dialed o k r)
  unfolding on_dialed put member
  on_dialed-Joined none k r e name = absurd (true≢false (sym e))
  on_dialed-Joined (some c) k r e name = (
    refl,
    Gains-write c k r.pool.heap,
    λ j m q.
        let a = start_processing (set_ready (set_client c (r.pool.heap k))) in
        subst (λ i. Serving (write k a r.pool.heap i)) ((==_iff k j).0 (ground (arith, m)))
          (subst Serving (sym (write-same k a r.pool.heap)) (attached-Serving c (r.pool.heap k))),
  )

  attach_if-Joined :
      (b : Bool) (k : ℕ) (r : Running) (name : Text)
      → text_eq (agent_name lib r.pool.heap k) name ≡ b
      → Joined name (k ∷ []) r (attach_if b dial k r)
  unfolding attach_if attach member
  attach_if-Joined true k r name e =
      on_dialed-Joined (dial r.dialed) k (record r { dialed = suc r.dialed }) (dials r.dialed) name
  attach_if-Joined false k r name e = (
    refl,
    (λ j. (refl, λ s. s)),
    λ j m q.
        let same =
          subst (λ i. agent_name lib r.pool.heap i ≡ name)
            (sym ((==_iff k j).0 (ground (arith, m)))) q in
        absurd (true≢false (sym ((text_eq_iff (agent_name lib r.pool.heap k) name).1 same) ∙ e)),
  )

  attach_matching-Joined :
      (cfg : AgentConfig) (ks : List ℕ) (r : Running)
      → Joined (container_name lib cfg) ks r (attach_matching lib dial cfg ks r)
  unfolding attach_matching member
  attach_matching-Joined cfg [] r =
      (refl, (λ j. (refl, λ s. s)), λ j m q. absurd (true≢false (sym m)))
  attach_matching-Joined cfg (k ∷ ks) r =
      let name = container_name lib cfg in
      let b = text_eq (agent_name lib r.pool.heap k) name in
      let r' = attach_if b dial k r in
      let (a, g, s) = attach_if-Joined b k r name refl in
      let (a', g', s') = attach_matching-Joined cfg ks r' in
      (
        a' ∙ a,
        Gains-join r.pool.heap r'.pool.heap (attach_matching lib dial cfg ks r').pool.heap g g',
        λ j m q. elim (Bool-cases (k == j)) [
          | inl e ↦ (g' j).1 (s j (ground (arith, e)) q)
          | inr e ↦ s' j (ground (arith, e)) (ap (container_name lib) (g j).0 ∙ q)
        ],
      )

  -- A status message for one agent makes every agent of the pool of that name serve.
  running-Serving :
      (cfg : AgentConfig) (p : Pool)
      → let p' = handle_status_running lib dial (cfg ∷ []) p in
        (p'.agents ≡ p.agents)
        × Gains p.heap p'.heap
        × ((k : ℕ)
            → member k p.agents ≡ true
            → agent_name lib p.heap k ≡ container_name lib cfg
            → Serving (p'.heap k))
  unfolding handle_status_running attach_all publish
  running-Serving cfg p =
      attach_matching-Joined cfg p.agents
        (record { pool = p; dialed = 0; agents_ready = []; to_stop = [] })

-- The pool handles a status message for each agent of a list; `dials n` are the dials of message `n`.
pub deliver : Library → (ℕ → ℕ → Option ℕ) → ℕ → List AgentConfig → Pool → Pool
unfolding handle_status_running
deliver lib dials n [] p = p
deliver lib dials n (c ∷ cs) p =
    deliver lib dials (suc n) cs (handle_status_running lib (dials n) (c ∷ []) p)

abbrev pub ServesFor : Library → Pool → AgentConfig → Type 0
ServesFor lib p c =
    (k : ℕ) × (member k p.agents ≡ true)
    × (agent_name lib p.heap k ≡ container_name lib c)
    × Serving (p.heap k)

module _ (lib : Library) (dials : ℕ → ℕ → Option ℕ)
    (answer : (n m : ℕ) → is_some (dials n m) ≡ true) where
  deliver-Gains :
      (n : ℕ) (cs : List AgentConfig) (p : Pool)
      → ((deliver lib dials n cs p).agents ≡ p.agents)
        × Gains p.heap (deliver lib dials n cs p).heap
  unfolding deliver
  deliver-Gains n [] p = (refl, λ j. (refl, λ s. s))
  deliver-Gains n (c ∷ cs) p =
      let p' = handle_status_running lib (dials n) (c ∷ []) p in
      let (a, g, _) = running-Serving lib (dials n) (answer n) c p in
      let (a', g') = deliver-Gains (suc n) cs p' in
      (a' ∙ a, Gains-join p.heap p'.heap (deliver lib dials (suc n) cs p').heap g g')

  deliver-ServesFor :
      (n : ℕ) (cs : List AgentConfig) (p : Pool)
      → All (λ c. in_pool lib p.heap p.agents c ≡ true) cs
      → All (ServesFor lib (deliver lib dials n cs p)) cs
  unfolding deliver
  deliver-ServesFor n [] p h = tt
  deliver-ServesFor n (c ∷ cs) p (found, h) =
      let p' = handle_status_running lib (dials n) (c ∷ []) p in
      let (a, g, s) = running-Serving lib (dials n) (answer n) c p in
      let (a', g') = deliver-Gains (suc n) cs p' in
      let (k, m, name) = in_pool-found lib p.heap p.agents c found in
      (
        (
          k,
          ap (member k) (a' ∙ a) ∙ m,
          ap (container_name lib) ((g' k).0 ∙ (g k).0) ∙ name,
          (g' k).1 (s k m name),
        ),
        deliver-ServesFor (suc n) cs p' (
            All-imp _ _ cs
              (λ d e.
                ap (λ ks. in_pool lib p'.heap ks d) a
                ∙ in_pool-agree lib p'.heap p.heap p.agents d (λ j _. (g j).0)
                ∙ e)
              h),
      )

  module _ {D : Type 0} (docker : Docker D) (named : Named docker) (works : Works docker) where
    -- If Docker works and every dial is answered, each configuration that the pool had no agent for
    -- comes to serve: the list of versions makes the pool ask for exactly those, the supervisor
    -- announces each of them, and when the pool has handled the announcements it holds for each an
    -- agent that is ready and whose goroutines run with a client. The pool's addresses are
    -- allocated and no two containers of the supervisor share a name.
    pub handshake :
        (payload : List AgentConfig) (p : Pool) (s : Supervisor D)
        → Allocated p.next p.agents
        → UniqueNames s.containers
        → let asked = select (λ c. not (in_pool lib p.heap p.agents c)) payload in
          let p' = handle_agent_versions_update lib payload p in
          let s' = handle_agent_run lib docker asked s in
          ((rest : List Message) × (p'.published
              ≡ p.published ++ (publish_any action_run asked ++ rest)))
          × (s'.published ≡ s.published ++ map (λ c. status_running (c ∷ [])) asked)
          × All (ServesFor lib (deliver lib dials 0 asked p')) asked
    handshake payload p s below u =
        let f = λ (c : AgentConfig). not (in_pool lib p.heap p.agents c) in
        let (present, _, _, published) = handle_agent_versions_update_lem lib payload p below in
        let (new, ran, exactly) = handle_agent_run-Ran lib docker named (select f payload) s u in
        let p' = handle_agent_versions_update lib payload p in
        (
          (_, published),
          ran.0 ∙ ap (λ l. s.published ++ map (λ c. status_running (c ∷ [])) l) (exactly works),
          deliver-ServesFor 0 (select f payload) p' (All-select _ f payload present),
        )
