-- ===== src/Scanner/Pool/Additions.antt =====
-- What the first loop of handleAgentVersionsUpdate adds to the pool
-- (services/scanner/agentpool/agent_pool.go).
use forta_node_tr.Prelude.{
  Distinct-append, Distinct, ℕ, suc, ◌≤◌, ◌<◌, ◌==◌, ==_iff, ltb, leb, text_eq, text_eq_iff, List,
  [], ◌∷◌, ◌++◌, append-nil, append_assoc, Bool, true, false, true≢false, not, ◌&&◌, ◌||◌, All,
  member, member-append, select, select-pass, select-fail, ◌≡◌, refl, sym, ap, ◌∙◌, subst, arith,
  Bool-cases, ◌⊎◌, inl, inr,
}
use forta_node_tr.Agents.{AgentConfig, Library, container_name}
use forta_node_tr.Scanner.Agent.{Agent, new_agent}
use forta_node_tr.Scanner.Pool.{write, put, allocate}
use forta_node_tr.Scanner.Pool.Handlers.{
  Update, agent_name, in_pool, in_payload, add_unless, add_missing,
}

pub write-same : (k : ℕ) (a : Agent) (h : ℕ → Agent) → write k a h k ≡ a
unfolding write
write-same k a h = ground (arith, ==_iff k k)

write-below : (k j : ℕ) (a : Agent) (h : ℕ → Agent) → j < k → write k a h j ≡ h j
unfolding write
write-below k j a h l = ground (arith, ==_iff k j)

abbrev pub Allocated : ℕ → List ℕ → Type 0
Allocated n ks = (k : ℕ) → member k ks ≡ true → k < n

pub Allocated-absent : (n : ℕ) (ks : List ℕ) (k : ℕ) → Allocated n ks → n ≤ k → member k ks ≡ false
Allocated-absent n ks k below l = elim (Bool-cases (member k ks)) [
  | inl e ↦ absurd (omega (arith, below k e))
  | inr e ↦ e
]

module _ (lib : Library) where
  -- Only the configurations of the agents in the list are read.
  pub in_pool-agree :
      (g h : ℕ → Agent) (ks : List ℕ) (c : AgentConfig)
      → ((k : ℕ) → member k ks ≡ true → (g k).config ≡ (h k).config)
      → in_pool lib g ks c ≡ in_pool lib h ks c
  unfolding in_pool member
  in_pool-agree g h [] c e = refl
  in_pool-agree g h (k ∷ ks) c e = rw (e k (ground (arith, ==_iff k k))) (
      ap (λ b. text_eq (agent_name lib h k) (container_name lib c) || b)
        (in_pool-agree g h ks c (λ j m. e j (ground arith))))

  pub in_pool-member :
      (h : ℕ → Agent) (ks : List ℕ) (c : AgentConfig) (k : ℕ)
      → member k ks ≡ true
      → agent_name lib h k ≡ container_name lib c
      → in_pool lib h ks c ≡ true
  unfolding in_pool member
  in_pool-member h [] c k m e = absurd (true≢false (sym m))
  in_pool-member h (j ∷ ks) c k m e =
      let hit = (text_eq_iff (agent_name lib h k) (container_name lib c)).1 e in
      elim (Bool-cases (j == k)) [
        | inl q ↦
            subst
              (λ i.
                (text_eq (agent_name lib h i) (container_name lib c) || in_pool lib h ks c) ≡ true)
              (sym ((==_iff j k).0 q)) (rw hit refl)
        | inr q ↦ let rest = in_pool-member h ks c k (ground (arith, q)) e in ground (arith, rest)
      ]

  pub in_pool-found :
      (h : ℕ → Agent) (ks : List ℕ) (c : AgentConfig)
      → in_pool lib h ks c ≡ true
      → (k : ℕ) × (member k ks ≡ true) × (agent_name lib h k ≡ container_name lib c)
  unfolding in_pool member
  in_pool-found h [] c e = absurd (true≢false (sym e))
  in_pool-found h (j ∷ ks) c e =
      elim (Bool-cases (text_eq (agent_name lib h j) (container_name lib c))) [
        | inl q ↦ (j, ground (arith, ==_iff j j), (text_eq_iff _ _).0 q)
        | inr q ↦ let (k, m, r) = in_pool-found h ks c (ground arith) in (k, ground arith, r)
      ]

-- `f` tells which configurations the pool had an agent for at the start.
module _ (lib : Library) (all : List AgentConfig) (f : AgentConfig → Bool) where
  abbrev Comes : Agent → Type 0
  Comes a =
      (c : AgentConfig) × (a ≡ new_agent c) × (in_payload lib all (container_name lib c) ≡ true)

  -- From `u` to `v` agents were added for those of `cs` that the pool had none for.
  pub record Added (cs : List AgentConfig) (u v : Update) : Type 0 where
    pub same_agents : v.pool.agents ≡ u.pool.agents
    pub grows : u.pool.next ≤ v.pool.next
    pub old : (k : ℕ) → k < u.pool.next → v.pool.heap k ≡ u.pool.heap k
    pub fresh : (k : ℕ) → u.pool.next ≤ k → k < v.pool.next → Comes (v.pool.heap k)
    pub kept :
        (k : ℕ)
        → member k v.new_agents
          ≡ (member k u.new_agents || (leb u.pool.next k && ltb k v.pool.next))
    pub distinct :
        Allocated u.pool.next u.new_agents → Distinct u.new_agents → Distinct v.new_agents
    pub run : v.to_run ≡ u.to_run ++ select (λ c. not (f c)) cs
    pub stop : v.to_stop ≡ u.to_stop
    pub published : v.pool.published ≡ u.pool.published
    pub calm : v.pool.panicked ≡ u.pool.panicked
    pub covered :
        All
          (λ c.
            (f c ≡ true)
            ⊎ ((k : ℕ) × (member k v.new_agents ≡ true) × (v.pool.heap k ≡ new_agent c)))
          cs

  Added-nil : (u : Update) → Added [] u u
  unfolding select
  Added-nil u = record {
    same_agents = refl;
    grows = omega arith;
    old = λ k l. refl;
    fresh = λ k l m. absurd (omega arith);
    kept = λ k. ground arith;
    distinct = λ below d. d;
    run = sym (append-nil u.to_run);
    stop = refl;
    published = refl;
    calm = refl;
    covered = tt;
  }

  Added-known :
      (c : AgentConfig) (cs : List AgentConfig) (u v : Update)
      → f c ≡ true
      → Added cs u v
      → Added (c ∷ cs) u v
  Added-known c cs u v e a = record {
    same_agents = a.same_agents;
    grows = a.grows;
    old = a.old;
    fresh = a.fresh;
    kept = a.kept;
    distinct = a.distinct;
    run = a.run ∙ ap (λ l. u.to_run ++ l) (sym (select-fail (λ c. not (f c)) c cs (ap not e)));
    stop = a.stop;
    published = a.published;
    calm = a.calm;
    covered = (inl e, a.covered);
  }

  Added-new :
      (c : AgentConfig) (cs : List AgentConfig) (u v : Update)
      → in_payload lib all (container_name lib c) ≡ true
      → f c ≡ false
      → Added cs (add_unless false c u) v
      → Added (c ∷ cs) u v
  unfolding add_unless allocate put member
  Added-new c cs u v listed e a =
      let n = u.pool.next in
      let here = a.old n (omega arith) ∙ write-same n (new_agent c) u.pool.heap in
      let kept = λ (k : ℕ).
        a.kept k
        ∙ ap (λ b. b || (leb (suc n) k && ltb k v.pool.next))
            (member-append k u.new_agents (n ∷ [])) in
      record {
        same_agents = a.same_agents;
        grows = omega (arith, a.grows);
        old = λ k l. a.old k (omega arith) ∙ write-below n k (new_agent c) u.pool.heap l;
        fresh = λ k l m. elim (Bool-cases (n == k)) [
          | inl q ↦ subst (λ k. Comes (v.pool.heap k)) ((==_iff n k).0 q) (c, here, listed)
          | inr q ↦ a.fresh k (ground (arith, ==_iff n k)) m
        ];
        kept = λ k. ground (arith, kept k, a.grows, ==_iff n k);
        distinct = λ below d.
            a.distinct
              (λ k m. ground (arith, member-append k u.new_agents (n ∷ []), below k, ==_iff n k))
              (Distinct-append u.new_agents (n ∷ []) d (refl, tt)
                (λ k m. ground (arith, below k m, ==_iff n k)));
        run =
            a.run
            ∙ append_assoc u.to_run (c ∷ []) (select (λ c. not (f c)) cs)
            ∙ ap (λ l. u.to_run ++ l) (sym (select-pass (λ c. not (f c)) c cs (ap not e)));
        stop = a.stop;
        published = a.published;
        calm = a.calm;
        covered = (inr (n, ground (arith, kept n, a.grows, ==_iff n n), here), a.covered);
      }

  -- The pool's answer stays `f`, since only fresh addresses are written.
  abbrev pub Knows : Update → Type 0
  Knows u =
      Allocated u.pool.next u.pool.agents
      × ((c : AgentConfig) → in_pool lib u.pool.heap u.pool.agents c ≡ f c)

  Knows-add_unless : (b : Bool) (c : AgentConfig) (u : Update) → Knows u → Knows (add_unless b c u)
  unfolding add_unless allocate put
  Knows-add_unless true c u k = k
  Knows-add_unless false c u (below, e) = (
    λ j m. ground (arith, below j m),
    λ d.
        in_pool-agree lib (write u.pool.next (new_agent c) u.pool.heap) u.pool.heap u.pool.agents d
          (λ j m.
            ap (λ a. a.config) (write-below u.pool.next j (new_agent c) u.pool.heap (below j m)))
        ∙ e d,
  )

  Added-round :
      (b : Bool) (c : AgentConfig) (cs : List AgentConfig) (u v : Update)
      → in_payload lib all (container_name lib c) ≡ true
      → f c ≡ b
      → Added cs (add_unless b c u) v
      → Added (c ∷ cs) u v
  unfolding add_unless
  Added-round true c cs u v l e a = Added-known c cs u v e a
  Added-round false c cs u v l e a = Added-new c cs u v l e a

  pub add_missing-Added :
      (cs : List AgentConfig) (u : Update)
      → All (λ c. in_payload lib all (container_name lib c) ≡ true) cs
      → Knows u
      → Added cs u (add_missing lib cs u)
  unfolding add_missing
  add_missing-Added [] u l k = Added-nil u
  add_missing-Added (c ∷ cs) u (l, ls) k =
      subst (λ b. Added (c ∷ cs) u (add_missing lib cs (add_unless b c u))) (sym (k.1 c))
        (Added-round (f c) c cs u (add_missing lib cs (add_unless (f c) c u)) l refl
          (add_missing-Added cs (add_unless (f c) c u) ls (Knows-add_unless (f c) c u k)))
