-- ===== src/Scanner/Pool/Invariant.antt =====
-- What holds of the pool between any two steps of its handlers, senders and goroutines: it holds
-- exactly the agents that are open, and each of them is sound
-- (services/scanner/agentpool/agent_pool.go and poolagent/agent.go).
use forta_node_tr.Prelude.{
  Distinct, ℕ, ◌<◌, ◌==◌, ==_iff, List, [], ◌∷◌, Bool, true, false, not, ◌&&◌, member, ◌≡◌, refl,
  sym, ap, ◌∙◌, subst, arith, Bool-cases, lt_or_le, inl, inr,
}
use forta_node_tr.Agents.{AgentConfig, Library, Message}
use forta_node_tr.Scanner.Agent.{Agent, new_agent}
use forta_node_tr.Scanner.Agent.Sound.{Sound, new_agent-Sound, close-Sound}
use forta_node_tr.Scanner.Pool.{Pool, write, put, publish, without, discard_agent}
use forta_node_tr.Scanner.Pool.Loops.{close_where, close-closed}
use forta_node_tr.Scanner.Pool.Additions.{Allocated, Allocated-absent}
use forta_node_tr.Scanner.Pool.Updating.{
  updated-Distinct, updated, stays, updated-grows, updated-calm, updated-member, updated-old,
  updated-fresh,
}

pub record Inv (p : Pool) : Type 0 where
  pub allocated : Allocated p.next p.agents
  pub distinct : Distinct p.agents
  pub open_iff : (k : ℕ) → k < p.next → member k p.agents ≡ not (p.heap k).closed
  pub sound : (k : ℕ) → k < p.next → Sound (p.heap k)
  pub calm : p.panicked ≡ false

pub close_where-Sound :
    (f : ℕ → Bool) (ks : List ℕ) (h : ℕ → Agent) (k : ℕ)
    → Sound (h k)
    → Sound (close_where f ks h k)
unfolding close_where
close_where-Sound f ks h k s = elim (Bool-cases (member k ks && f k)) [
  | inl e ↦ rw e (close-Sound (h k) s)
  | inr e ↦ rw e s
]

-- Closing those of the pool that pass `f` leaves open those of the pool that do not.
pub close_where-closed :
    (f : ℕ → Bool) (ks : List ℕ) (h : ℕ → Agent) (k : ℕ)
    → member k ks ≡ not (h k).closed
    → (member k ks && not (f k)) ≡ not (close_where f ks h k).closed
unfolding close_where
close_where-closed f ks h k e = ground (arith, close-closed (h k))

new_agent-closed : (c : AgentConfig) → (new_agent c).closed ≡ false
unfolding new_agent
new_agent-closed c = refl

module _ (lib : Library) (payload : List AgentConfig) (p : Pool) (i : Inv p) where
  updated-open_iff :
      (k : ℕ)
      → k < (updated lib payload p).next
      → member k (updated lib payload p).agents ≡ not ((updated lib payload p).heap k).closed
  updated-open_iff k l = elim (lt_or_le k p.next) [
    | inl old ↦
        updated-member lib payload p i.allocated k
        ∙ ground arith
        ∙ close_where-closed (λ k. not (stays lib payload p k)) p.agents p.heap k (i.open_iff k old)
        ∙ ap (λ a. not a.closed) (sym (updated-old lib payload p i.allocated k old))
    | inr fresh ↦
        let (c, e, listed) = updated-fresh lib payload p i.allocated k fresh l in
        updated-member lib payload p i.allocated k
        ∙ ground (arith, new_agent-closed c)
        ∙ ap (λ a. not a.closed) (sym e)
  ]

  pub updated-Inv : Inv (updated lib payload p)
  updated-Inv = record {
    allocated = λ k m. elim (lt_or_le k p.next) [
      | inl old ↦ omega (arith, updated-grows lib payload p i.allocated)
      | inr fresh ↦ ground (
        arith,
        updated-member lib payload p i.allocated k,
        Allocated-absent p.next p.agents k i.allocated fresh,
      )
    ];
    distinct = updated-Distinct lib payload p i.allocated i.distinct;
    open_iff = updated-open_iff;
    sound = λ k l. elim (lt_or_le k p.next) [
      | inl old ↦
          subst Sound (sym (updated-old lib payload p i.allocated k old))
            (close_where-Sound (λ k. not (stays lib payload p k)) p.agents p.heap k (i.sound k old))
      | inr fresh ↦
          let (c, e, listed) = updated-fresh lib payload p i.allocated k fresh l in
          subst Sound (sym e) (new_agent-Sound c)
    ];
    calm = updated-calm lib payload p i.allocated ∙ i.calm;
  }

-- A write to one agent that keeps it open or closed as it was.
pub put-Inv :
    (k : ℕ) (a : Agent) (p : Pool)
    → a.closed ≡ (p.heap k).closed
    → Sound a
    → Inv p
    → Inv (put k a p)
unfolding put write
put-Inv k a p e s i = record {
  allocated = i.allocated;
  distinct = i.distinct;
  open_iff = λ j l. elim (Bool-cases (k == j)) [
    | inl q ↦
        rw q (
          i.open_iff j l
          ∙ ap (λ n. not (p.heap n).closed) (sym ((==_iff k j).0 q))
          ∙ ap not (sym e))
    | inr q ↦ rw q (i.open_iff j l)
  ];
  sound = λ j l. elim (Bool-cases (k == j)) [ inl q ↦ rw q s | inr q ↦ rw q (i.sound j l) ];
  calm = i.calm;
}

pub publish-Inv : (ms : List Message) (p : Pool) → Inv p → Inv (publish ms p)
unfolding publish
publish-Inv ms p i = record {
  allocated = i.allocated;
  distinct = i.distinct;
  open_iff = i.open_iff;
  sound = i.sound;
  calm = i.calm;
}

member-without : (k j : ℕ) (ks : List ℕ) → member j (without k ks) ≡ (member j ks && not (k == j))
unfolding without member
member-without k j [] = refl
member-without k j (i ∷ ks) =
    ground (arith, member-without k j ks, ==_iff i k, ==_iff i j, ==_iff k j)

Distinct-without : (k : ℕ) (ks : List ℕ) → Distinct ks → Distinct (without k ks)
unfolding without
Distinct-without k [] d = tt
Distinct-without k (j ∷ ks) (fresh, d) = elim (Bool-cases (j == k)) [
  | inl e ↦ rw e (Distinct-without k ks d)
  | inr e ↦ rw e (ground (arith, member-without k j ks, fresh), Distinct-without k ks d)
]

-- An agent that is discarded is closed, so it was not in the pool any more.
pub discard_agent-Inv :
    (k : ℕ) (p : Pool) → (p.heap k).closed ≡ true → Inv p → Inv (discard_agent k p)
unfolding discard_agent
discard_agent-Inv k p e i = record {
  allocated = λ j m. i.allocated j (ground (arith, member-without k j p.agents));
  distinct = Distinct-without k p.agents i.distinct;
  open_iff = λ j l. member-without k j p.agents ∙ elim (Bool-cases (k == j)) [
    | inl q ↦ rw q (ground (arith, subst (λ n. (p.heap n).closed ≡ true) ((==_iff k j).0 q) e))
    | inr q ↦ rw q (ground (arith, i.open_iff j l))
  ];
  sound = i.sound;
  calm = i.calm;
}
