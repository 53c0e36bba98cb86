-- ===== src/Scanner/Pool/Delivery.antt =====
-- Which agents get a request (services/scanner/agentpool/agent_pool.go).
use mathlib.Core.List.{map}
use forta_node_tr.Prelude.{
  ℕ, ◌==◌, ==_iff, ==_refl, List, [], ◌∷◌, ◌++◌, Bool, true, false, not, ◌&&◌, ◌||◌, Bool-cases,
  member, map-select-agree, select, Distinct, if◌then◌else◌, ◌≡◌, inl, inr, refl, sym, ap, ◌∙◌,
  subst, arith,
}
use forta_node_tr.Agents.{
  Library, Metric, create_agent_metric, Message, scanner_block, send_agent_metrics,
}
use forta_node_tr.Scanner.Agent.{Request, Lane, tx, block, Agent, requests, set_requests, has_room}
use forta_node_tr.Scanner.Pool.{Pool, write, put, publish}
use forta_node_tr.Scanner.Pool.Sending.{
  drop_metric, select_case, is_eligible, act, skip_metrics, offer_if, offer, offer_all,
  send_evaluate_tx_request, send_evaluate_block_request,
}
use forta_node_tr.Scanner.Pool.Steps.{reach-Inv, Reach, new_agent_pool}

module _ (lib : Library) (lane : Lane) (req : Request) where
  abbrev pub accepts : Agent → Bool
  accepts a = is_eligible lib lane req a && has_room lane a

  abbrev pub refuses : Agent → Bool
  refuses a = is_eligible lib lane req a && not (has_room lane a)

  abbrev pub given : Agent → Agent
  given a = set_requests lane (requests lane a ++ (req ∷ [])) a

  abbrev pub drop_of : Agent → Metric
  drop_of a = create_agent_metric a.config.id (drop_metric lane) 1

  -- From `p` the request was offered to the agents `ks`, with these metrics.
  abbrev pub Offered : List ℕ → Pool → Pool × List Metric → Type 0
  Offered ks p (p', ms) =
      ((k : ℕ)
        → p'.heap k ≡ (if member k ks && accepts (p.heap k) then given (p.heap k) else p.heap k))
      × (p'.agents ≡ p.agents)
      × (ms ≡ map (λ k. drop_of (p.heap k)) (select (λ k. refuses (p.heap k)) ks))
      × (p'.published ≡ p.published)

  offer_open-heap :
      (k j : ℕ) (h : ℕ → Agent) (b : Bool)
      → accepts (h k) ≡ b
      → (if b then write k (given (h k)) h j else h j)
        ≡ (if member j (k ∷ []) && accepts (h j) then given (h j) else h j)
  unfolding write member
  offer_open-heap k j h b e = elim (Bool-cases (k == j)) [
    | inl q ↦
        subst
          (λ i.
            (if b then (if k == i then given (h k) else h i) else h i)
            ≡ (if (k == i || false) && accepts (h i) then given (h i) else h i))
          ((==_iff k j).0 q) (rw (==_refl k) (rw e (agree b)))
    | inr q ↦ rw q (same b)
  ]
    where
      agree : (c : Bool) → (if c then given (h k) else h k) ≡ (if c then given (h k) else h k)
      agree c = refl

      same : (c : Bool) → (if c then h j else h j) ≡ h j
      same true = refl
      same false = refl

  offer_open :
      (e room coin : Bool) (k : ℕ) (p : Pool)
      → is_eligible lib lane req (p.heap k) ≡ e
      → has_room lane (p.heap k) ≡ room
      → Offered (k ∷ []) p (offer_if lib lane req e (select_case coin false room) k p)
  unfolding offer_if select_case act skip_metrics put member select
  offer_open true true coin k p e r =
      (λ j. offer_open-heap k j p.heap true (rw e r), refl, rw (e, r) refl, refl)
  offer_open true false coin k p e r =
      (λ j. offer_open-heap k j p.heap false (rw e r), refl, rw (e, r) refl, refl)
  offer_open false room coin k p e r =
      (λ j. offer_open-heap k j p.heap false (rw e refl), refl, rw e refl, refl)

  -- An offer to one agent leaves the others alone.
  other_heap :
      (k : ℕ) (p : Pool) (x : Pool × List Metric) (j : ℕ)
      → Offered (k ∷ []) p x
      → (k == j) ≡ false
      → x.0.heap j ≡ p.heap j
  unfolding member
  other_heap k p x j o e = o.0 j ∙ rw e refl

  map-select-one :
      (f : ℕ → Bool) (c : ℕ → Metric) (k : ℕ) (ks : List ℕ)
      → map c (select f (k ∷ [])) ++ map c (select f ks) ≡ map c (select f (k ∷ ks))
  unfolding select
  map-select-one f c k ks = elim (Bool-cases (f k)) [ inl e ↦ rw e refl | inr e ↦ rw e refl ]

  joined_heap :
      (k : ℕ) (ks : List ℕ) (p : Pool) (x y : Pool × List Metric) (j : ℕ)
      → member k ks ≡ false
      → Offered (k ∷ []) p x
      → Offered ks x.0 y
      → y.0.heap j
        ≡ (if member j (k ∷ ks) && accepts (p.heap j) then given (p.heap j) else p.heap j)
  unfolding member
  joined_heap k ks p x y j fresh o o' = elim (Bool-cases (k == j)) [
    | inl q ↦
        let absent = subst (λ i. member i ks ≡ false) ((==_iff k j).0 q) fresh in
        o'.0 j
        ∙ ap (λ b. if b && accepts (x.0.heap j) then given (x.0.heap j) else x.0.heap j) absent
        ∙ o.0 j
        ∙ rw q refl
    | inr q ↦
        o'.0 j
        ∙ ap (λ a. if member j ks && accepts a then given a else a) (other_heap k p x j o q)
        ∙ rw q refl
  ]

  Offered-join :
      (k : ℕ) (ks : List ℕ) (p : Pool) (x y : Pool × List Metric)
      → member k ks ≡ false
      → Offered (k ∷ []) p x
      → Offered ks x.0 y
      → Offered (k ∷ ks) p (y.0, x.1 ++ y.1)
  Offered-join k ks p x y fresh o o' = (
    λ j. joined_heap k ks p x y j fresh o o',
    o'.1 ∙ o.1,
    ap (λ l. l ++ y.1) o.2
        ∙ ap (λ l. map (λ k. drop_of (p.heap k)) (select (λ k. refuses (p.heap k)) (k ∷ [])) ++ l)
            (o'.2
              ∙ map-select-agree (λ j. refuses (x.0.heap j)) (λ j. refuses (p.heap j))
                  (λ j. drop_of (x.0.heap j)) (λ j. drop_of (p.heap j)) ks
                  (λ j m.
                    let same = other_heap k p x j o (ground (arith, fresh, ==_iff k j)) in
                    (ap refuses same, ap drop_of same)))
        ∙ map-select-one (λ j. refuses (p.heap j)) (λ j. drop_of (p.heap j)) k ks,
    o'.3 ∙ o.3,
  )

  offer_all-Offered :
      (coins : ℕ → Bool) (ks : List ℕ) (p : Pool)
      → Distinct ks
      → ((j : ℕ) → member j ks ≡ true → (p.heap j).closed ≡ false)
      → Offered ks p (offer_all lib lane req coins ks p)
  unfolding offer_all offer member select
  offer_all-Offered coins [] p d open_ones = (λ j. refl, refl, refl, refl)
  offer_all-Offered coins (k ∷ ks) p (fresh, d) open_ones =
      let a = p.heap k in
      let x = offer lib lane req (coins k) k p in
      let o : Offered (k ∷ []) p x =
        subst
          (λ b. Offered (k ∷ []) p (
            offer_if lib lane req (is_eligible lib lane req a)
              (select_case (coins k) b (has_room lane a)) k p))
          (sym (open_ones k (ground (arith, ==_iff k k))))
          (offer_open (is_eligible lib lane req a) (has_room lane a) (coins k) k p refl refl) in
      Offered-join k ks p x (offer_all lib lane req coins ks x.0) fresh o (
        offer_all-Offered coins ks x.0 d (λ j m.
          ap (λ b. b.closed) (other_heap k p x j o (ground (arith, fresh, ==_iff k j)))
          ∙ open_ones j (ground arith)))

-- From `p` to `p'` the request was sent on the lane, and these messages before the metrics.
abbrev pub Sent : Library → Lane → Request → List Message → Pool → Pool → Type 0
Sent lib lane req ms p p' =
    ((k : ℕ)
      → p'.heap k ≡ (
          if member k p.agents && accepts lib lane req (p.heap k)
          then given lib lane req (p.heap k)
          else p.heap k))
    × (p'.agents ≡ p.agents)
    × (p'.published
        ≡ p.published
          ++ (ms
              ++ send_agent_metrics (
                  map (λ k. drop_of lib lane req (p.heap k))
                    (select (λ k. refuses lib lane req (p.heap k)) p.agents))))

module _ (lib : Library) (heap : ℕ → Agent) (p : Pool) (r : Reach lib (new_agent_pool heap) p)
    (coins : ℕ → Bool) (req : Request) where
  sent_all :
      (lane : Lane) → Offered lib lane req p.agents p (offer_all lib lane req coins p.agents p)
  sent_all lane =
      let i = reach-Inv lib heap r in
      offer_all-Offered lib lane req coins p.agents p i.distinct
        (λ j m. ground (arith, i.open_iff j (i.allocated j m)))

  -- In a pool that is reached by handlers, sends and goroutines, a request is put at the end of the
  -- buffers of exactly the agents of the pool that are ready, have the block in their range and have
  -- room, whatever Go chooses; a drop metric is published for exactly those that are full; the
  -- agents stay. A block is announced with its number as well, and a request that cannot be
  -- encoded changes nothing.
  pub send_evaluate_lem :
      Sent lib tx req [] p (send_evaluate_tx_request lib true coins req p)
      × Sent lib block req
          (scanner_block (lib.decode_uint64 req.block_number).0 ∷ [])
          p
          (send_evaluate_block_request lib true coins req p)
      × (send_evaluate_tx_request lib false coins req p ≡ p)
      × (send_evaluate_block_request lib false coins req p ≡ p)
  unfolding send_evaluate_tx_request send_evaluate_block_request publish
  send_evaluate_lem =
      let t = sent_all tx in
      let b = sent_all block in
      let number = (lib.decode_uint64 req.block_number).0 in
      (
        (
          t.0,
          t.1,
          ap (λ l. l ++ send_agent_metrics (offer_all lib tx req coins p.agents p).1) t.3
              ∙ ap (λ l. p.published ++ send_agent_metrics l) t.2,
        ),
        (
          b.0,
          b.1,
          ap
                (λ l.
                  l
                  ++ (scanner_block number
                      ∷ send_agent_metrics (offer_all lib block req coins p.agents p).1))
                b.3
              ∙ ap (λ l. p.published ++ (scanner_block number ∷ send_agent_metrics l)) b.2,
        ),
        refl,
        refl,
      )
