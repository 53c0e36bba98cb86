-- ===== src/Publisher/Batch/Passing.antt =====
-- The batch that is passed on (services/publisher/publisher.go: prepareLatestBatch).
use mathlib.Core.List.{Perm}
use forta_node_tr.Prelude.{
  ℕ, ◌≤◌, ltb, List, [], ◌∷◌, ◌++◌, append-nil, Bool, true, Bool-cases, some, All, All-imp, length,
  ◌≡◌, inl, inr, refl, sym, ap, subst, arith,
}
use forta_node_tr.Agents.{Library}
use forta_node_tr.Publisher.Batch.{Notification, new_batch}
use forta_node_tr.Publisher.Batch.Contents.{stored}
use forta_node_tr.Publisher.Batch.Preparing.{
  Collection, Event, notified, timed_out, Prepared, passed_on, waiting, panicked, prepare_from,
  prepare_latest_batch,
}
use forta_node_tr.Publisher.Batch.Growing.{
  severity_of, accepted, numbers, is_plausible, Grew, Grew-nil, Grew-join,
}
use forta_node_tr.Publisher.Batch.Collecting.{Collected, collect-Collected}

module _ (lib : Library) (disable : Bool) (batch_limit : ℕ) where
  abbrev Right : List Event → Collection → Prepared → Type 0
  Right es c (passed_on b rest) =
      (used : List Event) × (es ≡ used ++ rest)
      × Grew lib used c.batch b
      × (b.alert_count ≤ batch_limit)
  Right es c (waiting c') = ⊥
  Right es c panicked = ⊥

  abbrev Within : Collection → Type 0
  Within c = (c.batch.alert_count ≤ c.taken) × (c.taken ≤ batch_limit)

  full-Right : (es : List Event) (c : Collection) → Within c → Right es c (passed_on c.batch es)
  full-Right es c (a, t) = ([], refl, Grew-nil lib c.batch, omega arith)

  timed_out-Right :
      (es : List Event) (c : Collection)
      → Within c
      → Right (timed_out ∷ es) c (passed_on c.batch es)
  unfolding accepted numbers
  timed_out-Right es c (a, t) = (timed_out ∷ [], refl, Grew-nil lib c.batch, omega arith)

  then-Right :
      (n : Notification) (es : List Event) (c c' : Collection) (x : Prepared)
      → Collected lib n c c'
      → Right es c' x
      → Right (notified n ∷ es) c x
  then-Right n es c c' (passed_on b rest) (g, _, _) (used, e, g', l) = (
    notified n ∷ used,
    ap (λ l. notified n ∷ l) e,
    Grew-join lib (notified n) used c.batch c'.batch b g g',
    l,
  )
  then-Right n es c c' (waiting d) _ r = r
  then-Right n es c c' panicked _ r = r

  prepare_from-Right :
      (es more : List Event) (c : Collection)
      → All (λ e. is_plausible lib e ≡ true) es
      → Within c
      → Right
          (es ++ (timed_out ∷ more))
          c
          (prepare_from lib disable batch_limit (es ++ (timed_out ∷ more)) (some c))
  unfolding prepare_from
  prepare_from-Right [] more c good w = elim (Bool-cases (ltb c.taken batch_limit)) [
    | inl e ↦ rw e (timed_out-Right more c w)
    | inr e ↦ rw e (full-Right (timed_out ∷ more) c w)
  ]
  prepare_from-Right (timed_out ∷ es) more c good w = elim (Bool-cases (ltb c.taken batch_limit)) [
    | inl e ↦ rw e (timed_out-Right (es ++ (timed_out ∷ more)) c w)
    | inr e ↦ rw e (full-Right (timed_out ∷ (es ++ (timed_out ∷ more))) c w)
  ]
  prepare_from-Right (notified n ∷ es) more c (g, good) w =
      elim (Bool-cases (ltb c.taken batch_limit)) [
        | inr e ↦ rw e (full-Right (notified n ∷ (es ++ (timed_out ∷ more))) c w)
        | inl e ↦
            let (c', q, col) = collect-Collected lib disable n c g in
            rw e (
              subst
                (λ o.
                  Right (notified n ∷ (es ++ (timed_out ∷ more))) c
                    (prepare_from lib disable batch_limit (es ++ (timed_out ∷ more)) o))
                (sym q)
                (then-Right n (es ++ (timed_out ∷ more)) c c' _ col (
                  prepare_from-Right es more c' good
                    (omega (arith, col.2), ground (arith, e, col.1)))))
      ]

  -- What is right about a batch that is passed on after `es`.
  abbrev pub Passed : List Event → Prepared → Type 0
  Passed es (passed_on b rest) =
      (used : List Event) × (es ≡ used ++ rest)
      × Perm (stored b) (accepted lib used)
      × (b.alert_count ≡ length (accepted lib used))
      × (b.alert_count ≤ batch_limit)
      × All (λ n. (b.block_start ≤ n) × (n ≤ b.block_end)) (numbers lib used)
      × All (λ a. severity_of a ≤ b.max_severity) (accepted lib used)
  Passed es (waiting c) = ⊥
  Passed es panicked = ⊥

  Right-Passed :
      (es : List Event) (chain_id : ℕ) (x : Prepared)
      → Right es (record { taken = 0; batch = new_batch chain_id; test_alerts = [] }) x
      → Passed es x
  unfolding new_batch
  Right-Passed es chain_id (passed_on b rest) (used, e, (p, c, s, t, m, ns, al), l) = (
    used,
    e,
    subst (Perm (stored b)) (append-nil (accepted lib used)) p,
    omega (arith, c),
    l,
    All-imp _ _ (numbers lib used) (λ n (u, v, w). (v, w)) ns,
    al,
  )
  Right-Passed es chain_id (waiting c) r = r
  Right-Passed es chain_id panicked r = r

  -- When the time is out, the loop has passed a batch on without a panic, if every alert has a
  -- finding and no notification is about block 0. Of the events that it used, the batch holds each
  -- accepted alert exactly once wherever it was filed, counts them, and has at most as many as the
  -- limit; its block range covers the blocks of the notifications that it took, and no alert is more
  -- severe than its maximum.
  pub prepare_latest_batch_lem :
      (chain_id : ℕ) (es more : List Event)
      → All (λ e. is_plausible lib e ≡ true) es
      → Passed
          (es ++ (timed_out ∷ more))
          (prepare_latest_batch lib disable batch_limit chain_id (es ++ (timed_out ∷ more)))
  unfolding prepare_latest_batch new_batch
  prepare_latest_batch_lem chain_id es more good =
      Right-Passed (es ++ (timed_out ∷ more)) chain_id _ (
        prepare_from-Right es more
          (record { taken = 0; batch = new_batch chain_id; test_alerts = [] }) good
          (omega arith, omega arith))
