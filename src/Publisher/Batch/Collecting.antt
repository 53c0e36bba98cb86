-- ===== src/Publisher/Batch/Collecting.antt =====
-- What one notification changes in the collection, and that it never panics
-- (services/publisher/publisher.go: prepareLatestBatch).
use forta_node_tr.Prelude.{
  ◌+◌, ◌≤◌, [], ◌∷◌, append-nil, Bool, true, false, Bool-cases, Option, none, some, Option-cases,
  length, ◌≡◌, inl, inr, refl, sym, ap, ◌∙◌, subst, arith,
}
use forta_node_tr.Agents.{Library}
use forta_node_tr.Publisher.Batch.{Alert, Notification, AlertBatch, block_number_of}
use forta_node_tr.Publisher.Batch.Contents.{alert_list}
use forta_node_tr.Publisher.Batch.Preparing.{
  Collection, count_taken, collect_at, test_alert, log_test_alert, collect_as, collect, notified,
}
use forta_node_tr.Publisher.Batch.Growing.{
  is_taken, accepted, numbers, is_plausible, GrewBy, Grew, Grew-nil, collect_at-Grew,
}

module _ (lib : Library) where
  -- A notification that is no test alert and has a block number is taken.
  accepted-taken :
      (n : Notification)
      → is_taken lib n ≡ true
      → accepted lib (notified n ∷ []) ≡ alert_list n.signed_alert
  unfolding accepted
  accepted-taken n t = rw t (append-nil (alert_list n.signed_alert))

  numbers-taken :
      (n : Notification)
      → is_taken lib n ≡ true
      → numbers lib (notified n ∷ []) ≡ (lib.decode_uint64 (block_number_of n.subject)).0 ∷ []
  unfolding numbers
  numbers-taken n t = rw t refl

  taken-Grew :
      (n : Notification) (b b' : AlertBatch)
      → is_taken lib n ≡ true
      → GrewBy lib
          (alert_list n.signed_alert)
          ((lib.decode_uint64 (block_number_of n.subject)).0 ∷ [])
          b
          b'
      → Grew lib (notified n ∷ []) b b'
  taken-Grew n b b' t g =
      subst (λ l. GrewBy lib l (numbers lib (notified n ∷ [])) b b') (sym (accepted-taken n t))
        (subst (λ l. GrewBy lib (alert_list n.signed_alert) l b b') (sym (numbers-taken n t)) g)

  passed-Grew :
      (n : Notification) (b : AlertBatch) → is_taken lib n ≡ false → Grew lib (notified n ∷ []) b b
  unfolding accepted numbers
  passed-Grew n b t = rw t (Grew-nil lib b)

  -- How a notification changes the collection: what is counted covers what is stored.
  abbrev pub Collected : Notification → Collection → Collection → Type 0
  Collected n c c' =
      Grew lib (notified n ∷ []) c.batch c'.batch
      × (c'.taken ≤ c.taken + 1)
      × (c'.batch.alert_count + c.taken ≤ c.batch.alert_count + c'.taken)

  count_taken-kept :
      (o : Option Alert) (c : Collection)
      → ((count_taken o c).batch ≡ c.batch)
        × ((count_taken o c).taken ≡ c.taken + length (alert_list o))
  unfolding count_taken
  count_taken-kept none c = (refl, omega arith)
  count_taken-kept (some a) c = (refl, refl)

  alert_list-short : (o : Option Alert) → length (alert_list o) ≤ 1
  alert_list-short none = omega arith
  alert_list-short (some a) = omega arith

  module _ (disable : Bool) where
    log_test_alert-kept :
        (a : Alert) (c : Collection)
        → ((log_test_alert disable a c).batch ≡ c.batch)
          × ((log_test_alert disable a c).taken ≡ c.taken)
    unfolding log_test_alert
    log_test_alert-kept a c = elim (Bool-cases disable) [
      | inl e ↦ rw e (refl, refl)
      | inr e ↦ rw e (refl, refl)
    ]

    test-Collected :
        (a : Alert) (n : Notification) (c : Collection)
        → test_alert n.signed_alert ≡ some a
        → Collected n c (log_test_alert disable a c)
    test-Collected a n c e =
        let (same, count) = log_test_alert-kept a c in
        let alerts = ap (λ b. b.alert_count) same in
        (
          subst (Grew lib (notified n ∷ []) c.batch) (sym same) (passed-Grew n c.batch (rw e refl)),
          omega (arith, count),
          omega (arith, alerts, count),
        )

    failed-Collected :
        (n : Notification) (c : Collection)
        → (lib.decode_uint64 (block_number_of n.subject)).1 ≡ true
        → Collected n c (count_taken n.signed_alert c)
    failed-Collected n c d =
        let (same, count) = count_taken-kept n.signed_alert c in
        let alerts = ap (λ b. b.alert_count) same in
        let short = alert_list-short n.signed_alert in
        (
          subst (Grew lib (notified n ∷ []) c.batch) (sym same)
              (passed-Grew n c.batch (ground (arith, d))),
          omega (arith, count, short),
          omega (arith, alerts, count),
        )

    pub collect-Collected :
        (n : Notification) (c : Collection)
        → is_plausible lib (notified n) ≡ true
        → (c' : Collection) × (collect lib disable n c ≡ some c') × Collected n c c'
    unfolding collect collect_as collect_at is_plausible
    collect-Collected n c good = elim (Option-cases (test_alert n.signed_alert)) [
      | inr (a, e) ↦ (
        log_test_alert disable a c,
        ap (λ o. collect_as o lib disable n c) e,
        test-Collected a n c e,
      )
      | inl e ↦
          let counted = count_taken n.signed_alert c in
          let number = (lib.decode_uint64 (block_number_of n.subject)).0 in
          elim (Bool-cases (lib.decode_uint64 (block_number_of n.subject)).1) [
            | inl d ↦ (
              counted,
              ap (λ o. collect_as o lib disable n c) e
                  ∙ ap (λ b. collect_at lib n (number, b) counted) d,
              failed-Collected n c d,
            )
            | inr d ↦
                let (same, count) = count_taken-kept n.signed_alert c in
                let (b', q, g) =
                  collect_at-Grew lib n counted (ground (arith, good)) (ground (arith, good)) d in
                let g' =
                  subst (λ b. GrewBy lib (alert_list n.signed_alert) (number ∷ []) b b') same g in
                let short = alert_list-short n.signed_alert in
                (
                  record counted { batch = b' },
                  ap (λ o. collect_as o lib disable n c) e
                      ∙ ap (λ b. collect_at lib n (number, b) counted) d
                      ∙ q,
                  (
                    taken-Grew n c.batch b' (rw (e, d) refl) g',
                    omega (arith, count, short),
                    omega (arith, count, g'.1),
                  ),
                )
          ]
    ]
