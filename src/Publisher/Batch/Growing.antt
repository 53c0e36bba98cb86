-- ===== src/Publisher/Batch/Growing.antt =====
-- What notifications bring to a batch (services/publisher/publisher.go: prepareLatestBatch).
use mathlib.Core.List.{Perm, perm_append_comm}
use mathlib.Core.List.Perm
use forta_node_tr.Prelude.{
  is_some, ℕ, ◌+◌, ◌≤◌, ◌<◌, ltb, List, [], ◌∷◌, ◌++◌, append-nil, append_assoc, Bool, true, false,
  true≢false, not, ◌&&◌, Bool-cases, Option, none, some, All, All-imp, All-append, length,
  length-append, if◌then◌else◌, ◌≡◌, inl, inr, refl, sym, ap, ◌∙◌, subst, arith,
}
use forta_node_tr.Agents.{Library}
use forta_node_tr.Publisher.Batch.{Finding, Alert, Notification, AlertBatch, block_number_of}
use forta_node_tr.Publisher.Batch.Contents.{stored, alert_list, Appended, append_alert-Appended}
use forta_node_tr.Publisher.Batch.Preparing.{
  Collection, widen, raise_to, raise_severity, then_append, set_batch, collect_at, test_alert,
  Event, notified, timed_out,
}

abbrev pub severity_of : Alert → ℕ
severity_of a = elim a.finding [ none ↦ 0 | some f ↦ f.severity ]

abbrev pub is_taken : Library → Notification → Bool
is_taken lib n =
    not (is_some (test_alert n.signed_alert))
    && not (lib.decode_uint64 (block_number_of n.subject)).1

-- The alerts that notifications bring to a batch, and the numbers of their blocks: test alerts and
-- notifications whose block number does not parse are left out.
unfoldable pub accepted : Library → List Event → List Alert
accepted lib [] = []
accepted lib (timed_out ∷ es) = accepted lib es
accepted lib (notified n ∷ es) =
    (if is_taken lib n then alert_list n.signed_alert else []) ++ accepted lib es

unfoldable pub numbers : Library → List Event → List ℕ
numbers lib [] = []
numbers lib (timed_out ∷ es) = numbers lib es
numbers lib (notified n ∷ es) =
    (if is_taken lib n then (lib.decode_uint64 (block_number_of n.subject)).0 ∷ [] else [])
    ++ numbers lib es

unfoldable pub has_finding : Option Alert → Bool
has_finding none = true
has_finding (some a) = is_some a.finding

-- An alert has a finding, and no notification is about block 0.
unfoldable pub is_plausible : Library → Event → Bool
unfolding has_finding
is_plausible lib timed_out = true
is_plausible lib (notified n) =
    has_finding n.signed_alert && ltb 0 (lib.decode_uint64 (block_number_of n.subject)).0

module _ (lib : Library) where
  -- From `b` to `b'` these alerts and block numbers came in.
  abbrev pub GrewBy : List Alert → List ℕ → AlertBatch → AlertBatch → Type 0
  GrewBy al ns b b' =
      Perm (stored b') (al ++ stored b)
      × (b'.alert_count ≡ b.alert_count + length al)
      × (0 < b.block_start → (0 < b'.block_start) × (b'.block_start ≤ b.block_start))
      × (b.block_end ≤ b'.block_end)
      × (b.max_severity ≤ b'.max_severity)
      × All (λ n. (0 < b'.block_start) × (b'.block_start ≤ n) × (n ≤ b'.block_end)) ns
      × All (λ a. severity_of a ≤ b'.max_severity) al

  -- From `b` to `b'` the events `used` were collected.
  abbrev pub Grew : List Event → AlertBatch → AlertBatch → Type 0
  Grew used b b' = GrewBy (accepted lib used) (numbers lib used) b b'

  pub Grew-nil : (b : AlertBatch) → Grew [] b b
  unfolding accepted numbers
  Grew-nil b = (Perm.rfl, omega arith, (λ l. (l, omega arith)), omega arith, omega arith, tt, tt)

  perm_shift : {A : Type 0} (xs ys zs : List A) → Perm (ys ++ (xs ++ zs)) ((xs ++ ys) ++ zs)
  perm_shift xs ys zs =
      subst (λ l. Perm l ((xs ++ ys) ++ zs)) (append_assoc ys xs zs)
        (Perm.append_right zs (perm_append_comm ys xs))

  accepted-cons :
      (e : Event) (es : List Event)
      → accepted lib (e ∷ es) ≡ accepted lib (e ∷ []) ++ accepted lib es
  unfolding accepted
  accepted-cons timed_out es = refl
  accepted-cons (notified n) es =
      ap (λ l. l ++ accepted lib es)
        (sym (append-nil (if is_taken lib n then alert_list n.signed_alert else [])))

  numbers-cons :
      (e : Event) (es : List Event) → numbers lib (e ∷ es) ≡ numbers lib (e ∷ []) ++ numbers lib es
  unfolding numbers
  numbers-cons timed_out es = refl
  numbers-cons (notified n) es =
      ap (λ l. l ++ numbers lib es)
        (sym (
          append-nil (
            if is_taken lib n then (lib.decode_uint64 (block_number_of n.subject)).0 ∷ [] else [])))

  pub Grew-join :
      (e : Event) (used : List Event) (b b' b'' : AlertBatch)
      → Grew (e ∷ []) b b'
      → Grew used b' b''
      → Grew (e ∷ used) b b''
  Grew-join e used b b' b'' (p, c, s, d, m, ns, al) (p', c', s', d', m', ns', al') =
      let one = accepted lib (e ∷ []) in
      let more = accepted lib used in
      (
        subst (λ l. Perm (stored b'') (l ++ stored b)) (sym (accepted-cons e used))
            (Perm.trans p' (Perm.trans (Perm.append_left more p) (perm_shift one more (stored b)))),
        subst (λ l. b''.alert_count ≡ b.alert_count + length l) (sym (accepted-cons e used))
            (omega (arith, length-append one more)),
        (λ l. let (l', q) = s l in let (l'', q') = s' l' in (l'', omega arith)),
        omega arith,
        omega arith,
        subst (All _) (sym (numbers-cons e used)) (
            All-append _ (numbers lib (e ∷ [])) (numbers lib used)
              (All-imp _ _ (numbers lib (e ∷ []))
                (λ n (l, q, r). let (l', q') = s' l in (l', omega arith, omega arith)) ns)
              ns'),
        subst (All _) (sym (accepted-cons e used))
            (All-append _ one more (All-imp _ _ one (λ a q. omega arith) al) al'),
      )

  -- One notification.
  widen-range :
      (n : ℕ) (b : AlertBatch)
      → 0 < n
      → (0 < b.block_start
          → (0 < (widen n b).block_start) × ((widen n b).block_start ≤ b.block_start))
        × (b.block_end ≤ (widen n b).block_end)
        × ((0 < (widen n b).block_start)
            × ((widen n b).block_start ≤ n)
            × (n ≤ (widen n b).block_end))
  unfolding widen
  widen-range n b l = ground (arith, l)

  -- Raising the severity keeps the rest of the batch.
  abbrev Raised : Option Alert → AlertBatch → AlertBatch → Type 0
  Raised o w b =
      (stored b ≡ stored w)
      × (b.alert_count ≡ w.alert_count)
      × (b.block_start ≡ w.block_start)
      × (b.block_end ≡ w.block_end)
      × (w.max_severity ≤ b.max_severity)
      × All (λ a. severity_of a ≤ b.max_severity) (alert_list o)

  raise_to-Raised :
      (o : Option Finding) (a : Alert) (w : AlertBatch)
      → a.finding ≡ o
      → is_some o ≡ true
      → (b : AlertBatch) × (raise_to o w ≡ some b) × Raised (some a) w b
  unfolding raise_to
  raise_to-Raised none a w q e = absurd (true≢false (sym e))
  raise_to-Raised (some f) a w q e = elim (Bool-cases (ltb w.max_severity f.severity)) [
    | inl l ↦ rw l (_, refl, (refl, refl, refl, refl, ground arith, (rw q (omega arith), tt)))
    | inr l ↦ rw l (w, refl, (refl, refl, refl, refl, omega arith, (rw q (ground (arith, l)), tt)))
  ]

  raise_severity-Raised :
      (o : Option Alert) (w : AlertBatch)
      → has_finding o ≡ true
      → (b : AlertBatch) × (raise_severity o w ≡ some b) × Raised o w b
  unfolding raise_severity has_finding
  raise_severity-Raised none w e = (w, refl, (refl, refl, refl, refl, omega arith, tt))
  raise_severity-Raised (some a) w e = raise_to-Raised a.finding a w refl e

  -- A notification is appended to a batch whose range was widened and whose severity was raised.
  put_in-GrewBy :
      (n : Notification) (number : ℕ) (b r b' : AlertBatch)
      → 0 < number
      → Raised n.signed_alert (widen number b) r
      → Appended n.signed_alert r b'
      → GrewBy (alert_list n.signed_alert) (number ∷ []) b b'
  unfolding widen
  put_in-GrewBy n number b r b' l (same, count, start, end, le, sev) (p, c, s, t, m) =
      let (w, d, x) = widen-range number b l in
      (
        subst (λ k. Perm (stored b') (alert_list n.signed_alert ++ k)) same p,
        omega (arith, c, count),
        λ h. let (u, v) = w h in (omega (arith, s, start), omega (arith, s, start)),
        omega (arith, t, end, d),
        omega (arith, m, le),
        (
          (omega (arith, x.0, s, start), omega (arith, x.1, s, start), omega (arith, x.2, t, end)),
          tt,
        ),
        All-imp _ _ (alert_list n.signed_alert) (λ a q. omega (arith, m)) sev,
      )

  pub collect_at-Grew :
      (n : Notification) (c : Collection)
      → has_finding n.signed_alert ≡ true
      → 0 < (lib.decode_uint64 (block_number_of n.subject)).0
      → (lib.decode_uint64 (block_number_of n.subject)).1 ≡ false
      → let number = (lib.decode_uint64 (block_number_of n.subject)).0 in
        (b' : AlertBatch) × (collect_at lib n (number, false) c ≡ some (record c { batch = b' }))
        × GrewBy (alert_list n.signed_alert) (number ∷ []) c.batch b'
  unfolding collect_at
  collect_at-Grew n c f l d =
      let number = (lib.decode_uint64 (block_number_of n.subject)).0 in
      let (r, e, raised) = raise_severity-Raised n.signed_alert (widen number c.batch) f in
      let (b', q, app) = append_alert-Appended lib n r d in
      (
        b',
        ap (λ o. set_batch (then_append lib n o) c) e ∙ ap (λ o. set_batch o c) q,
        put_in-GrewBy n number c.batch r b' l raised app,
      )
