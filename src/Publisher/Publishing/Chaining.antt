-- ===== src/Publisher/Publishing/Chaining.antt =====
-- What publishing a batch posts, and how batches refer to each other
-- (services/publisher/publisher.go: publishNextBatch).
use forta_node_tr.Prelude.{
  Ends-imp, is_some, Ends, Ends-bind, ◌==◌, Text, [], ◌∷◌, ◌++◌, Bool, true, false, not, ◌||◌,
  Option, none, some, if◌then◌else◌, ◌≡◌, ◌⊎◌, inl, inr, refl, ap, ◌∙◌, arith, Effect, modify, ◌>>◌,
  outcome_cases,
}
use forta_node_tr.Publisher.Batch.{AlertBatch}
use forta_node_tr.Publisher.Publishing.{
  text_or_empty, Settings, Outgoing, Services, Publisher, should_skip_publishing, try_flush,
  outgoing, on_services, skip, log_post, store_receipt, post, authorize, summarize, store_ref,
  publish_public, publish_signed, encode_and_publish, publish_next_batch,
}

abbrev pub is_blocked : Settings → AlertBatch → Bool
is_blocked cfg b = cfg.skip_publish || is_some (should_skip_publishing cfg b) || cfg.private_mode

module _ {S M : Type 0} where
  abbrev Same : Publisher S M → Publisher S M → Type 0
  Same p t = (t.posts ≡ p.posts) × (t.last_batch_ref ≡ p.last_batch_ref)

module _ {S M : Type 0} (services : Services S M) (p : Publisher S M) (o : Outgoing M)
    (public : Bool) where
  abbrev Stored : Text → Publisher S M → Type 0
  Stored cid t = (t.posts ≡ p.posts) × (t.last_batch_ref ≡ some cid)

  abbrev Posted : Text → Publisher S M → Type 0
  Posted cid t = (t.posts ≡ p.posts ++ ((cid, o) ∷ [])) × (t.last_batch_ref ≡ some cid)

  -- Where a publication may have failed: before the reference was stored, after that, or after the
  -- batch was posted.
  abbrev Failed : Text → Publisher S M → Type 0
  Failed _ t = Same p t ⊎ ((public ≡ true) × (cid : Text) × (Stored cid t ⊎ Posted cid t))

  abbrev Published : Unit {0} → Publisher S M → Type 0
  Published _ t = ((public ≡ false) × Same p t) ⊎ ((public ≡ true) × (cid : Text) × Posted cid t)

  -- A call that fails where `P` holds, and goes on where it holds.
  call-Ends :
      {A : Type 0} (P : Publisher S M → Type 0) (f : Effect S Text A) (t : Publisher S M)
      → P t
      → ((u : Publisher S M) (s : S) → P u → P (record u { services = s }))
      → ((u : Publisher S M) → P u → Failed [] u)
      → Ends (λ _ u. P u) Failed (on_services f t)
  unfolding on_services
  call-Ends P f t h same fails = elim (outcome_cases (f t.services)) [
    | inl (a, s, e) ↦ rw (e, on_services) (same t (f t.services).1 h)
    | inr (m, s, e) ↦
        rw (e, on_services)
          (fails (record t { services = (f t.services).1 }) (same t (f t.services).1 h))
  ]

  module _ (is_public : public ≡ true) where
    after_post :
        {A : Type 0} (cid : Text) (f : Effect S Text A) (t : Publisher S M)
        → Posted cid t
        → Ends (λ _ u. Posted cid u) Failed (on_services f t)
    after_post cid f t h =
        call-Ends (Posted cid) f t h (λ u s q. q) (λ u q. inr (is_public, cid, inr q))

    after_store :
        {A : Type 0} (cid : Text) (f : Effect S Text A) (t : Publisher S M)
        → Stored cid t
        → Ends (λ _ u. Stored cid u) Failed (on_services f t)
    after_store cid f t h =
        call-Ends (Stored cid) f t h (λ u s q. q) (λ u q. inr (is_public, cid, inl q))

    store_receipt-Ends :
        (cid : Text) (r : Option Text) (t : Publisher S M)
        → Posted cid t
        → Ends Published Failed (store_receipt services r t)
    unfolding store_receipt
    store_receipt-Ends cid none t h = inr (is_public, cid, h)
    store_receipt-Ends cid (some id) t h =
        Ends-bind (λ _ u. Posted cid u) Published Failed (on_services (services.put_receipt id))
          (λ _. modify (λ p. record p { last_receipt = some id })) t
          (after_post cid (services.put_receipt id) t h) (λ _ u q. inr (is_public, cid, q))

    post-Ends :
        (signed cid summary jwt : Text) (t : Publisher S M)
        → Stored cid t
        → Ends Published Failed (post services signed cid o summary jwt t)
    unfolding post log_post
    post-Ends signed cid summary jwt t (h, q) =
        let call = services.post_batch cid signed summary o jwt in
        let t' = record t { posts = t.posts ++ ((cid, o) ∷ []) } in
        Ends-bind (λ _ u. Posted cid u) Published Failed (on_services call) (store_receipt services)
          t' (after_post cid call t' (ap (λ l. l ++ ((cid, o) ∷ [])) h, q))
          (λ r u q. store_receipt-Ends cid r u q)

    authorize-Ends :
        (signed cid summary : Text) (t : Publisher S M)
        → Stored cid t
        → Ends Published Failed (authorize services signed cid o summary t)
    unfolding authorize
    authorize-Ends signed cid summary t h =
        Ends-bind (λ _ u. Stored cid u) Published Failed
          (on_services (services.create_scanner_jwt cid)) (post services signed cid o summary) t
          (after_store cid (services.create_scanner_jwt cid) t h)
          (λ jwt u q. post-Ends signed cid summary jwt u q)

    summarize-Ends :
        (signed cid : Text) (t : Publisher S M)
        → Stored cid t
        → Ends Published Failed (summarize services signed cid o t)
    unfolding summarize
    summarize-Ends signed cid t h =
        let call = services.sign_summary cid (text_or_empty t.last_receipt) o in
        Ends-bind (λ _ u. Stored cid u) Published Failed (on_services call)
          (authorize services signed cid o) t (after_store cid call t h)
          (λ summary u q. authorize-Ends signed cid summary u q)

    store_ref-Ends :
        (signed cid : Text) (t : Publisher S M)
        → Same p t
        → Ends Published Failed (store_ref services signed o cid t)
    unfolding store_ref
    store_ref-Ends signed cid t h =
        Ends-bind (λ _ u. Same p u) Published Failed (on_services (services.put_batch_ref cid))
          (λ _.
            modify (λ p. record p { last_batch_ref = some cid }) >> summarize services signed cid o)
          t (call-Ends (Same p) (services.put_batch_ref cid) t h (λ u s q. q) (λ u q. inl q))
          (λ _ u (q, _).
            summarize-Ends signed cid (record u { last_batch_ref = some cid }) (q, refl))

    publish_public-Ends :
        (signed payload : Text) (t : Publisher S M)
        → Same p t
        → Ends Published Failed (publish_public services signed payload o t)
    unfolding publish_public
    publish_public-Ends signed payload t h =
        Ends-bind (λ _ u. Same p u) Published Failed
          (on_services (services.calculate_file_hash payload)) (store_ref services signed o) t
          (call-Ends (Same p) (services.calculate_file_hash payload) t h (λ u s q. q)
            (λ u q. inl q))
          (λ cid u q. store_ref-Ends signed cid u q)

  publish_signed-Ends :
      (skips private_mode : Bool) (reason : Option Text) (signed payload : Text) (t : Publisher S M)
      → public ≡ not (skips || is_some reason || private_mode)
      → Same p t
      → Ends Published Failed (publish_signed services skips private_mode reason signed o payload t)
  unfolding publish_signed skip
  publish_signed-Ends true private_mode reason signed payload t e h = inl (e, h)
  publish_signed-Ends false private_mode (some r) signed payload t e h = inl (e, h)
  publish_signed-Ends false true none signed payload t e h =
      Ends-imp (λ _ u. Same p u) Published Failed Failed (on_services (services.send_alerts o) t)
        (λ _ u q. inl (e, q)) (λ _ u q. q)
        (call-Ends (Same p) (services.send_alerts o) t h (λ u s q. q) (λ u q. inl q))
  publish_signed-Ends false false none signed payload t e h =
      publish_public-Ends e signed payload t h

  encode_and_publish-Ends :
      (cfg : Settings) (signed : Text) (t : Publisher S M)
      → public ≡ not (is_blocked cfg o.batch)
      → Same p t
      → Ends Published Failed (encode_and_publish services cfg o signed t)
  unfolding encode_and_publish
  encode_and_publish-Ends cfg signed t e h =
      let reason = should_skip_publishing cfg o.batch in
      Ends-bind (λ _ u. Same p u) Published Failed (on_services (services.encode signed))
        (publish_signed services cfg.skip_publish cfg.private_mode reason signed o) t
        (call-Ends (Same p) (services.encode signed) t h (λ u s q. q) (λ u q. inl q))
        (λ payload u q.
          publish_signed-Ends cfg.skip_publish cfg.private_mode reason signed payload u e q)

try_flush_kept :
    {S M : Type 0} (flush : Bool) (reason : Option Text) (p : Publisher S M)
    → let p' = (try_flush flush reason p).1 in
      (p'.posts ≡ p.posts)
      × (p'.last_batch_ref ≡ p.last_batch_ref)
      × (p'.latest_block_input ≡ p.latest_block_input)
unfolding try_flush
try_flush_kept flush (some r) p = (refl, refl, refl)
try_flush_kept true none p = (refl, refl, refl)
try_flush_kept false none p = (refl, refl, refl)

module _ {S M : Type 0} (services : Services S M) (cfg : Settings) (flush : Bool) (b : AlertBatch)
    (p : Publisher S M) where
  -- From `p` to `t` the batch was posted under a reference that is stored, with the reference stored
  -- before as its parent and the block that the scanner was last told of, or else its own last one.
  abbrev pub PostedOnce : Text → Publisher S M → Type 0
  PostedOnce cid t =
      (o : Outgoing M) × (t.posts ≡ p.posts ++ ((cid, o) ∷ []))
      × (t.last_batch_ref ≡ some cid)
      × (o.batch ≡ b)
      × (o.parent ≡ text_or_empty p.last_batch_ref)
      × (o.latest_block_input
          ≡ (if p.latest_block_input == 0 then b.block_end else p.latest_block_input))

  abbrev pub Unposted : Publisher S M → Type 0
  Unposted t = (t.posts ≡ p.posts) × (t.last_batch_ref ≡ p.last_batch_ref)

  -- Publishing a batch that is blocked, because it is empty or publishing is off or private, posts
  -- nothing and keeps the reference. One that is not blocked, if no call fails, is posted exactly
  -- once, and refers to the batch before it. If a call fails, a batch may have been posted or not;
  -- the reference has moved on if the failure came after it was stored, posted or not.
  pub publish_next_batch_lem :
      Ends
        (λ _ t.
          ((is_blocked cfg b ≡ true) × Unposted t)
          ⊎ ((is_blocked cfg b ≡ false) × (cid : Text) × PostedOnce cid t))
        (λ _ t.
          Unposted t
          ⊎ ((is_blocked cfg b ≡ false)
              × (cid : Text) × (((t.posts ≡ p.posts) × (t.last_batch_ref ≡ some cid))
                  ⊎ PostedOnce cid t)))
        (publish_next_batch services cfg flush b p)
  unfolding publish_next_batch outgoing
  publish_next_batch_lem =
      let x = try_flush flush (should_skip_publishing cfg b) p in
      let (posts, ref, input) = try_flush_kept flush (should_skip_publishing cfg b) p in
      let p' = x.1 in
      let o = outgoing cfg b x.0 p' in
      let public = not (is_blocked cfg b) in
      let back : (cid : Text) (t : Publisher S M)
          → Posted services p' o public cid t
          → PostedOnce cid t =
        λ cid t (h, q). (
          o,
          h ∙ ap (λ l. l ++ ((cid, o) ∷ [])) posts,
          q,
          refl,
          ap text_or_empty ref,
          ap (λ n. if n == 0 then b.block_end else n) input,
        ) in
      Ends-imp (Published services p' o public) _ (Failed services p' o public) _ _
        (λ _ t. λ h. elim h [
          | inl (e, (s, r)) ↦ inl (ground (arith, e), (s ∙ posts, r ∙ ref))
          | inr (e, cid, q) ↦ inr (ground (arith, e), cid, back cid t q)
        ])
        (λ _ t. λ h. elim h [
          | inl (s, r) ↦ inl (s ∙ posts, r ∙ ref)
          | inr (e, cid, inl (s, r)) ↦ inr (ground (arith, e), cid, inl (s ∙ posts, r))
          | inr (e, cid, inr q) ↦ inr (ground (arith, e), cid, inr (back cid t q))
        ])
        (Ends-bind (λ _ u. Same p' u) (Published services p' o public) (Failed services p' o public)
          (on_services (services.sign_batch o)) (encode_and_publish services cfg o) p'
          (call-Ends services p' o public (Same p') (services.sign_batch o) p' (refl, refl)
            (λ u s q. q) (λ u q. inl q))
          (λ signed u q. encode_and_publish-Ends services p' o public cfg signed u refl q))
