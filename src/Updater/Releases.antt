-- ===== src/Updater/Releases.antt =====
-- The release that the updater reports (services/updater/updater.go).
use forta_node_tr.Prelude.{
  Ends, Ends-bind, ℕ, zero, suc, Text, codes, text_eq, text_eq_iff, ◌++◌, Bool, true, false,
  true≢false, Option, none, some, ◌≡◌, ◌≢◌, ◌⊎◌, inl, inr, refl, sym, ap, ◌∙◌, subst, arith, Result,
  ok, err, Effect, outcome_cases,
}
use forta_node_tr.Updater.{
  Sources, Updater, on_sources, set_release, handle_get_version, version_of, take_release,
  check_reference, update_from_registry, update_in, update_latest_release, ticks,
}

-- `Fetched ref m`: the manifest was downloaded for the reference.
module _ {S M : Type 0} (sources : Sources S M) (Fetched : Text → M → Type 0) where
  -- A failure leaves the release that is reported.
  abbrev pub SameRelease : Updater S M → Updater S M → Type 0
  SameRelease u v =
      (v.latest_reference ≡ u.latest_reference)
      × (v.latest_release ≡ u.latest_release)
      × (v.development_mode ≡ u.development_mode)

  on_sources-Ends :
      {A : Type 0} (P : A → Type 0) (wrap : Text → Text) (f : Effect S Text A) (u v : Updater S M)
      → SameRelease u v
      → ((a : A) (s : S) → f v.sources ≡ (ok a, s) → P a)
      → Ends (λ a w. P a × SameRelease u w) (λ _ w. SameRelease u w) (on_sources wrap f v)
  unfolding on_sources
  on_sources-Ends P wrap f u v same good = elim (outcome_cases (f v.sources)) [
    | inl (a, s, e) ↦ rw (e, on_sources) (good a s e, same)
    | inr (m, s, e) ↦ rw (e, on_sources) same
  ]

  -- A new release that was downloaded for its reference.
  abbrev pub NewRelease : Updater S M → Updater S M → Type 0
  NewRelease u v =
      (m : M) × (v.latest_release ≡ some m)
      × Fetched v.latest_reference m
      × (v.latest_reference ≢ u.latest_reference)
      × (v.development_mode ≡ u.development_mode)

  module _
      (fetched : (ref : Text) (m : M) (s s' : S)
        → sources.get_release_manifest ref s ≡ (ok m, s')
        → Fetched ref m) where
    take_release-Ends :
        (b : Bool) (ref : Text) (u v : Updater S M)
        → text_eq ref u.latest_reference ≡ b
        → SameRelease u v
        → Ends
            (λ _ w. SameRelease u w ⊎ NewRelease u w)
            (λ _ w. SameRelease u w)
            (take_release sources b ref v)
    unfolding take_release set_release
    take_release-Ends true ref u v e same = inl same
    take_release-Ends false ref u v e same =
        let wrap = λ (e : Text). codes "failed while downloading the release manifest: " ++ e in
        Ends-bind (λ m w. Fetched ref m × SameRelease u w) (λ _ w. SameRelease u w ⊎ NewRelease u w)
          (λ _ w. SameRelease u w) (on_sources wrap (sources.get_release_manifest ref))
          (set_release ref) v
          (on_sources-Ends (Fetched ref) wrap (sources.get_release_manifest ref) u v same
            (λ m s q. fetched ref m v.sources s q))
          (λ m w (f, (_, _, dev)). inr (
            m,
            refl,
            f,
            (λ q. true≢false (sym ((text_eq_iff ref u.latest_reference).1 q) ∙ e)),
            dev,
          ))

    update_from_registry-Ends :
        (u : Updater S M)
        → Ends
            (λ _ w. SameRelease u w ⊎ NewRelease u w)
            (λ _ w. SameRelease u w)
            (update_from_registry sources u)
    unfolding update_from_registry check_reference
    update_from_registry-Ends u =
        let wrap = λ (e : Text). codes "failed to get the latest release manifest ref: " ++ e in
        Ends-bind (λ _ w. Unit × SameRelease u w) (λ _ w. SameRelease u w ⊎ NewRelease u w)
          (λ _ w. SameRelease u w) (on_sources wrap sources.get_scanner_node_version)
          (check_reference sources) u
          (on_sources-Ends (λ _. Unit) wrap sources.get_scanner_node_version u u (refl, refl, refl)
            (λ _ _ _. tt))
          (λ ref w (_, same).
            take_release-Ends (text_eq ref w.latest_reference) ref u w
              (ap (text_eq ref) (sym same.0)) same)

    -- Outside development mode an update leaves the release that is reported, or takes one with
    -- another reference that was downloaded for that reference; one that fails leaves it.
    update_latest_release_lem :
        (u : Updater S M)
        → u.development_mode ≡ false
        → Ends
            (λ _ w. SameRelease u w ⊎ NewRelease u w)
            (λ _ w. SameRelease u w)
            (update_latest_release sources u)
    unfolding update_latest_release
    update_latest_release_lem u dev =
        subst
          (λ b.
            Ends (λ _ w. SameRelease u w ⊎ NewRelease u w) (λ _ w. SameRelease u w)
              (update_in sources b u))
          (sym dev) (update_from_registry-Ends u)

    abbrev Fits : Text → Option M → Type 0
    Fits ref none = Unit
    Fits ref (some m) = Fetched ref m

    abbrev Reports : Updater S M → Type 0
    Reports u = (u.development_mode ≡ false) × Fits u.latest_reference u.latest_release

    same-Reports : (u v : Updater S M) → SameRelease u v → Reports u → Reports v
    same-Reports u v (r, l, d) (dev, f) = (
      d ∙ dev,
      subst (λ ref. Fits ref v.latest_release) (sym r) (subst (Fits u.latest_reference) (sym l) f),
    )

    update-Reports :
        (u : Updater S M) (x : Result Text (Unit {0}) × Updater S M)
        → Ends (λ _ w. SameRelease u w ⊎ NewRelease u w) (λ _ w. SameRelease u w) x
        → Reports u
        → Reports x.1
    update-Reports u (ok _, v) (inl s) r = same-Reports u v s r
    update-Reports u (ok _, v) (inr (m, l, f, _, d)) r =
        (d ∙ r.0, subst (Fits v.latest_reference) (sym l) f)
    update-Reports u (err e, v) s r = same-Reports u v s r

    ticks-Reports : (n : ℕ) (u : Updater S M) → Reports u → Reports (ticks sources n u)
    unfolding ticks
    ticks-Reports zero u r = r
    ticks-Reports (suc n) u r =
        ticks-Reports n (update_latest_release sources u).1
          (update-Reports u (update_latest_release sources u) (update_latest_release_lem u r.0) r)

    reported :
        (ref ref' : Text) (o : Option M) (m : M)
        → version_of ref o ≡ some (ref', m)
        → Fits ref o
        → Fetched ref' m
    unfolding version_of
    reported ref ref' none m e f = cc
    reported ref ref' (some k) m e f =
        let (p, q) : (ref ≡ ref') × (k ≡ m) = ground (arith, e) in
        subst (λ r. Fetched r m) p (subst (Fetched ref) q f)

    -- However often the updater ticks, and whatever fails in between, what it reports outside
    -- development mode is a reference together with a manifest that was downloaded for it, if it
    -- started without a release.
    pub handle_get_version-ticks :
        (n : ℕ) (u : Updater S M) (ref : Text) (m : M)
        → u.development_mode ≡ false
        → u.latest_release ≡ none
        → handle_get_version (ticks sources n u) ≡ some (ref, m)
        → Fetched ref m
    unfolding handle_get_version version_of
    handle_get_version-ticks n u ref m dev empty e =
        let v = ticks sources n u in
        reported v.latest_reference ref v.latest_release m e
          (ticks-Reports n u (dev, subst (Fits u.latest_reference) (sym empty) tt)).1
