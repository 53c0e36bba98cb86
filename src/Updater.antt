-- ===== src/Updater.antt =====
-- The updater, which tells the runner of the latest release (services/updater/updater.go). The
-- registry, the release client and the local file are parameters, each with a state; a manifest is
-- of any type. The delay before a release is taken changes no state and is left out.
pub mod Releases
pub mod Tests
use forta_node_tr.Prelude.{
  ℕ, zero, suc, Text, codes, text_eq, ◌++◌, Bool, true, false, Option, none, some, ok, err, Effect,
  pure, modify, ◌>>=◌,
}

-- `read_local` reads and decodes test-release.json: nothing if either fails.
pub record Sources (S M : Type 0) : Type 0 where
  pub get_scanner_node_version : Effect S Text Text
  pub get_release_manifest : Text → Effect S Text M
  pub read_local : S → Option M × S

pub record Updater (S M : Type 0) : Type 0 where
  pub sources : S
  pub development_mode : Bool
  pub latest_reference : Text
  pub latest_release : Option M

-- What handleGetVersion answers: not found, or the reference and the manifest.
pub version_of : {M : Type 0} → Text → Option M → Option (Text × M)
version_of ref none = none
version_of ref (some m) = some (ref, m)

module _ {S M : Type 0} where
  pub on_sources : {A : Type 0} → (Text → Text) → Effect S Text A → Effect (Updater S M) Text A
  on_sources wrap f u =
      let (r, s) = f u.sources in
      let u' = record u { sources = s } in elim r [ ok a ↦ (ok a, u') | err e ↦ (err (wrap e), u') ]

  pub set_release : Text → M → Effect (Updater S M) Text (Unit {0})
  set_release ref m = modify (λ u. record u { latest_reference = ref; latest_release = some m })

  -- handleGetVersion.
  pub handle_get_version : Updater S M → Option (Text × M)
  unfolding version_of
  handle_get_version u = version_of u.latest_reference u.latest_release

module _ {S M : Type 0} (sources : Sources S M) where
  pub take_release : Bool → Text → Effect (Updater S M) Text (Unit {0})
  unfolding on_sources set_release
  take_release true ref = pure tt
  take_release false ref =
      on_sources (λ e. codes "failed while downloading the release manifest: " ++ e)
        (sources.get_release_manifest ref)
      >>= set_release ref

  pub check_reference : Text → Effect (Updater S M) Text (Unit {0})
  unfolding take_release
  check_reference ref u = take_release (text_eq ref u.latest_reference) ref u

  set_local : Option M → Effect (Updater S M) Text (Unit {0})
  unfolding set_release
  set_local none = pure tt
  set_local (some m) = set_release (codes "test-release.json") m

  read_local_release_manifest : Effect (Updater S M) Text (Unit {0})
  unfolding set_local
  read_local_release_manifest u =
      let (m, s) = sources.read_local u.sources in set_local m (record u { sources = s })

  pub update_from_registry : Effect (Updater S M) Text (Unit {0})
  unfolding on_sources check_reference
  update_from_registry =
      on_sources (λ e. codes "failed to get the latest release manifest ref: " ++ e)
        sources.get_scanner_node_version
      >>= check_reference

  -- `updateLatestReleaseWithDelay`, by whether it is in development mode.
  pub update_in : Bool → Effect (Updater S M) Text (Unit {0})
  unfolding read_local_release_manifest update_from_registry
  update_in true = read_local_release_manifest
  update_in false = update_from_registry

  pub update_latest_release : Effect (Updater S M) Text (Unit {0})
  unfolding update_in
  update_latest_release u = update_in u.development_mode u

  -- The ticks of the service, which logs errors and goes on.
  pub ticks : ℕ → Updater S M → Updater S M
  unfolding update_latest_release
  ticks zero u = u
  ticks (suc n) u = ticks n (update_latest_release u).1
