-- ===== src/Updater/Tests.antt =====
-- Runs of the updater with a registry that moves on and a download that fails once, and the theorem
-- about it at these inputs (services/updater/updater.go).
use forta_node_tr.Prelude.{
  ℕ, zero, suc, ◌==◌, Text, codes, text_eq, [], false, none, some, if◌then◌else◌, ◌≡◌, refl, ap,
  Result, ok, err,
}
use forta_node_tr.Updater.{
  Sources, Updater, version_of, on_sources, set_release, handle_get_version, take_release,
  check_reference, update_from_registry, update_in, update_latest_release, ticks,
}
use forta_node_tr.Updater.Releases.{handle_get_version-ticks}

-- The state counts the calls. A manifest is its reference, and the first download fails.
abbrev download : Text → ℕ → Result Text Text
download ref (suc zero) = err (codes "gateway timeout")
download ref n = ok ref

abbrev sources : Sources ℕ Text
sources = record {
  get_scanner_node_version = λ n. (ok (if n == 0 then codes "Qm1" else codes "Qm2"), suc n);
  get_release_manifest = λ ref n. (download ref n, suc n);
  read_local = λ n. (some (codes "local"), n);
}

abbrev fresh : Updater ℕ Text
fresh = record {
  sources = 0;
  development_mode = false;
  latest_reference = [];
  latest_release = none;
}

not_found_run : handle_get_version (ticks sources 1 fresh) ≡ none
unfolding handle_get_version version_of ticks update_latest_release update_in update_from_registry
    on_sources check_reference take_release text_eq
not_found_run = refl

second_run : handle_get_version (ticks sources 2 fresh) ≡ some (codes "Qm2", codes "Qm2")
unfolding handle_get_version version_of ticks update_latest_release update_in update_from_registry
    on_sources check_reference take_release set_release text_eq
second_run = refl

-- The manifest was downloaded for the reference at some time.
abbrev WasFetched : Text → Text → Type 0
WasFetched ref m = (n : ℕ) × (download ref n ≡ ok m)

handle_get_version-ticks_example : WasFetched (codes "Qm2") (codes "Qm2")
handle_get_version-ticks_example =
    handle_get_version-ticks sources WasFetched (λ ref m n n' e. (n, ap (λ x. x.0) e)) 2 fresh
      (codes "Qm2") (codes "Qm2") refl refl second_run
