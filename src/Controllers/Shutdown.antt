-- ===== src/Controllers/Shutdown.antt =====
-- When a build is done: shouldShutDown of pkg/controllers/localbuild/controller.go. What the API
-- server lists is a parameter.
pub mod Laws
use idpbuilder.Base.{
  Bool, true, false, List, [], ◌∷◌, ◌||◌, not, if◌then◌else◌, Outcome, ok, err, Error, wrapped,
}
use idpbuilder.Base.Text.{Text, ◌==◌, lit}
use idpbuilder.Controllers.Packages.{
  Annotations, get_cli_start_time_annotation_value, get_last_observed_sync_time_annotation_value,
}

-- What is read of a GitRepository or a CustomPackage.
pub record Observed : Type 0 where
  pub annotations : Annotations
  pub synced : Bool

-- What the API server lists: the health of the applications with the label of a core package, the
-- repositories and the custom packages of the namespace.
pub record Listing : Type 0 where
  pub core_packages : Outcome (List Text)
  pub repositories : Outcome (List Observed)
  pub custom_packages : Outcome (List Observed)

abbrev pub healthy : Text
healthy = lit "Healthy"

-- A loop that returns false at the first that is not ready.
unfoldable pub all_ready {ℓ} : {A : Type ℓ} → (A → Bool) → List A → Bool
all_ready ready [] = true
all_ready ready (a ∷ rest) =
    let later = all_ready ready rest in if not (ready a) then false else later

-- Whether the time that was observed is the one of this invocation, for what is of it.
abbrev pub is_observed :
    (cli_start_time : Text) → (synced : Bool) → (observed_time : Outcome Text) → Bool
is_observed cli_start_time synced (err e) = false
is_observed cli_start_time synced (ok observed_time) =
    if not synced || not (cli_start_time == observed_time) then false else true

abbrev pub repository_ready :
    (cli_start_time : Text) → Observed → (start_time : Outcome Text) → Bool
repository_ready cli_start_time repo (err e) = true
repository_ready cli_start_time repo (ok start_time) =
    if not (start_time == cli_start_time)
    then true
    else is_observed cli_start_time repo.synced
        (get_last_observed_sync_time_annotation_value repo.annotations)

abbrev pub package_ready : (cli_start_time : Text) → Observed → (start_time : Outcome Text) → Bool
package_ready cli_start_time pkg (err e) = true
package_ready cli_start_time pkg (ok start_time) =
    if not (start_time == cli_start_time)
    then false
    else is_observed cli_start_time pkg.synced
        (get_last_observed_sync_time_annotation_value pkg.annotations)

unfoldable pub is_repository_ready : (cli_start_time : Text) → Observed → Bool
unfolding get_cli_start_time_annotation_value get_last_observed_sync_time_annotation_value
is_repository_ready cli_start_time repo =
    repository_ready cli_start_time repo (get_cli_start_time_annotation_value repo.annotations)

unfoldable pub is_package_ready : (cli_start_time : Text) → Observed → Bool
unfolding get_cli_start_time_annotation_value get_last_observed_sync_time_annotation_value
is_package_ready cli_start_time pkg =
    package_ready cli_start_time pkg (get_cli_start_time_annotation_value pkg.annotations)

abbrev pub custom_packages_ready : (cli_start_time : Text) → Outcome (List Observed) → Outcome Bool
custom_packages_ready cli_start_time (err e) = err (wrapped (lit "listing custom packages") e)
custom_packages_ready cli_start_time (ok pkgs) =
    ok (all_ready (is_package_ready cli_start_time) pkgs)

abbrev pub repositories_ready :
    (cli_start_time : Text)
    → (repositories custom_packages : Outcome (List Observed)) → Outcome Bool
repositories_ready cli_start_time (err e) custom_packages =
    err (wrapped (lit "listing repositories") e)
repositories_ready cli_start_time (ok repos) custom_packages =
    if not (all_ready (is_repository_ready cli_start_time) repos)
    then ok false
    else custom_packages_ready cli_start_time custom_packages

abbrev pub core_packages_ready :
    (cli_start_time : Text)
    → Outcome (List Text)
    → (repositories custom_packages : Outcome (List Observed)) → Outcome Bool
core_packages_ready cli_start_time (err e) repositories custom_packages =
    err (wrapped (lit "listing core packages") e)
core_packages_ready cli_start_time (ok apps) repositories custom_packages =
    if not (all_ready (λ status. status == healthy) apps)
    then ok false
    else repositories_ready cli_start_time repositories custom_packages

abbrev pub after_start_time : (cli_start_time : Outcome Text) → Listing → Outcome Bool
after_start_time (err e) listing = err e
after_start_time (ok cli_start_time) listing =
    core_packages_ready cli_start_time listing.core_packages listing.repositories
      listing.custom_packages

-- The labels of the listing are constants, for which labels.NewRequirement has no error.
unfoldable pub should_shut_down : (exit_on_sync : Bool) → Annotations → Listing → Outcome Bool
unfolding all_ready is_repository_ready is_package_ready get_cli_start_time_annotation_value
should_shut_down exit_on_sync annotations listing =
    if not exit_on_sync
    then ok false
    else after_start_time (get_cli_start_time_annotation_value annotations) listing
