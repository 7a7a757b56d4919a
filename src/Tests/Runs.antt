-- ===== src/Tests/Runs.antt =====
-- The theorems on the controller of a build at a machine where all goes well.
use idpbuilder.Base.{◌≡◌, ◌↔◌, true, false, [], ◌∷◌, none, ok}
use idpbuilder.Base.Text.{lit}
use idpbuilder.Controllers.Packages.{
  Localbuild, Annotations, cli_start_time_annotation, last_observed_annotation,
}
use idpbuilder.Controllers.Shutdown.{Listing, should_shut_down, healthy}
use idpbuilder.Controllers.Shutdown.Laws.{IsDone, should_shut_down_iff}
use idpbuilder.Controllers.Localbuild.{Machine, Configuration, fetched, not_found}
use idpbuilder.Tests.Packages.{server, build}

abbrev times : Annotations
times = (cli_start_time_annotation, lit "t1") ∷ (last_observed_annotation, lit "t1") ∷ []

abbrev all_synced : Listing
all_synced = record {
  core_packages = ok (healthy ∷ []);
  repositories = ok (
      record { annotations = times; synced = true }
      ∷ record { annotations = []; synced = false }
      ∷ []);
  custom_packages = ok (record { annotations = times; synced = true } ∷ []);
}

should_shut_down_iff_example :
    (should_shut_down true times all_synced ≡ ok true) ↔ IsDone true times all_synced
should_shut_down_iff_example = should_shut_down_iff true times all_synced

abbrev timed : Localbuild
timed = record {
  annotations = times;
  external_url = build.external_url;
  internal_url = build.internal_url;
  admin_user_secret_name = build.admin_user_secret_name;
  admin_user_secret_namespace = build.admin_user_secret_namespace;
}

abbrev calm : Machine server
calm = record {
  get_localbuild = λ w. (fetched timed, w);
  ensure_namespace = λ w. (none, w);
  install = λ w. ([], w);
  is_done = λ w. false;
  argocd_secret = λ w. (not_found, w);
  gitea_secret = λ w. (not_found, w);
  update_argocd_password = λ password w. (none, w);
  update_gitea_password = λ password w. (none, w);
  reconcile_embedded_app = λ name w. (none, w);
  reconcile_custom_pkg_url = λ url priority w. (ok tt, w);
  listing = λ w. all_synced;
  request_app_refresh = λ w. (none, w);
  request_app_set_refresh = λ w. (none, w);
  update_status = λ resource w. w;
}

abbrev options : Configuration
options = record {
  exit_on_sync = true;
  use_static_password = false;
  static_password = lit "developer";
  custom_package_dirs = [];
  custom_package_files = [];
  custom_package_urls = lit "https://github.com/cnoe-io/stacks//basic" ∷ [];
}
