-- ===== src/Tests/Refreshes.antt =====
-- A machine whose applications have the commit at once, and the theorems on refreshes at it.
use idpbuilder.Stacks.Changes.{normalize_changed_files}
use idpbuilder.Stacks.Paths.{clean_repo_rel}
use idpbuilder.Base.Order.{sort_strings, text_lt}
use idpbuilder.Stacks.Names.{contains_string, without_string, sorted_keys}
use idpbuilder.Base.{◌≡◌, refl, true, false, Option, Outcome, List, [], ◌∷◌, none, some, ok}
use idpbuilder.Base.Text.{join, split, trim_suffix, has_suffix, Text, lit, ◌==◌, trim_space}
use idpbuilder.Base.Names.{add_key, contains}
use idpbuilder.Stacks.Apps.{
  local_sources, list_stack_applications, application_uses_repo, repo_url_matches,
  stack_application_names_from_list, Application, Source, applications_by_name, find_application,
}
use idpbuilder.Stacks.Revisions.{application_observed_revision, revision_matches}
use idpbuilder.Stacks.Host.{Host}
use idpbuilder.Stacks.Kustomize.{add_kustomize_dependencies, parse_application_name, add_file, Tree}
use idpbuilder.Stacks.Wait.{
  poll, get_applications_by_name, wait_for_applications_observed, pending_applications,
}
use idpbuilder.Stacks.Planner.{
  plan_affected_applications, put_dependency, ryzen_overlay_path_affects_root, find_dependency,
  RefreshPlan, root_application_name,
}
use idpbuilder.Stacks.Refresh.{
  SyncResult, Session, Event, annotated, awaited, refresh_planned, refresh_listed,
}
use idpbuilder.Stacks.Refresh.Rules.{Keeps}
use idpbuilder.Stacks.Refresh.Order.{
  IsRootFirst, refresh_planned-IsRootFirst, refresh_listed-IsRootFirst,
}
use idpbuilder.Tests.Machines.{empty_tree, slow, options}

-- Every path is a file.
abbrev file_tree : Tree
file_tree = record empty_tree { stat = λ p. ok false }

abbrev pushed : SyncResult
pushed = record {
  commit = lit "abc123";
  changed_files = lit "packages/overlays/ryzen/kustomization.yaml" ∷ lit "packages/x" ∷ [];
  affected_applications = [];
  refreshed_applications = [];
  skipped_files = [];
  manual_applications = [];
  unsynced_applications = [];
  push_duration = 0;
  refresh_duration = 0;
  wait_duration = 0;
  total_duration = 0;
  noop = false;
}

abbrev local_source : Text → Source
local_source path = record {
  repo_url = lit "http://gitea/giteaadmin/stacks.git";
  path = path;
  target_revision = lit "main";
}

abbrev at_commit : (name path : Text) → Application
at_commit name path = record {
  name = name;
  source = local_source path;
  sources = [];
  automated = true;
  sync_status = lit "Synced";
  revision = lit "abc123";
  revisions = [];
  health_status = lit "Healthy";
  phase = lit "Succeeded";
}

-- The root application and a child, which have the commit at once.
abbrev prompt : Host
prompt = record slow {
  get_applications = λ w. (
    ok (
        at_commit (lit "root-application") (lit "packages/overlays/ryzen")
        ∷ at_commit (lit "x") (lit "packages/x")
        ∷ []),
    w,
  );
  tree = λ w. file_tree;
}

abbrev start : Session prompt options 9
start = record { world = 0; result = pushed; trace = [] }

abbrev root_plan : RefreshPlan
root_plan = record {
  affected_applications = lit "root-application" ∷ lit "x" ∷ [];
  skipped_files = [];
  manual_applications = [];
  unsynced_applications = [];
  root_first = true;
}

refresh_planned-IsRootFirst_example :
    Keeps prompt options 9
      (refresh_planned prompt options 9 root_plan start)
      (λ s. IsRootFirst s.trace)
refresh_planned-IsRootFirst_example =
    refresh_planned-IsRootFirst prompt options 9 root_plan start refl refl

has_root : contains (lit "root-application" ∷ lit "x" ∷ []) root_application_name ≡ true
unfolding contains ◌==◌
has_root = refl

refresh_listed-IsRootFirst_example :
    Keeps prompt options 9
      (refresh_listed prompt options 9 (lit "root-application" ∷ lit "x" ∷ []) start)
      (λ s. IsRootFirst s.trace)
refresh_listed-IsRootFirst_example =
    refresh_listed-IsRootFirst prompt options 9 (lit "root-application" ∷ lit "x" ∷ []) start
      has_root refl

abbrev trace_of : Option (Outcome (Unit {0}) × Session prompt options 9) → List Event
trace_of none = []
trace_of (some (outcome, s)) = s.trace

abbrev both_refreshed : List Event
both_refreshed =
    awaited (lit "x" ∷ [])
    ∷ annotated (lit "x")
    ∷ awaited (lit "root-application" ∷ [])
    ∷ annotated (lit "root-application")
    ∷ []

-- In this run the child is annotated, once the root was awaited.
listed_run :
    trace_of (refresh_listed prompt options 9 (lit "root-application" ∷ lit "x" ∷ []) start)
    ≡ both_refreshed
unfolding refresh_listed ◌==◌ contains_string wait_for_applications_observed poll
    get_applications_by_name pending_applications find_application applications_by_name
    application_observed_revision revision_matches trim_space list_stack_applications
    application_uses_repo repo_url_matches trim_suffix has_suffix without_string
    stack_application_names_from_list add_key sort_strings text_lt sorted_keys
listed_run = refl

-- And in this one, after the plan was made anew.
planned_run : trace_of (refresh_planned prompt options 9 root_plan start) ≡ both_refreshed
unfolding refresh_planned ◌==◌ wait_for_applications_observed poll get_applications_by_name
    pending_applications find_application applications_by_name application_observed_revision
    revision_matches trim_space list_stack_applications application_uses_repo repo_url_matches
    trim_suffix has_suffix without_string sort_strings text_lt sorted_keys
    plan_affected_applications local_sources add_kustomize_dependencies clean_repo_rel join split
    normalize_changed_files put_dependency parse_application_name add_file
    ryzen_overlay_path_affects_root find_dependency
planned_run = refl
