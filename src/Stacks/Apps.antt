-- ===== src/Stacks/Apps.antt =====
-- ArgoCD applications as `kubectl get application -o json` lists them, and the selection of those
-- that use the repository of the stacks: pkg/cmd/stacks/sync.go. The parsed list is an argument.
use idpbuilder.Base.{
  Bool, true, List, [], ◌∷◌, ◌++◌, ◌||◌, not, Option, none, some, if◌then◌else◌, Outcome, ok, err,
  message, select, any, ◌>>=◌,
}
use idpbuilder.Base.Text.{Text, ◌==◌, lit, trim_space, trim_prefix, trim_suffix, has_suffix}
use idpbuilder.Base.Names.{add_key, contains}
use idpbuilder.Stacks.Names.{sorted_keys}

pub record Source : Type 0 where
  pub repo_url : Text
  pub path : Text
  pub target_revision : Text

abbrev pub no_source : Source
no_source = record { repo_url = lit ""; path = lit ""; target_revision = lit "" }

-- The nested structs of `argoApplication`, flattened. `automated` tells whether the map
-- spec.syncPolicy.automated is present; nothing reads what it holds.
pub record Application : Type 0 where
  pub name : Text
  pub source : Source
  pub sources : List Source
  pub automated : Bool
  pub sync_status : Text
  pub revision : Text
  pub revisions : List Text
  pub health_status : Text
  pub phase : Text

unfoldable pub repo_url_matches : (repo_url repo_suffix : Text) → Bool
repo_url_matches repo_url repo_suffix =
    let normalized = trim_suffix (trim_space repo_url) (lit "/") in
    normalized == trim_prefix repo_suffix (lit "/") || has_suffix normalized repo_suffix

unfoldable pub application_uses_repo : Application → Text → Bool
application_uses_repo app repo_suffix =
    if repo_url_matches app.source.repo_url repo_suffix
    then true
    else any (λ source. repo_url_matches source.repo_url repo_suffix) app.sources

unfoldable pub local_sources : Application → List Source
local_sources app =
    if not (app.source.repo_url == lit "") then app.source ∷ app.sources else app.sources

-- The body of the loop of `listStackApplications`: the sources of other repositories are dropped.
unfoldable pub only_local : Text → Application → Application
only_local suffix app = record app {
  source = if not (repo_url_matches app.source.repo_url suffix) then no_source else app.source;
  sources = select (λ source. repo_url_matches source.repo_url suffix) app.sources;
}

unfoldable pub local_applications : Text → List Application → List Application
unfolding only_local
local_applications suffix [] = []
local_applications suffix (app ∷ apps) =
    let rest = local_applications suffix apps in
    if application_uses_repo app suffix then only_local suffix app ∷ rest else rest

-- The suffix "/owner/repo.git" of a repository's URL.
unfoldable pub repo_suffix_of : (owner repo : Text) → Text
repo_suffix_of owner repo = lit "/" ++ owner ++ lit "/" ++ repo ++ lit ".git"

-- `listStackApplications` on what kubectl and the JSON parser answered.
unfoldable pub list_stack_applications :
    (owner repo : Text) → Outcome (List Application) → Outcome (List Application)
unfolding local_applications repo_suffix_of
list_stack_applications owner repo (err e) = err e
list_stack_applications owner repo (ok apps) =
    let suffix = repo_suffix_of owner repo in
    elim (local_applications suffix apps) [
      | [] ↦ err (message (lit "no ArgoCD applications source repo " ++ suffix))
      | app ∷ rest ↦ ok (app ∷ rest)
    ]

unfoldable pub collect_names : List Text → List Application → List Text
collect_names seen [] = seen
collect_names seen (app ∷ apps) =
    collect_names (if not (app.name == lit "") then add_key app.name seen else seen) apps

unfoldable pub stack_application_names_from_list : List Application → List Text
unfolding collect_names
stack_application_names_from_list apps = sorted_keys (collect_names [] apps)

unfoldable pub collect_matching : Text → List Text → List Application → List Text
collect_matching suffix seen [] = seen
collect_matching suffix seen (app ∷ apps) =
    collect_matching suffix
      (if app.name == lit ""
        then seen
        else if application_uses_repo app suffix
        then add_key app.name seen
        else seen)
      apps

unfoldable pub matching_stack_application_names : List Application → Text → List Text
unfolding collect_matching
matching_stack_application_names apps suffix = sorted_keys (collect_matching suffix [] apps)

unfoldable pub stack_application_names :
    (owner repo : Text) → Outcome (List Application) → Outcome (List Text)
unfolding list_stack_applications stack_application_names_from_list
stack_application_names owner repo answer = do
  apps ← list_stack_applications owner repo answer
  elim (stack_application_names_from_list apps) [
    | [] ↦ err (
        message
          (lit "no ArgoCD applications source repo /" ++ owner ++ lit "/" ++ repo ++ lit ".git"))
    | name ∷ names ↦ ok (name ∷ names)
  ]

-- A Go map from names to applications, as an association list whose first entry counts.
unfoldable pub find_application : Text → List (Text × Application) → Option Application
find_application name [] = none
find_application name ((key, app) ∷ rest) =
    let later = find_application name rest in if name == key then some app else later

-- `getApplicationsByName` on the parsed list: of two applications of one name the later one stays.
unfoldable pub applications_by_name :
    List Text → List (Text × Application) → List Application → List (Text × Application)
applications_by_name want result [] = result
applications_by_name want result (app ∷ apps) =
    applications_by_name want (if contains want app.name then (app.name, app) ∷ result else result)
      apps
