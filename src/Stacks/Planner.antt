-- ===== src/Stacks/Planner.antt =====
-- Which applications a set of changed files affects: planAffectedApplications of sync_planner.go.
pub mod Marks
pub mod Laws
use idpbuilder.Base.{
  Bool, true, false, ℕ, List, [], ◌∷◌, ◌++◌, ◌&&◌, ◌||◌, not, Option, none, some, if◌then◌else◌,
  Outcome, ok, err,
}
use idpbuilder.Base.Text.{Text, ◌==◌, lit, trim_space, has_prefix}
use idpbuilder.Base.Names.{add_key, contains}
use idpbuilder.Stacks.Names.{sorted_keys}
use idpbuilder.Stacks.Apps.{Application, Source, local_sources}
use idpbuilder.Stacks.Changes.{normalize_changed_files}
use idpbuilder.Stacks.Kustomize.{
  Tree, Found, Run, nothing_found, then_run, wrap_run, add_kustomize_dependencies,
  parse_application_name,
}

abbrev pub root_application_name : Text
root_application_name = lit "root-application"

pub record Dependency : Type 0 where
  pub automated : Bool
  pub status : Text
  pub exact_files : List Text
  pub child_apps : List Text

abbrev pub no_dependency : Dependency
no_dependency = record { automated = false; status = lit ""; exact_files = []; child_apps = [] }

-- `appDependencyIndex`: a map from names of applications.
abbrev pub Index : Type 0
Index = List (Text × Dependency)

unfoldable pub find_dependency : Text → Index → Option Dependency
find_dependency name [] = none
find_dependency name ((j, dep) ∷ index) =
    let later = find_dependency name index in if name == j then some dep else later

-- `index.apps[name] = dep`
unfoldable pub put_dependency : Text → Dependency → Index → Index
put_dependency name dep [] = (name, dep) ∷ []
put_dependency name dep ((j, old) ∷ index) =
    let later = put_dependency name dep index in
    if name == j then (name, dep) ∷ index else (j, old) ∷ later

pub record RefreshPlan : Type 0 where
  pub affected_applications : List Text
  pub skipped_files : List Text
  pub manual_applications : List Text
  pub unsynced_applications : List Text
  pub root_first : Bool

module _ (tree : Tree) (fuel : ℕ) where
  -- Each source has a map `seen` of its own; the other two maps are the application's.
  unfoldable pub index_sources : Text → List Source → Found → Run
  index_sources name [] st = some (ok st)
  index_sources name (source ∷ sources) st =
      let rest = index_sources name sources in
      if trim_space source.path == lit ""
      then rest st
      else then_run
          (wrap_run
            (lit "indexing ArgoCD application " ++ name ++ lit " source path " ++ source.path)
            (add_kustomize_dependencies tree fuel source.path (record st { seen = [] })))
          rest

  abbrev pub dependency_from : Application → Found → Dependency
  dependency_from app st = record {
    automated = app.automated;
    status = app.sync_status;
    exact_files = st.files;
    child_apps = st.child_apps;
  }

  unfoldable pub index_applications : Index → List Application → Option (Outcome Index)
  unfolding index_sources
  index_applications index [] = some (ok index)
  index_applications index (app ∷ apps) = elim (app.name == lit "") [
    | true ↦ index_applications index apps
    | false ↦
        then_run (index_sources app.name (local_sources app) nothing_found)
          (λ st. index_applications (put_dependency app.name (dependency_from app st) index) apps)
  ]

  unfoldable pub build_application_dependency_index : List Application → Option (Outcome Index)
  unfolding index_applications
  build_application_dependency_index = index_applications []

unfoldable pub ryzen_overlay_path_affects_root : Text → Bool
ryzen_overlay_path_affects_root file =
    file == lit "packages/overlays/ryzen" || has_prefix file (lit "packages/overlays/ryzen/")

-- The set of affected names, and whether the file at hand has matched.
abbrev pub Marks : Type 0
Marks = List Text × Bool

abbrev pub mark : Bool → Text → Marks → Marks
mark test name (affected, matched) =
    if test then (add_key name affected, true) else (affected, matched)

abbrev pub is_indexed : Index → Text → Bool
is_indexed index name = elim (find_dependency name index) [ none ↦ false | some dep ↦ true ]

abbrev pub declares : Option Text → Dependency → Bool
declares none dep = false
declares (some child) dep = contains dep.child_apps child

unfoldable pub mark_dependents : (file : Text) → Option Text → Index → Marks → Marks
mark_dependents file child [] marks = marks
mark_dependents file child ((name, dep) ∷ index) marks =
    mark_dependents file child index
      (mark (declares child dep) name (mark (contains dep.exact_files file) name marks))

abbrev pub mark_child : Option Text → Index → Marks → Marks
mark_child none index marks = marks
mark_child (some child) index marks = mark (is_indexed index child) child marks

module _ (tree : Tree) (index : Index) where
  -- The body of the loop over the changed files.
  unfoldable pub mark_file : Text → List Text → Marks
  unfolding mark_dependents
  mark_file file affected =
      let child = parse_application_name tree file in
      mark_dependents file child index (
        mark_child child index (
          mark (ryzen_overlay_path_affects_root file && is_indexed index root_application_name)
            root_application_name (affected, false)))

  unfoldable pub mark_files : List Text → (affected skipped : List Text) → List Text × List Text
  unfolding mark_file
  mark_files [] affected skipped = (affected, skipped)
  mark_files (file ∷ files) affected skipped =
      let (affected', matched) = mark_file file affected in
      mark_files files affected' (if not matched then skipped ++ file ∷ [] else skipped)

  unfoldable pub dependency_of : Text → Dependency
  dependency_of name = elim (find_dependency name index) [ none ↦ no_dependency | some dep ↦ dep ]

  unfoldable pub manual_names : List Text → List Text
  manual_names [] = []
  manual_names (name ∷ names) =
      let rest = manual_names names in
      if not (dependency_of name).automated then name ∷ rest else rest

  unfoldable pub unsynced_names : List Text → List Text
  unsynced_names [] = []
  unsynced_names (name ∷ names) =
      let rest = unsynced_names names in
      let status = (dependency_of name).status in
      if not (status == lit "") && not (status == lit "Synced") then name ∷ rest else rest

  -- `planAffectedApplications`, once the index is built.
  unfoldable pub plan_from_index : List Text → RefreshPlan
  unfolding mark_files manual_names unsynced_names dependency_of
  plan_from_index changed =
      let (affected, skipped) = mark_files (normalize_changed_files changed) [] [] in
      let names = sorted_keys affected in
      record {
        affected_applications = names;
        skipped_files = skipped;
        manual_applications = manual_names names;
        unsynced_applications = unsynced_names names;
        root_first = contains affected root_application_name;
      }

unfoldable pub plan_affected_applications :
    Tree → ℕ → List Application → List Text → Option (Outcome RefreshPlan)
unfolding build_application_dependency_index plan_from_index
plan_affected_applications tree fuel apps changed =
    then_run (build_application_dependency_index tree fuel apps)
      (λ index. some (ok (plan_from_index tree index changed)))
