-- ===== src/Stacks/Kustomize.antt =====
-- The files that a kustomization depends on: the traversal of sync_planner.go. Paths are relative
-- to the root of the repository, since the source joins every path to it before it looks.
pub mod Reach
mod Measure
mod Progress
mod Leaves
mod Traversal
pub mod Dependencies
use idpbuilder.Base.{
  Bool, true, false, ℕ, zero, suc, List, [], ◌∷◌, ◌++◌, ◌&&◌, ◌||◌, not, Option, none, some,
  if◌then◌else◌, Outcome, ok, err, Error, wrapped, map, reverse,
}
use idpbuilder.Base.Text.{Text, ◌==◌, lit, trim_space, has_prefix, has_infix, cut, to_lower}
use idpbuilder.Base.Names.{add_key, contains}
use idpbuilder.Stacks.Paths.{clean_repo_rel, join_repo_rel, join_paths, dir_of}

pub record Generator : Type 0 where
  pub files : List Text
  pub envs : List Text

pub record HelmChart : Type 0 where
  pub values_file : Text
  pub additional_values : List Text

pub record Patch : Type 0 where
  pub path : Text
  pub patch : Text

-- `openapi_path` is the string under the key "path" of the map openapi, where it has one.
pub record Kustomization : Type 0 where
  pub resources : List Text
  pub components : List Text
  pub generators : List Text
  pub transformers : List Text
  pub configurations : List Text
  pub crds : List Text
  pub patches_strategic_merge : List Text
  pub patches_json6902 : List Text
  pub patches : List Patch
  pub replacements : List Text
  pub config_map_generator : List Generator
  pub secret_generator : List Generator
  pub helm_charts : List HelmChart
  pub helm_chart_inflation_gen : List HelmChart
  pub openapi_path : Option Text

unfoldable pub generator_file_path : Text → Text
generator_file_path value =
    let (before, rest) = cut 61 value in
    elim rest [
      | none ↦ value
      | some after ↦ if not (before == lit "") && not (after == lit "") then after else value
    ]

unfoldable pub generator_refs : List Generator → List Text
generator_refs [] = []
generator_refs (g ∷ gs) = map generator_file_path g.files ++ g.envs ++ generator_refs gs

unfoldable pub helm_refs : List HelmChart → List Text
helm_refs [] = []
helm_refs (h ∷ hs) = (h.values_file ∷ h.additional_values) ++ helm_refs hs

unfoldable pub local_path_refs : Kustomization → List Text
unfolding generator_refs helm_refs
local_path_refs k =
    k.resources
    ++ k.components
    ++ k.generators
    ++ k.transformers
    ++ k.configurations
    ++ k.crds
    ++ k.patches_strategic_merge
    ++ k.patches_json6902
    ++ map (λ p. p.path) k.patches
    ++ k.replacements
    ++ generator_refs (k.config_map_generator ++ k.secret_generator)
    ++ helm_refs (k.helm_charts ++ k.helm_chart_inflation_gen)
    ++ elim k.openapi_path [ none ↦ [] | some path ↦ path ∷ [] ]

unfoldable pub should_skip_kustomize_ref : Text → Bool
should_skip_kustomize_ref ref =
    let ref' = trim_space ref in
    ref' == lit ""
    || has_infix ref' (lit "://")
    || has_infix ref' (lit "::")
    || has_prefix ref' (lit "github.com/")
    || has_prefix ref' (lit "git@")

-- One document of a YAML or JSON stream as the decoder returns it. The end of a list of documents
-- is the end of the stream.
pub data Document : Type 0 where
  document : (kind name : Text) → Document
  undecodable : Error → Document

-- One call of the function that filepath.WalkDir is given: an error, or an entry with its path
-- and its own name.
pub data Entry : Type 0 where
  unreadable : Error → Entry
  entry : (path name : Text) (is_dir : Bool) → Entry

-- What the program asks the file system and the two YAML parsers.
pub record Tree : Type 0 where
  -- os.Stat: whether the path is a directory.
  pub stat : Text → Outcome Bool
  pub read_file : Text → Outcome (List ℕ)
  pub parse_kustomization : List ℕ → Outcome Kustomization
  pub documents : List ℕ → List Document
  pub walk_dir : Text → List Entry

-- The loop of `parseApplicationName`.
unfoldable pub first_application : List Document → Option Text
first_application [] = none
first_application (undecodable e ∷ docs) = none
first_application (document kind name ∷ docs) =
    let later = first_application docs in
    if kind == lit "Application" && not (name == lit "") then some name else later

-- The last "." of a name and what follows it.
unfoldable pub ext : Text → Text
ext name =
    let (last, rest) = cut 46 (reverse name) in
    elim rest [ none ↦ lit "" | some _ ↦ lit "." ++ reverse last ]

unfoldable pub is_manifest_name : Text → Bool
is_manifest_name name =
    let e = to_lower (ext name) in e == lit ".yaml" || e == lit ".yml" || e == lit ".json"

-- The three maps that the traversal fills.
pub record Found : Type 0 where
  pub files : List Text
  pub child_apps : List Text
  pub seen : List Text

abbrev pub nothing_found : Found
nothing_found = record { files = []; child_apps = []; seen = [] }

-- `files[path] = true`, and the application that the file declares, if it does.
unfoldable pub add_file : Text → Option Text → Found → Found
add_file path none st = record st { files = add_key path st.files }
add_file path (some app) st = record st {
  files = add_key path st.files;
  child_apps = add_key app st.child_apps;
}

-- The outcome of a run on fuel: `none` means that the fuel ran out.
abbrev pub Run : Type 0
Run = Option (Outcome Found)

abbrev pub then_run :
    {A B : Type 0} → Option (Outcome A) → (A → Option (Outcome B)) → Option (Outcome B)
then_run none f = none
then_run (some (err e)) f = some (err e)
then_run (some (ok a)) f = f a

abbrev pub wrap_run : Text → Run → Run
wrap_run t none = none
wrap_run t (some (err e)) = some (err (wrapped t e))
wrap_run t (some (ok st)) = some (ok st)

-- A reference that is not skipped, joined to the directory of its kustomization.
unfoldable pub follow_ref :
    (Text → Found → Run) → (kustomization ref : Text) → Outcome Text → (Found → Run) → Found → Run
follow_ref visit kustomization ref (err e) rest st =
    some (err (wrapped (kustomization ++ lit " references unsupported path " ++ ref) e))
follow_ref visit kustomization ref (ok next) rest st =
    then_run (wrap_run (kustomization ++ lit " reference " ++ ref) (visit next st)) rest

-- The loop over the references of one kustomization, `visit` being the recursive call.
unfoldable pub add_refs : (Text → Found → Run) → (kustomization : Text) → List Text → Found → Run
unfolding follow_ref
add_refs visit kustomization [] st = some (ok st)
add_refs visit kustomization (ref ∷ refs) st =
    let rest = add_refs visit kustomization refs in
    if should_skip_kustomize_ref ref
    then rest st
    else follow_ref visit kustomization ref (join_repo_rel (dir_of kustomization) ref) rest st

module _ (tree : Tree) where
  open tree use {stat, read_file, parse_kustomization, documents, walk_dir}

  unfoldable pub parse_application_name : Text → Option Text
  unfolding first_application
  parse_application_name path = elim (read_file path) [
    | err e ↦ none
    | ok bytes ↦ first_application (documents bytes)
  ]

  abbrev pub is_regular : Text → Bool
  is_regular path = elim (stat path) [ err e ↦ false | ok is_dir ↦ not is_dir ]

  unfoldable pub first_regular : Text → List Text → Option Text
  first_regular dir [] = none
  first_regular dir (name ∷ names) =
      let rest = first_regular dir names in
      if is_regular (join_paths dir name) then some (join_paths dir name) else rest

  unfoldable pub find_kustomization_file : Text → Option Text
  unfolding first_regular
  find_kustomization_file dir =
      first_regular dir
        (lit "kustomization.yaml" ∷ lit "kustomization.yml" ∷ lit "Kustomization" ∷ [])

  unfoldable pub add_entries : List Entry → Found → Outcome Found
  add_entries [] st = ok st
  add_entries (unreadable e ∷ entries) st = err e
  add_entries (entry path name is_dir ∷ entries) st = add_entries entries (
      if is_dir
      then st
      else if is_manifest_name name
      then add_file path (parse_application_name path) st
      else st)

  unfoldable pub add_manifest_directory_dependencies : Text → Found → Outcome Found
  unfolding add_entries
  add_manifest_directory_dependencies rel st = add_entries (walk_dir rel) st

  -- What `addKustomizeDependencies` does with a kustomization that it has not seen.
  unfoldable pub read_kustomization : (Text → Found → Run) → Text → Found → Run
  unfolding add_refs
  read_kustomization visit kustomization st =
      let st' = record st {
        files = add_key kustomization st.files;
        seen = add_key kustomization st.seen;
      } in
      elim (read_file kustomization) [
        | err e ↦ some (err (wrapped (lit "reading " ++ kustomization) e))
        | ok bytes ↦ elim (parse_kustomization bytes) [
          | err e ↦ some (err (wrapped (lit "parsing " ++ kustomization) e))
          | ok k ↦ add_refs visit kustomization (local_path_refs k) st'
        ]
      ]

  unfoldable pub visit_directory : (Text → Found → Run) → Text → Found → Run
  unfolding read_kustomization
  visit_directory visit path st = elim (find_kustomization_file path) [
    | none ↦ some (add_manifest_directory_dependencies path st)
    | some kustomization ↦
        if contains st.seen kustomization
        then some (ok st)
        else read_kustomization visit kustomization st
  ]

  unfoldable pub visit_path : (Text → Found → Run) → Text → Found → Run
  unfolding visit_directory
  visit_path visit path st = elim (stat path) [
    | err e ↦ some (err (wrapped (lit "stat " ++ path) e))
    | ok true ↦ visit_directory visit path st
    | ok false ↦ some (ok (add_file path (parse_application_name path) st))
  ]

  -- `addKustomizeDependencies`. The fuel bounds the depth of the recursion.
  unfoldable pub add_kustomize_dependencies : ℕ → Text → Found → Run
  unfolding visit_path
  add_kustomize_dependencies zero rel st = none
  add_kustomize_dependencies (suc fuel) rel st = elim (clean_repo_rel rel) [
    | err e ↦ some (err e)
    | ok path ↦ visit_path (add_kustomize_dependencies fuel) path st
  ]
