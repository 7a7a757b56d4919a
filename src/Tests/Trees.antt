-- ===== src/Tests/Trees.antt =====
-- A repository of two kustomizations that refer to each other, and the theorems on paths,
-- dependencies and plans at it.
use idpbuilder.Base.{
  ◌≡◌, refl, ◌↔◌, true, false, List, [], ◌∷◌, none, some, Outcome, ok, err, message, if◌then◌else◌,
  arith, All, any,
}
use idpbuilder.Base.Text.{
  Text, lit, ◌==◌, split, join, has_prefix, has_infix, trim_space, cut, to_lower,
}
use idpbuilder.Base.Order.{sort_strings, text_lt}
use idpbuilder.Base.Names.{contains, add_key, IsAscending}
use idpbuilder.Stacks.Paths.{clean_repo_rel, join_repo_rel, dir_of, slash, is_abs, escapes}
use idpbuilder.Stacks.Paths.Safety.{
  IsPlain, walk, reached, clean_repo_rel-eq-walk, clean_repo_rel-inside,
}
use idpbuilder.Stacks.Kustomize.{
  Tree, Found, Kustomization, nothing_found, add_kustomize_dependencies, local_path_refs,
  should_skip_kustomize_ref, find_kustomization_file, is_regular, document, parse_application_name,
  add_file,
}
use idpbuilder.Stacks.Kustomize.Reach.{Depends}
use idpbuilder.Stacks.Kustomize.Dependencies.{
  IsUniverse, IsUniverse-of_files, add_kustomize_dependencies_returns,
  add_kustomize_dependencies_exact,
}
use idpbuilder.Stacks.Changes.{normalize_changed_files}
use idpbuilder.Stacks.Planner.{
  Index, plan_from_index, root_application_name, find_dependency, ryzen_overlay_path_affects_root,
}
use idpbuilder.Stacks.Names.{sorted_keys}
use idpbuilder.Stacks.Planner.Marks.{hits}
use idpbuilder.Stacks.Planner.Laws.{HitsNone, plan_exact}

abbrev regular_files : List Text
regular_files = lit "a/kustomization.yaml" ∷ lit "b/kustomization.yaml" ∷ lit "b/x.yaml" ∷ []

abbrev refers_to : List Text → Kustomization
refers_to refs = record {
  resources = refs;
  components = [];
  generators = [];
  transformers = [];
  configurations = [];
  crds = [];
  patches_strategic_merge = [];
  patches_json6902 = [];
  patches = [];
  replacements = [];
  config_map_generator = [];
  secret_generator = [];
  helm_charts = [];
  helm_chart_inflation_gen = [];
  openapi_path = none;
}

-- The bytes of a file are its path.
abbrev circle : Tree
circle = record {
  stat = λ p.
      if contains regular_files p
      then ok false
      else if p == lit "a"
      then ok true
      else if p == lit "b"
      then ok true
      else err (message p);
  read_file = λ p. ok p;
  parse_kustomization = λ bytes. ok (
      refers_to (
        if bytes == lit "a/kustomization.yaml"
        then lit "../b" ∷ []
        else lit "x.yaml" ∷ lit "https://example.org/y" ∷ lit "../a" ∷ []));
  documents =
      λ bytes. if bytes == lit "b/x.yaml" then document (lit "Application") (lit "x") ∷ [] else [];
  walk_dir = λ p. [];
}

circle-regular : (p : Text) → is_regular circle p ≡ true → contains regular_files p ≡ true
circle-regular p h = ground arith

circle-IsUniverse : IsUniverse circle regular_files
circle-IsUniverse = IsUniverse-of_files circle regular_files circle-regular

abbrev circle_found : Found
circle_found = record {
  files = lit "b/x.yaml" ∷ lit "b/kustomization.yaml" ∷ lit "a/kustomization.yaml" ∷ [];
  child_apps = lit "x" ∷ [];
  seen = lit "b/kustomization.yaml" ∷ lit "a/kustomization.yaml" ∷ [];
}

program : Unit {0}
unfolding add_kustomize_dependencies clean_repo_rel join_repo_rel dir_of local_path_refs
    should_skip_kustomize_ref find_kustomization_file contains add_key add_file
    parse_application_name ◌==◌ split join has_prefix has_infix trim_space cut to_lower
program = tt

circle_run : add_kustomize_dependencies circle 4 (lit "a") nothing_found ≡ some (ok circle_found)
unfolding program
circle_run = refl

add_kustomize_dependencies_returns_example :
    (o : Outcome Found) × (add_kustomize_dependencies circle 4 (lit "a") nothing_found ≡ some o)
add_kustomize_dependencies_returns_example =
    add_kustomize_dependencies_returns circle regular_files 4 (lit "a") circle-IsUniverse
      (omega arith)

add_kustomize_dependencies_exact_example :
    (p : Text) × (clean_repo_rel (lit "a") ≡ ok p)
    × ((f : Text) → (contains circle_found.files f ≡ true) ↔ Depends circle p f)
add_kustomize_dependencies_exact_example =
    add_kustomize_dependencies_exact circle regular_files 4 (lit "a") circle_found circle-IsUniverse
      (omega arith) circle_run

clean_repo_rel_climbing : clean_repo_rel (lit "a/../b/c") ≡ ok (lit "b/c")
unfolding program
clean_repo_rel_climbing = refl

clean_repo_rel-inside_example :
    (c : Text) × (cs : List Text) × (lit "b/c" ≡ join slash (c ∷ cs)) × All IsPlain (c ∷ cs)
clean_repo_rel-inside_example =
    clean_repo_rel-inside (lit "a/../b/c") (lit "b/c") clean_repo_rel_climbing

clean_repo_rel-eq-walk_example : clean_repo_rel (lit "a/../../b") ≡ (
    if is_abs (trim_space (lit "a/../../b"))
    then escapes
    else reached (walk [] (split 47 (trim_space (lit "a/../../b")))))
clean_repo_rel-eq-walk_example = clean_repo_rel-eq-walk (lit "a/../../b")

abbrev sample_index : Index
sample_index =
    (
      lit "root-application",
      record {
        automated = true;
        status = lit "Synced";
        exact_files = [];
        child_apps = lit "x" ∷ [];
      },
    )
    ∷ (
      lit "x",
      record {
        automated = false;
        status = lit "OutOfSync";
        exact_files = lit "b/x.yaml" ∷ [];
        child_apps = [];
      },
    )
    ∷ []

abbrev sample_changes : List Text
sample_changes = lit "b/x.yaml" ∷ lit "README.md" ∷ lit "../outside" ∷ []

plan_sample : plan_from_index circle sample_index sample_changes ≡ record {
  affected_applications = lit "root-application" ∷ lit "x" ∷ [];
  skipped_files = lit "README.md" ∷ [];
  manual_applications = lit "x" ∷ [];
  unsynced_applications = lit "x" ∷ [];
  root_first = true;
}
unfolding program plan_from_index normalize_changed_files sort_strings text_lt sorted_keys
    find_dependency ryzen_overlay_path_affects_root
plan_sample = refl

plan_exact_example :
    let plan = plan_from_index circle sample_index sample_changes in
    let files = normalize_changed_files sample_changes in
    ((name : Text)
      → contains plan.affected_applications name
        ≡ any (λ file. hits circle sample_index file name) files)
    × IsAscending plan.affected_applications
    × ((file : Text)
        → (contains plan.skipped_files file ≡ true)
          ↔ ((contains files file ≡ true) × HitsNone circle sample_index file))
    × (plan.root_first ≡ contains plan.affected_applications root_application_name)
plan_exact_example = plan_exact circle sample_index sample_changes
