-- ===== src/Controllers/Packages.antt =====
-- The custom packages of a build: reconcileCustomPkg, reconcileCustomPkgDir and
-- reconcileCustomPkgFile of pkg/controllers/localbuild/controller.go. All packages stand in the
-- namespace of the project. The API server, the decoder of manifests and the files are a parameter.
pub mod Ranks
pub mod Winner
use idpbuilder.Base.{
  Bool, true, false, ℕ, zero, suc, List, [], ◌∷◌, ◌++◌, ◌&&◌, ◌||◌, not, Option, none, some,
  if◌then◌else◌, ltb, eqb, reverse, Outcome, ok, err, Error, message, wrapped,
}
use idpbuilder.Base.Text.{Text, ◌==◌, lit, split, cut, to_lower}
use idpbuilder.Stacks.Paths.{base_of, join_paths}

-- An int of Go.
pub data ℤ : Type 0 where
  pos : ℕ → ℤ
  negsuc : ℕ → ℤ

abbrev pub Annotations : Type 0
Annotations = List (Text × Text)

unfoldable pub annotation : (key : Text) → Annotations → Option Text
annotation key [] = none
annotation key ((k, value) ∷ annotations) =
    let later = annotation key annotations in if k == key then some value else later

unfoldable pub set_annotation : (key value : Text) → Annotations → Annotations
set_annotation key value [] = (key, value) ∷ []
set_annotation key value ((k, old) ∷ annotations) =
    let later = set_annotation key value annotations in
    if k == key then (k, value) ∷ annotations else (k, old) ∷ later

abbrev pub cli_start_time_annotation : Text
cli_start_time_annotation = lit "cnoe.io/cli-start-time"

abbrev pub last_observed_annotation : Text
last_observed_annotation = lit "cnoe.io/last-observed-cli-start-time"

abbrev pub package_priority_annotation : Text
package_priority_annotation = lit "cnoe.io/package-priority"

abbrev pub package_source_path_annotation : Text
package_source_path_annotation = lit "cnoe.io/package-source-path"

abbrev pub found_annotation : (key : Text) → Option Text → Outcome Text
found_annotation key (some value) = ok value
found_annotation key none = err (message (lit "expected annotation, " ++ key ++ lit ", not found"))

unfoldable pub get_cli_start_time_annotation_value : Annotations → Outcome Text
unfolding annotation
get_cli_start_time_annotation_value annotations =
    found_annotation cli_start_time_annotation (annotation cli_start_time_annotation annotations)

unfoldable pub get_last_observed_sync_time_annotation_value : Annotations → Outcome Text
unfolding annotation
get_last_observed_sync_time_annotation_value annotations =
    found_annotation last_observed_annotation (annotation last_observed_annotation annotations)

unfoldable pub set_cli_start_time_annotation_value : (time_stamp : Text) → Annotations → Annotations
unfolding set_annotation
set_cli_start_time_annotation_value time_stamp annotations =
    if time_stamp == lit ""
    then annotations
    else set_annotation cli_start_time_annotation time_stamp annotations

pub record RemoteRepositorySpec : Type 0 where
  pub url : Text
  pub ref : Text
  pub clone_submodules : Bool
  pub path : Text

abbrev pub no_remote : RemoteRepositorySpec
no_remote = record { url = lit ""; ref = lit ""; clone_submodules = false; path = lit "" }

pub record ArgoCdPackageSpec : Type 0 where
  pub application_file : Text
  pub name : Text
  pub namespace : Text
  pub type : Text

pub record CustomPackageSpec : Type 0 where
  pub replicate : Bool
  pub git_server_url : Text
  pub internal_git_serve_url : Text
  pub auth_secret_name : Text
  pub auth_secret_namespace : Text
  pub argo_cd : ArgoCdPackageSpec
  pub remote_repository : RemoteRepositorySpec

pub record CustomPackage : Type 0 where
  pub name : Text
  pub annotations : Annotations
  pub spec : CustomPackageSpec
  pub synced : Bool

-- What is read of a Localbuild.
pub record Localbuild : Type 0 where
  pub annotations : Annotations
  pub external_url : Text
  pub internal_url : Text
  pub admin_user_secret_name : Text
  pub admin_user_secret_namespace : Text

-- A manifest that was decoded: its group and kind, where the decoder tells them, and what the
-- object says of itself.
pub record Manifest : Type 0 where
  pub gvk : Option (Text × Text)
  pub kind : Text
  pub name : Text
  pub namespace : Text

-- What the API server answers to a deletion.
pub data Deletion : Type 0 where
  deleted : Deletion
  not_found : Deletion
  refused : Error → Deletion

-- An entry of a directory, and whether it is a regular file.
pub record DirEntry : Type 0 where
  pub name : Text
  pub is_regular : Bool

pub record Cluster : Type 1 where
  pub World : Type 0
  pub list_packages : World → Outcome (List CustomPackage) × World
  pub delete_package : CustomPackage → World → Deletion × World
  -- controllerutil.CreateOrUpdate of the package of a name, with what is done to the one that it
  -- finds or to a new one. That the owner cannot be set is among its errors.
  pub create_or_update : Text → (CustomPackage → CustomPackage) → World → Option Error × World
  pub decode : Text → Outcome Manifest
  -- The names that the packages of ArgoCD give.
  pub argo_group : Text
  pub application_kind : Text
  pub application_set_kind : Text
  -- fmt.Sscanf and fmt.Sprintf with "%d".
  pub scan_int : Text → Option ℤ
  pub print_int : ℕ → Text
  pub read_dir : Text → World → Outcome (List DirEntry)
  pub open_file : Text → World → Outcome (Unit {0})
  pub stat_is_regular : Text → World → Outcome Bool
  pub read_file : Text → World → Outcome Text

abbrev pub extension_after : Text × Option Text → Text
extension_after (last, none) = lit ""
extension_after (last, some above) = lit "." ++ reverse last

-- filepath.Ext of the last element.
abbrev pub ext_of : Text → Text
ext_of path = extension_after (cut 46 (cut 47 (reverse path)).0)

unfoldable pub is_yaml_file : Text → Bool
is_yaml_file input = ext_of input == lit ".yaml" || ext_of input == lit ".yml"

abbrev pub first_of : List Text → Text
first_of [] = lit ""
first_of (s ∷ parts) = s

unfoldable pub get_custom_package_name : (file_name app_name : Text) → Text
get_custom_package_name file_name app_name =
    to_lower (first_of (split 46 file_name)) ++ lit "-" ++ app_name

-- How a package stands to one for an application and of a priority.
pub data Rivalry : Type 0 where
  higher : Rivalry
  lower : Rivalry
  neither : Rivalry

unfoldable pub compare_priority : (existing : Option ℤ) → (priority : ℕ) → Rivalry
compare_priority none priority = neither
compare_priority (some (negsuc n)) priority = lower
compare_priority (some (pos n)) priority =
    if ltb priority n then higher else if ltb n priority then lower else neither

module _ (c : Cluster) where
  open c use {World}

  abbrev pub Act : Type 0 → Type 0
  Act A = World → Outcome A × World

  unfoldable pub is_supported_argo_cd_types : Option (Text × Text) → Bool
  is_supported_argo_cd_types none = false
  is_supported_argo_cd_types (some (group, kind)) =
      group == c.argo_group && (kind == c.application_kind || kind == c.application_set_kind)

  abbrev pub scanned : Option Text → Option ℤ
  scanned none = none
  scanned (some text) = c.scan_int text

  -- The priority that a package was given.
  abbrev pub rank : CustomPackage → Option ℤ
  rank p = scanned (annotation package_priority_annotation p.annotations)

  unfoldable pub rivalry : (app_name : Text) → (priority : ℕ) → CustomPackage → Rivalry
  unfolding compare_priority annotation
  rivalry app_name priority p =
      if p.spec.argo_cd.name == app_name then compare_priority (rank p) priority else neither

  -- The loop over the packages that there are: whether one of a higher priority ended it.
  unfoldable pub settle_rivals : (app_name : Text) → (priority : ℕ) → List CustomPackage → Act Bool
  unfolding rivalry
  settle_rivals app_name priority [] = λ w. (ok false, w)
  settle_rivals app_name priority (p ∷ packages) = λ w. elim (rivalry app_name priority p) [
    | higher ↦ (ok true, w)
    | neither ↦ settle_rivals app_name priority packages w
    | lower ↦
        let (answer, w') = c.delete_package p w in
        elim answer [
          | refused e ↦ (err (wrapped (lit "deleting lower priority package") e), w')
          | deleted ↦ settle_rivals app_name priority packages w'
          | not_found ↦ settle_rivals app_name priority packages w'
        ]
  ]

  abbrev pub or_empty : Outcome Text → Text
  or_empty (ok t) = t
  or_empty (err e) = lit ""

  abbrev pub or_no_remote : Option RemoteRepositorySpec → RemoteRepositorySpec
  or_no_remote none = no_remote
  or_no_remote (some remote) = remote

  -- What the package becomes.
  unfoldable pub set_package :
      Localbuild
      → (file_path : Text) → Manifest
      → Option RemoteRepositorySpec
      → (priority : ℕ) → (source_path : Text) → CustomPackage
      → CustomPackage
  unfolding set_annotation set_cli_start_time_annotation_value get_cli_start_time_annotation_value
  set_package resource file_path o remote priority source_path p = record {
    name = p.name;
    annotations = set_annotation package_source_path_annotation source_path (
        set_annotation package_priority_annotation (c.print_int priority) (
          set_cli_start_time_annotation_value
            (or_empty (get_cli_start_time_annotation_value resource.annotations)) p.annotations));
    spec = record {
      replicate = true;
      git_server_url = resource.external_url;
      internal_git_serve_url = resource.internal_url;
      auth_secret_name = resource.admin_user_secret_name;
      auth_secret_namespace = resource.admin_user_secret_namespace;
      argo_cd = record {
        application_file = file_path;
        name = o.name;
        namespace = o.namespace;
        type = o.kind;
      };
      remote_repository = or_no_remote remote;
    };
    synced = p.synced;
  }

  abbrev pub put_answer : Option Error × World → Outcome (Unit {0}) × World
  put_answer (none, w) = (ok tt, w)
  put_answer (some e, w) = (err e, w)

  -- Once the rivals are settled.
  abbrev pub put_unless :
      (name : Text)
      → (CustomPackage → CustomPackage)
      → Outcome Bool × World
      → Outcome (Unit {0}) × World
  put_unless name change (err e, w) = (err e, w)
  put_unless name change (ok true, w) = (ok tt, w)
  put_unless name change (ok false, w) = put_answer (c.create_or_update name change w)

  -- Once the packages are listed.
  abbrev pub place_among :
      (app_name : Text)
      → (priority : ℕ) → (name : Text) → (CustomPackage → CustomPackage)
      → Outcome (List CustomPackage) × World
      → Outcome (Unit {0}) × World
  place_among app_name priority name change (err e, w) =
      (err (wrapped (lit "listing existing custom packages") e), w)
  place_among app_name priority name change (ok packages, w) =
      put_unless name change (settle_rivals app_name priority packages w)

  module _ (resource : Localbuild) where
    unfoldable pub place_package :
        (file_path : Text)
        → Option RemoteRepositorySpec
        → (priority : ℕ) → (source_path : Text) → Manifest
        → Act (Unit {0})
    unfolding settle_rivals set_package get_custom_package_name
    place_package file_path remote priority source_path o w =
        place_among o.name priority (get_custom_package_name (base_of file_path) o.name)
          (set_package resource file_path o remote priority source_path) (c.list_packages w)

    abbrev pub place_if_supported :
        (file_path : Text)
        → Option RemoteRepositorySpec
        → (priority : ℕ) → (source_path : Text) → Manifest
        → Act (Unit {0})
    place_if_supported file_path remote priority source_path o w =
        if is_supported_argo_cd_types o.gvk
        then place_package file_path remote priority source_path o w
        else (ok tt, w)

    abbrev pub reconcile_decoded :
        (file_path : Text)
        → Option RemoteRepositorySpec
        → (priority : ℕ) → (source_path : Text) → Outcome Manifest
        → Act (Unit {0})
    reconcile_decoded file_path remote priority source_path (err e) w = (err e, w)
    reconcile_decoded file_path remote priority source_path (ok o) w =
        place_if_supported file_path remote priority source_path o w

    unfoldable pub reconcile_custom_pkg :
        (bytes file_path : Text)
        → Option RemoteRepositorySpec
        → (priority : ℕ) → (source_path : Text) → Act (Unit {0})
    unfolding place_package is_supported_argo_cd_types
    reconcile_custom_pkg bytes file_path remote priority source_path =
        reconcile_decoded file_path remote priority source_path (c.decode bytes)

    -- A file of a directory; what goes wrong with it is logged.
    abbrev pub reconcile_read :
        (file_path : Text) → (priority : ℕ) → (source_path : Text) → Outcome Text → World → World
    reconcile_read file_path priority source_path (err e) w = w
    reconcile_read file_path priority source_path (ok bytes) w =
        (reconcile_custom_pkg bytes file_path none priority source_path w).1

    unfoldable pub reconcile_entries :
        (pkg_dir : Text) → (priority : ℕ) → List DirEntry → World → World
    unfolding reconcile_custom_pkg is_yaml_file
    reconcile_entries pkg_dir priority [] w = w
    reconcile_entries pkg_dir priority (file ∷ files) w =
        let path = join_paths pkg_dir file.name in
        reconcile_entries pkg_dir priority files (
          if not file.is_regular || not (is_yaml_file file.name)
          then w
          else reconcile_read path priority pkg_dir (c.read_file path w) w)

    abbrev pub reconcile_dir_read :
        (pkg_dir : Text) → (priority : ℕ) → Outcome (List DirEntry) → Act (Unit {0})
    reconcile_dir_read pkg_dir priority (err e) w =
        (err (wrapped (lit "reading dir, " ++ pkg_dir) e), w)
    reconcile_dir_read pkg_dir priority (ok files) w =
        (ok tt, reconcile_entries pkg_dir priority files w)

    unfoldable pub reconcile_custom_pkg_dir : (pkg_dir : Text) → (priority : ℕ) → Act (Unit {0})
    unfolding reconcile_entries
    reconcile_custom_pkg_dir pkg_dir priority w =
        reconcile_dir_read pkg_dir priority (c.read_dir pkg_dir w) w

    abbrev pub reconcile_file_read :
        (pkg_file : Text) → (priority : ℕ) → Outcome Text → Act (Unit {0})
    reconcile_file_read pkg_file priority (err e) w =
        (err (message (lit "reading file, " ++ pkg_file)), w)
    reconcile_file_read pkg_file priority (ok bytes) w =
        (ok tt, (reconcile_custom_pkg bytes pkg_file none priority pkg_file w).1)

    abbrev pub reconcile_file_stat :
        (pkg_file : Text) → (priority : ℕ) → Outcome Bool → Act (Unit {0})
    reconcile_file_stat pkg_file priority (err e) w =
        (err (wrapped (lit "getting file info, " ++ pkg_file) e), w)
    reconcile_file_stat pkg_file priority (ok is_regular) w =
        if not is_regular
        then (err (message (lit "file is not a regular file, " ++ pkg_file)), w)
        else if not (is_yaml_file pkg_file)
        then (err (message (lit "file is not a yaml file, " ++ pkg_file)), w)
        else reconcile_file_read pkg_file priority (c.read_file pkg_file w) w

    abbrev pub reconcile_file_open :
        (pkg_file : Text) → (priority : ℕ) → Outcome (Unit {0}) → Act (Unit {0})
    reconcile_file_open pkg_file priority (err e) w =
        (err (wrapped (lit "opening file, " ++ pkg_file) e), w)
    reconcile_file_open pkg_file priority (ok _) w =
        reconcile_file_stat pkg_file priority (c.stat_is_regular pkg_file w) w

    unfoldable pub reconcile_custom_pkg_file : (pkg_file : Text) → (priority : ℕ) → Act (Unit {0})
    unfolding reconcile_custom_pkg is_yaml_file
    reconcile_custom_pkg_file pkg_file priority w =
        reconcile_file_open pkg_file priority (c.open_file pkg_file w) w

    abbrev pub after_last :
        (step : Act (Unit {0})) → Outcome (Unit {0}) × World → Outcome (Unit {0}) × World
    after_last step (err e, w) = (err e, w)
    after_last step (ok _, w) = step w

    -- A loop from the last element to the first, with the index of each; `i` is that of the first.
    unfoldable pub from_last :
        (step : Text → ℕ → Act (Unit {0})) → (i : ℕ) → List Text → Act (Unit {0})
    from_last step i [] = λ w. (ok tt, w)
    from_last step i (s ∷ paths) = λ w. after_last (step s i) (from_last step (suc i) paths w)
