-- ===== src/Stacks/Bootstrap.antt =====
-- Which files of a snapshot are copied again into the cache, when a bootstrap rewrites the image
-- pins of some of them there: planCacheReconcileFiles of sync.go and the hashes that it compares.
pub mod Laws
use idpbuilder.Base.{
  Bool, true, false, ℕ, List, [], ◌∷◌, ◌++◌, ◌&&◌, ◌||◌, not, Option, none, some, if◌then◌else◌,
  Outcome, ok, err, Error, wrapped, select, any,
}
use idpbuilder.Base.Text.{Text, ◌==◌, lit, has_prefix, has_suffix}
use idpbuilder.Stacks.Paths.{base_of}

unfoldable pub is_kustomization_file_name : Text → Bool
is_kustomization_file_name name =
    name == lit "kustomization.yaml"
    || name == lit "kustomization.yml"
    || name == lit "Kustomization"

unfoldable pub is_bootstrap_rewrite_input_path : Text → Bool
unfolding is_kustomization_file_name
is_bootstrap_rewrite_input_path file =
    if file == lit "packages/components/hub-spoke-appsets/release-pins/workflow-builder-images.yaml"
    then true
    else has_prefix file (lit "packages/components/active-development/manifests/")
      && is_kustomization_file_name (base_of file)

unfoldable pub should_rewrite_bootstrap_image_pins : List Text → Bool
unfolding is_bootstrap_rewrite_input_path any
should_rewrite_bootstrap_image_pins touched = any is_bootstrap_rewrite_input_path touched

-- The hashes that the metadata keeps of a file.
pub record MetadataEntry : Type 0 where
  pub source_hash : Text
  pub cache_hash : Text

abbrev pub no_entry : MetadataEntry
no_entry = record { source_hash = lit ""; cache_hash = lit "" }

abbrev pub Metadata : Type 0
Metadata = List (Text × MetadataEntry)

-- `metadata[file]`, the zero entry where there is none.
unfoldable pub entry_of : Text → Metadata → MetadataEntry
entry_of file [] = no_entry
entry_of file ((name, entry) ∷ metadata) =
    let later = entry_of file metadata in if file == name then entry else later

-- `metadata[file] = entry`
unfoldable pub put_entry : Text → MetadataEntry → Metadata → Metadata
put_entry file entry [] = (file, entry) ∷ []
put_entry file entry ((name, old) ∷ metadata) =
    let later = put_entry file entry metadata in
    if file == name then (file, entry) ∷ metadata else (name, old) ∷ later

-- What os.ReadFile returns: `missing` is an error that is os.ErrNotExist.
pub data Read : Type 0 where
  contents : List ℕ → Read
  missing : Error → Read
  unreadable : Error → Read

-- The two trees and the metadata file of the cache, with crypto/sha256 in hexadecimal and the
-- decoder of the metadata.
pub record Trees : Type 0 where
  pub source : Text → Read
  pub cache : Text → Read
  pub metadata_file : Read
  pub sha256_hex : List ℕ → Text
  pub parse_metadata : List ℕ → Outcome Metadata

module _ (trees : Trees) where
  open trees use {source, cache, metadata_file, sha256_hex, parse_metadata}

  unfoldable pub load_bootstrap_rewrite_metadata : Outcome Metadata
  load_bootstrap_rewrite_metadata = elim metadata_file [
    | missing e ↦ ok []
    | unreadable e ↦ err (wrapped (lit "reading bootstrap rewrite metadata") e)
    | contents bytes ↦ elim (parse_metadata bytes) [
      | err e ↦ err (wrapped (lit "parsing bootstrap rewrite metadata") e)
      | ok metadata ↦ ok metadata
    ]
  ]

  -- `hashSnapshotPath` in one of the trees, whose read is given.
  abbrev pub hash_of : Text → Read → Outcome Text
  hash_of file (contents bytes) = ok (sha256_hex bytes)
  hash_of file (missing e) = err (wrapped (lit "reading " ++ file) e)
  hash_of file (unreadable e) = err (wrapped (lit "reading " ++ file) e)

  -- Whether the cache holds what the metadata says; an error other than that the file is missing
  -- is returned.
  abbrev pub cache_matches : (file : Text) → MetadataEntry → Read → Outcome Bool
  cache_matches file entry (contents bytes) = ok (entry.cache_hash == sha256_hex bytes)
  cache_matches file entry (missing e) = ok false
  cache_matches file entry (unreadable e) = err (wrapped (lit "reading " ++ file) e)

  -- Whether a file that the bootstrap rewrites is left as the cache has it.
  abbrev pub is_kept : (file : Text) → MetadataEntry → Read → Outcome Bool
  is_kept file entry (missing e) = err (wrapped (lit "reading " ++ file) e)
  is_kept file entry (unreadable e) = err (wrapped (lit "reading " ++ file) e)
  is_kept file entry (contents bytes) =
      if entry.source_hash == sha256_hex bytes
      then cache_matches file entry (cache file)
      else ok false

  -- The files to copy, and whether the rewrite is forced.
  abbrev pub Plan : Type 0
  Plan = List Text × Bool

  abbrev pub add_input : (file : Text) → Outcome Bool → Outcome Plan → Outcome Plan
  add_input file (err e) rest = err e
  add_input file (ok true) rest = rest
  add_input file (ok false) (err e) = err e
  add_input file (ok false) (ok (files, force)) = ok (file ∷ files, true)

  abbrev pub add_other : (file : Text) → Outcome Plan → Outcome Plan
  add_other file (err e) = err e
  add_other file (ok (files, force)) = ok (file ∷ files, force)

  -- The loop over the files.
  unfoldable pub plan_files : Metadata → List Text → Outcome Plan
  plan_files metadata [] = ok ([], false)
  plan_files metadata (file ∷ files) =
      let rest = plan_files metadata files in
      if not (is_bootstrap_rewrite_input_path file)
      then add_other file rest
      else add_input file (is_kept file (entry_of file metadata) (source file)) rest

  abbrev pub or_empty : Outcome Metadata → Metadata
  or_empty (ok metadata) = metadata
  or_empty (err e) = []

  unfoldable pub plan_cache_reconcile_files : (rewrite : Bool) → List Text → Outcome Plan
  unfolding load_bootstrap_rewrite_metadata plan_files
  plan_cache_reconcile_files rewrite files =
      if not rewrite
      then ok (files, false)
      else plan_files (or_empty load_bootstrap_rewrite_metadata) files

  abbrev pub add_hashes :
      (file : Text) → (source_hash cache_hash : Outcome Text) → Metadata → Outcome Metadata
  add_hashes file (err e) cache_hash metadata = err e
  add_hashes file (ok s) (err e) metadata = err e
  add_hashes file (ok s) (ok c) metadata =
      ok (put_entry file (record { source_hash = s; cache_hash = c }) metadata)

  abbrev pub then_metadata : Outcome Metadata → (Metadata → Outcome Metadata) → Outcome Metadata
  then_metadata (err e) f = err e
  then_metadata (ok metadata) f = f metadata

  -- The loop of `saveBootstrapRewriteMetadata`, up to the metadata that it writes.
  unfoldable pub collect_metadata : List Text → Metadata → Outcome Metadata
  unfolding put_entry
  collect_metadata [] metadata = ok metadata
  collect_metadata (file ∷ files) metadata =
      let rest = collect_metadata files in
      if not (is_bootstrap_rewrite_input_path file)
      then rest metadata
      else then_metadata
          (add_hashes file (hash_of file (source file)) (hash_of file (cache file)) metadata) rest
