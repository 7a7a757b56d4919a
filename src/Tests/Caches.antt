-- ===== src/Tests/Caches.antt =====
-- The theorems on the cache of the sync at small machines.
use idpbuilder.Base.{
  ◌≡◌, ◌≢◌, refl, true, false, List, [], ◌∷◌, not, none, ok, message, select, any,
}
use idpbuilder.Base.Text.{Text, lit, has_byte, has_prefix, ◌==◌, cut, trim_left}
use idpbuilder.Stacks.Paths.{base_of}
use idpbuilder.Stacks.Cache.{Shell, CacheOptions, present, exit, safe_cache_segment}
use idpbuilder.Stacks.Cache.Laws.{safe_cache_segment_names}
use idpbuilder.Stacks.Bootstrap.{
  Trees, Metadata, contents, missing, plan_files, collect_metadata, is_bootstrap_rewrite_input_path,
  entry_of,
}
use idpbuilder.Stacks.Bootstrap.Laws.{
  plan_files_exact, plan_files-collect_metadata, is_copied, is_stale,
}

-- Git succeeds at everything, but finds no reference and no head.
abbrev bare : Shell
bare = record {
  World = Unit {0};
  place = lit "/cache";
  stat_git = λ w. (present, w);
  remove_cache = λ w. (none, w);
  make_parent = λ w. (none, w);
  clone = λ remote w. (none, w);
  git = λ args w. (none, w);
  git_output = λ args w. (ok [], w);
  rev_parse = λ ref w. (exit 1 [], w);
  nanoseconds = λ w. lit "17";
}

abbrev cache_options : CacheOptions
cache_options = record {
  cache_dir = lit "";
  cluster_name = lit "dev";
  gitea_owner = lit "giteaAdmin";
  gitea_repo = lit "stacks";
  branch = lit "main";
  reset_local_history = false;
}

safe_cache_segment_names_example :
    (safe_cache_segment (lit " .. ") ≢ lit "")
    × (safe_cache_segment (lit " .. ") ≢ lit ".")
    × (safe_cache_segment (lit " .. ") ≢ lit "..")
    × (has_byte 47 (safe_cache_segment (lit " .. ")) ≡ false)
    × (has_byte 92 (safe_cache_segment (lit " .. ")) ≡ false)
safe_cache_segment_names_example = safe_cache_segment_names (lit " .. ")

abbrev pinned : Text
pinned = lit "packages/components/active-development/manifests/a/kustomization.yaml"

abbrev both : List Text
both = lit "README.md" ∷ pinned ∷ []

-- Every file of the snapshot holds "s" and every file of the cache "c".
abbrev trees : Trees
trees = record {
  source = λ file. contents (lit "s");
  cache = λ file. contents (lit "c");
  metadata_file = missing (message (lit "no such file"));
  sha256_hex = λ bytes. bytes;
  parse_metadata = λ bytes. ok [];
}

abbrev saved : Metadata
saved = (pinned, record { source_hash = lit "s"; cache_hash = lit "c" }) ∷ []

saved_hashes : collect_metadata trees both [] ≡ ok saved
unfolding collect_metadata is_bootstrap_rewrite_input_path ◌==◌ has_prefix base_of cut trim_left
saved_hashes = refl

plan_files-collect_metadata_example :
    plan_files trees saved both
    ≡ ok (select (λ f. not (is_bootstrap_rewrite_input_path f)) both, false)
plan_files-collect_metadata_example = plan_files-collect_metadata trees both saved saved_hashes

all_copied : plan_files trees [] both ≡ ok (both, true)
unfolding plan_files is_bootstrap_rewrite_input_path ◌==◌ has_prefix base_of cut trim_left entry_of
all_copied = refl

plan_files_exact_example :
    (both ≡ select (is_copied trees []) both) × (true ≡ any (is_stale trees []) both)
plan_files_exact_example = plan_files_exact trees [] both both true all_copied
