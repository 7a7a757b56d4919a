-- ===== src/Tests/Snapshots.antt =====
-- The theorems on the cache and its push at small trees of files.
use idpbuilder.Base.{
  ◌≡◌, ◌≢◌, refl, ap, ◌∙◌, ◌||◌, ◌&&◌, Bool, false, List, [], ◌∷◌, none, ok, err, inl, inr,
  Bool-cases, arith, message,
}
use idpbuilder.Base.Text.{Text, lit, ◌==◌, ==_iff, join}
use idpbuilder.Base.Order.{sort_strings}
use idpbuilder.Base.Order
use idpbuilder.Stacks.Names.{sorted_unique_strings}
use idpbuilder.Stacks.Files.{
  FilePath, regular, symlink, Entries, no_entries, leaf, directory, leaf_at, look, make_dirs, write,
  remove_empty, same_path, has_name, IsFileTree,
}
use idpbuilder.Stacks.Files.Laws.{same_path_iff}
use idpbuilder.Stacks.Bootstrap.{Trees}
use idpbuilder.Stacks.Bootstrap
use idpbuilder.Stacks.Cache.{Shell, present, exit}
use idpbuilder.Stacks.Worktree.{is_wanted, regular_files_equal}
use idpbuilder.Stacks.Worktree.Walks.{clear}
use idpbuilder.Stacks.Worktree.Reconcile.{Os, reconcile_cache_worktree}
use idpbuilder.Stacks.Worktree.Matching.{overwrites_link}
use idpbuilder.Stacks.Worktree.Exact.{AvoidsLinks, HoldsSnapshot, reconcile_cache_worktree_exact}
use idpbuilder.Stacks.Worktree.Compare.{regular_files_equal-eq}
use idpbuilder.Stacks.Worktree.Links.{reconcile_cache_worktree-link_fails}
use idpbuilder.Stacks.Push.{Workspace, PushOptions, push_snapshot_to_remote}
use idpbuilder.Stacks.Push.Laws.{IsPlain, Withstands, push_snapshot_to_remote_unforced}

-- No call fails for a reason of its own, and links are not written through.
abbrev calm : Os
calm = record {
  faults = λ call p. none;
  write_through = λ p l t. err (message (lit "too many links"));
}

abbrev file_a : FilePath
file_a = lit "a" ∷ []

abbrev link_b : FilePath
link_b = lit "d" ∷ lit "b" ∷ []

abbrev snapshot : Entries
snapshot =
    leaf (lit "a") (regular (1 ∷ 2 ∷ []) 420 5)
      (directory (lit "d") (leaf (lit "b") (symlink (lit "../a")) no_entries) no_entries)

abbrev old_cache : Entries
old_cache =
    leaf (lit "a") (regular (9 ∷ []) 420 1)
      (leaf (lit "stale") (regular [] 420 1) (directory (lit "empty") no_entries no_entries))

abbrev snapshot_paths : List FilePath
snapshot_paths = file_a ∷ link_b ∷ []

reconciled :
    reconcile_cache_worktree calm snapshot old_cache snapshot_paths snapshot_paths
    ≡ ok (snapshot, lit "a" ∷ lit "d/b" ∷ lit "stale" ∷ [])
unfolding reconcile_cache_worktree ◌==◌ same_path look make_dirs write join remove_empty
    sorted_unique_strings sort_strings Order.text_lt
reconciled = refl

avoids : AvoidsLinks calm snapshot snapshot_paths old_cache
unfolding is_wanted look ◌==◌
avoids q h = elim (Bool-cases (same_path q file_a)) [
  | inl e ↦
      ap (λ x. overwrites_link (leaf_at snapshot x) (leaf_at old_cache x))
        ((same_path_iff q file_a).0 e)
  | inr e ↦ elim (Bool-cases (same_path q link_b)) [
    | inl f ↦
        ap (λ x. overwrites_link (leaf_at snapshot x) (leaf_at old_cache x))
          ((same_path_iff q link_b).0 f)
    | inr f ↦ absurd (ground (arith, e, f, h))
  ]
]

old_cache-IsFileTree : IsFileTree old_cache
unfolding has_name ◌==◌
old_cache-IsFileTree = (refl, (refl, (refl, tt, tt)))

reconcile_cache_worktree_exact_example :
    IsFileTree snapshot
    × HoldsSnapshot calm snapshot snapshot_paths snapshot_paths old_cache snapshot
reconcile_cache_worktree_exact_example =
    reconcile_cache_worktree_exact calm snapshot old_cache snapshot snapshot_paths snapshot_paths
      (lit "a" ∷ lit "d/b" ∷ lit "stale" ∷ []) old_cache-IsFileTree avoids reconciled

-- The cache has a link that leads elsewhere.
abbrev retargeted : Entries
retargeted = directory (lit "d") (leaf (lit "b") (symlink (lit ".")) no_entries) no_entries

retargeted-avoids : AvoidsLinks calm snapshot (link_b ∷ []) retargeted
unfolding is_wanted look ◌==◌
retargeted-avoids q h = elim (Bool-cases (same_path q link_b)) [
  | inl f ↦
      ap (λ x. overwrites_link (leaf_at snapshot x) (leaf_at retargeted x))
        ((same_path_iff q link_b).0 f)
  | inr f ↦ absurd (ground (arith, f, h))
]

retargeted-IsFileTree : IsFileTree retargeted
unfolding has_name
retargeted-IsFileTree = (refl, (refl, tt), tt)

links_differ : symlink (lit ".") ≢ symlink (lit "../a")
links_differ e = cc

reconcile_cache_worktree-link_fails_example :
    reconcile_cache_worktree calm snapshot retargeted (link_b ∷ []) (link_b ∷ [])
    ≢ ok (snapshot, lit "d/b" ∷ [])
unfolding is_wanted look ◌==◌ same_path clear
reconcile_cache_worktree-link_fails_example =
    reconcile_cache_worktree-link_fails calm snapshot link_b (lit "../a") retargeted snapshot
      (link_b ∷ []) (link_b ∷ []) (lit "d/b" ∷ []) (lit "d") (lit "b" ∷ []) (symlink (lit ".")) refl
      retargeted-IsFileTree retargeted-avoids refl refl refl refl refl links_differ

-- A machine that remembers whether a push with --force was made.
abbrev is_forced : List Text → Bool
is_forced [] = false
is_forced (word ∷ []) = false
is_forced (word ∷ flag ∷ args) = word == lit "push" && flag == lit "--force"

abbrev recorder : Shell
recorder = record {
  World = Bool;
  place = lit "/cache";
  stat_git = λ w. (present, w);
  remove_cache = λ w. (none, w);
  make_parent = λ w. (none, w);
  clone = λ remote w. (none, w);
  git = λ args w. (none, w || is_forced args);
  git_output = λ args w. (ok (lit "a"), w || is_forced args);
  rev_parse = λ ref w. (exit 0 (lit "c0ffee"), w);
  nanoseconds = λ w. lit "17";
}

abbrev no_reads : Trees
no_reads = record {
  source = λ p. Bootstrap.missing (message (lit "no such file"));
  cache = λ p. Bootstrap.missing (message (lit "no such file"));
  metadata_file = Bootstrap.missing (message (lit "no such file"));
  sha256_hex = λ bytes. bytes;
  parse_metadata = λ bytes. ok [];
}

abbrev workspace : Workspace recorder
workspace = record {
  list_files = λ w. (ok (lit "a"), w);
  source = λ w. snapshot;
  cache = λ w. no_entries;
  set_cache = λ t w. w;
  os = λ w. calm;
  interrupted = λ w. no_entries;
  trees = λ w. no_reads;
  save = λ metadata w. w;
  rewrite_pins = λ w. (none, w);
  write_pathspec = λ files w. (ok (lit "/tmp/paths"), w);
  timestamp = λ w. lit "2024-01-01T00:00:00Z";
}

abbrev push_options : Bool → PushOptions
push_options reset = record {
  cache_options = record {
    cache_dir = lit "";
    cluster_name = lit "dev";
    gitea_owner = lit "giteaAdmin";
    gitea_repo = lit "stacks";
    branch = lit "main";
    reset_local_history = reset;
  };
  rewrite_bootstrap_image_pins = false;
}

plain-is_forced :
    (args : List Text) (w : Bool)
    → IsPlain recorder workspace (push_options false) args
    → w ≡ false
    → (w || is_forced args) ≡ false
unfolding ◌==◌
plain-is_forced [] w p e = ground (arith, e)
plain-is_forced (word ∷ []) w p e = ground (arith, e)
plain-is_forced (word ∷ flag ∷ args) w (inl p) e =
    ap (λ x. x || is_forced (word ∷ flag ∷ args)) e ∙ ap is_forced p
plain-is_forced (word ∷ flag ∷ args) w (inr p) e = elim (Bool-cases (word == lit "push")) [
  | inl f ↦ absurd (p (flag ∷ args) (ap (λ x. x ∷ flag ∷ args) ((==_iff word (lit "push")).0 f)))
  | inr f ↦ ground (arith, e, f)
]

recorder-withstands : Withstands recorder workspace (push_options false) (λ w. w ≡ false)
recorder-withstands = record {
  stat_git = λ w p. p;
  remove_cache = λ w p. p;
  make_parent = λ w p. p;
  clone = λ remote w p. p;
  git = λ args w q p. plain-is_forced args w q p;
  git_output = λ args w q p. plain-is_forced args w q p;
  rev_parse = λ ref w p. p;
  list_files = λ w p. p;
  set_cache = λ t w p. p;
  save = λ metadata w p. p;
  rewrite_pins = λ w p. p;
  write_pathspec = λ files w p. p;
}

push_snapshot_to_remote_unforced_example :
    (push_snapshot_to_remote recorder workspace
      (push_options false)
      (lit "http://gitea/stacks.git")
      false).1
    ≡ false
push_snapshot_to_remote_unforced_example =
    push_snapshot_to_remote_unforced recorder workspace (push_options false) (λ w. w ≡ false)
      recorder-withstands refl (lit "http://gitea/stacks.git") false refl

regular_files_equal-eq_example :
    regular_files_equal (lit "a: 1") (lit "a: 2") ≡ (lit "a: 1" == lit "a: 2")
regular_files_equal-eq_example = regular_files_equal-eq (lit "a: 1") (lit "a: 2")
