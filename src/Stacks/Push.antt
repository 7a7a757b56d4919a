-- ===== src/Stacks/Push.antt =====
-- The push of a snapshot: snapshotFiles, forceAddSnapshotFiles and pushSnapshotToRemote of sync.go.
-- Git is the Shell of the cache; the files of both trees, the operating system about them and the
-- script that rewrites image pins are parameters that a state of the machine determines.
pub mod Laws
use idpbuilder.Base.{
  Bool, true, false, ℕ, List, [], ◌∷◌, ◌++◌, ◌&&◌, ◌||◌, not, Option, none, some, if◌then◌else◌,
  map, Outcome, ok, err, Error, message, wrapped,
}
use idpbuilder.Base.Order.{sort_strings}
use idpbuilder.Base.Text.{Text, ◌==◌, lit, split, has_prefix, trim_space}
use idpbuilder.Stacks.Paths.{clean, is_abs}
use idpbuilder.Stacks.Changes.{staged_changed_files}
use idpbuilder.Stacks.Files.{
  Entries, Found, missing, blocked, is_directory, found, look, FilePath, not_a_directory,
}
use idpbuilder.Stacks.Worktree.Reconcile.{Os, reconcile_cache_worktree}
use idpbuilder.Stacks.Bootstrap.{
  Trees, plan_cache_reconcile_files, should_rewrite_bootstrap_image_pins, collect_metadata,
  Metadata,
}
use idpbuilder.Stacks.Cache.{Shell, CacheOptions, Act, prepare_sync_cache, run}

-- What `snapshotFiles` does with one part of the output of git ls-files.
pub data Part : Type 0 where
  skipped : Part
  kept : (file : Text) → Part
  refused : Error → Part

abbrev pub repo_path : Text → FilePath
repo_path file = split 47 file

abbrev pub keep_found : (file : Text) → Found → Part
keep_found file missing = skipped
keep_found file blocked = refused (wrapped (lit "stat " ++ file) not_a_directory)
keep_found file is_directory = skipped
keep_found file (found l) = kept file

unfoldable pub snapshot_part : (source : Entries) → (part : Text) → Part
snapshot_part source part =
    let file = clean part in
    if part == lit ""
    then skipped
    else if file == lit "." || is_abs file || has_prefix file (lit "../") || file == lit ".."
    then refused (message (lit "unsafe git path " ++ part))
    else keep_found file (look source (repo_path file))

abbrev pub add_part : Part → Outcome (List Text) → Outcome (List Text)
add_part skipped files = files
add_part (refused e) files = err e
add_part (kept file) (err e) = err e
add_part (kept file) (ok files) = ok (file ∷ files)

unfoldable pub collect_parts : (source : Entries) → List Text → Outcome (List Text)
unfolding snapshot_part
collect_parts source [] = ok []
collect_parts source (part ∷ parts) =
    add_part (snapshot_part source part) (collect_parts source parts)

abbrev pub sorted : Outcome (List Text) → Outcome (List Text)
sorted (err e) = err e
sorted (ok files) = ok (sort_strings files)

-- `listed` is the output of git ls-files.
unfoldable pub snapshot_files : (source : Entries) → (listed : Outcome Text) → Outcome (List Text)
unfolding collect_parts
snapshot_files source (err e) = err e
snapshot_files source (ok out) = sorted (collect_parts source (split 0 out))

pub record PushOptions : Type 0 where
  pub cache_options : CacheOptions
  pub rewrite_bootstrap_image_pins : Bool

-- What a push returns of a syncResult.
pub record Pushed : Type 0 where
  pub commit : Text
  pub changed_files : List Text
  pub noop : Bool

abbrev pub nothing_pushed : Pushed
nothing_pushed = record { commit = lit ""; changed_files = []; noop = true }

-- The machine of the sync beyond git in the cache.
pub record Workspace (h : Shell) : Type 0 where
  -- `git ls-files -z --cached --others --exclude-standard` in the repository of the stacks.
  pub list_files : h.World → Outcome Text × h.World
  pub source : h.World → Entries
  pub cache : h.World → Entries
  pub set_cache : Entries → h.World → h.World
  pub os : h.World → Os
  -- The files that a reconciliation of the cache leaves where it fails.
  pub interrupted : h.World → Entries
  -- What the plan of the bootstrap reads.
  pub trees : h.World → Trees
  -- The file of the metadata is written; its error is dropped.
  pub save : Metadata → h.World → h.World
  -- The script that rewrites the image pins of the cache.
  pub rewrite_pins : h.World → Option Error × h.World
  -- A temporary file of paths is written for git.
  pub write_pathspec : List Text → h.World → Outcome Text × h.World
  -- The time for the message of the commit.
  pub timestamp : h.World → Text

module _ (h : Shell) (m : Workspace h) (o : PushOptions) where
  open h use {World}

  infixl 5 ◌>>=◌ ◌>>◌
  abbrev pub ◌>>=◌ : {A B : Type 0} → Act h A → (A → Act h B) → Act h B
  ◌>>=◌ first rest w =
      let (answer, w') = first w in elim answer [ err e ↦ (err e, w') | ok a ↦ rest a w' ]

  abbrev pub ◌>>◌ : {A B : Type 0} → Act h A → Act h B → Act h B
  first >> rest = first >>= λ _. rest

  abbrev pub done : {A : Type 0} → A → Act h A
  done a w = (ok a, w)

  unfoldable pub list_snapshot : Act h (List Text)
  unfolding snapshot_files
  list_snapshot w = let (listed, w') = m.list_files w in (snapshot_files (m.source w') listed, w')

  unfoldable pub plan_files_now : (files : List Text) → Act h (List Text × Bool)
  plan_files_now files w =
      (plan_cache_reconcile_files (m.trees w) o.rewrite_bootstrap_image_pins files, w)

  abbrev pub store : Outcome (Entries × List Text) → World → Outcome (List Text) × World
  store (err e) w = (err e, m.set_cache (m.interrupted w) w)
  store (ok (dst, touched)) w = (ok touched, m.set_cache dst w)

  unfoldable pub reconcile_cache : (files wanted_files : List Text) → Act h (List Text)
  unfolding reconcile_cache_worktree
  reconcile_cache files wanted_files w =
      store
        (reconcile_cache_worktree (m.os w) (m.source w) (m.cache w) (map repo_path files)
          (map repo_path wanted_files))
        w

  abbrev pub outcome_of : Option Error → Outcome (Unit {0})
  outcome_of none = ok tt
  outcome_of (some e) = err e

  abbrev pub rewrite : Act h (Unit {0})
  rewrite w = let (failure, w') = m.rewrite_pins w in (outcome_of failure, w')

  -- The hashes that the code takes before and after are for a warning.
  unfoldable pub rewrite_if_needed : (force : Bool) → (touched : List Text) → Act h (Unit {0})
  unfolding should_rewrite_bootstrap_image_pins
  rewrite_if_needed force touched w =
      if o.rewrite_bootstrap_image_pins && (force || should_rewrite_bootstrap_image_pins touched)
      then rewrite w
      else done tt w

  abbrev pub add_listed : (pathspec : Text) → Act h (Unit {0})
  add_listed pathspec = run h (
      lit "add"
      ∷ lit "-A"
      ∷ lit "--force"
      ∷ (lit "--pathspec-from-file=" ++ pathspec)
      ∷ lit "--pathspec-file-nul"
      ∷ [])

  unfoldable pub force_add_snapshot_files : List Text → Act h (Unit {0})
  force_add_snapshot_files [] = done tt
  force_add_snapshot_files (file ∷ files) = m.write_pathspec (file ∷ files) >>= add_listed

  abbrev pub output : List Text → Act h Text
  output args w = h.git_output args w

  unfoldable pub list_staged : Act h (List Text)
  list_staged w =
      let (out, w') =
        h.git_output (lit "diff" ∷ lit "--cached" ∷ lit "--name-only" ∷ lit "-z" ∷ []) w in
      (staged_changed_files out, w')

  abbrev pub save_if_ok : Outcome Metadata → World → World
  save_if_ok (err e) w = w
  save_if_ok (ok metadata) w = m.save metadata w

  -- `_ = saveBootstrapRewriteMetadata(...)`
  unfoldable pub save_metadata : (files : List Text) → Act h (Unit {0})
  unfolding collect_metadata
  save_metadata files w =
      if o.rewrite_bootstrap_image_pins
      then done tt (save_if_ok (collect_metadata (m.trees w) files []) w)
      else done tt w

  abbrev pub target : Text
  target = lit "HEAD:refs/heads/" ++ o.cache_options.branch

  abbrev pub forced_args : List Text
  forced_args = lit "push" ∷ lit "--force" ∷ lit "origin" ∷ target ∷ []

  abbrev pub push_args : List Text
  push_args =
      if o.cache_options.reset_local_history
      then forced_args
      else lit "push" ∷ lit "origin" ∷ target ∷ []

  abbrev pub push_failed : Outcome Text → Outcome Text
  push_failed (ok out) = ok out
  push_failed (err e) = err (
      if not o.cache_options.reset_local_history
      then wrapped
          (lit
            "Refusing non-fast-forward push; run with --reset-local-history to replace local Gitea history")
          e
      else e)

  unfoldable pub push_commit : Act h Text
  push_commit w = let (out, w') = h.git_output push_args w in (push_failed out, w')

  abbrev pub commit_staged : Act h (Unit {0})
  commit_staged w =
      run h (lit "commit" ∷ lit "-m" ∷ (lit "sync stacks snapshot " ++ m.timestamp w) ∷ []) w

  -- Where something is staged.
  unfoldable pub commit_and_push : (files changed : List Text) → Act h Pushed
  unfolding push_commit save_metadata
  commit_and_push files changed = do
    commit_staged
    commit ← output (lit "rev-parse" ∷ lit "HEAD" ∷ [])
    push_commit
    save_metadata files
    done (record { commit = trim_space commit; changed_files = changed; noop = false })

  abbrev pub push_changed : (files changed : List Text) → Act h Pushed
  push_changed files [] = save_metadata files >> done nothing_pushed
  push_changed files (c ∷ changed) = commit_and_push files (c ∷ changed)

  unfoldable pub push_snapshot_to_remote : (remote : Text) → Act h Pushed
  unfolding list_snapshot prepare_sync_cache plan_files_now reconcile_cache rewrite_if_needed
      force_add_snapshot_files list_staged commit_and_push
  push_snapshot_to_remote remote = do
    files ← list_snapshot
    prepare_sync_cache h remote o.cache_options
    plan ← plan_files_now files
    touched ← reconcile_cache plan.0 files
    rewrite_if_needed plan.1 touched
    run h (lit "add" ∷ lit "-A" ∷ [])
    force_add_snapshot_files files
    changed ← list_staged
    push_changed files changed
