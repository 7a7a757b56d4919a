-- ===== src/Stacks/Worktree/Reconcile.antt =====
-- The files of a snapshot are brought into the cache of the sync: reconcileCacheWorktree,
-- snapshotPathMatches and copySnapshotPath of sync.go.
use idpbuilder.Base.{
  Bool, true, false, List, [], ◌∷◌, ◌++◌, ◌||◌, not, Option, none, some, if◌then◌else◌, map, length,
  eqb, Outcome, ok, err, message, ◌>>=◌,
}
use idpbuilder.Base.Text.{Text, ◌==◌, lit}
use idpbuilder.Stacks.Names.{sorted_unique_strings}
use idpbuilder.Stacks.Files.{
  FilePath, Leaf, regular, symlink, irregular, Entries, Found, missing, blocked, is_directory,
  found, look, make_dirs, write, not_a_directory,
}
use idpbuilder.Stacks.Worktree.{
  Faults, lstat_source, lstat_cache, read_source, read_cache, write_cache, unless,
  regular_files_equal, remove_stale_cache_paths, remove_empty_cache_dirs, text_of,
}

-- The faults of the operating system, and what a write does at a path where a link or a device
-- stands: it goes to what that leads to.
pub record Os : Type 0 where
  pub faults : Faults
  pub write_through : FilePath → Leaf → Entries → Outcome Entries

-- The leaf that os.Lstat finds in the source. A directory is of no mode that is copied.
unfoldable pub source_leaf : Found → Outcome Leaf
source_leaf missing = err (message (lit "no such file or directory"))
source_leaf blocked = err not_a_directory
source_leaf is_directory = ok irregular
source_leaf (found l) = ok l

-- Whether two leaves match, and the leaf to set in the cache where its mode and time are set.
unfoldable pub match_leaf : (source cache : Leaf) → Outcome (Bool × Option Leaf)
unfolding regular_files_equal
match_leaf irregular cache = err (message (lit "unsupported snapshot file mode"))
match_leaf (symlink target) (symlink target') = ok (target == target', none)
match_leaf (symlink target) (regular bytes perm mtime) = ok (false, none)
match_leaf (symlink target) irregular = ok (false, none)
match_leaf (regular bytes perm mtime) (symlink target) = ok (false, none)
match_leaf (regular bytes perm mtime) irregular = ok (false, none)
match_leaf (regular bytes perm mtime) (regular bytes' perm' mtime') =
    if not (eqb perm perm') || not (eqb (length bytes) (length bytes'))
    then ok (false, none)
    else if not (regular_files_equal bytes bytes')
    then ok (false, none)
    else ok (true, some (regular bytes' perm mtime))

-- The same against what os.Lstat finds in the cache.
unfoldable pub match_found : (source : Leaf) → Found → Outcome (Bool × Option Leaf)
unfolding match_leaf
match_found l missing = ok (false, none)
match_found l blocked = err not_a_directory
match_found irregular is_directory = err (message (lit "unsupported snapshot file mode"))
match_found (symlink target) is_directory = ok (false, none)
match_found (regular bytes perm mtime) is_directory = ok (false, none)
match_found l (found c) = match_leaf l c

-- The directory that holds a path.
unfoldable pub parent : FilePath → FilePath
parent [] = []
parent (n ∷ []) = []
parent (n ∷ m ∷ p) = n ∷ parent (m ∷ p)

module _ (os : Os) (src : Entries) where
  open os use {faults, write_through}

  -- os.Lstat of the source.
  abbrev pub stat_leaf : FilePath → Outcome Leaf
  stat_leaf rel = unless (faults lstat_source rel) (source_leaf (look src rel))

  abbrev pub settle : FilePath → Entries → Bool × Option Leaf → Outcome (Bool × Entries)
  settle rel dst (same, none) = ok (same, dst)
  settle rel dst (same, some l) =
      unless (faults write_cache rel) (write dst rel l) >>= λ dst'. ok (same, dst')

  -- Once the source is found.
  abbrev pub compare_leaf : FilePath → Entries → Leaf → Outcome (Bool × Entries)
  compare_leaf rel dst l =
      unless (faults lstat_cache rel) (
        unless (faults read_source rel)
          (unless (faults read_cache rel) (match_found l (look dst rel))))
      >>= settle rel dst

  unfoldable pub snapshot_path_matches : FilePath → Entries → Outcome (Bool × Entries)
  unfolding source_leaf match_found
  snapshot_path_matches rel dst = stat_leaf rel >>= compare_leaf rel dst

  -- os.Symlink, which makes a link where nothing stands.
  abbrev pub make_link : FilePath → Leaf → Entries → Found → Outcome Entries
  make_link rel l dst missing = write dst rel l
  make_link rel l dst blocked = err not_a_directory
  make_link rel l dst is_directory = err (message (lit "file exists"))
  make_link rel l dst (found c) = err (message (lit "file exists"))

  -- os.OpenFile with O_CREATE and O_TRUNC, the copy, and the mode and the time of the result.
  abbrev pub make_file : FilePath → Leaf → Entries → Found → Outcome Entries
  make_file rel l dst missing = write dst rel l
  make_file rel l dst blocked = err not_a_directory
  make_file rel l dst is_directory = err (message (lit "is a directory"))
  make_file rel l dst (found (regular bytes perm mtime)) = write dst rel l
  make_file rel l dst (found (symlink target)) = write_through rel l dst
  make_file rel l dst (found irregular) = write_through rel l dst

  -- What a device, a pipe or a socket yields is not modelled: of such a source the copy fails, where
  -- the code copies what it reads of it, unless it cannot be opened.
  unfoldable pub place : FilePath → Leaf → Entries → Outcome Entries
  place rel (symlink target) dst = make_link rel (symlink target) dst (look dst rel)
  place rel (regular bytes perm mtime) dst =
      make_file rel (regular bytes perm mtime) dst (look dst rel)
  place rel irregular dst = err (message (lit "is a directory"))

  abbrev pub place_read : FilePath → Leaf → Entries → Outcome Entries
  place_read rel l dst = unless (faults read_source rel) (place rel l dst)

  -- Once the source is found.
  abbrev pub copy_leaf : FilePath → Entries → Leaf → Outcome Entries
  copy_leaf rel dst l =
      unless (faults write_cache rel) (make_dirs dst (parent rel)) >>= place_read rel l

  unfoldable pub copy_snapshot_path : FilePath → Entries → Outcome Entries
  unfolding source_leaf place parent
  copy_snapshot_path rel dst = stat_leaf rel >>= copy_leaf rel dst

  abbrev pub Brought : Type 0
  Brought = Entries × List FilePath

  abbrev pub touched_one : FilePath → Entries → Outcome Brought
  touched_one rel dst = ok (dst, rel ∷ [])

  abbrev pub copy_unless : FilePath → Bool × Entries → Outcome Brought
  copy_unless rel (true, dst) = ok (dst, [])
  copy_unless rel (false, dst) = copy_snapshot_path rel dst >>= touched_one rel

  -- The body of the loop over the files, and the path if it was touched.
  unfoldable pub reconcile_file : FilePath → Entries → Outcome Brought
  unfolding snapshot_path_matches copy_snapshot_path
  reconcile_file rel dst = snapshot_path_matches rel dst >>= copy_unless rel

  abbrev pub add_touched : List FilePath → Outcome Brought → Outcome Brought
  add_touched touched (err e) = err e
  add_touched touched (ok (dst, more)) = ok (dst, touched ++ more)

  unfoldable pub reconcile_files : List FilePath → Entries → Outcome Brought
  unfolding reconcile_file
  reconcile_files [] dst = ok (dst, [])
  reconcile_files (rel ∷ files) dst = elim (reconcile_file rel dst) [
    | err e ↦ err e
    | ok (dst', touched) ↦ add_touched touched (reconcile_files files dst')
  ]

  abbrev pub finish : (removed : List FilePath) → Brought → Outcome (Entries × List Text)
  finish removed (dst, touched) = remove_empty_cache_dirs faults dst >>= λ dst'.
      ok (dst', sorted_unique_strings (map text_of (removed ++ touched)))

  abbrev pub reconcile_rest : (files : List FilePath) → Brought → Outcome (Entries × List Text)
  reconcile_rest files (dst, removed) = reconcile_files files dst >>= finish removed

  -- `reconcileCacheWorktree`: the cache, and the touched files.
  unfoldable pub reconcile_cache_worktree :
      Entries → (files wanted_files : List FilePath) → Outcome (Entries × List Text)
  unfolding reconcile_files remove_stale_cache_paths remove_empty_cache_dirs
  reconcile_cache_worktree dst files wanted_files =
      remove_stale_cache_paths faults wanted_files dst >>= reconcile_rest files
