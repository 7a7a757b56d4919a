-- ===== src/Stacks/Worktree.antt =====
-- The walks of reconcileCacheWorktree of sync.go through the cache, before and after the files are
-- copied, and the comparison of two files. The answers of the operating system that no state of the files explains, such
-- as a denied permission, are a parameter.
pub mod Reconcile
pub mod Walks
pub mod Compare
pub mod Matching
pub mod OneFile
pub mod Exact
pub mod Links
use idpbuilder.Base.{
  Bool, true, false, ℕ, zero, suc, List, [], ◌∷◌, ◌++◌, ◌&&◌, ◌||◌, not, Option, none, some,
  if◌then◌else◌, map, length, take, drop, eqb, ltb, Outcome, ok, err, Error, message, wrapped,
  ◌>>=◌,
}
use idpbuilder.Base.Text.{Text, ◌==◌, lit, join}
use idpbuilder.Stacks.Names.{sorted_unique_strings}
use idpbuilder.Stacks.Files.{
  FilePath, Leaf, regular, symlink, irregular, Entries, no_entries, leaf, directory, Found, missing,
  blocked, is_directory, found, look, make_dirs, write, remove_empty, same_path, not_a_directory,
}

abbrev pub text_of : FilePath → Text
text_of p = join (lit "/") p

-- A call of the operating system.
pub data Call : Type 0 where
  lstat_source : Call
  lstat_cache : Call
  read_source : Call
  read_cache : Call
  write_cache : Call
  remove : Call

-- Why a call on a path fails, where the files do not say so.
abbrev pub Faults : Type 0
Faults = Call → FilePath → Option Error

abbrev pub unless : {A : Type 0} → Option Error → Outcome A → Outcome A
unless none r = r
unless (some e) r = err e

-- The set of paths that the snapshot has.
unfoldable pub is_wanted : List FilePath → FilePath → Bool
is_wanted [] p = false
is_wanted (q ∷ wanted) p = same_path p q || is_wanted wanted p

-- What is left of a directory, and the paths that were removed.
abbrev pub Pruned : Type 0
Pruned = Entries × List FilePath

abbrev pub keep_leaf : (name : Text) → Leaf → Outcome Pruned → Outcome Pruned
keep_leaf m l (err e) = err e
keep_leaf m l (ok (rest, removed)) = ok (leaf m l rest, removed)

abbrev pub keep_directory : (name : Text) → (inner : Entries) → Outcome Pruned → Outcome Pruned
keep_directory m inner (err e) = err e
keep_directory m inner (ok (rest, removed)) = ok (directory m inner rest, removed)

abbrev pub drop_entry : (name : Text) → Outcome Pruned → Outcome Pruned
drop_entry m (err e) = err e
drop_entry m (ok (rest, removed)) = ok (rest, (m ∷ []) ∷ removed)

abbrev pub enter_directory : (name : Text) → (inner rest : Outcome Pruned) → Outcome Pruned
enter_directory m (err e) rest = err e
enter_directory m (ok (inner, below)) (err e) = err e
enter_directory m (ok (inner, below)) (ok (rest, removed)) =
    ok (directory m inner rest, map (λ p. m ∷ p) below ++ removed)

abbrev pub nothing_skipped : Text → Bool
nothing_skipped name = false

-- The walk of `removeStaleCachePaths` through a directory. `wanted` and `fault` tell of the paths
-- below it, and `skip` of the names in it that are passed over: ".git" at the top, and no other
-- name.
unfoldable pub prune :
    (skip : Text → Bool)
    → (wanted : FilePath → Bool) → (fault : FilePath → Option Error) → Entries
    → Outcome Pruned
prune skip wanted fault no_entries = ok (no_entries, [])
prune skip wanted fault (leaf m l rest) =
    let after = prune skip wanted fault rest in
    if skip m || wanted (m ∷ [])
    then keep_leaf m l after
    else unless (fault (m ∷ [])) (drop_entry m after)
prune skip wanted fault (directory m inner rest) =
    let after = prune skip wanted fault rest in
    let below = prune nothing_skipped (λ p. wanted (m ∷ p)) (λ p. fault (m ∷ p)) inner in
    if skip m
    then keep_directory m inner after
    else if wanted (m ∷ [])
    then unless (fault (m ∷ [])) (drop_entry m after)
    else enter_directory m below after

abbrev pub is_git : Text → Bool
is_git name = name == lit ".git"

unfoldable pub remove_stale_cache_paths :
    Faults → (wanted : List FilePath) → Entries → Outcome Pruned
unfolding prune is_wanted
remove_stale_cache_paths faults wanted dst = prune is_git (is_wanted wanted) (faults remove) dst

-- The directories that the walk of `removeEmptyCacheDirs` collects.
unfoldable pub directories : (skip : Text → Bool) → Entries → List FilePath
directories skip no_entries = []
directories skip (leaf m l rest) = directories skip rest
directories skip (directory m inner rest) =
    let below = directories nothing_skipped inner in
    let after = directories skip rest in
    if skip m then after else (m ∷ []) ∷ map (λ p. m ∷ p) below ++ after

-- sort.Slice by the length of the text, the longest first.
unfoldable pub insert_longest : FilePath → List FilePath → List FilePath
insert_longest p [] = p ∷ []
insert_longest p (q ∷ paths) =
    let later = insert_longest p paths in
    if ltb (length (text_of p)) (length (text_of q)) then q ∷ later else p ∷ q ∷ paths

unfoldable pub sort_longest : List FilePath → List FilePath
unfolding insert_longest
sort_longest [] = []
sort_longest (p ∷ paths) = insert_longest p (sort_longest paths)

unfoldable pub remove_dirs : Faults → List FilePath → Entries → Outcome Entries
remove_dirs faults [] dst = ok dst
remove_dirs faults (p ∷ paths) dst =
    unless (faults remove p) (remove_dirs faults paths (remove_empty dst p))

unfoldable pub remove_empty_cache_dirs : Faults → Entries → Outcome Entries
unfolding remove_dirs sort_longest directories
remove_empty_cache_dirs faults dst = remove_dirs faults (sort_longest (directories is_git dst)) dst

-- The loop of `regularFilesEqual` over buffers of a size, on fuel. A read fills its buffer, or
-- returns what is left, and then nothing.
unfoldable pub chunks_equal : (fuel size : ℕ) → (left right : List ℕ) → Option Bool
chunks_equal zero size left right = none
chunks_equal (suc fuel) size left right =
    let later = chunks_equal fuel size (drop size left) (drop size right) in
    if not (take size left == take size right)
    then some false
    else if take size left == []
    then some true
    else later

abbrev pub or_false : Option Bool → Bool
or_false none = false
or_false (some equal) = equal

-- `regularFilesEqual`; the fuel is above the number of bytes of the first file.
unfoldable pub regular_files_equal : (left right : List ℕ) → Bool
unfolding chunks_equal
regular_files_equal left right = or_false (chunks_equal (suc (length left)) 32768 left right)
