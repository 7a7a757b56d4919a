-- ===== src/Stacks/Files.antt =====
-- A directory of files as the sync sees it: what os.Lstat, os.MkdirAll, os.Symlink, os.OpenFile,
-- os.Chmod, os.Chtimes and os.Remove of Go do with the names in it. A path is the list of the names
-- that lead from the directory to a file. Links along a path are not followed.
pub mod Laws
pub mod Unique
use idpbuilder.Base.{
  Bool, true, false, ℕ, List, [], ◌∷◌, ◌||◌, Option, none, some, ◌&&◌, if◌then◌else◌, Outcome, ok,
  err, Error, message, ◌≡◌,
}
use idpbuilder.Base.Text.{Text, ◌==◌, lit}

abbrev pub FilePath : Type 0
FilePath = List Text

pub data Leaf : Type 0 where
  regular : (bytes : List ℕ) (perm mtime : ℕ) → Leaf
  symlink : (target : Text) → Leaf
  irregular : Leaf

-- The entries of a directory: a leaf or a directory, and the entries after it.
pub data Entries : Type 0 where
  no_entries : Entries
  leaf : (name : Text) → Leaf → (rest : Entries) → Entries
  directory : (name : Text) → (inner rest : Entries) → Entries

-- What stands at a path: `blocked` where a name before the last is no directory.
pub data Found : Type 0 where
  missing : Found
  blocked : Found
  is_directory : Found
  found : Leaf → Found

abbrev pub at_leaf : Leaf → (below : FilePath) → Found
at_leaf l [] = found l
at_leaf l (n ∷ p) = blocked

-- os.Lstat
unfoldable pub look : Entries → FilePath → Found
look t [] = is_directory
look no_entries (n ∷ p) = missing
look (leaf m l rest) (n ∷ p) =
    let later = look rest (n ∷ p) in if n == m then at_leaf l p else later
look (directory m inner rest) (n ∷ p) =
    let here = look inner p in let later = look rest (n ∷ p) in if n == m then here else later

-- The leaf at a path, if there is one.
abbrev pub leaf_of : Found → Option Leaf
leaf_of missing = none
leaf_of blocked = none
leaf_of is_directory = none
leaf_of (found l) = some l

abbrev pub leaf_at : Entries → FilePath → Option Leaf
leaf_at t p = leaf_of (look t p)

abbrev pub not_a_directory : Error
not_a_directory = message (lit "not a directory")

-- Directories along a path that is new.
unfoldable pub chain : FilePath → Entries
chain [] = no_entries
chain (n ∷ p) = directory n (chain p) no_entries

abbrev pub put_leaf : (name : Text) → Leaf → Outcome Entries → Outcome Entries
put_leaf m l (err e) = err e
put_leaf m l (ok rest) = ok (leaf m l rest)

abbrev pub put_rest : (name : Text) → (inner : Entries) → Outcome Entries → Outcome Entries
put_rest m inner (err e) = err e
put_rest m inner (ok rest) = ok (directory m inner rest)

abbrev pub put_inner : (name : Text) → Outcome Entries → (rest : Entries) → Outcome Entries
put_inner m (err e) rest = err e
put_inner m (ok inner) rest = ok (directory m inner rest)

-- os.MkdirAll
unfoldable pub make_dirs : Entries → FilePath → Outcome Entries
unfolding chain
make_dirs t [] = ok t
make_dirs no_entries (n ∷ p) = ok (directory n (chain p) no_entries)
make_dirs (leaf m l rest) (n ∷ p) =
    let later = make_dirs rest (n ∷ p) in if n == m then err not_a_directory else put_leaf m l later
make_dirs (directory m inner rest) (n ∷ p) =
    let here = make_dirs inner p in
    let later = make_dirs rest (n ∷ p) in
    if n == m then put_inner m here rest else put_rest m inner later

-- Whether two paths are one.
unfoldable pub same_path : FilePath → FilePath → Bool
same_path [] [] = true
same_path [] (m ∷ q) = false
same_path (n ∷ p) [] = false
same_path (n ∷ p) (m ∷ q) = n == m && same_path p q

-- A leaf under a name that is new, in a directory that is there.
abbrev pub new_leaf : (name : Text) → (below : FilePath) → Leaf → Outcome Entries
new_leaf n [] l = ok (leaf n l no_entries)
new_leaf n (m ∷ p) l = err (message (lit "no such file or directory"))

abbrev pub replace_leaf :
    (name : Text) → (below : FilePath) → Leaf → (rest : Entries) → Outcome Entries
replace_leaf m [] l rest = ok (leaf m l rest)
replace_leaf m (n ∷ p) l rest = err not_a_directory

-- The leaf at a path becomes another, or a new one is made.
unfoldable pub write : Entries → FilePath → Leaf → Outcome Entries
write t [] l = err (message (lit "is a directory"))
write no_entries (n ∷ p) l = new_leaf n p l
write (leaf m old rest) (n ∷ p) l =
    let later = write rest (n ∷ p) l in
    if n == m then replace_leaf m p l rest else put_leaf m old later
write (directory m inner rest) (n ∷ p) l =
    let here = write inner p l in
    let later = write rest (n ∷ p) l in
    if n == m then put_inner m here rest else put_rest m inner later

abbrev pub rmdir_at : (name : Text) → (inner rest : Entries) → Entries
rmdir_at m no_entries rest = rest
rmdir_at m (leaf n l more) rest = directory m (leaf n l more) rest
rmdir_at m (directory n inner more) rest = directory m (directory n inner more) rest

-- os.Remove of a directory, if it is empty.
unfoldable pub remove_empty : Entries → FilePath → Entries
remove_empty t [] = t
remove_empty no_entries (n ∷ p) = no_entries
remove_empty (leaf m l rest) (n ∷ p) =
    let later = remove_empty rest (n ∷ p) in if n == m then leaf m l rest else leaf m l later
remove_empty (directory m inner rest) (n ∷ []) =
    let later = remove_empty rest (n ∷ []) in
    if n == m then rmdir_at m inner rest else directory m inner later
remove_empty (directory m inner rest) (n ∷ k ∷ p) =
    let here = remove_empty inner (k ∷ p) in
    let later = remove_empty rest (n ∷ k ∷ p) in
    if n == m then directory m here rest else directory m inner later

-- Whether a name is among those of a directory.
unfoldable pub has_name : Text → Entries → Bool
has_name n no_entries = false
has_name n (leaf m l rest) = n == m || has_name n rest
has_name n (directory m inner rest) = n == m || has_name n rest

-- A name stands once in a directory, at every depth.
abbrev pub IsFileTree : Entries → Type 0
IsFileTree no_entries = Unit
IsFileTree (leaf m l rest) = (has_name m rest ≡ false) × IsFileTree rest
IsFileTree (directory m inner rest) = (has_name m rest ≡ false) × IsFileTree inner × IsFileTree rest
