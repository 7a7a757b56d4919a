-- ===== src/Stacks/Paths.antt =====
-- Repository-relative paths: cleanRepoRel and joinRepoRel of pkg/cmd/stacks/sync_planner.go, over
-- filepath.Clean, Join, IsAbs, Dir and Base of a Unix system.
pub mod Safety
mod Samples
use idpbuilder.Base.{
  Bool, true, false, List, [], ◌∷◌, ◌++◌, ◌||◌, reverse, Option, none, some, if◌then◌else◌, eqb,
  Outcome, ok, err, message,
}
use idpbuilder.Base.Text.{Text, ◌==◌, lit, split, join, has_prefix, trim_space, trim_left, cut}

abbrev pub slash : Text
slash = lit "/"

-- filepath.IsAbs
unfoldable pub is_abs : Text → Bool
unfolding has_prefix
is_abs path = has_prefix path slash

-- What ".." does to the elements kept so far, the last one first.
unfoldable pub pop : Bool → List Text → List Text
pop rooted [] = if rooted then [] else lit ".." ∷ []
pop rooted (top ∷ kept) = if top == lit ".." then lit ".." ∷ top ∷ kept else kept

-- The loop of filepath.Clean over the elements between slashes.
unfoldable pub clean_elements : Bool → List Text → List Text → List Text
unfolding pop
clean_elements rooted kept [] = reverse kept
clean_elements rooted kept (part ∷ parts) =
    clean_elements rooted
      (if part == lit "" || part == lit "."
        then kept
        else if part == lit ".."
        then pop rooted kept
        else part ∷ kept)
      parts

-- filepath.Clean
unfoldable pub clean : Text → Text
unfolding clean_elements
clean path =
    let out = join slash (clean_elements (is_abs path) [] (split 47 path)) in
    if is_abs path then slash ++ out else if out == lit "" then lit "." else out

-- filepath.Join: empty elements are left out, and of none but such it is empty.
unfoldable pub join_paths : Text → Text → Text
unfolding clean
join_paths base ref =
    if base == lit ""
    then if ref == lit "" then lit "" else clean ref
    else if ref == lit ""
    then clean base
    else clean (base ++ slash ++ ref)

abbrev pub escapes : Outcome Text
escapes = err (message (lit "path escapes repository"))

unfoldable pub clean_repo_rel : Text → Outcome Text
unfolding clean is_abs
clean_repo_rel rel =
    let path = clean (trim_space rel) in
    if path == lit "."
      || path == lit ""
      || is_abs path
      || path == lit ".."
      || has_prefix path (lit "../")
    then escapes
    else ok path

unfoldable pub join_repo_rel : Text → Text → Outcome Text
unfolding clean_repo_rel join_paths
join_repo_rel base ref = clean_repo_rel (join_paths base ref)

-- filepath.Dir
unfoldable pub dir_of : Text → Text
unfolding clean
dir_of path =
    let (last, above) = cut 47 (reverse path) in
    elim above [ none ↦ clean (lit "") | some rest ↦ clean (reverse rest ++ slash) ]

-- filepath.Base
unfoldable pub base_of : Text → Text
base_of path =
    if path == lit ""
    then lit "."
    else let (last, above) = cut 47 (trim_left (λ c. eqb c 47) (reverse path)) in
      if last == lit "" then slash else reverse last
