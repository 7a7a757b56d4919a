-- ===== src/Stacks/Changes.antt =====
-- Changed files, as git reports them: sync_planner.go and sync.go. The output of git is an
-- argument.
use idpbuilder.Base.{
  Bool, List, [], ◌∷◌, ◌||◌, not, if◌then◌else◌, Outcome, ok, err, length, take, drop, ltb,
}
use idpbuilder.Base.Text.{Text, ◌==◌, lit, trim_space, has_prefix, split}
use idpbuilder.Base.Order.{sort_strings}
use idpbuilder.Base.Names.{add_key}
use idpbuilder.Stacks.Names.{sorted_keys}
use idpbuilder.Stacks.Paths.{clean_repo_rel}

-- `if clean, err := cleanRepoRel(file); err == nil { seen[clean] = true }`
unfoldable pub add_clean : Text → List Text → List Text
unfolding add_key
add_clean file seen = elim (clean_repo_rel file) [ err e ↦ seen | ok path ↦ add_key path seen ]

unfoldable pub collect_clean : List Text → List Text → List Text
unfolding add_clean
collect_clean seen [] = seen
collect_clean seen (file ∷ files) = collect_clean (add_clean file seen) files

unfoldable pub normalize_changed_files : List Text → List Text
unfolding collect_clean
normalize_changed_files files = sorted_keys (collect_clean [] files)

-- The fields of one entry of `git status --porcelain=v1 -z`.
abbrev pub status_of : Text → Text
status_of entry = take 2 entry

abbrev pub path_of : Text → Text
path_of entry = trim_space (drop 3 entry)

abbrev pub is_too_short : Text → Bool
is_too_short entry = entry == lit "" || ltb (length entry) 4

-- A renamed or copied path is followed by a part of its own, the path it had.
abbrev pub has_origin : Text → Bool
has_origin entry = has_prefix (status_of entry) (lit "R") || has_prefix (status_of entry) (lit "C")

abbrev pub add_path : Text → List Text → List Text
add_path entry seen = if not (path_of entry == lit "") then add_clean (path_of entry) seen else seen

-- The loop of `workingTreeChangedFiles` over the parts between NUL bytes.
unfoldable pub collect_entries : List Text → List Text → List Text
unfolding add_clean
collect_entries seen [] = seen
collect_entries seen (entry ∷ []) = if is_too_short entry then seen else add_path entry seen
collect_entries seen (entry ∷ origin ∷ parts) =
    let shorter = collect_entries seen (origin ∷ parts) in
    let skipping = collect_entries (add_path entry seen) parts in
    let stepping = collect_entries (add_path entry seen) (origin ∷ parts) in
    if is_too_short entry then shorter else if has_origin entry then skipping else stepping

unfoldable pub working_tree_changed_files : Outcome Text → Outcome (List Text)
unfolding collect_entries
working_tree_changed_files (err e) = err e
working_tree_changed_files (ok out) = ok (sorted_keys (collect_entries [] (split 0 out)))

unfoldable pub nonempty_parts : List Text → List Text
nonempty_parts [] = []
nonempty_parts (part ∷ parts) =
    let rest = nonempty_parts parts in if not (part == lit "") then part ∷ rest else rest

-- `stagedChangedFiles`, on the output of `git diff --cached --name-only -z`.
unfoldable pub staged_changed_files : Outcome Text → Outcome (List Text)
unfolding nonempty_parts
staged_changed_files (err e) = err e
staged_changed_files (ok out) = ok (sort_strings (nonempty_parts (split 0 out)))
