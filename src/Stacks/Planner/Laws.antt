-- ===== src/Stacks/Planner/Laws.antt =====
-- The plan: which applications it names, which files it skips.
use idpbuilder.Base.{
  ◌≡◌, sym, ◌∙◌, ◌↔◌, Bool, true, false, List, [], ◌∷◌, ◌&&◌, ◌||◌, not, arith, any,
}
use idpbuilder.Base.Text.{Text, ==_iff, ==_self}
use idpbuilder.Base.Names.{contains, contains-append, IsUnique, IsAscending}
use idpbuilder.Stacks.Names.Laws.{sorted_keys-IsAscending, contains-sorted_keys}
use idpbuilder.Stacks.Changes.{normalize_changed_files}
use idpbuilder.Stacks.Kustomize.{Tree, parse_application_name}
use idpbuilder.Stacks.Planner.{
  Index, Marks, mark, mark_child, mark_file, mark_files, is_indexed, root_application_name,
  ryzen_overlay_path_affects_root, plan_from_index,
}
use idpbuilder.Stacks.Planner.Marks.{
  hits, matches, child_matches, contains-mark, mark-IsUnique, matched-mark, contains-mark_child,
  mark_child-IsUnique, matched-mark_child, child_matches_of_child_hits, not-child_matches,
  contains-mark_dependents, mark_dependents-IsUnique, matched-mark_dependents,
  matches_of_dependents_hit, not-matches,
}

module _ (tree : Tree) (index : Index) where
  root_marks : Text → List Text → Marks
  root_marks file affected =
      mark (ryzen_overlay_path_affects_root file && is_indexed index root_application_name)
        root_application_name (affected, false)

  contains-mark_file :
      (file : Text) (affected : List Text) (k : Text)
      → contains (mark_file tree index file affected).0 k
        ≡ (contains affected k || hits tree index file k)
  unfolding mark_file hits root_marks
  contains-mark_file file affected k =
      let child = parse_application_name tree file in
      let root = root_marks file affected in
      contains-mark_dependents file child index (mark_child child index root) k
      ∙ ground (
        arith,
        contains-mark_child child index root k,
        contains-mark
            (ryzen_overlay_path_affects_root file && is_indexed index root_application_name)
            root_application_name (affected, false) k,
      )

  mark_file-IsUnique :
      (file : Text) (affected : List Text)
      → IsUnique affected
      → IsUnique (mark_file tree index file affected).0
  unfolding mark_file
  mark_file-IsUnique file affected u =
      let root = ryzen_overlay_path_affects_root file && is_indexed index root_application_name in
      let marks = mark root root_application_name (affected, false) in
      let child = parse_application_name tree file in
      mark_dependents-IsUnique file child index (mark_child child index marks) (
        mark_child-IsUnique child index marks
          (mark-IsUnique root root_application_name (affected, false) u))

  -- The file hits no application at all.
  abbrev pub HitsNone : Text → Type 0
  HitsNone file = (name : Text) → hits tree index file name ≡ false

  is_matched : Text → Bool
  is_matched file =
      (ryzen_overlay_path_affects_root file && is_indexed index root_application_name)
      || (child_matches (parse_application_name tree file) index
          || matches file (parse_application_name tree file) index)

  matched-mark_file :
      (file : Text) (affected : List Text)
      → (mark_file tree index file affected).1 ≡ is_matched file
  unfolding mark_file root_marks is_matched
  matched-mark_file file affected =
      let child = parse_application_name tree file in
      let root = root_marks file affected in
      matched-mark_dependents file child index (mark_child child index root)
      ∙ ground (
        arith,
        matched-mark_child child index root,
        matched-mark
            (ryzen_overlay_path_affects_root file && is_indexed index root_application_name)
            root_application_name (affected, false),
      )

  unmatched_iff : (file : Text) → (is_matched file ≡ false) ↔ HitsNone file
  unfolding hits is_matched
  unmatched_iff file =
      let child = parse_application_name tree file in
      (
        (λ h name. ground (
          arith,
          child_matches_of_child_hits child index name,
          matches_of_dependents_hit file child index name,
        )),
        (λ h. ground (
          arith,
          h root_application_name,
          ==_self root_application_name,
          not-child_matches child index (λ name. ground (arith, h name)),
          not-matches file child index (λ name. ground (arith, h name)),
        )),
      )

  contains-mark_files :
      (files affected skipped : List Text) (k : Text)
      → contains (mark_files tree index files affected skipped).0 k
        ≡ (contains affected k || any (λ file. hits tree index file k) files)
  unfolding mark_files any
  contains-mark_files [] affected skipped k = ground arith
  contains-mark_files (file ∷ files) affected skipped k =
      contains-mark_files files (mark_file tree index file affected).0 _ k
      ∙ ground (arith, contains-mark_file file affected k)

  mark_files-IsUnique :
      (files affected skipped : List Text)
      → IsUnique affected
      → IsUnique (mark_files tree index files affected skipped).0
  unfolding mark_files
  mark_files-IsUnique [] affected skipped u = u
  mark_files-IsUnique (file ∷ files) affected skipped u =
      mark_files-IsUnique files (mark_file tree index file affected).0 _
        (mark_file-IsUnique file affected u)

  skipped-mark_files :
      (files affected skipped : List Text) (k : Text)
      → contains (mark_files tree index files affected skipped).1 k
        ≡ (contains skipped k || (contains files k && not (is_matched k)))
  unfolding mark_files contains
  skipped-mark_files [] affected skipped k = ground arith
  skipped-mark_files (file ∷ files) affected skipped k =
      skipped-mark_files files (mark_file tree index file affected).0 _ k
      ∙ ground (
        arith,
        matched-mark_file file affected,
        contains-append skipped (file ∷ []) k,
        ==_iff k file,
      )

  -- Of an index and changed files, the plan names exactly the applications that some normalised
  -- changed file hits, strictly ascending; it skips exactly the normalised changed files that hit
  -- no application; and the root application is first exactly if it is affected.
  pub plan_exact :
      (changed : List Text)
      → let plan = plan_from_index tree index changed in
        let files = normalize_changed_files changed in
        ((name : Text)
          → contains plan.affected_applications name
            ≡ any (λ file. hits tree index file name) files)
        × IsAscending plan.affected_applications
        × ((file : Text)
            → (contains plan.skipped_files file ≡ true)
              ↔ ((contains files file ≡ true) × HitsNone file))
        × (plan.root_first ≡ contains plan.affected_applications root_application_name)
  unfolding plan_from_index contains
  plan_exact changed =
      let files = normalize_changed_files changed in
      let marks = mark_files tree index files [] [] in
      (
        (λ name. contains-sorted_keys marks.0 name ∙ contains-mark_files files [] [] name),
        sorted_keys-IsAscending marks.0 (mark_files-IsUnique files [] [] tt),
        (λ file. (
          (λ h. (
            ground (arith, skipped-mark_files files [] [] file),
            (unmatched_iff file).0 (ground (arith, skipped-mark_files files [] [] file)),
          )),
          (λ h. ground (arith, skipped-mark_files files [] [] file, (unmatched_iff file).1 h.1)),
        )),
        sym (contains-sorted_keys marks.0 root_application_name),
      )
