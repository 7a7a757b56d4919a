-- ===== src/Stacks/Planner/Marks.antt =====
-- Which file hits which application, told without the loops, and what one pass marks.
use idpbuilder.Base.{
  ◌≡◌, refl, ◌∙◌, Bool, true, false, [], ◌∷◌, ◌&&◌, ◌||◌, Option, none, some, arith,
}
use idpbuilder.Base.Text.{Text, ◌==◌, ==_self}
use idpbuilder.Base.Names.{contains, contains-add_key, add_key-IsUnique, IsUnique}
use idpbuilder.Stacks.Kustomize.{Tree, parse_application_name}
use idpbuilder.Stacks.Planner.{
  Dependency, Index, Marks, mark, mark_child, mark_dependents, declares, is_indexed,
  root_application_name, ryzen_overlay_path_affects_root,
}

pub contains-mark :
    (t : Bool) (n : Text) (marks : Marks) (k : Text)
    → contains (mark t n marks).0 k ≡ (contains marks.0 k || (t && k == n))
contains-mark true n (affected, m) k = ground (arith, contains-add_key affected k n)
contains-mark false n (affected, m) k = ground arith

pub mark-IsUnique :
    (t : Bool) (n : Text) (marks : Marks) → IsUnique marks.0 → IsUnique (mark t n marks).0
mark-IsUnique true n (affected, m) u = add_key-IsUnique n affected u
mark-IsUnique false n (affected, m) u = u

pub matched-mark : (t : Bool) (n : Text) (marks : Marks) → (mark t n marks).1 ≡ (marks.1 || t)
matched-mark true n (affected, m) = ground arith
matched-mark false n (affected, m) = ground arith

-- An entry of the index that depends on the file, or on the application that it declares.
unfoldable pub entry_hits : Text → Option Text → Dependency → Bool
entry_hits file child dep = contains dep.exact_files file || declares child dep

-- Some entry of that name is hit.
unfoldable pub dependents_hit : Text → Option Text → Index → Text → Bool
dependents_hit file child [] name = false
dependents_hit file child ((j, dep) ∷ index) name =
    (entry_hits file child dep && name == j) || dependents_hit file child index name

unfoldable pub child_hits : Option Text → Index → Text → Bool
child_hits none index name = false
child_hits (some child) index name = is_indexed index child && name == child

-- The file affects the application: a file of the Ryzen overlay affects the root application, a
-- file that declares an application affects it, if they are indexed, and a file affects whatever
-- depends on it or on the application that it declares.
unfoldable pub hits : Tree → Index → (file name : Text) → Bool
unfolding dependents_hit child_hits
hits tree index file name =
    let child = parse_application_name tree file in
    ((ryzen_overlay_path_affects_root file && is_indexed index root_application_name)
      && name == root_application_name)
    || (child_hits child index name || dependents_hit file child index name)

pub contains-mark_dependents :
    (file : Text) (child : Option Text) (index : Index) (marks : Marks) (k : Text)
    → contains (mark_dependents file child index marks).0 k
      ≡ (contains marks.0 k || dependents_hit file child index k)
unfolding mark_dependents dependents_hit entry_hits
contains-mark_dependents file child [] marks k = ground arith
contains-mark_dependents file child ((j, dep) ∷ index) marks k =
    let first = mark (contains dep.exact_files file) j marks in
    contains-mark_dependents file child index (mark (declares child dep) j first) k
    ∙ ground (
      arith,
      contains-mark (declares child dep) j first k,
      contains-mark (contains dep.exact_files file) j marks k,
    )

pub mark_dependents-IsUnique :
    (file : Text) (child : Option Text) (index : Index) (marks : Marks)
    → IsUnique marks.0
    → IsUnique (mark_dependents file child index marks).0
unfolding mark_dependents
mark_dependents-IsUnique file child [] marks u = u
mark_dependents-IsUnique file child ((j, dep) ∷ index) marks u =
    mark_dependents-IsUnique file child index _ (
      mark-IsUnique (declares child dep) j _
        (mark-IsUnique (contains dep.exact_files file) j marks u))

-- Whether the file has matched anything of the index.
unfoldable pub matches : Text → Option Text → Index → Bool
matches file child [] = false
matches file child ((j, dep) ∷ index) = entry_hits file child dep || matches file child index

pub matched-mark_dependents :
    (file : Text) (child : Option Text) (index : Index) (marks : Marks)
    → (mark_dependents file child index marks).1 ≡ (marks.1 || matches file child index)
unfolding mark_dependents matches entry_hits
matched-mark_dependents file child [] marks = ground arith
matched-mark_dependents file child ((j, dep) ∷ index) marks =
    let first = mark (contains dep.exact_files file) j marks in
    matched-mark_dependents file child index (mark (declares child dep) j first)
    ∙ ground (
      arith,
      matched-mark (declares child dep) j first,
      matched-mark (contains dep.exact_files file) j marks,
    )

pub matches_of_dependents_hit :
    (file : Text) (child : Option Text) (index : Index) (name : Text)
    → dependents_hit file child index name ≡ true
    → matches file child index ≡ true
unfolding matches dependents_hit
matches_of_dependents_hit file child [] name h = cc
matches_of_dependents_hit file child ((j, dep) ∷ index) name h =
    ground (arith, matches_of_dependents_hit file child index name)

-- The name that witnesses a match.
pub not-matches :
    (file : Text) (child : Option Text) (index : Index)
    → ((name : Text) → dependents_hit file child index name ≡ false)
    → matches file child index ≡ false
unfolding matches dependents_hit
not-matches file child [] h = refl
not-matches file child ((j, dep) ∷ index) h =
    ground (arith, h j, ==_self j, not-matches file child index (λ name. ground (arith, h name)))

pub contains-mark_child :
    (child : Option Text) (index : Index) (marks : Marks) (k : Text)
    → contains (mark_child child index marks).0 k ≡ (contains marks.0 k || child_hits child index k)
unfolding child_hits
contains-mark_child none index marks k = ground arith
contains-mark_child (some child) index marks k =
    contains-mark (is_indexed index child) child marks k

pub mark_child-IsUnique :
    (child : Option Text) (index : Index) (marks : Marks)
    → IsUnique marks.0
    → IsUnique (mark_child child index marks).0
mark_child-IsUnique none index marks u = u
mark_child-IsUnique (some child) index marks u = mark-IsUnique _ child marks u

-- The child that the file declares is indexed.
abbrev pub child_matches : Option Text → Index → Bool
child_matches none index = false
child_matches (some child) index = is_indexed index child

pub matched-mark_child :
    (child : Option Text) (index : Index) (marks : Marks)
    → (mark_child child index marks).1 ≡ (marks.1 || child_matches child index)
matched-mark_child none index marks = ground arith
matched-mark_child (some child) index marks = matched-mark (is_indexed index child) child marks

pub child_matches_of_child_hits :
    (child : Option Text) (index : Index) (name : Text)
    → child_hits child index name ≡ true
    → child_matches child index ≡ true
unfolding child_hits
child_matches_of_child_hits none index name h = cc
child_matches_of_child_hits (some child) index name h = ground arith

pub not-child_matches :
    (child : Option Text) (index : Index)
    → ((name : Text) → child_hits child index name ≡ false)
    → child_matches child index ≡ false
unfolding child_hits
not-child_matches none index h = refl
not-child_matches (some child) index h = ground (arith, h child, ==_self child)
