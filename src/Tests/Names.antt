-- ===== src/Tests/Names.antt =====
-- The theorems on lists of names at small lists.
use idpbuilder.Base.{◌≡◌, List, [], ◌∷◌, ◌++◌, ◌&&◌, ◌||◌, not}
use idpbuilder.Base.Text.{Text, lit, ◌==◌}
use idpbuilder.Base.Names.{contains, IsAscending}
use idpbuilder.Stacks.Names.{append_unique_strings, sorted_unique_strings}
use idpbuilder.Stacks.Names.Laws.{append_unique_strings_union}

abbrev first : List Text
first = lit "b" ∷ lit "" ∷ lit "a" ∷ []

abbrev second : List Text
second = lit "c" ∷ lit "b" ∷ []

append_unique_strings_union_example :
    IsAscending (append_unique_strings first second)
    × ((k : Text)
        → contains (append_unique_strings first second) k
          ≡ (not (k == lit "") && (contains first k || contains second k)))
    × (append_unique_strings first second ≡ append_unique_strings second first)
    × (append_unique_strings first second ≡ sorted_unique_strings (first ++ second))
append_unique_strings_union_example = append_unique_strings_union first second
