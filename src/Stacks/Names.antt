-- ===== src/Stacks/Names.antt =====
-- The helpers on lists of names of pkg/cmd/stacks/sync.go and sync_planner.go.
pub mod Laws
mod Samples
use idpbuilder.Base.{Bool, true, false, List, [], ◌∷◌, ◌++◌, ◌||◌, not, if◌then◌else◌, select}
use idpbuilder.Base.Text.{Text, ◌==◌, lit}
use idpbuilder.Base.Order.{sort_strings}
use idpbuilder.Base.Names.{contains, add_key}

-- Go's map iteration is in no order; the keys are sorted before they are returned.
unfoldable pub sorted_keys : List Text → List Text
sorted_keys = sort_strings

unfoldable pub contains_string : List Text → Text → Bool
unfolding contains
contains_string [] want = false
contains_string (value ∷ values) want =
    let rest = contains_string values want in if value == want then true else rest

unfoldable pub without_string : List Text → Text → List Text
unfolding select
without_string values drop = select (λ value. not (value == drop)) values

-- One pass of the loops of `appendUniqueStrings`. Its map `seen` holds the elements of `out`.
unfoldable pub collect_unique : List Text → List Text → List Text
unfolding contains
collect_unique out [] = out
collect_unique out (value ∷ values) =
    collect_unique (if value == lit "" || contains out value then out else out ++ value ∷ []) values

unfoldable pub append_unique_strings : List Text → List Text → List Text
unfolding collect_unique
append_unique_strings base values = sort_strings (collect_unique (collect_unique [] base) values)

unfoldable pub collect_keys : List Text → List Text → List Text
unfolding add_key
collect_keys seen [] = seen
collect_keys seen (value ∷ values) =
    collect_keys (if value == lit "" then seen else add_key value seen) values

unfoldable pub sorted_unique_strings : List Text → List Text
unfolding collect_keys sorted_keys
sorted_unique_strings values = sorted_keys (collect_keys [] values)
