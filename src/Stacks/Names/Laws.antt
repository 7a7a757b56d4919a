-- ===== src/Stacks/Names/Laws.antt =====
-- What the lists of names hold, and in which order.
use idpbuilder.Base.{◌≡◌, refl, ◌∙◌, false, not, ◌&&◌, ◌||◌, List, [], ◌∷◌, ◌++◌, arith}
use idpbuilder.Base.Text.{Text, ◌==◌, ==_iff, lit}
use idpbuilder.Base.Names.{
  contains, contains-append, contains-add_key, add_key-IsUnique, IsUnique, IsAscending,
  contains-select, contains-sort_strings, sort_strings-IsAscending,
}
use idpbuilder.Base.Names.Canonical.{IsAscending-eq}
use idpbuilder.Stacks.Names.{
  sorted_keys, contains_string, without_string, collect_unique, append_unique_strings, collect_keys,
  sorted_unique_strings,
}

pub contains_string-eq : (xs : List Text) (k : Text) → contains_string xs k ≡ contains xs k
unfolding contains_string contains
contains_string-eq [] k = refl
contains_string-eq (x ∷ xs) k = ground (arith, contains_string-eq xs k, ==_iff k x, ==_iff x k)

pub contains-without_string :
    (xs : List Text) (drop k : Text)
    → contains (without_string xs drop) k ≡ (contains xs k && not (k == drop))
unfolding without_string
contains-without_string xs drop k = contains-select _ xs k

IsUnique-snoc :
    (xs : List Text) (x : Text) → IsUnique xs → contains xs x ≡ false → IsUnique (xs ++ x ∷ [])
unfolding contains
IsUnique-snoc [] x u new = (refl, tt)
IsUnique-snoc (y ∷ ys) x u new = (
  ground (arith, contains-append ys (x ∷ []) y, u.0, ==_iff x y, ==_iff y x),
  IsUnique-snoc ys x u.1 (ground arith),
)

contains-snoc :
    (xs : List Text) (x k : Text) → contains (xs ++ x ∷ []) k ≡ (contains xs k || k == x)
unfolding contains
contains-snoc xs x k = ground (arith, contains-append xs (x ∷ []) k)

collect_unique-IsUnique :
    (values out : List Text) → IsUnique out → IsUnique (collect_unique out values)
unfolding collect_unique
collect_unique-IsUnique [] out u = u
collect_unique-IsUnique (value ∷ values) out u =
    collect_unique-IsUnique values _ (ground (arith, IsUnique-snoc out value u))

contains-collect_unique :
    (values out : List Text) (k : Text)
    → contains (collect_unique out values) k
      ≡ (contains out k || (not (k == lit "") && contains values k))
unfolding collect_unique contains
contains-collect_unique [] out k = ground arith
contains-collect_unique (value ∷ values) out k =
    contains-collect_unique values _ k
    ∙ ground (arith, contains-snoc out value k, ==_iff k value, ==_iff value (lit ""))

collect_keys-IsUnique :
    (values seen : List Text) → IsUnique seen → IsUnique (collect_keys seen values)
unfolding collect_keys
collect_keys-IsUnique [] seen u = u
collect_keys-IsUnique (value ∷ values) seen u =
    collect_keys-IsUnique values _ (ground (arith, add_key-IsUnique value seen u))

contains-collect_keys :
    (values seen : List Text) (k : Text)
    → contains (collect_keys seen values) k
      ≡ (contains seen k || (not (k == lit "") && contains values k))
unfolding collect_keys contains
contains-collect_keys [] seen k = ground arith
contains-collect_keys (value ∷ values) seen k =
    contains-collect_keys values _ k
    ∙ ground (arith, contains-add_key seen k value, ==_iff k value, ==_iff value (lit ""))

pub sorted_keys-IsAscending : (s : List Text) → IsUnique s → IsAscending (sorted_keys s)
unfolding sorted_keys
sorted_keys-IsAscending = sort_strings-IsAscending

pub contains-sorted_keys : (s : List Text) (k : Text) → contains (sorted_keys s) k ≡ contains s k
unfolding sorted_keys
contains-sorted_keys = contains-sort_strings

pub append_unique_strings-IsAscending :
    (base values : List Text) → IsAscending (append_unique_strings base values)
unfolding append_unique_strings
append_unique_strings-IsAscending base values =
    sort_strings-IsAscending _
      (collect_unique-IsUnique values _ (collect_unique-IsUnique base [] tt))

pub contains-append_unique_strings :
    (base values : List Text) (k : Text)
    → contains (append_unique_strings base values) k
      ≡ (not (k == lit "") && (contains base k || contains values k))
unfolding append_unique_strings contains
contains-append_unique_strings base values k =
    contains-sort_strings (collect_unique (collect_unique [] base) values) k
    ∙ contains-collect_unique values (collect_unique [] base) k
    ∙ ground (arith, contains-collect_unique base [] k)

pub sorted_unique_strings-IsAscending :
    (values : List Text) → IsAscending (sorted_unique_strings values)
unfolding sorted_unique_strings
sorted_unique_strings-IsAscending values =
    sorted_keys-IsAscending _ (collect_keys-IsUnique values [] tt)

pub contains-sorted_unique_strings :
    (values : List Text) (k : Text)
    → contains (sorted_unique_strings values) k ≡ (not (k == lit "") && contains values k)
unfolding sorted_unique_strings contains
contains-sorted_unique_strings values k =
    contains-sorted_keys (collect_keys [] values) k ∙ contains-collect_keys values [] k

-- `appendUniqueStrings` returns the union of its two lists less the empty name, strictly
-- ascending, so each name once; the order and the repetitions of the arguments, and which of the
-- two lists holds a name, do not show, and it is `sortedUniqueStrings` of the two lists joined.
pub append_unique_strings_union :
    (base values : List Text)
    → IsAscending (append_unique_strings base values)
      × ((k : Text)
          → contains (append_unique_strings base values) k
            ≡ (not (k == lit "") && (contains base k || contains values k)))
      × (append_unique_strings base values ≡ append_unique_strings values base)
      × (append_unique_strings base values ≡ sorted_unique_strings (base ++ values))
append_unique_strings_union base values = (
  append_unique_strings-IsAscending base values,
  contains-append_unique_strings base values,
  IsAscending-eq _ _ (append_unique_strings-IsAscending base values)
      (append_unique_strings-IsAscending values base)
      (λ k. ground (
        arith,
        contains-append_unique_strings base values k,
        contains-append_unique_strings values base k,
      )),
  IsAscending-eq _ _ (append_unique_strings-IsAscending base values)
      (sorted_unique_strings-IsAscending (base ++ values))
      (λ k. ground (
        arith,
        contains-append_unique_strings base values k,
        contains-sorted_unique_strings (base ++ values) k,
        contains-append base values k,
      )),
)
