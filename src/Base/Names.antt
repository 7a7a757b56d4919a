-- ===== src/Base/Names.antt =====
-- A Go map[string]bool that is only ever set to true: the list of its keys, each once. Membership
-- is a Boolean test. The order of the keys is that of insertion, and no result shows it.
pub mod Canonical
use mathlib.Core.Path.{◌≡◌, refl, ◌∙◌}
use mathlib.Core.Logic.{inl, inr}
use mathlib.Core.Bool.{Bool, true, false, not, ◌&&◌, ◌||◌}
use mathlib.Core.List.{List, [], ◌∷◌, ◌++◌}
use native.Mathlib.Omega.{arith}
use idpbuilder.Base.Tests.{if◌then◌else◌, Bool-cases}
use idpbuilder.Base.Lists.{All, All-map, select}
use idpbuilder.Base.Text.{Text, ◌==◌, ==_iff, ==_self}
use idpbuilder.Base.Order.{
  text_lt, text_lt_irrefl, text_lt_trans, text_lt_connex, insert_sorted, sort_strings,
}

-- `m[k]`
unfoldable pub contains : List Text → Text → Bool
contains [] k = false
contains (x ∷ xs) k = k == x || contains xs k

-- `m[k] = true`
unfoldable pub add_key : Text → List Text → List Text
unfolding contains
add_key k s = if contains s k then s else k ∷ s

unfoldable pub add_keys : List Text → List Text → List Text
unfolding add_key
add_keys [] s = s
add_keys (k ∷ ks) s = add_keys ks (add_key k s)

-- No element occurs twice.
abbrev pub IsUnique : List Text → Type 0
IsUnique [] = Unit
IsUnique (x ∷ xs) = (contains xs x ≡ false) × IsUnique xs

-- Each element is below all that stand behind it.
abbrev pub IsAscending : List Text → Type 0
IsAscending [] = Unit
IsAscending (x ∷ xs) = All (λ y. text_lt x y ≡ true) xs × IsAscending xs

pub contains-append :
    (xs ys : List Text) (k : Text) → contains (xs ++ ys) k ≡ (contains xs k || contains ys k)
unfolding contains
contains-append [] ys k = refl
contains-append (x ∷ xs) ys k = ground (arith, contains-append xs ys k)

pub contains-add_key :
    (s : List Text) (j k : Text) → contains (add_key k s) j ≡ (j == k || contains s j)
unfolding add_key
contains-add_key s j k = ground (arith, ==_iff j k)

pub contains-add_keys :
    (ks s : List Text) (j : Text) → contains (add_keys ks s) j ≡ (contains ks j || contains s j)
unfolding add_keys contains
contains-add_keys [] s j = refl
contains-add_keys (k ∷ ks) s j =
    ground (arith, contains-add_keys ks (add_key k s) j, contains-add_key s j k)

pub add_key-IsUnique : (k : Text) (s : List Text) → IsUnique s → IsUnique (add_key k s)
unfolding add_key
add_key-IsUnique k s u = ground arith

pub add_keys-IsUnique : (ks s : List Text) → IsUnique s → IsUnique (add_keys ks s)
unfolding add_keys
add_keys-IsUnique [] s u = u
add_keys-IsUnique (k ∷ ks) s u = add_keys-IsUnique ks (add_key k s) (add_key-IsUnique k s u)

pub contains-select :
    (p : Text → Bool) (xs : List Text) (k : Text)
    → contains (select p xs) k ≡ (contains xs k && p k)
unfolding contains select
contains-select p [] k = refl
contains-select p (x ∷ xs) k = ground (arith, contains-select p xs k, ==_iff k x)

contains-insert_sorted :
    (x : Text) (ys : List Text) (k : Text)
    → contains (insert_sorted x ys) k ≡ (k == x || contains ys k)
unfolding contains insert_sorted
contains-insert_sorted x [] k = refl
contains-insert_sorted x (y ∷ ys) k = ground (arith, contains-insert_sorted x ys k)

pub contains-sort_strings :
    (xs : List Text) (k : Text) → contains (sort_strings xs) k ≡ contains xs k
unfolding contains sort_strings
contains-sort_strings [] k = refl
contains-sort_strings (x ∷ xs) k =
    ground (arith, contains-sort_strings xs k, contains-insert_sorted x (sort_strings xs) k)

All-insert_sorted :
    (P : Text → Type 0) (x : Text) (ys : List Text) → P x → All P ys → All P (insert_sorted x ys)
unfolding insert_sorted
All-insert_sorted P x [] p h = (p, tt)
All-insert_sorted P x (y ∷ ys) p h = elim (Bool-cases (text_lt y x)) [
  | inl e ↦ rw e (h.0, All-insert_sorted P x ys p h.1)
  | inr e ↦ rw e (p, h)
]

insert_sorted-IsAscending :
    (x : Text) (ys : List Text)
    → contains ys x ≡ false
    → IsAscending ys
    → IsAscending (insert_sorted x ys)
unfolding insert_sorted contains
insert_sorted-IsAscending x [] new h = (tt, tt)
insert_sorted-IsAscending x (y ∷ ys) new h = elim (Bool-cases (text_lt y x)) [
  | inl e ↦ rw e (
    All-insert_sorted (λ z. text_lt y z ≡ true) x ys e h.0,
    insert_sorted-IsAscending x ys (ground arith) h.1,
  )
  | inr e ↦
      let below : text_lt x y ≡ true = ground (arith, text_lt_connex x y, ==_iff x y) in
      rw e ((below, All-map _ _ ys (λ z l. text_lt_trans x y z below l) h.0), h)
]

-- Distinct names come out in strictly ascending order.
pub sort_strings-IsAscending : (xs : List Text) → IsUnique xs → IsAscending (sort_strings xs)
unfolding sort_strings
sort_strings-IsAscending [] u = tt
sort_strings-IsAscending (x ∷ xs) u =
    insert_sorted-IsAscending x (sort_strings xs) (contains-sort_strings xs x ∙ u.0)
      (sort_strings-IsAscending xs u.1)
