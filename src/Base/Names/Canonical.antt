-- ===== src/Base/Names/Canonical.antt =====
-- A strictly ascending list is determined by its elements.
use mathlib.Core.Path.{◌≡◌, refl, ap₂}
use mathlib.Core.Bool.{true, false}
use mathlib.Core.List.{List, [], ◌∷◌}
use native.Mathlib.Omega.{arith}
use idpbuilder.Base.Lists.{All}
use idpbuilder.Base.Text.{Text, ==_iff, ==_self}
use idpbuilder.Base.Order.{text_lt, text_lt_irrefl, text_lt_trans}
use idpbuilder.Base.Names.{contains, IsAscending}

below_of_contains :
    (x k : Text) (ys : List Text)
    → All (λ y. text_lt x y ≡ true) ys
    → contains ys k ≡ true
    → text_lt x k ≡ true
unfolding contains
below_of_contains x k [] h c = cc
below_of_contains x k (y ∷ ys) h c = ground (arith, ==_iff k y, below_of_contains x k ys h.1)

-- The head of a list is not behind it.
head_is_new : (x : Text) (xs : List Text) → All (λ y. text_lt x y ≡ true) xs → contains xs x ≡ false
head_is_new x xs h = ground (arith, below_of_contains x x xs h, text_lt_irrefl x)

module _ (x y : Text) (xs ys : List Text) (a : IsAscending (x ∷ xs)) (b : IsAscending (y ∷ ys))
    (same : (k : Text) → contains (x ∷ xs) k ≡ contains (y ∷ ys) k) where
  heads_agree : x ≡ y
  unfolding contains
  heads_agree = ground (
    arith,
    same x,
    same y,
    ==_iff x y,
    ==_iff y x,
    ==_self x,
    ==_self y,
    below_of_contains x y xs a.0,
    below_of_contains y x ys b.0,
    text_lt_trans x y x,
    text_lt_irrefl x,
  )

  tails_agree : (k : Text) → contains xs k ≡ contains ys k
  unfolding contains
  tails_agree k =
      ground (arith, same k, heads_agree, ==_iff k x, head_is_new x xs a.0, head_is_new y ys b.0)

pub IsAscending-eq :
    (xs ys : List Text)
    → IsAscending xs
    → IsAscending ys
    → ((k : Text) → contains xs k ≡ contains ys k)
    → xs ≡ ys
unfolding contains
IsAscending-eq [] [] a b same = refl
IsAscending-eq [] (y ∷ ys) a b same = ground (arith, same y, ==_self y)
IsAscending-eq (x ∷ xs) [] a b same = ground (arith, same x, ==_self x)
IsAscending-eq (x ∷ xs) (y ∷ ys) a b same =
    ap₂ ◌∷◌ (heads_agree x y xs ys a b same)
      (IsAscending-eq xs ys a.1 b.1 (tails_agree x y xs ys a b same))
