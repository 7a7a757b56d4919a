-- ===== src/Stacks/Kustomize/Measure.antt =====
-- How many kustomizations of the repository the traversal has not seen.
use idpbuilder.Base.{◌≡◌, true, false, ℕ, ◌≤◌, ◌<◌, List, [], ◌∷◌, not, arith, length, select}
use idpbuilder.Base.Text.{Text, ==_iff}
use idpbuilder.Base.Names.{contains, add_key, contains-add_key}

unfoldable pub unseen : List Text → List Text → ℕ
unseen universe seen = length (select (λ k. not (contains seen k)) universe)

pub unseen_mono :
    (universe seen seen' : List Text)
    → ((k : Text) → contains seen k ≡ true → contains seen' k ≡ true)
    → unseen universe seen' ≤ unseen universe seen
unfolding unseen select
unseen_mono [] seen seen' h = omega arith
unseen_mono (k ∷ universe) seen seen' h = ground (arith, h k, unseen_mono universe seen seen' h)

contains-add_key_of_contains :
    (seen : List Text) (k j : Text) → contains seen j ≡ true → contains (add_key k seen) j ≡ true
contains-add_key_of_contains seen k j h = ground (arith, contains-add_key seen j k)

pub unseen-add_key :
    (universe seen : List Text) (k : Text)
    → contains universe k ≡ true
    → contains seen k ≡ false
    → unseen universe (add_key k seen) < unseen universe seen
unfolding unseen select contains
unseen-add_key [] seen k h new = cc
unseen-add_key (j ∷ universe) seen k h new = ground (
  arith,
  contains-add_key seen j k,
  ==_iff k j,
  ==_iff j k,
  unseen_mono universe seen (add_key k seen) (contains-add_key_of_contains seen k),
  unseen-add_key universe seen k,
)

pub unseen-le : (universe seen : List Text) → unseen universe seen ≤ length universe
unfolding unseen select
unseen-le [] seen = omega arith
unseen-le (k ∷ universe) seen = ground (arith, unseen-le universe seen)
