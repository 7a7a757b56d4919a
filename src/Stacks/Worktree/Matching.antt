-- ===== src/Stacks/Worktree/Matching.antt =====
-- When a file of the cache matches the one of the source.
use idpbuilder.Base.{
  ◌≡◌, ◌≢◌, refl, sym, ◌∙◌, ap, Bool, true, false, not, List, ◌||◌, ◌⊎◌, inl, inr, Bool-cases,
  Option, none, some, ℕ, eqb, length, ok, ok-injective, arith,
}
use idpbuilder.Base.Text.{◌==◌, ==_iff}
use idpbuilder.Stacks.Files.{
  Leaf, regular, symlink, irregular, leaf_of, Found, missing, blocked, is_directory, found,
}
use idpbuilder.Stacks.Worktree.{regular_files_equal}
use idpbuilder.Stacks.Worktree.Compare.{regular_files_equal-eq}
use idpbuilder.Stacks.Worktree.Reconcile.{source_leaf, match_leaf, match_found}

-- A regular file would be written where a link or a device stands.
abbrev pub overwrites_link : (source cache : Option Leaf) → Bool
overwrites_link (some (regular bytes perm mtime)) (some (symlink target)) = true
overwrites_link (some (regular bytes perm mtime)) (some irregular) = true
overwrites_link (some (regular bytes perm mtime)) (some (regular b p m)) = false
overwrites_link (some (regular bytes perm mtime)) none = false
overwrites_link (some (symlink target)) cache = false
overwrites_link (some irregular) cache = false
overwrites_link none cache = false

pub overwrites_link_self : (l : Option Leaf) → overwrites_link l l ≡ false
overwrites_link_self none = refl
overwrites_link_self (some (regular bytes perm mtime)) = refl
overwrites_link_self (some (symlink target)) = refl
overwrites_link_self (some irregular) = refl

pub overwrites_link-none : (l : Option Leaf) → overwrites_link l none ≡ false
overwrites_link-none none = refl
overwrites_link-none (some (regular bytes perm mtime)) = refl
overwrites_link-none (some (symlink target)) = refl
overwrites_link-none (some irregular) = refl

pub split_bool : true ≡ false → ⊥
split_bool e = cc

-- A leaf of a kind that is copied.
abbrev pub IsCopied : Leaf → Type 0
IsCopied l = l ≢ irregular

pub source_leaf-ok : (f : Found) (l : Leaf) → source_leaf f ≡ ok l → IsCopied l → leaf_of f ≡ some l
unfolding source_leaf
source_leaf-ok missing l h c = cc
source_leaf-ok blocked l h c = cc
source_leaf-ok is_directory l h c = absurd (c (sym (ok-injective irregular l h)))
source_leaf-ok (found x) l h c = ap some (ok-injective x l h)

pub match_regular :
    (b b' : List ℕ) (p p' m m' : ℕ) (o : Option Leaf)
    → match_leaf (regular b p m) (regular b' p' m') ≡ ok (true, o)
    → o ≡ some (regular b p m)
unfolding match_leaf
match_regular b b' p p' m m' o h =
    elim (Bool-cases (not (eqb p p') || not (eqb (length b) (length b')))) [
      | inl d ↦ absurd (ground (arith, d, h))
      | inr d ↦ elim (Bool-cases (regular_files_equal b b')) [
        | inr e ↦ absurd (ground (arith, d, e, h))
        | inl e ↦
            let set : some (regular b' p m) ≡ o =
              ap (λ x. x.1)
                (ok-injective (true, some (regular b' p m)) (true, o) (rw (d, e) at h)) in
            let same : b ≡ b' = (==_iff b b').0 (sym (regular_files_equal-eq b b') ∙ e) in
            sym (ap (λ x. some (regular x p m)) same ∙ set)
      ]
    ]

pub match_leaf-ok :
    (l c : Leaf) (o : Option Leaf)
    → match_leaf l c ≡ ok (true, o)
    → ((o ≡ none) × (c ≡ l)) ⊎ (o ≡ some l)
unfolding match_leaf
match_leaf-ok irregular c o h = cc
match_leaf-ok (symlink t) (symlink t') o h =
    let e : (t == t') ≡ true = ap (λ x. x.0) (ok-injective (t == t', none) (true, o) h) in
    inl (
      sym (ap (λ x. x.1) (ok-injective (t == t', none) (true, o) h)),
      ap symlink (sym ((==_iff t t').0 e)),
    )
match_leaf-ok (symlink t) (regular b p m) o h = cc
match_leaf-ok (symlink t) irregular o h = cc
match_leaf-ok (regular b p m) (symlink t) o h = cc
match_leaf-ok (regular b p m) irregular o h = cc
match_leaf-ok (regular b p m) (regular b' p' m') o h = inr (match_regular b b' p p' m m' o h)

-- No leaf is set where two do not match.
pub match_found-not :
    (l : Leaf) (d : Found) (o : Option Leaf) → match_found l d ≡ ok (false, o) → o ≡ none
unfolding match_found match_leaf
match_found-not l missing o h = cc
match_found-not l blocked o h = cc
match_found-not irregular is_directory o h = cc
match_found-not (symlink t) is_directory o h = cc
match_found-not (regular b p m) is_directory o h = cc
match_found-not irregular (found c) o h = cc
match_found-not (symlink t) (found (symlink t')) o h = cc
match_found-not (symlink t) (found (regular b p m)) o h = cc
match_found-not (symlink t) (found irregular) o h = cc
match_found-not (regular b p m) (found (symlink t)) o h = cc
match_found-not (regular b p m) (found irregular) o h = cc
match_found-not (regular b p m) (found (regular b' p' m')) o h =
    elim (Bool-cases (not (eqb p p') || not (eqb (length b) (length b')))) [
      | inl d ↦ ground (arith, d, h)
      | inr d ↦ elim (Bool-cases (regular_files_equal b b')) [
        | inr e ↦ ground (arith, d, e, h)
        | inl e ↦ absurd (ground (arith, d, e, h))
      ]
    ]

pub found_ok :
    (l c : Leaf) (o : Option Leaf)
    → match_leaf l c ≡ ok (true, o)
    → ((o ≡ none) × (some c ≡ some l)) ⊎ (o ≡ some l)
found_ok l c o h = elim (match_leaf-ok l c o h) [ inl (a, b) ↦ inl (a, ap some b) | inr a ↦ inr a ]

pub match_found-ok :
    (l : Leaf) (d : Found) (o : Option Leaf)
    → match_found l d ≡ ok (true, o)
    → ((o ≡ none) × (leaf_of d ≡ some l)) ⊎ (o ≡ some l)
unfolding match_found
match_found-ok l missing o h = cc
match_found-ok l blocked o h = cc
match_found-ok irregular is_directory o h = cc
match_found-ok (symlink t) is_directory o h = cc
match_found-ok (regular b p m) is_directory o h = cc
match_found-ok irregular (found c) o h = found_ok irregular c o h
match_found-ok (symlink t) (found c) o h = found_ok (symlink t) c o h
match_found-ok (regular b p m) (found c) o h = found_ok (regular b p m) c o h
