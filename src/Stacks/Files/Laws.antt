-- ===== src/Stacks/Files/Laws.antt =====
-- What each change of a directory leaves at every path, and that names stay unique.
use idpbuilder.Base.{
  ◌≡◌, ◌↔◌, refl, sym, ◌∙◌, ap, true, false, [], ◌∷◌, inl, inr, Bool-cases, none, some,
  if◌then◌else◌, Outcome, ok, err, ok-injective, arith, subst,
}
use idpbuilder.Base.Text.{Text, ◌==◌, ==_iff}
use idpbuilder.Stacks.Files.{
  FilePath, Leaf, Entries, no_entries, leaf, directory, look, leaf_at, make_dirs, write,
  remove_empty, has_name, IsFileTree, chain, put_leaf, put_rest, put_inner, new_leaf, replace_leaf,
  rmdir_at, same_path,
}

-- No leaf stands below a name that a directory does not have.
pub has_name-leaf_at :
    (t : Entries) (n : Text) (p : FilePath) → has_name n t ≡ false → leaf_at t (n ∷ p) ≡ none
unfolding look has_name
has_name-leaf_at no_entries n p h = refl
has_name-leaf_at (leaf m l rest) n p h = ground (arith, has_name-leaf_at rest n p)
has_name-leaf_at (directory m inner rest) n p h = ground (arith, has_name-leaf_at rest n p)

leaf_at-chain : (p q : FilePath) → leaf_at (chain p) q ≡ none
unfolding look chain
leaf_at-chain [] [] = refl
leaf_at-chain [] (m ∷ q) = refl
leaf_at-chain (n ∷ p) [] = refl
leaf_at-chain (n ∷ p) (m ∷ q) = ground (arith, leaf_at-chain p q)

-- What a step that succeeded went on from.
pub put_leaf-ok :
    (m : Text) (l : Leaf) (r : Outcome Entries) (t : Entries)
    → put_leaf m l r ≡ ok t
    → (rest : Entries) × (r ≡ ok rest) × (leaf m l rest ≡ t)
put_leaf-ok m l (err e) t h = cc
put_leaf-ok m l (ok rest) t h = (rest, refl, ok-injective (leaf m l rest) t h)

pub put_rest-ok :
    (m : Text) (inner : Entries) (r : Outcome Entries) (t : Entries)
    → put_rest m inner r ≡ ok t
    → (rest : Entries) × (r ≡ ok rest) × (directory m inner rest ≡ t)
put_rest-ok m inner (err e) t h = cc
put_rest-ok m inner (ok rest) t h = (rest, refl, ok-injective (directory m inner rest) t h)

pub put_inner-ok :
    (m : Text) (r : Outcome Entries) (rest t : Entries)
    → put_inner m r rest ≡ ok t
    → (inner : Entries) × (r ≡ ok inner) × (directory m inner rest ≡ t)
put_inner-ok m (err e) rest t h = cc
put_inner-ok m (ok inner) rest t h = (inner, refl, ok-injective (directory m inner rest) t h)

pub replace_leaf-ok :
    (m : Text) (below : FilePath) (l : Leaf) (rest t : Entries)
    → replace_leaf m below l rest ≡ ok t
    → (below ≡ []) × (leaf m l rest ≡ t)
replace_leaf-ok m [] l rest t h = (refl, ok-injective (leaf m l rest) t h)
replace_leaf-ok m (n ∷ p) l rest t h = cc

pub new_leaf-ok :
    (n : Text) (below : FilePath) (l : Leaf) (t : Entries)
    → new_leaf n below l ≡ ok t
    → (below ≡ []) × (leaf n l no_entries ≡ t)
new_leaf-ok n [] l t h = (refl, ok-injective (leaf n l no_entries) t h)
new_leaf-ok n (m ∷ p) l t h = cc

-- Two directories with the same leaves.
abbrev pub SameLeaves : Entries → Entries → Type 0
SameLeaves t u = (q : FilePath) → leaf_at t q ≡ leaf_at u q

leaf-SameLeaves :
    (m : Text) (l : Leaf) (t u : Entries) → SameLeaves t u → SameLeaves (leaf m l t) (leaf m l u)
unfolding look
leaf-SameLeaves m l t u h [] = refl
leaf-SameLeaves m l t u h (n ∷ p) = ground (arith, h (n ∷ p))

rest-SameLeaves :
    (m : Text) (inner t u : Entries)
    → SameLeaves t u
    → SameLeaves (directory m inner t) (directory m inner u)
unfolding look
rest-SameLeaves m inner t u h [] = refl
rest-SameLeaves m inner t u h (n ∷ p) = ground (arith, h (n ∷ p))

inner-SameLeaves :
    (m : Text) (rest t u : Entries)
    → SameLeaves t u
    → SameLeaves (directory m t rest) (directory m u rest)
unfolding look
inner-SameLeaves m rest t u h [] = refl
inner-SameLeaves m rest t u h (n ∷ p) = ground (arith, h p)

-- MkdirAll changes no leaf.
pub make_dirs-SameLeaves : (t t' : Entries) (p : FilePath) → make_dirs t p ≡ ok t' → SameLeaves t' t
unfolding make_dirs
make_dirs-SameLeaves t t' [] h = λ q. ap (λ u. leaf_at u q) (sym (ok-injective t t' h))
make_dirs-SameLeaves no_entries t' (n ∷ p) h = λ q.
    subst (λ u. leaf_at u q ≡ leaf_at no_entries q)
      (ok-injective (directory n (chain p) no_entries) t' h)
      (leaf_at-chain (n ∷ p) q ∙ sym (leaf_at-chain [] q))
make_dirs-SameLeaves (leaf m l rest) t' (n ∷ p) h = elim (Bool-cases (n == m)) [
  | inl e ↦ absurd (ground (arith, e, h))
  | inr e ↦
      let (rest', a, b) = put_leaf-ok m l (make_dirs rest (n ∷ p)) t' (rw e at h) in
      subst (λ u. SameLeaves u (leaf m l rest)) b
        (leaf-SameLeaves m l rest' rest (make_dirs-SameLeaves rest rest' (n ∷ p) a))
]
make_dirs-SameLeaves (directory m inner rest) t' (n ∷ p) h = elim (Bool-cases (n == m)) [
  | inl e ↦
      let (inner', a, b) = put_inner-ok m (make_dirs inner p) rest t' (rw e at h) in
      subst (λ u. SameLeaves u (directory m inner rest)) b
        (inner-SameLeaves m rest inner' inner (make_dirs-SameLeaves inner inner' p a))
  | inr e ↦
      let (rest', a, b) = put_rest-ok m inner (make_dirs rest (n ∷ p)) t' (rw e at h) in
      subst (λ u. SameLeaves u (directory m inner rest)) b
        (rest-SameLeaves m inner rest' rest (make_dirs-SameLeaves rest rest' (n ∷ p) a))
]

-- A write sets the leaf at its path and changes no other.
abbrev Written : Entries → FilePath → Leaf → Entries → Type 0
Written t p l t' = (q : FilePath) → leaf_at t' q ≡ (if same_path q p then some l else leaf_at t q)

leaf_step :
    (m : Text) (old l : Leaf) (rest rest' : Entries) (n : Text) (p : FilePath)
    → (n == m) ≡ false
    → Written rest (n ∷ p) l rest'
    → Written (leaf m old rest) (n ∷ p) l (leaf m old rest')
unfolding look same_path
leaf_step m old l rest rest' n p e w [] = refl
leaf_step m old l rest rest' n p e w (k ∷ q) =
    ground (arith, w (k ∷ q), ==_iff k m, ==_iff k n, ==_iff n m)

rest_step :
    (m : Text) (inner : Entries) (l : Leaf) (rest rest' : Entries) (n : Text) (p : FilePath)
    → (n == m) ≡ false
    → Written rest (n ∷ p) l rest'
    → Written (directory m inner rest) (n ∷ p) l (directory m inner rest')
unfolding look same_path
rest_step m inner l rest rest' n p e w [] = refl
rest_step m inner l rest rest' n p e w (k ∷ q) =
    ground (arith, w (k ∷ q), ==_iff k m, ==_iff k n, ==_iff n m)

inner_step :
    (m : Text) (inner inner' : Entries) (l : Leaf) (rest : Entries) (n : Text) (p : FilePath)
    → (n == m) ≡ true
    → Written inner p l inner'
    → Written (directory m inner rest) (n ∷ p) l (directory m inner' rest)
unfolding look same_path
inner_step m inner inner' l rest n p e w [] = refl
inner_step m inner inner' l rest n p e w (k ∷ q) =
    ground (arith, w q, ==_iff k m, ==_iff k n, ==_iff n m)

here_step :
    (m : Text) (old l : Leaf) (rest : Entries) (n : Text)
    → (n == m) ≡ true
    → Written (leaf m old rest) (n ∷ []) l (leaf m l rest)
unfolding look same_path
here_step m old l rest n e [] = refl
here_step m old l rest n e (k ∷ []) = ground (arith, ==_iff k m, ==_iff k n, ==_iff n m)
here_step m old l rest n e (k ∷ j ∷ q) = ground (arith, ==_iff k m, ==_iff k n, ==_iff n m)

new_step : (n : Text) (l : Leaf) → Written no_entries (n ∷ []) l (leaf n l no_entries)
unfolding look same_path
new_step n l [] = refl
new_step n l (k ∷ []) = ground (arith, ==_iff k n)
new_step n l (k ∷ j ∷ q) = ground (arith, ==_iff k n)

pub leaf_at-write :
    (t t' : Entries) (p : FilePath) (l : Leaf) → write t p l ≡ ok t' → Written t p l t'
unfolding write
leaf_at-write t t' [] l h = cc
leaf_at-write no_entries t' (n ∷ p) l h =
    let (a, b) = new_leaf-ok n p l t' h in
    subst (λ r. Written no_entries (n ∷ r) l t') (sym a)
      (subst (Written no_entries (n ∷ []) l) b (new_step n l))
leaf_at-write (leaf m old rest) t' (n ∷ p) l h = elim (Bool-cases (n == m)) [
  | inl e ↦
      let (a, b) = replace_leaf-ok m p l rest t' (rw e at h) in
      subst (λ r. Written (leaf m old rest) (n ∷ r) l t') (sym a)
        (subst (Written (leaf m old rest) (n ∷ []) l) b (here_step m old l rest n e))
  | inr e ↦
      let (rest', a, b) = put_leaf-ok m old (write rest (n ∷ p) l) t' (rw e at h) in
      subst (Written (leaf m old rest) (n ∷ p) l) b
        (leaf_step m old l rest rest' n p e (leaf_at-write rest rest' (n ∷ p) l a))
]
leaf_at-write (directory m inner rest) t' (n ∷ p) l h = elim (Bool-cases (n == m)) [
  | inl e ↦
      let (inner', a, b) = put_inner-ok m (write inner p l) rest t' (rw e at h) in
      subst (Written (directory m inner rest) (n ∷ p) l) b
        (inner_step m inner inner' l rest n p e (leaf_at-write inner inner' p l a))
  | inr e ↦
      let (rest', a, b) = put_rest-ok m inner (write rest (n ∷ p) l) t' (rw e at h) in
      subst (Written (directory m inner rest) (n ∷ p) l) b
        (rest_step m inner l rest rest' n p e (leaf_at-write rest rest' (n ∷ p) l a))
]

none_at : (p : FilePath) → leaf_at no_entries p ≡ none
unfolding look
none_at [] = refl
none_at (n ∷ p) = refl

removed_empty :
    (m : Text) (rest : Entries)
    → has_name m rest ≡ false
    → SameLeaves rest (directory m no_entries rest)
unfolding look
removed_empty m rest h [] = refl
removed_empty m rest h (n ∷ p) = elim (Bool-cases (n == m)) [
  | inl e ↦ rw e (
      subst (λ x. leaf_at rest (x ∷ p) ≡ none) (sym ((==_iff n m).0 e))
        (has_name-leaf_at rest m p h)
      ∙ sym (none_at p))
  | inr e ↦ rw e refl
]

rmdir_at-SameLeaves :
    (m : Text) (inner rest : Entries)
    → has_name m rest ≡ false
    → SameLeaves (rmdir_at m inner rest) (directory m inner rest)
unfolding look
rmdir_at-SameLeaves m no_entries rest h = removed_empty m rest h
rmdir_at-SameLeaves m (leaf n l more) rest h = λ q. refl
rmdir_at-SameLeaves m (directory n i more) rest h = λ q. refl

-- The removal of an empty directory changes no leaf.
pub remove_empty-SameLeaves :
    (t : Entries) (p : FilePath) → IsFileTree t → SameLeaves (remove_empty t p) t
unfolding remove_empty
remove_empty-SameLeaves t [] w = λ q. refl
remove_empty-SameLeaves no_entries (n ∷ p) w = λ q. refl
remove_empty-SameLeaves (leaf m l rest) (n ∷ p) w = elim (Bool-cases (n == m)) [
  | inl e ↦ rw e (λ q. refl)
  | inr e ↦ rw e (
      leaf-SameLeaves m l (remove_empty rest (n ∷ p)) rest
        (remove_empty-SameLeaves rest (n ∷ p) w.1))
]
remove_empty-SameLeaves (directory m inner rest) (n ∷ []) w = elim (Bool-cases (n == m)) [
  | inl e ↦ rw e (rmdir_at-SameLeaves m inner rest w.0)
  | inr e ↦ rw e (
      rest-SameLeaves m inner (remove_empty rest (n ∷ [])) rest
        (remove_empty-SameLeaves rest (n ∷ []) w.2))
]
remove_empty-SameLeaves (directory m inner rest) (n ∷ k ∷ p) w = elim (Bool-cases (n == m)) [
  | inl e ↦ rw e (
      inner-SameLeaves m rest (remove_empty inner (k ∷ p)) inner
        (remove_empty-SameLeaves inner (k ∷ p) w.1))
  | inr e ↦ rw e (
      rest-SameLeaves m inner (remove_empty rest (n ∷ k ∷ p)) rest
        (remove_empty-SameLeaves rest (n ∷ k ∷ p) w.2))
]

pub same_path_iff : (p q : FilePath) → (same_path p q ≡ true) ↔ (p ≡ q)
unfolding same_path
same_path_iff [] [] = (λ _. refl, λ _. refl)
same_path_iff [] (m ∷ q) = (λ h. cc, λ h. cc)
same_path_iff (n ∷ p) [] = (λ h. cc, λ h. cc)
same_path_iff (n ∷ p) (m ∷ q) = ground (arith, ==_iff n m, same_path_iff p q)
