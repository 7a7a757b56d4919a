-- ===== src/Stacks/Files/Unique.antt =====
-- Every change of a directory leaves each name in it once.
use idpbuilder.Base.{
  ◌≡◌, refl, ◌∙◌, false, [], ◌∷◌, inl, inr, Bool-cases, ok, ok-injective, arith, subst,
}
use idpbuilder.Base.Text.{Text, ◌==◌, ==_iff}
use idpbuilder.Stacks.Files.{
  FilePath, Leaf, Entries, no_entries, leaf, directory, make_dirs, write, remove_empty, has_name,
  IsFileTree, chain, rmdir_at,
}
use idpbuilder.Stacks.Files.Laws.{
  put_leaf-ok, put_rest-ok, put_inner-ok, replace_leaf-ok, new_leaf-ok,
}

chain-IsFileTree : (p : FilePath) → IsFileTree (chain p)
unfolding chain has_name
chain-IsFileTree [] = tt
chain-IsFileTree (n ∷ p) = (refl, chain-IsFileTree p, tt)

-- A name that is not the first of the path is in the directory as before.
has_name-make_dirs :
    (t t' : Entries) (n k : Text) (p : FilePath)
    → make_dirs t (n ∷ p) ≡ ok t'
    → (n == k) ≡ false
    → has_name k t' ≡ has_name k t
unfolding make_dirs has_name
has_name-make_dirs no_entries t' n k p h d =
    subst (λ u. has_name k u ≡ false) (ok-injective (directory n (chain p) no_entries) t' h)
      (ground (arith, d, ==_iff k n, ==_iff n k))
has_name-make_dirs (leaf m l rest) t' n k p h d = elim (Bool-cases (n == m)) [
  | inl e ↦ absurd (ground (arith, e, h))
  | inr e ↦
      let (rest', a, b) = put_leaf-ok m l (make_dirs rest (n ∷ p)) t' (rw e at h) in
      subst (λ u. has_name k u ≡ has_name k (leaf m l rest)) b
        (ground (arith, has_name-make_dirs rest rest' n k p a d))
]
has_name-make_dirs (directory m inner rest) t' n k p h d = elim (Bool-cases (n == m)) [
  | inl e ↦
      let (inner', a, b) = put_inner-ok m (make_dirs inner p) rest t' (rw e at h) in
      subst (λ u. has_name k u ≡ has_name k (directory m inner rest)) b refl
  | inr e ↦
      let (rest', a, b) = put_rest-ok m inner (make_dirs rest (n ∷ p)) t' (rw e at h) in
      subst (λ u. has_name k u ≡ has_name k (directory m inner rest)) b
        (ground (arith, has_name-make_dirs rest rest' n k p a d))
]

pub make_dirs-IsFileTree :
    (t t' : Entries) (p : FilePath) → make_dirs t p ≡ ok t' → IsFileTree t → IsFileTree t'
unfolding make_dirs has_name
make_dirs-IsFileTree t t' [] h w = subst IsFileTree (ok-injective t t' h) w
make_dirs-IsFileTree no_entries t' (n ∷ p) h w =
    subst IsFileTree (ok-injective (directory n (chain p) no_entries) t' h)
      (refl, chain-IsFileTree p, tt)
make_dirs-IsFileTree (leaf m l rest) t' (n ∷ p) h w = elim (Bool-cases (n == m)) [
  | inl e ↦ absurd (ground (arith, e, h))
  | inr e ↦
      let (rest', a, b) = put_leaf-ok m l (make_dirs rest (n ∷ p)) t' (rw e at h) in
      subst IsFileTree b (
        has_name-make_dirs rest rest' n m p a e ∙ w.0,
        make_dirs-IsFileTree rest rest' (n ∷ p) a w.1,
      )
]
make_dirs-IsFileTree (directory m inner rest) t' (n ∷ p) h w = elim (Bool-cases (n == m)) [
  | inl e ↦
      let (inner', a, b) = put_inner-ok m (make_dirs inner p) rest t' (rw e at h) in
      subst IsFileTree b (w.0, make_dirs-IsFileTree inner inner' p a w.1, w.2)
  | inr e ↦
      let (rest', a, b) = put_rest-ok m inner (make_dirs rest (n ∷ p)) t' (rw e at h) in
      subst IsFileTree b (
        has_name-make_dirs rest rest' n m p a e ∙ w.0,
        w.1,
        make_dirs-IsFileTree rest rest' (n ∷ p) a w.2,
      )
]

has_name-write :
    (t t' : Entries) (n k : Text) (p : FilePath) (l : Leaf)
    → write t (n ∷ p) l ≡ ok t'
    → (n == k) ≡ false
    → has_name k t' ≡ has_name k t
unfolding write has_name
has_name-write no_entries t' n k p l h d =
    let (a, b) = new_leaf-ok n p l t' h in
    subst (λ u. has_name k u ≡ false) b (ground (arith, d, ==_iff k n, ==_iff n k))
has_name-write (leaf m old rest) t' n k p l h d = elim (Bool-cases (n == m)) [
  | inl e ↦
      let (a, b) = replace_leaf-ok m p l rest t' (rw e at h) in
      subst (λ u. has_name k u ≡ has_name k (leaf m old rest)) b refl
  | inr e ↦
      let (rest', a, b) = put_leaf-ok m old (write rest (n ∷ p) l) t' (rw e at h) in
      subst (λ u. has_name k u ≡ has_name k (leaf m old rest)) b
        (ground (arith, has_name-write rest rest' n k p l a d))
]
has_name-write (directory m inner rest) t' n k p l h d = elim (Bool-cases (n == m)) [
  | inl e ↦
      let (inner', a, b) = put_inner-ok m (write inner p l) rest t' (rw e at h) in
      subst (λ u. has_name k u ≡ has_name k (directory m inner rest)) b refl
  | inr e ↦
      let (rest', a, b) = put_rest-ok m inner (write rest (n ∷ p) l) t' (rw e at h) in
      subst (λ u. has_name k u ≡ has_name k (directory m inner rest)) b
        (ground (arith, has_name-write rest rest' n k p l a d))
]

pub write-IsFileTree :
    (t t' : Entries) (p : FilePath) (l : Leaf) → write t p l ≡ ok t' → IsFileTree t → IsFileTree t'
unfolding write has_name
write-IsFileTree t t' [] l h w = cc
write-IsFileTree no_entries t' (n ∷ p) l h w =
    let (a, b) = new_leaf-ok n p l t' h in subst IsFileTree b (refl, tt)
write-IsFileTree (leaf m old rest) t' (n ∷ p) l h w = elim (Bool-cases (n == m)) [
  | inl e ↦ let (a, b) = replace_leaf-ok m p l rest t' (rw e at h) in subst IsFileTree b (w.0, w.1)
  | inr e ↦
      let (rest', a, b) = put_leaf-ok m old (write rest (n ∷ p) l) t' (rw e at h) in
      subst IsFileTree b
        (has_name-write rest rest' n m p l a e ∙ w.0, write-IsFileTree rest rest' (n ∷ p) l a w.1)
]
write-IsFileTree (directory m inner rest) t' (n ∷ p) l h w = elim (Bool-cases (n == m)) [
  | inl e ↦
      let (inner', a, b) = put_inner-ok m (write inner p l) rest t' (rw e at h) in
      subst IsFileTree b (w.0, write-IsFileTree inner inner' p l a w.1, w.2)
  | inr e ↦
      let (rest', a, b) = put_rest-ok m inner (write rest (n ∷ p) l) t' (rw e at h) in
      subst IsFileTree b (
        has_name-write rest rest' n m p l a e ∙ w.0,
        w.1,
        write-IsFileTree rest rest' (n ∷ p) l a w.2,
      )
]

-- The removal of a directory brings in no name.
has_name-rmdir_at :
    (m k : Text) (inner rest : Entries)
    → has_name k (directory m inner rest) ≡ false
    → has_name k (rmdir_at m inner rest) ≡ false
unfolding has_name
has_name-rmdir_at m k no_entries rest h = ground (arith, h)
has_name-rmdir_at m k (leaf n l more) rest h = h
has_name-rmdir_at m k (directory n i more) rest h = h

has_name-remove_empty :
    (t : Entries) (k : Text) (p : FilePath)
    → has_name k t ≡ false
    → has_name k (remove_empty t p) ≡ false
unfolding remove_empty has_name
has_name-remove_empty t k [] h = h
has_name-remove_empty no_entries k (n ∷ p) h = refl
has_name-remove_empty (leaf m l rest) k (n ∷ p) h =
    ground (arith, h, has_name-remove_empty rest k (n ∷ p))
has_name-remove_empty (directory m inner rest) k (n ∷ []) h = elim (Bool-cases (n == m)) [
  | inl e ↦ rw e (has_name-rmdir_at m k inner rest h)
  | inr e ↦ ground (arith, e, h, has_name-remove_empty rest k (n ∷ []))
]
has_name-remove_empty (directory m inner rest) k (n ∷ j ∷ p) h =
    ground (arith, h, has_name-remove_empty rest k (n ∷ j ∷ p))

rmdir_at-IsFileTree :
    (m : Text) (inner rest : Entries)
    → IsFileTree (directory m inner rest)
    → IsFileTree (rmdir_at m inner rest)
rmdir_at-IsFileTree m no_entries rest w = w.2
rmdir_at-IsFileTree m (leaf n l more) rest w = w
rmdir_at-IsFileTree m (directory n i more) rest w = w

pub remove_empty-IsFileTree :
    (t : Entries) (p : FilePath) → IsFileTree t → IsFileTree (remove_empty t p)
unfolding remove_empty
remove_empty-IsFileTree t [] w = w
remove_empty-IsFileTree no_entries (n ∷ p) w = tt
remove_empty-IsFileTree (leaf m l rest) (n ∷ p) w = elim (Bool-cases (n == m)) [
  | inl e ↦ rw e w
  | inr e ↦
      rw e (has_name-remove_empty rest m (n ∷ p) w.0, remove_empty-IsFileTree rest (n ∷ p) w.1)
]
remove_empty-IsFileTree (directory m inner rest) (n ∷ []) w = elim (Bool-cases (n == m)) [
  | inl e ↦ rw e (rmdir_at-IsFileTree m inner rest w)
  | inr e ↦
      rw e
        (has_name-remove_empty rest m (n ∷ []) w.0, w.1, remove_empty-IsFileTree rest (n ∷ []) w.2)
]
remove_empty-IsFileTree (directory m inner rest) (n ∷ k ∷ p) w = elim (Bool-cases (n == m)) [
  | inl e ↦ rw e (w.0, remove_empty-IsFileTree inner (k ∷ p) w.1, w.2)
  | inr e ↦ rw e (
    has_name-remove_empty rest m (n ∷ k ∷ p) w.0,
    w.1,
    remove_empty-IsFileTree rest (n ∷ k ∷ p) w.2,
  )
]
