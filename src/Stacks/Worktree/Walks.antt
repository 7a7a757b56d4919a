-- ===== src/Stacks/Worktree/Walks.antt =====
-- What the two walks of reconcileCacheWorktree leave of the cache.
use idpbuilder.Base.{
  ◌≡◌, refl, sym, ◌∙◌, ap, Bool, true, false, not, List, [], ◌∷◌, ◌++◌, ◌||◌, ◌&&◌, inl, inr,
  Bool-cases, Option, none, some, if◌then◌else◌, map, Outcome, ok, err, Error, ok-injective, arith,
  subst,
}
use idpbuilder.Base.Text.{Text, ◌==◌, ==_iff, ==_self}
use idpbuilder.Stacks.Files.{
  FilePath, Leaf, Entries, no_entries, leaf, directory, leaf_at, look, has_name, IsFileTree,
  remove_empty,
}
use idpbuilder.Stacks.Files.Laws.{has_name-leaf_at, SameLeaves, remove_empty-SameLeaves}
use idpbuilder.Stacks.Files.Unique.{remove_empty-IsFileTree}
use idpbuilder.Stacks.Worktree.{
  Faults, unless, Pruned, keep_leaf, keep_directory, drop_entry, enter_directory, nothing_skipped,
  prune, remove_dirs, remove,
}

pub unless-ok :
    {A : Type 0} (e : Option Error) (r : Outcome A) (a : A) → unless e r ≡ ok a → r ≡ ok a
unless-ok none r a h = h
unless-ok (some e) r a h = cc

-- None of the directories above a path is itself a path of the snapshot.
unfoldable pub clear : (wanted : FilePath → Bool) → FilePath → Bool
clear wanted [] = true
clear wanted (n ∷ []) = true
clear wanted (n ∷ m ∷ p) = not (wanted (n ∷ [])) && clear (λ q. wanted (n ∷ q)) (m ∷ p)

-- The leaves that are kept: those under a name that is passed over, and those of the snapshot.
abbrev pub KeepsAt :
    (skip : Text → Bool) → (wanted : FilePath → Bool) → Entries → Entries → Text → FilePath → Type 0
KeepsAt skip wanted t t' n p =
    leaf_at t' (n ∷ p)
    ≡ (if skip n || (wanted (n ∷ p) && clear wanted (n ∷ p)) then leaf_at t (n ∷ p) else none)

abbrev pub Keeps : (skip : Text → Bool) → (wanted : FilePath → Bool) → Entries → Entries → Type 0
Keeps skip wanted t t' = (n : Text) (p : FilePath) → KeepsAt skip wanted t t' n p

abbrev NoNewNames : Entries → Entries → Type 0
NoNewNames t t' = (k : Text) → has_name k t ≡ false → has_name k t' ≡ false

-- What the walk leaves of a directory.
abbrev pub IsPruned : (skip : Text → Bool) → (wanted : FilePath → Bool) → Entries → Entries → Type 0
IsPruned skip wanted t t' = IsFileTree t' × NoNewNames t t' × Keeps skip wanted t t'

keep_leaf-ok :
    (m : Text) (l : Leaf) (r : Outcome Pruned) (t : Entries) (removed : List FilePath)
    → keep_leaf m l r ≡ ok (t, removed)
    → (rest : Entries) × (below : List FilePath) × (r ≡ ok (rest, below)) × (leaf m l rest ≡ t)
keep_leaf-ok m l (err e) t removed h = cc
keep_leaf-ok m l (ok (rest, below)) t removed h =
    (rest, below, refl, ap (λ x. x.0) (ok-injective (leaf m l rest, below) (t, removed) h))

keep_directory-ok :
    (m : Text) (inner : Entries) (r : Outcome Pruned) (t : Entries) (removed : List FilePath)
    → keep_directory m inner r ≡ ok (t, removed)
    → (rest : Entries) × (below : List FilePath) × (r ≡ ok (rest, below))
      × (directory m inner rest ≡ t)
keep_directory-ok m inner (err e) t removed h = cc
keep_directory-ok m inner (ok (rest, below)) t removed h =
    (rest, below, refl, ap (λ x. x.0) (ok-injective (directory m inner rest, below) (t, removed) h))

drop_entry-ok :
    (m : Text) (r : Outcome Pruned) (t : Entries) (removed : List FilePath)
    → drop_entry m r ≡ ok (t, removed)
    → (below : List FilePath) × (r ≡ ok (t, below))
drop_entry-ok m (err e) t removed h = cc
drop_entry-ok m (ok (rest, below)) t removed h =
    let same : rest ≡ t = ap (λ x. x.0) (ok-injective (rest, (m ∷ []) ∷ below) (t, removed) h) in
    (below, ap (λ x. ok (x, below)) same)

enter_directory-ok :
    (m : Text) (r s : Outcome Pruned) (t : Entries) (removed : List FilePath)
    → enter_directory m r s ≡ ok (t, removed)
    → (inner : Entries) × (a : List FilePath) × (rest : Entries) × (b : List FilePath) × (r
        ≡ ok (inner, a))
      × (s ≡ ok (rest, b))
      × (directory m inner rest ≡ t)
enter_directory-ok m (err e) s t removed h = cc
enter_directory-ok m (ok (inner, a)) (err e) t removed h = cc
enter_directory-ok m (ok (inner, a)) (ok (rest, b)) t removed h = (
  inner,
  a,
  rest,
  b,
  refl,
  refl,
  ap (λ x. x.0) (ok-injective (directory m inner rest, map (λ p. m ∷ p) a ++ b) (t, removed) h),
)

module _ (skip : Text → Bool) (wanted : FilePath → Bool) (m : Text) (rest rest' : Entries) where
  -- At the name of the entry itself.
  kept_leaf :
      (l : Leaf) (p : FilePath)
      → (skip m || wanted (m ∷ [])) ≡ true
      → KeepsAt skip wanted (leaf m l rest) (leaf m l rest') m p
  unfolding look clear
  kept_leaf l [] k = ground (arith, k, ==_self m)
  kept_leaf l (j ∷ q) k = ground (arith, ==_self m)

  dropped_leaf :
      (l : Leaf) (p : FilePath)
      → (skip m || wanted (m ∷ [])) ≡ false
      → has_name m rest' ≡ false
      → KeepsAt skip wanted (leaf m l rest) rest' m p
  unfolding look clear
  dropped_leaf l [] k u = ground (arith, k, ==_self m, has_name-leaf_at rest' m [] u)
  dropped_leaf l (j ∷ q) k u = ground (arith, ==_self m, has_name-leaf_at rest' m (j ∷ q) u)

  kept_directory :
      (inner : Entries) (p : FilePath)
      → skip m ≡ true
      → KeepsAt skip wanted (directory m inner rest) (directory m inner rest') m p
  unfolding look
  kept_directory inner p k = ground (arith, k, ==_self m)

  dropped_directory :
      (inner : Entries) (p : FilePath)
      → skip m ≡ false
      → wanted (m ∷ []) ≡ true
      → has_name m rest' ≡ false
      → KeepsAt skip wanted (directory m inner rest) rest' m p
  unfolding look clear
  dropped_directory inner [] k wm u = ground (arith, k, ==_self m, has_name-leaf_at rest' m [] u)
  dropped_directory inner (j ∷ q) k wm u = ground (arith, k, wm, has_name-leaf_at rest' m (j ∷ q) u)

  entered_directory :
      (inner inner' : Entries) (p : FilePath)
      → skip m ≡ false
      → wanted (m ∷ []) ≡ false
      → Keeps nothing_skipped (λ p. wanted (m ∷ p)) inner inner'
      → KeepsAt skip wanted (directory m inner rest) (directory m inner' rest') m p
  unfolding look clear
  entered_directory inner inner' [] k wm below = ground (arith, k, wm, ==_self m)
  entered_directory inner inner' (j ∷ q) k wm below = ground (arith, k, wm, ==_self m, below j q)

  keep_leaf-IsPruned :
      (l : Leaf)
      → (skip m || wanted (m ∷ [])) ≡ true
      → has_name m rest ≡ false
      → IsPruned skip wanted rest rest'
      → IsPruned skip wanted (leaf m l rest) (leaf m l rest')
  unfolding look has_name clear
  keep_leaf-IsPruned l k u (w, names, keeps) = (
    (names m u, w),
    (λ j h. ground (arith, h, names j)),
    (λ n p. elim (Bool-cases (n == m)) [
      | inl e ↦
          subst (λ x. KeepsAt skip wanted (leaf m l rest) (leaf m l rest') x p)
            (sym ((==_iff n m).0 e)) (kept_leaf l p k)
      | inr e ↦ ground (arith, e, keeps n p)
    ]),
  )

  drop_leaf-IsPruned :
      (l : Leaf)
      → (skip m || wanted (m ∷ [])) ≡ false
      → has_name m rest ≡ false
      → IsPruned skip wanted rest rest'
      → IsPruned skip wanted (leaf m l rest) rest'
  unfolding look has_name clear
  drop_leaf-IsPruned l k u (w, names, keeps) = (
    w,
    (λ j h. names j (ground (arith, h))),
    (λ n p. elim (Bool-cases (n == m)) [
      | inl e ↦
          subst (λ x. KeepsAt skip wanted (leaf m l rest) rest' x p) (sym ((==_iff n m).0 e))
            (dropped_leaf l p k (names m u))
      | inr e ↦ ground (arith, e, keeps n p)
    ]),
  )

  keep_directory-IsPruned :
      (inner : Entries)
      → skip m ≡ true
      → has_name m rest ≡ false
      → IsFileTree inner
      → IsPruned skip wanted rest rest'
      → IsPruned skip wanted (directory m inner rest) (directory m inner rest')
  unfolding look has_name clear
  keep_directory-IsPruned inner k u v (w, names, keeps) = (
    (names m u, v, w),
    (λ j h. ground (arith, h, names j)),
    (λ n p. elim (Bool-cases (n == m)) [
      | inl e ↦
          subst (λ x. KeepsAt skip wanted (directory m inner rest) (directory m inner rest') x p)
            (sym ((==_iff n m).0 e)) (kept_directory inner p k)
      | inr e ↦ ground (arith, e, keeps n p)
    ]),
  )

  drop_directory-IsPruned :
      (inner : Entries)
      → skip m ≡ false
      → wanted (m ∷ []) ≡ true
      → has_name m rest ≡ false
      → IsPruned skip wanted rest rest'
      → IsPruned skip wanted (directory m inner rest) rest'
  unfolding look has_name clear
  drop_directory-IsPruned inner k wm u (w, names, keeps) = (
    w,
    (λ j h. names j (ground (arith, h))),
    (λ n p. elim (Bool-cases (n == m)) [
      | inl e ↦
          subst (λ x. KeepsAt skip wanted (directory m inner rest) rest' x p)
            (sym ((==_iff n m).0 e)) (dropped_directory inner p k wm (names m u))
      | inr e ↦ ground (arith, e, keeps n p)
    ]),
  )

  enter_directory-IsPruned :
      (inner inner' : Entries)
      → skip m ≡ false
      → wanted (m ∷ []) ≡ false
      → has_name m rest ≡ false
      → IsPruned nothing_skipped (λ p. wanted (m ∷ p)) inner inner'
      → IsPruned skip wanted rest rest'
      → IsPruned skip wanted (directory m inner rest) (directory m inner' rest')
  unfolding look has_name clear
  enter_directory-IsPruned inner inner' k wm u (v, _, below) (w, names, keeps) = (
    (names m u, v, w),
    (λ j h. ground (arith, h, names j)),
    (λ n p. elim (Bool-cases (n == m)) [
      | inl e ↦
          subst (λ x. KeepsAt skip wanted (directory m inner rest) (directory m inner' rest') x p)
            (sym ((==_iff n m).0 e)) (entered_directory inner inner' p k wm below)
      | inr e ↦ ground (arith, e, keeps n p)
    ]),
  )

-- Of a directory with unique names the walk leaves one, with the leaves that it keeps.
pub prune-IsPruned :
    (skip : Text → Bool) (wanted : FilePath → Bool) (fault : FilePath → Option Error)
    (t t' : Entries) (removed : List FilePath)
    → prune skip wanted fault t ≡ ok (t', removed)
    → IsFileTree t
    → IsPruned skip wanted t t'
unfolding prune look has_name
prune-IsPruned skip wanted fault no_entries t' removed h w =
    subst (IsPruned skip wanted no_entries)
      (ap (λ x. x.0) (ok-injective (no_entries, []) (t', removed) h))
      (tt, (λ k e. e), (λ n p. ground arith))
prune-IsPruned skip wanted fault (leaf m l rest) t' removed h w =
    elim (Bool-cases (skip m || wanted (m ∷ []))) [
      | inl k ↦
          let (rest', below, a, b) =
            keep_leaf-ok m l (prune skip wanted fault rest) t' removed (rw k at h) in
          subst (IsPruned skip wanted (leaf m l rest)) b (
            keep_leaf-IsPruned skip wanted m rest rest' l k w.0
              (prune-IsPruned skip wanted fault rest rest' below a w.1))
      | inr k ↦
          let dropped =
            unless-ok (fault (m ∷ [])) (drop_entry m (prune skip wanted fault rest)) (t', removed)
              (rw k at h) in
          let (below, a) = drop_entry-ok m (prune skip wanted fault rest) t' removed dropped in
          drop_leaf-IsPruned skip wanted m rest t' l k w.0
            (prune-IsPruned skip wanted fault rest t' below a w.1)
    ]
prune-IsPruned skip wanted fault (directory m inner rest) t' removed h w =
    let after = prune skip wanted fault rest in
    elim (Bool-cases (skip m)) [
      | inl k ↦
          let (rest', below, a, b) = keep_directory-ok m inner after t' removed (rw k at h) in
          subst (IsPruned skip wanted (directory m inner rest)) b (
            keep_directory-IsPruned skip wanted m rest rest' inner k w.0 w.1
              (prune-IsPruned skip wanted fault rest rest' below a w.2))
      | inr k ↦ elim (Bool-cases (wanted (m ∷ []))) [
        | inl wm ↦
            let dropped =
              unless-ok (fault (m ∷ [])) (drop_entry m after) (t', removed) (rw (k, wm) at h) in
            let (below, a) = drop_entry-ok m after t' removed dropped in
            drop_directory-IsPruned skip wanted m rest t' inner k wm w.0
              (prune-IsPruned skip wanted fault rest t' below a w.2)
        | inr wm ↦
            let (inner', x, rest', y, a, b, c) =
              enter_directory-ok m
                (prune nothing_skipped (λ p. wanted (m ∷ p)) (λ p. fault (m ∷ p)) inner) after t'
                removed (rw (k, wm) at h) in
            subst (IsPruned skip wanted (directory m inner rest)) c (
              enter_directory-IsPruned skip wanted m rest rest' inner inner' k wm w.0
                (prune-IsPruned nothing_skipped (λ p. wanted (m ∷ p)) (λ p. fault (m ∷ p)) inner
                  inner' x a w.1)
                (prune-IsPruned skip wanted fault rest rest' y b w.2))
      ]
    ]

-- The removal of empty directories changes no leaf.
pub remove_dirs-SameLeaves :
    (faults : Faults) (paths : List FilePath) (t t' : Entries)
    → remove_dirs faults paths t ≡ ok t'
    → IsFileTree t
    → SameLeaves t' t
unfolding remove_dirs
remove_dirs-SameLeaves faults [] t t' h w = λ q. ap (λ u. leaf_at u q) (sym (ok-injective t t' h))
remove_dirs-SameLeaves faults (p ∷ paths) t t' h w = λ q.
    let later =
      remove_dirs-SameLeaves faults paths (remove_empty t p) t'
        (unless-ok (faults remove p) (remove_dirs faults paths (remove_empty t p)) t' h)
        (remove_empty-IsFileTree t p w) in
    later q ∙ remove_empty-SameLeaves t p w q

pub remove_dirs-IsFileTree :
    (faults : Faults) (paths : List FilePath) (t t' : Entries)
    → remove_dirs faults paths t ≡ ok t'
    → IsFileTree t
    → IsFileTree t'
unfolding remove_dirs
remove_dirs-IsFileTree faults [] t t' h w = subst IsFileTree (ok-injective t t' h) w
remove_dirs-IsFileTree faults (p ∷ paths) t t' h w =
    remove_dirs-IsFileTree faults paths (remove_empty t p) t'
      (unless-ok (faults remove p) (remove_dirs faults paths (remove_empty t p)) t' h)
      (remove_empty-IsFileTree t p w)
