-- ===== src/Stacks/Worktree/OneFile.antt =====
-- One file is brought into the cache: snapshotPathMatches, and copySnapshotPath where it is false.
use idpbuilder.Base.{
  ◌≡◌, refl, sym, ◌∙◌, ap, Bool, true, false, List, [], ◌∷◌, ◌⊎◌, inl, inr, Bool-cases, Option,
  none, some, if◌then◌else◌, ℕ, ok, ok-injective, bind-ok, arith, subst,
}
use idpbuilder.Stacks.Files.{
  FilePath, Leaf, regular, symlink, irregular, Entries, leaf_at, leaf_of, look, IsFileTree,
  make_dirs, write, same_path, Found, missing, blocked, is_directory, found,
}
use idpbuilder.Stacks.Files.Laws.{make_dirs-SameLeaves, leaf_at-write, same_path_iff}
use idpbuilder.Stacks.Files.Unique.{make_dirs-IsFileTree, write-IsFileTree}
use idpbuilder.Stacks.Worktree.{
  unless, lstat_source, lstat_cache, read_source, read_cache, write_cache,
}
use idpbuilder.Stacks.Worktree.Walks.{unless-ok}
use idpbuilder.Stacks.Worktree.Reconcile.{
  Os, source_leaf, match_leaf, match_found, parent, stat_leaf, settle, snapshot_path_matches,
  make_link, make_file, place, copy_snapshot_path, copy_unless, compare_leaf, copy_leaf, place_read,
  touched_one, reconcile_file,
}
use idpbuilder.Stacks.Worktree.Matching.{
  overwrites_link, split_bool, IsCopied, source_leaf-ok, match_found-not, match_found-ok,
}

module _ (os : Os) (src : Entries) (rel : FilePath) where
  -- The cache after one file: as the source has it at its path, and as before everywhere else.
  abbrev pub IsBrought : Entries → Entries → Type 0
  IsBrought dst dst' =
      IsFileTree dst'
      × ((q : FilePath)
          → leaf_at dst' q ≡ (if same_path q rel then leaf_at src q else leaf_at dst q))

  written-IsBrought :
      (l : Leaf) (dst dst' : Entries)
      → leaf_at src rel ≡ some l
      → write dst rel l ≡ ok dst'
      → IsFileTree dst
      → IsBrought dst dst'
  written-IsBrought l dst dst' s h w = (
    write-IsFileTree dst dst' rel l h w,
    (λ q. elim (Bool-cases (same_path q rel)) [
      | inl e ↦
          let same : leaf_at src q ≡ some l = ap (leaf_at src) ((same_path_iff q rel).0 e) ∙ s in
          ground (arith, e, same, leaf_at-write dst dst' rel l h q)
      | inr e ↦ ground (arith, e, leaf_at-write dst dst' rel l h q)
    ]),
  )

  -- Where the cache has the leaf already.
  same-IsBrought :
      (l : Leaf) (dst : Entries)
      → leaf_at src rel ≡ some l
      → leaf_at dst rel ≡ some l
      → IsFileTree dst
      → IsBrought dst dst
  same-IsBrought l dst s d w = (
    w,
    (λ q. elim (Bool-cases (same_path q rel)) [
      | inl e ↦
          let at = (same_path_iff q rel).0 e in
          rw e (ap (leaf_at dst) at ∙ d ∙ sym s ∙ sym (ap (leaf_at src) at))
      | inr e ↦ rw e refl
    ]),
  )

  make_file-write :
      (b : List ℕ) (p m : ℕ) (dst dst' : Entries) (f : Found)
      → make_file os src rel (regular b p m) dst f ≡ ok dst'
      → overwrites_link (some (regular b p m)) (leaf_of f) ≡ false
      → write dst rel (regular b p m) ≡ ok dst'
  make_file-write b p m dst dst' missing h n = h
  make_file-write b p m dst dst' blocked h n = cc
  make_file-write b p m dst dst' is_directory h n = cc
  make_file-write b p m dst dst' (found (regular x y z)) h n = h
  make_file-write b p m dst dst' (found (symlink t)) h n = cc
  make_file-write b p m dst dst' (found irregular) h n = cc

  make_link-write :
      (l : Leaf) (dst dst' : Entries) (f : Found)
      → make_link os src rel l dst f ≡ ok dst'
      → write dst rel l ≡ ok dst'
  make_link-write l dst dst' missing h = h
  make_link-write l dst dst' blocked h = cc
  make_link-write l dst dst' is_directory h = cc
  make_link-write l dst dst' (found c) h = cc

  place-write :
      (l : Leaf) (dst dst' : Entries)
      → place os src rel l dst ≡ ok dst'
      → overwrites_link (some l) (leaf_at dst rel) ≡ false
      → write dst rel l ≡ ok dst'
  unfolding place
  place-write (symlink t) dst dst' h n = make_link-write (symlink t) dst dst' (look dst rel) h
  place-write (regular b p m) dst dst' h n = make_file-write b p m dst dst' (look dst rel) h n
  place-write irregular dst dst' h n = cc

  place-IsCopied : (l : Leaf) (dst dst' : Entries) → place os src rel l dst ≡ ok dst' → IsCopied l
  unfolding place
  place-IsCopied (symlink t) dst dst' h = λ e. cc
  place-IsCopied (regular b p m) dst dst' h = λ e. cc
  place-IsCopied irregular dst dst' h = cc

  -- A file is placed in the directory that was made for it.
  copied-IsBrought :
      (l : Leaf) (dst d dst' : Entries)
      → source_leaf (look src rel) ≡ ok l
      → make_dirs dst (parent rel) ≡ ok d
      → place os src rel l d ≡ ok dst'
      → IsFileTree dst
      → overwrites_link (leaf_at src rel) (leaf_at dst rel) ≡ false
      → IsBrought dst dst'
  copied-IsBrought l dst d dst' stat made placed w n =
      let same = make_dirs-SameLeaves dst d (parent rel) made in
      let s = source_leaf-ok (look src rel) l stat (place-IsCopied l d dst' placed) in
      let n' : overwrites_link (some l) (leaf_at d rel) ≡ false =
        ap (λ x. overwrites_link (some l) x) (same rel)
        ∙ ap (λ x. overwrites_link x (leaf_at dst rel)) (sym s)
        ∙ n in
      let (tree, leaves) =
        written-IsBrought l d dst' s (place-write l d dst' placed n')
          (make_dirs-IsFileTree dst d (parent rel) made w) in
      (tree, λ q. leaves q ∙ ap (λ x. if same_path q rel then leaf_at src q else x) (same q))

  copy_snapshot_path-IsBrought :
      (dst dst' : Entries)
      → copy_snapshot_path os src rel dst ≡ ok dst'
      → IsFileTree dst
      → overwrites_link (leaf_at src rel) (leaf_at dst rel) ≡ false
      → IsBrought dst dst'
  unfolding copy_snapshot_path
  copy_snapshot_path-IsBrought dst dst' h w n =
      let (l, a, b) = bind-ok (stat_leaf os src rel) (copy_leaf os src rel dst) dst' h in
      let stat = unless-ok (os.faults lstat_source rel) (source_leaf (look src rel)) l a in
      let (d, c, e) =
        bind-ok (unless (os.faults write_cache rel) (make_dirs dst (parent rel)))
          (place_read os src rel l) dst' b in
      let made = unless-ok (os.faults write_cache rel) (make_dirs dst (parent rel)) d c in
      let placed = unless-ok (os.faults read_source rel) (place os src rel l d) dst' e in
      copied-IsBrought l dst d dst' stat made placed w n

  settle-true :
      (dst dst' : Entries) (l : Leaf) (o : Option Leaf)
      → leaf_at src rel ≡ some l
      → ((o ≡ none) × (leaf_at dst rel ≡ some l)) ⊎ (o ≡ some l)
      → settle os src rel dst (true, o) ≡ ok (true, dst')
      → IsFileTree dst
      → IsBrought dst dst'
  settle-true dst dst' l none s (inl (_, d)) h w =
      subst (IsBrought dst) (ap (λ x. x.1) (ok-injective (true, dst) (true, dst') h))
        (same-IsBrought l dst s d w)
  settle-true dst dst' l none s (inr e) h w = cc
  settle-true dst dst' l (some x) s (inl (e, _)) h w = cc
  settle-true dst dst' l (some x) s (inr e) h w =
      let (d, a, b) =
        bind-ok (unless (os.faults write_cache rel) (write dst rel x)) (λ d'. ok (true, d'))
          (true, dst') h in
      let wrote = unless-ok (os.faults write_cache rel) (write dst rel x) d a in
      let same : d ≡ dst' = ap (λ y. y.1) (ok-injective (true, d) (true, dst') b) in
      subst (IsBrought dst) same (written-IsBrought x dst d (s ∙ sym e) wrote w)

  settle_first :
      (dst dst' : Entries) (same same' : Bool) (o : Option Leaf)
      → settle os src rel dst (same, o) ≡ ok (same', dst')
      → same ≡ same'
  settle_first dst dst' same same' none h = ap (λ x. x.0) (ok-injective (same, dst) (same', dst') h)
  settle_first dst dst' same same' (some x) h =
      let (d, a, b) =
        bind-ok (unless (os.faults write_cache rel) (write dst rel x)) (λ d'. ok (same, d'))
          (same', dst') h in
      ap (λ y. y.0) (ok-injective (same, d) (same', dst') b)

  settle-false :
      (dst dst' : Entries) (o : Option Leaf)
      → o ≡ none
      → settle os src rel dst (false, o) ≡ ok (false, dst')
      → dst ≡ dst'
  settle-false dst dst' none e h = ap (λ x. x.1) (ok-injective (false, dst) (false, dst') h)
  settle-false dst dst' (some x) e h = cc

  match_true-IsCopied :
      (l : Leaf) (d : Found) (o : Option Leaf) → match_found l d ≡ ok (true, o) → IsCopied l
  unfolding match_found match_leaf
  match_true-IsCopied (symlink t) d o h = λ e. cc
  match_true-IsCopied (regular b p m) d o h = λ e. cc
  match_true-IsCopied irregular missing o h = cc
  match_true-IsCopied irregular blocked o h = cc
  match_true-IsCopied irregular is_directory o h = cc
  match_true-IsCopied irregular (found c) o h = cc

  -- What the comparison found: the same leaf, or a cache that is left as it is.
  matched :
      (dst dst' : Entries) (l : Leaf) (same : Bool) (o : Option Leaf)
      → source_leaf (look src rel) ≡ ok l
      → match_found l (look dst rel) ≡ ok (same, o)
      → settle os src rel dst (same, o) ≡ ok (same, dst')
      → IsFileTree dst
      → ((same ≡ true) × IsBrought dst dst') ⊎ ((same ≡ false) × (dst ≡ dst'))
  matched dst dst' l true o s a h w = inl (
    refl,
    settle-true dst dst' l o
        (source_leaf-ok (look src rel) l s (match_true-IsCopied l (look dst rel) o a))
        (match_found-ok l (look dst rel) o a) h w,
  )
  matched dst dst' l false o s a h w =
      inr (refl, settle-false dst dst' o (match_found-not l (look dst rel) o a) h)

  -- What a comparison that succeeded read.
  pub snapshot_path_matches-match :
      (dst dst' : Entries) (same : Bool)
      → snapshot_path_matches os src rel dst ≡ ok (same, dst')
      → (l : Leaf) × (o : Option Leaf) × (source_leaf (look src rel) ≡ ok l)
        × (match_found l (look dst rel) ≡ ok (same, o))
        × (settle os src rel dst (same, o) ≡ ok (same, dst'))
  unfolding snapshot_path_matches
  snapshot_path_matches-match dst dst' same h =
      let (l, a, b) = bind-ok (stat_leaf os src rel) (compare_leaf os src rel dst) (same, dst') h in
      let stat = unless-ok (os.faults lstat_source rel) (source_leaf (look src rel)) l a in
      let read_match = unless (os.faults read_cache rel) (match_found l (look dst rel)) in
      let ((same0, o), c, d) =
        bind-ok (unless (os.faults lstat_cache rel) (unless (os.faults read_source rel) read_match))
          (settle os src rel dst) (same, dst') b in
      let m1 =
        unless-ok (os.faults lstat_cache rel) (unless (os.faults read_source rel) read_match)
          (same0, o) c in
      let m2 = unless-ok (os.faults read_source rel) read_match (same0, o) m1 in
      let m3 = unless-ok (os.faults read_cache rel) (match_found l (look dst rel)) (same0, o) m2 in
      let first = settle_first dst dst' same0 same o d in
      (
        l,
        o,
        stat,
        m3 ∙ ap (λ x. ok (x, o)) first,
        ap (λ x. settle os src rel dst (x, o)) (sym first) ∙ d,
      )

  pub snapshot_path_matches-ok :
      (dst dst' : Entries) (same : Bool)
      → snapshot_path_matches os src rel dst ≡ ok (same, dst')
      → IsFileTree dst
      → ((same ≡ true) × IsBrought dst dst') ⊎ ((same ≡ false) × (dst ≡ dst'))
  snapshot_path_matches-ok dst dst' same h w =
      let (l, o, stat, m, d) = snapshot_path_matches-match dst dst' same h in
      matched dst dst' l same o stat m d w

  after_match :
      (dst d dst' : Entries) (touched : List FilePath) (same : Bool)
      → ((same ≡ true) × IsBrought dst d) ⊎ ((same ≡ false) × (dst ≡ d))
      → copy_unless os src rel (same, d) ≡ ok (dst', touched)
      → IsFileTree dst
      → overwrites_link (leaf_at src rel) (leaf_at dst rel) ≡ false
      → IsBrought dst dst'
  after_match dst d dst' touched true (inl (_, brought)) h w n =
      subst (IsBrought dst) (ap (λ x. x.0) (ok-injective (d, []) (dst', touched) h)) brought
  after_match dst d dst' touched true (inr (e, _)) h w n = absurd (split_bool e)
  after_match dst d dst' touched false (inl (e, _)) h w n = absurd (split_bool (sym e))
  after_match dst d dst' touched false (inr (_, e)) h w n =
      let (d', a, b) =
        bind-ok (copy_snapshot_path os src rel d) (touched_one os src rel) (dst', touched) h in
      let made : copy_snapshot_path os src rel dst ≡ ok dst' =
        ap (copy_snapshot_path os src rel) e
        ∙ a
        ∙ ap ok (ap (λ x. x.0) (ok-injective (d', rel ∷ []) (dst', touched) b)) in
      copy_snapshot_path-IsBrought dst dst' made w n

  pub reconcile_file-IsBrought :
      (dst dst' : Entries) (touched : List FilePath)
      → reconcile_file os src rel dst ≡ ok (dst', touched)
      → IsFileTree dst
      → overwrites_link (leaf_at src rel) (leaf_at dst rel) ≡ false
      → IsBrought dst dst'
  unfolding reconcile_file
  reconcile_file-IsBrought dst dst' touched h w n =
      let ((same, d), a, b) =
        bind-ok (snapshot_path_matches os src rel dst) (copy_unless os src rel) (dst', touched) h in
      after_match dst d dst' touched same (snapshot_path_matches-ok dst d same a w) b w n
