-- ===== src/Stacks/Worktree/Exact.antt =====
-- A cache that is reconciled holds the snapshot.
use idpbuilder.Base.{
  ◌≡◌, refl, ◌∙◌, ap, true, false, List, [], ◌∷◌, ◌++◌, ◌||◌, ◌&&◌, inl, inr, Bool-cases, none,
  if◌then◌else◌, map, Outcome, ok, err, ok-injective, bind-ok, arith, subst, Outcome-cases,
}
use idpbuilder.Base.Text.{Text}
use idpbuilder.Stacks.Names.{sorted_unique_strings}
use idpbuilder.Stacks.Files.{FilePath, Entries, leaf_at, look, IsFileTree, same_path}
use idpbuilder.Stacks.Files.Laws.{same_path_iff}
use idpbuilder.Stacks.Worktree.{
  is_wanted, is_git, remove_stale_cache_paths, remove_empty_cache_dirs, remove, sort_longest,
  directories, text_of,
}
use idpbuilder.Stacks.Worktree.Walks.{
  clear, Keeps, prune-IsPruned, remove_dirs-SameLeaves, remove_dirs-IsFileTree,
}
use idpbuilder.Stacks.Worktree.Reconcile.{
  Os, finish, reconcile_file, add_touched, reconcile_files, reconcile_rest,
  reconcile_cache_worktree, Brought,
}
use idpbuilder.Stacks.Worktree.Matching.{
  overwrites_link, overwrites_link_self, overwrites_link-none,
}
use idpbuilder.Stacks.Worktree.OneFile.{IsBrought, reconcile_file-IsBrought}

module _ (os : Os) (src : Entries) where
  -- The cache after some files.
  abbrev AreBrought : List FilePath → Entries → Entries → Type 0
  AreBrought files dst dst' =
      IsFileTree dst'
      × ((q : FilePath)
          → leaf_at dst' q ≡ (if is_wanted files q then leaf_at src q else leaf_at dst q))

  -- No file of a list is written through a link of the cache.
  abbrev pub AvoidsLinks : List FilePath → Entries → Type 0
  AvoidsLinks files dst =
      (q : FilePath)
      → is_wanted files q ≡ true
      → overwrites_link (leaf_at src q) (leaf_at dst q) ≡ false

  pub avoids_later :
      (rel : FilePath) (files : List FilePath) (dst d : Entries)
      → IsBrought os src rel dst d
      → AvoidsLinks (rel ∷ files) dst
      → AvoidsLinks files d
  unfolding is_wanted
  avoids_later rel files dst d (_, leaves) avoid q h = elim (Bool-cases (same_path q rel)) [
    | inl e ↦
        let same : leaf_at d q ≡ leaf_at src q = ground (arith, e, leaves q) in
        ap (λ x. overwrites_link (leaf_at src q) x) same ∙ overwrites_link_self (leaf_at src q)
    | inr e ↦
        let same : leaf_at d q ≡ leaf_at dst q = ground (arith, e, leaves q) in
        ap (λ x. overwrites_link (leaf_at src q) x) same ∙ avoid q (ground (arith, h))
  ]

  pub add_touched-ok :
      (a : List FilePath) (r : Outcome (Brought os src)) (dst : Entries) (touched : List FilePath)
      → add_touched os src a r ≡ ok (dst, touched)
      → (b : List FilePath) × (r ≡ ok (dst, b))
  add_touched-ok a (err e) dst touched h = cc
  add_touched-ok a (ok (d, b)) dst touched h =
      (b, ap (λ x. ok (x, b)) (ap (λ x. x.0) (ok-injective (d, a ++ b) (dst, touched) h)))

  reconcile_files-AreBrought :
      (files : List FilePath) (dst dst' : Entries) (touched : List FilePath)
      → reconcile_files os src files dst ≡ ok (dst', touched)
      → IsFileTree dst
      → AvoidsLinks files dst
      → AreBrought files dst dst'
  unfolding reconcile_files is_wanted
  reconcile_files-AreBrought [] dst dst' touched h w avoid =
      subst (AreBrought [] dst) (ap (λ x. x.0) (ok-injective (dst, []) (dst', touched) h))
        (w, λ q. refl)
  reconcile_files-AreBrought (rel ∷ files) dst dst' touched h w avoid =
      elim (Outcome-cases (reconcile_file os src rel dst)) [
        | inr (e, a) ↦ absurd (ground (arith, a, h))
        | inl ((d, one), a) ↦
            let (more, b) =
              add_touched-ok one (reconcile_files os src files d) dst' touched
                (rw (a, reconcile_files) at h) in
            let brought =
              reconcile_file-IsBrought os src rel dst d one a w
                (avoid rel (ground (arith, (same_path_iff rel rel).1 refl))) in
            let (tree, leaves) =
              reconcile_files-AreBrought files d dst' more b brought.0
                (avoids_later rel files dst d brought avoid) in
            (tree, λ q. ground (arith, leaves q, brought.1 q))
      ]

  -- What a reconciled cache holds at a path below it.
  abbrev pub HoldsSnapshot : (files wanted : List FilePath) → Entries → Entries → Type 0
  HoldsSnapshot files wanted dst dst' =
      (n : Text) (p : FilePath)
      → leaf_at dst' (n ∷ p) ≡ (
          if is_wanted files (n ∷ p)
          then leaf_at src (n ∷ p)
          else if is_git n || (is_wanted wanted (n ∷ p) && clear (is_wanted wanted) (n ∷ p))
          then leaf_at dst (n ∷ p)
          else none)

  pub avoids_pruned :
      (files wanted : List FilePath) (dst pruned : Entries)
      → Keeps is_git (is_wanted wanted) dst pruned
      → AvoidsLinks files dst
      → AvoidsLinks files pruned
  unfolding look
  avoids_pruned files wanted dst pruned keeps avoid [] h = overwrites_link-none (leaf_at src [])
  avoids_pruned files wanted dst pruned keeps avoid (n ∷ p) h =
      let kept = is_git n || (is_wanted wanted (n ∷ p) && clear (is_wanted wanted) (n ∷ p)) in
      elim (Bool-cases kept) [
        | inl e ↦
            let same : leaf_at pruned (n ∷ p) ≡ leaf_at dst (n ∷ p) =
              ground (arith, e, keeps n p) in
            ap (overwrites_link (leaf_at src (n ∷ p))) same ∙ avoid (n ∷ p) h
        | inr e ↦
            let gone : leaf_at pruned (n ∷ p) ≡ none = ground (arith, e, keeps n p) in
            ap (overwrites_link (leaf_at src (n ∷ p))) gone
            ∙ overwrites_link-none (leaf_at src (n ∷ p))
      ]

  -- Where `reconcileCacheWorktree` succeeds, from a cache in which each name stands once and with no
  -- regular file to be copied to where the cache has a link or a device: each name stands once in
  -- the cache, and at every path below it the cache has, of the files to be copied, what the source
  -- has, with its bytes, its mode and its time; of .git, and of the other files of the snapshot
  -- that no file of the snapshot stands above, what it had; and no other file.
  pub reconcile_cache_worktree_exact :
      (dst dst' : Entries) (files wanted : List FilePath) (touched : List Text)
      → IsFileTree dst
      → AvoidsLinks files dst
      → reconcile_cache_worktree os src dst files wanted ≡ ok (dst', touched)
      → IsFileTree dst' × HoldsSnapshot files wanted dst dst'
  unfolding reconcile_cache_worktree remove_stale_cache_paths remove_empty_cache_dirs
  reconcile_cache_worktree_exact dst dst' files wanted touched w avoid h =
      let ((pruned, removed), a, b) =
        bind-ok (remove_stale_cache_paths os.faults wanted dst) (reconcile_rest os src files)
          (dst', touched) h in
      let (tree, _, keeps) =
        prune-IsPruned is_git (is_wanted wanted) (os.faults remove) dst pruned removed a w in
      let ((brought, copied), c, d) =
        bind-ok (reconcile_files os src files pruned) (finish os src removed) (dst', touched) b in
      let (swept, e, f) =
        bind-ok (remove_empty_cache_dirs os.faults brought)
          (λ d'. ok (d', sorted_unique_strings (map text_of (removed ++ copied)))) (dst', touched)
          d in
      let last : swept ≡ dst' =
        ap (λ x. x.0)
          (ok-injective (swept, sorted_unique_strings (map text_of (removed ++ copied)))
            (dst', touched) f) in
      let (tree', leaves) =
        reconcile_files-AreBrought files pruned brought copied c tree
          (avoids_pruned files wanted dst pruned keeps avoid) in
      let dirs = sort_longest (directories is_git brought) in
      subst (λ x. IsFileTree x × HoldsSnapshot files wanted dst x) last
        (
          remove_dirs-IsFileTree os.faults dirs brought swept e tree',
          λ n p.
              let after = remove_dirs-SameLeaves os.faults dirs brought swept e tree' (n ∷ p) in
              ground (arith, after, leaves (n ∷ p), keeps n p),
        )
