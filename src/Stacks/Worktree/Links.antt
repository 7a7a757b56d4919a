-- ===== src/Stacks/Worktree/Links.antt =====
-- A link of the snapshot at a path where the cache has another link, a file or a device.
use idpbuilder.Base.{
  ◌≡◌, ◌≢◌, refl, sym, ◌∙◌, ap, Bool, true, false, List, [], ◌∷◌, ◌⊎◌, inl, inr, Bool-cases, Option,
  none, some, ok, ok-injective, bind-ok, arith, subst, Outcome-cases,
}
use idpbuilder.Base.Text.{Text, ◌==◌, ==_iff}
use idpbuilder.Stacks.Files.{
  FilePath, Leaf, regular, symlink, irregular, Entries, leaf_at, leaf_of, look, IsFileTree,
  make_dirs, same_path, Found, missing, blocked, is_directory, found,
}
use idpbuilder.Stacks.Files.Laws.{make_dirs-SameLeaves, same_path_iff}
use idpbuilder.Stacks.Worktree.{
  unless, is_wanted, is_git, remove_stale_cache_paths, remove, lstat_source, read_source,
  write_cache,
}
use idpbuilder.Stacks.Worktree.Walks.{unless-ok, clear, prune-IsPruned}
use idpbuilder.Stacks.Worktree.Reconcile.{
  Os, source_leaf, match_leaf, match_found, parent, stat_leaf, snapshot_path_matches, make_link,
  place, copy_snapshot_path, copy_unless, copy_leaf, place_read, touched_one, finish,
  reconcile_file, reconcile_files, reconcile_rest, reconcile_cache_worktree,
}
use idpbuilder.Stacks.Worktree.Matching.{split_bool}
use idpbuilder.Stacks.Worktree.OneFile.{
  snapshot_path_matches-match, IsBrought, reconcile_file-IsBrought, snapshot_path_matches-ok,
}
use idpbuilder.Stacks.Worktree.Exact.{AvoidsLinks, add_touched-ok, avoids_later, avoids_pruned}

found_of : (f : Found) (c : Leaf) → leaf_of f ≡ some c → f ≡ found c
found_of missing c h = cc
found_of blocked c h = cc
found_of is_directory c h = cc
found_of (found x) c h = cc

-- A link matches no other leaf.
differs :
    (target : Text) (c : Leaf) (same : Bool) (o : Option Leaf)
    → c ≢ symlink target
    → match_leaf (symlink target) c ≡ ok (same, o)
    → same ≡ false
unfolding match_leaf
differs target (symlink t) same o n h = elim (Bool-cases (target == t)) [
  | inl e ↦ absurd (n (ap symlink (sym ((==_iff target t).0 e))))
  | inr e ↦ sym (ap (λ x. x.0) (ok-injective (target == t, none) (same, o) h)) ∙ e
]
differs target (regular b p m) same o n h = cc
differs target irregular same o n h = cc

module _ (os : Os) (src : Entries) (rel : FilePath) (target : Text) where
  copy_fails :
      (dst dst' : Entries) (c : Leaf)
      → leaf_at src rel ≡ some (symlink target)
      → leaf_at dst rel ≡ some c
      → copy_snapshot_path os src rel dst ≡ ok dst'
      → ⊥
  unfolding copy_snapshot_path place source_leaf
  copy_fails dst dst' c s k h =
      let (l, a, b) = bind-ok (stat_leaf os src rel) (copy_leaf os src rel dst) dst' h in
      let stat = unless-ok (os.faults lstat_source rel) (source_leaf (look src rel)) l a in
      let is_link : symlink target ≡ l =
        ok-injective (symlink target) l
          (sym (ap source_leaf (found_of (look src rel) (symlink target) s)) ∙ stat) in
      let (d, e, f) =
        bind-ok (unless (os.faults write_cache rel) (make_dirs dst (parent rel)))
          (place_read os src rel l) dst' b in
      let made = unless-ok (os.faults write_cache rel) (make_dirs dst (parent rel)) d e in
      let placed = unless-ok (os.faults read_source rel) (place os src rel l d) dst' f in
      let there = found_of (look d rel) c (make_dirs-SameLeaves dst d (parent rel) made rel ∙ k) in
      let linked : make_link os src rel (symlink target) d (found c) ≡ ok dst' =
        ap (make_link os src rel (symlink target) d) (sym there)
        ∙ ap (λ x. place os src rel x d) is_link
        ∙ placed in
      cc

  unmatched :
      (dst d dst' : Entries) (c : Leaf) (touched : List FilePath) (same : Bool)
      → leaf_at src rel ≡ some (symlink target)
      → leaf_at dst rel ≡ some c
      → same ≡ false
      → ((same ≡ true) × IsBrought os src rel dst d) ⊎ ((same ≡ false) × (dst ≡ d))
      → copy_unless os src rel (same, d) ≡ ok (dst', touched)
      → ⊥
  unmatched dst d dst' c touched true s k e r h = split_bool e
  unmatched dst d dst' c touched false s k e (inl (x, _)) h = split_bool (sym x)
  unmatched dst d dst' c touched false s k e (inr (_, x)) h =
      let (d', a, b) =
        bind-ok (copy_snapshot_path os src rel d) (touched_one os src rel) (dst', touched) h in
      copy_fails d d' c s (ap (λ y. leaf_at y rel) (sym x) ∙ k) a

  file_fails :
      (dst dst' : Entries) (c : Leaf) (touched : List FilePath)
      → leaf_at src rel ≡ some (symlink target)
      → leaf_at dst rel ≡ some c
      → c ≢ symlink target
      → IsFileTree dst
      → reconcile_file os src rel dst ≡ ok (dst', touched)
      → ⊥
  unfolding reconcile_file match_found source_leaf
  file_fails dst dst' c touched s k n w h =
      let ((same, d), a, b) =
        bind-ok (snapshot_path_matches os src rel dst) (copy_unless os src rel) (dst', touched) h in
      let (l, o, stat, m, _) = snapshot_path_matches-match os src rel dst d same a in
      let is_link : l ≡ symlink target = sym (
        ok-injective (symlink target) l
          (sym (ap source_leaf (found_of (look src rel) (symlink target) s)) ∙ stat)) in
      let m' : match_found (symlink target) (found c) ≡ ok (same, o) =
        ap (match_found (symlink target)) (sym (found_of (look dst rel) c k))
        ∙ ap (λ x. match_found x (look dst rel)) (sym is_link)
        ∙ m in
      unmatched dst d dst' c touched same s k (differs target c same o n m')
        (snapshot_path_matches-ok os src rel dst d same a w) b

  files_fail :
      (files : List FilePath) (dst dst' : Entries) (c : Leaf) (touched : List FilePath)
      → leaf_at src rel ≡ some (symlink target)
      → leaf_at dst rel ≡ some c
      → c ≢ symlink target
      → IsFileTree dst
      → AvoidsLinks os src files dst
      → is_wanted files rel ≡ true
      → reconcile_files os src files dst ≡ ok (dst', touched)
      → ⊥
  unfolding reconcile_files is_wanted
  files_fail [] dst dst' c touched s k n w avoid i h = split_bool (sym i)
  files_fail (f ∷ files) dst dst' c touched s k n w avoid i h =
      elim (Outcome-cases (reconcile_file os src f dst)) [
        | inr (e, a) ↦ ground (arith, a, h)
        | inl ((d, one), a) ↦ elim (Bool-cases (same_path rel f)) [
          | inl e ↦
              file_fails dst d c one s k n w
                (ap (λ x. reconcile_file os src x dst) ((same_path_iff rel f).0 e) ∙ a)
          | inr e ↦
              let (more, b) =
                add_touched-ok os src one (reconcile_files os src files d) dst' touched
                  (rw (a, reconcile_files) at h) in
              let brought =
                reconcile_file-IsBrought os src f dst d one a w
                  (avoid f (ground (arith, (same_path_iff f f).1 refl))) in
              files_fail files d dst' c more s (ground (arith, e, brought.1 rel, k)) n brought.0
                (avoids_later os src f files dst d brought avoid) (ground (arith, i, e)) b
        ]
      ]

  -- Where the source has a link at a path below the root, the cache another link, a file or a
  -- device at that path, the path is to be copied and of the snapshot, and no path above it is
  -- of the snapshot: from a cache in which each name stands once and with no regular file to
  -- be copied to where the cache has a link or a device, `reconcileCacheWorktree` does not
  -- succeed, whatever the operating system answers.
  pub reconcile_cache_worktree-link_fails :
      (dst dst' : Entries) (files wanted : List FilePath) (touched : List Text) (n : Text)
      (p : FilePath) (c : Leaf)
      → rel ≡ n ∷ p
      → IsFileTree dst
      → AvoidsLinks os src files dst
      → is_wanted files rel ≡ true
      → is_wanted wanted rel ≡ true
      → clear (is_wanted wanted) rel ≡ true
      → leaf_at src rel ≡ some (symlink target)
      → leaf_at dst rel ≡ some c
      → c ≢ symlink target
      → reconcile_cache_worktree os src dst files wanted ≢ ok (dst', touched)
  unfolding reconcile_cache_worktree remove_stale_cache_paths
  reconcile_cache_worktree-link_fails dst dst' files wanted touched n p c at w avoid i j k s there d
        h =
      let ((pruned, removed), a, b) =
        bind-ok (remove_stale_cache_paths os.faults wanted dst) (reconcile_rest os src files)
          (dst', touched) h in
      let (tree, _, keeps) =
        prune-IsPruned is_git (is_wanted wanted) (os.faults remove) dst pruned removed a w in
      let ((brought, copied), e, f) =
        bind-ok (reconcile_files os src files pruned) (finish os src removed) (dst', touched) b in
      let kept : leaf_at pruned (n ∷ p) ≡ leaf_at dst (n ∷ p) = ground (
        arith,
        keeps n p,
        subst (λ x. is_wanted wanted x ≡ true) at j,
        subst (λ x. clear (is_wanted wanted) x ≡ true) at k,
      ) in
      files_fail files pruned brought c copied s
        (subst (λ x. leaf_at pruned x ≡ leaf_at dst x) (sym at) kept ∙ there) d tree
        (avoids_pruned os src files wanted dst pruned keeps avoid) i e
