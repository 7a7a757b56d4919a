-- ===== src/Stacks/Push/Laws.antt =====
-- A push replaces no history, unless that is asked for.
use idpbuilder.Base.{
  ◌≡◌, ◌≢◌, refl, Bool, true, false, List, [], ◌∷◌, ◌++◌, ◌&&◌, ◌||◌, ◌⊎◌, Outcome, ok, err, inl,
  inr, Bool-cases, arith, ap,
}
use idpbuilder.Base.Text.{Text, lit, ◌==◌, ==_iff, trim_space}
use idpbuilder.Stacks.Files.{Entries}
use idpbuilder.Stacks.Bootstrap.{Metadata, should_rewrite_bootstrap_image_pins, collect_metadata}
use idpbuilder.Stacks.Cache
use idpbuilder.Stacks.Cache.{
  Shell, CacheOptions, Act, Stat, present, absent, unknown, prepare_sync_cache, open_cache,
  open_found, run, git_ref_exists, remote_has_any_head, checkout_orphan, checkout_args, orphan_args,
  reset_head, reset_cache_git_state, select_branch, enter_branch, start_branch,
}
use idpbuilder.Stacks.Push.{
  Workspace, PushOptions, Pushed, ◌>>=◌, ◌>>◌, done, list_snapshot, plan_files_now, reconcile_cache,
  store, rewrite_if_needed, add_listed, force_add_snapshot_files, output, list_staged, save_if_ok,
  save_metadata, target, push_args, push_commit, commit_staged, commit_and_push, push_changed,
  push_snapshot_to_remote, nothing_pushed,
}

-- A call of git that is no push, or the push of the branch to its remote without --force.
abbrev pub IsPlain : (h : Shell) → Workspace h → PushOptions → List Text → Type 0
IsPlain h m o args =
    (args ≡ lit "push" ∷ lit "origin" ∷ target h m o ∷ [])
    ⊎ ((rest : List Text) → args ≢ lit "push" ∷ rest)

abbrev first_word : List Text → Text
first_word [] = lit ""
first_word (word ∷ args) = word

no_push :
    (word : Text) (args rest : List Text)
    → (word == lit "push") ≡ false
    → word ∷ args ≢ lit "push" ∷ rest
no_push word args rest n e =
    let first : word ≡ lit "push" = ap first_word e in
    ground (arith, n, (==_iff word (lit "push")).1 first)

-- A property of the machine that every call keeps, but for other pushes.
pub record Withstands (h : Shell) (m : Workspace h) (o : PushOptions) (P : h.World → Type 0)
    : Type 0 where
  pub stat_git : (w : h.World) → P w → P (h.stat_git w).1
  pub remove_cache : (w : h.World) → P w → P (h.remove_cache w).1
  pub make_parent : (w : h.World) → P w → P (h.make_parent w).1
  pub clone : (remote : Text) (w : h.World) → P w → P (h.clone remote w).1
  pub git : (args : List Text) (w : h.World) → IsPlain h m o args → P w → P (h.git args w).1
  pub git_output :
      (args : List Text) (w : h.World) → IsPlain h m o args → P w → P (h.git_output args w).1
  pub rev_parse : (ref : Text) (w : h.World) → P w → P (h.rev_parse ref w).1
  pub list_files : (w : h.World) → P w → P (m.list_files w).1
  pub set_cache : (dst : Entries) (w : h.World) → P w → P (m.set_cache dst w)
  pub save : (metadata : Metadata) (w : h.World) → P w → P (m.save metadata w)
  pub rewrite_pins : (w : h.World) → P w → P (m.rewrite_pins w).1
  pub write_pathspec : (files : List Text) (w : h.World) → P w → P (m.write_pathspec files w).1

module _ (h : Shell) (m : Workspace h) (o : PushOptions) (P : h.World → Type 0) where
  open h use {World}

  -- A call that keeps the property, whether it fails or not.
  abbrev IsSafe : {A : Type 0} → Act h A → Type 0
  IsSafe call = (w : World) → P w → P (call w).1

  bind_result : {A B : Type 0} → Outcome A × World → (A → Act h B) → Outcome B × World
  bind_result (answer, w) rest = elim answer [ err e ↦ (err e, w) | ok a ↦ rest a w ]

  bind_kept :
      {A B : Type 0} (r : Outcome A × World) (rest : A → Act h B)
      → P r.1
      → ((a : A) → IsSafe (rest a))
      → P (bind_result r rest).1
  unfolding bind_result
  bind_kept (err e, w) rest p g = p
  bind_kept (ok a, w) rest p g = g a w p

  bind-IsSafe :
      {A B : Type 0} (first : Act h A) (rest : A → Act h B)
      → IsSafe first
      → ((a : A) → IsSafe (rest a))
      → IsSafe (◌>>=◌ h m o first rest)
  unfolding bind_result
  bind-IsSafe first rest f g w p = bind_kept (first w) rest (f w p) g

  module _ (k : Withstands h m o P) where
    run-IsSafe : (args : List Text) → IsPlain h m o args → IsSafe (run h args)
    run-IsSafe args n w p = k.git args w n p

    git_ref_exists-IsSafe : (ref : Text) → IsSafe (git_ref_exists h ref)
    unfolding git_ref_exists
    git_ref_exists-IsSafe ref w p = k.rev_parse ref w p

    remote_has_any_head-IsSafe : IsSafe (remote_has_any_head h)
    unfolding remote_has_any_head
    remote_has_any_head-IsSafe w p =
        k.git_output (lit "ls-remote" ∷ lit "--heads" ∷ lit "origin" ∷ []) w (inr λ rest e. cc) p

    checkout_orphan-IsSafe : (branch : Text) → IsSafe (checkout_orphan h branch)
    unfolding checkout_orphan
    checkout_orphan-IsSafe branch w p =
        k.git (orphan_args h branch (h.nanoseconds w)) w (inr λ rest e. cc) p

    abbrev clone_call : (remote : Text) → Act h (Unit {0})
    clone_call remote w = let (failure, w') = h.clone remote w in (Cache.outcome_of h failure, w')

    open_found-IsSafe : (remote : Text) (found : Stat) → IsSafe (open_found h remote found)
    open_found-IsSafe remote (unknown e) = λ w p. p
    open_found-IsSafe remote absent =
        bind-IsSafe (Cache.check h (lit "clearing invalid sync cache " ++ h.place) h.remove_cache)
          (λ _.
            ◌>>◌ h m o (Cache.check h (lit "creating sync cache parent") h.make_parent)
              (clone_call remote))
          k.remove_cache
          (λ _.
            bind-IsSafe (Cache.check h (lit "creating sync cache parent") h.make_parent)
              (λ _. clone_call remote) k.make_parent (λ _. k.clone remote))
    open_found-IsSafe remote present =
        run-IsSafe (lit "remote" ∷ lit "set-url" ∷ lit "origin" ∷ remote ∷ []) (inr λ rest e. cc)

    open_cache-IsSafe : (remote : Text) → IsSafe (open_cache h remote)
    unfolding open_cache
    open_cache-IsSafe remote w p =
        open_found-IsSafe remote (h.stat_git w).0 (h.stat_git w).1 (k.stat_git w p)

    reset_head-IsSafe : (has_head : Bool) → IsSafe (reset_head h has_head)
    reset_head-IsSafe false = λ w p. p
    reset_head-IsSafe true =
        bind-IsSafe (run h (lit "reset" ∷ lit "--hard" ∷ []))
          (λ _. run h (lit "clean" ∷ lit "-fdx" ∷ []))
          (run-IsSafe (lit "reset" ∷ lit "--hard" ∷ []) (inr λ rest e. cc))
          (λ _. run-IsSafe (lit "clean" ∷ lit "-fdx" ∷ []) (inr λ rest e. cc))

    reset_cache_git_state-IsSafe : IsSafe (reset_cache_git_state h)
    unfolding reset_cache_git_state
    reset_cache_git_state-IsSafe =
        bind-IsSafe (git_ref_exists h (lit "HEAD")) (reset_head h)
          (git_ref_exists-IsSafe (lit "HEAD")) reset_head-IsSafe

    start_branch-IsSafe :
        (branch : Text) (has_heads : Bool) → IsSafe (start_branch h branch has_heads)
    start_branch-IsSafe branch true = λ w p. p
    start_branch-IsSafe branch false = checkout_orphan-IsSafe branch

    enter_branch-IsSafe : (branch : Text) (exists : Bool) → IsSafe (enter_branch h branch exists)
    enter_branch-IsSafe branch true = run-IsSafe (checkout_args h branch) (inr λ rest e. cc)
    enter_branch-IsSafe branch false =
        bind-IsSafe (remote_has_any_head h) (start_branch h branch) remote_has_any_head-IsSafe
          (start_branch-IsSafe branch)

    fetch_args : List Text
    fetch_args = lit "fetch" ∷ lit "--prune" ∷ lit "origin" ∷ []

    select_branch-IsSafe : (c : CacheOptions) → IsSafe (select_branch h c)
    unfolding select_branch fetch_args
    select_branch-IsSafe c w p = elim (Bool-cases c.reset_local_history) [
      | inl e ↦ rw e (checkout_orphan-IsSafe c.branch w p)
      | inr e ↦ rw e (
          bind-IsSafe (run h fetch_args)
            (λ _.
              ◌>>=◌ h m o (git_ref_exists h (lit "refs/remotes/origin/" ++ c.branch))
                (enter_branch h c.branch))
            (run-IsSafe fetch_args (inr λ rest e. cc))
            (λ _.
              bind-IsSafe (git_ref_exists h (lit "refs/remotes/origin/" ++ c.branch))
                (enter_branch h c.branch)
                (git_ref_exists-IsSafe (lit "refs/remotes/origin/" ++ c.branch))
                (enter_branch-IsSafe c.branch))
            w p)
    ]

    abbrev config : (key value : Text) → Act h (Unit {0})
    config key value = run h (lit "config" ∷ key ∷ value ∷ [])

    config-IsSafe : (key value : Text) → IsSafe (config key value)
    config-IsSafe key value = run-IsSafe (lit "config" ∷ key ∷ value ∷ []) (inr λ rest e. cc)

    prepare_sync_cache-IsSafe :
        (remote : Text) (c : CacheOptions) → IsSafe (prepare_sync_cache h remote c)
    unfolding prepare_sync_cache
    prepare_sync_cache-IsSafe remote c =
        let name = config (lit "user.name") (lit "idpbuilder-stacks") in
        let email = config (lit "user.email") (lit "idpbuilder-stacks@cnoe.local") in
        let clean_up : Act h (Unit {0}) =
          ◌>>◌ h m o (reset_cache_git_state h) (select_branch h c) in
        bind-IsSafe (open_cache h remote) (λ _. ◌>>◌ h m o name (◌>>◌ h m o email clean_up))
          (open_cache-IsSafe remote)
          (λ _.
            bind-IsSafe name (λ _. ◌>>◌ h m o email clean_up)
              (config-IsSafe (lit "user.name") (lit "idpbuilder-stacks"))
              (λ _.
                bind-IsSafe email (λ _. clean_up)
                  (config-IsSafe (lit "user.email") (lit "idpbuilder-stacks@cnoe.local"))
                  (λ _.
                    bind-IsSafe (reset_cache_git_state h) (λ _. select_branch h c)
                      reset_cache_git_state-IsSafe (λ _. select_branch-IsSafe c))))

    store_kept : (r : Outcome (Entries × List Text)) (w : World) → P w → P (store h m o r w).1
    store_kept (err e) w p = k.set_cache (m.interrupted w) w p
    store_kept (ok (dst, touched)) w p = k.set_cache dst w p

    reconcile_cache-IsSafe :
        (files wanted : List Text) → IsSafe (reconcile_cache h m o files wanted)
    unfolding reconcile_cache
    reconcile_cache-IsSafe files wanted w p = store_kept _ w p

    rewrite_if_needed-IsSafe :
        (force : Bool) (touched : List Text) → IsSafe (rewrite_if_needed h m o force touched)
    unfolding rewrite_if_needed
    rewrite_if_needed-IsSafe force touched w p =
        elim (Bool-cases (
          o.rewrite_bootstrap_image_pins
          && (force || should_rewrite_bootstrap_image_pins touched))) [
            | inl e ↦ rw e (k.rewrite_pins w p)
            | inr e ↦ rw e p
          ]

    force_add-IsSafe : (files : List Text) → IsSafe (force_add_snapshot_files h m o files)
    unfolding force_add_snapshot_files
    force_add-IsSafe [] = λ w p. p
    force_add-IsSafe (file ∷ files) =
        bind-IsSafe (m.write_pathspec (file ∷ files)) (add_listed h m o)
          (k.write_pathspec (file ∷ files)) (λ pathspec. run-IsSafe _ (inr λ rest e. cc))

    save_if_ok_kept : (r : Outcome Metadata) (w : World) → P w → P (save_if_ok h m o r w)
    save_if_ok_kept (err e) w p = p
    save_if_ok_kept (ok metadata) w p = k.save metadata w p

    save_metadata-IsSafe : (files : List Text) → IsSafe (save_metadata h m o files)
    unfolding save_metadata
    save_metadata-IsSafe files w p = elim (Bool-cases o.rewrite_bootstrap_image_pins) [
      | inl e ↦ rw e (save_if_ok_kept (collect_metadata (m.trees w) files []) w p)
      | inr e ↦ rw e p
    ]

    done-IsSafe : {A : Type 0} (a : A) → IsSafe (done h m o a)
    done-IsSafe a w p = p

    module _ (kept_history : o.cache_options.reset_local_history ≡ false) where
      push_commit-IsSafe : IsSafe (push_commit h m o)
      unfolding push_commit
      push_commit-IsSafe w p = k.git_output (push_args h m o) w (inl (rw kept_history refl)) p

      commit_and_push-IsSafe :
          (files changed : List Text) → IsSafe (commit_and_push h m o files changed)
      unfolding commit_and_push
      commit_and_push-IsSafe files changed =
          let result : Text → Act h Pushed = λ commit.
            done h m o
              (record { commit = trim_space commit; changed_files = changed; noop = false }) in
          let saved : Text → Act h Pushed =
            λ commit. ◌>>◌ h m o (save_metadata h m o files) (result commit) in
          let pushed : Text → Act h Pushed =
            λ commit. ◌>>◌ h m o (push_commit h m o) (saved commit) in
          bind-IsSafe (commit_staged h m o)
            (λ _. ◌>>=◌ h m o (output h m o (lit "rev-parse" ∷ lit "HEAD" ∷ [])) pushed)
            (λ w.
              k.git (lit "commit" ∷ lit "-m" ∷ (lit "sync stacks snapshot " ++ m.timestamp w) ∷ [])
                w (inr λ rest e. cc))
            (λ _.
              bind-IsSafe (output h m o (lit "rev-parse" ∷ lit "HEAD" ∷ [])) pushed
                (λ w. k.git_output (lit "rev-parse" ∷ lit "HEAD" ∷ []) w (inr λ rest e. cc))
                (λ commit.
                  bind-IsSafe (push_commit h m o) (λ _. saved commit) push_commit-IsSafe
                    (λ _.
                      bind-IsSafe (save_metadata h m o files) (λ _. result commit)
                        (save_metadata-IsSafe files) (λ _ w p. p))))

      push_changed-IsSafe : (files changed : List Text) → IsSafe (push_changed h m o files changed)
      push_changed-IsSafe files [] =
          bind-IsSafe (save_metadata h m o files) (λ _. done h m o nothing_pushed)
            (save_metadata-IsSafe files) (λ _. done-IsSafe nothing_pushed)
      push_changed-IsSafe files (c ∷ changed) = commit_and_push-IsSafe files (c ∷ changed)

      -- From the staging of the files on.
      abbrev stage : (files : List Text) → Act h Pushed
      stage files = ◌>>=◌ h m o (list_staged h m o) (push_changed h m o files)

      abbrev force_add : (files : List Text) → Act h Pushed
      force_add files = ◌>>◌ h m o (force_add_snapshot_files h m o files) (stage files)

      abbrev add_all : (files : List Text) → Act h Pushed
      add_all files = ◌>>◌ h m o (run h (lit "add" ∷ lit "-A" ∷ [])) (force_add files)

      abbrev bring : (files : List Text) → List Text × Bool → Act h Pushed
      bring files plan =
          ◌>>=◌ h m o (reconcile_cache h m o plan.0 files)
            (λ touched. ◌>>◌ h m o (rewrite_if_needed h m o plan.1 touched) (add_all files))

      stage-IsSafe : (files : List Text) → IsSafe (stage files)
      unfolding list_staged ◌==◌
      stage-IsSafe files =
          bind-IsSafe (list_staged h m o) (push_changed h m o files)
            (λ w. k.git_output (lit "diff" ∷ lit "--cached" ∷ lit "--name-only" ∷ lit "-z" ∷ []) w (
              inr λ rest.
                no_push (lit "diff") (lit "--cached" ∷ lit "--name-only" ∷ lit "-z" ∷ []) rest
                  refl))
            (push_changed-IsSafe files)

      add_all-IsSafe : (files : List Text) → IsSafe (add_all files)
      add_all-IsSafe files =
          bind-IsSafe (run h (lit "add" ∷ lit "-A" ∷ [])) (λ _. force_add files)
            (run-IsSafe (lit "add" ∷ lit "-A" ∷ []) (inr λ rest e. cc))
            (λ _.
              bind-IsSafe (force_add_snapshot_files h m o files) (λ _. stage files)
                (force_add-IsSafe files) (λ _. stage-IsSafe files))

      bring-IsSafe : (files : List Text) (plan : List Text × Bool) → IsSafe (bring files plan)
      bring-IsSafe files plan =
          bind-IsSafe (reconcile_cache h m o plan.0 files)
            (λ touched. ◌>>◌ h m o (rewrite_if_needed h m o plan.1 touched) (add_all files))
            (reconcile_cache-IsSafe plan.0 files)
            (λ touched.
              bind-IsSafe (rewrite_if_needed h m o plan.1 touched) (λ _. add_all files)
                (rewrite_if_needed-IsSafe plan.1 touched) (λ _. add_all-IsSafe files))

      after_listing : (remote : Text) (files : List Text) → Act h Pushed
      after_listing remote files =
          ◌>>◌ h m o (prepare_sync_cache h remote o.cache_options)
            (◌>>=◌ h m o (plan_files_now h m o files) (bring files))

      after_listing-IsSafe :
          (remote : Text) (files : List Text) → IsSafe (after_listing remote files)
      unfolding after_listing plan_files_now
      after_listing-IsSafe remote files =
          bind-IsSafe (prepare_sync_cache h remote o.cache_options)
            (λ _. ◌>>=◌ h m o (plan_files_now h m o files) (bring files))
            (prepare_sync_cache-IsSafe remote o.cache_options)
            (λ _.
              bind-IsSafe (plan_files_now h m o files) (bring files) (λ w p. p)
                (bring-IsSafe files))

      -- Without --reset-local-history a push replaces no history: a property of the machine that
      -- is kept by every call that is no push, and by the push of the branch without --force, is
      -- kept by `pushSnapshotToRemote`, however it ends.
      pub push_snapshot_to_remote_unforced :
          (remote : Text) (w : World) → P w → P (push_snapshot_to_remote h m o remote w).1
      unfolding push_snapshot_to_remote list_snapshot after_listing
      push_snapshot_to_remote_unforced remote =
          bind-IsSafe (list_snapshot h m o) (after_listing remote) k.list_files
            (after_listing-IsSafe remote)
