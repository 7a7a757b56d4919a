-- ===== src/Stacks/Cache.antt =====
-- The clone of the repository on Gitea that a push is made from: syncCachePath, prepareSyncCache
-- and what they call in sync.go. Git and the file system are a parameter.
pub mod Laws
use idpbuilder.Base.{
  Bool, true, false, ℕ, List, [], ◌∷◌, ◌++◌, ◌||◌, not, Option, none, some, if◌then◌else◌, map, eqb,
  Outcome, ok, err, Error, message, wrapped,
}
use idpbuilder.Base.Text.{Text, ◌==◌, lit, trim_space}
use idpbuilder.Stacks.Paths.{join_paths}

-- strings.ReplaceAll of one byte by one byte.
unfoldable pub replace_byte : (old new : ℕ) → Text → Text
replace_byte old new [] = []
replace_byte old new (c ∷ text) = (if eqb c old then new else c) ∷ replace_byte old new text

unfoldable pub safe_cache_segment : Text → Text
unfolding replace_byte
safe_cache_segment value =
    let value' = replace_byte 92 95 (replace_byte 47 95 (replace_byte 47 95 (trim_space value))) in
    if value' == lit "" || value' == lit "." || value' == lit ".." then lit "_" else value'

-- What `syncCachePath` reads of the options, of the environment and of filepath.Abs.
pub record CacheOptions : Type 0 where
  pub cache_dir : Text
  pub cluster_name : Text
  pub gitea_owner : Text
  pub gitea_repo : Text
  pub branch : Text
  pub reset_local_history : Bool

unfoldable pub sync_cache_path :
    CacheOptions
    → (absolute : Text → Outcome Text) → (xdg_cache_home : Text) → (home : Outcome Text)
    → Outcome Text
unfolding safe_cache_segment
sync_cache_path o absolute xdg_cache_home home =
    let below : Text → Text = λ root. join_paths root (
      lit "idpbuilder/stacks-sync/"
      ++ safe_cache_segment o.cluster_name
      ++ lit "/"
      ++ safe_cache_segment o.gitea_owner
      ++ lit "/"
      ++ safe_cache_segment o.gitea_repo) in
    if not (o.cache_dir == lit "")
    then absolute o.cache_dir
    else if not (xdg_cache_home == lit "")
    then ok (below xdg_cache_home)
    else elim home [
      | err e ↦ err (wrapped (lit "resolving home directory for sync cache") e)
      | ok dir ↦ ok (below (join_paths dir (lit ".cache")))
    ]

-- What os.Stat says of a path.
pub data Stat : Type 0 where
  present : Stat
  absent : Stat
  unknown : Error → Stat

-- How a command ended: exec.ExitError has a code, and stderr is kept.
pub data Exit : Type 0 where
  exit : (code : ℕ) → (stderr : Text) → Exit
  not_run : (stderr : Text) → Exit

-- Git in the directory of the cache, and the file system about it.
pub record Shell : Type 1 where
  pub World : Type 0
  -- The path of the cache.
  pub place : Text
  -- os.Stat of the directory .git of the cache.
  pub stat_git : World → Stat × World
  -- os.RemoveAll of the cache, and os.MkdirAll of its parent.
  pub remove_cache : World → Option Error × World
  pub make_parent : World → Option Error × World
  -- `git clone REMOTE` into the cache.
  pub clone : Text → World → Option Error × World
  -- `run(ctx, dir, env, "git", args...)`
  pub git : List Text → World → Option Error × World
  -- `output(ctx, dir, env, "git", args...)`
  pub git_output : List Text → World → Outcome Text × World
  -- `git rev-parse --verify --quiet REF`
  pub rev_parse : Text → World → Exit × World
  -- The nanoseconds of the clock, in decimal.
  pub nanoseconds : World → Text

module _ (h : Shell) where
  open h use {World}

  -- A call that may fail, and changes the world either way.
  abbrev pub Act : Type 0 → Type 0
  Act A = World → Outcome A × World

  infixl 5 ◌>>=◌ ◌>>◌
  abbrev pub ◌>>=◌ : {A B : Type 0} → Act A → (A → Act B) → Act B
  ◌>>=◌ m f w = let (answer, w') = m w in elim answer [ err e ↦ (err e, w') | ok a ↦ f a w' ]

  abbrev pub ◌>>◌ : {A B : Type 0} → Act A → Act B → Act B
  m >> k = m >>= λ _. k

  abbrev pub outcome_of : Option Error → Outcome (Unit {0})
  outcome_of none = ok tt
  outcome_of (some e) = err e

  -- `if err := run(...); err != nil { return err }`
  abbrev pub run : List Text → Act (Unit {0})
  run args w = let (failure, w') = h.git args w in (outcome_of failure, w')

  abbrev pub check : Text → (World → Option Error × World) → Act (Unit {0})
  check context call w =
      let (failure, w') = call w in
      (elim failure [ none ↦ ok tt | some e ↦ err (wrapped context e) ], w')

  abbrev pub ref_answer : Text → Exit → Outcome Bool
  ref_answer ref (not_run stderr) =
      err (message (lit "checking git ref " ++ ref ++ lit ": " ++ trim_space stderr))
  ref_answer ref (exit code stderr) =
      if eqb code 0
      then ok true
      else if eqb code 1
      then ok false
      else err (message (lit "checking git ref " ++ ref ++ lit ": " ++ trim_space stderr))

  unfoldable pub git_ref_exists : Text → Act Bool
  git_ref_exists ref w = let (ended, w') = h.rev_parse ref w in (ref_answer ref ended, w')

  unfoldable pub remote_has_any_head : Act Bool
  remote_has_any_head w =
      let (answer, w') = h.git_output (lit "ls-remote" ∷ lit "--heads" ∷ lit "origin" ∷ []) w in
      (elim answer [ err e ↦ err e | ok out ↦ ok (not (trim_space out == lit "")) ], w')

  abbrev pub orphan_args : (branch nanos : Text) → List Text
  orphan_args branch nanos =
      lit "checkout"
      ∷ lit "--orphan"
      ∷ (lit "idpbuilder-" ++ safe_cache_segment branch ++ lit "-reset-" ++ nanos)
      ∷ []

  unfoldable pub checkout_orphan : Text → Act (Unit {0})
  checkout_orphan branch w = run (orphan_args branch (h.nanoseconds w)) w

  -- Past the question whether there is a HEAD.
  abbrev pub reset_head : Bool → Act (Unit {0})
  reset_head false = λ w. (ok tt, w)
  reset_head true = do run (lit "reset" ∷ lit "--hard" ∷ []); run (lit "clean" ∷ lit "-fdx" ∷ [])

  unfoldable pub reset_cache_git_state : Act (Unit {0})
  unfolding git_ref_exists
  reset_cache_git_state = do has_head ← git_ref_exists (lit "HEAD"); reset_head has_head

  -- A clone where there is none, or a remote that is set anew.
  abbrev pub open_found : (remote : Text) → Stat → Act (Unit {0})
  open_found remote (unknown e) w = (err (wrapped (lit "checking sync cache " ++ h.place) e), w)
  open_found remote absent w =
      (do
        check (lit "clearing invalid sync cache " ++ h.place) h.remove_cache
        check (lit "creating sync cache parent") h.make_parent
        (λ w1. let (failure, w2) = h.clone remote w1 in (outcome_of failure, w2)))
        w
  open_found remote present w = run (lit "remote" ∷ lit "set-url" ∷ lit "origin" ∷ remote ∷ []) w

  unfoldable pub open_cache : (remote : Text) → Act (Unit {0})
  open_cache remote w = let (found, w') = h.stat_git w in open_found remote found w'

  abbrev pub checkout_args : (branch : Text) → List Text
  checkout_args branch =
      lit "checkout" ∷ lit "-B" ∷ branch ∷ (lit "refs/remotes/origin/" ++ branch) ∷ []

  -- No branch of that name on the remote: a fresh one, unless the remote has others.
  abbrev pub start_branch : (branch : Text) → (has_heads : Bool) → Act (Unit {0})
  start_branch branch true w = (
    err (
        message (
          lit
            "Refusing non-fast-forward push; run with --reset-local-history to replace local Gitea history: remote branch "
          ++ branch
          ++ lit " is missing")),
    w,
  )
  start_branch branch false w = checkout_orphan branch w

  abbrev pub enter_branch : (branch : Text) → (exists : Bool) → Act (Unit {0})
  enter_branch branch true = run (checkout_args branch)
  enter_branch branch false = remote_has_any_head >>= start_branch branch

  unfoldable pub select_branch : CacheOptions → Act (Unit {0})
  unfolding checkout_orphan git_ref_exists remote_has_any_head
  select_branch o w =
      if o.reset_local_history
      then checkout_orphan o.branch w
      else ((do
        run (lit "fetch" ∷ lit "--prune" ∷ lit "origin" ∷ [])
        exists ← git_ref_exists (lit "refs/remotes/origin/" ++ o.branch)
        enter_branch o.branch exists)
          w)

  unfoldable pub prepare_sync_cache : (remote : Text) → CacheOptions → Act (Unit {0})
  unfolding open_cache reset_cache_git_state select_branch
  prepare_sync_cache remote o = do
    open_cache remote
    run (lit "config" ∷ lit "user.name" ∷ lit "idpbuilder-stacks" ∷ [])
    run (lit "config" ∷ lit "user.email" ∷ lit "idpbuilder-stacks@cnoe.local" ∷ [])
    reset_cache_git_state
    select_branch o
