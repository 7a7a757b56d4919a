-- ===== src/Stacks/Cache/Laws.antt =====
-- What a prepared cache is, and the names of its directories.
use idpbuilder.Base.{
  ◌≡◌, ◌≢◌, refl, true, false, ℕ, List, [], ◌∷◌, ◌++◌, ◌⊎◌, inl, inr, none, eqb, arith, Outcome, ok,
  err, if◌then◌else◌, Bool-cases, ◌||◌,
}
use idpbuilder.Base.Text.{Text, ◌==◌, ==_iff, lit, has_byte, trim_space}
use idpbuilder.Stacks.Cache.{
  Shell, CacheOptions, Act, ◌>>=◌, git_ref_exists, checkout_args, orphan_args, select_branch,
  reset_cache_git_state, enter_branch, run, safe_cache_segment, replace_byte,
}

has_byte-replace_byte :
    (old new : ℕ) (text : Text)
    → eqb new old ≡ false
    → has_byte old (replace_byte old new text) ≡ false
unfolding replace_byte
has_byte-replace_byte old new [] h = refl
has_byte-replace_byte old new (c ∷ text) h = ground (arith, has_byte-replace_byte old new text h)

has_byte-replace_byte-other :
    (c old new : ℕ) (text : Text)
    → eqb new c ≡ false
    → has_byte c text ≡ false
    → has_byte c (replace_byte old new text) ≡ false
unfolding replace_byte
has_byte-replace_byte-other c old new [] h k = refl
has_byte-replace_byte-other c old new (x ∷ text) h k =
    ground (arith, has_byte-replace_byte-other c old new text h)

named :
    (t : Text)
    → has_byte 47 t ≡ false
    → has_byte 92 t ≡ false
    → let s = if t == lit "" || t == lit "." || t == lit ".." then lit "_" else t in
      (s ≢ lit "")
      × (s ≢ lit ".")
      × (s ≢ lit "..")
      × (has_byte 47 s ≡ false)
      × (has_byte 92 s ≡ false)
named t a b = elim (Bool-cases (t == lit "" || t == lit "." || t == lit "..")) [
  | inl e ↦ rw e ((λ p. cc), (λ p. cc), (λ p. cc), refl, refl)
  | inr e ↦ rw e (
    (λ p. ground (arith, ==_iff t (lit ""))),
    (λ p. ground (arith, ==_iff t (lit "."))),
    (λ p. ground (arith, ==_iff t (lit ".."))),
    a,
    b,
  )
]

-- A directory of the cache has a name that is one element of a path: `safeCacheSegment` is never
-- empty, "." or "..", and holds neither a slash nor a backslash.
pub safe_cache_segment_names :
    (value : Text)
    → (safe_cache_segment value ≢ lit "")
      × (safe_cache_segment value ≢ lit ".")
      × (safe_cache_segment value ≢ lit "..")
      × (has_byte 47 (safe_cache_segment value) ≡ false)
      × (has_byte 92 (safe_cache_segment value) ≡ false)
unfolding safe_cache_segment
safe_cache_segment_names value =
    let slashes = has_byte-replace_byte 47 95 (replace_byte 47 95 (trim_space value)) refl in
    let text = replace_byte 92 95 (replace_byte 47 95 (replace_byte 47 95 (trim_space value))) in
    let no_slash =
      has_byte-replace_byte-other 47 92 95
        (replace_byte 47 95 (replace_byte 47 95 (trim_space value))) refl slashes in
    let no_backslash =
      has_byte-replace_byte 92 95 (replace_byte 47 95 (replace_byte 47 95 (trim_space value)))
        refl in
    named text no_slash no_backslash

module _ (h : Shell) where
  open h use {World}

  bind_result : {A B : Type 0} → Outcome A × World → (A → Act h B) → Outcome B × World
  bind_result (answer, w) f = elim answer [ err e ↦ (err e, w) | ok a ↦ f a w ]

  -- Git has checked out, as its last step, the branch of the remote.
  abbrev pub IsAtRemote : (branch : Text) → World → Type 0
  IsAtRemote branch w' = (w : World) × (h.git (checkout_args h branch) w ≡ (none, w'))

  -- Git has checked out, as its last step, a branch without history.
  abbrev pub IsAfresh : (branch : Text) → (w w' : World) → Type 0
  IsAfresh branch w w' = h.git (orphan_args h branch (h.nanoseconds w)) w ≡ (none, w')

  -- The remote has no branch of that name, and then, asked for its heads, listed none.
  abbrev pub IsBare : (branch : Text) → World → Type 0
  IsBare branch w' =
      (w w1 : World) × (out : Text) × (git_ref_exists h (lit "refs/remotes/origin/" ++ branch) w
        ≡ (ok false, w1))
      × (h.git_output (lit "ls-remote" ∷ lit "--heads" ∷ lit "origin" ∷ []) w1 ≡ (ok out, w'))
      × (trim_space out ≡ lit "")

  -- What a prepared cache is: at the branch of the remote; or afresh, either since the history of
  -- Gitea is to be replaced, or since the remote has no branch at all.
  abbrev pub IsPrepared : CacheOptions → World → Type 0
  IsPrepared o w' =
      ((o.reset_local_history ≡ false) × IsAtRemote o.branch w')
      ⊎ ((w : World) × IsAfresh o.branch w w'
          × ((o.reset_local_history ≡ true) ⊎ IsBare o.branch w))

  -- After the fetch.
  abbrev find_branch : (branch : Text) → Act h (Unit {0})
  find_branch branch =
      ◌>>=◌ h (git_ref_exists h (lit "refs/remotes/origin/" ++ branch)) (enter_branch h branch)

  abbrev fetch_args : List Text
  fetch_args = lit "fetch" ∷ lit "--prune" ∷ lit "origin" ∷ []

  abbrev name_args : List Text
  name_args = lit "config" ∷ lit "user.name" ∷ lit "idpbuilder-stacks" ∷ []

  abbrev email_args : List Text
  email_args = lit "config" ∷ lit "user.email" ∷ lit "idpbuilder-stacks@cnoe.local" ∷ []

  -- The later calls of `prepareSyncCache`.
  abbrev clean_up : CacheOptions → Act h (Unit {0})
  clean_up o = ◌>>=◌ h (reset_cache_git_state h) (λ _. select_branch h o)

  abbrev set_email : CacheOptions → Act h (Unit {0})
  set_email o = ◌>>=◌ h (run h email_args) (λ _. clean_up o)

  abbrev set_name : CacheOptions → Act h (Unit {0})
  set_name o = ◌>>=◌ h (run h name_args) (λ _. set_email o)
