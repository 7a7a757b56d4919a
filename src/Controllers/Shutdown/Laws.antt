-- ===== src/Controllers/Shutdown/Laws.antt =====
-- A build is done exactly when all that it made is synced.
use idpbuilder.Base.{
  ◌≡◌, ◌≢◌, ◌↔◌, refl, sym, ap, Bool, true, false, List, [], ◌∷◌, ◌⊎◌, inl, inr, Bool-cases, All,
  Outcome, ok, err, Error, ok-injective, subst, arith,
}
use idpbuilder.Base.Text.{Text, ◌==◌, ==_iff}
use idpbuilder.Controllers.Packages.{
  Annotations, get_cli_start_time_annotation_value, get_last_observed_sync_time_annotation_value,
}
use idpbuilder.Controllers.Shutdown.{
  Observed, Listing, healthy, all_ready, is_observed, repository_ready, package_ready,
  is_repository_ready, is_package_ready, core_packages_ready, after_start_time, should_shut_down,
}

all_ready_iff :
    {A : Type 0} (xs : List A) (ready : A → Bool) (P : A → Type 0)
    → ((x : A) → (ready x ≡ true) ↔ P x)
    → (all_ready ready xs ≡ true) ↔ All P xs
unfolding all_ready
all_ready_iff [] ready P k = (λ h. tt, λ h. refl)
all_ready_iff (x ∷ xs) ready P k = (
  λ h.
      let (a, b) : (ready x ≡ true) × (all_ready ready xs ≡ true) = ground (arith, h) in
      ((k x).0 a, (all_ready_iff xs ready P k).0 b),
  λ (p, ps). ground (arith, (k x).1 p, (all_ready_iff xs ready P k).1 ps),
)

-- Synced, and observed by this invocation.
abbrev pub IsSynced : (cli_start_time : Text) → Observed → Type 0
IsSynced t o =
    (o.synced ≡ true) × (get_last_observed_sync_time_annotation_value o.annotations ≡ ok t)

-- A repository that is not of this invocation, or is synced.
abbrev pub IsRepositoryDone : (cli_start_time : Text) → Observed → Type 0
IsRepositoryDone t o = (get_cli_start_time_annotation_value o.annotations ≢ ok t) ⊎ IsSynced t o

-- A package that is of no invocation, or is of this one and synced.
abbrev pub IsPackageDone : (cli_start_time : Text) → Observed → Type 0
IsPackageDone t o =
    ((e : Error) × (get_cli_start_time_annotation_value o.annotations ≡ err e))
    ⊎ ((get_cli_start_time_annotation_value o.annotations ≡ ok t) × IsSynced t o)

observed_iff :
    (r : Outcome Text) (t : Text) (synced : Bool)
    → (is_observed t synced r ≡ true) ↔ ((synced ≡ true) × (r ≡ ok t))
observed_iff (err e) t synced = (λ h. cc, λ (a, b). cc)
observed_iff (ok u) t synced = (
  λ h.
      let (a, b) : (synced ≡ true) × ((t == u) ≡ true) = ground (arith, h) in
      (a, ap ok (sym ((==_iff t u).0 b))),
  λ (a, b). ground (arith, a, (==_iff t u).1 (sym (ok-injective u t b))),
)

ok_or_err : {A B : Type 0} {a : A} {e : Error} → ok a ≡ err e → B
ok_or_err h = cc

split : {B : Type 0} → false ≡ true → B
split h = cc

repository_done_iff :
    (r : Outcome Text) (t : Text) (o : Observed)
    → (repository_ready t o r ≡ true) ↔ ((r ≢ ok t) ⊎ IsSynced t o)
repository_done_iff (err e) t o = (λ h. inl λ x. cc, λ h. refl)
repository_done_iff (ok u) t o = elim (Bool-cases (u == t)) [
  | inl e ↦
      let (into, out) =
        observed_iff (get_last_observed_sync_time_annotation_value o.annotations) t o.synced in
      (
        λ h. inr (into (rw e at h)),
        λ h. elim h [ inl n ↦ absurd (n (ap ok ((==_iff u t).0 e))) | inr done ↦ rw e (out done) ],
      )
  | inr e ↦ (
    λ h. inl λ x. absurd (ground (arith, e, (==_iff u t).1 (ok-injective u t x))),
    λ h. rw e refl,
  )
]

package_done_iff :
    (r : Outcome Text) (t : Text) (o : Observed)
    → (package_ready t o r ≡ true) ↔ (((e : Error) × (r ≡ err e)) ⊎ ((r ≡ ok t) × IsSynced t o))
package_done_iff (err e) t o = (λ h. inl (e, refl), λ h. refl)
package_done_iff (ok u) t o = elim (Bool-cases (u == t)) [
  | inl e ↦
      let (into, out) =
        observed_iff (get_last_observed_sync_time_annotation_value o.annotations) t o.synced in
      (
        λ h. inr (ap ok ((==_iff u t).0 e), into (rw e at h)),
        λ h. elim h [ inl (f, n) ↦ absurd (ok_or_err n) | inr (same, done) ↦ rw e (out done) ],
      )
  | inr e ↦ (
    λ h. absurd (split (rw e at h)),
    λ h. elim h [
      | inl (f, n) ↦ absurd (ok_or_err n)
      | inr (same, done) ↦ absurd (ground (arith, e, (==_iff u t).1 (ok-injective u t same)))
    ],
  )
]

-- The three lists, once the time is known.
abbrev pub AreDone :
    (t : Text) → (apps : Outcome (List Text)) → (repos pkgs : Outcome (List Observed)) → Type 0
AreDone t a r p =
    (apps : List Text) × (repos : List Observed) × (pkgs : List Observed) × (a ≡ ok apps)
    × (r ≡ ok repos)
    × (p ≡ ok pkgs)
    × All (λ status. status ≡ healthy) apps
    × All (IsRepositoryDone t) repos
    × All (IsPackageDone t) pkgs

-- All that the API server lists is ready.
abbrev pub IsDone : (exit_on_sync : Bool) → Annotations → Listing → Type 0
IsDone exit_on_sync annotations listing =
    (exit_on_sync ≡ true)
    × ((t : Text) × (get_cli_start_time_annotation_value annotations ≡ ok t)
        × AreDone t listing.core_packages listing.repositories listing.custom_packages)

lists_done :
    (a : Outcome (List Text)) (r p : Outcome (List Observed)) (t : Text)
    → (core_packages_ready t a r p ≡ ok true) ↔ AreDone t a r p
unfolding is_repository_ready is_package_ready
lists_done (err e) r p t = (λ h. cc, λ (apps, repos, pkgs, x, y, z, a, b, d). cc)
lists_done (ok apps) (err e) p t =
    (λ h. absurd (ground (arith, h)), λ (cs, repos, pkgs, x, y, z, a, b, d). cc)
lists_done (ok apps) (ok repos) (err e) t =
    (λ h. absurd (ground (arith, h)), λ (cs, rs, pkgs, x, y, z, a, b, d). cc)
lists_done (ok apps) (ok repos) (ok pkgs) t =
    let healthy_iff =
      all_ready_iff apps (λ status. status == healthy) (λ status. status ≡ healthy)
        (λ status. ==_iff status healthy) in
    let repos_iff =
      all_ready_iff repos (is_repository_ready t) (IsRepositoryDone t)
        (λ o. repository_done_iff (get_cli_start_time_annotation_value o.annotations) t o) in
    let pkgs_iff =
      all_ready_iff pkgs (is_package_ready t) (IsPackageDone t)
        (λ o. package_done_iff (get_cli_start_time_annotation_value o.annotations) t o) in
    (
      λ h.
          let (x, y, z) : (all_ready (λ status. status == healthy) apps ≡ true)
              × (all_ready (is_repository_ready t) repos ≡ true)
              × (all_ready (is_package_ready t) pkgs ≡ true) =
            ground (arith, h) in
          (apps, repos, pkgs, refl, refl, refl, healthy_iff.0 x, repos_iff.0 y, pkgs_iff.0 z),
      λ (cs, rs, ps, x, y, z, a, r, p).
          let apps_ready =
            healthy_iff.1
              (subst (All (λ status. status ≡ healthy)) (sym (ok-injective apps cs x)) a) in
          let repos_ready =
            repos_iff.1 (subst (All (IsRepositoryDone t)) (sym (ok-injective repos rs y)) r) in
          let pkgs_ready =
            pkgs_iff.1 (subst (All (IsPackageDone t)) (sym (ok-injective pkgs ps z)) p) in
          rw (apps_ready, repos_ready, pkgs_ready) refl,
    )

start_done :
    (r : Outcome Text) (listing : Listing)
    → (after_start_time r listing ≡ ok true) ↔ (
        (t : Text) × (r ≡ ok t)
        × AreDone t listing.core_packages listing.repositories listing.custom_packages)
start_done (err e) listing = (λ h. cc, λ (t, x, rest). cc)
start_done (ok u) listing =
    let lists = lists_done listing.core_packages listing.repositories listing.custom_packages in
    (
      λ h. (u, refl, (lists u).0 h),
      λ (t, x, done). (lists u).1 (
          subst (λ z. AreDone z listing.core_packages listing.repositories listing.custom_packages)
            (sym (ok-injective u t x)) done),
    )

-- The build is to be ended, for the option to exit once it is synced, exactly if the start of this
-- invocation is known, all three lists could be read, each core package is healthy, each repository
-- of this invocation is synced and was observed in it, and each custom package that is of an
-- invocation at all is of this one, is synced and was observed in it.
pub should_shut_down_iff :
    (exit_on_sync : Bool) (annotations : Annotations) (listing : Listing)
    → (should_shut_down exit_on_sync annotations listing ≡ ok true)
      ↔ IsDone exit_on_sync annotations listing
unfolding should_shut_down
should_shut_down_iff false annotations listing = (λ h. absurd (ground (arith, h)), λ (x, done). cc)
should_shut_down_iff true annotations listing =
    let (into, out) = start_done (get_cli_start_time_annotation_value annotations) listing in
    (λ h. (refl, into h), λ (x, done). out done)
