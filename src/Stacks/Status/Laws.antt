-- ===== src/Stacks/Status/Laws.antt =====
-- When the verdict is that the hot loop is ready.
use idpbuilder.Base.{
  ◌≡◌, ◌≢◌, refl, ◌↔◌, ap, sym, Bool, true, false, List, [], ◌∷◌, ◌&&◌, ◌||◌, not, Option, none,
  some, if◌then◌else◌, arith, Error, any, Bool-cases, inl, inr,
}
use idpbuilder.Base.Text.{Text, ◌==◌, ==_iff, lit, trim_space}
use idpbuilder.Stacks.Apps.{Application}
use idpbuilder.Stacks.Webhook.{WebhookStatus}
use idpbuilder.Stacks.Status.{
  AppProblem, problem_of, insert_problem, unhealthy_stack_applications, hot_loop_readiness_verdict,
  has_problems, is_some, or_unknown,
}

-- The application reports, but for spaces around, that it is synced and healthy.
abbrev pub is_well : Application → Bool
is_well app =
    trim_space app.sync_status == lit "Synced" && trim_space app.health_status == lit "Healthy"

has_problems-insert_problem :
    (p : AppProblem) (problems : List AppProblem) → has_problems (insert_problem p problems) ≡ true
unfolding insert_problem
has_problems-insert_problem p [] = refl
has_problems-insert_problem p (q ∷ problems) = ground arith

or_unknown_synced : (x : Text) → (or_unknown x == lit "Synced") ≡ (x == lit "Synced")
unfolding ◌==◌
or_unknown_synced x = elim (Bool-cases (x == lit "")) [
  | inl e ↦ rw (e, (==_iff x (lit "")).0 e) refl
  | inr n ↦ rw n refl
]

or_unknown_healthy : (x : Text) → (or_unknown x == lit "Healthy") ≡ (x == lit "Healthy")
unfolding ◌==◌
or_unknown_healthy x = elim (Bool-cases (x == lit "")) [
  | inl e ↦ rw (e, (==_iff x (lit "")).0 e) refl
  | inr n ↦ rw n refl
]

problem_of-none : (app : Application) → is_well app ≡ true → problem_of app ≡ none
unfolding problem_of
problem_of-none app h = ground (
  arith,
  h,
  or_unknown_synced (trim_space app.sync_status),
  or_unknown_healthy (trim_space app.health_status),
)

problem_of-some :
    (app : Application) → is_well app ≡ false → (p : AppProblem) × (problem_of app ≡ some p)
unfolding problem_of
problem_of-some app h = (
  record {
    name = app.name;
    sync = or_unknown (trim_space app.sync_status);
    health = or_unknown (trim_space app.health_status);
  },
  ground (
    arith,
    h,
    or_unknown_synced (trim_space app.sync_status),
    or_unknown_healthy (trim_space app.health_status),
  ),
)

has_problems-unhealthy :
    (apps : List Application)
    → has_problems (unhealthy_stack_applications apps) ≡ any (λ app. not (is_well app)) apps
unfolding unhealthy_stack_applications any
has_problems-unhealthy [] = refl
has_problems-unhealthy (app ∷ apps) = elim (Bool-cases (is_well app)) [
  | inl w ↦ ground (arith, problem_of-none app w, w, has_problems-unhealthy apps)
  | inr n ↦
      let (p, e) = problem_of-some app n in
      ground (arith, e, n, has_problems-insert_problem p (unhealthy_stack_applications apps))
]

split_false : false ≡ true → ⊥
split_false p = cc

unavailable_other : lit "Hot loop unavailable" ≡ lit "Hot loop ready" → ⊥
unfolding ◌==◌
unavailable_other h = split_false ((==_iff (lit "Hot loop unavailable") (lit "Hot loop ready")).1 h)

degraded_other : lit "Hot loop degraded" ≡ lit "Hot loop ready" → ⊥
unfolding ◌==◌
degraded_other h = split_false ((==_iff (lit "Hot loop degraded") (lit "Hot loop ready")).1 h)

ready_iff :
    (a b : Bool)
    → ((if a
          then lit "Hot loop unavailable"
          else if b
          then lit "Hot loop degraded"
          else lit "Hot loop ready")
        ≡ lit "Hot loop ready")
      ↔ ((a ≡ false) × (b ≡ false))
ready_iff true b = ((λ h. absurd (unavailable_other h)), (λ h. absurd (split_false (sym h.0))))
ready_iff false true = ((λ h. absurd (degraded_other h)), (λ h. absurd (split_false (sym h.1))))
ready_iff false false = ((λ h. (refl, refl)), (λ h. refl))

==-false : (x y : Text) → x ≢ y → (x == y) ≡ false
==-false x y n = elim (Bool-cases (x == y)) [ inl e ↦ absurd (n ((==_iff x y).0 e)) | inr e ↦ e ]

is_some-none : (e : Option Error) → is_some e ≡ false → e ≡ none
is_some-none none h = refl
is_some-none (some e) h = cc

-- The verdict is that the hot loop is ready exactly if the snapshot, the revision of the root
-- application, the webhook and the applications could all be read, the webhook is ready, and every
-- application reports that it is synced and healthy.
pub hot_loop_readiness_verdict-ready :
    (snapshot root_revision : Text) (hook : WebhookStatus) (hook_available : Bool)
    (apps_err : Option Error) (apps : List Application)
    → (hot_loop_readiness_verdict snapshot root_revision hook hook_available apps_err
          (unhealthy_stack_applications apps)
        ≡ lit "Hot loop ready")
      ↔ ((snapshot ≢ lit "")
          × (root_revision ≢ lit "")
          × (hook_available ≡ true)
          × (apps_err ≡ none)
          × (hook.ready ≡ true)
          × (any (λ app. not (is_well app)) apps ≡ false))
unfolding hot_loop_readiness_verdict
hot_loop_readiness_verdict-ready snapshot root_revision hook hook_available apps_err apps =
    let a =
      snapshot == lit "" || root_revision == lit "" || not hook_available || is_some apps_err in
    let problems = unhealthy_stack_applications apps in
    let iff = ready_iff a (not hook.ready || has_problems problems) in
    let counted = has_problems-unhealthy apps in
    (
      (λ h.
          let (read, well) = iff.0 h in
          (
            (λ p. ground (arith, read, (==_iff snapshot (lit "")).1 p)),
            (λ p. ground (arith, read, (==_iff root_revision (lit "")).1 p)),
            ground (arith, read),
            is_some-none apps_err (ground (arith, read)),
            ground (arith, well),
            ground (arith, well, counted),
          )),
      (λ (s, r, available, e, ready, well). iff.1 (
        ground (
          arith,
          ==-false snapshot (lit "") s,
          ==-false root_revision (lit "") r,
          available,
          ap is_some e,
        ),
        ground (arith, ready, well, counted),
      )),
    )
