-- ===== src/Stacks/Wait/Laws.antt =====
-- What a wait that ends without an error has seen, and that every wait ends.
use idpbuilder.Base.{
  ◌≡◌, refl, sym, subst, true, false, ℕ, zero, suc, ◌+◌, ◌≤◌, ◌<◌, List, [], ◌∷◌, Option, none,
  some, Outcome, ok, ap, ◌∙◌, arith, Bool-cases, inl, inr, Option-cases, Outcome-cases,
}
use idpbuilder.Base.Text.{Text, ◌==◌, ==_iff, lit}
use idpbuilder.Base.Names.{contains}
use idpbuilder.Stacks.Apps.{Application, find_application, applications_by_name}
use idpbuilder.Stacks.Revisions.{application_observed_revision, unsynced_applications}
use idpbuilder.Stacks.Host.{Host, IsTicking, Options}
use idpbuilder.Stacks.Superseding.{superseded_by_observed}
use idpbuilder.Stacks.Wait.{
  Waited, pending_reason, pending_applications, get_applications_by_name, poll_pending, poll,
  poll_until, wait_for_applications_observed,
}
use idpbuilder.Stacks.Wait.Clock.{now-superseded_by_observed}

-- The application is listed, runs no operation and reports the commit.
pub record HasObserved (apps : List (Text × Application)) (commit name : Text) : Type 0 where
  pub app : Application
  pub listed : find_application name apps ≡ some app
  pub idle : (app.phase == lit "Running") ≡ false
  pub observed : application_observed_revision app commit ≡ true

not_pending :
    (apps : List (Text × Application)) (commit name : Text)
    → pending_reason commit (find_application name apps) ≡ none
    → HasObserved apps commit name
unfolding pending_reason
not_pending apps commit name h = elim (Option-cases (find_application name apps)) [
  | inl e ↦ absurd (ground arith)
  | inr (app, e) ↦ record { app = app; listed = e; idle = ground arith; observed = ground arith }
]

pending_empty :
    (apps : List (Text × Application)) (commit : Text) (names : List Text)
    → pending_applications apps commit names ≡ []
    → (name : Text) → contains names name ≡ true
    → HasObserved apps commit name
unfolding pending_applications contains
pending_empty apps commit [] h name m = cc
pending_empty apps commit (n ∷ names) h name m =
    elim (Option-cases (pending_reason commit (find_application n apps))) [
      | inr (reason, e) ↦ absurd (ground arith)
      | inl e ↦ elim (Bool-cases (name == n)) [
        | inl same ↦
            subst (HasObserved apps commit) (sym ((==_iff name n).0 same))
              (not_pending apps commit n e)
        | inr other ↦ pending_empty apps commit names (ground arith) name (ground arith)
      ]
    ]

answer_ends :
    {W : Type 0} (r : Outcome (List Application) × W) (apps : List Application) (w' : W)
    → r.0 ≡ ok apps
    → r.1 ≡ w'
    → r ≡ (ok apps, w')
answer_ends (answer, w) apps w' e k = ap (λ x. (x, w)) e ∙ ap (λ x. (ok apps, x)) k

some_inj : {A : Type 0} (a b : A) → some a ≡ some b → a ≡ b
some_inj a b e = cc

poll_ends :
    {W : Type 0} (r : Option Waited × W) (waited : Waited) (unsynced : List Text) (w' : W)
    → r.0 ≡ some waited
    → ◌≡◌ {A = Option (Waited × W)} (some (waited, r.1)) (some ((unsynced, none), w'))
    → r ≡ (some (unsynced, none), w')
poll_ends (answer, w) waited unsynced w' a e =
    let same = some_inj (waited, w) ((unsynced, none), w') e in
    ap (λ x. (x, w)) a ∙ ap (λ x. (some x.0, x.1)) same

module _ (h : Host) (o : Options) where
  -- The last answer of kubectl, after which the wait makes no call: it ends in the world that the
  -- answer leaves.
  pub record Observation (names : List Text) (commit : Text) (unsynced : List Text) (end : h.World)
      : Type 0 where
    pub world : h.World
    pub apps : List Application
    pub answered : h.get_applications world ≡ (ok apps, end)
    pub all_observed :
        (name : Text)
        → contains names name ≡ true
        → HasObserved (applications_by_name names [] apps) commit name
    pub rest : unsynced ≡ unsynced_applications (applications_by_name names [] apps) names

  module _ (names : List Text) (commit : Text) (deadline : ℕ) where
    poll_pending-observed :
        (apps : List (Text × Application)) (pending : List Text) (w w' : h.World)
        (unsynced : List Text)
        → poll_pending h o names commit deadline apps pending w ≡ (some (unsynced, none), w')
        → (pending ≡ []) × (unsynced ≡ unsynced_applications apps names) × (w ≡ w')
    unfolding poll_pending
    poll_pending-observed apps [] w w' unsynced e = (refl, ground arith, ap (λ x. x.1) e)
    poll_pending-observed apps (p ∷ pending) w w' unsynced e = absurd (ground arith)

    poll-observed :
        (w w' : h.World) (unsynced : List Text)
        → poll h o names commit deadline w ≡ (some (unsynced, none), w')
        → Observation names commit unsynced w'
    unfolding poll get_applications_by_name
    poll-observed w w' unsynced e = elim (Outcome-cases (h.get_applications w).0) [
      | inr (f, a) ↦ absurd (ground arith)
      | inl (apps, a) ↦
          let by_name = applications_by_name names [] apps in
          let pending = pending_applications by_name commit names in
          let (none_left, rest, same) =
            poll_pending-observed by_name pending (h.get_applications w).1 w' unsynced
              (ground arith) in
          record {
            world = w;
            apps = apps;
            answered = answer_ends (h.get_applications w) apps w' a same;
            all_observed = pending_empty by_name commit names none_left;
            rest = rest;
          }
    ]

    poll_until-observed :
        (fuel : ℕ) (w w' : h.World) (unsynced : List Text)
        → poll_until h o names commit deadline fuel w ≡ some ((unsynced, none), w')
        → Observation names commit unsynced w'
    unfolding poll_until
    poll_until-observed zero w w' unsynced e = absurd (ground arith)
    poll_until-observed (suc fuel) w w' unsynced e =
        elim (Option-cases (poll h o names commit deadline w).0) [
          | inl a ↦
              poll_until-observed fuel (poll h o names commit deadline w).1 w' unsynced
                (ground arith)
          | inr (waited, a) ↦ poll-observed w w' unsynced (
              poll_ends (poll h o names commit deadline w) waited unsynced w' a
                (rw (poll_until, a) at e))
        ]

    module _ (t : IsTicking h) where
      poll_pending-ticks :
          (apps : List (Text × Application)) (pending : List Text) (w : h.World)
          → (poll_pending h o names commit deadline apps pending w).0 ≡ none
          → (h.now w ≤ deadline)
            × (h.now w < h.now (poll_pending h o names commit deadline apps pending w).1)
      unfolding poll_pending
      poll_pending-ticks apps [] w e = absurd (ground arith)
      poll_pending-ticks apps (p ∷ pending) w e =
          let w1 = (superseded_by_observed h o apps commit names w).1 in
          ground (arith, now-superseded_by_observed h o t apps commit names w, t.sleeping w1)

      poll-ticks :
          (w : h.World)
          → (poll h o names commit deadline w).0 ≡ none
          → (h.now w ≤ deadline) × (h.now w < h.now (poll h o names commit deadline w).1)
      unfolding poll get_applications_by_name
      poll-ticks w e = elim (Outcome-cases (h.get_applications w).0) [
        | inr (f, a) ↦ absurd (ground arith)
        | inl (apps, a) ↦
            let by_name = applications_by_name names [] apps in
            let pending = pending_applications by_name commit names in
            ground
              (arith, t.applications w, poll_pending-ticks by_name pending (h.get_applications w).1)
      ]

      poll_until_returns :
          (fuel : ℕ) (w : h.World)
          → deadline + 1 < fuel + h.now w
          → 0 < fuel
          → (r : Waited × h.World) × (poll_until h o names commit deadline fuel w ≡ some r)
      unfolding poll_until
      poll_until_returns zero w low pos = absurd (omega arith)
      poll_until_returns (suc fuel) w low pos =
          elim (Option-cases (poll h o names commit deadline w).0) [
            | inr (waited, a) ↦
                ((waited, (poll h o names commit deadline w).1), rw (a, poll_until) refl)
            | inl a ↦
                rw (a, poll_until)
                  (poll_until_returns fuel (poll h o names commit deadline w).1
                    (omega (arith, poll-ticks w a)) (omega (arith, poll-ticks w a)))
          ]

  -- A wait for some applications, with a commit given, that returns no error: the last call that
  -- it made, after which it ended, was of kubectl, which answered with applications of which each
  -- awaited one was listed, ran no operation and reported the commit; and it returns the awaited
  -- ones that were not synced in that answer.
  pub wait_for_applications_observed_sound :
      (fuel : ℕ) (name : Text) (names : List Text) (commit : Text) (w w' : h.World)
      (unsynced : List Text)
      → (commit == lit "") ≡ false
      → wait_for_applications_observed h o fuel (name ∷ names) commit w
        ≡ some ((unsynced, none), w')
      → Observation (name ∷ names) commit unsynced w'
  unfolding wait_for_applications_observed
  wait_for_applications_observed_sound fuel name names commit w w' unsynced given e =
      poll_until-observed (name ∷ names) commit (h.now w + o.sync_wait_timeout) fuel w w' unsynced
        (rw given at e)

  -- If the clock does not turn back and every wait for the poll interval moves it, then the wait
  -- returns, with an error or without, on fuel that exceeds its timeout by two.
  pub wait_for_applications_observed_returns :
      (fuel : ℕ) (names : List Text) (commit : Text) (w : h.World)
      → IsTicking h
      → o.sync_wait_timeout + 2 ≤ fuel
      → (r : Waited × h.World) × (wait_for_applications_observed h o fuel names commit w ≡ some r)
  unfolding wait_for_applications_observed
  wait_for_applications_observed_returns fuel [] commit w t enough = ((([], none), w), refl)
  wait_for_applications_observed_returns fuel (name ∷ names) commit w t enough =
      elim (Bool-cases (commit == lit "")) [
        | inl e ↦ ((([], none), w), rw e refl)
        | inr e ↦ rw e (
            poll_until_returns (name ∷ names) commit (h.now w + o.sync_wait_timeout) t fuel w
              (omega arith) (omega arith))
      ]
