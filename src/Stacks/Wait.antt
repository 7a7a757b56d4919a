-- ===== src/Stacks/Wait.antt =====
-- waitForApplicationsObserved of sync_planner.go: it polls until every application reports the
-- commit, and gives up at a deadline or when a newer commit is seen.
mod Clock
pub mod Laws
use idpbuilder.Base.{
  Bool, true, false, ℕ, zero, suc, ◌+◌, List, [], ◌∷◌, ◌++◌, ◌||◌, Option, none, some,
  if◌then◌else◌, Outcome, ok, err, Error, message, not, ltb,
}
use idpbuilder.Base.Text.{Text, ◌==◌, lit, join}
use idpbuilder.Stacks.Apps.{Application, find_application, applications_by_name}
use idpbuilder.Stacks.Revisions.{
  short_revision, application_observed_revision, observed_revision_summary, unsynced_applications,
}
use idpbuilder.Stacks.Host.{Host, Options}
use idpbuilder.Stacks.Superseding.{superseded_by_observed, superseded_by_branch}

-- Why one application is still pending, if it is.
unfoldable pub pending_reason : (commit : Text) → Option Application → Option Text
pending_reason commit none = some (lit " (missing)")
pending_reason commit (some app) =
    if app.phase == lit "Running"
    then some (lit " (operation running)")
    else if not (application_observed_revision app commit)
    then some (lit " (revision " ++ observed_revision_summary app ++ lit ")")
    else none

unfoldable pub pending_applications :
    List (Text × Application) → (commit : Text) → List Text → List Text
unfolding pending_reason
pending_applications apps commit [] = []
pending_applications apps commit (name ∷ names) =
    let rest = pending_applications apps commit names in
    elim (pending_reason commit (find_application name apps)) [
      | none ↦ rest
      | some reason ↦ (name ++ reason) ∷ rest
    ]

-- The unsynced applications and the error, both of which the source returns.
abbrev pub Waited : Type 0
Waited = List Text × Option Error

module _ (h : Host) (o : Options) where
  open h use {World}

  -- `getApplicationsByName`
  unfoldable pub get_applications_by_name :
      List Text → World → Outcome (List (Text × Application)) × World
  get_applications_by_name names w =
      let (answer, w') = h.get_applications w in
      (elim answer [ err e ↦ err e | ok apps ↦ ok (applications_by_name names [] apps) ], w')

  module _ (names : List Text) (commit : Text) (deadline : ℕ) where
    -- After the deadline.
    abbrev pub give_up :
        (apps : List (Text × Application)) (pending : List Text) → World → Waited × World
    give_up apps pending w =
        let (found, w') = superseded_by_branch h o commit w in
        (
          (
            unsynced_applications apps names,
            elim found [
              | some e ↦ some e
              | none ↦ some (
                  message (
                    lit "timed out waiting for applications to observe "
                    ++ short_revision commit
                    ++ lit ": "
                    ++ join (lit ", ") pending))
            ],
          ),
          w',
        )

    -- One round of the loop: what it returns, or the state for the next round.
    unfoldable pub poll_pending :
        (apps : List (Text × Application)) (pending : List Text) → World → Option Waited × World
    poll_pending apps [] w = (some (unsynced_applications apps names, none), w)
    poll_pending apps (p ∷ pending) w =
        let (newer, w1) = superseded_by_observed h o apps commit names w in
        elim newer [
          | some e ↦ (some (unsynced_applications apps names, some e), w1)
          | none ↦
              if ltb deadline (h.now w1)
              then (let (given_up, w2) = give_up apps (p ∷ pending) w1 in (some given_up, w2))
              else let (cause, w2) = h.sleep w1 in
                (
                  elim cause [
                    | some e ↦ some (unsynced_applications apps names, some e)
                    | none ↦ none
                  ],
                  w2,
                )
        ]

    unfoldable pub poll : World → Option Waited × World
    unfolding poll_pending
    poll w =
        let (answer, w') = get_applications_by_name names w in
        elim answer [
          | err e ↦ (some ([], some e), w')
          | ok apps ↦ poll_pending apps (pending_applications apps commit names) w'
        ]

    -- The loop, on fuel: `none` means that the fuel ran out.
    unfoldable pub poll_until : ℕ → World → Option (Waited × World)
    poll_until zero w = none
    poll_until (suc fuel) w =
        let (result, w') = poll w in
        let again = poll_until fuel w' in
        elim result [ some waited ↦ some (waited, w') | none ↦ again ]

  unfoldable pub wait_for_applications_observed :
      ℕ → List Text → (commit : Text) → World → Option (Waited × World)
  unfolding poll_until
  wait_for_applications_observed fuel [] commit w = some (([], none), w)
  wait_for_applications_observed fuel (name ∷ names) commit w =
      let waited = poll_until (name ∷ names) commit (h.now w + o.sync_wait_timeout) fuel w in
      if commit == lit "" then some (([], none), w) else waited
