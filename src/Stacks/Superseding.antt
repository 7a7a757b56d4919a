-- ===== src/Stacks/Superseding.antt =====
-- Whether a newer commit has overtaken the one that was pushed: sync_planner.go.
use idpbuilder.Base.{
  List, [], ◌∷◌, ◌++◌, Option, none, some, if◌then◌else◌, Outcome, ok, err, Error, superseded, not,
}
use idpbuilder.Base.Text.{Text, ◌==◌, lit}
use idpbuilder.Stacks.Apps.{Application, find_application}
use idpbuilder.Stacks.Revisions.{revision_matches, short_revision, observed_application_revisions}
use idpbuilder.Stacks.Host.{Host, Options}

module _ (h : Host) (o : Options) where
  open h use {World}

  unfoldable pub compare_revisions :
      (target_revision : Text) → Outcome Text × World → Option Text × World
  compare_revisions target_revision (err e, w) = (none, w)
  compare_revisions target_revision (ok candidate_revision, w) =
      if candidate_revision == target_revision
      then (none, w)
      else let (ancestor, w') = h.is_ancestor target_revision candidate_revision w in
        (if ancestor then some candidate_revision else none, w')

  unfoldable pub compare_to_target : (candidate : Text) → Outcome Text × World → Option Text × World
  unfolding compare_revisions
  compare_to_target candidate (err e, w) = (none, w)
  compare_to_target candidate (ok target_revision, w) =
      compare_revisions target_revision (h.commit_revision candidate w)

  -- `revisionSupersedesTarget`: the resolved candidate, where it is a descendant of the target.
  unfoldable pub revision_supersedes_target :
      (target candidate : Text) → World → Option Text × World
  unfolding compare_to_target
  revision_supersedes_target target candidate w =
      if revision_matches candidate target
      then (none, w)
      else if not o.has_cache
      then (none, w)
      else compare_to_target candidate (h.commit_revision target w)

  -- The loop over the revisions that one application reports.
  unfoldable pub superseded_by_revisions :
      (name commit : Text) → List Text → World → Option Error × World
  superseded_by_revisions name commit [] w = (none, w)
  superseded_by_revisions name commit (revision ∷ revisions) w =
      let (found, w') = revision_supersedes_target commit revision w in
      elim found [
        | none ↦ superseded_by_revisions name commit revisions w'
        | some resolved ↦ (
          some (
              superseded commit resolved (
                lit "application "
                ++ name
                ++ lit " observed newer revision "
                ++ short_revision resolved)),
          w',
        )
      ]

  abbrev pub reported_revisions : Option Application → List Text
  reported_revisions none = []
  reported_revisions (some app) = observed_application_revisions app

  -- `supersededByObservedApplicationRevision`. A name that is not in the map is passed over.
  unfoldable pub superseded_by_observed :
      List (Text × Application) → (commit : Text) → List Text → World → Option Error × World
  unfolding superseded_by_revisions
  superseded_by_observed apps commit [] w = (none, w)
  superseded_by_observed apps commit (name ∷ names) w =
      let (found, w') =
        superseded_by_revisions name commit (reported_revisions (find_application name apps)) w in
      elim found [ none ↦ superseded_by_observed apps commit names w' | some e ↦ (some e, w') ]

  -- The loop over the two references in `currentBranchRevision`.
  unfoldable pub first_revision : List Text → World → Option Text × World
  first_revision [] w = (none, w)
  first_revision (ref ∷ refs) w =
      let (found, w') = h.commit_revision ref w in
      let rest = first_revision refs w' in
      elim found [
        | err e ↦ rest
        | ok revision ↦ if not (revision == lit "") then (some revision, w') else rest
      ]

  unfoldable pub current_branch_revision : World → Option Text × World
  unfolding first_revision
  current_branch_revision w =
      if not o.has_cache
      then (none, w)
      else first_revision
          ((lit "refs/remotes/origin/" ++ o.branch) ∷ (lit "refs/heads/" ++ o.branch) ∷ [])
          (h.fetch o.branch w)

  unfoldable pub superseded_by_candidate :
      (commit : Text) → Option Text × World → Option Error × World
  superseded_by_candidate commit (none, w) = (none, w)
  superseded_by_candidate commit (some revision, w) =
      let (found, w') = revision_supersedes_target commit revision w in
      (
        elim found [
          | none ↦ none
          | some resolved ↦ some (
              superseded commit resolved
                (lit "Gitea branch " ++ o.branch ++ lit " advanced past the pushed commit"))
        ],
        w',
      )

  -- `supersededByBranchRevision`
  unfoldable pub superseded_by_branch : (commit : Text) → World → Option Error × World
  unfolding current_branch_revision superseded_by_candidate
  superseded_by_branch commit w = superseded_by_candidate commit (current_branch_revision w)
