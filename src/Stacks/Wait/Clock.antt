-- ===== src/Stacks/Wait/Clock.antt =====
-- The clock does not turn back over the questions that one poll asks.
use idpbuilder.Base.{◌≤◌, List, [], ◌∷◌, Outcome, ok, err, arith}
use idpbuilder.Base.Text.{Text}
use idpbuilder.Stacks.Apps.{Application, find_application}
use idpbuilder.Stacks.Host.{Host, IsTicking, Options}
use idpbuilder.Stacks.Superseding.{
  compare_revisions, compare_to_target, revision_supersedes_target, superseded_by_revisions,
  superseded_by_observed, reported_revisions,
}

module _ (h : Host) (o : Options) (t : IsTicking h) where
  now-compare_revisions :
      (target : Text) (answer : Outcome Text) (w : h.World)
      → h.now w ≤ h.now (compare_revisions h o target (answer, w)).1
  unfolding compare_revisions
  now-compare_revisions target (err e) w = omega arith
  now-compare_revisions target (ok candidate) w = ground (arith, t.ancestor target candidate w)

  now-compare_to_target :
      (candidate : Text) (answer : Outcome Text) (w : h.World)
      → h.now w ≤ h.now (compare_to_target h o candidate (answer, w)).1
  unfolding compare_to_target
  now-compare_to_target candidate (err e) w = omega arith
  now-compare_to_target candidate (ok target) w =
      let (answer, w') = h.commit_revision candidate w in
      omega (arith, t.revision candidate w, now-compare_revisions target answer w')

  pub now-revision_supersedes_target :
      (target candidate : Text) (w : h.World)
      → h.now w ≤ h.now (revision_supersedes_target h o target candidate w).1
  unfolding revision_supersedes_target
  now-revision_supersedes_target target candidate w =
      let (answer, w') = h.commit_revision target w in
      ground (arith, t.revision target w, now-compare_to_target candidate answer w')

  now-superseded_by_revisions :
      (name commit : Text) (revisions : List Text) (w : h.World)
      → h.now w ≤ h.now (superseded_by_revisions h o name commit revisions w).1
  unfolding superseded_by_revisions
  now-superseded_by_revisions name commit [] w = omega arith
  now-superseded_by_revisions name commit (revision ∷ revisions) w =
      let (found, w') = revision_supersedes_target h o commit revision w in
      ground (
        arith,
        now-revision_supersedes_target commit revision w,
        now-superseded_by_revisions name commit revisions w',
      )

  pub now-superseded_by_observed :
      (apps : List (Text × Application)) (commit : Text) (names : List Text) (w : h.World)
      → h.now w ≤ h.now (superseded_by_observed h o apps commit names w).1
  unfolding superseded_by_observed
  now-superseded_by_observed apps commit [] w = omega arith
  now-superseded_by_observed apps commit (name ∷ names) w =
      let revisions = reported_revisions h o (find_application name apps) in
      let (found, w') = superseded_by_revisions h o name commit revisions w in
      ground (
        arith,
        now-superseded_by_revisions name commit revisions w,
        now-superseded_by_observed apps commit names w',
      )
