-- ===== src/Tests/Machines.antt =====
-- A machine whose applications report a commit after some polls, and the theorems on waits at it.
use idpbuilder.Base.{
  ◌≡◌, refl, true, false, ℕ, ◌+◌, [], ◌∷◌, none, some, ok, err, message, if◌then◌else◌, ltb, arith,
}
use idpbuilder.Base.Text.{Text, lit, ◌==◌, has_prefix, trim_space}
use idpbuilder.Base.Names.{contains}
use idpbuilder.Stacks.Apps.{Application, no_source, applications_by_name, find_application}
use idpbuilder.Stacks.Revisions.{
  application_observed_revision, unsynced_applications, revision_matches,
  observed_application_revisions,
}
use idpbuilder.Stacks.Host.{Host, IsTicking, Options}
use idpbuilder.Stacks.Superseding.{superseded_by_observed, revision_supersedes_target}
use idpbuilder.Stacks.Kustomize.{Tree}
use idpbuilder.Stacks.Wait.{
  poll, get_applications_by_name, Waited, wait_for_applications_observed, pending_applications,
}
use idpbuilder.Stacks.Wait.Laws.{
  Observation, wait_for_applications_observed_sound, wait_for_applications_observed_returns,
}

abbrev pub empty_tree : Tree
empty_tree = record {
  stat = λ p. err (message p);
  read_file = λ p. err (message p);
  parse_kustomization = λ bytes. err (message bytes);
  documents = λ bytes. [];
  walk_dir = λ p. [];
}

abbrev reporting : Text → Application
reporting revision = record {
  name = lit "x";
  source = no_source;
  sources = [];
  automated = true;
  sync_status = lit "OutOfSync";
  revision = revision;
  revisions = [];
  health_status = lit "Healthy";
  phase = lit "Succeeded";
}

-- The clock is the world. No revision resolves, so nothing supersedes.
abbrev pub slow : Host
slow = record {
  World = ℕ;
  get_applications = λ w. (ok (reporting (if ltb w 2 then lit "0000" else lit "abc123") ∷ []), w);
  annotate = λ name w. (none, w);
  commit_revision = λ r w. (err (message r), w);
  is_ancestor = λ a d w. (false, w);
  fetch = λ b w. w;
  now = λ w. w;
  sleep = λ w. (none, w + 1);
  tree = λ w. empty_tree;
}

slow-IsTicking : IsTicking slow
slow-IsTicking = record {
  applications = λ w. omega arith;
  revision = λ r w. omega arith;
  ancestor = λ a d w. omega arith;
  sleeping = λ w e. omega arith;
}

abbrev pub options : Options
options = record {
  gitea_owner = lit "giteaadmin";
  gitea_repo = lit "stacks";
  branch = lit "main";
  refresh_mode = lit "affected";
  sync_wait_timeout = 5;
  has_cache = true;
}

wait_run :
    wait_for_applications_observed slow options 7 (lit "x" ∷ []) (lit "abc123") 0
    ≡ some ((lit "x" ∷ [], none), 2)
unfolding wait_for_applications_observed pending_applications applications_by_name contains
    find_application application_observed_revision unsynced_applications revision_matches
    superseded_by_observed revision_supersedes_target poll get_applications_by_name
    observed_application_revisions ◌==◌ has_prefix trim_space
wait_run = refl

commit_given : (lit "abc123" == lit "") ≡ false
unfolding ◌==◌
commit_given = refl

wait_for_applications_observed_sound_example :
    Observation slow options (lit "x" ∷ []) (lit "abc123") (lit "x" ∷ []) 2
wait_for_applications_observed_sound_example =
    wait_for_applications_observed_sound slow options 7 (lit "x") [] (lit "abc123") 0 2
      (lit "x" ∷ []) commit_given wait_run

wait_for_applications_observed_returns_example :
    (r : Waited × ℕ) × (wait_for_applications_observed slow options 7
        (lit "x" ∷ [])
        (lit "abc123")
        0
      ≡ some r)
wait_for_applications_observed_returns_example =
    wait_for_applications_observed_returns slow options 7 (lit "x" ∷ []) (lit "abc123") 0
      slow-IsTicking (omega arith)
