-- ===== src/Stacks/Status.antt =====
-- The verdict of `stacks status` on the hot loop: status.go. What kubectl and Gitea answered is an
-- argument; the printing is not modelled.
pub mod Laws
use idpbuilder.Base.{
  Bool, true, false, List, [], ◌∷◌, ◌&&◌, ◌||◌, not, Option, none, some, if◌then◌else◌, Error,
}
use idpbuilder.Base.Text.{Text, ◌==◌, lit, trim_space}
use idpbuilder.Base.Order.{text_lt}
use idpbuilder.Stacks.Apps.{Application}
use idpbuilder.Stacks.Revisions.{revision_matches}
use idpbuilder.Stacks.Webhook.{WebhookStatus}

pub record AppProblem : Type 0 where
  pub name : Text
  pub sync : Text
  pub health : Text

-- An empty status is reported as "Unknown".
abbrev pub or_unknown : Text → Text
or_unknown status = if status == lit "" then lit "Unknown" else status

unfoldable pub problem_of : Application → Option AppProblem
problem_of app =
    let sync = or_unknown (trim_space app.sync_status) in
    let health = or_unknown (trim_space app.health_status) in
    if not (sync == lit "Synced") || not (health == lit "Healthy")
    then some (record { name = app.name; sync = sync; health = health })
    else none

-- The order of sort.Slice among problems of one name is not fixed; here an earlier one stays first.
unfoldable pub insert_problem : AppProblem → List AppProblem → List AppProblem
insert_problem p [] = p ∷ []
insert_problem p (q ∷ problems) =
    let rest = insert_problem p problems in
    if text_lt q.name p.name then q ∷ rest else p ∷ q ∷ problems

unfoldable pub unhealthy_stack_applications : List Application → List AppProblem
unfolding problem_of insert_problem
unhealthy_stack_applications [] = []
unhealthy_stack_applications (app ∷ apps) =
    let rest = unhealthy_stack_applications apps in
    elim (problem_of app) [ none ↦ rest | some p ↦ insert_problem p rest ]

unfoldable pub root_revision_match_status : (snapshot root_revision : Text) → Text × Text
root_revision_match_status snapshot root_revision =
    if snapshot == lit "" || root_revision == lit ""
    then (lit "unavailable", lit "")
    else if revision_matches root_revision snapshot
    then (lit "true", lit "")
    else (lit "false", lit "acceptable for child-only syncs")

abbrev pub is_some : Option Error → Bool
is_some none = false
is_some (some e) = true

abbrev pub has_problems : List AppProblem → Bool
has_problems [] = false
has_problems (p ∷ problems) = true

-- `hook` is the status of the webhook, where it could be read.
unfoldable pub hot_loop_readiness_verdict :
    (snapshot root_revision : Text)
    → (hook : WebhookStatus) (hook_available : Bool) → (apps_err : Option Error) → List AppProblem
    → Text
hot_loop_readiness_verdict snapshot root_revision hook hook_available apps_err problems =
    if snapshot == lit "" || root_revision == lit "" || not hook_available || is_some apps_err
    then lit "Hot loop unavailable"
    else if not hook.ready || has_problems problems
    then lit "Hot loop degraded"
    else lit "Hot loop ready"
