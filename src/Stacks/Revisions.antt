-- ===== src/Stacks/Revisions.antt =====
-- Revisions that applications report, compared with the pushed commit: sync_planner.go.
use idpbuilder.Base.{
  Bool, true, false, List, [], ◌∷◌, ◌++◌, ◌&&◌, ◌||◌, not, Option, none, some, if◌then◌else◌,
  length, take, ltb, any,
}
use idpbuilder.Base.Text.{Text, ◌==◌, lit, trim_space, has_prefix, join}
use idpbuilder.Stacks.Apps.{Application, find_application}

unfoldable pub revision_matches : (got want : Text) → Bool
revision_matches got want =
    let got' = trim_space got in
    let want' = trim_space want in
    not (got' == lit "")
    && not (want' == lit "")
    && (got' == want' || has_prefix got' want' || has_prefix want' got')

unfoldable pub short_revision : Text → Text
short_revision revision = if ltb 12 (length revision) then take 12 revision else revision

unfoldable pub application_observed_revision : Application → Text → Bool
unfolding any
application_observed_revision app commit =
    if revision_matches app.revision commit
    then true
    else any (λ revision. revision_matches revision commit) app.revisions

unfoldable pub observed_application_revisions : Application → List Text
observed_application_revisions app =
    if not (app.revision == lit "") then app.revision ∷ app.revisions else app.revisions

shorten_all : List Text → List Text
shorten_all [] = []
shorten_all (revision ∷ revisions) =
    let rest = shorten_all revisions in
    if not (revision == lit "") then short_revision revision ∷ rest else rest

unfoldable pub observed_revision_summary : Application → Text
unfolding shorten_all
observed_revision_summary app =
    let values =
      (if not (app.revision == lit "") then short_revision app.revision ∷ [] else [])
      ++ shorten_all app.revisions in
    elim values [ [] ↦ lit "none" | value ∷ rest ↦ join (lit ",") (value ∷ rest) ]

abbrev pub is_unsynced : Option Application → Bool
is_unsynced none = false
is_unsynced (some app) = not (app.sync_status == lit "") && not (app.sync_status == lit "Synced")

unfoldable pub unsynced_applications : List (Text × Application) → List Text → List Text
unsynced_applications apps [] = []
unsynced_applications apps (name ∷ names) =
    let rest = unsynced_applications apps names in
    if is_unsynced (find_application name apps) then name ∷ rest else rest
