-- ===== src/Stacks/Refresh.antt =====
-- refreshAfterSync of sync.go: which applications are annotated for a refresh after a push, in
-- which order, and what the result of the sync reports of it.
pub mod Rules
pub mod Order
use idpbuilder.Base.{
  Bool, true, false, ℕ, ◌+◌, ◌-◌, List, [], ◌∷◌, ◌++◌, ◌||◌, not, Option, none, some, if◌then◌else◌,
  Outcome, ok, err, Error, message, wrapped, joined,
}
use idpbuilder.Base.Text.{Text, ◌==◌, lit}
use idpbuilder.Base.Names.{contains}
use idpbuilder.Stacks.Names.{append_unique_strings, without_string, contains_string}
use idpbuilder.Stacks.Apps.{Application, list_stack_applications, stack_application_names_from_list}
use idpbuilder.Stacks.Planner.{RefreshPlan, plan_affected_applications, root_application_name}
use idpbuilder.Stacks.Host.{Host, Options}
use idpbuilder.Stacks.Wait.{Waited, wait_for_applications_observed}

pub record SyncResult : Type 0 where
  pub commit : Text
  pub changed_files : List Text
  pub affected_applications : List Text
  pub refreshed_applications : List Text
  pub skipped_files : List Text
  pub manual_applications : List Text
  pub unsynced_applications : List Text
  pub push_duration : ℕ
  pub refresh_duration : ℕ
  pub wait_duration : ℕ
  pub total_duration : ℕ
  pub noop : Bool

-- What the machine was made to do, kept for the statements about the order. `annotated` is an
-- annotation that ended without an error, `refused` one that did not, and `awaited` is a wait that
-- ended without an error.
pub data Event : Type 0 where
  annotated : Text → Event
  refused : Text → Event
  awaited : List Text → Event

unfoldable pub apply_plan_to_result : SyncResult → RefreshPlan → SyncResult
apply_plan_to_result result plan = record result {
  affected_applications =
      append_unique_strings result.affected_applications plan.affected_applications;
  skipped_files = append_unique_strings result.skipped_files plan.skipped_files;
  manual_applications = append_unique_strings result.manual_applications plan.manual_applications;
}

unfoldable pub replace_plan_in_result : SyncResult → RefreshPlan → SyncResult
replace_plan_in_result result plan = record result {
  affected_applications = plan.affected_applications;
  skipped_files = plan.skipped_files;
  manual_applications = plan.manual_applications;
}

-- errors.Join of the errors so far and one more.
abbrev pub join_errors : Option Error → Option Error → Option Error
join_errors none e = e
join_errors (some a) none = some a
join_errors (some a) (some b) = some (joined a b)

abbrev pub raised : Option Error → Outcome (Unit {0})
raised none = ok tt
raised (some e) = err e

abbrev pub annotation_event : Text → Option Error → Event
annotation_event name none = annotated name
annotation_event name (some e) = refused name

abbrev pub log_wait : List Text → Option Error → List Event → List Event
log_wait names none trace = awaited names ∷ trace
log_wait names (some e) trace = trace

module _ (h : Host) (o : Options) (fuel : ℕ) where
  open h use {World}

  -- The machine, the result that `refreshAfterSync` updates, and the events, the latest first.
  pub record Session : Type 0 where
    pub world : World
    pub result : SyncResult
    pub trace : List Event

  -- A step of the refresh. `none` means that the fuel of a wait or of the planner ran out; the
  -- session outlives an error.
  abbrev pub Act : Type 0 → Type 0
  Act A = Session → Option (Outcome A × Session)

  infixl 5 ◌>>=◌ ◌>>◌
  abbrev pub ◌>>=◌ : {A B : Type 0} → Act A → (A → Act B) → Act B
  ◌>>=◌ m f s = elim (m s) [
    | none ↦ none
    | some (ok a, s') ↦ f a s'
    | some (err e, s') ↦ some (err e, s')
  ]

  abbrev pub ◌>>◌ : {A B : Type 0} → Act A → Act B → Act B
  m >> k = m >>= λ _. k

  abbrev pub done : Act (Unit {0})
  done s = some (ok tt, s)

  abbrev pub update : (SyncResult → SyncResult) → Act (Unit {0})
  update f s = some (ok tt, record s { result = f s.result })

  abbrev pub changed_files : Act (List Text)
  changed_files s = some (ok s.result.changed_files, s)

  -- The loop of `refreshApplications`: every application is annotated, whatever the others answer.
  unfoldable pub annotate_all : List Text → Session → Option Error × Session
  annotate_all [] s = (none, s)
  annotate_all (name ∷ names) s =
      let (failure, w) = h.annotate name s.world in
      let (rest, s') =
        annotate_all names
          (record s { world = w; trace = annotation_event name failure ∷ s.trace }) in
      (
        join_errors
            (elim failure [
              | none ↦ none
              | some e ↦ some (wrapped (lit "refreshing ArgoCD application " ++ name) e)
            ])
            rest,
        s',
      )

  unfoldable pub timed_refresh_applications : List Text → Act (Unit {0})
  unfolding annotate_all
  timed_refresh_applications names s =
      let start = h.now s.world in
      let (failure, s') = annotate_all names s in
      some (
        raised failure,
        record s' {
          result = record s'.result {
            refresh_duration = s'.result.refresh_duration + (h.now s'.world - start);
          };
        },
      )

  -- `timedWaitForApplicationsObserved`, whose unsynced applications go into the result before its
  -- error is returned, at each of its calls.
  unfoldable pub timed_wait_for_applications_observed : List Text → Act (Unit {0})
  timed_wait_for_applications_observed names s =
      let start = h.now s.world in
      elim (wait_for_applications_observed h o fuel names s.result.commit s.world) [
        | none ↦ none
        | some ((unsynced, failure), w) ↦ some (
          raised failure,
          record {
            world = w;
            result = record s.result {
              wait_duration = s.result.wait_duration + (h.now w - start);
              unsynced_applications = append_unique_strings s.result.unsynced_applications unsynced;
            };
            trace = log_wait names failure s.trace;
          },
        )
      ]

  -- The three statements that stand together at each refresh.
  unfoldable pub refresh_and_wait : List Text → Act (Unit {0})
  unfolding timed_refresh_applications timed_wait_for_applications_observed
  refresh_and_wait names = do
    timed_refresh_applications names
    update (λ r. record r {
      refreshed_applications = append_unique_strings r.refreshed_applications names;
    })
    timed_wait_for_applications_observed names

  unfoldable pub list_applications : Act (List Application)
  list_applications s =
      let (answer, w) = h.get_applications s.world in
      some (list_stack_applications o.gitea_owner o.gitea_repo answer, record s { world = w })

  unfoldable pub make_plan : List Application → List Text → Act RefreshPlan
  make_plan apps changed s = elim (plan_affected_applications (h.tree s.world) fuel apps changed) [
    | none ↦ none
    | some outcome ↦ some (outcome, s)
  ]

  -- `if len(children) == 0 { return nil }`
  unfoldable pub refresh_some : List Text → Act (Unit {0})
  unfolding refresh_and_wait
  refresh_some [] = done
  refresh_some (child ∷ children) = refresh_and_wait (child ∷ children)

  -- Everything but the root application, if anything is left.
  unfoldable pub refresh_children : List Text → Act (Unit {0})
  unfolding refresh_some
  refresh_children names = refresh_some (without_string names root_application_name)

  abbrev pub add_affected : List Text → Act (Unit {0})
  add_affected names = update (λ r. record r {
    affected_applications = append_unique_strings r.affected_applications names;
  })

  -- The root application first, then what is listed after it.
  unfoldable pub refresh_root_and_children : Act (Unit {0})
  unfolding refresh_and_wait list_applications refresh_children
  refresh_root_and_children = do
    refresh_and_wait (root_application_name ∷ [])
    apps ← list_applications
    add_affected (stack_application_names_from_list apps)
    refresh_children (stack_application_names_from_list apps)

  -- The mode "all", once the applications are listed.
  unfoldable pub refresh_listed : List Text → Act (Unit {0})
  unfolding refresh_root_and_children
  refresh_listed names =
      if not (contains_string names root_application_name)
      then refresh_and_wait names
      else refresh_root_and_children

  unfoldable pub refresh_all : Act (Unit {0})
  unfolding refresh_listed
  refresh_all = do
    apps ← list_applications
    add_affected (stack_application_names_from_list apps)
    refresh_listed (stack_application_names_from_list apps)

  -- The root application is refreshed and observed, and the plan is made anew.
  unfoldable pub refresh_root_first : Act RefreshPlan
  unfolding refresh_and_wait list_applications make_plan replace_plan_in_result
  refresh_root_first = do
    refresh_and_wait (root_application_name ∷ [])
    apps ← list_applications
    changed ← changed_files
    plan ← make_plan apps changed
    update (λ r. replace_plan_in_result r plan)
    (λ s. some (ok plan, s))

  -- The mode "affected", once the first plan is made and in the result.
  unfoldable pub refresh_planned : RefreshPlan → Act (Unit {0})
  unfolding refresh_root_first refresh_children
  refresh_planned plan =
      if plan.root_first
      then (do plan' ← refresh_root_first; refresh_children plan'.affected_applications)
      else refresh_children plan.affected_applications

  unfoldable pub refresh_affected : Act (Unit {0})
  unfolding refresh_planned apply_plan_to_result
  refresh_affected = do
    apps ← list_applications
    changed ← changed_files
    plan ← make_plan apps changed
    update (λ r. apply_plan_to_result r plan)
    elim plan.affected_applications [ [] ↦ done | name ∷ names ↦ refresh_planned plan ]

  unfoldable pub refresh_after_sync : Act (Unit {0})
  unfolding refresh_all refresh_affected
  refresh_after_sync s =
      if o.refresh_mode == lit "none"
      then done s
      else if o.refresh_mode == lit "all"
      then refresh_all s
      else if o.refresh_mode == lit "affected"
      then refresh_affected s
      else some (err (message (lit "unsupported refresh mode " ++ o.refresh_mode)), s)
