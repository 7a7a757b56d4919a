-- ===== src/Stacks/Refresh/Order.antt =====
-- The order of the refresh, and what it leaves refreshed.
use idpbuilder.Base.{
  ◌≡◌, refl, Bool, true, false, ℕ, List, [], ◌∷◌, ◌||◌, ◌&&◌, Option, none, some, Outcome, ok,
  Error, arith, inl, inr,
}
use idpbuilder.Base.Text.{Text, ◌==◌, ==_self}
use idpbuilder.Base.Names.{contains}
use idpbuilder.Stacks.Names.{without_string}
use idpbuilder.Stacks.Names.Laws.{contains_string-eq}
use idpbuilder.Stacks.Planner.{RefreshPlan, root_application_name, plan_affected_applications}
use idpbuilder.Stacks.Apps.{Application, stack_application_names_from_list}
use idpbuilder.Stacks.Host.{Host, Options}
use idpbuilder.Stacks.Refresh.{
  Event, annotated, refused, awaited, annotation_event, Session, Act, ◌>>=◌, ◌>>◌, update,
  annotate_all, timed_refresh_applications, timed_wait_for_applications_observed, refresh_and_wait,
  list_applications, make_plan, changed_files, replace_plan_in_result, add_affected, refresh_listed,
  refresh_root_and_children, refresh_some, refresh_children, refresh_root_first, refresh_planned,
  log_wait,
}
use idpbuilder.Stacks.Refresh.Rules.{Keeps, Yields, Keeps-bind, Yields-bind, Yields_of_Keeps}
use idpbuilder.Stacks.Wait.{wait_for_applications_observed}
use idpbuilder.Base.{Option-cases}

-- The root application was annotated without an error.
abbrev pub root_annotated : List Event → Bool
root_annotated [] = false
root_annotated (annotated name ∷ earlier) = name == root_application_name || root_annotated earlier
root_annotated (refused name ∷ earlier) = root_annotated earlier
root_annotated (awaited names ∷ earlier) = root_annotated earlier

-- The root application was annotated without an error, and after that a wait for it ended without
-- an error. The latest event stands first.
abbrev pub root_awaited : List Event → Bool
root_awaited [] = false
root_awaited (annotated name ∷ earlier) = root_awaited earlier
root_awaited (refused name ∷ earlier) = root_awaited earlier
root_awaited (awaited names ∷ earlier) =
    contains names root_application_name && root_annotated earlier || root_awaited earlier

-- Every application but the root is annotated, with an error or without, only after the root was
-- annotated and then awaited.
abbrev pub IsRootFirst : List Event → Type 0
IsRootFirst [] = Unit
IsRootFirst (annotated name ∷ earlier) =
    ((name == root_application_name || root_awaited earlier) ≡ true) × IsRootFirst earlier
IsRootFirst (refused name ∷ earlier) =
    ((name == root_application_name || root_awaited earlier) ≡ true) × IsRootFirst earlier
IsRootFirst (awaited names ∷ earlier) = IsRootFirst earlier

-- The root application stays awaited, and the order is kept.
abbrev IsReady : List Event → Type 0
IsReady trace = IsRootFirst trace × (root_awaited trace ≡ true)

annotation_event-IsReady :
    (failure : Option Error) (name : Text) (trace : List Event)
    → IsRootFirst trace
    → root_awaited trace ≡ true
    → IsReady (annotation_event name failure ∷ trace)
annotation_event-IsReady none name trace r a = ((ground arith, r), a)
annotation_event-IsReady (some e) name trace r a = ((ground arith, r), a)

log_wait-IsReady :
    (names : List Text) (e : Option Error) (trace : List Event)
    → IsReady trace
    → IsReady (log_wait names e trace)
log_wait-IsReady names none trace (r, a) = (r, ground arith)
log_wait-IsReady names (some e) trace r = r

root_event-IsRootFirst :
    (failure : Option Error) (trace : List Event)
    → IsRootFirst trace
    → IsRootFirst (annotation_event root_application_name failure ∷ trace)
root_event-IsRootFirst none trace r = (rw ==_self refl, r)
root_event-IsRootFirst (some e) trace r = (rw ==_self refl, r)

module _ (h : Host) (o : Options) (fuel : ℕ) where
  annotate_all-IsReady :
      (names : List Text) (s : Session h o fuel)
      → IsReady s.trace
      → IsReady (annotate_all h o fuel names s).1.trace
  unfolding annotate_all
  annotate_all-IsReady [] s r = r
  annotate_all-IsReady (name ∷ names) s (r, a) =
      annotate_all-IsReady names _
        (annotation_event-IsReady (h.annotate name s.world).0 name s.trace r a)

  Ready : Session h o fuel → Type 0
  Ready s = IsReady s.trace

  Ordered : Session h o fuel → Type 0
  Ordered s = IsRootFirst s.trace

  wait-Ready :
      (names : List Text) (s : Session h o fuel)
      → Ready s
      → Keeps h o fuel (timed_wait_for_applications_observed h o fuel names s) Ready
  unfolding timed_wait_for_applications_observed Ready
  wait-Ready names s r =
      elim (Option-cases (wait_for_applications_observed h o fuel names s.result.commit s.world)) [
        | inl e ↦ rw (e, Keeps) tt
        | inr (((unsynced, failure), w), e) ↦
            rw (e, Keeps) (log_wait-IsReady names failure s.trace r)
      ]

  timed_refresh-Ready :
      (names : List Text) (s : Session h o fuel)
      → Ready s
      → Keeps h o fuel (timed_refresh_applications h o fuel names s) Ready
  unfolding timed_refresh_applications Ready
  timed_refresh-Ready names s r = annotate_all-IsReady names s r

  refresh-Ready :
      (names : List Text) (s : Session h o fuel)
      → Ready s
      → Keeps h o fuel (refresh_and_wait h o fuel names s) Ready
  unfolding refresh_and_wait Ready
  refresh-Ready names s r =
      Keeps-bind h o fuel _ (timed_refresh_applications h o fuel names) s Ready (λ _. Ready)
        (timed_refresh-Ready names s r)
        (Yields_of_Keeps h o fuel (timed_refresh_applications h o fuel names s) Ready
          (timed_refresh-Ready names s r))
        (λ _ s1 r1. wait-Ready names _ r1)

  some-Ready :
      (names : List Text) (s : Session h o fuel)
      → Ready s
      → Keeps h o fuel (refresh_some h o fuel names s) Ready
  unfolding refresh_some
  some-Ready [] s r = r
  some-Ready (name ∷ names) s r = refresh-Ready (name ∷ names) s r

  abbrev root_only : List Text
  root_only = root_application_name ∷ []

  annotate_root-Ordered :
      (s : Session h o fuel) → Ordered s → Ordered (annotate_all h o fuel root_only s).1
  unfolding annotate_all Ordered
  annotate_root-Ordered s r =
      root_event-IsRootFirst (h.annotate root_application_name s.world).0 s.trace r

  timed_root-Ordered :
      (s : Session h o fuel)
      → Ordered s
      → Keeps h o fuel (timed_refresh_applications h o fuel root_only s) Ordered
  unfolding timed_refresh_applications Ordered
  timed_root-Ordered s r = annotate_root-Ordered s r

  log_wait-IsRootFirst :
      (names : List Text) (e : Option Error) (trace : List Event)
      → IsRootFirst trace
      → IsRootFirst (log_wait names e trace)
  log_wait-IsRootFirst names none trace r = r
  log_wait-IsRootFirst names (some e) trace r = r

  wait_root-Ordered :
      (s : Session h o fuel)
      → Ordered s
      → Keeps h o fuel (timed_wait_for_applications_observed h o fuel root_only s) Ordered
  unfolding timed_wait_for_applications_observed Ordered
  wait_root-Ordered s r =
      elim (Option-cases
        (wait_for_applications_observed h o fuel root_only s.result.commit s.world)) [
          | inl e ↦ rw (e, Keeps) tt
          | inr (((unsynced, failure), w), e) ↦
              rw (e, Keeps) (log_wait-IsRootFirst root_only failure s.trace r)
        ]

  log_root :
      (trace : List Event)
      → IsRootFirst trace
      → root_annotated trace ≡ true
      → IsReady (awaited root_only ∷ trace)
  unfolding contains
  log_root trace r a = (r, ground (arith, ==_self root_application_name, a))

  -- The order is kept, and the root application is annotated.
  Annotated : Session h o fuel → Type 0
  Annotated s = IsRootFirst s.trace × (root_annotated s.trace ≡ true)

  timed_root-Annotated :
      (s : Session h o fuel)
      → Ordered s
      → Yields h o fuel (timed_refresh_applications h o fuel root_only s) (λ _. Annotated)
  unfolding timed_refresh_applications annotate_all Ordered Annotated
  timed_root-Annotated s r = elim (Option-cases (h.annotate root_application_name s.world).0) [
    | inl e ↦ rw (e, Yields) (root_event-IsRootFirst none s.trace r, rw ==_self refl)
    | inr (f, e) ↦ rw (e, Yields) tt
  ]

  wait_root-Ready :
      (s : Session h o fuel)
      → Annotated s
      → Yields h o fuel (timed_wait_for_applications_observed h o fuel root_only s) (λ _. Ready)
  unfolding timed_wait_for_applications_observed Annotated Ready
  wait_root-Ready s r =
      elim (Option-cases
        (wait_for_applications_observed h o fuel root_only s.result.commit s.world)) [
          | inl e ↦ rw (e, Yields) tt
          | inr (((unsynced, none), w), e) ↦ rw (e, Yields) (log_root s.trace r.0 r.1)
          | inr (((unsynced, some f), w), e) ↦ rw (e, Yields) tt
        ]

  -- Before the root is awaited, nothing else is annotated.
  root-Ordered :
      (s : Session h o fuel)
      → Ordered s
      → Keeps h o fuel (refresh_and_wait h o fuel root_only s) Ordered
  unfolding refresh_and_wait Ordered
  root-Ordered s r =
      Keeps-bind h o fuel _ (timed_refresh_applications h o fuel root_only) s Ordered (λ _. Ordered)
        (timed_root-Ordered s r)
        (Yields_of_Keeps h o fuel (timed_refresh_applications h o fuel root_only s) Ordered
          (timed_root-Ordered s r))
        (λ _ s1 r1. wait_root-Ordered _ r1)

  root-Ready :
      (s : Session h o fuel)
      → Ordered s
      → Yields h o fuel (refresh_and_wait h o fuel root_only s) (λ _. Ready)
  unfolding refresh_and_wait Annotated
  root-Ready s r =
      Yields-bind h o fuel _ (timed_refresh_applications h o fuel root_only) s (λ _. Annotated)
        (λ _. Ready) (timed_root-Annotated s r) (λ _ s1 r1. wait_root-Ready _ r1)

  list-Ready :
      (s : Session h o fuel) → Ready s → Keeps h o fuel (list_applications h o fuel s) Ready
  unfolding list_applications Ready
  list-Ready s r = r

  plan-Ready :
      (apps : List Application) (changed : List Text) (s : Session h o fuel)
      → Ready s
      → Keeps h o fuel (make_plan h o fuel apps changed s) Ready
  unfolding make_plan Ready
  plan-Ready apps changed s r =
      elim (Option-cases (plan_affected_applications (h.tree s.world) fuel apps changed)) [
        | inl e ↦ rw (e, Keeps) tt
        | inr (outcome, e) ↦ rw (e, Keeps) r
      ]

  abbrev replan : Act h o fuel RefreshPlan
  replan = ◌>>=◌ h o fuel (list_applications h o fuel) λ apps.
      ◌>>=◌ h o fuel (changed_files h o fuel) λ changed.
        ◌>>=◌ h o fuel (make_plan h o fuel apps changed) λ plan.
          ◌>>=◌ h o fuel (update h o fuel (λ r. replace_plan_in_result r plan))
            λ _ s. some (ok plan, s)

  replan-Ready : (s : Session h o fuel) → Ready s → Keeps h o fuel (replan s) Ready
  unfolding Ready
  replan-Ready s r =
      Keeps-bind h o fuel _ (list_applications h o fuel) s Ready (λ _. Ready) (list-Ready s r)
        (Yields_of_Keeps h o fuel (list_applications h o fuel s) Ready (list-Ready s r))
        λ apps s1 r1.
          Keeps-bind h o fuel _ (make_plan h o fuel apps s1.result.changed_files) s1 Ready
            (λ _. Ready) (plan-Ready apps s1.result.changed_files s1 r1)
            (Yields_of_Keeps h o fuel (make_plan h o fuel apps s1.result.changed_files s1) Ready
              (plan-Ready apps s1.result.changed_files s1 r1))
            (λ plan s2 r2. r2)

  Ordered-of_Ready : (s : Session h o fuel) → Ready s → Ordered s
  unfolding Ready Ordered
  Ordered-of_Ready s r = r.0

  Keeps-Ordered :
      {A : Type 0} (r : Option (Outcome A × Session h o fuel))
      → Keeps h o fuel r Ready
      → Keeps h o fuel r Ordered
  Keeps-Ordered none k = tt
  Keeps-Ordered (some (outcome, s)) k = Ordered-of_Ready s k

  root_first-Ordered :
      (s : Session h o fuel) → Ordered s → Keeps h o fuel (refresh_root_first h o fuel s) Ordered
  unfolding refresh_root_first
  root_first-Ordered s r =
      Keeps-bind h o fuel (λ _. replan) (refresh_and_wait h o fuel root_only) s Ordered (λ _. Ready)
        (root-Ordered s r) (root-Ready s r)
        (λ _ s1 r1. Keeps-Ordered (replan s1) (replan-Ready s1 r1))

  root_first-Ready :
      (s : Session h o fuel)
      → Ordered s
      → Yields h o fuel (refresh_root_first h o fuel s) (λ _. Ready)
  unfolding refresh_root_first
  root_first-Ready s r =
      Yields-bind h o fuel (λ _. replan) (refresh_and_wait h o fuel root_only) s (λ _. Ready)
        (λ _. Ready) (root-Ready s r)
        (λ _ s1 r1. Yields_of_Keeps h o fuel (replan s1) Ready (replan-Ready s1 r1))

  children-Ready :
      (names : List Text) (s : Session h o fuel)
      → Ready s
      → Keeps h o fuel (refresh_children h o fuel names s) Ready
  unfolding refresh_children
  children-Ready names s r = some-Ready (without_string names root_application_name) s r

  -- In the mode "affected", with a plan that puts the root application first: whatever the machine
  -- answers and however the refresh ends, no application but the root is annotated before the root
  -- was annotated without an error and then its wait ended without an error.
  pub refresh_planned-IsRootFirst :
      (plan : RefreshPlan) (s : Session h o fuel)
      → plan.root_first ≡ true
      → s.trace ≡ []
      → Keeps h o fuel (refresh_planned h o fuel plan s) (λ s'. IsRootFirst s'.trace)
  unfolding refresh_planned Ordered
  refresh_planned-IsRootFirst plan s first start = rw first (
      Keeps-bind h o fuel (λ plan'. refresh_children h o fuel plan'.affected_applications)
        (refresh_root_first h o fuel) s Ordered (λ _. Ready) (root_first-Ordered s (rw start tt))
        (root_first-Ready s (rw start tt))
        (λ plan' s1 r1.
          Keeps-Ordered (refresh_children h o fuel plan'.affected_applications s1)
            (children-Ready plan'.affected_applications s1 r1)))

  add_affected-Ready :
      (names : List Text) (s : Session h o fuel)
      → Ready s
      → Keeps h o fuel (add_affected h o fuel names s) Ready
  unfolding Ready
  add_affected-Ready names s r = r

  then_children-Ready :
      (apps : List Application) (s : Session h o fuel)
      → Ready s
      → Keeps h o fuel
          (◌>>◌ h o fuel
            (add_affected h o fuel (stack_application_names_from_list apps))
            (refresh_children h o fuel (stack_application_names_from_list apps))
            s)
          Ready
  then_children-Ready apps s r =
      let names = stack_application_names_from_list apps in
      Keeps-bind h o fuel (λ _. refresh_children h o fuel names) (add_affected h o fuel names) s
        Ready (λ _. Ready) (add_affected-Ready names s r)
        (Yields_of_Keeps h o fuel (add_affected h o fuel names s) Ready
          (add_affected-Ready names s r))
        (λ _. children-Ready names)

  abbrev list_and_refresh : Act h o fuel (Unit {0})
  list_and_refresh = ◌>>=◌ h o fuel (list_applications h o fuel) λ apps.
      ◌>>◌ h o fuel (add_affected h o fuel (stack_application_names_from_list apps))
        (refresh_children h o fuel (stack_application_names_from_list apps))

  list_and_refresh-Ready :
      (s : Session h o fuel) → Ready s → Keeps h o fuel (list_and_refresh s) Ready
  list_and_refresh-Ready s r =
      Keeps-bind h o fuel _ (list_applications h o fuel) s Ready (λ _. Ready) (list-Ready s r)
        (Yields_of_Keeps h o fuel (list_applications h o fuel s) Ready (list-Ready s r))
        then_children-Ready

  root_and_children-Ordered :
      (s : Session h o fuel)
      → Ordered s
      → Keeps h o fuel (refresh_root_and_children h o fuel s) Ordered
  unfolding refresh_root_and_children
  root_and_children-Ordered s r =
      Keeps-bind h o fuel (λ _. list_and_refresh) (refresh_and_wait h o fuel root_only) s Ordered
        (λ _. Ready) (root-Ordered s r) (root-Ready s r)
        (λ _ s1 r1. Keeps-Ordered (list_and_refresh s1) (list_and_refresh-Ready s1 r1))

  -- In the mode "all", where the root application is among the listed ones: whatever the
  -- machine answers and however the refresh ends, no application but the root is annotated before
  -- the root was annotated without an error and then its wait ended without an error.
  pub refresh_listed-IsRootFirst :
      (names : List Text) (s : Session h o fuel)
      → contains names root_application_name ≡ true
      → s.trace ≡ []
      → Keeps h o fuel (refresh_listed h o fuel names s) (λ s'. IsRootFirst s'.trace)
  unfolding refresh_listed Ordered
  refresh_listed-IsRootFirst names s has start =
      rw (contains_string-eq, has) (root_and_children-Ordered s (rw start tt))
