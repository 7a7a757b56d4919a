-- ===== src/Controllers/Localbuild/Shutdowns.antt =====
-- A run of the controller ends only in a step in which the build is done.
use idpbuilder.Base.{◌≡◌, true, false, List, [], ◌⊎◌, Option, none, ok, Error}
use idpbuilder.Base.Text.{Text}
use idpbuilder.Controllers.Packages.{Localbuild, Cluster}
use idpbuilder.Controllers.Shutdown.Laws.{IsDone}
use idpbuilder.Controllers.Localbuild.{
  fetched, Reconciler, Configuration, Machine, Step, place_packages, reconcile,
}

abbrev pub idle : Reconciler
idle = record { should_shutdown = false; cancelled = false }

module _ (c : Cluster) (m : Machine c) (o : Configuration) where
  open c use {World}

  abbrev pub IsFresh : Reconciler → Type 0
  IsFresh r = (r.should_shutdown ≡ false) × (r.cancelled ≡ false)

  -- The packages of the resource were placed without an error, and in the world which that left all
  -- that the API server lists is ready, for the annotations of the resource.
  abbrev pub IsReady : Localbuild → World → Type 0
  IsReady resource placed =
      (w : World) × (place_packages c m o resource w ≡ (ok tt, placed))
      × IsDone o.exit_on_sync resource.annotations (m.listing placed)

  -- A step from the world finds the resource, makes its namespace and installs the core packages,
  -- with no failure, and has the packages ready; then it requests the refreshes and ends.
  abbrev pub IsEnding : World → Step c m o → Type 0
  IsEnding w s =
      (resource : Localbuild) × (placed : World) × ((m.get_localbuild w).0 ≡ fetched resource)
      × ((m.ensure_namespace (m.get_localbuild w).1).0 ≡ none)
      × ((m.install (m.ensure_namespace (m.get_localbuild w).1).1).0 ≡ [])
      × IsReady resource placed
      × (s.world ≡ (m.request_app_set_refresh (m.request_app_refresh placed).1).1)

  abbrev IsJustified : Localbuild → Reconciler → World → Type 0
  IsJustified resource r w = IsFresh r ⊎ ((r.should_shutdown ≡ true) × IsReady resource w)

  module _ (resource : Localbuild) where
    abbrev IsGood : Step c m o → Type 0
    IsGood s = IsJustified resource s.reconciler s.world

    -- The step was not stopped before the packages were placed, or it changed nothing.
    abbrev IsInstalled : List Error → Step c m o → Type 0
    IsInstalled failures s =
        IsFresh s.reconciler
        ⊎ ((failures ≡ []) × (s.reconciler.should_shutdown ≡ true) × IsReady resource s.world)

    abbrev IsMade : Option Error × World → Step c m o → Type 0
    IsMade a s =
        IsFresh s.reconciler
        ⊎ ((a.0 ≡ none)
            × ((m.install a.1).0 ≡ [])
            × (s.reconciler.should_shutdown ≡ true)
            × IsReady resource s.world)

  -- The reconcilers that a run reaches from a fresh one, whatever the world is at each step.
  pub data Reached : Reconciler → Type 0 where
    started : Reached idle
    reconciled :
        {r : Reconciler} → Reached r → (w : World) → Reached (reconcile c m o r w).reconciler

  -- A step of the run, that is its last one or an earlier one, is an ending one.
  pub data HasEnded : (r : Reconciler) → Reached r → Type 0 where
    now :
        {r : Reconciler} {run : Reached r} (w : World)
        → IsEnding w (reconcile c m o r w)
        → HasEnded (reconcile c m o r w).reconciler (reconciled run w)
    earlier :
        {r : Reconciler} {run : Reached r} (w : World)
        → HasEnded r run
        → HasEnded (reconcile c m o r w).reconciler (reconciled run w)
