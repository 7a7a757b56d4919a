-- ===== src/Controllers/Localbuild.antt =====
-- The controller of a Localbuild: Reconcile, postProcessReconcile and ReconcileArgoAppsWithGitea of
-- pkg/controllers/localbuild/controller.go. The API server, the servers of Gitea and ArgoCD and the
-- installers are a parameter. Logging is left out.
pub mod Shutdowns
use idpbuilder.Base.{
  Bool, true, false, ℕ, zero, List, [], ◌∷◌, ◌++◌, ◌&&◌, not, Option, none, some, if◌then◌else◌,
  Outcome, ok, err, Error, message, wrapped,
}
use idpbuilder.Base.Text.{Text, ◌==◌, lit}
use idpbuilder.Controllers.Packages.{
  Localbuild, from_last, Cluster, reconcile_custom_pkg_dir, reconcile_custom_pkg_file,
}
use idpbuilder.Controllers.Shutdown.{Listing, should_shut_down}

-- What the API server answers to a Get.
pub data Fetched (A : Type 0) : Type 0 where
  fetched : A → Fetched A
  not_found : Fetched A
  failed : Error → Fetched A

-- What a reconcile answers to controller-runtime, times in seconds.
pub data Requeue : Type 0 where
  no_requeue : Requeue
  requeue_after : (seconds : ℕ) → Requeue

abbrev pub default_requeue_time : ℕ
default_requeue_time = 15

abbrev pub err_requeue_time : ℕ
err_requeue_time = 5

-- The fields of a LocalbuildReconciler that change, and whether its CancelFunc was called.
pub record Reconciler : Type 0 where
  pub should_shutdown : Bool
  pub cancelled : Bool

-- What is configured: the packages of the spec and the options.
pub record Configuration : Type 0 where
  pub exit_on_sync : Bool
  pub use_static_password : Bool
  pub static_password : Text
  pub custom_package_dirs : List Text
  pub custom_package_files : List Text
  pub custom_package_urls : List Text

pub record Machine (c : Cluster) : Type 0 where
  pub get_localbuild : c.World → Fetched Localbuild × c.World
  -- controllerutil.CreateOrUpdate of the namespace.
  pub ensure_namespace : c.World → Option Error × c.World
  -- The installers of the core packages, with the failures in the order in which they come in.
  pub install : c.World → List Error × c.World
  -- Whether the context is done when the answer of the installers is awaited.
  pub is_done : c.World → Bool
  pub argocd_secret : c.World → Fetched Text × c.World
  pub gitea_secret : c.World → Fetched Text × c.World
  pub update_argocd_password : Text → c.World → Option Error × c.World
  pub update_gitea_password : Text → c.World → Option Error × c.World
  pub reconcile_embedded_app : Text → c.World → Option Error × c.World
  pub reconcile_custom_pkg_url : Text → ℕ → c.World → Outcome (Unit {0}) × c.World
  pub listing : c.World → Listing
  pub request_app_refresh : c.World → Option Error × c.World
  pub request_app_set_refresh : c.World → Option Error × c.World
  -- The status, with the generation that was observed; an error is logged.
  pub update_status : Localbuild → c.World → c.World

module _ (c : Cluster) (m : Machine c) (o : Configuration) where
  open c use {World}

  -- What a reconcile returns, and what it leaves.
  pub record Step : Type 0 where
    pub requeue : Requeue
    pub failure : Option Error
    pub reconciler : Reconciler
    pub world : World

  abbrev pub stop : Requeue → Option Error → Reconciler → World → Step
  stop requeue failure r w = record {
    requeue = requeue;
    failure = failure;
    reconciler = r;
    world = w;
  }

  abbrev pub core_packages : List Text
  core_packages = lit "argocd" ∷ lit "nginx" ∷ lit "gitea" ∷ []

  abbrev pub embedded_answer : Option Error × World → Outcome (Unit {0}) × World
  embedded_answer (none, w) = (ok tt, w)
  embedded_answer (some e, w) = (err (wrapped (lit "reconciling bootstrap apps ") e), w)

  abbrev pub then_do :
      Outcome (Unit {0}) × World → (World → Outcome (Unit {0}) × World) → Outcome (Unit {0}) × World
  then_do (err e, w) next = (err e, w)
  then_do (ok _, w) next = next w

  unfoldable pub embed : List Text → World → Outcome (Unit {0}) × World
  embed [] w = (ok tt, w)
  embed (name ∷ names) w = then_do (embedded_answer (m.reconcile_embedded_app name w)) (embed names)

  -- The loops of `ReconcileArgoAppsWithGitea`.
  unfoldable pub place_packages : Localbuild → World → Outcome (Unit {0}) × World
  unfolding embed
  place_packages resource w = then_do (embed core_packages w) λ w1.
      then_do
        (from_last c resource (reconcile_custom_pkg_dir c resource) zero o.custom_package_dirs w1)
        λ w2.
          then_do
            (from_last c resource (reconcile_custom_pkg_file c resource) zero o.custom_package_files
              w2)
            (from_last c resource m.reconcile_custom_pkg_url zero o.custom_package_urls)

  abbrev pub decide : Outcome Bool → Reconciler → World → Option Error × Reconciler × World
  decide (err e) r w = (some e, r, w)
  decide (ok shutdown) r w =
      (none, record { should_shutdown = shutdown; cancelled = r.cancelled }, w)

  abbrev pub after_packages :
      Localbuild → Reconciler → Outcome (Unit {0}) × World → Option Error × Reconciler × World
  after_packages resource r (err e, w) = (some e, r, w)
  after_packages resource r (ok _, w) =
      decide (should_shut_down o.exit_on_sync resource.annotations (m.listing w)) r w

  unfoldable pub reconcile_argo_apps_with_gitea :
      Localbuild → Reconciler → World → Option Error × Reconciler × World
  unfolding place_packages
  reconcile_argo_apps_with_gitea resource r w =
      after_packages resource r (place_packages resource w)

  abbrev pub after_apps : Option Error × Reconciler × World → Step
  after_apps (some e, r, w) = stop no_requeue (some e) r w
  after_apps (none, r, w) = stop (requeue_after default_requeue_time) none r w

  -- The password of a secret, where it is known: of an error but that it is not found, none is read,
  -- and the password is empty.
  abbrev pub extract : Fetched Text → Option Text
  extract (fetched password) = some password
  extract not_found = none
  extract (failed e) = some (lit "")

  -- A password that is to be the static one, and what is done once it is.
  abbrev pub updated : Option Error × World → Reconciler → (World → Step) → Step
  updated (some e, w) r next = stop no_requeue (some e) r w
  updated (none, w) r next = next w

  abbrev pub change_password :
      (update : Text → World → Option Error × World)
      → Option Text
      → Reconciler
      → World
      → (World → Step)
      → Step
  change_password update none r w next = stop (requeue_after default_requeue_time) none r w
  change_password update (some password) r w next =
      if not (password == lit "") && not (password == o.static_password)
      then updated (update password w) r next
      else next w

  abbrev pub change_gitea : Reconciler → Fetched Text × World → (World → Step) → Step
  change_gitea r (gitea, w) next = change_password m.update_gitea_password (extract gitea) r w next

  abbrev pub change_both : Reconciler → Fetched Text × World → (World → Step) → Step
  change_both r (argocd, w) next =
      change_password m.update_argocd_password (extract argocd) r w
        (λ w'. change_gitea r (m.gitea_secret w') next)

  unfoldable pub change_passwords : Reconciler → World → (World → Step) → Step
  change_passwords r w next =
      if o.use_static_password then change_both r (m.argocd_secret w) next else next w

  unfoldable pub installed : Localbuild → Reconciler → World → Step
  unfolding reconcile_argo_apps_with_gitea change_passwords
  installed resource r w =
      change_passwords r w (λ w'. after_apps (reconcile_argo_apps_with_gitea resource r w'))

  abbrev pub after_install : Localbuild → Reconciler → List Error × World → Step
  after_install resource r (failures, w) =
      if m.is_done w then stop no_requeue none r w else elim failures [
        | e ∷ later ↦ stop (requeue_after err_requeue_time) none r w
        | [] ↦ installed resource r w
      ]

  abbrev pub after_namespace : Localbuild → Reconciler → Option Error × World → Step
  after_namespace resource r (some e, w) = stop no_requeue (some e) r w
  after_namespace resource r (none, w) = after_install resource r (m.install w)

  -- What is deferred: the refreshes, whose errors are logged, and the end of the run.
  unfoldable pub post_process_reconcile : Localbuild → Step → Step
  post_process_reconcile resource s =
      if s.reconciler.should_shutdown
      then stop s.requeue s.failure
          (record { should_shutdown = s.reconciler.should_shutdown; cancelled = true })
          (m.request_app_set_refresh (m.request_app_refresh s.world).1).1
      else stop s.requeue s.failure s.reconciler (m.update_status resource s.world)

  abbrev pub after_get : Reconciler → Fetched Localbuild × World → Step
  after_get r (not_found, w) = stop no_requeue none r w
  after_get r (failed e, w) = stop no_requeue (some e) r w
  after_get r (fetched resource, w) =
      post_process_reconcile resource (after_namespace resource r (m.ensure_namespace w))

  unfoldable pub reconcile : Reconciler → World → Step
  unfolding installed post_process_reconcile
  reconcile r w = after_get r (m.get_localbuild w)
