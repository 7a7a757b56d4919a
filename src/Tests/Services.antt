-- ===== src/Tests/Services.antt =====
-- The theorems on Gitea and on the container engines at small machines.
use idpbuilder.Base.{
  ◌≡◌, ◌≢◌, refl, ◌⊎◌, Bool, true, false, [], Option, none, Outcome, ok, Error, any, not, ◌↔◌,
}
use idpbuilder.Base.Text.{Text, lit, has_infix, to_lower, trim_space, ◌==◌}
use idpbuilder.Stacks.Gitea.{Api, replied}
use idpbuilder.Stacks.Engine.{
  EngineOptions, auto, podman, resolve_container_engine, preflight_talos_container_engine,
}
use idpbuilder.Stacks.Engine.Laws.{
  resolve_container_engine-IsChosen, IsChosen, preflight_talos_container_engine-IsRootful,
  IsRootful,
}
use idpbuilder.Stacks.Webhook.{WebhookStatus, webhook_url}
use idpbuilder.Stacks.Status.{hot_loop_readiness_verdict, unhealthy_stack_applications}
use idpbuilder.Stacks.Status.Laws.{hot_loop_readiness_verdict-ready, is_well}

-- Gitea has no repository until one is posted.
abbrev empty_gitea : Api
empty_gitea = record {
  World = Bool;
  get_repository = λ made. (elim made [ true ↦ replied 200 [] | false ↦ replied 404 [] ], made);
  post_repository = λ made. (replied 201 [], true);
  wait = λ seconds made. (none, made);
}

-- Podman alone is on the PATH.
abbrev only_podman : EngineOptions
only_podman = record {
  container_engine = auto;
  seed_image_push_engine = auto;
  cluster_name = lit "dev";
  talos_workers = 1;
  command_available = λ command. command == podman;
}

chosen_podman : resolve_container_engine only_podman ≡ ok podman
unfolding resolve_container_engine ◌==◌
chosen_podman = refl

resolve_container_engine-IsChosen_example : IsChosen only_podman podman
resolve_container_engine-IsChosen_example =
    resolve_container_engine-IsChosen only_podman podman chosen_podman

abbrev socket : Text
socket = lit "unix:///run/podman/podman.sock"

abbrev says_rootful : Text → Outcome Text
says_rootful host = ok (lit "false")

passed : preflight_talos_container_engine only_podman socket says_rootful ≡ ok tt
unfolding preflight_talos_container_engine ◌==◌ trim_space has_infix to_lower
passed = refl

preflight_talos_container_engine-IsRootful_example :
    (engine : Text) × (resolve_container_engine only_podman ≡ ok engine)
    × ((engine ≢ podman) ⊎ IsRootful socket says_rootful)
preflight_talos_container_engine-IsRootful_example =
    preflight_talos_container_engine-IsRootful only_podman socket says_rootful tt passed

abbrev ready_hook : WebhookStatus
ready_hook = record { id = 1; url = webhook_url; ready = true; exists = true; text = lit "" }

hot_loop_readiness_verdict-ready_example :
    (hot_loop_readiness_verdict
        (lit "abc")
        (lit "abc")
        ready_hook
        true
        none
        (unhealthy_stack_applications [])
      ≡ lit "Hot loop ready")
    ↔ ((lit "abc" ≢ lit "")
        × (lit "abc" ≢ lit "")
        × (true ≡ true)
        × (◌≡◌ {A = Option Error} none none)
        × (true ≡ true)
        × (any (λ app. not (is_well app)) [] ≡ false))
hot_loop_readiness_verdict-ready_example =
    hot_loop_readiness_verdict-ready (lit "abc") (lit "abc") ready_hook true none []
