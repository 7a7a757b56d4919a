-- ===== src/Stacks/Webhook/Laws.antt =====
-- When the webhook is kept, created or refused.
use idpbuilder.Base.{◌≡◌, Bool, true, false, List, ◌∷◌, ◌++◌, ◌&&◌, any}
use idpbuilder.Base.Text.{◌==◌, lit}
use idpbuilder.Stacks.Webhook.{GiteaHook, webhook_url, hook_has_event}

abbrev pub targets : GiteaHook → Bool
targets hook = hook.url == webhook_url

abbrev pub is_working : GiteaHook → Bool
is_working hook = hook.active && hook_has_event hook.events (lit "push")

-- The hook is the first of the list that targets ArgoCD.
abbrev pub IsFirstTargeting : List GiteaHook → GiteaHook → Type 0
IsFirstTargeting hooks hook =
    (before : List GiteaHook) × (after : List GiteaHook) × (hooks ≡ before ++ (hook ∷ after))
    × (any targets before ≡ false)
    × (targets hook ≡ true)
