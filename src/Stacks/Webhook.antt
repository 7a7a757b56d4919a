-- ===== src/Stacks/Webhook.antt =====
-- The system webhook by which Gitea tells ArgoCD of a push: ensureGiteaArgoCDWebhook of sync.go.
pub mod Laws
use idpbuilder.Base.{
  Bool, true, false, ℕ, List, [], ◌∷◌, ◌++◌, not, Option, none, some, if◌then◌else◌, Outcome, ok,
  err, Error, message,
}
use idpbuilder.Base.Text.{Text, ◌==◌, lit}

abbrev pub webhook_url : Text
webhook_url = lit "http://argocd-server.argocd.svc.cluster.local/api/webhook"

-- `url` is the value under the key "url" of the map config, empty where the key is missing. Of
-- the other fields of a hook nothing is read.
pub record GiteaHook : Type 0 where
  pub id : ℕ
  pub active : Bool
  pub events : List Text
  pub url : Text

pub record WebhookStatus : Type 0 where
  pub id : ℕ
  pub url : Text
  pub ready : Bool
  pub exists : Bool
  pub text : Text

unfoldable pub hook_has_event : List Text → Text → Bool
hook_has_event [] event = false
hook_has_event (candidate ∷ events) event =
    let rest = hook_has_event events event in if candidate == event then true else rest

-- The status of a hook that targets the URL of ArgoCD.
unfoldable pub targeting_status : GiteaHook → WebhookStatus
targeting_status hook =
    if not hook.active
    then record {
      id = hook.id;
      url = webhook_url;
      ready = false;
      exists = true;
      text = lit "is inactive";
    }
    else if not (hook_has_event hook.events (lit "push"))
    then record {
      id = hook.id;
      url = webhook_url;
      ready = false;
      exists = true;
      text = lit "is missing push events";
    }
    else record {
      id = hook.id;
      url = webhook_url;
      ready = true;
      exists = true;
      text = lit "active for push events";
    }

unfoldable pub classify_webhook : List GiteaHook → WebhookStatus
unfolding targeting_status
classify_webhook [] = record {
  id = 0;
  url = webhook_url;
  ready = false;
  exists = false;
  text = lit "missing";
}
classify_webhook (hook ∷ hooks) =
    let rest = classify_webhook hooks in
    if not (hook.url == webhook_url) then rest else targeting_status hook

-- What `ensureGiteaArgoCDWebhook` does with the answer to its request for the hooks.
pub data WebhookAction : Type 0 where
  keep_webhook : WebhookAction
  create_webhook : Text → WebhookAction
  unusable_webhook : (id : ℕ) (url text : Text) → WebhookAction
  fail_webhook : Error → WebhookAction

unfoldable pub ensure_webhook : Outcome (List GiteaHook) → WebhookAction
unfolding classify_webhook
ensure_webhook (err e) = fail_webhook e
ensure_webhook (ok hooks) =
    let status = classify_webhook hooks in
    if status.ready
    then keep_webhook
    else if status.exists
    then unusable_webhook status.id status.url status.text
    else create_webhook webhook_url
