-- ===== src/Tests/Guards.antt =====
-- The theorems on the webhook and on the redacted arguments at small inputs.
use idpbuilder.Base.{◌≡◌, refl, true, false, List, [], ◌∷◌, ◌++◌}
use idpbuilder.Base.Text.{Text, lit, has_infix, to_lower, trim_left, ◌==◌, trim_space}
use idpbuilder.Base.Names.{contains}
use idpbuilder.Stacks.Webhook.{GiteaHook, webhook_url}
use idpbuilder.Stacks.Redaction.{redact_args, is_sensitive_flag, is_sensitive_key}
use idpbuilder.Stacks.Redaction.Laws.{redact_args-AlikeFrom, AlikeFrom, Alike}

abbrev idle_hook : GiteaHook
idle_hook = record { id = 4; active = false; events = lit "push" ∷ []; url = webhook_url }

abbrev foreign_hook : GiteaHook
foreign_hook = record {
  id = 7;
  active = true;
  events = lit "push" ∷ [];
  url = lit "http://ci.example/hook";
}

abbrev listed_hooks : List GiteaHook
listed_hooks = foreign_hook ∷ idle_hook ∷ []

abbrev command : Text → Text → List Text
command token password =
    lit "create" ∷ lit "--token" ∷ token ∷ (lit "password" ++ (61 ∷ password)) ∷ []

abbrev first_command : List Text
first_command = command (lit "s3cr3t") (lit "hunter2")

abbrev second_command : List Text
second_command = command (lit "x") (lit "")

commands-AlikeFrom : AlikeFrom false first_command second_command
unfolding is_sensitive_flag is_sensitive_key has_infix to_lower trim_left contains ◌==◌ trim_space
commands-AlikeFrom = AlikeFrom.plain _ _ _ _ (Alike.same (lit "create")) (
    AlikeFrom.plain _ _ _ _ (Alike.same (lit "--token")) (
      AlikeFrom.after_flag _ _ _ _ (
        AlikeFrom.plain _ _ _ _
          (Alike.valued (lit "password") (lit "hunter2") (lit "") (refl, refl) refl refl)
          (AlikeFrom.none_left false))))

redact_args-AlikeFrom_example : redact_args first_command ≡ redact_args second_command
redact_args-AlikeFrom_example =
    redact_args-AlikeFrom first_command second_command commands-AlikeFrom
