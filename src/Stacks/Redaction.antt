-- ===== src/Stacks/Redaction.antt =====
-- Secrets are kept out of error messages and of telemetry: redactArgs of pkg/cmd/stacks/exec.go.
pub mod Laws
use idpbuilder.Base.{
  Bool, true, false, ℕ, List, [], ◌∷◌, ◌++◌, ◌&&◌, ◌||◌, not, Option, none, some, if◌then◌else◌,
  any, eqb,
}
use idpbuilder.Base.Text.{
  Text, ◌==◌, lit, trim_space, trim_left, trim_prefix, has_prefix, has_infix, cut, to_lower,
}
use idpbuilder.Base.Names.{contains}

abbrev pub sensitive_flags : List Text
sensitive_flags =
    lit "--password"
    ∷ lit "--passwd"
    ∷ lit "--token"
    ∷ lit "--secret"
    ∷ lit "--client-secret"
    ∷ lit "--api-key"
    ∷ lit "--gitea-password"
    ∷ []

unfoldable pub is_sensitive_flag : Text → Bool
is_sensitive_flag arg = contains sensitive_flags (to_lower (trim_space arg))

abbrev pub sensitive_words : List Text
sensitive_words =
    lit "password"
    ∷ lit "passwd"
    ∷ lit "token"
    ∷ lit "secret"
    ∷ lit "credential"
    ∷ lit "api-key"
    ∷ lit "apikey"
    ∷ []

unfoldable pub is_sensitive_key : Text → Bool
unfolding any
is_sensitive_key key =
    let lower = to_lower (trim_left (λ c. eqb c 45) key) in
    any (λ word. has_infix lower word) sensitive_words

abbrev pub literal_prefix : Text
literal_prefix = lit "--from-literal="

abbrev pub redacted : Text
redacted = lit "<redacted>"

-- A key of a secret, up to "=", followed by the mark in place of its value.
abbrev pub mask_value : (before : Text) → Text × Option Text → Option Text
mask_value before (key, none) = none
mask_value before (key, some value) =
    if not (is_sensitive_key key) then none else some (before ++ key ++ lit "=<redacted>")

unfoldable pub redact_from_literal : Text → Option Text
redact_from_literal arg =
    if not (has_prefix arg literal_prefix)
    then none
    else mask_value literal_prefix (cut 61 (trim_prefix arg literal_prefix))

unfoldable pub redact_key_value : Text → Option Text
redact_key_value arg = mask_value (lit "") (cut 61 arg)

-- What stands for an argument that is no flag of a secret and does not follow one.
unfoldable pub redact_arg : Text → Text
redact_arg arg = elim (redact_from_literal arg) [
  | some masked ↦ masked
  | none ↦ elim (redact_key_value arg) [
    | some masked ↦ masked
    | none ↦
        if has_infix arg (lit "://") && has_infix arg (lit "@") then lit "<redacted-url>" else arg
  ]
]

-- The loop over the arguments, with the variable `redactNext`.
unfoldable pub redact_from : (redact_next : Bool) → List Text → List Text
redact_from redact_next [] = []
redact_from true (arg ∷ args) = redacted ∷ redact_from false args
redact_from false (arg ∷ args) =
    (if is_sensitive_flag arg then arg else redact_arg arg)
    ∷ redact_from (is_sensitive_flag arg) args

unfoldable pub redact_args : List Text → List Text
unfolding redact_from
redact_args = redact_from false
