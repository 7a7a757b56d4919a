-- ===== src/Stacks/Redaction/Laws.antt =====
-- The redacted arguments do not depend on the secrets.
use idpbuilder.Base.{
  ◌≡◌, refl, sym, ◌∙◌, ap, Bool, true, false, List, [], ◌∷◌, ◌++◌, some, arith, if◌then◌else◌, All,
  subst, Bool-cases, inl, inr,
}
use idpbuilder.Base.Text.{
  Text, ◌==◌, ==_iff, lit, cut, has_prefix, trim_prefix, has_byte, has_byte-append,
  has_byte-trim_space, has_byte-to_lower_eq, trim_space, to_lower,
}
use idpbuilder.Base.Names.{contains}
use idpbuilder.Stacks.Redaction.{
  is_sensitive_flag, is_sensitive_key, redact_from_literal, redact_key_value, redact_arg,
  redact_from, redact_args, redacted, literal_prefix, sensitive_flags,
}

cut-append :
    (key value : Text) → has_byte 61 key ≡ false → cut 61 (key ++ (61 ∷ value)) ≡ (key, some value)
unfolding cut
cut-append [] value h = refl
cut-append (c ∷ key) value h = ground (arith, cut-append key value)

flag_without_eq :
    (flags : List Text) (t : Text)
    → All (λ flag. has_byte 61 flag ≡ false) flags
    → contains flags t ≡ true
    → has_byte 61 t ≡ false
unfolding contains
flag_without_eq [] t a h = cc
flag_without_eq (flag ∷ flags) t a h = elim (Bool-cases (t == flag)) [
  | inl e ↦ subst (λ x. has_byte 61 x ≡ false) (sym ((==_iff t flag).0 e)) a.0
  | inr e ↦ flag_without_eq flags t a.1 (ground arith)
]

flags_without_eq : All (λ flag. has_byte 61 flag ≡ false) sensitive_flags
flags_without_eq = (refl, (refl, (refl, (refl, (refl, (refl, (refl, tt)))))))

-- An argument with an "=" is no flag of a secret.
not-is_sensitive_flag : (arg : Text) → has_byte 61 arg ≡ true → is_sensitive_flag arg ≡ false
unfolding is_sensitive_flag
not-is_sensitive_flag arg h =
    let shown = has_byte-to_lower_eq (trim_space arg) (has_byte-trim_space 61 arg refl h) in
    ground
      (arith, shown, flag_without_eq sensitive_flags (to_lower (trim_space arg)) flags_without_eq)

has_eq : (key value : Text) → has_byte 61 (key ++ (61 ∷ value)) ≡ true
has_eq key value = ground (arith, has_byte-append 61 key (61 ∷ value))

-- `key=value` with the key of a secret, where the key holds no "=".
abbrev pub IsSecret : Text → Type 0
IsSecret key = (has_byte 61 key ≡ false) × (is_sensitive_key key ≡ true)

-- Two arguments that differ in nothing, or in the value of a secret alone: plain, or behind
-- "--from-literal=".
pub data Alike : Text → Text → Type 0 where
  same : (arg : Text) → Alike arg arg
  valued :
      (key v w : Text)
      → IsSecret key
      → has_prefix (key ++ (61 ∷ v)) literal_prefix ≡ false
      → has_prefix (key ++ (61 ∷ w)) literal_prefix ≡ false
      → Alike (key ++ (61 ∷ v)) (key ++ (61 ∷ w))
  literal :
      (key v w : Text)
      → IsSecret key
      → Alike (literal_prefix ++ (key ++ (61 ∷ v))) (literal_prefix ++ (key ++ (61 ∷ w)))

-- Two lists of arguments that agree in all but secrets. After a flag of a secret the next argument
-- is a secret, and may be anything.
pub data AlikeFrom : Bool → List Text → List Text → Type 0 where
  none_left : (next : Bool) → AlikeFrom next [] []
  after_flag :
      (a b : Text) (xs ys : List Text) → AlikeFrom false xs ys → AlikeFrom true (a ∷ xs) (b ∷ ys)
  plain :
      (a b : Text) (xs ys : List Text)
      → Alike a b
      → AlikeFrom (is_sensitive_flag a) xs ys
      → AlikeFrom false (a ∷ xs) (b ∷ ys)

redact_arg-valued :
    (key value : Text)
    → IsSecret key
    → has_prefix (key ++ (61 ∷ value)) literal_prefix ≡ false
    → redact_arg (key ++ (61 ∷ value)) ≡ key ++ lit "=<redacted>"
unfolding redact_arg redact_from_literal redact_key_value
redact_arg-valued key value (no_eq, secret) p =
    ground (arith, p, cut-append key value no_eq, secret)

redact_arg-literal :
    (key value : Text)
    → IsSecret key
    → redact_arg (literal_prefix ++ (key ++ (61 ∷ value)))
      ≡ literal_prefix ++ (key ++ lit "=<redacted>")
unfolding redact_arg redact_from_literal has_prefix trim_prefix
redact_arg-literal key value (no_eq, secret) = ground (arith, cut-append key value no_eq, secret)

redact_arg-Alike : {a b : Text} → Alike a b → redact_arg a ≡ redact_arg b
redact_arg-Alike (same arg) = refl
redact_arg-Alike (valued key v w s p q) =
    redact_arg-valued key v s p ∙ sym (redact_arg-valued key w s q)
redact_arg-Alike (literal key v w s) = redact_arg-literal key v s ∙ sym (redact_arg-literal key w s)

shown : Text → Text
shown arg = if is_sensitive_flag arg then arg else redact_arg arg

abbrev Same : Text → Text → Type 0
Same a b = (shown a ≡ shown b) × (is_sensitive_flag a ≡ is_sensitive_flag b)

eq_literal : (key value : Text) → has_byte 61 (literal_prefix ++ (key ++ (61 ∷ value))) ≡ true
eq_literal key value =
    ground (arith, has_byte-append 61 literal_prefix (key ++ (61 ∷ value)), has_eq key value)

no_flags : (a b : Text) → Alike a b → has_byte 61 a ≡ true → has_byte 61 b ≡ true → Same a b
unfolding shown
no_flags a b r p q =
    ground (arith, not-is_sensitive_flag a p, not-is_sensitive_flag b q, redact_arg-Alike r)

Alike-Same : {a b : Text} → Alike a b → Same a b
Alike-Same (same arg) = (refl, refl)
Alike-Same (valued key v w s p q) =
    no_flags _ _ (valued key v w s p q) (has_eq key v) (has_eq key w)
Alike-Same (literal key v w s) =
    no_flags _ _ (literal key v w s) (eq_literal key v) (eq_literal key w)

redact_from-AlikeFrom :
    {next : Bool} {xs ys : List Text}
    → AlikeFrom next xs ys
    → redact_from next xs ≡ redact_from next ys
unfolding redact_from shown
redact_from-AlikeFrom (none_left true) = refl
redact_from-AlikeFrom (none_left false) = refl
redact_from-AlikeFrom (after_flag a b xs ys r) = ap (◌∷◌ redacted) (redact_from-AlikeFrom r)
redact_from-AlikeFrom (plain a b xs ys alike r) =
    let (text, flag) = Alike-Same alike in
    let rest = redact_from-AlikeFrom r in cc (text, flag, rest)

-- The arguments as they are shown do not depend on the secrets: two lists of arguments that agree
-- but for what follows a flag of a secret, and for the values in `key=value` and
-- `--from-literal=key=value` with the key of a secret, are redacted to the same list.
pub redact_args-AlikeFrom :
    (xs ys : List Text) → AlikeFrom false xs ys → redact_args xs ≡ redact_args ys
unfolding redact_args
redact_args-AlikeFrom xs ys r = redact_from-AlikeFrom r
