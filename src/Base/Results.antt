-- ===== src/Base/Results.antt =====
-- Go's pair of a value and an error, and functions that may fail.
use mathlib.Core.Path.{◌≡◌, refl}
use mathlib.Core.Logic.{◌⊎◌, inl, inr}
use Prim.Native.Nat.{ℕ}
use mathlib.Core.List.{List}

-- An error is a text, a wrapped error (`fmt.Errorf("...: %w", err)`), two errors joined, or the
-- error type of the sync that a newer commit overtakes.
pub data Error : Type 0 where
  message : List ℕ → Error
  wrapped : List ℕ → Error → Error
  joined : Error → Error → Error
  superseded : (target superseded_by detail : List ℕ) → Error

-- `(value, error)`, of which a caller reads the value only where the error is nil.
pub data Outcome {ℓ} (A : Type ℓ) : Type ℓ where
  ok : (value : A) → Outcome A
  err : (failure : Error) → Outcome A

-- `if err != nil { return fmt.Errorf("...: %w", err) }`
abbrev pub or_wrap {ℓ} : {A : Type ℓ} → List ℕ → Outcome A → Outcome A
or_wrap t (err e) = err (wrapped t e)
or_wrap t (ok a) = ok a

-- `if err != nil { return err }` after a call, and then the rest of the function.
infixl 5 ◌>>=◌
abbrev pub ◌>>=◌ {ℓ κ} : {A : Type ℓ} {B : Type κ} → Outcome A → (A → Outcome B) → Outcome B
err failure >>= rest = err failure
ok value >>= rest = rest value

pub Outcome-cases {ℓ} :
    {A : Type ℓ} (o : Outcome A) → ((a : A) × (o ≡ ok a)) ⊎ ((e : Error) × (o ≡ err e))
Outcome-cases (ok a) = inl (a, refl)
Outcome-cases (err e) = inr (e, refl)

pub ok-injective {ℓ} : {A : Type ℓ} (a b : A) → ok a ≡ ok b → a ≡ b
ok-injective a b e = cc

-- A chain that ends well: the value in between, and what made it.
pub bind-ok {ℓ κ} :
    {A : Type ℓ} {B : Type κ} (first : Outcome A) (then_do : A → Outcome B) (last : B)
    → (first >>= then_do) ≡ ok last
    → (between : A) × (first ≡ ok between) × (then_do between ≡ ok last)
bind-ok (ok between) then_do last e = (between, refl, e)
bind-ok (err failure) then_do last e = cc
