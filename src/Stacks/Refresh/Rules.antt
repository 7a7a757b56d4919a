-- ===== src/Stacks/Refresh/Rules.antt =====
-- Rules for the steps of the refresh: what holds of the session after a step.
use idpbuilder.Base.{◌≡◌, sym, subst, arith, ℕ, Option, none, some, Outcome, ok, err}
use idpbuilder.Stacks.Host.{Host, Options}
use idpbuilder.Stacks.Refresh.{Session, Act, ◌>>=◌}

module _ (h : Host) (o : Options) (fuel : ℕ) where
  -- A property of the session after a step, whether it ends with an error or without.
  abbrev pub Keeps :
      {A : Type 0} → Option (Outcome A × Session h o fuel) → (Session h o fuel → Type 0) → Type 0
  Keeps none P = Unit
  Keeps (some (outcome, s)) P = P s

  -- A property of the value and of the session after a step without an error.
  abbrev pub Yields :
      {A : Type 0}
      → Option (Outcome A × Session h o fuel)
      → (A → Session h o fuel → Type 0)
      → Type 0
  Yields none P = Unit
  Yields (some (err e, s)) P = Unit
  Yields (some (ok a, s)) P = P a s

  pub Yields_of_Keeps :
      {A : Type 0} (r : Option (Outcome A × Session h o fuel)) (P : Session h o fuel → Type 0)
      → Keeps r P
      → Yields r (λ _. P)
  Yields_of_Keeps none P k = tt
  Yields_of_Keeps (some (ok a, s)) P k = k
  Yields_of_Keeps (some (err e, s)) P k = tt

  bind_run :
      {A B : Type 0}
      → Option (Outcome A × Session h o fuel)
      → (A → Act h o fuel B)
      → Option (Outcome B × Session h o fuel)
  bind_run none f = none
  bind_run (some (ok a, s)) f = f a s
  bind_run (some (err e, s)) f = some (err e, s)

  module _ {A B : Type 0} (f : A → Act h o fuel B) where
    Keeps-run :
        (r : Option (Outcome A × Session h o fuel)) (P : Session h o fuel → Type 0)
        (Q : A → Session h o fuel → Type 0)
        → Keeps r P
        → Yields r Q
        → ((a : A) (s : Session h o fuel) → Q a s → Keeps (f a s) P)
        → Keeps (bind_run r f) P
    unfolding bind_run
    Keeps-run none P Q k y g = tt
    Keeps-run (some (ok a, s)) P Q k y g = g a s y
    Keeps-run (some (err e, s)) P Q k y g = k

    Yields-run :
        (r : Option (Outcome A × Session h o fuel)) (Q : A → Session h o fuel → Type 0)
        (R : B → Session h o fuel → Type 0)
        → Yields r Q
        → ((a : A) (s : Session h o fuel) → Q a s → Yields (f a s) R)
        → Yields (bind_run r f) R
    unfolding bind_run
    Yields-run none Q R y g = tt
    Yields-run (some (ok a, s)) Q R y g = g a s y
    Yields-run (some (err e, s)) Q R y g = tt

    bind-eq-run :
        (m : Act h o fuel A) (s : Session h o fuel) → (◌>>=◌ h o fuel m f) s ≡ bind_run (m s) f
    unfolding bind_run
    bind-eq-run m s = ground arith

    pub Keeps-bind :
        (m : Act h o fuel A) (s : Session h o fuel) (P : Session h o fuel → Type 0)
        (Q : A → Session h o fuel → Type 0)
        → Keeps (m s) P
        → Yields (m s) Q
        → ((a : A) (s' : Session h o fuel) → Q a s' → Keeps (f a s') P)
        → Keeps ((◌>>=◌ h o fuel m f) s) P
    Keeps-bind m s P Q k y g =
        subst (λ r. Keeps r P) (sym (bind-eq-run m s)) (Keeps-run (m s) P Q k y g)

    pub Yields-bind :
        (m : Act h o fuel A) (s : Session h o fuel) (Q : A → Session h o fuel → Type 0)
        (R : B → Session h o fuel → Type 0)
        → Yields (m s) Q
        → ((a : A) (s' : Session h o fuel) → Q a s' → Yields (f a s') R)
        → Yields ((◌>>=◌ h o fuel m f) s) R
    Yields-bind m s Q R y g =
        subst (λ r. Yields r R) (sym (bind-eq-run m s)) (Yields-run (m s) Q R y g)
