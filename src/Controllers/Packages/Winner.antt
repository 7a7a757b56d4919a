-- ===== src/Controllers/Packages/Winner.antt =====
-- Of the packages for one application the one of the highest priority stays.
use idpbuilder.Base.{
  ◌≡◌, ◌<◌, refl, sym, ◌∙◌, ap, true, false, ℕ, List, [], ◌∷◌, ◌⊎◌, inl, inr, Option, none, some,
  Bool-cases, Bool, arith, subst, Outcome, ok, err, Error,
}
use idpbuilder.Base.Text.{Text, ◌==◌, ==_iff}
use idpbuilder.Stacks.Paths.{base_of}
use idpbuilder.Controllers.Packages.{
  ℤ, pos, negsuc, CustomPackage, Localbuild, Manifest, RemoteRepositorySpec, Cluster, Rivalry,
  higher, lower, neither, compare_priority, rank, rivalry, settle_rivals, set_package,
  get_custom_package_name, put_answer, put_unless, place_among, place_package, reconcile_custom_pkg,
  is_supported_argo_cd_types,
}
use idpbuilder.Controllers.Packages.Ranks.{
  Listed, Serves, IsOneRank, IsMade, set_package-IsMade, rivalry-cases, Deletion-cases,
  reconcile_custom_pkg-IsOneRank, below-IsOneRank,
}

-- A priority that is above a number.
abbrev pub IsAbove : Option ℤ → (priority : ℕ) → Type 0
IsAbove a priority = (n : ℕ) × (a ≡ some (pos n)) × (priority < n)

higher-IsAbove :
    (a : Option ℤ) (priority : ℕ) → compare_priority a priority ≡ higher → IsAbove a priority
unfolding compare_priority
higher-IsAbove none priority h = cc
higher-IsAbove (some (negsuc n)) priority h = cc
higher-IsAbove (some (pos n)) priority h = (n, refl, ground (arith, h))

-- No priority is both above and below another.
one_side :
    (a : Option ℤ) (priority : ℕ)
    → compare_priority a priority ≡ higher
    → compare_priority a priority ≡ lower
    → ⊥
one_side a priority h k = cc

ranked_of :
    (a : Option ℤ) (priority : ℕ) (v : Rivalry)
    → compare_priority a priority ≡ v
    → (v ≡ neither → ⊥)
    → (b : ℤ) × (a ≡ some b)
unfolding compare_priority
ranked_of none priority v h n = absurd (n (sym h))
ranked_of (some b) priority v h n = (b, refl)

is_error : {failure : Error} → err failure ≡ ok true → ⊥
is_error h = cc

module _ (c : Cluster) (s : Serves c) where
  open c use {World}

  -- A package of the application is ranked above or below.
  abbrev Stands : (app_name : Text) → (priority : ℕ) → Rivalry → CustomPackage → Type 0
  Stands app_name priority v p =
      (p.spec.argo_cd.name ≡ app_name) × (compare_priority (rank c p) priority ≡ v)

  rivalry-Stands :
      (app_name : Text) (priority : ℕ) (p : CustomPackage) (v : Rivalry)
      → rivalry c app_name priority p ≡ v
      → (v ≡ neither → ⊥)
      → Stands app_name priority v p
  unfolding rivalry
  rivalry-Stands app_name priority p v h n = elim (Bool-cases (p.spec.argo_cd.name == app_name)) [
    | inl e ↦ ((==_iff p.spec.argo_cd.name app_name).0 e, rw e at h)
    | inr e ↦ absurd (n (sym (rw e at h)))
  ]

  -- Listed packages of one application that were given priorities have one.
  abbrev AreOneRank : List CustomPackage → Type 0
  AreOneRank packages =
      (p q : CustomPackage) (a b : ℤ)
      → Listed p packages
      → Listed q packages
      → p.spec.argo_cd.name ≡ q.spec.argo_cd.name
      → rank c p ≡ some a
      → rank c q ≡ some b
      → a ≡ b

  not_both :
      (packages : List CustomPackage) (app_name : Text) (priority : ℕ) (p q : CustomPackage)
      → AreOneRank packages
      → Listed p packages
      → Listed q packages
      → Stands app_name priority higher p
      → Stands app_name priority lower q
      → ⊥
  not_both packages app_name priority p q one i j (e, h) (f, k) =
      let (a, x) = ranked_of (rank c p) priority higher h (λ z. cc) in
      let (b, y) = ranked_of (rank c q) priority lower k (λ z. cc) in
      let same = one p q a b i j (e ∙ sym f) x y in
      one_side (rank c p) priority h
        (ap (λ z. compare_priority z priority) (x ∙ ap some same ∙ sym y) ∙ k)

  -- A loop that a higher one ended.
  abbrev IsSkipped :
      List CustomPackage
      → (app_name : Text) → (priority : ℕ) → World
      → Outcome Bool × World
      → Type 0
  IsSkipped packages app_name priority w r =
      (r.1 ≡ w) × ((p : CustomPackage) × Listed p packages × Stands app_name priority higher p)

  settle_rivals-IsSkipped :
      (packages : List CustomPackage) (app_name : Text) (priority : ℕ) (w : World)
      → AreOneRank packages
      → (settle_rivals c app_name priority packages w).0 ≡ ok true
      → IsSkipped packages app_name priority w (settle_rivals c app_name priority packages w)
  unfolding settle_rivals
  settle_rivals-IsSkipped [] app_name priority w one h = cc
  settle_rivals-IsSkipped (q ∷ packages) app_name priority w one h =
      let later : AreOneRank packages = λ p p' a b i j. one p p' a b (inr i) (inr j) in
      elim (rivalry-cases (rivalry c app_name priority q)) [
        | inl e ↦
            rw (settle_rivals, e)
              (refl, (q, inl refl, rivalry-Stands app_name priority q higher e (λ z. cc)))
        | inr (inr e) ↦
            let (same, (p, i, k)) =
              settle_rivals-IsSkipped packages app_name priority w later
                (rw (settle_rivals, e) at h) in
            rw (settle_rivals, e) (same, (p, inr i, k))
        | inr (inl e) ↦
            let w' = (c.delete_package q w).1 in
            let stands = rivalry-Stands app_name priority q lower e (λ z. cc) in
            let skipped : (settle_rivals c app_name priority packages w').0 ≡ ok true → ⊥ = λ k.
              let (_, (p, i, above)) =
                settle_rivals-IsSkipped packages app_name priority w' later k in
              not_both (q ∷ packages) app_name priority p q one (inr i) (inl refl) above stands in
            elim (Deletion-cases (c.delete_package q w).0) [
              | inr (failure, d) ↦ absurd (is_error (rw (settle_rivals, e, d) at h))
              | inl (inl d) ↦ absurd (skipped (rw (settle_rivals, e, d) at h))
              | inl (inr d) ↦ absurd (skipped (rw (settle_rivals, e, d) at h))
            ]
      ]

  -- A package of the application that has the priority or a higher one.
  abbrev pub Wins : (app_name : Text) → (priority : ℕ) → CustomPackage → Type 0
  Wins app_name priority p =
      (p.spec.argo_cd.name ≡ app_name)
      × ((rank c p ≡ some (pos priority)) ⊎ IsAbove (rank c p) priority)

  abbrev pub HasWinner : (app_name : Text) → (priority : ℕ) → World → Type 0
  HasWinner app_name priority w = (p : CustomPackage) × s.Holds w p × Wins app_name priority p

  put_answer-ok :
      (r : Option Error × World)
      → (put_answer c r).0 ≡ ok tt
      → (r.0 ≡ none) × ((put_answer c r).1 ≡ r.1)
  put_answer-ok (none, w) h = (refl, refl)
  put_answer-ok (some e, w) h = cc

  put_unless-HasWinner :
      (r : Outcome Bool × World) (packages : List CustomPackage) (app_name : Text) (priority : ℕ)
      (name : Text) (change : CustomPackage → CustomPackage) (w : World)
      → ((p : CustomPackage) → Listed p packages → s.Holds w p)
      → (r.0 ≡ ok true → IsSkipped packages app_name priority w r)
      → IsMade c s app_name priority change
      → (put_unless c name change r).0 ≡ ok tt
      → HasWinner app_name priority (put_unless c name change r).1
  put_unless-HasWinner (err e, w') packages app_name priority name change w there skipped made h =
      cc
  put_unless-HasWinner (ok true, w') packages app_name priority name change w there skipped made h =
      let (same, (p, i, (e, above))) = skipped refl in
      (
        p,
        subst (λ z. s.Holds z p) (sym same) (there p i),
        (e, inr (higher-IsAbove (rank c p) priority above)),
      )
  put_unless-HasWinner (ok false, w') packages app_name priority name change w there skipped made
        h =
      let (a, e) = put_answer-ok (c.create_or_update name change w') h in
      let (base, held) = s.put_puts w' name change a in
      (
        change base,
        subst (λ z. s.Holds z (change base)) (sym e) held,
        ((made base).0, inl (made base).1),
      )

  place_among-HasWinner :
      (r : Outcome (List CustomPackage) × World) (app_name : Text) (priority : ℕ) (name : Text)
      (change : CustomPackage → CustomPackage)
      → ((packages : List CustomPackage)
          → r.0 ≡ ok packages
          → (p : CustomPackage) → Listed p packages
          → s.Holds r.1 p)
      → IsMade c s app_name priority change
      → IsOneRank c s r.1
      → (place_among c app_name priority name change r).0 ≡ ok tt
      → HasWinner app_name priority (place_among c app_name priority name change r).1
  place_among-HasWinner (err e, w) app_name priority name change there made one h = cc
  place_among-HasWinner (ok packages, w) app_name priority name change there made one h =
      put_unless-HasWinner (settle_rivals c app_name priority packages w) packages app_name priority
        name change w (there packages refl)
        (settle_rivals-IsSkipped packages app_name priority w
          (λ p q a b i j. one p q a b (there packages refl p i) (there packages refl q j)))
        made h

  -- Of a manifest of an application, on an API server that nobody else uses, where the packages of
  -- each application that were given priorities have one: if `reconcileCustomPkg` returns no error,
  -- the application has a package, of the priority or of a higher one, and the packages of each
  -- application that were given priorities still have one.
  pub reconcile_custom_pkg_wins :
      (resource : Localbuild) (o : Manifest) (bytes file_path : Text)
      (remote : Option RemoteRepositorySpec) (priority : ℕ) (source_path : Text) (w : World)
      → c.decode bytes ≡ ok o
      → is_supported_argo_cd_types c o.gvk ≡ true
      → IsOneRank c s w
      → (reconcile_custom_pkg c resource bytes file_path remote priority source_path w).0 ≡ ok tt
      → HasWinner o.name priority
          (reconcile_custom_pkg c resource bytes file_path remote priority source_path w).1
        × IsOneRank c s
            (reconcile_custom_pkg c resource bytes file_path remote priority source_path w).1
  unfolding reconcile_custom_pkg place_package
  reconcile_custom_pkg_wins resource o bytes file_path remote priority source_path w d k one h =
      let name = get_custom_package_name (base_of file_path) o.name in
      let change = set_package c resource file_path o remote priority source_path in
      let placed : reconcile_custom_pkg c resource bytes file_path remote priority source_path w
          ≡ place_among c o.name priority name change (c.list_packages w) =
        rw (d, k) refl in
      let won =
        place_among-HasWinner (c.list_packages w) o.name priority name change
          (λ packages e p. s.list_sound w packages p e)
          (set_package-IsMade c s resource file_path o remote priority source_path)
          (below-IsOneRank c s w (c.list_packages w).1 (s.list_keeps w) one)
          (ap (λ z. z.0) (sym placed) ∙ h) in
      (
        subst (λ z. HasWinner o.name priority z.1) (sym placed) won,
        reconcile_custom_pkg-IsOneRank c s resource bytes file_path remote priority source_path w
            one,
      )
