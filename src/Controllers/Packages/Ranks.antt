-- ===== src/Controllers/Packages/Ranks.antt =====
-- Two packages of one application have one priority, whatever order packages are placed in.
use idpbuilder.Base.{
  ◌≡◌, ◌≢◌, refl, sym, ◌∙◌, ap, Bool, true, false, ℕ, List, [], ◌∷◌, ◌⊎◌, inl, inr, Bool-cases,
  Option, none, some, Outcome, ok, err, Error, arith, subst,
}
use idpbuilder.Base.Text.{Text, ◌==◌, ==_iff, ==_self}
use idpbuilder.Controllers.Packages.{
  ℤ, pos, negsuc, CustomPackage, Localbuild, Manifest, RemoteRepositorySpec, Deletion, deleted,
  not_found, refused, Cluster, Rivalry, higher, lower, neither, annotation, set_annotation,
  compare_priority, rank, rivalry, settle_rivals, set_package, package_priority_annotation,
  package_source_path_annotation, set_cli_start_time_annotation_value, put_answer, put_unless,
  place_among, place_package, reconcile_decoded, reconcile_custom_pkg, is_supported_argo_cd_types,
  scanned, or_empty, get_cli_start_time_annotation_value,
}

-- A package stands in a list.
abbrev pub Listed : CustomPackage → List CustomPackage → Type 0
Listed p [] = ⊥
Listed p (q ∷ packages) = (p ≡ q) ⊎ Listed p packages

-- What an API server that nobody else uses does: `Holds w p` where it has a package.
pub record Serves (c : Cluster) : Type 1 where
  pub Holds : c.World → CustomPackage → Type 0
  pub list_keeps : (w : c.World) (p : CustomPackage) → Holds (c.list_packages w).1 p → Holds w p
  pub list_shows :
      (w : c.World) (packages : List CustomPackage) (p : CustomPackage)
      → (c.list_packages w).0 ≡ ok packages
      → Holds w p
      → Listed p packages
  pub list_sound :
      (w : c.World) (packages : List CustomPackage) (p : CustomPackage)
      → (c.list_packages w).0 ≡ ok packages
      → Listed p packages
      → Holds (c.list_packages w).1 p
  pub delete_keeps :
      (w : c.World) (q p : CustomPackage) → Holds (c.delete_package q w).1 p → Holds w p
  pub delete_removes :
      (w : c.World) (q p : CustomPackage)
      → ((c.delete_package q w).0 ≡ deleted) ⊎ ((c.delete_package q w).0 ≡ not_found)
      → Holds (c.delete_package q w).1 p
      → p ≢ q
  pub put_changes :
      (w : c.World) (name : Text) (change : CustomPackage → CustomPackage) (p : CustomPackage)
      → Holds (c.create_or_update name change w).1 p
      → Holds w p ⊎ ((q : CustomPackage) × (p ≡ change q))
  pub put_puts :
      (w : c.World) (name : Text) (change : CustomPackage → CustomPackage)
      → (c.create_or_update name change w).0 ≡ none
      → (q : CustomPackage) × Holds (c.create_or_update name change w).1 (change q)
  pub reads_back : (n : ℕ) → c.scan_int (c.print_int n) ≡ some (pos n)

annotation-set_annotation :
    (annotations : List (Text × Text)) (key value : Text)
    → annotation key (set_annotation key value annotations) ≡ some value
unfolding annotation set_annotation
annotation-set_annotation [] key value = ground (arith, ==_self key)
annotation-set_annotation ((k, old) ∷ annotations) key value =
    ground (arith, annotation-set_annotation annotations key value)

annotation-set_other :
    (annotations : List (Text × Text)) (key other value : Text)
    → (other == key) ≡ false
    → annotation key (set_annotation other value annotations) ≡ annotation key annotations
unfolding annotation set_annotation
annotation-set_other [] key other value n = ground (arith, n)
annotation-set_other ((k, old) ∷ annotations) key other value n = elim (Bool-cases (k == other)) [
  | inl e ↦ ground (arith, n, e, (==_iff k other).0 e)
  | inr e ↦ ground (arith, e, annotation-set_other annotations key other value n)
]

pub rivalry-cases : (v : Rivalry) → (v ≡ higher) ⊎ ((v ≡ lower) ⊎ (v ≡ neither))
rivalry-cases higher = inl refl
rivalry-cases lower = inr (inl refl)
rivalry-cases neither = inr (inr refl)

pub Deletion-cases :
    (d : Deletion) → ((d ≡ deleted) ⊎ (d ≡ not_found)) ⊎ ((e : Error) × (d ≡ refused e))
Deletion-cases deleted = inl (inl refl)
Deletion-cases not_found = inl (inr refl)
Deletion-cases (refused e) = inr (e, refl)

pub some-injective : {A : Type 0} (a b : A) → some a ≡ some b → a ≡ b
some-injective a b e = cc

module _ (c : Cluster) (s : Serves c) where
  open c use {World}

  -- Two packages of one application that were given priorities were given one.
  abbrev pub IsOneRank : World → Type 0
  IsOneRank w =
      (p q : CustomPackage) (a b : ℤ)
      → s.Holds w p
      → s.Holds w q
      → p.spec.argo_cd.name ≡ q.spec.argo_cd.name
      → rank c p ≡ some a
      → rank c q ≡ some b
      → a ≡ b

  -- Nothing is there that was not.
  abbrev IsBelow : World → World → Type 0
  IsBelow w' w = (p : CustomPackage) → s.Holds w' p → s.Holds w p

  pub below-IsOneRank : (w w' : World) → IsBelow w' w → IsOneRank w → IsOneRank w'
  below-IsOneRank w w' k one p q a b h i = one p q a b (k p h) (k q i)

  -- A package of the application has the priority, if it has one.
  abbrev IsEven : (app_name : Text) → (priority : ℕ) → CustomPackage → Type 0
  IsEven app_name priority p =
      (a : ℤ) → p.spec.argo_cd.name ≡ app_name → rank c p ≡ some a → a ≡ pos priority

  compared :
      (a : ℤ) (priority : ℕ) → compare_priority (some a) priority ≡ neither → a ≡ pos priority
  unfolding compare_priority
  compared (pos n) priority h = ap pos (ground arith)
  compared (negsuc n) priority h = cc

  rivalry-IsEven :
      (app_name : Text) (priority : ℕ) (p : CustomPackage)
      → rivalry c app_name priority p ≡ neither
      → IsEven app_name priority p
  unfolding rivalry
  rivalry-IsEven app_name priority p h a e r =
      compared a priority (ground (arith, h, r, (==_iff p.spec.argo_cd.name app_name).1 e))

  -- What the loop leaves: nothing new, and where it went to its end, of the listed packages those
  -- that have the priority.
  abbrev IsSettled :
      (packages : List CustomPackage) (app_name : Text) (priority : ℕ)
      → World
      → Outcome Bool × World
      → Type 0
  IsSettled packages app_name priority w r =
      IsBelow r.1 w
      × (r.0 ≡ ok false
          → (p : CustomPackage) → Listed p packages
          → s.Holds r.1 p
          → IsEven app_name priority p)

  refusal : Error → World → Outcome Bool × World
  refusal e w = (err e, w)

  IsSettled-after_delete :
      (q : CustomPackage) (packages : List CustomPackage) (app_name : Text) (priority : ℕ)
      (w : World) (r : Outcome Bool × World)
      → ((c.delete_package q w).0 ≡ deleted) ⊎ ((c.delete_package q w).0 ≡ not_found)
      → IsSettled packages app_name priority (c.delete_package q w).1 r
      → IsSettled (q ∷ packages) app_name priority w r
  IsSettled-after_delete q packages app_name priority w r gone (below, even) = (
    λ p h. s.delete_keeps w q p (below p h),
    λ ended p l h. elim l [
      | inl e ↦ absurd (s.delete_removes w q p gone (below p h) e)
      | inr i ↦ even ended p i h
    ],
  )

  settle_rivals-IsSettled :
      (packages : List CustomPackage) (app_name : Text) (priority : ℕ) (w : World)
      → IsSettled packages app_name priority w (settle_rivals c app_name priority packages w)
  unfolding settle_rivals
  settle_rivals-IsSettled [] app_name priority w = (λ p h. h, λ e p l. absurd l)
  settle_rivals-IsSettled (q ∷ packages) app_name priority w =
      elim (rivalry-cases (rivalry c app_name priority q)) [
        | inl e ↦ rw (settle_rivals, e) (λ p h. h, λ ended. cc)
        | inr (inr e) ↦
            let (below, even) = settle_rivals-IsSettled packages app_name priority w in
            rw (settle_rivals, e)
              (
                below,
                λ ended p l h. elim l [
                  | inl same ↦
                      subst (IsEven app_name priority) (sym same)
                        (rivalry-IsEven app_name priority q e)
                  | inr i ↦ even ended p i h
                ],
              )
        | inr (inl e) ↦ elim (Deletion-cases (c.delete_package q w).0) [
          | inr (failure, d) ↦ rw (settle_rivals, e, d) (λ p h. s.delete_keeps w q p h, λ ended. cc)
          | inl (inl d) ↦
              rw (settle_rivals, e, d)
                (IsSettled-after_delete q packages app_name priority w
                  (settle_rivals c app_name priority packages (c.delete_package q w).1) (inl d)
                  (settle_rivals-IsSettled packages app_name priority (c.delete_package q w).1))
          | inl (inr d) ↦
              rw (settle_rivals, e, d)
                (IsSettled-after_delete q packages app_name priority w
                  (settle_rivals c app_name priority packages (c.delete_package q w).1) (inr d)
                  (settle_rivals-IsSettled packages app_name priority (c.delete_package q w).1))
        ]
      ]

  -- What a package for an application is made.
  abbrev pub IsMade : (app_name : Text) → (priority : ℕ) → (CustomPackage → CustomPackage) → Type 0
  IsMade app_name priority change =
      (p : CustomPackage)
      → ((change p).spec.argo_cd.name ≡ app_name) × (rank c (change p) ≡ some (pos priority))

  pub set_package-IsMade :
      (resource : Localbuild) (file_path : Text) (o : Manifest)
      (remote : Option RemoteRepositorySpec) (priority : ℕ) (source_path : Text)
      → IsMade o.name priority (set_package c resource file_path o remote priority source_path)
  unfolding set_package ◌==◌
  set_package-IsMade resource file_path o remote priority source_path p =
      let before =
        set_cli_start_time_annotation_value
          (or_empty c (get_cli_start_time_annotation_value resource.annotations)) p.annotations in
      let given = set_annotation package_priority_annotation (c.print_int priority) before in
      (
        refl,
        ap (scanned c) (
              annotation-set_other given package_priority_annotation package_source_path_annotation
                source_path refl
              ∙ annotation-set_annotation before package_priority_annotation (c.print_int priority))
            ∙ s.reads_back priority,
      )

  -- A package that is put among even ones.
  put-IsOneRank :
      (app_name : Text) (priority : ℕ) (name : Text) (change : CustomPackage → CustomPackage)
      (w : World)
      → IsMade app_name priority change
      → ((p : CustomPackage) → s.Holds w p → IsEven app_name priority p)
      → IsOneRank w
      → IsOneRank (c.create_or_update name change w).1
  put-IsOneRank app_name priority name change w made even one p q a b h i e x y =
      elim (s.put_changes w name change p h) [
        | inl old ↦ elim (s.put_changes w name change q i) [
          | inl old' ↦ one p q a b old old' e x y
          | inr (base, new) ↦
              let named = ap (λ z. z.spec.argo_cd.name) new ∙ (made base).0 in
              let ranked = sym y ∙ ap (rank c) new ∙ (made base).1 in
              even p old a (e ∙ named) x ∙ sym (some-injective b (pos priority) ranked)
        ]
        | inr (base, new) ↦
            let named = ap (λ z. z.spec.argo_cd.name) new ∙ (made base).0 in
            let ranked = sym x ∙ ap (rank c) new ∙ (made base).1 in
            elim (s.put_changes w name change q i) [
              | inl old' ↦
                  some-injective a (pos priority) ranked ∙ sym (even q old' b (sym e ∙ named) y)
              | inr (base', new') ↦
                  let ranked' = sym y ∙ ap (rank c) new' ∙ (made base').1 in
                  some-injective a (pos priority) ranked
                  ∙ sym (some-injective b (pos priority) ranked')
            ]
      ]

  put_answer_kept : (r : Option Error × World) → IsOneRank r.1 → IsOneRank (put_answer c r).1
  put_answer_kept (none, w) one = one
  put_answer_kept (some e, w) one = one

  put_unless-IsOneRank :
      (r : Outcome Bool × World) (packages : List CustomPackage) (app_name : Text) (priority : ℕ)
      (name : Text) (change : CustomPackage → CustomPackage) (w : World)
      → IsSettled packages app_name priority w r
      → ((p : CustomPackage) → s.Holds w p → Listed p packages)
      → IsMade app_name priority change
      → IsOneRank w
      → IsOneRank (put_unless c name change r).1
  put_unless-IsOneRank (err e, w') packages app_name priority name change w (below, even) shown made
        one =
      below-IsOneRank w w' below one
  put_unless-IsOneRank (ok true, w') packages app_name priority name change w (below, even) shown
        made one =
      below-IsOneRank w w' below one
  put_unless-IsOneRank (ok false, w') packages app_name priority name change w (below, even) shown
        made one =
      put_answer_kept (c.create_or_update name change w') (
        put-IsOneRank app_name priority name change w' made
          (λ p h. even refl p (shown p (below p h)) h) (below-IsOneRank w w' below one))

  place_among-IsOneRank :
      (r : Outcome (List CustomPackage) × World) (app_name : Text) (priority : ℕ) (name : Text)
      (change : CustomPackage → CustomPackage)
      → ((packages : List CustomPackage)
          → r.0 ≡ ok packages
          → (p : CustomPackage) → s.Holds r.1 p
          → Listed p packages)
      → IsMade app_name priority change
      → IsOneRank r.1
      → IsOneRank (place_among c app_name priority name change r).1
  place_among-IsOneRank (err e, w) app_name priority name change shown made one = one
  place_among-IsOneRank (ok packages, w) app_name priority name change shown made one =
      put_unless-IsOneRank (settle_rivals c app_name priority packages w) packages app_name priority
        name change w (settle_rivals-IsSettled packages app_name priority w) (shown packages refl)
        made one

  module _ (resource : Localbuild) where
    pub place_package-IsOneRank :
        (o : Manifest) (file_path : Text) (remote : Option RemoteRepositorySpec) (priority : ℕ)
        (source_path : Text) (w : World)
        → IsOneRank w
        → IsOneRank (place_package c resource file_path remote priority source_path o w).1
    unfolding place_package
    place_package-IsOneRank o file_path remote priority source_path w one =
        place_among-IsOneRank (c.list_packages w) o.name priority _ _
          (λ packages e p h. s.list_shows w packages p e (s.list_keeps w p h))
          (set_package-IsMade resource file_path o remote priority source_path)
          (below-IsOneRank w (c.list_packages w).1 (s.list_keeps w) one)

    reconcile_decoded-IsOneRank :
        (d : Outcome Manifest) (file_path : Text) (remote : Option RemoteRepositorySpec)
        (priority : ℕ) (source_path : Text) (w : World)
        → IsOneRank w
        → IsOneRank (reconcile_decoded c resource file_path remote priority source_path d w).1
    reconcile_decoded-IsOneRank (err e) file_path remote priority source_path w one = one
    reconcile_decoded-IsOneRank (ok o) file_path remote priority source_path w one =
        elim (Bool-cases (is_supported_argo_cd_types c o.gvk)) [
          | inl e ↦ rw e (place_package-IsOneRank o file_path remote priority source_path w one)
          | inr e ↦ rw e one
        ]

    pub reconcile_custom_pkg-IsOneRank :
        (bytes file_path : Text) (remote : Option RemoteRepositorySpec) (priority : ℕ)
        (source_path : Text) (w : World)
        → IsOneRank w
        → IsOneRank
            (reconcile_custom_pkg c resource bytes file_path remote priority source_path w).1
    unfolding reconcile_custom_pkg
    reconcile_custom_pkg-IsOneRank bytes file_path remote priority source_path w one =
        reconcile_decoded-IsOneRank (c.decode bytes) file_path remote priority source_path w one
