-- ===== src/Stacks/Kustomize/Traversal.antt =====
-- One visit of the traversal, on fuel that exceeds the number of kustomizations not yet seen.
use idpbuilder.Base.{
  ◌≡◌, refl, ap, ◌⊎◌, inl, inr, true, false, ℕ, ◌<◌, List, [], ◌∷◌, Outcome, ok, err, arith,
  Bool-cases, subst,
}
use idpbuilder.Base.Text.{Text, ==_self}
use idpbuilder.Base.Names.{contains}
use idpbuilder.Stacks.Paths.{clean_repo_rel, join_repo_rel, dir_of}
use idpbuilder.Stacks.Kustomize.{Tree, Found, Run, add_refs, follow_ref, should_skip_kustomize_ref}
use idpbuilder.Stacks.Kustomize.Reach.{Leads, Depends}
use idpbuilder.Stacks.Kustomize.Measure.{unseen, unseen_mono}
use idpbuilder.Stacks.Kustomize.Progress.{
  Has, IsIndexed, Progress, After, After-then, After-wrap, After-map, Has-cons, Progress-trans,
  Progress-refl,
}
use idpbuilder.Stacks.Kustomize.Leaves.{Visits}

Has-head : (x : Text) (xs : List Text) → Has (x ∷ xs) x
unfolding contains
Has-head x xs = ground (arith, ==_self x)

not-Has-nil : (x : Text) → Has [] x → ⊥
unfolding contains
not-Has-nil x h = cc

module _ (tree : Tree) where
  -- A path that one of the references leads to.
  pub record Led (k : Text) (refs : List Text) (q : Text) : Type 0 where
    pub ref : Text
    pub listed : Has refs ref
    pub leads : Leads tree k ref q

  pub record LedTo (k : Text) (refs : List Text) (f : Text) : Type 0 where
    pub path : Text
    pub led : Led k refs path
    pub depends : Depends tree path f

  Led-tail : (k ref : Text) (refs : List Text) (q : Text) → Led k refs q → Led k (ref ∷ refs) q
  unfolding contains
  Led-tail k ref refs q l = record {
    ref = l.ref;
    listed = ground (arith, l.listed);
    leads = l.leads;
  }

  -- What the recursive call is relied on for.
  abbrev pub Visited : Text → Found → Found → Type 0
  Visited rel st st' = (p : Text) × (clean_repo_rel rel ≡ ok p) × Visits tree p st st'

  abbrev pub Sound : List Text → ℕ → (Text → Found → Run) → Type 0
  Sound universe fuel visit =
      (rel : Text) (st : Found)
      → unseen universe st.seen < fuel
      → IsIndexed st
      → After (visit rel st) (Visited rel st)

  unfoldable pub Refs : Text → List Text → Found → Found → Type 0
  Refs k refs st st' = Progress tree (Led k refs) (LedTo k refs) st st'

  Led-skipped :
      (k ref : Text) (refs : List Text) (q : Text)
      → should_skip_kustomize_ref ref ≡ true
      → Led k (ref ∷ refs) q
      → Led k refs q
  Led-skipped k ref refs q e l = elim (Has-cons ref refs l.ref l.listed) [
    | inl same ↦ cc (ap should_skip_kustomize_ref same, l.leads.kept, e)
    | inr h ↦ record { ref = l.ref; listed = h; leads = l.leads }
  ]

  Leads-unique :
      (k ref next p q : Text)
      → join_repo_rel (dir_of k) ref ≡ ok next
      → clean_repo_rel next ≡ ok p
      → Leads tree k ref q
      → q ≡ p
  Leads-unique k ref next p q j c l =
      let same : l.next ≡ next = cc in cc (ap clean_repo_rel same, l.cleans, c)

  Led-head :
      (k ref next p : Text) (refs : List Text) (q : Text)
      → join_repo_rel (dir_of k) ref ≡ ok next
      → clean_repo_rel next ≡ ok p
      → Led k (ref ∷ refs) q
      → (q ≡ p) ⊎ Led k refs q
  Led-head k ref next p refs q j c l = elim (Has-cons ref refs l.ref l.listed) [
    | inl same ↦ inl (Leads-unique k ref next p q j c (subst (λ r. Leads tree k r q) same l.leads))
    | inr h ↦ inr (record { ref = l.ref; listed = h; leads = l.leads })
  ]

  module _ (universe : List Text) (fuel : ℕ) (visit : Text → Found → Run)
      (sound : Sound universe fuel visit) (k : Text) where
    -- A visited reference, then the other ones.
    follow_ref-Refs :
        (ref : Text) (refs : List Text) (joined : Outcome Text) (rest : Found → Run) (st : Found)
        → join_repo_rel (dir_of k) ref ≡ joined
        → should_skip_kustomize_ref ref ≡ false
        → unseen universe st.seen < fuel
        → IsIndexed st
        → ((st' : Found)
            → unseen universe st'.seen < fuel
            → IsIndexed st'
            → After (rest st') (Refs k refs st'))
        → After (follow_ref visit k ref joined rest st) (Refs k (ref ∷ refs) st)
    unfolding follow_ref Refs
    follow_ref-Refs ref refs (err e) rest st j kept low x after = tt
    follow_ref-Refs ref refs (ok next) rest st j kept low x after =
        After-then _ rest (Visited next st) _
          (After-wrap _ (visit next st) (Visited next st) (sound next st low x))
          λ st1 (p, c, v).
            After-map (rest st1) (Refs k refs st1) _
              (λ st2 r.
                Progress-trans tree v r (λ q. Led-head k ref next p refs q j c)
                  (λ f d. record {
                    path = p;
                    led = record {
                      ref = ref;
                      listed = Has-head ref refs;
                      leads = record { kept = kept; next = next; joins = j; cleans = c };
                    };
                    depends = d;
                  })
                  (λ f l. record {
                    path = l.path;
                    led = Led-tail k ref refs l.path l.led;
                    depends = l.depends;
                  }))
              (after st1 (omega (arith, unseen_mono universe st.seen st1.seen v.extends.seen))
                (v.indexed x))

    pub add_refs-Refs :
        (refs : List Text) (st : Found)
        → unseen universe st.seen < fuel
        → IsIndexed st
        → After (add_refs visit k refs st) (Refs k refs st)
    unfolding add_refs Refs
    add_refs-Refs [] st low x = Progress-refl tree st λ q l. absurd (not-Has-nil l.ref l.listed)
    add_refs-Refs (ref ∷ refs) st low x = elim (Bool-cases (should_skip_kustomize_ref ref)) [
      | inl e ↦ rw e (
          After-map (add_refs visit k refs st) (Refs k refs st) _
            (λ st' r. record {
              extends = r.extends;
              indexed = r.indexed;
              goal = λ q l. r.goal q (Led-skipped k ref refs q e l);
              complete = r.complete;
              sound = λ f h. elim (r.sound f h) [
                | inl old ↦ inl old
                | inr l ↦ inr (record {
                  path = l.path;
                  led = Led-tail k ref refs l.path l.led;
                  depends = l.depends;
                })
              ];
            })
            (add_refs-Refs refs st low x))
      | inr e ↦ rw e (
          follow_ref-Refs ref refs _ (add_refs visit k refs) st refl e low x
            (λ st' low' x'. add_refs-Refs refs st' low' x'))
    ]
