-- ===== src/Stacks/Kustomize/Leaves.antt =====
-- The visits of the traversal that read no kustomization: a file, a directory of manifests, and a
-- directory whose kustomization was seen.
use idpbuilder.Base.{
  ◌≡◌, refl, sym, ◌∙◌, inl, inr, Bool, true, false, ◌||◌, List, [], ◌∷◌, Option, none, some,
  Outcome, ok, arith, Bool-cases, subst,
}
use mathlib.Core.Option.{some-injective}
use idpbuilder.Base.Text.{Text, ==_iff}
use idpbuilder.Base.Names.{contains, add_key, contains-add_key}
use idpbuilder.Stacks.Kustomize.{
  Tree, Found, Entry, unreadable, entry, find_kustomization_file, add_file, add_entries,
  add_manifest_directory_dependencies, parse_application_name, is_manifest_name,
}
use idpbuilder.Stacks.Kustomize.Reach
use idpbuilder.Stacks.Kustomize.Reach.{Direct, Leads, Refers, Needs, Reaches, Depends, manifests}
use idpbuilder.Stacks.Kustomize.Progress.{
  Has, IsIndexed, Covers, Progress, After, After-map, Progress-refl,
}

files-add_file :
    (path : Text) (app : Option Text) (st : Found)
    → (add_file path app st).files ≡ add_key path st.files
unfolding add_file
files-add_file path none st = refl
files-add_file path (some app) st = refl

seen-add_file :
    (path : Text) (app : Option Text) (st : Found) → (add_file path app st).seen ≡ st.seen
unfolding add_file
seen-add_file path none st = refl
seen-add_file path (some app) st = refl

file-ne-dir : ◌≡◌ {A = Outcome Bool} (ok false) (ok true) → ⊥
file-ne-dir e = cc

Has-singleton : (p f : Text) → f ≡ p → Has (p ∷ []) f
unfolding contains
Has-singleton p f e = ground (arith, ==_iff f p)

Has-singleton_eq : (p f : Text) → Has (p ∷ []) f → f ≡ p
unfolding contains
Has-singleton_eq p f h = ground (arith, ==_iff f p)

module _ (tree : Tree) where
  abbrev pub Visits : Text → Found → Found → Type 0
  Visits p st st' = Progress tree (λ q. q ≡ p) (Depends tree p) st st'

  -- The maps after the manifests of a directory: `new` are the files added, and nothing is seen.
  record Adds (new : List Text) (st st' : Found) : Type 0 where
    seen : st'.seen ≡ st.seen
    files : (f : Text) → contains st'.files f ≡ (contains st.files f || contains new f)

  add_entries-Adds :
      (entries : List Entry) (st : Found)
      → After (some (add_entries tree entries st)) (Adds (manifests entries) st)
  unfolding add_entries manifests contains
  add_entries-Adds [] st = record { seen = refl; files = λ f. ground arith }
  add_entries-Adds (unreadable e ∷ entries) st = tt
  add_entries-Adds (entry path name true ∷ entries) st = add_entries-Adds entries st
  add_entries-Adds (entry path name false ∷ entries) st =
      elim (Bool-cases (is_manifest_name name)) [
        | inr e ↦ rw e (add_entries-Adds entries st)
        | inl e ↦
            let app = parse_application_name tree path in
            let st' = add_file path app st in
            rw e (
              After-map (some (add_entries tree entries st')) (Adds (manifests entries) st') _
                (λ end a. record {
                  seen = a.seen ∙ seen-add_file path app st;
                  files = λ f. ground (
                    arith,
                    a.files f,
                    files-add_file path app st,
                    contains-add_key st.files f path,
                  );
                })
                (add_entries-Adds entries st'))
      ]

  pub Direct-here : (p f : Text) → Direct tree p f → Depends tree p f
  Direct-here p f d = record { at = p; reaches = Reach.Reaches.here; direct = d }

  Adds-Visits :
      (p : Text) (new : List Text) (st st' : Found)
      → ((k : Text) → tree.stat p ≡ ok true → find_kustomization_file tree p ≡ some k → ⊥)
      → ((f : Text) → Direct tree p f → Has new f)
      → ((f : Text) → Has new f → Direct tree p f)
      → Adds new st st'
      → Visits p st st'
  Adds-Visits p new st st' shut covers direct a = record {
    extends = record { files = λ f h. ground (arith, a.files f); seen = λ k h. rw a.seen h };
    indexed = λ h k s. ground (arith, a.files k, h k (rw a.seen at s));
    goal = λ q e. subst (Covers tree st') (sym e) (record {
      direct = λ f d. ground (arith, a.files f, covers f d);
      opened = λ k is_dir finds. absurd (shut k is_dir finds);
    });
    complete = λ k h. inl (rw a.seen at h);
    sound = λ f h. elim (Bool-cases (contains st.files f)) [
      | inl e ↦ inl e
      | inr e ↦ inr (Direct-here p f (direct f (ground (arith, a.files f))))
    ];
  }

  Direct-file : (p f : Text) → tree.stat p ≡ ok false → Direct tree p f → Has (p ∷ []) f
  Direct-file p f e (Reach.Direct.file e' same) = Has-singleton p f (sym same)
  Direct-file p f e (Reach.Direct.kustomization e' k) = absurd (file-ne-dir (sym e ∙ e'))
  Direct-file p f e (Reach.Direct.manifest e' k m) = absurd (file-ne-dir (sym e ∙ e'))

  pub visit_file :
      (p : Text) (st : Found)
      → tree.stat p ≡ ok false
      → Visits p st (add_file p (parse_application_name tree p) st)
  unfolding contains
  visit_file p st e =
      let app = parse_application_name tree p in
      Adds-Visits p (p ∷ []) st _ (λ k e' finds. file-ne-dir (sym e ∙ e')) (λ f. Direct-file p f e)
        (λ f h. Reach.Direct.file e (sym (Has-singleton_eq p f h)))
        (record {
          seen = seen-add_file p app st;
          files = λ f. ground (arith, files-add_file p app st, contains-add_key st.files f p);
        })

  Direct-manifests :
      (p f : Text)
      → tree.stat p ≡ ok true
      → find_kustomization_file tree p ≡ none
      → Direct tree p f
      → Has (manifests (tree.walk_dir p)) f
  Direct-manifests p f e n (Reach.Direct.file e' same) = absurd (file-ne-dir (sym e' ∙ e))
  Direct-manifests p f e n (Reach.Direct.kustomization e' k) = cc
  Direct-manifests p f e n (Reach.Direct.manifest e' k m) = m

  pub visit_manifests :
      (p : Text) (st : Found)
      → tree.stat p ≡ ok true
      → find_kustomization_file tree p ≡ none
      → After (some (add_manifest_directory_dependencies tree p st)) (Visits p st)
  unfolding add_manifest_directory_dependencies
  visit_manifests p st e n =
      After-map (some (add_entries tree (tree.walk_dir p) st))
        (Adds (manifests (tree.walk_dir p)) st) _
        (λ st'.
          Adds-Visits p (manifests (tree.walk_dir p)) st st' (λ k e' finds. cc)
            (λ f. Direct-manifests p f e n) (λ f. Reach.Direct.manifest e n))
        (add_entries-Adds (tree.walk_dir p) st)

  pub Direct-opened :
      (p k f : Text) (st : Found)
      → tree.stat p ≡ ok true
      → find_kustomization_file tree p ≡ some k
      → Has st.files k
      → Direct tree p f
      → Has st.files f
  Direct-opened p k f st e n h (Reach.Direct.file e' same) = absurd (file-ne-dir (sym e' ∙ e))
  Direct-opened p k f st e n h (Reach.Direct.kustomization e' finds) =
      subst (Has st.files) (some-injective k f (sym n ∙ finds)) h
  Direct-opened p k f st e n h (Reach.Direct.manifest e' n' m) = cc

  pub visit_seen :
      (p k : Text) (st : Found)
      → tree.stat p ≡ ok true
      → find_kustomization_file tree p ≡ some k
      → Has st.seen k
      → IsIndexed st
      → Visits p st st
  visit_seen p k st e n h x = Progress-refl tree st λ q same.
      subst (Covers tree st) (sym same) (record {
        direct = λ f d. Direct-opened p k f st e n (x k h) d;
        opened = λ j _ finds. subst (Has st.seen) (some-injective k j (sym n ∙ finds)) h;
      })
