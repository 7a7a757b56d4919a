-- ===== src/Stacks/Kustomize/Dependencies.antt =====
-- addKustomizeDependencies indexes exactly the files that a path depends on, and its recursion
-- ends.
use mathlib.Core.Option.{some-injective}
use idpbuilder.Base.{
  ◌≡◌, refl, sym, ap, ◌∙◌, inl, inr, true, false, ℕ, zero, suc, ◌<◌, List, [], ◌∷◌, none, some,
  Outcome, ok, err, arith, Bool-cases, Outcome-cases, ok-injective, Option-cases, ◌≤◌, subst, ◌↔◌,
  length,
}
use idpbuilder.Base.Text.{Text, lit}
use idpbuilder.Base.Names.{contains, add_key}
use idpbuilder.Stacks.Paths.{clean_repo_rel, join_paths}
use idpbuilder.Stacks.Kustomize.{
  first_regular, is_regular, Tree, Found, Run, Kustomization, nothing_found,
  find_kustomization_file, read_kustomization, visit_directory, visit_path,
  add_kustomize_dependencies, local_path_refs,
}
use idpbuilder.Stacks.Kustomize.Reach
use idpbuilder.Stacks.Kustomize.Reach.{Direct, Refers, Needs, Reaches, Depends}
use idpbuilder.Stacks.Kustomize.Measure.{unseen, unseen-le, unseen-add_key}
use idpbuilder.Stacks.Kustomize.Progress.{
  Has, IsIndexed, Covers, Completes, After, After-map, Has-add_key, Has-add_key_old,
  Has-add_key_self,
}
use idpbuilder.Stacks.Kustomize.Leaves.{
  Visits, visit_file, visit_manifests, visit_seen, Direct-opened, Direct-here,
}
use idpbuilder.Stacks.Kustomize.Traversal.{Led, LedTo, Refs, Visited, Sound, add_refs-Refs}

-- The maps after a kustomization is entered, before its references are followed.
abbrev entered : Text → Found → Found
entered k st = record st { files = add_key k st.files; seen = add_key k st.seen }

entered-IsIndexed : (k : Text) (st : Found) → IsIndexed st → IsIndexed (entered k st)
entered-IsIndexed k st x j h = elim (Has-add_key st.seen j k h) [
  | inl same ↦ subst (Has (add_key k st.files)) (sym same) (Has-add_key_self st.files k)
  | inr old ↦ Has-add_key_old st.files j k (x j old)
]

module _ (tree : Tree) where
  module _ (p k : Text) (st : Found) (e : tree.stat p ≡ ok true)
      (finds : find_kustomization_file tree p ≡ some k) (bytes : List ℕ) (parsed : Kustomization)
      (reads : tree.read_file k ≡ ok bytes) (parses : tree.parse_kustomization bytes ≡ ok parsed)
      (st' : Found) (r : Refs tree k (local_path_refs parsed) (entered k st) st') where
    Refers-Led : (q : Text) → Refers tree k q → Led tree k (local_path_refs parsed) q
    Refers-Led q t =
        let same_bytes : t.bytes ≡ bytes = cc in
        let same : t.parsed ≡ parsed =
          cc (ap tree.parse_kustomization same_bytes, t.parses, parses) in
        record {
          ref = t.ref;
          listed = subst (λ doc. Has (local_path_refs doc) t.ref) same t.listed;
          leads = t.leads;
        }

    Refs-Completes : Completes tree st' k
    unfolding Refs
    Refs-Completes q t = r.goal q (Refers-Led q t)

    LedTo-Depends : (f : Text) → LedTo tree k (local_path_refs parsed) f → Depends tree p f
    LedTo-Depends f l = record {
      at = l.depends.at;
      reaches =
          Reach.Reaches.next
            (record {
              is_dir = e;
              k = k;
              finds = finds;
              refers = record {
                bytes = bytes;
                reads = reads;
                parsed = parsed;
                parses = parses;
                ref = l.led.ref;
                listed = l.led.listed;
                leads = l.led.leads;
              };
            })
            l.depends.reaches;
      direct = l.depends.direct;
    }

    Refs-Visits : Visits tree p st st'
    unfolding Refs
    Refs-Visits = record {
      extends = record {
        files = λ f h. r.extends.files f (Has-add_key_old st.files f k h);
        seen = λ j h. r.extends.seen j (Has-add_key_old st.seen j k h);
      };
      indexed = λ x. r.indexed (entered-IsIndexed k st x);
      goal = λ q same. subst (Covers tree st') (sym same) (record {
        direct = λ f.
            Direct-opened tree p k f st' e finds (r.extends.files k (Has-add_key_self st.files k));
        opened = λ j _ found.
            subst (Has st'.seen) (some-injective k j (sym finds ∙ found))
              (r.extends.seen k (Has-add_key_self st.seen k));
      });
      complete = λ j h. elim (r.complete j h) [
        | inl before ↦ elim (Has-add_key st.seen j k before) [
          | inl same ↦ inr (subst (Completes tree st') (sym same) Refs-Completes)
          | inr old ↦ inl old
        ]
        | inr c ↦ inr c
      ];
      sound = λ f h. elim (r.sound f h) [
        | inl before ↦ elim (Has-add_key st.files f k before) [
          | inl same ↦ inr (
              Direct-here tree p f (
                Reach.Direct.kustomization e
                  (subst (λ j. find_kustomization_file tree p ≡ some j) (sym same) finds)))
          | inr old ↦ inl old
        ]
        | inr l ↦ inr (LedTo-Depends f l)
      ];
    }

-- Every kustomization of the tree is in the list `universe`.
abbrev pub IsUniverse : Tree → List Text → Type 0
IsUniverse tree universe =
    (dir k : Text) → find_kustomization_file tree dir ≡ some k → contains universe k ≡ true

module _ (tree : Tree) (universe : List Text) (finite : IsUniverse tree universe) where
  module _ (fuel : ℕ) (visit : Text → Found → Run) (sound : Sound tree universe fuel visit)
      (p : Text) (st : Found) (e : tree.stat p ≡ ok true) (low : unseen universe st.seen ≤ fuel)
      (x : IsIndexed st) where
    read-Visits :
        (k : Text)
        → find_kustomization_file tree p ≡ some k
        → contains st.seen k ≡ false
        → After (read_kustomization tree visit k st) (Visits tree p st)
    unfolding read_kustomization
    read-Visits k finds new = elim (Outcome-cases (tree.read_file k)) [
      | inr (_, reads) ↦ rw (reads, After) tt
      | inl (bytes, reads) ↦ elim (Outcome-cases (tree.parse_kustomization bytes)) [
        | inr (_, parses) ↦ rw (reads, parses, After) tt
        | inl (parsed, parses) ↦
            rw (reads, parses, After)
              (After-map _ (Refs tree k (local_path_refs parsed) (entered k st)) _
                (Refs-Visits tree p k st e finds bytes parsed reads parses)
                (add_refs-Refs tree universe fuel visit sound k (local_path_refs parsed)
                  (entered k st)
                  (omega (arith, unseen-add_key universe st.seen k (finite p k finds) new))
                  (entered-IsIndexed k st x)))
      ]
    ]

    visit_directory-Visits : After (visit_directory tree visit p st) (Visits tree p st)
    unfolding visit_directory
    visit_directory-Visits = elim (Option-cases (find_kustomization_file tree p)) [
      | inl n ↦ rw (n, After) (visit_manifests tree p st e n)
      | inr (k, finds) ↦ elim (Bool-cases (contains st.seen k)) [
        | inl old ↦ rw (finds, old, After) (visit_seen tree p k st e finds old x)
        | inr new ↦ rw (finds, new, After) (read-Visits k finds new)
      ]
    ]

  visit_path-Visits :
      (fuel : ℕ) (visit : Text → Found → Run)
      → Sound tree universe fuel visit
      → (p : Text) (st : Found) → unseen universe st.seen ≤ fuel
      → IsIndexed st
      → After (visit_path tree visit p st) (Visits tree p st)
  unfolding visit_path
  visit_path-Visits fuel visit sound p st low x = elim (Outcome-cases (tree.stat p)) [
    | inr (_, e) ↦ rw (e, After) tt
    | inl (true, e) ↦ rw (e, After) (visit_directory-Visits fuel visit sound p st e low x)
    | inl (false, e) ↦ rw (e, After) (visit_file tree p st e)
  ]

  -- The recursion: the fuel has to exceed the number of kustomizations that were not seen.
  add_kustomize_dependencies-Sound :
      (fuel : ℕ) → Sound tree universe fuel (add_kustomize_dependencies tree fuel)
  unfolding add_kustomize_dependencies
  add_kustomize_dependencies-Sound zero rel st low x = absurd (omega arith)
  add_kustomize_dependencies-Sound (suc fuel) rel st low x =
      elim (Outcome-cases (clean_repo_rel rel)) [
        | inr (_, c) ↦ rw (c, After) tt
        | inl (p, c) ↦
            rw (c, After)
              (After-map (visit_path tree (add_kustomize_dependencies tree fuel) p st)
                (Visits tree p st) (Visited tree rel st) (λ st' v. (p, c, v))
                (visit_path-Visits fuel (add_kustomize_dependencies tree fuel)
                  (add_kustomize_dependencies-Sound fuel) p st (omega arith) x))
      ]

Reaches-Covers :
    (tree : Tree) (st : Found)
    → ((k : Text) → Has st.seen k → Completes tree st k)
    → {p q : Text} → Reaches tree p q
    → Covers tree st p
    → Covers tree st q
Reaches-Covers tree st done Reach.Reaches.here c = c
Reaches-Covers tree st done (Reach.Reaches.next {q = q} n r) c =
    Reaches-Covers tree st done r (done n.k (c.opened n.k n.is_dir n.finds) q n.refers)

nothing-IsIndexed : IsIndexed nothing_found
unfolding contains
nothing-IsIndexed k h = h

not-Has-nothing : (k : Text) → contains [] k ≡ true → ⊥
unfolding contains
not-Has-nothing k h = cc

After-some : (r : Run) (P : Found → Type 0) (st : Found) → After r P → r ≡ some (ok st) → P st
After-some none P st a e = absurd a
After-some (some (err f)) P st a e = cc
After-some (some (ok st')) P st a e = subst P (ok-injective st' st (some-injective _ _ e)) a

After-returns : (r : Run) (P : Found → Type 0) → After r P → (o : Outcome Found) × (r ≡ some o)
After-returns none P a = absurd a
After-returns (some o) P a = (o, refl)

run_top :
    (tree : Tree) (universe : List Text)
    → IsUniverse tree universe
    → (fuel : ℕ) (rel : Text) → length universe < fuel
    → After
        (add_kustomize_dependencies tree fuel rel nothing_found)
        (Visited tree rel nothing_found)
run_top tree universe finite fuel rel h =
    add_kustomize_dependencies-Sound tree universe finite fuel rel nothing_found
      (omega (arith, unseen-le universe [])) nothing-IsIndexed

-- In a tree with finitely many kustomizations the recursion of `addKustomizeDependencies` ends:
-- started with empty maps, on fuel above their number, it returns a result or an error, also where
-- kustomizations refer to one another in a circle.
pub add_kustomize_dependencies_returns :
    (tree : Tree) (universe : List Text) (fuel : ℕ) (rel : Text)
    → IsUniverse tree universe
    → length universe < fuel
    → (o : Outcome Found) × (add_kustomize_dependencies tree fuel rel nothing_found ≡ some o)
add_kustomize_dependencies_returns tree universe fuel rel finite h =
    After-returns _ _ (run_top tree universe finite fuel rel h)

-- Where `addKustomizeDependencies`, started with empty maps on that fuel, returns without an
-- error, its map of files holds exactly the files that the path depends on: those that are found
-- from it along any chain of references of kustomizations.
pub add_kustomize_dependencies_exact :
    (tree : Tree) (universe : List Text) (fuel : ℕ) (rel : Text) (st : Found)
    → IsUniverse tree universe
    → length universe < fuel
    → add_kustomize_dependencies tree fuel rel nothing_found ≡ some (ok st)
    → (p : Text) × (clean_repo_rel rel ≡ ok p)
      × ((f : Text) → (contains st.files f ≡ true) ↔ Depends tree p f)
add_kustomize_dependencies_exact tree universe fuel rel st finite h e =
    let (p, c, v) = After-some _ _ st (run_top tree universe finite fuel rel h) e in
    (
      p,
      c,
      λ f. (
        (λ has. elim (v.sound f has) [ inl old ↦ absurd (not-Has-nothing f old) | inr d ↦ d ]),
        (λ d.
            (Reaches-Covers tree st
                (λ k seen. elim (v.complete k seen) [
                  | inl old ↦ absurd (not-Has-nothing k old)
                  | inr done ↦ done
                ])
                d.reaches (v.goal p refl)).direct
              f d.direct),
      ),
    )

find_is_regular :
    (tree : Tree) (dir : Text) (names : List Text) (k : Text)
    → first_regular tree dir names ≡ some k
    → is_regular tree k ≡ true
unfolding first_regular
find_is_regular tree dir [] k e = absurd (ground arith)
find_is_regular tree dir (name ∷ names) k e =
    elim (Bool-cases (is_regular tree (join_paths dir name))) [
      | inl r ↦
          subst (λ p. is_regular tree p ≡ true) (some-injective (join_paths dir name) k (rw r at e))
            r
      | inr r ↦ find_is_regular tree dir names k (rw r at e)
    ]

-- A list of all regular files of the tree will do.
pub IsUniverse-of_files :
    (tree : Tree) (files : List Text)
    → ((p : Text) → is_regular tree p ≡ true → contains files p ≡ true)
    → IsUniverse tree files
unfolding find_kustomization_file
IsUniverse-of_files tree files all dir k e = all k (
    find_is_regular tree dir
      (lit "kustomization.yaml" ∷ lit "kustomization.yml" ∷ lit "Kustomization" ∷ []) k e)
