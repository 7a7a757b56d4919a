-- ===== src/Stacks/Kustomize/Progress.antt =====
-- What one visit of the traversal adds to its maps, and that such additions compose.
use idpbuilder.Base.{◌≡◌, ◌⊎◌, inl, inr, true, List, ◌∷◌, none, some, ok, err, arith, Bool-cases}
use idpbuilder.Base.Text.{Text, ◌==◌, ==_iff, ==_self}
use idpbuilder.Base.Names.{contains, add_key, contains-add_key}
use idpbuilder.Stacks.Kustomize.{Tree, Found, Run, then_run, wrap_run, find_kustomization_file}
use idpbuilder.Stacks.Kustomize.Reach.{Direct, Refers}

abbrev pub Has : List Text → Text → Type 0
Has s k = contains s k ≡ true

pub record Extends (st st' : Found) : Type 0 where
  pub files : (f : Text) → Has st.files f → Has st'.files f
  pub seen : (k : Text) → Has st.seen k → Has st'.seen k

-- A kustomization that was seen is indexed.
abbrev pub IsIndexed : Found → Type 0
IsIndexed st = (k : Text) → Has st.seen k → Has st.files k

module _ (tree : Tree) where
  -- What `q` stands for is in the maps.
  pub record Covers (st : Found) (q : Text) : Type 0 where
    pub direct : (f : Text) → Direct tree q f → Has st.files f
    pub opened :
        (k : Text) → tree.stat q ≡ ok true → find_kustomization_file tree q ≡ some k → Has st.seen k

  -- Each path that `k` refers to is in the maps.
  abbrev pub Completes : Found → Text → Type 0
  Completes st k = (q : Text) → Refers tree k q → Covers st q

  pub record Progress (Goal Source : Text → Type 0) (st st' : Found) : Type 0 where
    pub extends : Extends st st'
    pub indexed : IsIndexed st → IsIndexed st'
    pub goal : (q : Text) → Goal q → Covers st' q
    pub complete : (k : Text) → Has st'.seen k → Has st.seen k ⊎ Completes st' k
    pub sound : (f : Text) → Has st'.files f → Has st.files f ⊎ Source f

  pub Covers-Extends : {st st' : Found} (q : Text) → Extends st st' → Covers st q → Covers st' q
  Covers-Extends q e c = record {
    direct = λ f d. e.files f (c.direct f d);
    opened = λ k is_dir finds. e.seen k (c.opened k is_dir finds);
  }

-- The result of a run that has fuel enough: an error, or maps with the property.
abbrev pub After : Run → (Found → Type 0) → Type 0
After none P = ⊥
After (some (err e)) P = Unit
After (some (ok st)) P = P st

pub After-then :
    (r : Run) (f : Found → Run) (P Q : Found → Type 0)
    → After r P
    → ((st : Found) → P st → After (f st) Q)
    → After (then_run r f) Q
After-then none f P Q a k = absurd a
After-then (some (err e)) f P Q a k = tt
After-then (some (ok st)) f P Q a k = k st a

pub After-wrap : (t : Text) (r : Run) (P : Found → Type 0) → After r P → After (wrap_run t r) P
After-wrap t none P a = a
After-wrap t (some (err e)) P a = tt
After-wrap t (some (ok st)) P a = a

pub After-map :
    (r : Run) (P Q : Found → Type 0) → ((st : Found) → P st → Q st) → After r P → After r Q
After-map none P Q f a = a
After-map (some (err e)) P Q f a = tt
After-map (some (ok st)) P Q f a = f st a

pub Has-cons : (x : Text) (xs : List Text) (k : Text) → Has (x ∷ xs) k → (k ≡ x) ⊎ Has xs k
unfolding contains
Has-cons x xs k h = elim (Bool-cases (k == x)) [
  | inl e ↦ inl ((==_iff k x).0 e)
  | inr e ↦ inr (rw e at h)
]

pub Has-add_key : (s : List Text) (j k : Text) → Has (add_key k s) j → (j ≡ k) ⊎ Has s j
Has-add_key s j k h = elim (Bool-cases (j == k)) [
  | inl e ↦ inl ((==_iff j k).0 e)
  | inr e ↦ inr (ground (arith, contains-add_key s j k))
]

pub Has-add_key_old : (s : List Text) (j k : Text) → Has s j → Has (add_key k s) j
Has-add_key_old s j k h = ground (arith, contains-add_key s j k)

pub Has-add_key_self : (s : List Text) (k : Text) → Has (add_key k s) k
Has-add_key_self s k = ground (arith, contains-add_key s k k, ==_self k)

module _ (tree : Tree) {G G' G'' S S' S'' : Text → Type 0} {st st' st'' : Found} where
  pub Progress-trans :
      Progress tree G S st st'
      → Progress tree G' S' st' st''
      → ((q : Text) → G'' q → G q ⊎ G' q)
      → ((f : Text) → S f → S'' f)
      → ((f : Text) → S' f → S'' f)
      → Progress tree G'' S'' st st''
  Progress-trans a b goals old new = record {
    extends = record {
      files = λ f h. b.extends.files f (a.extends.files f h);
      seen = λ k h. b.extends.seen k (a.extends.seen k h);
    };
    indexed = λ h. b.indexed (a.indexed h);
    goal = λ q g. elim (goals q g) [
      | inl x ↦ Covers-Extends tree q b.extends (a.goal q x)
      | inr y ↦ b.goal q y
    ];
    complete = λ k h. elim (b.complete k h) [
      | inl x ↦ elim (a.complete k x) [
        | inl y ↦ inl y
        | inr c ↦ inr (λ q r. Covers-Extends tree q b.extends (c q r))
      ]
      | inr c ↦ inr c
    ];
    sound = λ f h. elim (b.sound f h) [
      | inl x ↦ elim (a.sound f x) [ inl y ↦ inl y | inr s ↦ inr (old f s) ]
      | inr s ↦ inr (new f s)
    ];
  }

pub Progress-refl :
    (tree : Tree) {G S : Text → Type 0} (st : Found)
    → ((q : Text) → G q → Covers tree st q)
    → Progress tree G S st st
Progress-refl tree st goal = record {
  extends = record { files = λ f h. h; seen = λ k h. h };
  indexed = λ h. h;
  goal = goal;
  complete = λ k h. inl h;
  sound = λ f h. inl h;
}
