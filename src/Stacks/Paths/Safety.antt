-- ===== src/Stacks/Paths/Safety.antt =====
-- What cleanRepoRel accepts, told by a walk from the root of the repository.
use idpbuilder.Base.{
  ◌≡◌, refl, sym, ◌∙◌, Bool, true, false, ◌||◌, List, [], ◌∷◌, ◌++◌, reverse, arith, Option, none,
  some, if◌then◌else◌, All, Outcome, ok, eqb, ℕ, Bool-cases, inl, inr,
}
use idpbuilder.Base.Text.{
  has_byte, Text, ◌==◌, ==_iff, lit, split, into_first, join, has_prefix, trim_space,
}
use idpbuilder.Stacks.Paths.{slash, is_abs, pop, clean_elements, escapes, clean_repo_rel}
use mathlib.Core.List.{reverse_aux}

-- A name of a file or a directory: not empty, not "." or "..", and without a slash.
abbrev pub IsPlain : Text → Type 0
IsPlain c =
    ((c == lit "") ≡ false)
    × ((c == lit ".") ≡ false)
    × ((c == lit "..") ≡ false)
    × (has_byte 47 c ≡ false)

-- One step of the walk: `visited` is where it stands, the innermost directory first. It fails
-- above the root.
abbrev stride : List Text → Text → Option (List Text)
stride visited part =
    if part == lit "" || part == lit "."
    then some visited
    else if part == lit ".."
    then elim visited [ [] ↦ none | top ∷ above ↦ some above ]
    else some (part ∷ visited)

unfoldable pub walk : List Text → List Text → Option (List Text)
walk visited [] = some (reverse visited)
walk visited (part ∷ parts) = elim (stride visited part) [
  | none ↦ none
  | some visited' ↦ walk visited' parts
]

abbrev pub reached : Option (List Text) → Outcome Text
reached none = escapes
reached (some []) = escapes
reached (some (c ∷ cs)) = ok (join slash (c ∷ cs))

-- The elements kept so far end in "..": the path has left the root, and does not come back.
abbrev IsOutside : List Text → Type 0
IsOutside [] = ⊥
IsOutside (x ∷ []) = x ≡ lit ".."
IsOutside (x ∷ y ∷ ys) = IsOutside (y ∷ ys)

-- What Clean keeps agrees with the walk.
abbrev Agrees : Option (List Text) → List Text → Type 0
Agrees none out = (rest : List Text) × (out ≡ lit ".." ∷ rest)
Agrees (some cs) out = (out ≡ cs) × All IsPlain cs

reverse_aux-IsOutside :
    (kept acc : List Text)
    → IsOutside kept
    → (rest : List Text) × (reverse_aux kept acc ≡ lit ".." ∷ rest)
reverse_aux-IsOutside [] acc h = absurd h
reverse_aux-IsOutside (x ∷ []) acc h = (acc, rw h refl)
reverse_aux-IsOutside (x ∷ y ∷ ys) acc h = reverse_aux-IsOutside (y ∷ ys) (x ∷ acc) h

reverse_aux-All :
    (kept acc : List Text) → All IsPlain kept → All IsPlain acc → All IsPlain (reverse_aux kept acc)
reverse_aux-All [] acc h k = k
reverse_aux-All (x ∷ xs) acc (p, h) k = reverse_aux-All xs (x ∷ acc) h (p, k)

pop-IsOutside : (kept : List Text) → IsOutside kept → IsOutside (pop false kept)
unfolding pop
pop-IsOutside [] h = absurd h
pop-IsOutside (x ∷ []) h = ground (arith, ==_iff x (lit ".."))
pop-IsOutside (x ∷ y ∷ ys) h = ground arith

push-IsOutside : (x : Text) (kept : List Text) → IsOutside kept → IsOutside (x ∷ kept)
push-IsOutside x [] h = absurd h
push-IsOutside x (y ∷ ys) h = h

clean_elements-outside :
    (parts kept : List Text)
    → IsOutside kept
    → (rest : List Text) × (clean_elements false kept parts ≡ lit ".." ∷ rest)
unfolding clean_elements
clean_elements-outside [] kept h = reverse_aux-IsOutside kept [] h
clean_elements-outside (part ∷ parts) kept h =
    clean_elements-outside parts _
      (ground (arith, pop-IsOutside kept h, push-IsOutside part kept h))

-- A part between two slashes.
abbrev IsPart : Text → Type 0
IsPart part = has_byte 47 part ≡ false

into_first-IsPart :
    (c : ℕ) (ps : List Text) → eqb c 47 ≡ false → All IsPart ps → All IsPart (into_first c ps)
into_first-IsPart c [] h k = (rw h refl, tt)
into_first-IsPart c (p ∷ ps) h (k, ks) = (rw h k, ks)

split-IsPart : (s : Text) → All IsPart (split 47 s)
unfolding split
split-IsPart [] = (refl, tt)
split-IsPart (c ∷ s) = elim (Bool-cases (eqb c 47)) [
  | inl e ↦ rw e (refl, split-IsPart s)
  | inr e ↦ rw e (into_first-IsPart c (split 47 s) e (split-IsPart s))
]

pop-IsPlain : (x : Text) (xs : List Text) → All IsPlain (x ∷ xs) → pop false (x ∷ xs) ≡ xs
unfolding pop
pop-IsPlain x xs h = rw (h.0.2)

plain :
    (part : Text)
    → (part == lit "" || part == lit ".") ≡ false
    → (part == lit "..") ≡ false
    → IsPart part
    → IsPlain part
plain part e f p = ground arith

clean_elements-Agrees :
    (parts kept : List Text)
    → All IsPart parts
    → All IsPlain kept
    → Agrees (walk kept parts) (clean_elements false kept parts)
unfolding clean_elements walk
clean_elements-Agrees [] kept ps ks = (refl, reverse_aux-All kept [] ks tt)
clean_elements-Agrees (part ∷ parts) [] (p, ps) ks =
    elim (Bool-cases (part == lit "" || part == lit ".")) [
      | inl e ↦ rw (e, walk) (clean_elements-Agrees parts [] ps ks)
      | inr e ↦ elim (Bool-cases (part == lit "..")) [
        | inl f ↦ rw (e, f, walk) (clean_elements-outside parts (lit ".." ∷ []) refl)
        | inr f ↦
            rw (e, f, walk) (clean_elements-Agrees parts (part ∷ []) ps (plain part e f p, tt))
      ]
    ]
clean_elements-Agrees (part ∷ parts) (top ∷ above) (p, ps) ks =
    elim (Bool-cases (part == lit "" || part == lit ".")) [
      | inl e ↦ rw (e, walk) (clean_elements-Agrees parts (top ∷ above) ps ks)
      | inr e ↦ elim (Bool-cases (part == lit "..")) [
        | inl f ↦
            rw (e, f, walk)
              (rw (pop-IsPlain top above ks) (clean_elements-Agrees parts above ps ks.1))
        | inr f ↦
            rw (e, f, walk)
              (clean_elements-Agrees parts (part ∷ top ∷ above) ps (plain part e f p, ks))
      ]
    ]

-- The tests of cleanRepoRel on a cleaned path.
refused : Text → Bool
refused path =
    path == lit "."
    || path == lit ""
    || is_abs path
    || path == lit ".."
    || has_prefix path (lit "../")

-- No path of plain names is refused.
refused-plain :
    (c : Text) (cs : List Text) → All IsPlain (c ∷ cs) → refused (join slash (c ∷ cs)) ≡ false
unfolding refused join is_abs has_prefix ◌==◌
refused-plain c [] h = ground (arith)
refused-plain [] (d ∷ cs) h = cc
refused-plain (a ∷ []) (d ∷ cs) h = ground arith
refused-plain (a ∷ b ∷ []) (d ∷ cs) h = ground arith
refused-plain (a ∷ b ∷ c ∷ r) (d ∷ cs) h = ground arith

join-plain-ne :
    (c : Text) (cs : List Text) → All IsPlain (c ∷ cs) → (join slash (c ∷ cs) == lit "") ≡ false
unfolding join ◌==◌
join-plain-ne c [] h = h.0.0
join-plain-ne [] (d ∷ cs) h = cc
join-plain-ne (a ∷ c) (d ∷ cs) h = refl

join-outside-ne : (rest : List Text) → (join slash (lit ".." ∷ rest) == lit "") ≡ false
unfolding join ◌==◌
join-outside-ne [] = refl
join-outside-ne (d ∷ rest) = refl

refused-outside : (rest : List Text) → refused (join slash (lit ".." ∷ rest)) ≡ true
unfolding refused join is_abs has_prefix ◌==◌
refused-outside [] = refl
refused-outside (d ∷ rest) = refl

abbrev verdict : Text → Outcome Text
verdict path = if refused path then escapes else ok path

abbrev or_dot : Text → Text
or_dot out = if out == lit "" then lit "." else out

verdict-or_dot :
    (w : Option (List Text)) (out : List Text)
    → Agrees w out
    → verdict (or_dot (join slash out)) ≡ reached w
verdict-or_dot none out (rest, e) =
    rw e (rw (join-outside-ne rest) (rw (refused-outside rest) refl))
verdict-or_dot (some []) out (e, h) = rw e (unfold refused is_abs join ◌==◌ in refl)
verdict-or_dot (some (c ∷ cs)) out (e, h) =
    rw e (rw (join-plain-ne c cs h) (rw (refused-plain c cs h) refl))

verdict-rooted : (out : Text) → verdict (slash ++ out) ≡ escapes
unfolding refused is_abs has_prefix ◌==◌
verdict-rooted out = refl

accepted-ne-escapes : {path : Text} → ok path ≡ escapes → ⊥
accepted-ne-escapes h = cc

abbrev AllReached : Option (List Text) → Type 0
AllReached none = Unit
AllReached (some cs) = All IsPlain cs

Agrees-reached : (w : Option (List Text)) (out : List Text) → Agrees w out → AllReached w
Agrees-reached none out a = tt
Agrees-reached (some cs) out a = a.1

walk-IsPlain :
    (parts visited : List Text)
    → All IsPart parts
    → All IsPlain visited
    → AllReached (walk visited parts)
walk-IsPlain parts visited ps vs = Agrees-reached _ _ (clean_elements-Agrees parts visited ps vs)

reached-inside :
    (w : Option (List Text)) (path : Text)
    → AllReached w
    → reached w ≡ ok path
    → (c : Text) × (cs : List Text) × (path ≡ join slash (c ∷ cs)) × All IsPlain (c ∷ cs)
reached-inside none path a h = cc
reached-inside (some []) path a h = cc
reached-inside (some (c ∷ cs)) path a h = (c, cs, cc, a)

-- `cleanRepoRel` accepts a path exactly when it is relative and the walk along its elements, from
-- the root of the repository, never steps above the root and does not end at it; the result is
-- then the place reached, as plain names joined by slashes, and every other path is the error.
pub clean_repo_rel-eq-walk :
    (rel : Text)
    → clean_repo_rel rel
      ≡ (if is_abs (trim_space rel) then escapes else reached (walk [] (split 47 (trim_space rel))))
unfolding clean_repo_rel refused
clean_repo_rel-eq-walk rel = elim (Bool-cases (is_abs (trim_space rel))) [
  | inl e ↦ rw e (verdict-rooted (join slash (clean_elements true [] (split 47 (trim_space rel)))))
  | inr e ↦
      rw e (verdict-or_dot _ _ (clean_elements-Agrees _ [] (split-IsPart (trim_space rel)) tt))
]

-- An accepted path stays inside the repository: it is a list of names, at least one, none of them
-- empty, "." or "..", and none holding a slash, joined by slashes.
pub clean_repo_rel-inside :
    (rel path : Text)
    → clean_repo_rel rel ≡ ok path
    → (c : Text) × (cs : List Text) × (path ≡ join slash (c ∷ cs)) × All IsPlain (c ∷ cs)
clean_repo_rel-inside rel path h = elim (Bool-cases (is_abs (trim_space rel))) [
  | inl e ↦ absurd (accepted-ne-escapes (sym h ∙ clean_repo_rel-eq-walk rel ∙ rw e refl))
  | inr e ↦
      reached-inside _ _ (walk-IsPlain _ [] (split-IsPart (trim_space rel)) tt)
        (sym (clean_repo_rel-eq-walk rel ∙ rw e refl) ∙ h)
]
