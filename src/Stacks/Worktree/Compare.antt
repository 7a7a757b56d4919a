-- ===== src/Stacks/Worktree/Compare.antt =====
-- Files that are read in buffers compare as their bytes do.
use idpbuilder.Base.{
  ◌≡◌, refl, sym, ◌∙◌, ap, true, false, ℕ, zero, suc, ◌<◌, ◌≤◌, [], ◌∷◌, ◌++◌, inl, inr, Bool-cases,
  some, arith, length, take, drop,
}
use idpbuilder.Base.Text.{Text, ◌==◌, ==_iff}
use idpbuilder.Stacks.Worktree.{chunks_equal, regular_files_equal, or_false}

append-take-drop : (k : ℕ) (xs : Text) → take k xs ++ drop k xs ≡ xs
append-take-drop zero xs = refl
append-take-drop (suc k) [] = refl
append-take-drop (suc k) (x ∷ xs) = ap (◌∷◌ x) (append-take-drop k xs)

length-drop : (k : ℕ) (xs : Text) → length (drop k xs) ≤ length xs
length-drop zero xs = omega arith
length-drop (suc k) [] = omega arith
length-drop (suc k) (x ∷ xs) = omega (arith, length-drop k xs)

-- Files with the same first chunk compare as what follows it.
drop_equal : (k : ℕ) (a b : Text) → take k a ≡ take k b → (drop k a == drop k b) ≡ (a == b)
drop_equal k a b t = elim (Bool-cases (drop k a == drop k b)) [
  | inl e ↦
      let d : drop k a ≡ drop k b = (==_iff (drop k a) (drop k b)).0 e in
      let whole : a ≡ b =
        sym (append-take-drop k a)
        ∙ ap (λ x. x ++ drop k a) t
        ∙ ap (λ x. take k b ++ x) d
        ∙ append-take-drop k b in
      e ∙ sym ((==_iff a b).1 whole)
  | inr e ↦ elim (Bool-cases (a == b)) [
    | inl f ↦ (==_iff (drop k a) (drop k b)).1 (ap (drop k) ((==_iff a b).0 f)) ∙ sym f
    | inr f ↦ e ∙ sym f
  ]
]

-- An empty chunk is the end of both files.
ended :
    (k : ℕ) (a b : Text) → take (suc k) a ≡ [] → take (suc k) a ≡ take (suc k) b → (a == b) ≡ true
unfolding ◌==◌
ended k [] [] e t = refl
ended k [] (y ∷ b) e t = cc
ended k (x ∷ a) b e t = cc

shorter :
    (k : ℕ) (a : Text) (fuel : ℕ)
    → (take (suc k) a == []) ≡ false
    → length a < suc fuel
    → length (drop (suc k) a) < fuel
unfolding ◌==◌
shorter k [] fuel e h = cc
shorter k (x ∷ a) fuel e h = omega (arith, length-drop k a)

pub chunks_equal-eq :
    (fuel k : ℕ) (a b : Text) → length a < fuel → chunks_equal fuel (suc k) a b ≡ some (a == b)
unfolding chunks_equal
chunks_equal-eq zero k a b h = absurd (omega arith)
chunks_equal-eq (suc fuel) k a b h = elim (Bool-cases (take (suc k) a == take (suc k) b)) [
  | inr e ↦
      let differ : (a == b) ≡ false = elim (Bool-cases (a == b)) [
        | inl f ↦ absurd (
            ground (
              arith,
              e,
              (==_iff (take (suc k) a) (take (suc k) b)).1 (ap (take (suc k)) ((==_iff a b).0 f)),
            ))
        | inr f ↦ f
      ] in
      rw (e, differ) refl
  | inl e ↦
      let t = (==_iff (take (suc k) a) (take (suc k) b)).0 e in
      elim (Bool-cases (take (suc k) a == [])) [
        | inl f ↦ rw (e, f, ended k a b ((==_iff (take (suc k) a) []).0 f) t) refl
        | inr f ↦
            rw (e, f)
              (chunks_equal-eq fuel k (drop (suc k) a) (drop (suc k) b) (shorter k a fuel f h)
                ∙ ap some (drop_equal (suc k) a b t))
      ]
]

-- `regularFilesEqual` is true exactly of files with the same bytes, whatever their lengths.
pub regular_files_equal-eq : (a b : Text) → regular_files_equal a b ≡ (a == b)
unfolding regular_files_equal
regular_files_equal-eq a b = ap or_false (chunks_equal-eq (suc (length a)) 32767 a b (omega arith))
