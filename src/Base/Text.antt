-- ===== src/Base/Text.antt =====
-- Go strings as lists of bytes, with what the program uses of the package strings. White space
-- is that of ASCII: the multi-byte white space that TrimSpace also removes is not read as space.
use Prim.Native.Nat.{ℕ, ◌+◌}
use Prim.Native.Char.{code}
use Prim.Native.String.{String}
use mathlib.Core.Path.{◌≡◌, refl, ◌∙◌}
use mathlib.Core.Logic.{◌↔◌}
use mathlib.Core.Bool.{Bool, true, false, ◌&&◌, ◌||◌}
use mathlib.Core.Option.{Option, none, some}
use mathlib.Core.List.{List, [], ◌∷◌, ◌++◌, map, reverse, reverse_aux}
use native.Mathlib.Omega.{arith}
use idpbuilder.Base.Tests.{leb, eqb, if◌then◌else◌}
use idpbuilder.Base.Lists.{length, drop}

abbrev pub Text : Type 0
Text = List ℕ

-- A literal: its bytes, as it is ASCII.
abbrev pub lit : String → Text
lit String.[] = []
lit (String.◌∷◌ c s) = code c ∷ lit s

infix 50 ◌==◌
unfoldable pub ◌==◌ : Text → Text → Bool
◌==◌ [] [] = true
◌==◌ [] (b ∷ t) = false
◌==◌ (a ∷ s) [] = false
◌==◌ (a ∷ s) (b ∷ t) = eqb a b && (s == t)

pub ==_iff : (s t : Text) → ((s == t) ≡ true) ↔ (s ≡ t)
unfolding ◌==◌
==_iff [] [] = (λ _. refl, λ _. refl)
==_iff [] (b ∷ t) = (λ h. cc, λ h. cc)
==_iff (a ∷ s) [] = (λ h. cc, λ h. cc)
==_iff (a ∷ s) (b ∷ t) = ground (arith, ==_iff s t)

pub ==_self : (s : Text) → (s == s) ≡ true
==_self s = (==_iff s s).1 refl

unfoldable pub has_prefix : (s p : Text) → Bool
has_prefix s [] = true
has_prefix [] (b ∷ p) = false
has_prefix (a ∷ s) (b ∷ p) = eqb a b && has_prefix s p

unfoldable pub has_suffix : (s p : Text) → Bool
unfolding has_prefix
has_suffix s p = has_prefix (reverse s) (reverse p)

-- strings.Contains
unfoldable pub has_infix : (s p : Text) → Bool
unfolding has_prefix
has_infix [] p = has_prefix [] p
has_infix (a ∷ s) p = has_prefix (a ∷ s) p || has_infix s p

unfoldable pub trim_prefix : (s p : Text) → Text
unfolding has_prefix
trim_prefix s p = if has_prefix s p then drop (length p) s else s

unfoldable pub trim_suffix : (s p : Text) → Text
unfolding trim_prefix
trim_suffix s p = reverse (trim_prefix (reverse s) (reverse p))

abbrev pub is_space : ℕ → Bool
is_space c = eqb c 32 || (leb 9 c && leb c 13)

-- strings.TrimLeftFunc
unfoldable pub trim_left : (ℕ → Bool) → Text → Text
trim_left p [] = []
trim_left p (c ∷ s) = elim (p c) [ true ↦ trim_left p s | false ↦ c ∷ s ]

unfoldable pub trim_space : Text → Text
unfolding trim_left
trim_space s = reverse (trim_left is_space (reverse (trim_left is_space s)))

abbrev pub lower : ℕ → ℕ
lower c = if leb 65 c && leb c 90 then c + 32 else c

-- strings.ToLower, on ASCII.
unfoldable pub to_lower : Text → Text
to_lower = map lower

abbrev pub in_part : ℕ → Text × Option Text → Text × Option Text
in_part c (before, after) = (c ∷ before, after)

-- strings.Cut at a byte: what stands before it and, where it occurs, what stands after it.
unfoldable pub cut : ℕ → Text → Text × Option Text
cut sep [] = ([], none)
cut sep (c ∷ s) = let rest = in_part c (cut sep s) in if eqb c sep then ([], some s) else rest

abbrev pub into_first : ℕ → List Text → List Text
into_first c [] = (c ∷ []) ∷ []
into_first c (p ∷ ps) = (c ∷ p) ∷ ps

-- strings.Split at a byte.
unfoldable pub split : ℕ → Text → List Text
split sep [] = [] ∷ []
split sep (c ∷ s) = let rest = split sep s in if eqb c sep then [] ∷ rest else into_first c rest

-- strings.Join
unfoldable pub join : Text → List Text → Text
join sep [] = []
join sep (p ∷ []) = p
join sep (p ∷ q ∷ ps) = p ++ (sep ++ join sep (q ∷ ps))

-- strings.IndexByte(s, b) >= 0
abbrev pub has_byte : ℕ → Text → Bool
has_byte b [] = false
has_byte b (c ∷ s) = eqb c b || has_byte b s

pub has_byte-append : (b : ℕ) (s t : Text) → has_byte b (s ++ t) ≡ (has_byte b s || has_byte b t)
has_byte-append b [] t = refl
has_byte-append b (c ∷ s) t = ground (arith, has_byte-append b s t)

has_byte-reverse_aux :
    (b : ℕ) (s t : Text) → has_byte b (reverse_aux s t) ≡ (has_byte b s || has_byte b t)
has_byte-reverse_aux b [] t = refl
has_byte-reverse_aux b (c ∷ s) t = ground (arith, has_byte-reverse_aux b s (c ∷ t))

has_byte-reverse : (b : ℕ) (s : Text) → has_byte b (reverse s) ≡ has_byte b s
has_byte-reverse b s = ground (arith, has_byte-reverse_aux b s [])

has_byte-trim_left :
    (b : ℕ) (p : ℕ → Bool) (s : Text)
    → p b ≡ false
    → has_byte b s ≡ true
    → has_byte b (trim_left p s) ≡ true
unfolding trim_left
has_byte-trim_left b p [] keeps h = cc
has_byte-trim_left b p (c ∷ s) keeps h = ground (arith, has_byte-trim_left b p s)

-- A byte that is no white space survives TrimSpace.
pub has_byte-trim_space :
    (b : ℕ) (s : Text) → is_space b ≡ false → has_byte b s ≡ true → has_byte b (trim_space s) ≡ true
unfolding trim_space
has_byte-trim_space b s keeps h =
    let t = trim_left is_space s in
    has_byte-reverse b (trim_left is_space (reverse t))
    ∙ has_byte-trim_left b is_space (reverse t) keeps
        (has_byte-reverse b t ∙ has_byte-trim_left b is_space s keeps h)

pub has_byte-to_lower_eq : (s : Text) → has_byte 61 s ≡ true → has_byte 61 (to_lower s) ≡ true
unfolding to_lower
has_byte-to_lower_eq [] h = cc
has_byte-to_lower_eq (c ∷ s) h = ground (arith, has_byte-to_lower_eq s)
