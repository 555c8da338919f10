-- ===== src/Base/Text.antt =====
-- Go strings as lists of code points, with the functions of `strings` that gonic calls.
use Prim.Native.Nat.{ℕ}
use Prim.Native.Char.{code}
use Prim.Native.String.{String}
use mathlib.Core.Bool.{Bool, true, false, ◌&&◌, ◌||◌}
use mathlib.Core.List.{List, [], ◌∷◌, ◌++◌}
use mathlib.Core.Logic.{◌↔◌, ◌≢◌, ◌⊎◌, inl, inr}
use mathlib.Core.Option.{Option, none, some}
use mathlib.Core.Path.{◌≡◌, refl}
use native.Mathlib.Omega.{arith}
use gonic.Base.Tests.{◌==◌, leb, if◌then◌else◌, Bool-cases}
use gonic.Base.Lists.{length, All, drop}

abbrev pub Str : Type 0
Str = List ℕ

abbrev pub codes : String → Str
codes String.[] = []
codes (String.◌∷◌ c s) = code c ∷ codes s

unfoldable pub str_eq : Str → Str → Bool
str_eq [] [] = true
str_eq [] (c ∷ t) = false
str_eq (c ∷ s) [] = false
str_eq (c ∷ s) (d ∷ t) = c == d && str_eq s t

pub str_eq→eq : (s t : Str) → str_eq s t ≡ true → s ≡ t
unfolding str_eq
str_eq→eq [] [] h = refl
str_eq→eq [] (c ∷ t) h = cc
str_eq→eq (c ∷ s) [] h = cc
str_eq→eq (c ∷ s) (d ∷ t) h = ground (arith, str_eq→eq s t)

pub str_eq_refl : (s : Str) → str_eq s s ≡ true
unfolding str_eq
str_eq_refl [] = refl
str_eq_refl (c ∷ s) = ground (arith, str_eq_refl s)

pub str_eq_iff : (s t : Str) → (str_eq s t ≡ true) ↔ (s ≡ t)
str_eq_iff s t = (str_eq→eq s t, λ e. rw e (str_eq_refl t))

pub str_eq-false : (s t : Str) → s ≢ t → str_eq s t ≡ false
str_eq-false s t h = elim (Bool-cases (str_eq s t)) [
  | inl e ↦ absurd (h (str_eq→eq s t e))
  | inr e ↦ e
]

pub str_eq_cases : (s t : Str) → (s ≡ t) ⊎ (s ≢ t)
str_eq_cases s t = elim (Bool-cases (str_eq s t)) [
  | inl e ↦ inl (str_eq→eq s t e)
  | inr e ↦ inr (λ q. ground (arith, str_eq_iff s t))
]

-- strings.HasPrefix
unfoldable pub has_prefix : Str → Str → Bool
has_prefix s [] = true
has_prefix [] (c ∷ p) = false
has_prefix (d ∷ s) (c ∷ p) = d == c && has_prefix s p

pub has_prefix-nil : (s : Str) → has_prefix s [] ≡ true
unfolding has_prefix
has_prefix-nil [] = refl
has_prefix-nil (_ ∷ _) = refl

pub has_prefix_append : (p s : Str) → has_prefix (p ++ s) p ≡ true
unfolding has_prefix
has_prefix_append [] [] = refl
has_prefix_append [] (_ ∷ _) = refl
has_prefix_append (c ∷ p) s = ground (arith, has_prefix_append p s)

pub has_prefix→append : (s p : Str) → has_prefix s p ≡ true → (rest : Str) × (s ≡ p ++ rest)
unfolding has_prefix
has_prefix→append s [] h = (s, refl)
has_prefix→append [] (c ∷ p) h = cc
has_prefix→append (d ∷ s) (c ∷ p) h =
    let (rest, e) = has_prefix→append s p (ground arith) in (rest, ground arith)

-- strings.TrimPrefix
unfoldable pub trim_prefix : Str → Str → Str
unfolding has_prefix
trim_prefix s p = if has_prefix s p then drop (length p) s else s

-- strings.Cut at a separator of one character: the text before it and the text behind it.
unfoldable pub cut : Str → ℕ → Option (Str × Str)
cut [] sep = none
cut (c ∷ s) sep =
    if c == sep
    then some ([], s)
    else elim (cut s sep) [ none ↦ none | some (before, behind) ↦ some (c ∷ before, behind) ]

abbrev pub Lacks : ℕ → Str → Type 0
Lacks sep = All (λ c. c ≢ sep)

pub cut-append : (p s : Str) (sep : ℕ) → Lacks sep p → cut (p ++ sep ∷ s) sep ≡ some (p, s)
unfolding cut
cut-append [] s sep _ = ground arith
cut-append (c ∷ p) s sep h = ground (arith, cut-append p s sep h.1)

pub cut_sound : (t p s : Str) (sep : ℕ) → cut t sep ≡ some (p, s) → (t ≡ p ++ sep ∷ s) × Lacks sep p
unfolding cut
cut_sound [] p s sep h = cc
cut_sound (c ∷ t) [] s sep h = ground arith
cut_sound (c ∷ t) (d ∷ p) s sep h = ground (arith, cut_sound t p s sep)

pub cut-none : (t : Str) (sep : ℕ) → cut t sep ≡ none → Lacks sep t
unfolding cut
cut-none [] sep h = tt
cut-none (c ∷ t) sep h = (ground arith, cut-none t sep (ground arith))

-- unicode.IsSpace
abbrev pub is_space : ℕ → Bool
is_space c =
    (leb 9 c && leb c 13)
    || c == 32
    || c == 0x85
    || c == 0xA0
    || c == 0x1680
    || (leb 0x2000 c && leb c 0x200a)
    || c == 0x2028
    || c == 0x2029
    || c == 0x202f
    || c == 0x205f
    || c == 0x3000

unfoldable pub trim_left : Str → Str
trim_left [] = []
trim_left (c ∷ s) = let rest = trim_left s in if is_space c then rest else c ∷ s

unfoldable pub trim_right : Str → Str
trim_right [] = []
trim_right (c ∷ s) = elim (trim_right s) [
  | [] ↦ if is_space c then [] else c ∷ []
  | d ∷ r ↦ c ∷ d ∷ r
]

-- strings.TrimSpace
unfoldable pub trim_space : Str → Str
unfolding trim_left trim_right
trim_space s = trim_right (trim_left s)
