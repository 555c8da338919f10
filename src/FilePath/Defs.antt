-- ===== src/FilePath/Defs.antt =====
-- filepath: Clean, Join, Ext, Base, Dir, Split and IsAbs.
use mathlib.Core.List.{reverse}
use gonic.Base.{
  ℕ, Bool, true, false, not, ◌&&◌, ◌||◌, List, [], ◌∷◌, ◌++◌, Str, codes, str_eq, any, ◌==◌,
  if◌then◌else◌,
}

abbrev pub slash : ℕ
slash = b'/'

abbrev pub cons_first : ℕ → List Str → List Str
cons_first c [] = (c ∷ []) ∷ []
cons_first c (p ∷ ps) = (c ∷ p) ∷ ps

-- The parts between separators; there is always one.
unfoldable pub split_on : ℕ → Str → List Str
split_on sep [] = [] ∷ []
split_on sep (c ∷ s) =
    let parts = split_on sep s in if c == sep then [] ∷ parts else cons_first c parts

-- Each part behind a slash.
unfoldable pub separated : List Str → Str
separated [] = []
separated (p ∷ ps) = slash ∷ (p ++ separated ps)

abbrev pub join_slash : List Str → Str
join_slash [] = []
join_slash (p ∷ ps) = p ++ separated ps

abbrev pub dot : Str
dot = codes "."

abbrev pub dot_dot : Str
dot_dot = codes ".."

abbrev pub is_abs : Str → Bool
is_abs [] = false
is_abs (c ∷ s) = c == slash

-- `..` under the parts that stand before it, the last one first.
abbrev pub ascend : Bool → List Str → List Str
ascend rooted [] = if rooted then [] else dot_dot ∷ []
ascend rooted (q ∷ qs) = if str_eq q dot_dot then dot_dot ∷ q ∷ qs else qs

abbrev pub descend : Bool → List Str → Str → List Str
descend rooted qs p =
    if str_eq p [] || str_eq p dot
    then qs
    else if str_eq p dot_dot
    then ascend rooted qs
    else p ∷ qs

unfoldable pub resolve : Bool → List Str → List Str → List Str
resolve rooted qs [] = qs
resolve rooted qs (p ∷ ps) = resolve rooted (descend rooted qs p) ps

abbrev pub render : Bool → List Str → Str
render true ps = slash ∷ join_slash ps
render false [] = dot
render false (p ∷ ps) = join_slash (p ∷ ps)

-- filepath.Clean
unfoldable pub clean : Str → Str
unfolding resolve split_on separated
clean s = render (is_abs s) (reverse (resolve (is_abs s) [] (split_on slash s)))

-- filepath.Join of two elements
unfoldable pub join : Str → Str → Str
join [] [] = []
join [] (c ∷ t) = clean (c ∷ t)
join (c ∷ s) [] = clean (c ∷ s)
join (c ∷ s) (d ∷ t) = clean ((c ∷ s) ++ slash ∷ d ∷ t)

-- What begins with the last dot of the last element; `e` is that of `s`.
unfoldable pub ext_step : ℕ → Str → Str → Str
ext_step c s (d ∷ e) = d ∷ e
ext_step c s [] = if c == b'.' && not (any (λ d. d == slash) s) then c ∷ s else []

-- filepath.Ext
unfoldable pub ext : Str → Str
unfolding ext_step
ext [] = []
ext (c ∷ s) = ext_step c s (ext s)
