-- ===== src/FilePath/Elements.antt =====
-- filepath: Base, Dir and Rel, and strings.TrimSuffix.
use gonic.Base.{
  ◌-◌, Bool, not, List, [], ◌∷◌, ◌++◌, reverse, map, Option, none, some, Str, str_eq, has_prefix,
  drop, take, length, ◌==◌, if◌then◌else◌,
}
use gonic.FilePath.Defs.{slash, split_on, join_slash, dot, dot_dot, is_abs, clean}

-- What stands up to the last slash, with it.
unfoldable pub up_to_slash : Str → Str
up_to_slash [] = []
up_to_slash (c ∷ s) = elim (up_to_slash s) [
  | d ∷ r ↦ c ∷ d ∷ r
  | [] ↦ if c == slash then c ∷ [] else []
]

-- filepath.Dir
unfoldable pub dir : Str → Str
unfolding up_to_slash
dir s = clean (up_to_slash s)

unfoldable pub after_slash : Str → Str
unfolding up_to_slash
after_slash s = drop (length (up_to_slash s)) s

unfoldable pub drop_slashes : Str → Str
drop_slashes [] = []
drop_slashes (c ∷ s) = elim (drop_slashes s) [
  | d ∷ r ↦ c ∷ d ∷ r
  | [] ↦ if c == slash then [] else c ∷ []
]

abbrev or_slash : Str → Str
or_slash [] = slash ∷ []
or_slash (c ∷ s) = after_slash (c ∷ s)

-- filepath.Base
unfoldable pub base_name : Str → Str
unfolding drop_slashes after_slash
base_name [] = dot
base_name (c ∷ s) = or_slash (drop_slashes (c ∷ s))

-- strings.TrimSuffix
unfoldable pub trim_suffix : Str → Str → Str
trim_suffix s e = if has_prefix (reverse s) (reverse e) then take (length s - length e) s else s

abbrev rooted_elements : Str → List Str
rooted_elements [] = []
rooted_elements (c ∷ s) = split_on slash (c ∷ s)

abbrev pub elements : Str → List Str
elements [] = []
elements (c ∷ s) = if c == slash then rooted_elements s else split_on slash (c ∷ s)

abbrev pub climb : Str → List Str → List Str → Option Str
climb x xs ys =
    if str_eq x dot_dot then none else some (join_slash (map (λ p. dot_dot) (x ∷ xs) ++ ys))

-- What is left of two lists of elements behind their common front.
unfoldable pub rel_elements : List Str → List Str → Option Str
rel_elements [] ys = some (join_slash ys)
rel_elements (x ∷ xs) [] = climb x xs []
rel_elements (x ∷ xs) (y ∷ ys) =
    let rest = rel_elements xs ys in if str_eq x y then rest else climb x xs (y ∷ ys)

abbrev pub same_kind : Str → Str → Bool
same_kind s t = if is_abs s then is_abs t else not (is_abs t)

abbrev pub rel_clean : Str → Str → Option Str
rel_clean b t =
    if str_eq b t
    then some dot
    else if same_kind b t
    then rel_elements (if str_eq b dot then [] else elements b) (elements t)
    else none

-- filepath.Rel
unfoldable pub rel : Str → Str → Option Str
unfolding rel_elements
rel base target = rel_clean (clean base) (clean target)
