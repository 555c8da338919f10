-- ===== src/FilePath/Relatives.antt =====
-- filepath: a path that is not absolute stays so, and has no relative path from a directory.
use mathlib.Core.List.{reverse}
use gonic.Base.{
  ◌≡◌, ◌≢◌, refl, sym, ap, ◌∙◌, inl, inr, true, false, List, [], ◌∷◌, none, Str, str_eq, str_eq_iff,
  str_eq-false, All, All-reverse, Lacks, arith, Bool-cases,
}
use gonic.FilePath.Defs.{
  slash, split_on, separated, dot, dot_dot, is_abs, ascend, descend, resolve, render, clean,
}
use gonic.FilePath.Elements.{rel}
use gonic.FilePath.Laws.{IsName, absolute, clean-absolute, split_on-All}
use gonic.FilePath.Relative.{part-is_abs, absolute-is_abs}

abbrev Part : Str → Type 0
Part p = (p ≢ []) × Lacks slash p

dot_dot-Part : Part dot_dot
dot_dot-Part = ((λ e. cc e), ground arith)

ascend-Part : (qs : List Str) → All Part qs → All Part (ascend false qs)
ascend-Part [] h = (dot_dot-Part, tt)
ascend-Part (q ∷ qs) (p, h) = elim (Bool-cases (str_eq q dot_dot)) [
  | inl e ↦ rw e (dot_dot-Part, (p, h))
  | inr e ↦ rw e h
]

descend-Part :
    (qs : List Str) (p : Str) → Lacks slash p → All Part qs → All Part (descend false qs p)
descend-Part qs p l h = elim (Bool-cases (str_eq p [])) [
  | inl e ↦ rw e h
  | inr e ↦ elim (Bool-cases (str_eq p dot)) [
    | inl d ↦ rw (e, d) h
    | inr d ↦ elim (Bool-cases (str_eq p dot_dot)) [
      | inl dd ↦ rw (e, d, dd) (ascend-Part qs h)
      | inr dd ↦ rw (e, d, dd) (((λ q. ground (arith, str_eq_iff p [])), l), h)
    ]
  ]
]

resolve-Part :
    (qs ps : List Str) → All (Lacks slash) ps → All Part qs → All Part (resolve false qs ps)
unfolding resolve
resolve-Part qs [] l h = h
resolve-Part qs (p ∷ ps) (k, l) h = resolve-Part (descend false qs p) ps l (descend-Part qs p k h)

render-is_abs : (ps : List Str) → All Part ps → is_abs (render false ps) ≡ false
render-is_abs [] h = refl
render-is_abs (p ∷ ps) (k, h) = part-is_abs p (separated ps) k.0 k.1

clean-is_abs : (s : Str) → is_abs s ≡ false → is_abs (clean s) ≡ false
unfolding clean
clean-is_abs s h = rw h (
    render-is_abs (reverse (resolve false [] (split_on slash s))) (
      All-reverse Part (resolve false [] (split_on slash s))
        (resolve-Part [] (split_on slash s) (split_on-All s) tt)))

-- There is no path from a directory to what is not absolute.
pub rel-none :
    (b : Str) (bs : List Str) (t : Str)
    → All IsName (b ∷ bs)
    → is_abs t ≡ false
    → rel (absolute b bs) t ≡ none
unfolding rel
rel-none b bs t names h =
    let relative = clean-is_abs t h in
    let other : str_eq (absolute b bs) (clean t) ≡ false =
      str_eq-false (absolute b bs) (clean t) (λ e.
        let bad : true ≡ false = sym (absolute-is_abs b bs) ∙ ap is_abs e ∙ relative in cc bad) in
    rw (clean-absolute b bs names, other, absolute-is_abs b bs, relative) refl
