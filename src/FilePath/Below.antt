-- ===== src/FilePath/Below.antt =====
-- filepath: the paths below an absolute directory, from it and up to it.
use mathlib.Core.List.{reverse, reverse_aux-eq, reverse-reverse}
use gonic.Base.{
  ℕ, ◌≡◌, refl, sym, ap, ◌∙◌, true, false, List, [], ◌∷◌, ◌++◌, append_assoc, append-nil, some, Str,
  str_eq, str_eq_refl, All, All-append, arith,
}
use gonic.FilePath.Defs.{slash, separated, join_slash, clean, join, render, split_on, resolve}
use gonic.FilePath.Elements.{dir, rel_elements, rel}
use gonic.FilePath.Laws.{
  IsName, absolute, parts_under, clean-absolute, split_on-append, split_on-Lacks, resolve-IsName,
}
use gonic.FilePath.Relative.{
  dir-absolute, elements-absolute, absolute-is_abs, absolute-ne_dot, part-is_abs,
}

separated-append : (ps qs : List Str) → separated (ps ++ qs) ≡ separated ps ++ separated qs
unfolding separated
separated-append [] qs = refl
separated-append (p ∷ ps) qs =
    rw (separated-append ps qs, append_assoc p (separated ps) (separated qs)) refl

pub absolute-append :
    (b : Str) (bs : List Str) (n : Str) → absolute b (bs ++ n ∷ []) ≡ absolute b bs ++ slash ∷ n
unfolding separated
absolute-append b bs n =
    rw (separated-append bs (n ∷ []), append-nil)
      (ap (λ s. slash ∷ s) (sym (append_assoc b (separated bs) (slash ∷ n))))

-- The directory of a path is all its parts but the last.
pub dir-append :
    (b : Str) (bs : List Str) (n : Str)
    → All IsName (b ∷ bs)
    → IsName n
    → dir (absolute b (bs ++ n ∷ [])) ≡ absolute b bs
dir-append b bs n h k = rw (absolute-append b bs n) (dir-absolute b bs n h k.one_part)

str_eq-longer : (s t : Str) (c : ℕ) → str_eq s (s ++ c ∷ t) ≡ false
unfolding str_eq
str_eq-longer [] t c = refl
str_eq-longer (d ∷ s) t c = ground (arith, str_eq-longer s t c)

absolute-longer :
    (b : Str) (bs : List Str) (y : Str) (ys : List Str)
    → str_eq (absolute b bs) (absolute b (bs ++ y ∷ ys)) ≡ false
unfolding separated
absolute-longer b bs y ys =
    rw
      (
        separated-append bs (y ∷ ys),
        sym (append_assoc b (separated bs) (slash ∷ (y ++ separated ys))),
      )
      (str_eq-longer (slash ∷ (b ++ separated bs)) (y ++ separated ys) slash)

rel_elements-front : (xs ys : List Str) → rel_elements xs (xs ++ ys) ≡ some (join_slash ys)
unfolding rel_elements
rel_elements-front [] ys = refl
rel_elements-front (x ∷ xs) ys = rw (str_eq_refl x) (rel_elements-front xs ys)

-- From a directory to a path below it leads the rest of the parts.
pub rel-below :
    (b : Str) (bs : List Str) (y : Str) (ys : List Str)
    → All IsName (b ∷ bs)
    → All IsName (y ∷ ys)
    → rel (absolute b bs) (absolute b (bs ++ y ∷ ys)) ≡ some (join_slash (y ∷ ys))
unfolding rel
rel-below b bs y ys h k =
    let both = All-append IsName (b ∷ bs) (y ∷ ys) h k in
    rw
      (
        clean-absolute b bs h,
        clean-absolute b (bs ++ y ∷ ys) both,
        absolute-longer b bs y ys,
        absolute-is_abs b bs,
        absolute-is_abs b (bs ++ y ∷ ys),
        absolute-ne_dot b bs,
        elements-absolute b bs h,
        elements-absolute b (bs ++ y ∷ ys) both,
      )
      (rel_elements-front (b ∷ bs) (y ∷ ys))

-- Two names joined.
pub join-names : (p n : Str) → IsName p → IsName n → join p n ≡ p ++ slash ∷ n
unfolding join clean
join-names [] n h k = absurd (h.some_text refl)
join-names (c ∷ p) [] h k = absurd (k.some_text refl)
join-names (c ∷ p) (d ∷ n) h k =
    let s = c ∷ (p ++ slash ∷ d ∷ n) in
    let parts =
      split_on-append (c ∷ p) (d ∷ n) h.one_part
      ∙ ap (λ ps. (c ∷ p) ∷ ps) (split_on-Lacks (d ∷ n) k.one_part) in
    ap (λ a. render a (reverse (resolve a [] (split_on slash s))))
      (part-is_abs (c ∷ p) (slash ∷ d ∷ n) h.some_text h.one_part)
    ∙ ap (λ ps. render false (reverse (resolve false [] ps))) parts
    ∙ ap (λ ps. render false (reverse ps))
        (resolve-IsName false [] ((c ∷ p) ∷ (d ∷ n) ∷ []) (h, (k, tt)))
    ∙ (unfold separated in ap (λ e. (c ∷ p) ++ slash ∷ e) (append-nil (d ∷ n)))

-- From a directory two names lead to the entry below it.
pub join-below :
    (b : Str) (bs : List Str) (p n : Str)
    → All IsName (b ∷ bs)
    → IsName p
    → IsName n
    → parts_under (b ∷ bs) (p ++ slash ∷ n) ≡ (b ∷ bs) ++ p ∷ n ∷ []
unfolding parts_under
join-below b bs p n names h k =
    ap (λ ps. reverse (resolve true (reverse (b ∷ bs)) ps))
      (split_on-append p n h.one_part ∙ ap (λ ps. p ∷ ps) (split_on-Lacks n k.one_part))
    ∙ ap reverse (resolve-IsName true (reverse (b ∷ bs)) (p ∷ n ∷ []) (h, (k, tt)))
    ∙ reverse_aux-eq (reverse (b ∷ bs)) (p ∷ n ∷ [])
    ∙ ap (λ l. l ++ p ∷ n ∷ []) (reverse-reverse (b ∷ bs))
