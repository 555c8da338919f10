-- ===== src/FilePath/Folders.antt =====
-- filepath: Split, Clean and Join on a relative path in parts.
use mathlib.Core.List.{
  reverse, reverse_aux, reverse_aux-reverse_aux-nil, reverse_aux-eq, reverse-reverse,
}
use gonic.Base.{
  ◌≡◌, refl, sym, ap, ◌∙◌, Bool, true, false, List, [], ◌∷◌, ◌++◌, append_assoc, append-nil, some,
  Str, All, Lacks, arith, length, drop, str_eq,
}
use gonic.FilePath.Defs.{
  slash, split_on, separated, join_slash, dot, is_abs, resolve, render, clean, join,
}
use gonic.FilePath.Elements.{up_to_slash, after_slash, rel}
use gonic.FilePath.Laws.{
  IsName, absolute, parts_under, split_on-append, split_on-Lacks, resolve-append, resolve-IsName,
  join-absolute,
}
use gonic.FilePath.Within.{trailing}
use gonic.FilePath.Relative.{up_to_slash-Lacks, part-is_abs}
use gonic.FilePath.Below.{rel-below}

up_to_slash_front : (p s : Str) → up_to_slash (p ++ slash ∷ s) ≡ p ++ slash ∷ up_to_slash s
unfolding up_to_slash
up_to_slash_front [] s = ground arith
up_to_slash_front (c ∷ []) s = rw (up_to_slash, up_to_slash_front [] s) refl
up_to_slash_front (c ∷ d ∷ p) s = rw (up_to_slash, up_to_slash_front (d ∷ p) s) refl

-- The directory part of a path in a folder.
pub up_to_slash-trailing :
    (ds : List Str) (f : Str) → Lacks slash f → up_to_slash (trailing ds ++ f) ≡ trailing ds
unfolding trailing
up_to_slash-trailing [] f l = up_to_slash-Lacks f l
up_to_slash-trailing (d ∷ ds) f l =
    ap up_to_slash (append_assoc d (slash ∷ trailing ds) f)
    ∙ up_to_slash_front d (trailing ds ++ f)
    ∙ ap (λ s. d ++ slash ∷ s) (up_to_slash-trailing ds f l)

drop_front : (p s : Str) → drop (length p) (p ++ s) ≡ s
drop_front [] s = refl
drop_front (c ∷ p) s = drop_front p s

-- And its last part.
pub after_slash-trailing :
    (ds : List Str) (f : Str) → Lacks slash f → after_slash (trailing ds ++ f) ≡ f
unfolding after_slash
after_slash-trailing ds f l = rw (up_to_slash-trailing ds f l) (drop_front (trailing ds) f)

pub join_slash-trailing : (ds : List Str) (f : Str) → join_slash (ds ++ f ∷ []) ≡ trailing ds ++ f
unfolding trailing separated
join_slash-trailing [] f = append-nil f
join_slash-trailing (d ∷ []) f = rw append-nil (sym (append_assoc d (slash ∷ []) f))
join_slash-trailing (d ∷ e ∷ ds) f =
    ap (λ s. d ++ slash ∷ s) (join_slash-trailing (e ∷ ds) f)
    ∙ sym (append_assoc d (slash ∷ trailing (e ∷ ds)) f)

pub split_on-trailing :
    (ds : List Str) (s : Str)
    → All (Lacks slash) ds
    → split_on slash (trailing ds ++ s) ≡ ds ++ split_on slash s
unfolding trailing
split_on-trailing [] s h = refl
split_on-trailing (d ∷ ds) s (l, h) =
    ap (split_on slash) (append_assoc d (slash ∷ trailing ds) s)
    ∙ split_on-append d (trailing ds ++ s) l
    ∙ ap (λ ps. d ∷ ps) (split_on-trailing ds s h)

-- From a directory to a file in a folder below it.
pub rel-trailing :
    (b : Str) (bs ds : List Str) (f : Str)
    → All IsName (b ∷ bs)
    → All IsName (ds ++ f ∷ [])
    → rel (absolute b bs) (absolute b (bs ++ (ds ++ f ∷ []))) ≡ some (trailing ds ++ f)
rel-trailing b bs [] f h k = rel-below b bs f [] h k ∙ ap (λ s. some s) (join_slash-trailing [] f)
rel-trailing b bs (d ∷ ds) f h k =
    rel-below b bs d (ds ++ f ∷ []) h k ∙ ap (λ s. some s) (join_slash-trailing (d ∷ ds) f)

-- What a relative text leads to below a directory, if it resolves to names.
pub parts_under-resolved :
    (bs xs : List Str) (s : Str)
    → resolve true (reverse bs) (split_on slash s) ≡ reverse_aux xs (reverse bs)
    → parts_under bs s ≡ bs ++ xs
unfolding parts_under
parts_under-resolved bs xs s e =
    ap reverse e
    ∙ reverse_aux-reverse_aux-nil xs (reverse bs)
    ∙ reverse_aux-eq (reverse bs) xs
    ∙ ap (λ l. l ++ xs) (reverse-reverse bs)

names-Lacks : (ps : List Str) → All IsName ps → All (Lacks slash) ps
names-Lacks [] h = tt
names-Lacks (p ∷ ps) (n, h) = (n.one_part, names-Lacks ps h)

pub All-front : (ps qs : List Str) → All IsName (ps ++ qs) → All IsName ps
All-front [] qs h = tt
All-front (p ∷ ps) qs (n, h) = (n, All-front ps qs h)

pub All-back : (ps qs : List Str) → All IsName (ps ++ qs) → All IsName qs
All-back [] qs h = h
All-back (p ∷ ps) qs (n, h) = All-back ps qs h

-- Empty parts and dots are passed over.
module _ (rooted : Bool) (qs : List Str) where
  resolve-empty : (ps : List Str) → resolve rooted qs ([] ∷ ps) ≡ resolve rooted qs ps
  unfolding resolve str_eq
  resolve-empty ps = refl

  resolve-dot : (ps : List Str) → resolve rooted qs (dot ∷ ps) ≡ resolve rooted qs ps
  unfolding resolve str_eq
  resolve-dot ps = refl

  resolve-closing : resolve rooted qs ([] ∷ []) ≡ qs
  unfolding resolve str_eq
  resolve-closing = refl

render_front : (ds : List Str) (r : Str) → render false (ds ++ r ∷ []) ≡ join_slash (ds ++ r ∷ [])
render_front [] r = refl
render_front (d ∷ ds) r = refl

trailing-is_abs : (ds : List Str) → All IsName ds → is_abs (trailing ds) ≡ false
unfolding trailing
trailing-is_abs [] h = refl
trailing-is_abs (d ∷ ds) (n, h) = part-is_abs d (slash ∷ trailing ds) n.some_text n.one_part

split_on-closed : (ds : List Str) → All IsName ds → split_on slash (trailing ds) ≡ ds ++ [] ∷ []
split_on-closed ds h =
    ap (split_on slash) (sym (append-nil (trailing ds)))
    ∙ split_on-trailing ds [] (names-Lacks ds h)
    ∙ (unfold split_on in refl)

-- Cleaning takes the slash off the end.
pub clean-trailing :
    (ds : List Str) (r : Str)
    → All IsName (ds ++ r ∷ [])
    → clean (trailing (ds ++ r ∷ [])) ≡ trailing ds ++ r
unfolding clean
clean-trailing ds r h =
    let xs = ds ++ r ∷ [] in
    ap (λ a. render a (reverse (resolve a [] (split_on slash (trailing xs)))))
      (trailing-is_abs xs h)
    ∙ ap (λ ps. render false (reverse (resolve false [] ps))) (split_on-closed xs h)
    ∙ ap (λ ps. render false (reverse ps))
        (resolve-append false [] xs ([] ∷ [])
          ∙ resolve-closing false (resolve false [] xs)
          ∙ resolve-IsName false [] xs h)
    ∙ ap (render false) (reverse-reverse xs)
    ∙ render_front ds r
    ∙ join_slash-trailing ds r

-- A folder with its slash, another and a file in it, joined to a directory.
pub join-trailing :
    (b : Str) (bs ds : List Str) (r f : Str)
    → All IsName (b ∷ bs)
    → All IsName (ds ++ r ∷ f ∷ [])
    → join (absolute b bs) (trailing ds ++ slash ∷ (r ++ slash ∷ f))
      ≡ absolute b (bs ++ (ds ++ r ∷ f ∷ []))
join-trailing b bs ds r f h k =
    let qs = reverse (b ∷ bs) in
    let last = All-back ds (r ∷ f ∷ []) k in
    let front = All-front ds (r ∷ f ∷ []) k in
    let parts =
      split_on-trailing ds (slash ∷ (r ++ slash ∷ f)) (names-Lacks ds front)
      ∙ ap (λ ps. ds ++ ps) (split_on-append [] (r ++ slash ∷ f) tt)
      ∙ ap (λ ps. ds ++ [] ∷ ps)
          (split_on-append r f last.0.one_part
            ∙ ap (λ ps. r ∷ ps) (split_on-Lacks f last.1.0.one_part)) in
    let resolved =
      ap (resolve true qs) parts
      ∙ resolve-append true qs ds ([] ∷ r ∷ f ∷ [])
      ∙ resolve-empty true (resolve true qs ds) (r ∷ f ∷ [])
      ∙ sym (resolve-append true qs ds (r ∷ f ∷ []))
      ∙ resolve-IsName true qs (ds ++ r ∷ f ∷ []) k in
    join-absolute b bs (trailing ds ++ slash ∷ (r ++ slash ∷ f)) h
    ∙ ap (render true) (
        parts_under-resolved (b ∷ bs) (ds ++ r ∷ f ∷ []) (trailing ds ++ slash ∷ (r ++ slash ∷ f))
          resolved)
    ∙ (unfold separated in refl)

-- A file in the directory itself, by way of `.`.
pub join-dot_file :
    (b : Str) (bs : List Str) (f : Str)
    → All IsName (b ∷ bs)
    → IsName f
    → join (absolute b bs) (slash ∷ (dot ++ slash ∷ f)) ≡ absolute b (bs ++ f ∷ [])
join-dot_file b bs f h k =
    let qs = reverse (b ∷ bs) in
    let parts =
      split_on-append [] (dot ++ slash ∷ f) tt
      ∙ ap (λ ps. [] ∷ ps)
          (split_on-append dot f (ground arith)
            ∙ ap (λ ps. dot ∷ ps) (split_on-Lacks f k.one_part)) in
    let resolved =
      ap (resolve true qs) parts
      ∙ resolve-empty true qs (dot ∷ f ∷ [])
      ∙ resolve-dot true qs (f ∷ [])
      ∙ resolve-IsName true qs (f ∷ []) (k, tt) in
    join-absolute b bs (slash ∷ (dot ++ slash ∷ f)) h
    ∙ ap (render true)
        (parts_under-resolved (b ∷ bs) (f ∷ []) (slash ∷ (dot ++ slash ∷ f)) resolved)
    ∙ (unfold separated in refl)
