-- ===== src/FilePath/Relative.antt =====
-- filepath: a relative path leads from its base to its target.
use mathlib.Core.List.{reverse, reverse_aux, reverse-reverse}
use gonic.Base.{
  ◌≡◌, ◌≢◌, refl, ap, ◌∙◌, true, false, List, [], ◌∷◌, ◌++◌, append-nil, map, Option, some, arith,
  Str, str_eq, str_eq-false, str_eq_iff, Bool-cases, inl, inr, Lacks, All,
}
use gonic.FilePath.Defs.{slash, split_on, separated, dot, dot_dot, is_abs, resolve, render, join}
use gonic.FilePath.Elements.{up_to_slash, dir, elements, climb, rel_elements, rel}
use gonic.FilePath.Laws.{
  IsName, absolute, parts_under, join-absolute, clean-absolute, clean-closed,
  split_on-separated_end, split_on-Lacks, split_on-append, resolve-append, resolve-IsName,
}

pub up_to_slash-Lacks : (n : Str) → Lacks slash n → up_to_slash n ≡ []
unfolding up_to_slash
up_to_slash-Lacks [] h = refl
up_to_slash-Lacks (c ∷ n) (l, h) = rw (up_to_slash, up_to_slash-Lacks n h) (ground arith)

up_to_slash-append : (s n : Str) → Lacks slash n → up_to_slash (s ++ slash ∷ n) ≡ s ++ slash ∷ []
unfolding up_to_slash
up_to_slash-append [] n h = rw (up_to_slash, up_to_slash-Lacks n h) refl
up_to_slash-append (c ∷ []) n h = rw (up_to_slash, up_to_slash-append [] n h) refl
up_to_slash-append (c ∷ d ∷ s) n h = rw (up_to_slash, up_to_slash-append (d ∷ s) n h) refl

-- The directory of an entry of an absolute directory.
pub dir-absolute :
    (b : Str) (bs : List Str) (n : Str)
    → All IsName (b ∷ bs)
    → Lacks slash n
    → dir (absolute b bs ++ slash ∷ n) ≡ absolute b bs
unfolding dir
dir-absolute b bs n h l = rw (up_to_slash-append (absolute b bs) n l) (clean-closed b bs h)

abbrev ups : List Str → List Str
ups = map (λ p. dot_dot)

ups-snoc : (xs : List Str) → dot_dot ∷ ups xs ≡ ups xs ++ dot_dot ∷ []
ups-snoc [] = refl
ups-snoc (x ∷ xs) = ap (λ l. dot_dot ∷ l) (ups-snoc xs)

resolve-ups : (xs qs : List Str) → All IsName xs → resolve true (reverse_aux xs qs) (ups xs) ≡ qs
unfolding resolve
resolve-ups [] qs h = refl
resolve-ups (x ∷ xs) qs (n, h) =
    rw
      (
        ups-snoc xs,
        resolve-append true (reverse_aux xs (x ∷ qs)) (ups xs) (dot_dot ∷ []),
        resolve-ups xs (x ∷ qs) h,
      )
      (unfold str_eq in rw (str_eq-false x dot_dot n.not_dot_dot) refl)

split_on-join_slash :
    (p : Str) (ps : List Str)
    → Lacks slash p
    → All (Lacks slash) ps
    → split_on slash (p ++ separated ps) ≡ p ∷ ps
unfolding separated
split_on-join_slash p [] h k = rw append-nil (split_on-Lacks p h)
split_on-join_slash p (q ∷ ps) h (l, k) =
    rw (split_on-append p _ h) (ap (λ m. p ∷ m) (split_on-join_slash q ps l k))

pub names-Lacks : (ps : List Str) → All IsName ps → All (Lacks slash) ps
names-Lacks [] h = tt
names-Lacks (p ∷ ps) (n, h) = (n.one_part, names-Lacks ps h)

ups-Lacks : (xs ys : List Str) → All IsName ys → All (Lacks slash) (ups xs ++ ys)
ups-Lacks [] ys h = names-Lacks ys h
ups-Lacks (x ∷ xs) ys h = (ground arith, ups-Lacks xs ys h)

pub part-is_abs : (p : Str) (s : Str) → p ≢ [] → Lacks slash p → is_abs (p ++ s) ≡ false
part-is_abs [] s n h = absurd (n refl)
part-is_abs (c ∷ p) s n h = ground arith

-- What a relative path does from a base, both by their elements.
abbrev Leads : List Str → List Str → List Str → Option Str → Type 0
Leads xs ys qs o =
    (r : Str) × (o ≡ some r)
    × (resolve true (reverse_aux xs qs) (split_on slash r) ≡ reverse_aux ys qs)
    × (is_abs r ≡ false)

climb-Leads :
    (x : Str) (xs ys qs : List Str)
    → All IsName (x ∷ xs)
    → All IsName ys
    → Leads (x ∷ xs) ys qs (climb x xs ys)
climb-Leads x xs ys qs (n, h) k = (
  dot_dot ++ separated (ups xs ++ ys),
  rw (str_eq-false x dot_dot n.not_dot_dot) refl,
  rw
      (
        split_on-join_slash dot_dot (ups xs ++ ys) (ground arith) (ups-Lacks xs ys k),
        resolve-append true (reverse_aux (x ∷ xs) qs) (ups (x ∷ xs)) ys,
        resolve-ups (x ∷ xs) qs (n, h),
      )
      (resolve-IsName true qs ys k),
  refl,
)

rel_elements-Leads :
    (xs ys qs : List Str) → All IsName xs → All IsName ys → Leads xs ys qs (rel_elements xs ys)
unfolding rel_elements
rel_elements-Leads [] [] qs h k = ([], refl, unfold resolve split_on str_eq in refl, refl)
rel_elements-Leads [] (y ∷ ys) qs h (n, k) = (
  y ++ separated ys,
  refl,
  rw (split_on-separated_end y ys n.one_part k) (resolve-IsName true qs (y ∷ ys) (n, k)),
  part-is_abs y (separated ys) n.some_text n.one_part,
)
rel_elements-Leads (x ∷ xs) [] qs h k = climb-Leads x xs [] qs h k
rel_elements-Leads (x ∷ xs) (y ∷ ys) qs (n, h) (m, k) = elim (Bool-cases (str_eq x y)) [
  | inl e ↦ rw (e, (str_eq_iff x y).0 e) (rel_elements-Leads xs ys (y ∷ qs) h k)
  | inr e ↦ rw e (climb-Leads x xs (y ∷ ys) qs (n, h) (m, k))
]

pub elements-absolute :
    (b : Str) (bs : List Str) → All IsName (b ∷ bs) → elements (absolute b bs) ≡ b ∷ bs
unfolding separated
elements-absolute [] bs (n, h) = absurd (n.some_text refl)
elements-absolute (c ∷ b) bs (n, h) = split_on-separated_end (c ∷ b) bs n.one_part h

pub absolute-ne_dot : (b : Str) (bs : List Str) → str_eq (absolute b bs) dot ≡ false
unfolding separated str_eq
absolute-ne_dot b bs = refl

pub absolute-is_abs : (b : Str) (bs : List Str) → is_abs (absolute b bs) ≡ true
unfolding separated
absolute-is_abs b bs = refl

parts_under-led :
    (bs : List Str) (t : Str) (ts : List Str) (r : Str)
    → resolve true (reverse_aux bs []) (split_on slash r) ≡ reverse_aux (t ∷ ts) []
    → render true (parts_under bs r) ≡ absolute t ts
unfolding parts_under separated
parts_under-led bs t ts r led =
    ap (λ l. render true (reverse l)) led ∙ ap (render true) (reverse-reverse (t ∷ ts))

join-dot :
    (b : Str) (bs : List Str) → All IsName (b ∷ bs) → join (absolute b bs) dot ≡ absolute b bs
unfolding resolve split_on str_eq
join-dot b bs h = join-absolute b bs dot h ∙ parts_under-led (b ∷ bs) b bs dot refl

-- From an absolute directory to an absolute path there is a relative path; it is not absolute, and
-- joined to the directory it is the path again.
pub join-rel :
    (b : Str) (bs : List Str) (t : Str) (ts : List Str)
    → All IsName (b ∷ bs)
    → All IsName (t ∷ ts)
    → (r : Str) × (rel (absolute b bs) (absolute t ts) ≡ some r)
      × (is_abs r ≡ false)
      × (join (absolute b bs) r ≡ absolute t ts)
unfolding rel
join-rel b bs t ts h k = elim (Bool-cases (str_eq (absolute b bs) (absolute t ts))) [
  | inl e ↦ (
    dot,
    rw (clean-absolute b bs h, clean-absolute t ts k, e) refl,
    refl,
    join-dot b bs h ∙ (str_eq_iff (absolute b bs) (absolute t ts)).0 e,
  )
  | inr e ↦
      let (r, q, led, relative) = rel_elements-Leads (b ∷ bs) (t ∷ ts) [] h k in
      (
        r,
        rw
            (
              clean-absolute b bs h,
              clean-absolute t ts k,
              e,
              absolute-is_abs b bs,
              absolute-is_abs t ts,
              absolute-ne_dot b bs,
              elements-absolute b bs h,
              elements-absolute t ts k,
            )
            q,
        relative,
        join-absolute b bs r h ∙ parts_under-led (b ∷ bs) t ts r led,
      )
]
