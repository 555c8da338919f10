-- ===== src/FilePath/Laws.antt =====
-- filepath: cleaning a path that is absolute and clean but for its last parts.
use mathlib.Core.List.{reverse, reverse_aux, reverse-reverse}
use gonic.Base.{
  ℕ, ◌≡◌, ◌≢◌, refl, sym, ap, ◌∙◌, Bool, true, List, [], ◌∷◌, ◌++◌, append_assoc, append-nil, arith,
  Str, str_eq, str_eq-false, str_eq_cases, Bool-cases, inl, inr, Lacks, All, All-reverse, ◌==◌,
}
use gonic.FilePath.Defs.{
  slash, cons_first, split_on, separated, dot, dot_dot, resolve, ascend, descend, render, clean,
  join,
}

-- The name of a directory entry.
pub record IsName (p : Str) : Type 0 where
  pub some_text : p ≢ []
  pub not_dot : p ≢ dot
  pub not_dot_dot : p ≢ dot_dot
  pub one_part : Lacks slash p

pub split_on-Lacks : (p : Str) → Lacks slash p → split_on slash p ≡ p ∷ []
unfolding split_on
split_on-Lacks [] h = refl
split_on-Lacks (c ∷ p) h = ground (arith, split_on-Lacks p h.1)

pub split_on-append :
    (p s : Str) → Lacks slash p → split_on slash (p ++ slash ∷ s) ≡ p ∷ split_on slash s
unfolding split_on
split_on-append [] s h = refl
split_on-append (c ∷ p) s h = ground (arith, split_on-append p s h.1)

split_on-separated :
    (p : Str) (ps : List Str) (s : Str)
    → Lacks slash p
    → All IsName ps
    → split_on slash (p ++ (separated ps ++ slash ∷ s)) ≡ (p ∷ ps) ++ split_on slash s
unfolding separated
split_on-separated p [] s h k = split_on-append p s h
split_on-separated p (q ∷ ps) s h (n, k) =
    rw (append_assoc q (separated ps) (slash ∷ s), split_on-append p _ h)
      (ap (λ l. p ∷ l) (split_on-separated q ps s n.one_part k))

pub split_on-separated_end :
    (p : Str) (ps : List Str)
    → Lacks slash p
    → All IsName ps
    → split_on slash (p ++ separated ps) ≡ p ∷ ps
unfolding separated
split_on-separated_end p [] h k = rw append-nil (split_on-Lacks p h)
split_on-separated_end p (q ∷ ps) h (n, k) =
    rw (split_on-append p _ h) (ap (λ l. p ∷ l) (split_on-separated_end q ps n.one_part k))

pub descend-IsName :
    (rooted : Bool) (qs : List Str) (p : Str) → IsName p → descend rooted qs p ≡ p ∷ qs
descend-IsName rooted qs p n = rw (
  str_eq-false p [] n.some_text,
  str_eq-false p dot n.not_dot,
  str_eq-false p dot_dot n.not_dot_dot,
)

pub resolve-append :
    (rooted : Bool) (qs ps rs : List Str)
    → resolve rooted qs (ps ++ rs) ≡ resolve rooted (resolve rooted qs ps) rs
unfolding resolve
resolve-append rooted qs [] rs = refl
resolve-append rooted qs (p ∷ ps) rs = resolve-append rooted (descend rooted qs p) ps rs

pub resolve-IsName :
    (rooted : Bool) (qs ps : List Str) → All IsName ps → resolve rooted qs ps ≡ reverse_aux ps qs
unfolding resolve
resolve-IsName rooted qs [] h = refl
resolve-IsName rooted qs (p ∷ ps) (n, h) =
    rw (descend-IsName rooted qs p n) (resolve-IsName rooted (p ∷ qs) ps h)

-- An absolute path with at least one part.
abbrev pub absolute : Str → List Str → Str
absolute b bs = separated (b ∷ bs)

-- The parts that a relative path leads to from a directory.
unfoldable pub parts_under : List Str → Str → List Str
parts_under bs rel = reverse (resolve true (reverse bs) (split_on slash rel))

clean_rooted :
    (t : Str) → clean (slash ∷ t) ≡ render true (reverse (resolve true [] (split_on slash t)))
unfolding clean str_eq
clean_rooted t = refl

pub clean-absolute :
    (b : Str) (bs : List Str) → All IsName (b ∷ bs) → clean (absolute b bs) ≡ absolute b bs
unfolding separated
clean-absolute b bs (n, h) =
    rw
      (
        clean_rooted,
        split_on-separated_end b bs n.one_part h,
        resolve-IsName true [] (b ∷ bs) (n, h),
      )
      (ap (render true) (reverse-reverse (b ∷ bs)))

resolve-under :
    (b : Str) (bs : List Str) (s : Str)
    → All IsName (b ∷ bs)
    → resolve true [] (split_on slash (b ++ (separated bs ++ slash ∷ s)))
      ≡ resolve true (reverse (b ∷ bs)) (split_on slash s)
resolve-under b bs s (n, h) = rw (
  split_on-separated b bs s n.one_part h,
  resolve-append true [] (b ∷ bs) (split_on slash s),
  resolve-IsName true [] (b ∷ bs) (n, h),
)

-- A slash at the end is cleaned away.
pub clean-closed :
    (b : Str) (bs : List Str)
    → All IsName (b ∷ bs)
    → clean (absolute b bs ++ slash ∷ []) ≡ absolute b bs
unfolding separated split_on resolve str_eq
clean-closed b bs h =
    rw (append_assoc b (separated bs) (slash ∷ []), clean_rooted)
      (ap (λ l. render true (reverse l)) (resolve-under b bs [] h)
        ∙ ap (render true) (reverse-reverse (b ∷ bs)))

pub join-absolute :
    (b : Str) (bs : List Str) (rel : Str)
    → All IsName (b ∷ bs)
    → join (absolute b bs) rel ≡ render true (parts_under (b ∷ bs) rel)
unfolding join parts_under separated split_on resolve str_eq
join-absolute b bs [] h = clean-absolute b bs h ∙ sym (ap (render true) (reverse-reverse (b ∷ bs)))
join-absolute b bs (c ∷ rel) h =
    rw (append_assoc b (separated bs) (slash ∷ c ∷ rel), clean_rooted)
      (ap (λ l. render true (reverse l)) (resolve-under b bs (c ∷ rel) h))

ascend-IsName : (qs : List Str) → All IsName qs → All IsName (ascend true qs)
ascend-IsName [] h = tt
ascend-IsName (q ∷ qs) (n, h) = rw (str_eq-false q dot_dot n.not_dot_dot) h

descend-All :
    (qs : List Str) (p : Str) → Lacks slash p → All IsName qs → All IsName (descend true qs p)
unfolding str_eq
descend-All qs p l h = elim (str_eq_cases p []) [
  | inl e ↦ rw e h
  | inr a ↦ elim (str_eq_cases p dot) [
    | inl e ↦ rw (str_eq-false p [] a, e) h
    | inr b ↦ elim (str_eq_cases p dot_dot) [
      | inl e ↦ rw e (ascend-IsName qs h)
      | inr d ↦ rw (descend-IsName true qs p (name a b d)) (name a b d, h)
    ]
  ]
]
  where
    name : p ≢ [] → p ≢ dot → p ≢ dot_dot → IsName p
    name a b d = record { some_text = a; not_dot = b; not_dot_dot = d; one_part = l }

resolve-All :
    (qs ps : List Str) → All (Lacks slash) ps → All IsName qs → All IsName (resolve true qs ps)
unfolding resolve
resolve-All qs [] l h = h
resolve-All qs (p ∷ ps) (m, l) h = resolve-All (descend true qs p) ps l (descend-All qs p m h)

cons_first-All :
    (c : ℕ) (ps : List Str) → c ≢ slash → All (Lacks slash) ps → All (Lacks slash) (cons_first c ps)
cons_first-All c [] n h = ((n, tt), tt)
cons_first-All c (p ∷ ps) n (l, h) = ((n, l), h)

pub split_on-All : (s : Str) → All (Lacks slash) (split_on slash s)
unfolding split_on
split_on-All [] = (tt, tt)
split_on-All (c ∷ s) = elim (Bool-cases (c == slash)) [
  | inl e ↦ rw e (tt, split_on-All s)
  | inr e ↦ rw e (cons_first-All c (split_on slash s) (λ q. ground arith) (split_on-All s))
]

-- What a relative path leads to from a directory is spelled with names alone.
pub parts_under-IsName :
    (bs : List Str) (rel : Str) → All IsName bs → All IsName (parts_under bs rel)
unfolding parts_under
parts_under-IsName bs rel h =
    All-reverse IsName _ (resolve-All (reverse bs) _ (split_on-All rel) (All-reverse IsName bs h))
