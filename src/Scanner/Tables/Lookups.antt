-- ===== src/Scanner/Tables/Lookups.antt =====
-- What a look-up finds in a list of rows, and among some of them.
use gonic.Base.{
  ◌≡◌, refl, sym, ◌∙◌, inl, inr, Bool, true, false, List, [], ◌∷◌, ◌++◌, none, some, find, keep,
  All, Bool-cases,
}

module _ {R : Type 0} (p : R → Bool) where
  pub find-append_some : (xs ys : List R) (a : R) → find p xs ≡ some a → find p (xs ++ ys) ≡ some a
  find-append_some [] ys a h = cc h
  find-append_some (x ∷ xs) ys a h = elim (Bool-cases (p x)) [
    | inl e ↦ rw e (rw e at h)
    | inr e ↦ rw e (find-append_some xs ys a (rw e at h))
  ]

  pub find-append_none : (xs ys : List R) → find p xs ≡ none → find p (xs ++ ys) ≡ find p ys
  find-append_none [] ys h = refl
  find-append_none (x ∷ xs) ys h = elim (Bool-cases (p x)) [
    | inl e ↦ (let k : some x ≡ none = rw e at h in cc k)
    | inr e ↦ rw e (find-append_none xs ys (rw e at h))
  ]

  -- A row that does not fit changes nothing.
  pub find-append_other : (xs : List R) (r : R) → p r ≡ false → find p (xs ++ r ∷ []) ≡ find p xs
  find-append_other [] r h = rw h refl
  find-append_other (x ∷ xs) r h = elim (Bool-cases (p x)) [
    | inl e ↦ rw e refl
    | inr e ↦ rw e (find-append_other xs r h)
  ]

  pub All-find : (P : R → Type 0) (xs : List R) (a : R) → All P xs → find p xs ≡ some a → P a
  All-find P [] a h f = cc f
  All-find P (x ∷ xs) a (px, h) f = elim (Bool-cases (p x)) [
    | inl e ↦ (let k : some x ≡ some a = rw e at f in let q : x ≡ a = cc k in rw (sym q) px)
    | inr e ↦ All-find P xs a h (rw e at f)
  ]

  pub find-fits : (xs : List R) (a : R) → find p xs ≡ some a → p a ≡ true
  find-fits [] a f = cc f
  find-fits (x ∷ xs) a f = elim (Bool-cases (p x)) [
    | inl e ↦ (let k : some x ≡ some a = rw e at f in let q : x ≡ a = cc k in rw (sym q) e)
    | inr e ↦ find-fits xs a (rw e at f)
  ]

  -- A look-up among the rows that another test keeps, if that keeps all that fit.
  pub find-keep :
      (q : R → Bool) (xs : List R)
      → ((x : R) → p x ≡ true → q x ≡ true)
      → find p (keep q xs) ≡ find p xs
  find-keep q [] h = refl
  find-keep q (x ∷ xs) h = elim (Bool-cases (q x)) [
    | inl k ↦ elim (Bool-cases (p x)) [
      | inl e ↦ rw (k, e) refl
      | inr e ↦ rw (k, e) (find-keep q xs h)
    ]
    | inr k ↦ elim (Bool-cases (p x)) [
      | inl e ↦ (let c : true ≡ false = sym (h x e) ∙ k in cc c)
      | inr e ↦ rw (k, e) (find-keep q xs h)
    ]
  ]
