-- ===== src/Scanner/Emptied/Lists.antt =====
-- The rows that are left when those with some ids are deleted or changed.
use gonic.Base.{
  ℕ, ◌≡◌, refl, sym, ap, subst, ◌∙◌, inl, inr, Bool, true, false, not, ◌||◌, List, [], ◌∷◌, some,
  map, ℤ, int_eq, int_eq_iff, int_eq_refl, any, find, keep, All, Bool-cases,
}
use gonic.Scanner.{among}
use gonic.Scanner.Tables.Laws.{IsTable, All-find}

module _ {R : Type 0} (id : R → ℤ) (q : R → Bool) where
  among-strangers :
      (i : ℤ) (rs : List R)
      → All (λ x. int_eq (id x) i ≡ false) rs
      → among (map id (keep q rs)) i ≡ false
  among-strangers i [] d = refl
  among-strangers i (r ∷ rs) (d, ds) = elim (Bool-cases (q r)) [
    | inl e ↦ rw (e, among-strangers i rs ds) (flip i (id r) d)
    | inr e ↦ rw e (among-strangers i rs ds)
  ]
    where
      flip : (a b : ℤ) → int_eq b a ≡ false → (int_eq a b || false) ≡ false
      flip a b h = elim (Bool-cases (int_eq a b)) [
        | inl e ↦
            let same : a ≡ b = (int_eq_iff a b).0 e in
            let k : true ≡ false = sym ((int_eq_iff b a).1 (sym same)) ∙ h in cc k
        | inr e ↦ rw e refl
      ]

  -- The id of a row that is found is among the ids of the rows that are kept if that row is.
  pub among-kept :
      (p : R → Bool) (a : R) (n : ℕ) (rs : List R)
      → IsTable id n rs
      → find p rs ≡ some a
      → among (map id (keep q rs)) (id a) ≡ q a
  among-kept p a n [] t f = cc
  among-kept p a n (r ∷ rs) (b, d, t) f = elim (Bool-cases (p r)) [
    | inl e ↦
        let k : some r ≡ some a = rw e at f in
        let r_is : r ≡ a = cc k in
        subst (λ x. among (map id (keep q (r ∷ rs))) (id x) ≡ q x) r_is here
    | inr e ↦
        let f' : find p rs ≡ some a = rw e at f in
        let other : int_eq (id a) (id r) ≡ false = All-find p _ rs a d f' in
        there other (among-kept p a n rs t f')
  ]
    where
      here : among (map id (keep q (r ∷ rs))) (id r) ≡ q r
      here = elim (Bool-cases (q r)) [
        | inl e ↦ rw (e, int_eq_refl (id r)) refl
        | inr e ↦ rw (e, among-strangers (id r) rs d) refl
      ]

      there :
          int_eq (id a) (id r) ≡ false
          → among (map id (keep q rs)) (id a) ≡ q a
          → among (map id (keep q (r ∷ rs))) (id a) ≡ q a
      there o h = elim (Bool-cases (q r)) [ inl e ↦ rw (e, o) h | inr e ↦ rw e h ]

module _ {R : Type 0} (f : R → R) (p : R → Bool) (same : (r : R) → p (f r) ≡ p r) where
  pub find-map : (rs : List R) (a : R) → find p rs ≡ some a → find p (map f rs) ≡ some (f a)
  find-map [] a h = cc h
  find-map (r ∷ rs) a h = elim (Bool-cases (p r)) [
    | inl e ↦
        let k : some r ≡ some a = rw e at h in
        let r_is : r ≡ a = cc k in rw (same r, e) (ap (λ x. some (f x)) r_is)
    | inr e ↦ rw (same r, e) (find-map rs a (rw e at h))
  ]

module _ {R : Type 0} (owner : R → ℤ) where
  pub none-left :
      (ids : List ℤ) (i : ℤ) (rs : List R)
      → among ids i ≡ true
      → any (λ r. int_eq (owner r) i) (keep (λ r. not (among ids (owner r))) rs) ≡ false
  none-left ids i [] h = refl
  none-left ids i (r ∷ rs) h = elim (Bool-cases (among ids (owner r))) [
    | inl e ↦ rw e (none-left ids i rs h)
    | inr e ↦ rw (e, none-left ids i rs h) (differs e)
  ]
    where
      differs : among ids (owner r) ≡ false → (int_eq (owner r) i || false) ≡ false
      differs e = elim (Bool-cases (int_eq (owner r) i)) [
        | inl k ↦
            let c : true ≡ false =
              sym h ∙ ap (among ids) (sym ((int_eq_iff (owner r) i).0 k)) ∙ e in
            cc c
        | inr k ↦ rw k refl
      ]

  pub own-left :
      (ids : List ℤ) (i : ℤ) (rs : List R)
      → among ids i ≡ false
      → keep (λ r. int_eq (owner r) i) (keep (λ r. not (among ids (owner r))) rs)
        ≡ keep (λ r. int_eq (owner r) i) rs
  own-left ids i [] h = refl
  own-left ids i (r ∷ rs) h = elim (Bool-cases (among ids (owner r))) [
    | inl e ↦ elim (Bool-cases (int_eq (owner r) i)) [
      | inl k ↦
          let c : true ≡ false = sym e ∙ ap (among ids) ((int_eq_iff (owner r) i).0 k) ∙ h in cc c
      | inr k ↦ rw (e, k) (own-left ids i rs h)
    ]
    | inr e ↦ rw (e, own-left ids i rs h) refl
  ]
