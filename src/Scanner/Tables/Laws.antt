-- ===== src/Scanner/Tables/Laws.antt =====
-- What a look-up finds in a table once a row has been added or saved.
use gonic.Base.{
  ℕ, suc, ◌<◌, ◌≡◌, refl, sym, ap, subst, ◌∙◌, inl, inr, Bool, true, false, List, [], ◌∷◌, ◌++◌,
  Option, none, some, ℤ, pos, int_eq, int_eq_iff, int_eq_refl, find, All, All-append, arith,
  if◌then◌else◌, Bool-cases,
}
use gonic.Scanner.Tables.{save}
pub use gonic.Scanner.Tables.Lookups.{
  find-append_some, find-append_none, find-append_other, All-find, find-fits, find-keep,
}

module _ {R : Type 0} (id : R → ℤ) where
  -- No two rows have one id, and every id has been given before the next one.
  abbrev pub IsTable : ℕ → List R → Type 0
  IsTable n [] = Unit
  IsTable n (r ∷ rs) =
      ((k : ℕ) × (id r ≡ pos k) × (k < n))
      × All (λ x. int_eq (id x) (id r) ≡ false) rs
      × IsTable n rs

  unfoldable pub saved : R → Option R → Option R
  saved y none = none
  saved y (some r) = some (if int_eq (id r) (id y) then y else r)

  -- The rows with the id of `y` fit as `y` does.
  abbrev pub Agree : (R → Bool) → R → List R → Type 0
  Agree p y = All (λ r. int_eq (id r) (id y) ≡ true → p r ≡ p y)

  find-save_here :
      (p : R → Bool) (y r : R)
      → (int_eq (id r) (id y) ≡ true → p r ≡ p y)
      → p r ≡ true
      → p (if int_eq (id r) (id y) then y else r) ≡ true
  find-save_here p y r g h = elim (Bool-cases (int_eq (id r) (id y))) [
    | inl e ↦ rw e (sym (g e) ∙ h)
    | inr e ↦ rw e h
  ]

  find-save_past :
      (p : R → Bool) (y r : R)
      → (int_eq (id r) (id y) ≡ true → p r ≡ p y)
      → p r ≡ false
      → p (if int_eq (id r) (id y) then y else r) ≡ false
  find-save_past p y r g h = elim (Bool-cases (int_eq (id r) (id y))) [
    | inl e ↦ rw e (sym (g e) ∙ h)
    | inr e ↦ rw e h
  ]

  save-step :
      (y r : R) (rs : List R)
      → save id y (r ∷ rs) ≡ (if int_eq (id r) (id y) then y else r) ∷ save id y rs
  unfolding save
  save-step y r rs = ground arith

  pub find-save :
      (p : R → Bool) (y : R) (rs : List R)
      → Agree p y rs
      → find p (save id y rs) ≡ saved y (find p rs)
  unfolding saved
  find-save p y [] g = unfold save in refl
  find-save p y (r ∷ rs) (g, gs) = elim (Bool-cases (p r)) [
    | inl e ↦ rw (save-step y r rs, find-save_here p y r g e, e) refl
    | inr e ↦ rw (save-step y r rs, find-save_past p y r g e, e) (find-save p y rs gs)
  ]

  same_row-strangers :
      (a : R) (rs : List R)
      → All (λ x. int_eq (id x) (id a) ≡ false) rs
      → All (λ r. int_eq (id r) (id a) ≡ true → r ≡ a) rs
  same_row-strangers a [] d = tt
  same_row-strangers a (x ∷ rs) (d, ds) =
      (λ h. (let c : true ≡ false = sym h ∙ d in cc c), same_row-strangers a rs ds)

  -- The rows with the id of a row that is found are that row.
  pub same_row :
      (q : R → Bool) (a : R) (n : ℕ) (rs : List R)
      → IsTable n rs
      → find q rs ≡ some a
      → All (λ r. int_eq (id r) (id a) ≡ true → r ≡ a) rs
  same_row q a n [] t f = cc
  same_row q a n (r ∷ rs) (b, d, t) f = elim (Bool-cases (q r)) [
    | inl e ↦
        let same : some r ≡ some a = rw e at f in
        let r_is : r ≡ a = cc same in
        (
          λ _. r_is,
          same_row-strangers a rs (subst (λ x. All (λ y. int_eq (id y) (id x) ≡ false) rs) r_is d),
        )
    | inr e ↦
        let f' : find q rs ≡ some a = rw e at f in
        let other : int_eq (id a) (id r) ≡ false = All-find q _ rs a d f' in
        (
          λ h.
              (let c : true ≡ false =
                  sym (int_eq_refl (id a))
                  ∙ ap (int_eq (id a)) (sym ((int_eq_iff (id r) (id a)).0 h))
                  ∙ other in
                cc c),
          same_row q a n rs t f',
        )
  ]

  Agree-same_row :
      (p : R → Bool) (y a : R) (rs : List R)
      → All (λ r. int_eq (id r) (id a) ≡ true → r ≡ a) rs
      → id y ≡ id a
      → p a ≡ p y
      → Agree p y rs
  Agree-same_row p y a [] h i k = tt
  Agree-same_row p y a (r ∷ rs) (g, h) i k =
      (λ e. ap p (g (ap (int_eq (id r)) (sym i) ∙ e)) ∙ k, Agree-same_row p y a rs h i k)

  pub agree :
      (p q : R → Bool) (y a : R) (n : ℕ) (rs : List R)
      → IsTable n rs
      → find q rs ≡ some a
      → id y ≡ id a
      → p a ≡ p y
      → Agree p y rs
  agree p q y a n rs t f = Agree-same_row p y a rs (same_row q a n rs t f)

  -- Two rows that are found and have one id are one row.
  pub found_same :
      (p q : R → Bool) (a b : R) (n : ℕ) (rs : List R)
      → IsTable n rs
      → find p rs ≡ some a
      → find q rs ≡ some b
      → int_eq (id a) (id b) ≡ true
      → a ≡ b
  found_same p q a b n rs t f g = All-find p _ rs a (same_row q b n rs t g) f

  saved-same : (y a : R) → id y ≡ id a → saved y (some a) ≡ some y
  unfolding saved
  saved-same y a i = rw ((int_eq_iff (id a) (id y)).1 (sym i)) refl

  pub find-save_same :
      (p : R → Bool) (y a : R) (n : ℕ) (rs : List R)
      → IsTable n rs
      → find p rs ≡ some a
      → id y ≡ id a
      → p y ≡ true
      → find p (save id y rs) ≡ some y
  find-save_same p y a n rs t f i k =
      find-save p y rs (agree p p y a n rs t f i (find-fits p rs a f ∙ sym k))
      ∙ ap (saved y) f
      ∙ saved-same y a i

  saved-other :
      (p : R → Bool) (y a : R) (o : Option R)
      → p a ≡ false
      → ((c : R) → o ≡ some c → p c ≡ true)
      → ((c : R) → o ≡ some c → int_eq (id c) (id y) ≡ true → c ≡ a)
      → saved y o ≡ o
  unfolding saved
  saved-other p y a none k fits same = refl
  saved-other p y a (some c) k fits same = elim (Bool-cases (int_eq (id c) (id y))) [
    | inl e ↦ (let q : true ≡ false = sym (fits c refl) ∙ ap p (same c refl e) ∙ k in cc q)
    | inr e ↦ rw e refl
  ]

  pub find-save_other :
      (p q : R → Bool) (y a : R) (n : ℕ) (rs : List R)
      → IsTable n rs
      → find q rs ≡ some a
      → id y ≡ id a
      → p a ≡ false
      → p y ≡ false
      → find p (save id y rs) ≡ find p rs
  find-save_other p q y a n rs t f i k k' =
      find-save p y rs (agree p q y a n rs t f i (k ∙ sym k'))
      ∙ saved-other p y a (find p rs) k (λ c g. find-fits p rs c g)
          (λ c g e. found_same p q c a n rs t g f (ap (int_eq (id c)) (sym i) ∙ e))

  -- Saving and adding keep a table.
  save-strangers :
      (y : R) (i : ℤ) (rs : List R)
      → All (λ x. int_eq (id x) i ≡ false) rs
      → All (λ x. int_eq (id x) i ≡ false) (save id y rs)
  save-strangers y i [] d = unfold save in tt
  save-strangers y i (r ∷ rs) (d, ds) = elim (Bool-cases (int_eq (id r) (id y))) [
    | inl e ↦
        rw (save-step y r rs, e)
          (
            ap (λ j. int_eq j i) (sym ((int_eq_iff (id r) (id y)).0 e)) ∙ d,
            save-strangers y i rs ds,
          )
    | inr e ↦ rw (save-step y r rs, e) (d, save-strangers y i rs ds)
  ]

  pub save-IsTable : (n : ℕ) (y : R) (rs : List R) → IsTable n rs → IsTable n (save id y rs)
  save-IsTable n y [] t = unfold save in tt
  save-IsTable n y (r ∷ rs) (b, d, t) = elim (Bool-cases (int_eq (id r) (id y))) [
    | inl e ↦
        let same : id r ≡ id y = (int_eq_iff (id r) (id y)).0 e in
        rw (save-step y r rs, e)
          (
            subst (λ j. (k : ℕ) × (j ≡ pos k) × (k < n)) same b,
            subst (λ j. All (λ x. int_eq (id x) j ≡ false) (save id y rs)) same
                (save-strangers y (id r) rs d),
            save-IsTable n y rs t,
          )
    | inr e ↦ rw (save-step y r rs, e) (b, save-strangers y (id r) rs d, save-IsTable n y rs t)
  ]

  abbrev GivenBefore : ℕ → R → Type 0
  GivenBefore n r = (k : ℕ) × (id r ≡ pos k) × (k < n)

  given-later : (n : ℕ) (r : R) → GivenBefore n r → GivenBefore (suc n) r
  given-later n r (k, e, l) = (k, e, omega arith)

  given-stranger : (n : ℕ) (y r : R) → id y ≡ pos n → GivenBefore n r → int_eq (id y) (id r) ≡ false
  given-stranger n y r e (k, i, l) = rw (e, i) (unfold int_eq in ground arith)

  pub append-IsTable :
      (n : ℕ) (y : R) (rs : List R) → id y ≡ pos n → IsTable n rs → IsTable (suc n) (rs ++ y ∷ [])
  append-IsTable n y [] e t = ((n, e, omega arith), tt, tt)
  append-IsTable n y (r ∷ rs) e (b, d, t) = (
    given-later n r b,
    All-append (λ x. int_eq (id x) (id r) ≡ false) rs (y ∷ []) d (given-stranger n y r e b, tt),
    append-IsTable n y rs e t,
  )
