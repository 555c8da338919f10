-- ===== src/Playlist/Removal.antt =====
-- handlers_playlist.go: the removal of songs by their indexes.
use gonic.Base.{
  ℕ, zero, suc, ◌+◌, ◌<◌, ◌≡◌, ◌≢◌, refl, sym, ap, ◌∙◌, inl, inr, Bool, true, false, ◌||◌, List, [],
  ◌∷◌, none, some, ok, err, Str, All, any, length, ℤ, pos, negsuc, int_eq, arith, ltb,
  if◌then◌else◌, ◌==◌, Bool-cases, Option-cases, not,
}
use gonic.Playlist.Handlers.{
  panic, remove_nth, put_back, remove_each, int_le, insert_downward, sort_downward, remove_items,
}

-- The indexes that a list of so many items has.
abbrev pub InRange : ℕ → ℤ → Type 0
InRange n (pos i) = i < n
InRange n (negsuc i) = ⊥

abbrev pub Distinct : List ℤ → Type 0
Distinct [] = Unit
Distinct (i ∷ is) = All (λ j. i ≢ j) is × Distinct is

-- The items from position `k` on, less those at the positions `is`.
unfoldable pub without : List ℤ → ℕ → List Str → List Str
without is k [] = []
without is k (x ∷ xs) =
    let rest = without is (suc k) xs in if any (int_eq (pos k)) is then rest else x ∷ rest

abbrev Downward : List ℤ → Type 0
Downward [] = Unit
Downward (pos i ∷ is) = All (InRange i) is × Downward is
Downward (negsuc i ∷ is) = ⊥

any-below : (k : ℕ) (is : List ℤ) → All (InRange k) is → any (int_eq (pos k)) is ≡ false
unfolding int_eq
any-below k [] h = refl
any-below k (pos i ∷ is) (l, h) = ground (arith, any-below k is h)
any-below k (negsuc i ∷ is) (l, h) = absurd l

InRange-mono : (m n : ℕ) (is : List ℤ) → m < suc n → All (InRange m) is → All (InRange n) is
InRange-mono m n [] l h = tt
InRange-mono m n (pos i ∷ is) l (p, h) = (omega arith, InRange-mono m n is l h)
InRange-mono m n (negsuc i ∷ is) l (p, h) = absurd p

-- Behind the last position nothing is taken out.
without-behind : (is : List ℤ) (k : ℕ) (xs : List Str) → All (InRange k) is → without is k xs ≡ xs
unfolding without
without-behind is k [] h = refl
without-behind is k (x ∷ xs) h =
    rw (any-below k is h)
      (ap (λ l. x ∷ l) (without-behind is (suc k) xs (InRange-mono k (suc k) is (omega arith) h)))

without-first :
    (k : ℕ) (is : List ℤ) (x : Str) (xs : List Str)
    → All (InRange k) is
    → without (pos k ∷ is) k (x ∷ xs) ≡ xs
unfolding without int_eq
without-first k is x xs h =
    let same : (k == k) ≡ true = ground arith in
    rw same (
      without-behind (pos k ∷ is) (suc k) xs
        (omega arith, InRange-mono k (suc k) is (omega arith) h))

without-later :
    (m k : ℕ) (is : List ℤ) (x : Str) (xs ys : List Str)
    → k < m
    → without is (suc k) ys ≡ without (pos m ∷ is) (suc k) xs
    → without is k (x ∷ ys) ≡ without (pos m ∷ is) k (x ∷ xs)
unfolding without int_eq
without-later m k is x xs ys l e = let later : (k == m) ≡ false = ground arith in rw (later, e) refl

without-remove_nth :
    (i m k : ℕ) (is : List ℤ) (items rest : List Str)
    → m ≡ k + i
    → remove_nth i items ≡ some rest
    → All (InRange m) is
    → without is k rest ≡ without (pos m ∷ is) k items
unfolding remove_nth
without-remove_nth i m k is [] rest q e h = cc e
without-remove_nth zero m k is (x ∷ xs) rest q e h =
    let r : xs ≡ rest = cc e in
    let at : m ≡ k = omega arith in
    let below = InRange-mono m k is (omega arith) h in
    sym (ap (without is k) r)
    ∙ without-behind is k xs below
    ∙ rw at (sym (without-first k is x xs below))
without-remove_nth (suc i) m k is (x ∷ xs) rest q e h = elim (Option-cases (remove_nth i xs)) [
  | inl n ↦ (let b : put_back x none ≡ some rest = rw n at e in cc b)
  | inr (ys, n) ↦
      let b : put_back x (some ys) ≡ some rest = rw n at e in
      let r : x ∷ ys ≡ rest = cc b in
      let ih = without-remove_nth i m (suc k) is xs ys (omega arith) n h in
      sym (ap (without is k) r) ∙ without-later m k is x xs ys (omega arith) ih
]

remove_nth-some :
    (i : ℕ) (items : List Str)
    → i < length items
    → (rest : List Str) × (remove_nth i items ≡ some rest) × (suc (length rest) ≡ length items)
unfolding remove_nth
remove_nth-some i [] l = absurd (omega arith)
remove_nth-some zero (x ∷ xs) l = (xs, refl, refl)
remove_nth-some (suc i) (x ∷ xs) l =
    let (rest, e, n) = remove_nth-some i xs (omega arith) in
    (x ∷ rest, rw (remove_nth, e) refl, omega (arith, n))

remove_each-Downward :
    (is : List ℤ) (items : List Str)
    → Downward is
    → All (InRange (length items)) is
    → remove_each is items ≡ some (without is 0 items)
unfolding remove_each
remove_each-Downward [] items d h = ap (λ l. some l) (sym (without-behind [] 0 items tt))
remove_each-Downward (negsuc i ∷ is) items d h = absurd d
remove_each-Downward (pos i ∷ is) items (below, d) (l, h) =
    let (rest, e, n) = remove_nth-some i items l in
    rw (remove_each, e)
      (remove_each-Downward is rest d (InRange-mono i (length rest) is (omega arith) below)
        ∙ ap (λ l. some l) (without-remove_nth i i 0 is items rest (omega arith) e below))

-- Sorting keeps what holds of all indexes, and which there are.
module _ {κ} (P : ℤ → Type κ) where
  All-insert_downward : (i : ℤ) (is : List ℤ) → P i → All P is → All P (insert_downward i is)
  unfolding insert_downward
  All-insert_downward i [] p h = (p, tt)
  All-insert_downward i (j ∷ js) p (q, h) = elim (Bool-cases (int_le j i)) [
    | inl e ↦ rw e (p, (q, h))
    | inr e ↦ rw e (q, All-insert_downward i js p h)
  ]

  All-sort_downward : (is : List ℤ) → All P is → All P (sort_downward is)
  unfolding sort_downward
  All-sort_downward [] h = tt
  All-sort_downward (i ∷ is) (p, h) =
      All-insert_downward i (sort_downward is) p (All-sort_downward is h)

module _ (p : ℤ → Bool) where
  any-insert_downward : (i : ℤ) (is : List ℤ) → any p (insert_downward i is) ≡ (p i || any p is)
  unfolding insert_downward
  any-insert_downward i [] = refl
  any-insert_downward i (j ∷ js) = elim (Bool-cases (int_le j i)) [
    | inl e ↦ rw e refl
    | inr e ↦ rw (e, any-insert_downward i js) (ground arith)
  ]

  any-sort_downward : (is : List ℤ) → any p (sort_downward is) ≡ any p is
  unfolding sort_downward
  any-sort_downward [] = refl
  any-sort_downward (i ∷ is) =
      any-insert_downward i (sort_downward is) ∙ ap (λ b. p i || b) (any-sort_downward is)

insert_downward-Downward :
    (i : ℕ) (is : List ℤ)
    → Downward is
    → All (λ j. pos i ≢ j) is
    → Downward (insert_downward (pos i) is)
unfolding insert_downward
insert_downward-Downward i [] d h = (tt, tt)
insert_downward-Downward i (negsuc j ∷ js) d h = absurd d
insert_downward-Downward i (pos j ∷ js) (below, d) (n, h) =
    elim (Bool-cases (int_le (pos j) (pos i))) [
      | inl e ↦
          let l : j < i = ground (arith, n, ap pos) in
          rw e ((l, InRange-mono j i js (omega arith) below), (below, d))
      | inr e ↦ rw e (
        All-insert_downward (InRange j) (pos i) js (ground arith) below,
        insert_downward-Downward i js d h,
      )
    ]

sort_downward-Downward :
    (n : ℕ) (is : List ℤ) → All (InRange n) is → Distinct is → Downward (sort_downward is)
unfolding sort_downward
sort_downward-Downward n [] r d = tt
sort_downward-Downward n (negsuc i ∷ is) (l, r) d = absurd l
sort_downward-Downward n (pos i ∷ is) (l, r) (h, d) =
    insert_downward-Downward i (sort_downward is) (sort_downward-Downward n is r d)
      (All-sort_downward (λ j. pos i ≢ j) is h)

without-same :
    (is js : List ℤ) (k : ℕ) (xs : List Str)
    → ((i : ℕ) → any (int_eq (pos i)) is ≡ any (int_eq (pos i)) js)
    → without is k xs ≡ without js k xs
unfolding without
without-same is js k [] h = refl
without-same is js k (x ∷ xs) h = rw (h k, without-same is js (suc k) xs h) refl

-- With distinct indexes, each that of an item, exactly the items at them are removed, in whatever
-- order the indexes are given.
pub remove_items-without :
    (is : List ℤ) (items : List Str)
    → All (InRange (length items)) is
    → Distinct is
    → remove_items (is, none) items ≡ ok (without is 0 items)
unfolding remove_items
remove_items-without is items r d =
    rw
      (remove_each-Downward (sort_downward is) items (sort_downward-Downward (length items) is r d)
        (All-sort_downward (InRange (length items)) is r))
      (ap (λ l. ok l)
        (without-same (sort_downward is) is 0 items (λ i. any-sort_downward (int_eq (pos i)) is)))

abbrev out_of_range : ℕ → ℤ → Bool
out_of_range n (pos i) = not (ltb i n)
out_of_range n (negsuc i) = true

out_of_range_mono :
    (n : ℕ) (is : List ℤ) → any (out_of_range (suc n)) is ≡ true → any (out_of_range n) is ≡ true
out_of_range_mono n [] h = cc h
out_of_range_mono n (pos i ∷ is) h = ground (arith, h, out_of_range_mono n is)
out_of_range_mono n (negsuc i ∷ is) h = refl

remove_nth-none :
    (i : ℕ) (items : List Str) → ltb i (length items) ≡ false → remove_nth i items ≡ none
unfolding remove_nth
remove_nth-none i [] h = refl
remove_nth-none zero (x ∷ xs) h = absurd (ground arith)
remove_nth-none (suc i) (x ∷ xs) h = rw (remove_nth-none i xs (ground arith)) refl

remove_each-none :
    (is : List ℤ) (items : List Str)
    → any (out_of_range (length items)) is ≡ true
    → remove_each is items ≡ none
unfolding remove_each
remove_each-none [] items h = cc h
remove_each-none (negsuc i ∷ is) items h = refl
remove_each-none (pos i ∷ is) items h = elim (Bool-cases (ltb i (length items))) [
  | inr e ↦ rw (remove_each, remove_nth-none i items e) refl
  | inl e ↦
      let (rest, q, n) = remove_nth-some i items (ground (arith, e)) in
      let more : any (out_of_range (suc (length rest))) is ≡ true = rw n (ground (arith, h, e)) in
      rw (remove_each, q) (remove_each-none is rest (out_of_range_mono (length rest) is more))
]

-- An index that no item has, negative ones included, makes the removal panic.
pub remove_items-panic :
    (is : List ℤ) (items : List Str)
    → any (out_of_range (length items)) is ≡ true
    → remove_items (is, none) items ≡ err panic
unfolding remove_items
remove_items-panic is items h =
    rw
      (remove_each-none (sort_downward is) items
        (any-sort_downward (out_of_range (length items)) is ∙ h))
      refl
