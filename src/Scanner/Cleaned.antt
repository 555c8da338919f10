-- ===== src/Scanner/Cleaned.antt =====
-- scanner.go: what the clean up leaves.
use gonic.Base.{
  ℕ, zero, suc, ◌≤◌, ◌≡◌, refl, sym, ap, subst, ◌∙◌, inl, inr, Bool, true, false, not, ◌||◌, List,
  [], ◌∷◌, ◌++◌, append_assoc, map, ℤ, int_eq, int_eq_iff, int_eq_refl, keep, take, drop, length,
  All, arith, Bool-cases,
}
use gonic.Scanner.{Row, among, chunked, transaction_chunked, delete_ids, unseen_ids, clean_tracks}

module _ {A : Type 0} where
  pub take-drop : (n : ℕ) (xs : List A) → take n xs ++ drop n xs ≡ xs
  take-drop zero xs = refl
  take-drop (suc n) [] = refl
  take-drop (suc n) (x ∷ xs) = ap (λ l. x ∷ l) (take-drop n xs)

  pub length-drop-le : (n : ℕ) (xs : List A) → length (drop n xs) ≤ length xs
  length-drop-le zero xs = omega arith
  length-drop-le (suc n) [] = omega arith
  length-drop-le (suc n) (x ∷ xs) = omega (arith, length-drop-le n xs)

  keep-same : (p q : A → Bool) (xs : List A) → All (λ x. p x ≡ q x) xs → keep p xs ≡ keep q xs
  keep-same p q [] h = refl
  keep-same p q (x ∷ xs) (e, h) = rw (e, keep-same p q xs h) refl

pub among-append : (xs ys : List ℤ) (i : ℤ) → among (xs ++ ys) i ≡ (among xs i || among ys i)
among-append [] ys i = refl
among-append (x ∷ xs) ys i = ground (arith, among-append xs ys i)

-- Deleting twice is deleting both.
delete_ids-append :
    (xs ys : List ℤ) (rows : List Row)
    → delete_ids ys (delete_ids xs rows) ≡ delete_ids (xs ++ ys) rows
delete_ids-append xs ys [] = refl
delete_ids-append xs ys (r ∷ rows) = elim (Bool-cases (among xs r.id)) [
  | inl e ↦ rw (among-append xs ys r.id, e) (delete_ids-append xs ys rows)
  | inr e ↦ rw (among-append xs ys r.id, e, delete_ids-append xs ys rows) refl
]

keep-all : (rows : List Row) → keep (λ r. true) rows ≡ rows
keep-all [] = refl
keep-all (r ∷ rows) = ap (λ l. r ∷ l) (keep-all rows)

-- With enough fuel the chunks together are the whole.
chunked-delete_ids :
    (fuel : ℕ) (ids : List ℤ) (rows : List Row)
    → length ids ≤ fuel
    → chunked fuel delete_ids ids rows ≡ delete_ids ids rows
unfolding chunked
chunked-delete_ids zero [] rows l = sym (keep-all rows)
chunked-delete_ids zero (i ∷ is) rows l = absurd (omega arith)
chunked-delete_ids (suc fuel) [] rows l = sym (keep-all rows)
chunked-delete_ids (suc fuel) (i ∷ is) rows l =
    chunked-delete_ids fuel (drop 998 is) (delete_ids (i ∷ take 998 is) rows)
      (omega (arith, length-drop-le 998 is))
    ∙ delete_ids-append (i ∷ take 998 is) (drop 998 is) rows
    ∙ ap (λ l. delete_ids (i ∷ l) rows) (take-drop 998 is)

module _ (seen : List ℤ) where
  abbrev unseen : ℤ → Bool
  unseen i = not (among seen i)

  among-seen : (i : ℤ) (ids : List ℤ) → among seen i ≡ true → among (keep unseen ids) i ≡ false
  among-seen i [] h = refl
  among-seen i (j ∷ js) h = elim (Bool-cases (among seen j)) [
    | inl e ↦ rw e (among-seen i js h)
    | inr e ↦ elim (Bool-cases (int_eq i j)) [
      | inl same ↦
          let bad : true ≡ false = sym h ∙ ap (among seen) ((int_eq_iff i j).0 same) ∙ e in cc bad
      | inr other ↦ rw (e, among-seen i js h) (rw other refl)
    ]
  ]

  pub among-unseen :
      (i : ℤ) (ids : List ℤ)
      → among seen i ≡ false
      → among ids i ≡ true
      → among (keep unseen ids) i ≡ true
  among-unseen i [] h k = cc k
  among-unseen i (j ∷ js) h k = elim (Bool-cases (int_eq i j)) [
    | inl same ↦
        let at : among seen j ≡ false = sym (ap (among seen) ((int_eq_iff i j).0 same)) ∙ h in
        rw at (rw same refl)
    | inr other ↦ elim (Bool-cases (among seen j)) [
      | inl e ↦ rw e (among-unseen i js h (rw other at k))
      | inr e ↦ rw (e, among-unseen i js h (rw other at k)) (ground arith)
    ]
  ]

  among-unseen_ids :
      (i : ℤ) (rows : List Row)
      → among (map (λ r. r.id) rows) i ≡ true
      → not (among (unseen_ids seen rows) i) ≡ among seen i
  among-unseen_ids i rows h = elim (Bool-cases (among seen i)) [
    | inl e ↦ rw (e, among-seen i (map (λ r. r.id) rows) e) refl
    | inr e ↦ rw (e, among-unseen i (map (λ r. r.id) rows) e h) refl
  ]

  -- Each of some rows is one of the ids behind some others.
  rows-among :
      (front : List ℤ) (rows : List Row)
      → All (λ r. among (front ++ map (λ r. r.id) rows) r.id ≡ true) rows
  rows-among front [] = tt
  rows-among front (r ∷ rows) = (
    rw (among-append front (r.id ∷ map (λ r. r.id) rows) r.id, int_eq_refl r.id) (ground arith),
    subst (λ l. All (λ x. among l x.id ≡ true) rows)
        (append_assoc front (r.id ∷ []) (map (λ r. r.id) rows))
        (rows-among (front ++ r.id ∷ []) rows),
  )

  All-unseen_ids :
      (all_rows rows : List Row)
      → All (λ r. among (map (λ r. r.id) all_rows) r.id ≡ true) rows
      → All (λ r. not (among (unseen_ids seen all_rows) r.id) ≡ among seen r.id) rows
  All-unseen_ids all_rows [] h = tt
  All-unseen_ids all_rows (r ∷ rows) (k, h) =
      (among-unseen_ids r.id all_rows k, All-unseen_ids all_rows rows h)

  delete-unseen_ids :
      (rows : List Row)
      → transaction_chunked delete_ids (unseen_ids seen rows) rows
        ≡ keep (λ r. among seen r.id) rows
  unfolding transaction_chunked
  delete-unseen_ids rows =
      chunked-delete_ids (length (unseen_ids seen rows)) (unseen_ids seen rows) rows (omega arith)
      ∙ keep-same (λ r. not (among (unseen_ids seen rows) r.id)) (λ r. among seen r.id) rows
          (All-unseen_ids rows rows (rows-among [] rows))

  -- `cleanTracks` leaves of the tracks exactly those that the scan has seen, in their order and however
  -- many chunks the others are deleted in.
  pub clean_lem :
      (tracks : List Row) → clean_tracks seen tracks ≡ keep (λ r. among seen r.id) tracks
  unfolding clean_tracks
  clean_lem tracks = delete-unseen_ids tracks
