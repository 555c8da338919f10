-- ===== src/Scanner/Genres.antt =====
-- scanner.go: the rows of the genres of a track or an album.
use gonic.Base.{
  ◌≡◌, refl, ap, ◌∙◌, inl, inr, Bool, true, false, List, [], ◌∷◌, ◌++◌, ℤ, int_eq, int_eq_iff,
  int_key, arith, if◌then◌else◌, Bool-cases,
}
use gonic.Scanner.{among, add_genres, genre_rows}

abbrev pub count : ℤ → List (ℤ × Bool) → List Bool
count i [] = []
count i ((j, b) ∷ rows) = if int_eq i j then b ∷ count i rows else count i rows

count-append : (i : ℤ) (xs ys : List (ℤ × Bool)) → count i (xs ++ ys) ≡ count i xs ++ count i ys
count-append i [] ys = refl
count-append i ((j, b) ∷ xs) ys = elim (Bool-cases (int_eq i j)) [
  | inl e ↦ rw (e, count-append i xs ys) refl
  | inr e ↦ rw (e, count-append i xs ys) refl
]

-- What one loop adds for an id.
abbrev once : Bool → Bool → Bool → List Bool
once inherited is_seen is_given = if is_seen then [] else if is_given then inherited ∷ [] else []

count-add_genres :
    (i : ℤ) (inherited : Bool) (seen ids : List ℤ)
    → count i (add_genres inherited seen ids) ≡ once inherited (among seen i) (among ids i)
unfolding add_genres
count-add_genres i inherited seen [] = ground arith
count-add_genres i inherited seen (j ∷ js) = elim (Bool-cases (among seen j)) [
  | inl e ↦ elim (Bool-cases (int_eq i j)) [
    | inl same ↦
        let at : among seen i ≡ true = ap (among seen) ((int_eq_iff i j).0 same) ∙ e in
        rw e (count-add_genres i inherited seen js ∙ rw at refl)
    | inr other ↦ rw e (count-add_genres i inherited seen js ∙ rw other refl)
  ]
  | inr e ↦ elim (Bool-cases (int_eq i j)) [
    | inl same ↦
        let at : among seen i ≡ false = ap (among seen) ((int_eq_iff i j).0 same) ∙ e in
        let rest : count i (add_genres inherited (j ∷ seen) js) ≡ [] =
          count-add_genres i inherited (j ∷ seen) js ∙ rw same refl in
        rw (e, same, at) (ap (λ l. inherited ∷ l) rest)
    | inr other ↦ rw (e, other) (count-add_genres i inherited (j ∷ seen) js ∙ rw other refl)
  ]
]

-- Every genre that is given has exactly one row, however often it is given: a direct one if it is
-- given directly, an inherited one if it is only inherited; and no other genre has a row.
pub count-genre_rows :
    (i : ℤ) (direct_ids inherited_ids : List ℤ)
    → count i (genre_rows direct_ids inherited_ids)
      ≡ (if among direct_ids i then false ∷ [] else if among inherited_ids i then true ∷ [] else [])
unfolding genre_rows
count-genre_rows i direct_ids inherited_ids =
    count-append i (add_genres false [] direct_ids) (add_genres true direct_ids inherited_ids)
    ∙ rw (count-add_genres i false [] direct_ids, count-add_genres i true direct_ids inherited_ids)
        (ground arith)
