-- ===== src/Scanner/Isrcs.antt =====
-- scanner.go, db.go: the codes of tracks when two tracks have one code.
use gonic.Base.{
  ◌≡◌, refl, sym, ◌∙◌, inl, inr, Bool, true, false, not, ◌&&◌, ◌||◌, List, [], ◌∷◌, ◌++◌, Str,
  str_eq, str_eq_iff, ℤ, int_eq, any, keep, arith, if◌then◌else◌, Bool-cases,
}
use gonic.Scanner.Tables.{Mark, Tables, insert_bulk, same_isrc}
use gonic.Scanner.Populate.{marks, not_blank, populate_track_isrcs}

module _ (i : ℤ) (isrc : Str) where
  abbrev pub is_own : Mark → Bool
  is_own m = int_eq m.owner i && str_eq m.text isrc

  abbrev pub is_of_other : Mark → Bool
  is_of_other m = not (int_eq m.owner i) && str_eq m.text isrc

  any-append : (p : Mark → Bool) (xs ys : List Mark) → any p (xs ++ ys) ≡ (any p xs || any p ys)
  any-append p [] ys = refl
  any-append p (x ∷ xs) ys = ground (arith, any-append p xs ys)

  -- A row with another track's code is not inserted.
  taken :
      (m : Mark) (table : List Mark)
      → str_eq m.text isrc ≡ true
      → any is_of_other table ≡ true
      → any (same_isrc m) table ≡ true
  taken m [] e h = cc h
  taken m (x ∷ table) e h = elim (Bool-cases (is_of_other x)) [
    | inl k ↦
        let x_is : str_eq x.text isrc ≡ true = ground (arith, k) in
        let same : m.text ≡ x.text =
          (str_eq_iff m.text isrc).0 e ∙ sym ((str_eq_iff x.text isrc).0 x_is) in
        let found : str_eq m.text x.text ≡ true = (str_eq_iff m.text x.text).1 same in
        ground (arith, found)
    | inr k ↦ let rest = taken m table e (rw k at h) in ground (arith, rest)
  ]

  strange :
      (m : Mark) (table : List Mark)
      → any is_of_other table ≡ true
      → any (same_isrc m) table ≡ false
      → str_eq m.text isrc ≡ false
  strange m table h e = elim (Bool-cases (str_eq m.text isrc)) [
    | inl k ↦ (let c : true ≡ false = sym (taken m table k h) ∙ e in cc c)
    | inr k ↦ k
  ]

  inserted :
      (texts : List Str) (table : List Mark)
      → any is_of_other table ≡ true
      → any is_own table ≡ false
      → any is_own (insert_bulk same_isrc (marks i texts) table) ≡ false
  unfolding insert_bulk
  inserted [] table h n = n
  inserted (s ∷ texts) table h n = pick (inserted texts) (any (same_isrc (row_of s)) table) refl
    where
      row_of : Str → Mark
      row_of s = record { owner = i; text = s }

      pick :
          ((table' : List Mark)
            → any is_of_other table' ≡ true
            → any is_own table' ≡ false
            → any is_own (insert_bulk same_isrc (marks i texts) table') ≡ false)
          → (b : Bool) → any (same_isrc (row_of s)) table ≡ b
          → any is_own
              (insert_bulk same_isrc (marks i texts) (if b then table else table ++ row_of s ∷ []))
            ≡ false
      pick go true e = go table h n
      pick go false e =
          go (table ++ row_of s ∷ []) (any-append is_of_other table (row_of s ∷ []) ∙ rw h refl) (
            any-append is_own table (row_of s ∷ [])
            ∙ ground (arith, n, strange (row_of s) table h e))

  others_stay :
      (table : List Mark)
      → any is_of_other table ≡ true
      → any is_of_other (keep (λ m. not (int_eq m.owner i)) table) ≡ true
  others_stay [] h = cc h
  others_stay (m ∷ table) h = elim (Bool-cases (int_eq m.owner i)) [
    | inl e ↦ rw e (others_stay table (rw e at h))
    | inr e ↦ elim (Bool-cases (str_eq m.text isrc)) [
      | inl k ↦ rw e (ground (arith, e, k))
      | inr k ↦
          let rest = others_stay table (ground (arith, h, e, k)) in
          rw e (ground (arith, e, k, rest))
    ]
  ]

  own_go : (table : List Mark) → any is_own (keep (λ m. not (int_eq m.owner i)) table) ≡ false
  own_go [] = refl
  own_go (m ∷ table) = elim (Bool-cases (int_eq m.owner i)) [
    | inl e ↦ rw e (own_go table)
    | inr e ↦ rw e (ground (arith, e, own_go table))
  ]

  -- If another track has a code, a track whose tags give that code is left without it, whatever the
  -- other codes of its tags are.
  pub populate_track_isrcs-taken :
      (isrcs : List Str) (t : Tables)
      → any is_of_other t.track_isrcs ≡ true
      → any is_own (populate_track_isrcs i isrcs t).track_isrcs ≡ false
  unfolding populate_track_isrcs
  populate_track_isrcs-taken isrcs t h =
      inserted (keep not_blank isrcs) (keep (λ m. not (int_eq m.owner i)) t.track_isrcs)
        (others_stay t.track_isrcs h) (own_go t.track_isrcs)
