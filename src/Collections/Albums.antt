-- ===== src/Collections/Albums.antt =====
-- collection.go and heal.go: the album list of a collection across writes and scans.
use gonic.Base.{
  ℕ, ◌+◌, ◌≤◌, ◌≡◌, ◌≢◌, refl, sym, ap, ◌∙◌, inl, inr, Bool, true, false, not, List, [], ◌∷◌, ◌++◌,
  append-nil, none, some, arith, ℤ, int_eq, int_eq_iff, int_eq_refl, keep, Option-cases, Bool-cases,
}
use mathlib.Core.Path.{ap₂}
use native.Mathlib.Nat.{le_refl}
use gonic.Db.{Album, CollectionAlbum, Db, album_by_id}
use gonic.Collections.{
  entry, entries, set_albums, insert_by_position, by_position, in_collection, linked_ids, album_ids,
}

abbrev pub has_album : List Album → ℤ → Bool
has_album albums i = elim (album_by_id i albums) [ none ↦ false | some a ↦ true ]

keep-append {ℓ} :
    {A : Type ℓ} (p : A → Bool) (xs ys : List A) → keep p (xs ++ ys) ≡ keep p xs ++ keep p ys
keep-append p [] ys = refl
keep-append p (x ∷ xs) ys = ground (arith, keep-append p xs ys)

keep_none :
    (c : ℤ) (es : List CollectionAlbum)
    → keep (in_collection c) (keep (λ e. not (int_eq e.collection_id c)) es) ≡ []
keep_none c [] = refl
keep_none c (e ∷ es) = elim (Bool-cases (int_eq e.collection_id c)) [
  | inl h ↦ rw h (keep_none c es)
  | inr h ↦ rw (h, h) (keep_none c es)
]

pub int_eq-false : (a b : ℤ) → a ≢ b → int_eq a b ≡ false
int_eq-false a b h = ground (arith, int_eq_iff a b)

pub keep_others :
    (c d : ℤ) (es : List CollectionAlbum)
    → c ≢ d
    → keep (in_collection c) (keep (λ e. not (int_eq e.collection_id d)) es)
      ≡ keep (in_collection c) es
keep_others c d [] n = refl
keep_others c d (e ∷ es) n = elim (Bool-cases (int_eq e.collection_id d)) [
  | inl h ↦
      let q : e.collection_id ≢ c = λ r. n (sym r ∙ (int_eq_iff e.collection_id d).0 h) in
      rw (h, int_eq-false e.collection_id c q) (keep_others c d es n)
  | inr h ↦ rw h (elim (Bool-cases (int_eq e.collection_id c)) [
    | inl k ↦ rw k (ap (λ l. e ∷ l) (keep_others c d es n))
    | inr k ↦ rw k (keep_others c d es n)
  ])
]

find-int_eq : (i : ℤ) (a : Album) (albums : List Album) → album_by_id i albums ≡ some a → a.id ≡ i
find-int_eq i a [] h = cc
find-int_eq i a (b ∷ albums) h = elim (Bool-cases (int_eq b.id i)) [
  | inl e ↦
      let h' : some b ≡ some a = rw e at h in
      let q : b ≡ a = cc h' in ap (λ x. x.id) (sym q) ∙ (int_eq_iff b.id i).0 e
  | inr e ↦ find-int_eq i a albums (rw e at h)
]

-- Positions rise along the rows, from at least `low`.
abbrev Rising : ℕ → List CollectionAlbum → Type 0
Rising low [] = Unit
Rising low (e ∷ es) = (low ≤ e.position) × Rising (e.position + 1) es

by_position-Rising : (low : ℕ) (es : List CollectionAlbum) → Rising low es → by_position es ≡ es
unfolding by_position insert_by_position
by_position-Rising low [] h = refl
by_position-Rising low (e ∷ []) h = refl
by_position-Rising low (e ∷ f ∷ es) h =
    rw (by_position-Rising (e.position + 1) (f ∷ es) h.1) (ground arith)

module _ (albums : List Album) (c : ℤ) where
  entries-Rising : (n : ℕ) (ids : List ℤ) → Rising n (entries albums c n ids)
  unfolding entries
  entries-Rising n [] = tt
  entries-Rising n (i ∷ ids) = elim (Option-cases (album_by_id i albums)) [
    | inl e ↦ rw (e, entries) (entries-Rising n ids)
    | inr (a, e) ↦ rw (e, entries) (le_refl n, entries-Rising (n + 1) ids)
  ]

  keep-entries :
      (n : ℕ) (ids : List ℤ)
      → keep (in_collection c) (entries albums c n ids) ≡ entries albums c n ids
  unfolding entries
  keep-entries n [] = refl
  keep-entries n (i ∷ ids) = elim (Option-cases (album_by_id i albums)) [
    | inl e ↦ rw (e, entries) (keep-entries n ids)
    | inr (a, e) ↦
        rw (e, entries) (rw (int_eq_refl c) (ap (λ l. entry c n a ∷ l) (keep-entries (n + 1) ids)))
  ]

  keep-entries_other :
      (d : ℤ) (n : ℕ) (ids : List ℤ) → d ≢ c → keep (in_collection d) (entries albums c n ids) ≡ []
  unfolding entries
  keep-entries_other d n [] h = refl
  keep-entries_other d n (i ∷ ids) h = elim (Option-cases (album_by_id i albums)) [
    | inl e ↦ rw (e, entries) (keep-entries_other d n ids h)
    | inr (a, e) ↦
        rw (e, entries)
          (rw (int_eq-false c d (λ q. h (sym q))) (keep-entries_other d (n + 1) ids h))
  ]

  linked_ids-entries :
      (n : ℕ) (ids : List ℤ) → linked_ids (entries albums c n ids) ≡ keep (has_album albums) ids
  unfolding entries linked_ids
  linked_ids-entries n [] = refl
  linked_ids-entries n (i ∷ ids) = elim (Option-cases (album_by_id i albums)) [
    | inl e ↦ rw (e, entries, has_album) (linked_ids-entries n ids)
    | inr (a, e) ↦
        rw (e, entries, has_album)
          (ap₂ (λ j l. j ∷ l) (find-int_eq i a albums e) (linked_ids-entries (n + 1) ids))
  ]

-- After `SetAlbums` the collection has the given albums in the given order, each as often as it was
-- given, but for the ids that no album has; any other collection has the albums that it had.
pub album_ids-set_albums :
    (c d : ℤ) (ids : List ℤ) (db : Db)
    → d ≢ c
    → (album_ids c (set_albums c ids db) ≡ keep (has_album db.albums) ids)
      × (album_ids d (set_albums c ids db) ≡ album_ids d db)
unfolding album_ids set_albums
album_ids-set_albums c d ids db n = (own, others)
  where
    rest : List CollectionAlbum
    rest = keep (λ e. not (int_eq e.collection_id c)) db.collection_albums

    own :
        linked_ids (by_position (keep (in_collection c) (rest ++ entries db.albums c 0 ids)))
        ≡ keep (has_album db.albums) ids
    own =
        rw
          (
            keep-append (in_collection c) rest (entries db.albums c 0 ids),
            keep_none c db.collection_albums,
            keep-entries db.albums c 0 ids,
            by_position-Rising 0 (entries db.albums c 0 ids) (entries-Rising db.albums c 0 ids),
          )
          (linked_ids-entries db.albums c 0 ids)

    others :
        linked_ids (by_position (keep (in_collection d) (rest ++ entries db.albums c 0 ids)))
        ≡ linked_ids (by_position (keep (in_collection d) db.collection_albums))
    others = rw (
      keep-append (in_collection d) rest (entries db.albums c 0 ids),
      keep_others d c db.collection_albums n,
      keep-entries_other db.albums c d 0 ids n,
      append-nil,
    )
