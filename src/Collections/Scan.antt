-- ===== src/Collections/Scan.antt =====
-- collection.go and heal.go: a collection across a scan that deletes and makes album rows anew.
use mathlib.Core.Path.{ap₂}
use gonic.Base.{
  ◌≡◌, refl, ap, ◌∙◌, inl, inr, List, [], ◌∷◌, none, some, map, ℤ, keep, leb, Option-cases,
  Bool-cases, int_eq,
}
use gonic.Db.{
  AlbumPath, Album, CollectionAlbum, Db, album_at, id_of, heal, detach, replace_albums,
  heal_collection_albums,
}
use gonic.Db.Heal.{PathsUnique, heal-album_at}
use gonic.Collections.{insert_by_position, by_position, in_collection, linked_ids, album_ids}

-- The paths of the albums that were put into a collection, in order.
unfoldable pub album_paths : ℤ → Db → List AlbumPath
album_paths c db = map (λ e. e.location) (by_position (keep (in_collection c) db.collection_albums))

-- The ids of the albums at some paths, without the paths where there is none.
unfoldable pub ids_at : List Album → List AlbumPath → List ℤ
ids_at albums [] = []
ids_at albums (p ∷ ps) = elim (id_of (album_at p albums)) [
  | none ↦ ids_at albums ps
  | some i ↦ i ∷ ids_at albums ps
]

module _ (f : CollectionAlbum → CollectionAlbum)
    (same_collection : (e : CollectionAlbum) → (f e).collection_id ≡ e.collection_id)
    (same_position : (e : CollectionAlbum) → (f e).position ≡ e.position) where
  keep-map :
      (c : ℤ) (es : List CollectionAlbum)
      → keep (in_collection c) (map f es) ≡ map f (keep (in_collection c) es)
  keep-map c [] = refl
  keep-map c (e ∷ es) =
      let q : int_eq (f e).collection_id c ≡ int_eq e.collection_id c =
        ap (λ i. int_eq i c) (same_collection e) in
      elim (Bool-cases (int_eq e.collection_id c)) [
        | inl h ↦ rw (q ∙ h, h) (ap (λ l. f e ∷ l) (keep-map c es))
        | inr h ↦ rw (q ∙ h, h) (keep-map c es)
      ]

  insert-map :
      (e : CollectionAlbum) (es : List CollectionAlbum)
      → insert_by_position (f e) (map f es) ≡ map f (insert_by_position e es)
  unfolding insert_by_position
  insert-map e [] = refl
  insert-map e (g ∷ es) =
      let q : leb (f e).position (f g).position ≡ leb e.position g.position =
        ap₂ leb (same_position e) (same_position g) in
      elim (Bool-cases (leb e.position g.position)) [
        | inl h ↦ rw (q ∙ h, h)
        | inr h ↦ rw (q ∙ h, h) (ap (λ l. f g ∷ l) (insert-map e es))
      ]

  by_position-map : (es : List CollectionAlbum) → by_position (map f es) ≡ map f (by_position es)
  unfolding by_position
  by_position-map [] = refl
  by_position-map (e ∷ es) = rw (by_position-map es) (insert-map e (by_position es))

  rows-map :
      (c : ℤ) (es : List CollectionAlbum)
      → by_position (keep (in_collection c) (map f es))
        ≡ map f (by_position (keep (in_collection c) es))
  rows-map c es = ap by_position (keep-map c es) ∙ by_position-map (keep (in_collection c) es)

linked_ids-heal :
    (albums : List Album) (es : List CollectionAlbum)
    → PathsUnique albums
    → linked_ids (map (heal albums) (map (detach albums) es))
      ≡ ids_at albums (map (λ e. e.location) es)
unfolding linked_ids ids_at
linked_ids-heal albums [] u = refl
linked_ids-heal albums (e ∷ es) u =
    let q : (heal albums (detach albums e)).album_id ≡ id_of (album_at e.location albums) =
      unfold detach in heal-album_at albums (detach albums e) u in
    elim (Option-cases (id_of (album_at e.location albums))) [
      | inl h ↦ rw (q, h, linked_ids, ids_at) (linked_ids-heal albums es u)
      | inr (i, h) ↦ rw (q, h, linked_ids, ids_at) (ap (λ l. i ∷ l) (linked_ids-heal albums es u))
    ]

-- After a scan has replaced the table of albums, with new ids for what was renamed back or made anew,
-- and healing has run, each collection lists the albums that are now at the paths of the albums
-- that were put into it, in the same order, if no two albums are at one path.
pub album_ids-heal :
    (c : ℤ) (albums : List Album) (db : Db)
    → PathsUnique albums
    → album_ids c (heal_collection_albums (replace_albums albums db))
      ≡ ids_at albums (album_paths c db)
unfolding album_ids heal_collection_albums replace_albums album_paths
album_ids-heal c albums db u =
    rw
      (
        rows-map (heal albums) (λ e. unfold heal in refl) (λ e. unfold heal in refl) c
            (map (detach albums) db.collection_albums),
        rows-map (detach albums) (λ e. unfold detach in refl) (λ e. unfold detach in refl) c
            db.collection_albums,
      )
      (linked_ids-heal albums (by_position (keep (in_collection c) db.collection_albums)) u)
