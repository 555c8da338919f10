-- ===== src/Collections.antt =====
-- collection/collection.go: the albums of a collection, in order.
pub mod Albums
pub mod Scan
pub mod Handlers
pub mod Access
pub mod Others
pub mod Refused
mod Tests
use gonic.Base.{
  ℕ, suc, ◌+◌, Bool, true, false, ◌||◌, List, [], ◌∷◌, ◌++◌, Option, none, some, ℤ, int_eq, keep,
  leb, not, if◌then◌else◌,
}
use gonic.Db.{Album, Track, Collection, CollectionAlbum, Db, album_by_id}

-- `Visible`: a user's own collections, and the public ones of others.
unfoldable pub visible : ℤ → Collection → Bool
visible user_id c = int_eq c.user_id user_id || c.is_public

abbrev pub entry : ℤ → ℕ → Album → CollectionAlbum
entry collection_id position a = record {
  collection_id = collection_id;
  position = position;
  album_id = some a.id;
  location = a.location;
}

-- The rows that `SetAlbums` saves; an id that no album has is passed over.
unfoldable pub entries : List Album → ℤ → ℕ → List ℤ → List CollectionAlbum
entries albums collection_id position [] = []
entries albums collection_id position (i ∷ ids) = elim (album_by_id i albums) [
  | none ↦ entries albums collection_id position ids
  | some a ↦ entry collection_id position a ∷ entries albums collection_id (position + 1) ids
]

-- `SetAlbums`: the old rows go, then the new ones are saved.
unfoldable pub set_albums : ℤ → List ℤ → Db → Db
unfolding entries
set_albums collection_id ids db = record db {
  collection_albums =
      keep (λ e. not (int_eq e.collection_id collection_id)) db.collection_albums
      ++ entries db.albums collection_id 0 ids;
}

unfoldable pub insert_by_position : CollectionAlbum → List CollectionAlbum → List CollectionAlbum
insert_by_position e [] = e ∷ []
insert_by_position e (f ∷ fs) =
    if leb e.position f.position then e ∷ f ∷ fs else f ∷ insert_by_position e fs

-- ORDER BY position
unfoldable pub by_position : List CollectionAlbum → List CollectionAlbum
unfolding insert_by_position
by_position [] = []
by_position (e ∷ es) = insert_by_position e (by_position es)

abbrev pub in_collection : ℤ → CollectionAlbum → Bool
in_collection collection_id e = int_eq e.collection_id collection_id

-- The ids of the rows whose album is there.
unfoldable pub linked_ids : List CollectionAlbum → List ℤ
linked_ids [] = []
linked_ids (e ∷ es) = elim e.album_id [ none ↦ linked_ids es | some i ↦ i ∷ linked_ids es ]

-- `AlbumIDs`
unfoldable pub album_ids : ℤ → Db → List ℤ
unfolding by_position linked_ids
album_ids collection_id db =
    linked_ids (by_position (keep (in_collection collection_id) db.collection_albums))

track_count_of : ℤ → List Track → ℕ
track_count_of album_id [] = 0
track_count_of album_id (t ∷ ts) =
    (if int_eq t.album_id album_id then 1 else 0) + track_count_of album_id ts

duration_of : ℤ → List Track → ℕ
duration_of album_id [] = 0
duration_of album_id (t ∷ ts) =
    (if int_eq t.album_id album_id then t.length else 0) + duration_of album_id ts

count_over : (ℤ → ℕ) → List ℤ → ℕ
count_over f [] = 0
count_over f (i ∷ ids) = f i + count_over f ids

-- `Stats`: a track counts once for each row of the collection that has its album.
unfoldable pub stats : ℤ → Db → ℕ × ℕ
unfolding track_count_of duration_of count_over
stats collection_id db =
    let ids = linked_ids (keep (in_collection collection_id) db.collection_albums) in
    (
      count_over (λ i. track_count_of i db.tracks) ids,
      count_over (λ i. duration_of i db.tracks) ids,
    )
