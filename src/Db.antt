-- ===== src/Db.antt =====
-- db/db.go and db/heal.go: the tables of albums, tracks and collections, with what SQLite does on
-- a deletion, and the healing of the references to albums after a scan. A query of the model
-- always succeeds.
pub mod Heal
use gonic.Base.{
  ℕ, ◌+◌, Bool, true, false, ◌&&◌, List, [], ◌∷◌, Option, none, some, map, Str, str_eq, ℤ, pos,
  int_eq, find, keep, if◌then◌else◌,
}

pub record User : Type 0 where
  pub id : ℤ
  pub name : Str
  pub password : Str
  pub is_admin : Bool

-- The columns by which an album is found again after a scan.
pub record AlbumPath : Type 0 where
  pub root_dir : Str
  pub left_path : Str
  pub right_path : Str

pub record Album : Type 0 where
  pub id : ℤ
  pub location : AlbumPath

pub record Track : Type 0 where
  pub album_id : ℤ
  pub length : ℕ

pub record Collection : Type 0 where
  pub id : ℤ
  pub user_id : ℤ
  pub name : Str
  pub comment : Str
  pub is_public : Bool
  pub created_at : ℕ
  pub updated_at : ℕ

-- An album in a collection: its id, if the row is there, and the path that it had.
pub record CollectionAlbum : Type 0 where
  pub collection_id : ℤ
  pub position : ℕ
  pub album_id : Option ℤ
  pub location : AlbumPath

pub record Db : Type 0 where
  pub albums : List Album
  pub tracks : List Track
  pub users : List User
  pub collections : List Collection
  -- The id that the next collection gets; SQLite gives none twice.
  pub next_collection : ℕ
  pub collection_albums : List CollectionAlbum

unfoldable pub same_path : AlbumPath → AlbumPath → Bool
same_path p q =
    str_eq p.root_dir q.root_dir
    && str_eq p.left_path q.left_path
    && str_eq p.right_path q.right_path

-- The album row with an id, and the one at a path.
abbrev pub album_by_id : ℤ → List Album → Option Album
album_by_id i = find (λ a. int_eq a.id i)

abbrev pub album_at : AlbumPath → List Album → Option Album
album_at p = find (λ a. same_path a.location p)

abbrev kept_if : ℤ → Option Album → Option ℤ
kept_if i none = none
kept_if i (some a) = some i

abbrev pub id_of : Option Album → Option ℤ
id_of none = none
id_of (some a) = some a.id

-- A reference to a row that is deleted is set to null (ON DELETE SET NULL).
unfoldable pub detached : List Album → Option ℤ → Option ℤ
detached albums none = none
detached albums (some i) = kept_if i (album_by_id i albums)

unfoldable pub detach : List Album → CollectionAlbum → CollectionAlbum
unfolding detached
detach albums e = record e { album_id = detached albums e.album_id }

-- The table of albums as a scan leaves it, with rows deleted, renamed and added.
unfoldable pub replace_albums : List Album → Db → Db
unfolding detach
replace_albums albums db = record db {
  albums = albums;
  collection_albums = map (detach albums) db.collection_albums;
}

-- `healOrphanFmt`: a reference to an album that is not at the path kept beside it goes.
unfoldable pub orphaned : List Album → AlbumPath → Option ℤ → Option ℤ
orphaned albums p none = none
orphaned albums p (some i) = kept_if i (find (λ a. same_path a.location p && int_eq a.id i) albums)

-- `healRelinkFmt`: a row with no reference gets the album at its path, if there is one.
unfoldable pub relinked : List Album → AlbumPath → Option ℤ → Option ℤ
relinked albums p (some i) = some i
relinked albums p none = id_of (album_at p albums)

-- The two updates of `healAlbumRefs`, and `HealCollectionAlbums`.
unfoldable pub heal : List Album → CollectionAlbum → CollectionAlbum
unfolding orphaned relinked
heal albums e = record e {
  album_id = relinked albums e.location (orphaned albums e.location e.album_id);
}

unfoldable pub heal_collection_albums : Db → Db
unfolding heal
heal_collection_albums db = record db {
  collection_albums = map (heal db.albums) db.collection_albums;
}
