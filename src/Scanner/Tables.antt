-- ===== src/Scanner/Tables.antt =====
-- The rows of db/db.go that a scan writes, and how they are written: a row is found as the first that
-- fits, since ids grow down a table; a bulk insert passes over a row whose key is taken
-- (INSERT OR IGNORE), and a saved row replaces the one with its id. Times are counted from an epoch,
-- with 0 for the zero time, a float32 stands for its 32 bits, and an id 0 is the null of a reference.
pub mod Lookups
pub mod Laws
use gonic.Base.{
  ℕ, suc, Bool, false, ◌||◌, ◌&&◌, not, List, [], ◌∷◌, ◌++◌, Option, none, some, map, Str, str_eq,
  ℤ, pos, int_eq, any, keep, if◌then◌else◌,
}
use gonic.Db.{AlbumPath, same_path}

-- What the tags of the first track give to a row of `Album`.
pub record AlbumTags : Type 0 where
  pub title : Str
  pub title_u_dec : Str
  pub album_artist : Str
  pub album_artist_credit : Str
  pub brainz_id : Str
  pub year : ℤ
  pub compilation : Bool
  pub release_type : Str
  pub version : Str

abbrev pub no_album_tags : AlbumTags
no_album_tags = record {
  title = [];
  title_u_dec = [];
  album_artist = [];
  album_artist_credit = [];
  brainz_id = [];
  year = pos 0;
  compilation = false;
  release_type = [];
  version = [];
}

-- A row of `Album`, with `RootDir`, `LeftPath` and `RightPath` as its location.
pub record ScannedAlbum : Type 0 where
  pub id : ℤ
  pub location : AlbumPath
  pub right_path_u_dec : Str
  pub parent_id : ℤ
  pub cover : Str
  pub embedded_cover_track_id : Option ℤ
  pub created_at : ℕ
  pub modified_at : ℕ
  pub columns : AlbumTags

-- What a file and its tags give to a row of `Track`.
pub record TrackTags : Type 0 where
  pub size : ℤ
  pub length : ℤ
  pub bitrate : ℤ
  pub has_embedded_cover : Bool
  pub title : Str
  pub title_u_dec : Str
  pub track_artist : Str
  pub track_artist_credit : Str
  pub composer : Str
  pub composer_credit : Str
  pub track_number : ℤ
  pub disc_number : ℤ
  pub brainz_id : Str
  pub lyrics : Str
  pub year : ℤ
  pub track_gain : ℕ
  pub track_peak : ℕ
  pub album_gain : ℕ
  pub album_peak : ℕ

-- A row of `Track`.
pub record ScannedTrack : Type 0 where
  pub id : ℤ
  pub album_id : ℤ
  pub filename : Str
  pub filename_u_dec : Str
  pub created_at : ℕ
  pub updated_at : ℕ
  pub columns : TrackTags

pub record Artist : Type 0 where
  pub id : ℤ
  pub name : Str
  pub name_u_dec : Str
  pub music_brainz_id : Str

pub record Genre : Type 0 where
  pub id : ℤ
  pub name : Str

-- A row of `AlbumCredit` or `TrackCredit`, of an album or a track.
pub record Credit : Type 0 where
  pub owner : ℤ
  pub artist_id : ℤ
  pub role : Str
  pub credited_as : Str

-- A row of `AlbumGenre` or `TrackGenre`.
pub record GenreLink : Type 0 where
  pub owner : ℤ
  pub genre_id : ℤ
  pub inherited : Bool

-- A row of `AlbumLabel` or `TrackISRC`.
pub record Mark : Type 0 where
  pub owner : ℤ
  pub text : Str

pub record DiscTitle : Type 0 where
  pub album_id : ℤ
  pub disc_number : ℤ
  pub title : Str

-- The tables that a scan writes, with the ids that their next rows get.
pub record Tables : Type 0 where
  pub albums : List ScannedAlbum
  pub tracks : List ScannedTrack
  pub artists : List Artist
  pub genres : List Genre
  pub album_credits : List Credit
  pub track_credits : List Credit
  pub album_genres : List GenreLink
  pub track_genres : List GenreLink
  pub album_labels : List Mark
  pub track_isrcs : List Mark
  pub disc_titles : List DiscTitle
  pub next_album : ℕ
  pub next_track : ℕ
  pub next_artist : ℕ
  pub next_genre : ℕ

abbrev pub album_is_at : AlbumPath → ScannedAlbum → Bool
album_is_at p a = same_path a.location p

abbrev pub track_is_at : ℤ → Str → ScannedTrack → Bool
track_is_at album_id filename t = int_eq t.album_id album_id && str_eq t.filename filename

-- `Save` of a row that has an id.
unfoldable pub save : {R : Type 0} → (R → ℤ) → R → List R → List R
save id r [] = []
save id r (x ∷ xs) = let rest = save id r xs in if int_eq (id x) (id r) then r ∷ rest else x ∷ rest

-- The rows of `InsertBulkLeftManyRows`, given when two rows have one key.
unfoldable pub insert_bulk : {R : Type 0} → (R → R → Bool) → List R → List R → List R
insert_bulk same [] table = table
insert_bulk same (r ∷ rs) table =
    insert_bulk same rs (if any (same r) table then table else table ++ r ∷ [])

-- The keys of the link tables; that of `TrackISRC` is the code alone, since the tag of its `TrackID`
-- has no semicolon before `unique_index`.
abbrev pub same_credit : Credit → Credit → Bool
same_credit c d = int_eq c.owner d.owner && int_eq c.artist_id d.artist_id && str_eq c.role d.role

abbrev pub same_genre_link : GenreLink → GenreLink → Bool
same_genre_link g h = int_eq g.owner h.owner && int_eq g.genre_id h.genre_id

abbrev pub same_label : Mark → Mark → Bool
same_label m n = int_eq m.owner n.owner && str_eq m.text n.text

abbrev pub same_isrc : Mark → Mark → Bool
same_isrc m n = str_eq m.text n.text
