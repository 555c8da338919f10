-- ===== src/Collections/Tests.antt =====
-- Runs of collection.go and handlers_collection.go, and their theorems at a concrete library.
use gonic.Base.{
  ℕ, ◌≡◌, refl, true, false, List, [], ◌∷◌, none, ok, err, arith, Str, codes, str_eq, cut, ℤ, pos,
  int_eq, keep, atoi, atoi_value, read_digits, read_uint,
}
use gonic.Specid
use gonic.Specid.{SpecId}
use gonic.Params.{Params, get, parse, parse_all, parse_list}
use gonic.Params.Ids
use gonic.Params.Texts
use gonic.Db.{
  User, same_path, AlbumPath, Album, Collection, Db, replace_albums, heal_collection_albums,
}
use gonic.Db.Heal.{PathsUnique}
use gonic.Collections.{set_albums, album_ids}
use gonic.Collections.Albums.{int_eq-false, has_album, album_ids-set_albums}
use gonic.Collections.Scan.{album_paths, ids_at, album_ids-heal}
use gonic.Collections.Others.{Kept, IsFresh, others-Kept}
use gonic.Collections.Refused.{bad_albums}
use gonic.Collections.Handlers.{
  collection_for_read_id, collection_by_id, collection_for_read, State, failure,
  collection_for_read, collection_for_write, collection_album_ids, parse_album_ids, edited, save,
  serve_create, serve_update, serve, delete_collection,
}

abbrev path : Str → AlbumPath
path name = record { root_dir = codes "/music"; left_path = []; right_path = name }

abbrev album : ℕ → Str → Album
album i name = record { id = pos i; location = path name }

-- Two albums, and the same two after a scan that made the first anew.
abbrev before_scan : List Album
before_scan = album 1 (codes "blue") ∷ album 2 (codes "red") ∷ []

abbrev after_scan : List Album
after_scan = album 2 (codes "red") ∷ album 7 (codes "blue") ∷ []

abbrev alice : User
alice = record { id = pos 1; name = codes "alice"; password = codes "secret"; is_admin = false }

abbrev bob : User
bob = record { id = pos 2; name = codes "bob"; password = codes "secret"; is_admin = true }

abbrev favourites : Collection
favourites = record {
  id = pos 1;
  user_id = pos 1;
  name = codes "favourites";
  comment = [];
  is_public = true;
  created_at = 10;
  updated_at = 10;
}

abbrev library : Db
library = record {
  albums = before_scan;
  tracks = record { album_id = pos 1; length = 60 } ∷ [];
  users = alice ∷ bob ∷ [];
  collections = favourites ∷ [];
  next_collection = 2;
  collection_albums = [];
}

abbrev start : State
start = record { db = library; purged = [] }

abbrev chosen : List ℤ
chosen = pos 2 ∷ pos 1 ∷ pos 9 ∷ pos 2 ∷ []

-- An id that no album has is passed over, and a repeated one is kept.
set_albums_run : album_ids (pos 1) (set_albums (pos 1) chosen library) ≡ pos 2 ∷ pos 1 ∷ pos 2 ∷ []
unfolding album_ids set_albums int_eq
set_albums_run = refl

album_ids-set_albums_example :
    (album_ids (pos 1) (set_albums (pos 1) chosen library) ≡ keep (has_album before_scan) chosen)
    × (album_ids (pos 3) (set_albums (pos 1) chosen library) ≡ album_ids (pos 3) library)
album_ids-set_albums_example = album_ids-set_albums (pos 1) (pos 3) chosen library (λ e. cc e)

after_scan-PathsUnique : PathsUnique after_scan
unfolding same_path str_eq
after_scan-PathsUnique = ((refl, tt), (tt, tt))

album_ids-heal_example :
    album_ids
      (pos 1)
      (heal_collection_albums (replace_albums after_scan (set_albums (pos 1) chosen library)))
    ≡ ids_at after_scan (album_paths (pos 1) (set_albums (pos 1) chosen library))
album_ids-heal_example =
    album_ids-heal (pos 1) after_scan (set_albums (pos 1) chosen library) after_scan-PathsUnique

abbrev request : Params
request =
    (codes "id", codes "co-1" ∷ [])
    ∷ (codes "name", codes "mine" ∷ [])
    ∷ (codes "albumId", codes "al-x" ∷ [])
    ∷ []

abbrev favourites_id : SpecId
favourites_id = record { typ = Specid.collection; value = pos 1; string_value = [] }

request_id : Ids.get request (codes "id") ≡ (favourites_id, none)
unfolding Ids.get Ids.parse_id parse get Specid.new cut str_eq atoi atoi_value read_digits read_uint
request_id = refl

request_albums : collection_album_ids request (codes "albumId") ≡ err 10
unfolding collection_album_ids parse_album_ids Texts.get_list Texts.parse_str parse_list parse_all
    get Specid.new cut str_eq atoi atoi_value read_digits read_uint
request_albums = refl

request_given : (Texts.get request (codes "albumId")).1 ≡ none
unfolding Texts.get Texts.parse_str parse get str_eq
request_given = refl

request_writer : collection_for_write library alice request ≡ ok favourites
unfolding collection_for_write collection_for_read collection_for_read_id collection_by_id int_eq
    Ids.get Ids.parse_id parse get Specid.new cut str_eq atoi atoi_value read_digits read_uint
request_writer = refl

library-IsFresh : IsFresh library
library-IsFresh i h = rw (int_eq-false (pos 1) (pos i) (λ e. ground arith)) refl

others-Kept_example : Kept favourites library (serve 20 bob (delete_collection request) start).0.db
unfolding int_eq
others-Kept_example =
    others-Kept favourites start library-IsFresh refl bob (λ e. cc e) 20 (delete_collection request)

bad_albums_example :
    ((serve_create 20 alice request start).0 ≡ start)
    × ((serve_update 20 alice request start).1 ≡ failure 10)
    × ((serve_update 20 alice request start).0.db.collections
        ≡ save (edited 20 request favourites) (favourites ∷ []))
bad_albums_example =
    bad_albums 20 10 alice request favourites start request_albums request_given request_writer
