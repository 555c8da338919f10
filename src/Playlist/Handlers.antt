-- ===== src/Playlist/Handlers.antt =====
-- server/ctrlsubsonic/handlers_playlist.go: the handlers that change playlists. What they answer
-- beside an error code is not modelled. `decode` and `encode` stand for the URL base64 of the Go
-- library, `locate` for specidpaths.Locate and the path of its result.
use gonic.Base.{
  ℕ, zero, suc, Bool, true, false, not, ◌&&◌, List, [], ◌∷◌, ◌++◌, Option, none, some, Result, ok,
  err, ◌>>=◌, Str, codes, str_eq, ℤ, pos, negsuc, itoa, int_eq, leb, if◌then◌else◌,
}
use gonic.Specid
use gonic.Specid.{SpecId}
use gonic.Params.{Params, Error, no_values, invalid}
use gonic.Params.Ids
use gonic.Params.Ints
use gonic.Params.Texts
use gonic.Params.Bools
use gonic.Db.{User}
use gonic.Playlist.{Playlist, Disk, read, write, delete, new_path}

-- Why a handler changed nothing: an error code, or a panic.
pub data Stop : Type 0 where
  code : ℕ → Stop
  panic : Stop

abbrev pub id_keys : List Str
id_keys = codes "id" ∷ codes "playlistId" ∷ []

abbrev pub or_code : {E A : Type 0} → ℕ → Result E A → Result Stop A
or_code n (ok a) = ok a
or_code n (err e) = err (code n)

abbrev pub required_id : SpecId × Option (Error Specid.Error) → Result Stop SpecId
required_id (id, none) = ok id
required_id (id, some e) = err (code 10)

-- A mirrored collection is no playlist.
abbrev pub no_collection : SpecId → Result Stop (Unit {0})
no_collection id = if str_eq id.typ Specid.collection then err (code 0) else ok tt

-- Playlists with no owner are everybody's.
abbrev pub foreign : User → Playlist → Bool
foreign user playlist =
    not (int_eq playlist.user_id (pos 0)) && not (int_eq playlist.user_id user.id)

abbrev pub given : {F A : Type 0} → A × Option (Error F) → A → A
given (v, none) old = v
given (v, some e) old = old

-- A list of ids that is not given is empty.
abbrev pub ids_given : List SpecId × Option (Error Specid.Error) → Result Stop (List SpecId)
ids_given (ids, none) = ok ids
ids_given (ids, some no_values) = ok ids
ids_given (ids, some (invalid e)) = err (code 10)

abbrev pub put_back : Str → Option (List Str) → Option (List Str)
put_back x none = none
put_back x (some xs) = some (x ∷ xs)

-- `append(items[:i], items[i+1:]...)`; `none` is the panic of a slice out of range.
unfoldable pub remove_nth : ℕ → List Str → Option (List Str)
remove_nth i [] = none
remove_nth zero (x ∷ xs) = some xs
remove_nth (suc i) (x ∷ xs) = put_back x (remove_nth i xs)

abbrev pub remove_at : ℤ → List Str → Option (List Str)
remove_at (pos i) items = remove_nth i items
remove_at (negsuc i) items = none

unfoldable pub remove_each : List ℤ → List Str → Option (List Str)
remove_each [] items = some items
remove_each (i ∷ is) items = elim (remove_at i items) [
  | none ↦ none
  | some rest ↦ remove_each is rest
]

abbrev pub int_le : ℤ → ℤ → Bool
int_le (pos m) (pos n) = leb m n
int_le (pos m) (negsuc n) = false
int_le (negsuc m) (pos n) = true
int_le (negsuc m) (negsuc n) = leb n m

unfoldable pub insert_downward : ℤ → List ℤ → List ℤ
insert_downward i [] = i ∷ []
insert_downward i (j ∷ js) =
    let rest = insert_downward i js in if int_le j i then i ∷ j ∷ js else j ∷ rest

-- `sort.Sort(sort.Reverse(sort.IntSlice(indexes)))`
unfoldable pub sort_downward : List ℤ → List ℤ
unfolding insert_downward
sort_downward [] = []
sort_downward (i ∷ is) = insert_downward i (sort_downward is)

abbrev pub or_panic : {A : Type 0} → Option A → Result Stop A
or_panic none = err panic
or_panic (some a) = ok a

-- The items less those whose indexes are given.
unfoldable pub remove_items : List ℤ × Option (Error (Unit {0})) → List Str → Result Stop (List Str)
remove_items (indexes, none) items = or_panic (remove_each (sort_downward indexes) items)
remove_items (indexes, some e) items = ok items

-- The zero value of a playlist.
abbrev pub no_playlist : Playlist
no_playlist = record {
  updated_at = 0;
  user_id = pos 0;
  name = [];
  comment = [];
  items = [];
  is_public = false;
}

abbrev pub or_no_playlist : {E : Type 0} → Result E Playlist → Playlist
or_no_playlist (ok playlist) = playlist
or_no_playlist (err e) = no_playlist

abbrev pub not_foreign : ℕ → User → Playlist → Result Stop (Unit {0})
not_foreign n user playlist = if foreign user playlist then err (code n) else ok tt

-- A path that is not there might lie in another user's folder, so that it is not used.
abbrev pub path_for : ℕ → User → Str → Playlist → Result Stop Str
path_for now user path playlist =
    if int_eq playlist.user_id (pos 0)
    then or_panic (new_path now user.id (itoa (pos now)))
    else ok path

-- The playlist to update, if there is one at the path.
abbrev pub existing : Str → Str → Disk → Playlist
existing base path disk =
    if str_eq path [] then no_playlist else or_no_playlist (read base path disk)

-- The requests that change playlists.
pub data Request : Type 0 where
  creating updating deleting : Params → Request

module _ (decode encode : Str → Str) (locate : SpecId → Option Str) (printable : ℕ → Bool)
    (base : Str) where
  -- `playlistIDEncode`
  abbrev pub playlist_id_encode : Str → SpecId
  playlist_id_encode path = record {
    typ = Specid.playlist;
    value = pos 0;
    string_value = encode path;
  }

  -- `playlistIDDecode`
  abbrev playlist_id_decode : SpecId → Str
  playlist_id_decode id = decode id.string_value

  -- The paths of the tracks that are added, in their order.
  unfoldable pub located : List SpecId → Result Stop (List Str)
  located [] = ok []
  located (id ∷ ids) = elim (locate id) [
    | none ↦ err (code 70)
    | some path ↦ elim (located ids) [ ok paths ↦ ok (path ∷ paths) | err e ↦ err e ]
  ]

  abbrev pub added_ids : List SpecId × Option (Error Specid.Error) → Result Stop (List Str)
  added_ids x = do ids ← ids_given x; located ids

  -- `ServeCreateOrUpdatePlaylist`: the disk after it, and the id in its answer.
  unfoldable pub serve_create : ℕ → User → Params → Disk → Result Stop (Disk × SpecId)
  serve_create now user p disk = do
    let (id, bad) = Ids.get_first p id_keys
    playlist_only ← no_collection id
    let playlist = existing base (playlist_id_decode id) disk
    allowed ← not_foreign 50 user playlist
    path ← path_for now user (playlist_id_decode id) playlist
    items ← added_ids (Ids.get_list p (codes "songId"))
    after ← or_code 0 (
        write printable base now path
          (record playlist {
            user_id = user.id;
            updated_at = now;
            name = given (Texts.get p (codes "name")) playlist.name;
            items = items;
          })
          disk)
    ok (after, if int_eq playlist.user_id (pos 0) then playlist_id_encode path else id)

  -- What `ServeUpdatePlaylist` makes of a playlist of the user's.
  abbrev pub edited : Params → Playlist → Result Stop Playlist
  edited p playlist = do
    rest ← remove_items (Ints.get_list p (codes "songIndexToRemove")) playlist.items
    added ← added_ids (Ids.get_list p (codes "songIdToAdd"))
    ok (record playlist {
      name = given (Texts.get p (codes "name")) playlist.name;
      comment = given (Texts.get p (codes "comment")) playlist.comment;
      is_public = given (Bools.get p (codes "public")) playlist.is_public;
      items = rest ++ added;
    })

  abbrev pub save_edited : ℕ → Params → Str → Playlist → Disk → Result Stop Disk
  save_edited now p path playlist disk = do
    new ← edited p playlist
    or_code 0 (write printable base now path new disk)

  -- `ServeUpdatePlaylist`: for another user's playlist it answers without an error.
  unfoldable pub serve_update : ℕ → User → Params → Disk → Result Stop Disk
  serve_update now user p disk = do
    id ← required_id (Ids.get_first p id_keys)
    playlist_only ← no_collection id
    playlist ← or_code 0 (read base (playlist_id_decode id) disk)
    let saved = save_edited now p (playlist_id_decode id) playlist disk
    if foreign user playlist then ok disk else saved

  -- `ServeDeletePlaylist`
  unfoldable pub serve_delete : User → Params → Disk → Result Stop Disk
  serve_delete user p disk = do
    id ← required_id (Ids.get_first p id_keys)
    playlist_only ← no_collection id
    playlist ← or_code 70 (read base (playlist_id_decode id) disk)
    allowed ← not_foreign 50 user playlist
    or_code 0 (delete base (playlist_id_decode id) disk)

  abbrev pub only_disk : Result Stop (Disk × SpecId) → Result Stop Disk
  only_disk (ok (disk, id)) = ok disk
  only_disk (err e) = err e

  unfoldable pub serve : ℕ → User → Request → Disk → Result Stop Disk
  serve now user (creating p) disk = only_disk (serve_create now user p disk)
  serve now user (updating p) disk = serve_update now user p disk
  serve now user (deleting p) disk = serve_delete user p disk
