-- ===== src/Scanner/Folder.antt =====
-- scanner/scanner.go: `scanDir`, which reads one folder. The clock stands still while it is read.
use gonic.Base.{
  ℕ, suc, Bool, true, false, ◌&&◌, ◌||◌, ◌==◌, ltb, List, [], ◌∷◌, ◌++◌, Option, none, some, Str,
  codes, str_eq, has_prefix, ℤ, pos, int_eq, any, find, keep, if◌then◌else◌,
}
use gonic.FilePath.{join, dir, up_to_slash, after_slash, rel}
use gonic.Fileutil.{within}
use gonic.Db.{AlbumPath}
use gonic.Scanner.Tables.{ScannedAlbum, ScannedTrack, Tables, track_is_at}
use gonic.Scanner.Session.{
  Settings, Item, FileTimes, World, State, folder_unreadable, no_times, tags_unreadable, Scan, pure,
  require, query, write, note, see_album, see_track, ◌>>=◌, ◌>>◌, for_each, transaction,
}
use gonic.Scanner.Populate.{populate_album_disc_titles}
use gonic.Scanner.Rows.{find_parent, populate_album_basics}
use gonic.Scanner.Files.{TrackUpdate, TrackTagData, populate_track_and_artists}

-- `musicDirRelative`; the results are empty under no music directory.
unfoldable pub music_dir_relative : List Str → Str → Str × Str
music_dir_relative [] path = ([], [])
music_dir_relative (d ∷ ds) path =
    let rest = music_dir_relative ds path in
    if within path d then (d, or_empty (rel d path)) else rest
  where
    or_empty : Option Str → Str
    or_empty none = []
    or_empty (some s) = s

-- The order of texts by their characters, and sort.Strings.
unfoldable pub text_le : Str → Str → Bool
text_le [] t = true
text_le (c ∷ s) [] = false
text_le (c ∷ s) (d ∷ t) = let rest = text_le s t in ltb c d || (c == d && rest)

unfoldable pub insert_text : Str → List Str → List Str
insert_text s [] = s ∷ []
insert_text s (t ∷ ts) = let rest = insert_text s ts in if text_le s t then s ∷ t ∷ ts else t ∷ rest

unfoldable pub sort_texts : List Str → List Str
unfolding insert_text
sort_texts [] = []
sort_texts (s ∷ ss) = insert_text s (sort_texts ss)

-- The map `discTitles`: the first title that is not blank, for each disc.
abbrev pub has_disc : ℤ → List (ℤ × Str) → Bool
has_disc i = any (λ p. int_eq i p.0)

abbrev pub or_one : ℤ → ℤ
or_one i = if int_eq i (pos 0) then pos 1 else i

abbrev pub is_older : ℕ → Option ScannedTrack → Bool
is_older mod_time none = true
is_older mod_time (some t) = ltb t.updated_at mod_time

abbrev pub with_update :
    Bool → ℕ → Str → Str → Option ScannedTrack → FileTimes → List TrackUpdate → List TrackUpdate
with_update is_full i name path track times rest =
    if is_full || is_older times.mod_time track
    then record { index = i; basename = name; abs_path = path; track = track; times = times } ∷ rest
    else rest

-- The tracks of the folder that have a row.
abbrev pub rows_of : ℤ → List Str → Tables → List ScannedTrack
rows_of album_id names t =
    keep (λ r. int_eq r.album_id album_id && any (str_eq r.filename) names) t.tracks

abbrev pub see_tracks : List ScannedTrack → State → State
see_tracks [] st = st
see_tracks (r ∷ rs) st = see_tracks rs (see_track r.id st)

abbrev pub at : Str → Str → Str → AlbumPath
at root left right = record { root_dir = root; left_path = left; right_path = right }

module _ (cfg : Settings) (w : World) where
  abbrev pub add_disc_title : TrackTagData → List (ℤ × Str) → List (ℤ × Str)
  add_disc_title d titles =
      let disc = or_one (w.parse_int (d.tags.get (codes "DiscNumber"))) in
      let subtitle = d.tags.get (codes "DISCSUBTITLE") in
      if has_disc disc titles || str_eq subtitle [] then titles else titles ++ (disc, subtitle) ∷ []

  unfoldable pub disc_titles_from : List (ℤ × Str) → List TrackTagData → List (ℤ × Str)
  disc_titles_from titles [] = titles
  disc_titles_from titles (d ∷ ds) = disc_titles_from (add_disc_title d titles) ds

  -- One item of a folder: the cover and the names of the tracks so far.
  unfoldable pub list_item : Str → Item → Str × List Str → Str × List Str
  list_item folder item (cover, tracks) =
      let path = join folder item.name in
      if w.is_excluded path || item.is_dir || has_prefix item.name (codes "._")
      then (cover, tracks)
      else if w.is_cover item.name
      then (w.best_between cover item.name, tracks)
      else if w.can_read path
      then (cover, tracks ++ item.name ∷ [])
      else (cover, tracks)

  unfoldable pub list_items : Str → List Item → Str × List Str → Str × List Str
  unfolding list_item
  list_items folder [] found = found
  list_items folder (item ∷ items) found = list_items folder items (list_item folder item found)

  -- The loop over the sorted names: what is to be written, with the rows that were there.
  unfoldable pub updates_from :
      Bool → Str → ℤ → List ScannedTrack → ℕ → List Str → Scan (List TrackUpdate)
  updates_from is_full folder album_id tracks i [] = pure []
  updates_from is_full folder album_id tracks i (name ∷ names) = do
    times ← require (no_times name) (w.times (join folder name))
    rest ← updates_from is_full folder album_id tracks (suc i) names
    pure (
        with_update is_full i name (join folder name) (find (track_is_at album_id name) tracks)
          times rest)

  abbrev pub read_update : TrackUpdate → Scan TrackTagData
  read_update u = do
    read ← require (tags_unreadable u.basename) (w.read_tags u.abs_path)
    pure (record { update = u; props = read.0; tags = read.1 })

  -- The transaction over what has been read.
  unfoldable pub write_updates : ℕ → ScannedAlbum → List TrackTagData → Scan (Unit {0})
  unfolding disc_titles_from
  write_updates now album ds = do
    for_each (populate_track_and_artists cfg w now album) ds
    write (populate_album_disc_titles album.id (disc_titles_from [] ds))

  -- The updates of a folder, if there are any.
  unfoldable pub apply_updates : ℕ → ScannedAlbum → List TrackUpdate → Scan (Unit {0})
  unfolding write_updates
  apply_updates now album [] = pure tt
  apply_updates now album (u ∷ us) = do
    ds ← for_each read_update (u ∷ us)
    transaction (write_updates now album ds)

  -- What `scanDir` does with the tracks that it lists.
  unfoldable pub scan_tracks : ℕ → Str → ScannedAlbum → List Str → Scan (Unit {0})
  unfolding updates_from apply_updates sort_texts
  scan_tracks now folder album [] = pure tt
  scan_tracks now folder album (n ∷ ns) = do
    rows ← query (λ t. (rows_of album.id (n ∷ ns) t, t))
    note (see_tracks rows)
    is_full ← (λ s. pure s.state.is_full s)
    us ← updates_from is_full folder album.id rows 0 (sort_texts (n ∷ ns))
    apply_updates now album us

  -- `scanDir` below the music directory.
  unfoldable pub scan_folder : ℕ → Str → Str → Str → List Item → Scan (Unit {0})
  unfolding list_items scan_tracks
  scan_folder now folder root path items = do
    parent ← query (find_parent now (at root (up_to_slash (dir path)) (after_slash (dir path))))
    note (see_album parent.id)
    album ← query (
        populate_album_basics w.unidecode now (at root (up_to_slash path) (after_slash path))
          parent.id (list_items folder items ([], [])).0)
    note (see_album album.id)
    scan_tracks now (join root path) album (list_items folder items ([], [])).1

  -- `scanDir`
  unfoldable pub scan_dir : ℕ → Str → Scan (Unit {0})
  unfolding music_dir_relative scan_folder
  scan_dir now folder =
      let (root, path) = music_dir_relative cfg.music_dirs folder in
      if str_eq root folder
      then pure tt
      else require folder_unreadable (w.read_dir folder) >>= scan_folder now folder root path
