-- ===== src/Scanner/ScanTests.antt =====
-- Runs of a scan of scanner.go, and its theorems at a concrete library.
use gonic.Base.{
  ℕ, ◌≡◌, ◌≢◌, ◌⊎◌, ◌++◌, if◌then◌else◌, ◌≤◌, refl, subst, Bool, true, false, List, [], ◌∷◌, none,
  some, ok, codes, str_eq, has_prefix, pos, int_eq, any, In, arith, if◌then◌else◌,
}
use gonic.Tags.{
  split, chosen, read, read_multi, read_values, read_one, pair_from, pair_credits, read_credits,
}
use gonic.Db.{same_path}
use gonic.Scanner.{among, genre_rows, add_genres}
use gonic.Scanner.Tables.{
  TrackTags, no_album_tags, ScannedAlbum, ScannedTrack, Tables, save, insert_bulk,
}
use gonic.Scanner.Session.{
  Settings, Item, FileTags, FileTimes, World, fresh_state, Session, pure, require, query, write,
  note, ◌>>=◌, for_each, rolled_back, transaction,
}
use gonic.Scanner.Folder.{
  music_dir_relative, text_le, insert_text, sort_texts, disc_titles_from, list_item, list_items,
  updates_from, write_updates, apply_updates, scan_tracks, scan_folder, scan_dir,
}
use gonic.Scanner.Rows.{
  empty_album, find_parent, with_basics, populate_album_basics, join_texts, album_tags,
  populate_album, track_tags, track_row, populate_track, populate_album_embedded_cover,
}
use gonic.Scanner.Files.{
  TrackUpdate, inherited_names, contributor_rows, query_genres, query_album, query_links,
  populate_track_and_artists,
}
use gonic.Tags.Specs.{parse_db}
use gonic.Fileutil.{within}
use gonic.FilePath.{clean, join, up_to_slash, after_slash, dir, rel, trim_suffix}
use gonic.Scanner.Flag.{scanning, start_scanning, stop_scanning, initial, here}
use gonic.Scanner.Flag.Safety.{exclusive}
use gonic.Scanner.Watch.{Watch, not_watching, Event, fired, notified, failed, watch_step, watch}
use gonic.Scanner.Watch.Armed.{covers, is_clean_up, Waits, CleanUpWaits, watch-asks, fired-busy}
use gonic.Scanner.Reading.{ListsOnce, IsRead, names_in, scan_dir-IsRead, rescan}
use gonic.Scanner.Populate.{
  decoded, create_artist, populate_artist, add_genre_names, populate_genres, populate_track_genres,
  populate_album_genres, populate_track_isrcs, fresh_labels, populate_album_labels,
  populate_album_credits, populate_track_credits, populate_album_disc_titles, populate_refs,
}
use gonic.Scanner.Steps.{Unrepeated}
use gonic.Scanner.Titles.{titles_of, titles_for, titles_given, titles_of-apply_updates}
use gonic.Scanner.Run.{
  Visits, folder, visit, end, Library, already_scanning, finished, walked,
  scan_and_clean as scan_and_clean_up,
}
use gonic.Scanner.Run.Remaining.{scan_and_clean_lem}
use gonic.Scanner.Isrcs.{is_own, populate_track_isrcs-taken}

abbrev settings : Settings
settings = record {
  music_dirs = codes "/m" ∷ [];
  genre_setting = none;
  artist_setting = none;
  album_artist_setting = none;
  isrc_setting = none;
  scan_embedded_cover = true;
  genre_tree = [];
}

abbrev song : Item
song = record { name = codes "x"; is_dir = false }

abbrev no_tags : FileTags
no_tags = record { values = λ k. []; get = λ k. [] }

abbrev song_times : FileTimes
song_times = record { mod_time = 1; birth_time = none }

abbrev world : World
world = record {
  read_dir = λ p. some (song ∷ []);
  times = λ p. some song_times;
  file_size = λ p. some (pos 9);
  is_excluded = λ p. false;
  can_read = λ p. true;
  read_tags = λ p. some (record { length = pos 60; bitrate = pos 320; has_cover = true }, no_tags);
  is_cover = λ s. false;
  best_between = λ s t. t;
  unidecode = λ s. s;
  to_lower = λ s. s;
  parse_float = λ s. 0;
  parse_int = λ s. pos 0;
  parse_bool = λ s. false;
  is_zero_date = λ s. true;
  year = λ s. pos 1;
}

abbrev no_rows : Tables
no_rows = record {
  albums = [];
  tracks = [];
  artists = [];
  genres = [];
  album_credits = [];
  track_credits = [];
  album_genres = [];
  track_genres = [];
  album_labels = [];
  track_isrcs = [];
  disc_titles = [];
  next_album = 1;
  next_track = 1;
  next_artist = 1;
  next_genre = 1;
}

abbrev begun : Session
begun = record { tables = no_rows; state = fresh_state false }

-- The folder of a song, read at time 2.
abbrev read_once : Session
read_once = (scan_dir settings world 2 (codes "/m/a") begun).1

read_once_run : scan_dir settings world 2 (codes "/m/a") begun ≡ (ok tt, read_once)
unfolding str_eq has_prefix int_eq pure require query write note ◌>>=◌ for_each rolled_back
    transaction decoded create_artist populate_artist add_genre_names populate_genres
    populate_track_genres populate_album_genres populate_track_isrcs fresh_labels
    populate_album_labels populate_album_credits populate_track_credits populate_album_disc_titles
    populate_refs find_parent with_basics populate_album_basics join_texts album_tags populate_album
    track_tags track_row populate_track populate_album_embedded_cover inherited_names
    contributor_rows query_genres query_album query_links populate_track_and_artists
    music_dir_relative text_le insert_text sort_texts disc_titles_from list_item list_items
    updates_from write_updates apply_updates scan_tracks scan_folder scan_dir save insert_bulk
    genre_rows add_genres split chosen read read_multi read_values read_one pair_from pair_credits
    read_credits parse_db same_path within clean join up_to_slash after_slash dir rel trim_suffix
read_once_run = refl

some_inj : {A : Type 0} (a b : A) → some a ≡ some b → a ≡ b
some_inj a b e = cc e

listed_once : ListsOnce settings world (codes "/m/a")
listed_once items e = subst (λ l. Unrepeated (names_in l)) (some_inj (song ∷ []) items e) (tt, tt)

scan_dir-IsRead_example :
    (items : List Item) × (world.read_dir (codes "/m/a") ≡ some items)
    × IsRead settings world 2 (codes "/m/a") (codes "/m") (codes "a") items read_once
unfolding music_dir_relative clean up_to_slash after_slash dir rel within has_prefix str_eq
scan_dir-IsRead_example =
    scan_dir-IsRead settings world 2 (codes "/m/a") begun read_once tt tt listed_once refl
      read_once_run

rescan_example :
    (u : Session) × (scan_dir settings world 3
        (codes "/m/a")
        (record { tables = read_once.tables; state = fresh_state false })
      ≡ (ok tt, u))
    × (u.tables ≡ read_once.tables)
unfolding music_dir_relative clean up_to_slash after_slash dir rel within has_prefix str_eq
rescan_example =
    rescan settings world 2 3 (codes "/m/a") begun read_once (fresh_state false) tt tt listed_once
      refl (λ m times e. subst (λ t. t.mod_time ≤ 2) (some_inj song_times times e) (omega arith))
      refl read_once_run

exclusive_example :
    ((i j : ℕ) → initial.stands i ≡ scanning → initial.stands j ≡ scanning → i ≡ j)
    × (((i : ℕ) → initial.stands i ≢ scanning)
        → (start_scanning false ≡ (true, true)) × (stop_scanning (start_scanning false).1 ≡ false))
    × ((i : ℕ) → initial.stands i ≡ scanning → start_scanning false ≡ (false, true))
exclusive_example = exclusive initial here

abbrev reports : List Event
reports = failed ∷ notified false true (codes "/m/b/y") (some false) ∷ fired false ∷ []

watch-asks_example :
    let writing = notified false true (codes "/m/a") (some true) in
    let removal = notified true false (codes "/m/a") none in
    ((any (covers (codes "/m/a")) (watch (writing ∷ reports) not_watching).1 ≡ true)
      ⊎ Waits (codes "/m/a") (watch (writing ∷ reports) not_watching).0)
    × (any (covers (codes "/m/a")) (watch (writing ∷ reports ++ fired false ∷ []) not_watching).1
        ≡ true)
    × ((any is_clean_up (watch (removal ∷ reports) not_watching).1 ≡ true)
        ⊎ CleanUpWaits (watch (removal ∷ reports) not_watching).0)
    × (any is_clean_up (watch (removal ∷ reports ++ fired false ∷ []) not_watching).1 ≡ true)
unfolding watch watch_step
watch-asks_example =
    watch-asks not_watching (codes "/m/a") true false none reports (refl, (refl, (refl, tt)))

abbrev removed_before : Watch
removed_before = record { seen = codes "/m/a" ∷ []; clean = true; armed = true }

fired-busy_example :
    (any is_clean_up (watch (fired true ∷ reports) removed_before).1 ≡ false)
    × ((watch (fired true ∷ reports) removed_before).0.clean ≡ false)
fired-busy_example = fired-busy removed_before reports (refl, (refl, (refl, tt)))

abbrev isrc_of_first : Tables
isrc_of_first = record no_rows { track_isrcs = record { owner = pos 1; text = codes "A" } ∷ [] }

populate_track_isrcs-taken_example :
    any
      (is_own (pos 2) (codes "A"))
      (populate_track_isrcs (pos 2) (codes "A" ∷ codes "B" ∷ []) isrc_of_first).track_isrcs
    ≡ false
unfolding str_eq int_eq
populate_track_isrcs-taken_example =
    populate_track_isrcs-taken (pos 2) (codes "A") (codes "A" ∷ codes "B" ∷ []) isrc_of_first refl

abbrev song_update : TrackUpdate
song_update = record {
  index = 0;
  basename = codes "x";
  abs_path = codes "/m/a/x";
  track = none;
  times = song_times;
}

abbrev folder_album : ScannedAlbum
folder_album =
    empty_album 1 2 (record { root_dir = codes "/m"; left_path = []; right_path = codes "a" })

-- Every file has a title for its disc.
abbrev world_of_discs : World
world_of_discs = record world {
  read_tags = λ p. some (
    record { length = pos 60; bitrate = pos 320; has_cover = true },
    record {
      values = λ k. [];
      get = λ k. if str_eq k (codes "DISCSUBTITLE") then codes "D" else [];
    },
  );
}

abbrev updated : Session
updated = (apply_updates settings world_of_discs 2 folder_album (song_update ∷ []) begun).1

updated_run :
    apply_updates settings world_of_discs 2 folder_album (song_update ∷ []) begun ≡ (ok tt, updated)
unfolding str_eq has_prefix int_eq pure require query write note ◌>>=◌ for_each rolled_back
    transaction decoded create_artist populate_artist add_genre_names populate_genres
    populate_track_genres populate_album_genres populate_track_isrcs fresh_labels
    populate_album_labels populate_album_credits populate_track_credits populate_album_disc_titles
    populate_refs find_parent with_basics populate_album_basics join_texts album_tags populate_album
    track_tags track_row populate_track populate_album_embedded_cover inherited_names
    contributor_rows query_genres query_album query_links populate_track_and_artists
    music_dir_relative text_le insert_text sort_texts disc_titles_from list_item list_items
    updates_from write_updates apply_updates scan_tracks scan_folder scan_dir save insert_bulk
    genre_rows add_genres split chosen read read_multi read_values read_one pair_from pair_credits
    read_credits parse_db same_path within clean join up_to_slash after_slash dir rel trim_suffix
updated_run = refl

titles_of-apply_updates_example :
    titles_for (pos 1) (titles_of (pos 1) updated.tables.disc_titles) ≡ codes "D" ∷ []
unfolding titles_given str_eq int_eq
titles_of-apply_updates_example =
    titles_of-apply_updates settings world_of_discs 2 folder_album song_update [] begun updated
      (pos 1) updated_run

abbrev empty_library : Library
empty_library = record {
  scanning = false;
  tables = no_rows;
  bookmarks = [];
  episode_ids = [];
  db = record {
    albums = [];
    tracks = [];
    users = [];
    collections = [];
    next_collection = 1;
    collection_albums = [];
  };
  last_scan = none;
}

abbrev one_visit : Visits
one_visit = visit (folder (codes "/m/a")) end

scan_and_clean_lem_example :
    (◌≡◌ {A = Bool} false true
      → scan_and_clean_up settings world 2 false one_visit empty_library
        ≡ (already_scanning, empty_library))
    × (◌≡◌ {A = Bool} false false
        → let s = walked settings world 2 false one_visit no_rows in
          let (outcome, u) = scan_and_clean_up settings world 2 false one_visit empty_library in
          (outcome ≡ finished s.state)
          × (u.scanning ≡ false)
          × (u.last_scan ≡ some 2)
          × ((r : ScannedTrack)
              → In r u.tables.tracks
              → In r s.tables.tracks × (among s.state.seen_tracks r.id ≡ true)))
scan_and_clean_lem_example = scan_and_clean_lem settings world 2 false one_visit empty_library

abbrev titled_album : ScannedAlbum
titled_album = record folder_album { columns = record no_album_tags { title = codes "T" } }

abbrev kept_album : ScannedAlbum
kept_album =
    empty_album 2 2 (record { root_dir = codes "/m"; left_path = []; right_path = codes "b" })

abbrev plain : TrackTags
plain = record {
  size = pos 9;
  length = pos 60;
  bitrate = pos 320;
  has_embedded_cover = false;
  title = [];
  title_u_dec = [];
  track_artist = [];
  track_artist_credit = [];
  composer = [];
  composer_credit = [];
  track_number = pos 1;
  disc_number = pos 1;
  brainz_id = [];
  lyrics = [];
  year = pos 0;
  track_gain = 0;
  track_peak = 0;
  album_gain = 0;
  album_peak = 0;
}

abbrev kept_track : ScannedTrack
kept_track = record {
  id = pos 1;
  album_id = pos 2;
  filename = codes "y";
  filename_u_dec = [];
  created_at = 1;
  updated_at = 1;
  columns = plain;
}

abbrev titled : Tables
titled = record no_rows {
  albums = titled_album ∷ kept_album ∷ [];
  tracks = kept_track ∷ [];
  next_album = 3;
}
