-- ===== src/Scanner/Run.antt =====
-- scanner/scanner.go: `scanCallback`, and `ScanAndClean` from the flag to the time of the scan. What
-- filepath.WalkDir visits is given, in its order; cover overrides, their healing and `OnComplete` are
-- left out, and so are the numbers that are logged.
pub mod Remaining
use gonic.Base.{
  ℕ, zero, suc, Bool, true, false, not, List, [], ◌∷◌, ◌++◌, Option, none, some, map, length,
  Result, ok, err, Str, ℤ, int_eq, keep, any, if◌then◌else◌,
}
use gonic.Db
use gonic.Db.{Db, replace_albums, heal_collection_albums}
use gonic.Bookmarks.{Bookmark}
use gonic.Scanner.{among, transaction_chunked, clean_artists, clean_bookmarks}
use gonic.Scanner.Tables.{ScannedAlbum, ScannedTrack, Tables}
use gonic.Scanner.Session.{
  Settings, World, ScanError, walk_failed, State, fresh_state, Session, Scan,
}
use gonic.Scanner.Folder.{scan_dir}
use gonic.Scanner.Emptied.{clean_album_metadata, clean_genres}
use gonic.Scanner.Flag.{start_scanning, stop_scanning}

-- What a walk passes to its callback: an error, a folder, something else, or a link with what the walk
-- behind it visits.
mutual
  pub data Visit : Type 0 where
    failed : Str → Visit
    folder : Str → Visit
    other : Visit
    link : Visits → Visit

  pub data Visits : Type 0 where
    end : Visits
    visit : Visit → Visits → Visits

abbrev pub add_error : ScanError → Session → Session
add_error e s = record s { state = record (s.state) { errs = s.state.errs ++ e ∷ [] } }

-- An error of `scanDir` is kept in the state, and the walk goes on.
abbrev pub caught : Result ScanError (Unit {0}) × Session → Session
caught (ok u, s) = s
caught (err e, s) = add_error e s

module _ (cfg : Settings) (w : World) (now : ℕ) where
  abbrev pub scan_if_included : Str → Session → Session
  scan_if_included path s = if w.is_excluded path then s else caught (scan_dir cfg w now path s)

  unfoldable mutual
    -- `scanCallback`
    pub scan_callback : Visit → Session → Session
    scan_callback (failed path) s = add_error (walk_failed path) s
    scan_callback (folder path) s = scan_if_included path s
    scan_callback other s = s
    scan_callback (link visits) s = scan_visits visits s

    pub scan_visits : Visits → Session → Session
    scan_visits end s = s
    scan_visits (visit v visits) s = scan_visits visits (scan_callback v s)

abbrev without_cover : List ℤ → ScannedAlbum → ScannedAlbum
without_cover ids a = record a { embedded_cover_track_id = none_if a.embedded_cover_track_id }
  where
    none_if : Option ℤ → Option ℤ
    none_if none = none
    none_if (some i) = if among ids i then none else some i

-- Deleting tracks takes their links along, and embedded covers lose them.
unfoldable pub delete_tracks : List ℤ → Tables → Tables
delete_tracks ids t = record t {
  tracks = keep (λ r. not (among ids r.id)) t.tracks;
  track_genres = keep (λ l. not (among ids l.owner)) t.track_genres;
  track_credits = keep (λ c. not (among ids c.owner)) t.track_credits;
  track_isrcs = keep (λ m. not (among ids m.owner)) t.track_isrcs;
  albums = map (without_cover ids) t.albums;
}

-- Some albums with all that stand below them; no album stands deeper than there are albums.
unfoldable pub with_children : ℕ → List ScannedAlbum → List ℤ → List ℤ
with_children zero albums ids = ids
with_children (suc n) albums ids =
    ids ++ with_children n albums (map (λ a. a.id) (keep (λ a. among ids a.parent_id) albums))

-- Deleting albums takes along the albums below them, the tracks of all these, and their links.
unfoldable pub delete_albums : List ℤ → Tables → Tables
unfolding with_children delete_tracks
delete_albums ids t =
    let gone = with_children (length t.albums) t.albums ids in
    let u = delete_tracks (map (λ r. r.id) (keep (λ r. among gone r.album_id) t.tracks)) t in
    record u {
      albums = keep (λ a. not (among gone a.id)) u.albums;
      album_genres = keep (λ l. not (among gone l.owner)) u.album_genres;
      album_credits = keep (λ c. not (among gone c.owner)) u.album_credits;
      album_labels = keep (λ m. not (among gone m.owner)) u.album_labels;
      disc_titles = keep (λ d. not (among gone d.album_id)) u.disc_titles;
    }

abbrev unseen : List ℤ → List ℤ → List ℤ
unseen seen = keep (λ i. not (among seen i))

-- `cleanTracks` and `cleanAlbums`, with what the database deletes along
unfoldable pub clean_unseen_tracks : State → Tables → Tables
unfolding delete_tracks
clean_unseen_tracks st t =
    transaction_chunked delete_tracks (unseen st.seen_tracks (map (λ r. r.id) t.tracks)) t

unfoldable pub clean_unseen_albums : State → Tables → Tables
unfolding delete_albums
clean_unseen_albums st t =
    transaction_chunked delete_albums (unseen st.seen_albums (map (λ a. a.id) t.albums)) t

abbrev pub without_artists : Tables → Tables
without_artists t =
    let ids =
      clean_artists (map (λ c. c.artist_id) t.album_credits)
        (map (λ c. c.artist_id) t.track_credits) (map (λ a. a.id) t.artists) in
    record t { artists = keep (λ a. among ids a.id) t.artists }

-- All that `ScanAndClean` does to the tables once it has walked.
unfoldable pub clean_up : State → Tables → Tables
clean_up st t =
    clean_genres
      (without_artists (clean_album_metadata (clean_unseen_albums st (clean_unseen_tracks st t))))

-- The flag and the tables that a scan works on; collections stand in their own tables.
pub record Library : Type 0 where
  pub scanning : Bool
  pub tables : Tables
  pub bookmarks : List Bookmark
  pub episode_ids : List ℤ
  pub db : Db
  pub last_scan : Option ℕ

pub data Outcome : Type 0 where
  already_scanning : Outcome
  -- the state, with the errors that are joined to the result
  finished : State → Outcome

abbrev album_rows : Tables → List Db.Album
album_rows t = map (λ a. record { id = a.id; location = a.location }) t.albums

module _ (cfg : Settings) (w : World) (now : ℕ) where
  abbrev pub walked : Bool → Visits → Tables → Session
  walked is_full visits t =
      scan_visits cfg w now visits (record { tables = t; state = fresh_state is_full })

  -- What is left behind a walk.
  abbrev pub settled : Session → Library → Library
  settled s l =
      let t = clean_up s.state s.tables in
      record {
        scanning = stop_scanning true;
        tables = t;
        bookmarks = clean_bookmarks (map (λ r. r.id) t.tracks) l.episode_ids l.bookmarks;
        episode_ids = l.episode_ids;
        db = heal_collection_albums (replace_albums (album_rows t) l.db);
        last_scan = some now;
      }

  abbrev pub scan_if : Bool → Bool → Visits → Library → Outcome × Library
  scan_if false is_full visits l = (already_scanning, l)
  scan_if true is_full visits l =
      let s = walked is_full visits l.tables in (finished s.state, settled s l)

  -- `ScanAndClean`, with what the walks of the music directories visit one after another
  unfoldable pub scan_and_clean : Bool → Visits → Library → Outcome × Library
  scan_and_clean is_full visits l = scan_if (start_scanning l.scanning).0 is_full visits l
