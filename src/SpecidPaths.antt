-- ===== src/SpecidPaths.antt =====
-- server/ctrlsubsonic/specidpaths/specidpaths.go: from an id to a path and back, over the tables of
-- db/db.go. A missing row is an error of the query.
pub mod Located
pub mod Prefixes
mod Tests
use gonic.Base.{
  ℕ, Bool, true, false, not, ◌&&◌, List, [], ◌∷◌, ◌++◌, Option, none, some, Str, codes, str_eq,
  has_prefix, ℤ, pos, int_eq, find, any, if◌then◌else◌,
}
use gonic.FilePath.{slash, is_abs, clean, join, rel, up_to_slash, after_slash}
use gonic.Fileutil.{within}
use gonic.Specid
use gonic.Specid.{SpecId}
use gonic.Db.{Album, AlbumPath, album_by_id}
use gonic.Radio.{Station}

pub record TrackRow : Type 0 where
  pub id : ℤ
  pub album_id : ℤ
  pub filename : Str

pub record Podcast : Type 0 where
  pub id : ℤ
  pub root_dir : Str

pub record Episode : Type 0 where
  pub id : ℤ
  pub podcast_id : ℤ
  pub filename : Str
  pub completed : Bool

pub record Tables : Type 0 where
  pub albums : List Album
  pub tracks : List TrackRow
  pub podcasts : List Podcast
  pub episodes : List Episode
  pub stations : List Station

abbrev with_slashes : List Str → Str
with_slashes [] = []
with_slashes (p ∷ []) = p
with_slashes (p ∷ q ∷ ps) = p ++ slash ∷ with_slashes (q ∷ ps)

abbrev clean_some : Str → Str
clean_some [] = []
clean_some (c ∷ s) = clean (c ∷ s)

abbrev behind_empty : List Str → List Str
behind_empty [] = []
behind_empty ([] ∷ ps) = behind_empty ps
behind_empty ((c ∷ p) ∷ ps) = (c ∷ p) ∷ ps

-- filepath.Join of many elements: those at the front that are empty are left out.
unfoldable pub join_all : List Str → Str
join_all ps = clean_some (with_slashes (behind_empty ps))

abbrev path_in : Str → Option Album → Str
path_in filename none = []
path_in filename (some a) =
    join_all (a.location.root_dir ∷ a.location.left_path ∷ a.location.right_path ∷ filename ∷ [])

-- `Track.AbsPath`, with its album loaded
unfoldable pub track_path : List Album → TrackRow → Str
unfolding join_all
track_path albums t = path_in t.filename (album_by_id t.album_id albums)

abbrev pub podcast_by_id : ℤ → List Podcast → Option Podcast
podcast_by_id i = find (λ p. int_eq p.id i)

abbrev episode_in : Str → Option Podcast → Str
episode_in filename none = []
episode_in filename (some p) = if str_eq p.root_dir [] then [] else join p.root_dir filename

-- `PodcastEpisode.AbsPath`, with its podcast loaded
unfoldable pub episode_path : List Podcast → Episode → Str
episode_path podcasts e = episode_in e.filename (podcast_by_id e.podcast_id podcasts)

abbrev path_of : {A : Type 0} → (A → Str) → Option A → Option Str
path_of f none = none
path_of f (some a) = some (f a)

-- `Locate`, and `AbsPath` of its result
unfoldable pub locate : Tables → SpecId → Option Str
locate db id =
    if str_eq id.typ Specid.track
    then path_of (track_path db.albums) (find (λ t. int_eq t.id id.value) db.tracks)
    else if str_eq id.typ Specid.podcast_episode
    then path_of (episode_path db.podcasts)
        (find (λ e. int_eq e.id id.value && e.completed) db.episodes)
    else if str_eq id.typ Specid.internet_radio_station
    then path_of (λ s. s.stream_url) (find (λ s. int_eq s.id id.value) db.stations)
    else none

abbrev pub id_for : Specid.Idt → Option ℤ → Option SpecId
id_for typ none = none
id_for typ (some i) = some (record { typ = typ; value = i; string_value = [] })

-- The join of two tables on a reference.
abbrev pub in_podcast : List Podcast → Str → Str → Episode → Bool
in_podcast podcasts folder filename e =
    any (λ p. int_eq p.id e.podcast_id && str_eq p.root_dir folder) podcasts
    && str_eq e.filename filename

abbrev pub in_album : List Album → AlbumPath → Str → TrackRow → Bool
in_album albums location filename t =
    any
      (λ a.
        int_eq a.id t.album_id
        && str_eq a.location.root_dir location.root_dir
        && str_eq a.location.left_path location.left_path
        && str_eq a.location.right_path location.right_path)
      albums
    && str_eq t.filename filename

abbrev pub episode_id : Option Episode → Option ℤ
episode_id none = none
episode_id (some e) = some e.id

abbrev pub track_id : Option TrackRow → Option ℤ
track_id none = none
track_id (some t) = some t.id

abbrev station_id : Option Station → Option ℤ
station_id none = none
station_id (some s) = some s.id

unfoldable pub lookup_episode : Tables → Str → Option SpecId
lookup_episode db path = id_for Specid.podcast_episode (
    episode_id (
      find (in_podcast db.podcasts (clean (up_to_slash path)) (clean (after_slash path)))
        db.episodes))

abbrev rel_or_empty : Option Str → Str
rel_or_empty none = []
rel_or_empty (some s) = s

-- The columns of the album of a file at a path relative to its music folder.
unfoldable pub album_location : Str → Str → AlbumPath
album_location music_path rel_path =
    let folder = clean (up_to_slash rel_path) in
    record {
      root_dir = music_path;
      left_path = up_to_slash folder;
      right_path = after_slash folder;
    }

unfoldable pub lookup_track : Tables → Str → Str → Option SpecId
unfolding album_location
lookup_track db path music_path =
    let rel_path = rel_or_empty (rel music_path path) in
    id_for Specid.track (
      track_id (
        find (in_album db.albums (album_location music_path rel_path) (after_slash rel_path))
          db.tracks))

abbrev pub with_music_path : Tables → Str → Option Str → Option SpecId
with_music_path db path none = none
with_music_path db path (some m) = lookup_track db path m

-- `Lookup`
unfoldable pub lookup : Tables → List Str → Str → Str → Option SpecId
lookup db music_paths podcasts_path path =
    let http = has_prefix path (codes "http") in
    if not http && not (is_abs path)
    then none
    else if has_prefix path podcasts_path
    then lookup_episode db path
    else if http
    then id_for Specid.internet_radio_station
        (station_id (find (λ s. str_eq s.stream_url path) db.stations))
    else with_music_path db path (find (λ m. within path m) music_paths)
