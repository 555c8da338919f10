-- ===== src/SpecidPaths/Tests.antt =====
-- Runs of specidpaths.go, and its theorems at concrete rows.
use gonic.Base.{
  ◌≡◌, ◌≢◌, refl, true, List, [], ◌∷◌, some, arith, Str, codes, str_eq, has_prefix, pos, int_eq,
  All,
}
use gonic.FilePath.{
  split_on, separated, resolve, clean, join, up_to_slash, after_slash, trailing, IsName,
}
use gonic.Fileutil.{within}
use gonic.Specid
use gonic.Specid.{SpecId}
use gonic.Db.{Album}
use gonic.Radio.{Station}
use gonic.SpecidPaths.{TrackRow, Tables, locate, lookup, lookup_episode, episode_path}
use gonic.SpecidPaths.Located.{inside, lookup-locate, track_sid}

abbrev album : Album
album = record {
  id = pos 4;
  location = record {
    root_dir = codes "/music";
    left_path = codes "rock/";
    right_path = codes "one";
  };
}

abbrev song : TrackRow
song = record { id = pos 7; album_id = pos 4; filename = codes "x.mp3" }

abbrev station : Station
station = record { id = pos 2; stream_url = codes "http://r"; name = codes "r"; homepage_url = [] }

abbrev tables : Tables
tables = record {
  albums = album ∷ [];
  tracks = song ∷ [];
  podcasts = record { id = pos 1; root_dir = codes "/pods/cast" } ∷ [];
  episodes =
      record { id = pos 3; podcast_id = pos 1; filename = codes "e.mp3"; completed = true } ∷ [];
  stations = station ∷ [];
}

abbrev music : List Str
music = codes "/music" ∷ []

name : {p : Str} → p ≢ [] → p ≢ codes "." → p ≢ codes ".." → All (λ c. c ≢ b'/') p → IsName p
name a b c d = record { some_text = a; not_dot = b; not_dot_dot = c; one_part = d }

music-IsName : All IsName (codes "music" ∷ [])
music-IsName = (name (λ e. cc) (λ e. cc) (λ e. cc) (omega arith), tt)

song-IsName : All IsName (codes "rock" ∷ codes "one" ∷ codes "x.mp3" ∷ [])
song-IsName = (
  name (λ e. cc) (λ e. cc) (λ e. cc) (omega arith),
  (
    name (λ e. cc) (λ e. cc) (λ e. cc) (omega arith),
    (name (λ e. cc) (λ e. cc) (λ e. cc) (omega arith), tt),
  ),
)

lookup-locate_example :
    (path : Str) × (locate tables (track_sid (pos 7)) ≡ some path)
    × (lookup tables music (codes "/pods") path ≡ some (track_sid (pos 7)))
unfolding int_eq str_eq within clean join separated split_on resolve has_prefix trailing
lookup-locate_example =
    lookup-locate tables music (codes "/pods") (codes "music") [] music-IsName
      (inside (codes "rock" ∷ []) (codes "one")) (pos 7) song album refl refl refl song-IsName refl
      refl ((λ e. refl), tt)

abbrev episode_sid : SpecId
episode_sid = record { typ = Specid.podcast_episode; value = pos 3; string_value = [] }

episode_run :
    (locate tables episode_sid ≡ some (codes "/pods/cast/e.mp3"))
    × (lookup tables music (codes "/pods") (codes "/pods/cast/e.mp3") ≡ some episode_sid)
unfolding locate episode_path lookup lookup_episode int_eq str_eq clean join split_on resolve
    separated has_prefix up_to_slash after_slash
episode_run = (refl, refl)

-- The podcasts lie in a folder whose name begins the name of the music folder.
abbrev mixed : Tables
mixed = record tables { podcasts = record { id = pos 1; root_dir = codes "/music" } ∷ [] }

mixed_run : lookup mixed music (codes "/mus") (codes "/music/e.mp3") ≡ some episode_sid
unfolding lookup lookup_episode int_eq str_eq clean split_on resolve separated has_prefix
    up_to_slash after_slash
mixed_run = refl
