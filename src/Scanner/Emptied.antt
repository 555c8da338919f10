-- ===== src/Scanner/Emptied.antt =====
-- scanner/scanner.go: `cleanAlbumMetadata`, which takes the tags from albums without tracks, and
-- `cleanGenres`. A genre that is deleted takes its links along (ON DELETE CASCADE).
pub mod Lists
pub mod Left
use gonic.Base.{
  Bool, true, false, not, ◌&&◌, ◌||◌, List, [], ◌∷◌, none, map, Str, str_eq, ℤ, pos, int_eq, any,
  keep, if◌then◌else◌,
}
use gonic.Scanner.{among}
use gonic.Scanner.Tables.{ScannedAlbum, ScannedTrack, Genre, GenreLink, Tables}
use gonic.Scanner.Populate.{not_blank}

abbrev pub has_tracks : List ScannedTrack → ℤ → Bool
has_tracks tracks i = any (λ r. int_eq r.album_id i) tracks

-- An album without tracks that still has a title or an artist.
abbrev pub is_emptied : List ScannedTrack → ScannedAlbum → Bool
is_emptied tracks a =
    not (has_tracks tracks a.id) && (not_blank a.columns.title || not_blank a.columns.album_artist)

-- The columns that the update sets; the version and the credited artist are not among them.
unfoldable pub cleared : ScannedAlbum → ScannedAlbum
cleared a = record a {
  embedded_cover_track_id = none;
  columns = record (a.columns) {
    title = [];
    title_u_dec = [];
    album_artist = [];
    year = pos 0;
    brainz_id = [];
    compilation = false;
    release_type = [];
  };
}

abbrev pub empty_album_ids : Tables → List ℤ
empty_album_ids t = map (λ a. a.id) (keep (is_emptied t.tracks) t.albums)

unfoldable pub clear_albums : List ℤ → Tables → Tables
unfolding cleared
clear_albums ids t = record t {
  album_credits = keep (λ c. not (among ids c.owner)) t.album_credits;
  album_genres = keep (λ g. not (among ids g.owner)) t.album_genres;
  disc_titles = keep (λ d. not (among ids d.album_id)) t.disc_titles;
  album_labels = keep (λ l. not (among ids l.owner)) t.album_labels;
  albums = map (λ a. if among ids a.id then cleared a else a) t.albums;
}

-- Nothing is written if no album is empty.
unfoldable pub clear_if_any : List ℤ → Tables → Tables
unfolding clear_albums
clear_if_any [] t = t
clear_if_any (i ∷ is) t = clear_albums (i ∷ is) t

-- `cleanAlbumMetadata`
unfoldable pub clean_album_metadata : Tables → Tables
unfolding clear_if_any
clean_album_metadata t = clear_if_any (empty_album_ids t) t

abbrev pub links_to : ℤ → List GenreLink → Bool
links_to i = any (λ l. int_eq l.genre_id i)

abbrev pub without_genres : (Genre → Bool) → Tables → Tables
without_genres gone t =
    let kept = keep (λ g. not (gone g)) t.genres in
    record t {
      genres = kept;
      track_genres = keep (λ l. any (λ g. int_eq g.id l.genre_id) kept) t.track_genres;
      album_genres = keep (λ l. any (λ g. int_eq g.id l.genre_id) kept) t.album_genres;
    }

-- The links of a genre to albums that there are, and whether one of these has a track.
abbrev pub has_album : List ScannedAlbum → ℤ → Bool
has_album albums i = any (λ a. int_eq a.id i) albums

abbrev pub links_of : Tables → ℤ → List GenreLink
links_of t i = keep (λ l. int_eq l.genre_id i && has_album t.albums l.owner) t.album_genres

abbrev some_link : List GenreLink → Bool
some_link [] = false
some_link (l ∷ ls) = true

-- A genre of albums of which none has a track.
abbrev pub is_trackless : Tables → Genre → Bool
is_trackless t g =
    some_link (links_of t g.id) && not (any (λ l. has_tracks t.tracks l.owner) (links_of t g.id))

abbrev pub is_unused : Tables → Genre → Bool
is_unused t g = not (links_to g.id t.track_genres) && not (links_to g.id t.album_genres)

-- `cleanGenres`
unfoldable pub clean_genres : Tables → Tables
clean_genres t = let t1 = without_genres (is_unused t) t in without_genres (is_trackless t1) t1
