-- ===== src/Scanner/Emptied/Left.antt =====
-- scanner.go: what the clean up leaves of albums without tracks.
use gonic.Base.{◌≡◌, false, [], ℤ, int_eq, any, keep, none, pos}
use gonic.Scanner.Tables.{ScannedAlbum, Tables}

-- The row of an album as a row without tags.
pub record IsBare (a b : ScannedAlbum) : Type 0 where
  pub id_same : b.id ≡ a.id
  pub location_same : b.location ≡ a.location
  pub parent_same : b.parent_id ≡ a.parent_id
  pub cover_same : b.cover ≡ a.cover
  pub version_same : b.columns.version ≡ a.columns.version
  pub credit_same : b.columns.album_artist_credit ≡ a.columns.album_artist_credit
  pub no_embedded_cover : b.embedded_cover_track_id ≡ none
  pub no_title : b.columns.title ≡ []
  pub no_title_u_dec : b.columns.title_u_dec ≡ []
  pub no_album_artist : b.columns.album_artist ≡ []
  pub no_year : b.columns.year ≡ pos 0
  pub no_brainz_id : b.columns.brainz_id ≡ []
  pub no_compilation : b.columns.compilation ≡ false
  pub no_release_type : b.columns.release_type ≡ []

-- No credit, genre, label or title of a disc of an album is there.
abbrev pub NothingOf : ℤ → Tables → Type 0
NothingOf i t =
    (any (λ c. int_eq c.owner i) t.album_credits ≡ false)
    × (any (λ g. int_eq g.owner i) t.album_genres ≡ false)
    × (any (λ l. int_eq l.owner i) t.album_labels ≡ false)
    × (any (λ d. int_eq d.album_id i) t.disc_titles ≡ false)

-- Two states have the same credits, genres, labels and titles of discs of an album.
abbrev pub SameOf : ℤ → Tables → Tables → Type 0
SameOf i t u =
    (keep (λ c. int_eq c.owner i) u.album_credits ≡ keep (λ c. int_eq c.owner i) t.album_credits)
    × (keep (λ g. int_eq g.owner i) u.album_genres ≡ keep (λ g. int_eq g.owner i) t.album_genres)
    × (keep (λ l. int_eq l.owner i) u.album_labels ≡ keep (λ l. int_eq l.owner i) t.album_labels)
    × (keep (λ d. int_eq d.album_id i) u.disc_titles
        ≡ keep (λ d. int_eq d.album_id i) t.disc_titles)
