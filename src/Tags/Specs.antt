-- ===== src/Tags/Specs.antt =====
-- tags/tags.go: the tags that are read, with their keys by the names of normtag's constants, and
-- `ParseDB`.
use gonic.Base.{Bool, not, List, [], ◌∷◌, none, some, ℕ, Str, codes}
use gonic.FilePath.{trim_suffix}
use gonic.Tags.{Spec}

-- A tag of people, by its keys; without a fallback.
abbrev of_people : Str → Str → Str → Str → Str → Spec
of_people multi_key key multi_key_credit key_credit key_music_brainz_id = record {
  multi_key = multi_key ∷ [];
  key = key ∷ [];
  multi_key_credit = multi_key_credit ∷ [];
  key_credit = key_credit ∷ [];
  key_music_brainz_id = key_music_brainz_id ∷ [];
  fallback = [];
  valid = none;
}

abbrev of_values : List Str → List Str → Spec
of_values multi_key key = record {
  multi_key = multi_key;
  key = key;
  multi_key_credit = [];
  key_credit = [];
  key_music_brainz_id = [];
  fallback = [];
  valid = none;
}

abbrev pub artist : Spec
artist =
    let people =
      of_people (codes "Artists") (codes "Artist") (codes "ArtistsCredit") (codes "ArtistCredit")
        (codes "MusicBrainzArtistID") in
    record people { fallback = codes "Unknown Artist" }

abbrev pub album_artist : Spec
album_artist = record {
  multi_key = codes "AlbumArtists" ∷ [];
  key = codes "AlbumArtist" ∷ codes "Artist" ∷ [];
  multi_key_credit = codes "AlbumArtistsCredit" ∷ [];
  key_credit = codes "AlbumArtistCredit" ∷ [];
  key_music_brainz_id = codes "MusicBrainzAlbumArtistID" ∷ codes "MusicBrainzArtistID" ∷ [];
  fallback = codes "Unknown Artist";
  valid = none;
}

abbrev pub genre : Spec
genre = of_values (codes "Genres" ∷ []) (codes "Genre" ∷ [])

abbrev pub isrc : Spec
isrc = of_values (codes "ISRC" ∷ []) (codes "ISRC" ∷ [])

abbrev pub remixer : Spec
remixer =
    of_people (codes "Remixers") (codes "Remixer") (codes "RemixersCredit") (codes "RemixerCredit")
      (codes "MusicBrainzRemixerID")

abbrev pub composer : Spec
composer =
    of_people (codes "Composers") (codes "Composer") (codes "ComposersCredit")
      (codes "ComposerCredit") (codes "MusicBrainzComposerID")

abbrev pub lyricist : Spec
lyricist =
    of_people (codes "Lyricists") (codes "Lyricist") (codes "LyricistsCredit")
      (codes "LyricistCredit") (codes "MusicBrainzLyricistID")

abbrev pub conductor : Spec
conductor =
    of_people (codes "Conductors") (codes "Conductor") (codes "ConductorsCredit")
      (codes "ConductorCredit") (codes "MusicBrainzConductorID")

abbrev pub producer : Spec
producer =
    of_people (codes "Producers") (codes "Producer") (codes "ProducersCredit")
      (codes "ProducerCredit") (codes "MusicBrainzProducerID")

abbrev pub arranger : Spec
arranger =
    of_people (codes "Arrangers") (codes "Arranger") (codes "ArrangersCredit")
      (codes "ArrangerCredit") (codes "MusicBrainzArrangerID")

abbrev pub album_title : Spec
album_title =
    let values = of_values [] (codes "Album" ∷ []) in
    record values { fallback = codes "Unknown Album" }

abbrev pub track_title : Spec
track_title = of_values [] (codes "Title" ∷ [])

-- `Year`, with whether `ParseDate` gives the zero time
abbrev pub year : (Str → Bool) → Spec
year is_zero_date =
    let values = of_values [] (codes "OriginalDate" ∷ codes "Date" ∷ []) in
    record values { valid = some (λ v. not (is_zero_date v)) }

-- `ParseDB`, with strings.ToLower and `ParseFloat`
unfoldable pub parse_db : (Str → Str) → (Str → ℕ) → Str → ℕ
parse_db to_lower parse_float s =
    parse_float (trim_suffix (trim_suffix (to_lower s) (codes " db")) (codes "db"))
