-- ===== src/Scanner/Files.antt =====
-- scanner/scanner.go: `populateTrackAndArtists`, all the rows of one file.
use gonic.Base.{
  ℕ, suc, Bool, not, ◌&&◌, ◌==◌, List, [], ◌∷◌, ◌++◌, map, Option, none, some, Str, codes, str_eq,
  ℤ, int_eq, any, keep, if◌then◌else◌,
}
use gonic.Tags.{Credited, Spec, read_values, read_credits}
use gonic.Tags.Specs
use gonic.Scanner.Tables.{ScannedAlbum, ScannedTrack, Credit, Tables, insert_bulk, same_credit}
use gonic.Scanner.Session.{
  Settings, FileTags, Properties, FileTimes, World, no_size, Scan, require, query, write, note,
  see_track, ◌>>=◌, ◌>>◌,
}
use gonic.Scanner.Populate.{
  populate_genres, populate_track_genres, populate_album_genres, populate_track_isrcs,
  populate_album_labels, credits, populate_album_credits, populate_track_credits, known_id,
  populate_refs,
}
use gonic.Scanner.Rows.{populate_album, track_tags, populate_track, populate_album_embedded_cover}

abbrev pub is_text : Str → Str → Bool
is_text s = str_eq s

-- The parents in the tree of genres that a track inherits.
unfoldable pub inherited_names : List (Str × List Str) → List Str → List Str
inherited_names [] direct = []
inherited_names ((parent, descendants) ∷ tree) direct =
    let rest = inherited_names tree direct in
    if not (any (is_text parent) direct) && any (λ d. any (is_text d) direct) descendants
    then parent ∷ rest
    else rest

-- `trackContributorRoles`
abbrev pub track_contributor_roles : List (Str × Spec)
track_contributor_roles =
    (codes "remixer", Specs.remixer)
    ∷ (codes "composer", Specs.composer)
    ∷ (codes "lyricist", Specs.lyricist)
    ∷ (codes "conductor", Specs.conductor)
    ∷ (codes "producer", Specs.producer)
    ∷ (codes "arranger", Specs.arranger)
    ∷ []

-- `trackUpdate` with `trackTagData`: a file that is to be written, by its place in the folder.
pub record TrackUpdate : Type 0 where
  pub index : ℕ
  pub basename : Str
  pub abs_path : Str
  pub track : Option ScannedTrack
  pub times : FileTimes

pub record TrackTagData : Type 0 where
  pub update : TrackUpdate
  pub props : Properties
  pub tags : FileTags

abbrev pub create_time : FileTimes → ℕ
create_time t = or_mod_time t.birth_time
  where
    or_mod_time : Option ℕ → ℕ
    or_mod_time none = t.mod_time
    or_mod_time (some n) = n

module _ (cfg : Settings) (w : World) where
  abbrev pub credits_of : FileTags → List (Str × List Credited)
  credits_of tags =
      map (λ r. (r.0, read_credits tags.values tags.get r.1 none)) track_contributor_roles

  -- The loop over the roles of contributors: the rows for each.
  unfoldable pub contributor_rows :
      (Str → Str) → ℤ → List (Str × List Credited) → Tables → List Credit × Tables
  unfolding populate_refs
  contributor_rows known track_id [] t = ([], t)
  contributor_rows known track_id ((role, entries) ∷ groups) t =
      let (refs, t1) = populate_refs w.unidecode known entries t in
      let (rows, t2) = contributor_rows known track_id groups t1 in
      (credits track_id role refs ++ rows, t2)

  abbrev pub people : FileTags → List Credited × List Credited
  people tags = (
    read_credits tags.values tags.get Specs.album_artist cfg.album_artist_setting,
    read_credits tags.values tags.get Specs.artist cfg.artist_setting,
  )

  -- The map from names to MusicBrainz ids over all the credits of the file.
  abbrev pub known_ids : FileTags → Str → Str
  known_ids tags =
      let (album_artists, artists) = people tags in
      known_id (album_artists ++ artists ++ concat (map (λ g. g.1) (credits_of tags)))
    where
      concat : List (List Credited) → List Credited
      concat [] = []
      concat (g ∷ gs) = g ++ concat gs

  abbrev pub genre_names : FileTags → List Str
  genre_names tags = read_values tags.values tags.get Specs.genre cfg.genre_setting

  -- The queries for the genres of the file: the ids of its own, and those of the inherited ones.
  unfoldable pub query_genres : FileTags → Tables → (List ℤ × List ℤ) × Tables
  unfolding inherited_names populate_genres
  query_genres tags t =
      let (direct, t1) = populate_genres (genre_names tags) t in
      let (inherited, t2) =
        populate_genres (inherited_names cfg.genre_tree (genre_names tags)) t1 in
      ((direct, inherited), t2)

  -- What the first file of a folder gives to the album.
  unfoldable pub query_album :
      FileTags → FileTimes → List ℤ × List ℤ → ScannedAlbum → Tables → ScannedAlbum × Tables
  unfolding populate_refs populate_album_credits populate_album populate_album_genres
      populate_album_labels
  query_album tags times (direct, inherited) album t0 =
      let t1 = record t0 {
        album_credits = keep (λ c. not (int_eq c.owner album.id)) t0.album_credits;
      } in
      let (refs, t2) = populate_refs w.unidecode (known_ids tags) (people tags).0 t1 in
      let t3 = populate_album_credits album.id (codes "albumartist") refs t2 in
      let (album', t4) = populate_album w tags times.mod_time (create_time times) album t3 in
      let t5 = populate_album_genres album.id direct inherited t4 in
      (album', populate_album_labels album.id (tags.values (codes "Label")) t5)

  -- The links of a track: genres, codes, artists and contributors.
  unfoldable pub query_links : FileTags → ℤ → List ℤ × List ℤ → Tables → Tables
  unfolding populate_track_genres populate_track_isrcs populate_refs populate_track_credits
      contributor_rows
  query_links tags track_id (direct, inherited) t0 =
      let t1 = populate_track_genres track_id direct inherited t0 in
      let t2 =
        populate_track_isrcs track_id (read_values tags.values tags.get Specs.isrc cfg.isrc_setting)
          t1 in
      let t3 = record t2 {
        track_credits = keep (λ c. not (int_eq c.owner track_id)) t2.track_credits;
      } in
      let (refs, t4) = populate_refs w.unidecode (known_ids tags) (people tags).1 t3 in
      let t5 = populate_track_credits track_id (codes "artist") refs t4 in
      let (rows, t6) = contributor_rows (known_ids tags) track_id (credits_of tags) t5 in
      record t6 { track_credits = insert_bulk same_credit rows t6.track_credits }

  -- `populateTrackAndArtists`
  unfoldable pub populate_track_and_artists : ℕ → ScannedAlbum → TrackTagData → Scan (Unit {0})
  populate_track_and_artists now album d = do
    genres ← query (query_genres d.tags)
    album' ← query (
        if d.update.index == 0 then query_album d.tags d.update.times genres album else λ t.
        (album, t))
    size ← require (no_size d.update.basename) (w.file_size d.update.abs_path)
    track ← query (
        populate_track w.unidecode now (create_time d.update.times) album.id d.update.track
          d.update.basename (track_tags w d.tags cfg.scan_embedded_cover d.props size))
    write (query_links d.tags track.id genres)
    write (
        if d.update.index == 0
        then populate_album_embedded_cover cfg.scan_embedded_cover d.props album' track
        else λ t. t)
    note (λ st. record (see_track track.id st) { seen_tracks_new = suc st.seen_tracks_new })
