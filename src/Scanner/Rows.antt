-- ===== src/Scanner/Rows.antt =====
-- scanner/scanner.go: the rows of albums and tracks, from a folder, a file and its tags.
use gonic.Base.{
  ℕ, suc, Bool, ◌&&◌, ◌||◌, ◌==◌, ltb, List, [], ◌∷◌, ◌++◌, Option, none, some, Str, codes, str_eq,
  ℤ, pos, int_eq, find, if◌then◌else◌,
}
use gonic.Db.{AlbumPath}
use gonic.Tags.{Spec, read_one}
use gonic.Tags.Specs
use gonic.Tags.Specs.{parse_db}
use gonic.Scanner.Tables.{
  AlbumTags, no_album_tags, ScannedAlbum, TrackTags, ScannedTrack, Tables, album_is_at, save,
}
use gonic.Scanner.Session.{FileTags, Properties, World}
use gonic.Scanner.Populate.{decoded}

abbrev pub empty_album : ℕ → ℕ → AlbumPath → ScannedAlbum
empty_album n now p = record {
  id = pos n;
  location = p;
  right_path_u_dec = [];
  parent_id = pos 0;
  cover = [];
  embedded_cover_track_id = none;
  created_at = now;
  modified_at = 0;
  columns = no_album_tags;
}

abbrev pub add_album : ScannedAlbum → Tables → ScannedAlbum × Tables
add_album a t = (a, record t { albums = t.albums ++ a ∷ []; next_album = suc t.next_album })

abbrev pub save_album : ScannedAlbum → Tables → ScannedAlbum × Tables
save_album a t = (a, record t { albums = save (λ r. r.id) a t.albums })

abbrev pub found_album : ℕ → AlbumPath → Option ScannedAlbum → Tables → ScannedAlbum × Tables
found_album now p (some a) t = (a, t)
found_album now p none t = add_album (empty_album t.next_album now p) t

-- `Assign` and `FirstOrCreate` of the parent in `scanDir`: the values assigned are those looked for, so
-- that of a row that is found only updated_at is written, a column that the model leaves out.
unfoldable pub find_parent : ℕ → AlbumPath → Tables → ScannedAlbum × Tables
find_parent now p t = found_album now p (find (album_is_at p) t.albums) t

module _ (unidecode : Str → Str) where
  unfoldable pub with_basics : ℤ → Str → ScannedAlbum → ScannedAlbum
  with_basics parent_id cover a = record a {
    cover = cover;
    right_path_u_dec = decoded unidecode a.location.right_path;
    parent_id = parent_id;
  }

  -- What `populateAlbumBasics` does with the row that it finds.
  abbrev pub basics_of :
      ℕ → AlbumPath → ℤ → Str → Option ScannedAlbum → Tables → ScannedAlbum × Tables
  basics_of now p parent_id cover (some a) t =
      if str_eq a.cover cover && int_eq a.parent_id parent_id
      then (a, t)
      else save_album (with_basics parent_id cover a) t
  basics_of now p parent_id cover none t =
      add_album (with_basics parent_id cover (empty_album t.next_album now p)) t

  -- `populateAlbumBasics`
  unfoldable pub populate_album_basics : ℕ → AlbumPath → ℤ → Str → Tables → ScannedAlbum × Tables
  populate_album_basics now p parent_id cover t =
      basics_of now p parent_id cover (find (album_is_at p) t.albums) t

abbrev read_tag : FileTags → Spec → Str × Str
read_tag tags = read_one tags.values tags.get

unfoldable pub join_texts : List Str → Str
join_texts [] = []
join_texts (s ∷ []) = s
join_texts (s ∷ t ∷ ts) = s ++ codes ", " ++ join_texts (t ∷ ts)

module _ (w : World) (tags : FileTags) where
  abbrev year_of : ℤ
  year_of =
      let v = (read_tag tags (Specs.year w.is_zero_date)).0 in
      if str_eq v [] then pos 0 else w.year v

  unfoldable pub album_tags : AlbumTags
  unfolding decoded
  album_tags =
      let title = (read_tag tags Specs.album_title).0 in
      let (artist, credit) = read_tag tags Specs.album_artist in
      record {
        title = title;
        title_u_dec = decoded w.unidecode title;
        album_artist = artist;
        album_artist_credit = credit;
        brainz_id = tags.get (codes "MusicBrainzReleaseID");
        year = year_of;
        compilation = w.parse_bool (tags.get (codes "Compilation"));
        release_type = join_texts (tags.values (codes "ReleaseType"));
        version = tags.get (codes "MusicBrainzAlbumComment");
      }

  -- `populateAlbum`
  unfoldable pub populate_album : ℕ → ℕ → ScannedAlbum → Tables → ScannedAlbum × Tables
  unfolding album_tags
  populate_album mod_time create_time a = save_album (record a {
    columns = album_tags;
    modified_at = mod_time;
    created_at = if ltb create_time a.created_at then create_time else a.created_at;
  })

  unfoldable pub track_tags : Bool → Properties → ℤ → TrackTags
  unfolding decoded parse_db
  track_tags scan_embedded_cover props size =
      let title = (read_tag tags Specs.track_title).0 in
      let (artist, artist_credit) = read_tag tags Specs.artist in
      let (composer, composer_credit) = read_tag tags Specs.composer in
      record {
        size = size;
        length = props.length;
        bitrate = props.bitrate;
        has_embedded_cover = scan_embedded_cover && props.has_cover;
        title = title;
        title_u_dec = decoded w.unidecode title;
        track_artist = artist;
        track_artist_credit = artist_credit;
        composer = composer;
        composer_credit = composer_credit;
        track_number = w.parse_int (tags.get (codes "TrackNumber"));
        disc_number = w.parse_int (tags.get (codes "DiscNumber"));
        brainz_id = tags.get (codes "MusicBrainzRecordingID");
        lyrics = tags.get (codes "Lyrics");
        year = year_of;
        track_gain = parse_db w.to_lower w.parse_float (tags.get (codes "ReplayGainTrackGain"));
        track_peak = w.parse_float (tags.get (codes "ReplayGainTrackPeak"));
        album_gain = parse_db w.to_lower w.parse_float (tags.get (codes "ReplayGainAlbumGain"));
        album_peak = w.parse_float (tags.get (codes "ReplayGainAlbumPeak"));
      }

abbrev pub created_of : ℕ → Option ScannedTrack → ℕ
created_of create_time none = create_time
created_of create_time (some t) =
    if t.created_at == 0 || ltb create_time t.created_at then create_time else t.created_at

unfoldable pub track_row : (Str → Str) → ℕ → ℕ → ℤ → ℤ → Str → TrackTags → ScannedTrack
unfolding decoded
track_row unidecode now created id album_id filename columns = record {
  id = id;
  album_id = album_id;
  filename = filename;
  filename_u_dec = decoded unidecode filename;
  created_at = created;
  updated_at = now;
  columns = columns;
}

-- `populateTrack`: the row of a track that was there keeps its id, and a new one gets the next.
unfoldable pub populate_track :
    (Str → Str) → ℕ → ℕ → ℤ → Option ScannedTrack → Str → TrackTags → Tables → ScannedTrack × Tables
populate_track unidecode now create_time album_id (some old) filename columns t =
    let r =
      track_row unidecode now (created_of create_time (some old)) old.id album_id filename
        columns in
    (r, record t { tracks = save (λ x. x.id) r t.tracks })
populate_track unidecode now create_time album_id none filename columns t =
    let r =
      track_row unidecode now (created_of create_time none) (pos t.next_track) album_id filename
        columns in
    (r, record t { tracks = t.tracks ++ r ∷ []; next_track = suc t.next_track })

abbrev pub id_or_zero : Option ℤ → ℤ
id_or_zero none = pos 0
id_or_zero (some i) = i

-- `populateAlbumEmbeddedCover`; a track's id is not zero.
unfoldable pub populate_album_embedded_cover :
    Bool → Properties → ScannedAlbum → ScannedTrack → Tables → Tables
populate_album_embedded_cover scan_embedded_cover props a track t =
    let covers = scan_embedded_cover && props.has_cover in
    let track_id = if covers then track.id else pos 0 in
    if int_eq (id_or_zero a.embedded_cover_track_id) track_id
    then t
    else (save_album (record a { embedded_cover_track_id = if covers then some track.id else none })
        t).1
