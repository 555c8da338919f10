-- ===== src/Scanner/Populate.antt =====
-- scanner/scanner.go: the rows that a file's tags give to artists, genres and the link tables.
use gonic.Base.{
  suc, Bool, not, ◌&&◌, ◌||◌, List, [], ◌∷◌, ◌++◌, map, Option, none, some, Str, str_eq, trim_space,
  ℤ, pos, int_eq, any, find, keep, if◌then◌else◌,
}
use gonic.Tags.{Credited}
use gonic.Scanner.{genre_rows}
use gonic.Scanner.Tables.{
  Artist, Genre, Credit, GenreLink, Mark, Tables, save, insert_bulk, same_credit, same_genre_link,
  same_label, same_isrc,
}

-- `decoded`
unfoldable pub decoded : (Str → Str) → Str → Str
decoded unidecode s = let u = unidecode s in if str_eq u s then [] else u

abbrev pub has_name : Str → Artist → Bool
has_name name a = str_eq name [] || str_eq a.name name

abbrev pub has_brainz_id : Str → Artist → Bool
has_brainz_id mbid a = str_eq a.music_brainz_id mbid

abbrev pub is_name_only : Str → Artist → Bool
is_name_only name a = has_name name a && str_eq a.music_brainz_id []

module _ (unidecode : Str → Str) where
  unfoldable pub create_artist : Str → Str → Tables → Artist × Tables
  unfolding decoded
  create_artist name mbid t =
      let a : Artist = record {
        id = pos t.next_artist;
        name = name;
        name_u_dec = decoded unidecode name;
        music_brainz_id = mbid;
      } in
      (a, record t { artists = t.artists ++ a ∷ []; next_artist = suc t.next_artist })

  -- `FirstOrCreate` of a name, for what is found.
  abbrev pub any_artist : Str → Option Artist → Tables → Artist × Tables
  any_artist name (some a) t = (a, t)
  any_artist name none t = create_artist name [] t

  -- The row with only the name takes the id, else a row is created.
  abbrev pub adopted : Str → Str → Option Artist → Tables → Artist × Tables
  adopted name mbid (some a) t =
      let b = record a { music_brainz_id = mbid } in
      (b, record t { artists = save (λ r. r.id) b t.artists })
  adopted name mbid none t = create_artist name mbid t

  abbrev pub by_brainz_id : Str → Str → Option Artist → Tables → Artist × Tables
  by_brainz_id name mbid (some a) t = (a, t)
  by_brainz_id name mbid none t = adopted name mbid (find (is_name_only name) t.artists) t

  -- `populateArtist`
  unfoldable pub populate_artist : Str → Str → Tables → Artist × Tables
  populate_artist name [] t = any_artist name (find (has_name name) t.artists) t
  populate_artist name (c ∷ cs) t =
      by_brainz_id name (c ∷ cs) (find (has_brainz_id (c ∷ cs)) t.artists) t

-- `FirstOrCreate` of a genre by its name, for what is found.
abbrev pub found_genre : Str → Option Genre → Tables → ℤ × Tables
found_genre name (some g) t = (g.id, t)
found_genre name none t =
    let i = pos t.next_genre in
    let g : Genre = record { id = i; name = name } in
    (i, record t { genres = t.genres ++ g ∷ []; next_genre = suc t.next_genre })

-- The second loop of `populateGenres`.
unfoldable pub add_genre_names : List Str → Tables → List ℤ × Tables
add_genre_names [] t = ([], t)
add_genre_names (name ∷ names) t =
    let (i, t1) = found_genre name (find (λ g. str_eq g.name name) t.genres) t in
    let (is, t2) = add_genre_names names t1 in (i ∷ is, t2)

abbrev pub not_blank : Str → Bool
not_blank s = not (str_eq s [])

-- `populateGenres`
unfoldable pub populate_genres : List Str → Tables → List ℤ × Tables
unfolding add_genre_names
populate_genres names = add_genre_names (keep not_blank (map trim_space names))

abbrev genre_link : ℤ → ℤ × Bool → GenreLink
genre_link owner (i, inherited) = record { owner = owner; genre_id = i; inherited = inherited }

abbrev of_owner : ℤ → GenreLink → Bool
of_owner i g = int_eq g.owner i

abbrev pub put_genres : ℤ → List ℤ → List ℤ → List GenreLink → List GenreLink
put_genres i direct inherited table =
    insert_bulk same_genre_link (map (genre_link i) (genre_rows direct inherited))
      (keep (λ g. not (of_owner i g)) table)

-- `populateTrackGenres`
unfoldable pub populate_track_genres : ℤ → List ℤ → List ℤ → Tables → Tables
populate_track_genres track_id direct inherited t = record t {
  track_genres = put_genres track_id direct inherited t.track_genres;
}

-- `populateAlbumGenres`
unfoldable pub populate_album_genres : ℤ → List ℤ → List ℤ → Tables → Tables
populate_album_genres album_id direct inherited t = record t {
  album_genres = put_genres album_id direct inherited t.album_genres;
}

abbrev pub marks : ℤ → List Str → List Mark
marks owner = map (λ s. record { owner = owner; text = s })

-- `populateTrackISRCs`
unfoldable pub populate_track_isrcs : ℤ → List Str → Tables → Tables
populate_track_isrcs track_id isrcs t = record t {
  track_isrcs =
      insert_bulk same_isrc (marks track_id (keep not_blank isrcs))
        (keep (λ m. not (int_eq m.owner track_id)) t.track_isrcs);
}

-- The loop of `populateAlbumLabels` behind the trimming, with what is seen.
unfoldable pub fresh_labels : List Str → List Str → List Str
fresh_labels seen [] = []
fresh_labels seen (l ∷ ls) =
    let skipped = fresh_labels seen ls in
    let added = l ∷ fresh_labels (l ∷ seen) ls in
    if str_eq l [] || any (str_eq l) seen then skipped else added

-- `populateAlbumLabels`
unfoldable pub populate_album_labels : ℤ → List Str → Tables → Tables
unfolding fresh_labels
populate_album_labels album_id labels t = record t {
  album_labels =
      insert_bulk same_label (marks album_id (fresh_labels [] (map trim_space labels)))
        (keep (λ m. not (int_eq m.owner album_id)) t.album_labels);
}

-- `artistRef`
pub record ArtistRef : Type 0 where
  pub id : ℤ
  pub credit : Str

abbrev pub credits : ℤ → Str → List ArtistRef → List Credit
credits owner role =
    map (λ r. record { owner = owner; artist_id = r.id; role = role; credited_as = r.credit })

-- `populateAlbumCredits`
unfoldable pub populate_album_credits : ℤ → Str → List ArtistRef → Tables → Tables
populate_album_credits album_id role refs t = record t {
  album_credits = insert_bulk same_credit (credits album_id role refs) t.album_credits;
}

-- `populateTrackCredits`
unfoldable pub populate_track_credits : ℤ → Str → List ArtistRef → Tables → Tables
populate_track_credits track_id role refs t = record t {
  track_credits = insert_bulk same_credit (credits track_id role refs) t.track_credits;
}

-- `populateAlbumDiscTitles`, for the entries of the map in some order
unfoldable pub populate_album_disc_titles : ℤ → List (ℤ × Str) → Tables → Tables
populate_album_disc_titles album_id titles t = record t {
  disc_titles =
      keep (λ d. not (int_eq d.album_id album_id)) t.disc_titles
      ++ map (λ p. record { album_id = album_id; disc_number = p.0; title = p.1 }) titles;
}

-- What the map from names to MusicBrainz ids has for a name, the first one that is not blank.
abbrev pub known_id : List Credited → Str → Str
known_id [] name = []
known_id (e ∷ es) name =
    if not_blank e.music_brainz_id && str_eq e.value name
    then e.music_brainz_id
    else known_id es name

-- cmp.Or
abbrev pub or_text : Str → Str → Str
or_text [] s = s
or_text (c ∷ cs) s = c ∷ cs

-- The loop over the entries of a tag: an artist for each.
unfoldable pub populate_refs :
    (Str → Str) → (Str → Str) → List Credited → Tables → List ArtistRef × Tables
unfolding populate_artist
populate_refs unidecode known [] t = ([], t)
populate_refs unidecode known (e ∷ es) t =
    let (a, t1) = populate_artist unidecode e.value (or_text e.music_brainz_id (known e.value)) t in
    let (refs, t2) = populate_refs unidecode known es t1 in
    (record { id = a.id; credit = e.value_credit } ∷ refs, t2)
