-- ===== src/Scanner/Reading/Leaves.antt =====
-- scanner.go: the queries for artists, genres and links leave the tables of albums and tracks alone.
use gonic.Base.{
  ◌≡◌, refl, ◌∙◌, List, [], ◌∷◌, Option, none, some, Str, ℤ, int_eq, find, keep, str_eq, map,
  trim_space, not, codes,
}
use gonic.Tags.{Credited}
use gonic.Scanner.Tables.{Artist, Genre, Tables}
use gonic.Scanner.Session.{Settings, FileTags, World}
use gonic.Scanner.Populate.{
  has_name, has_brainz_id, is_name_only, create_artist, any_artist, adopted, by_brainz_id,
  populate_artist, found_genre, add_genre_names, populate_genres, populate_refs, or_text, not_blank,
  populate_track_genres, populate_track_isrcs, populate_track_credits,
}
use gonic.Tags.{read_values}
use gonic.Tags.Specs
use gonic.Scanner.Files.{
  contributor_rows, query_genres, query_links, genre_names, inherited_names, credits_of, people,
  known_ids,
}

abbrev pub Leaves : Tables → Tables → Type 0
Leaves t u =
    (u.albums ≡ t.albums)
    × (u.tracks ≡ t.tracks)
    × (u.next_album ≡ t.next_album)
    × (u.next_track ≡ t.next_track)

abbrev pub leaves : (t : Tables) → Leaves t t
leaves t = (refl, refl, refl, refl)

pub Leaves-trans : (t u v : Tables) → Leaves t u → Leaves u v → Leaves t v
Leaves-trans t u v (a, b, c, d) (e, f, g, h) = (e ∙ a, f ∙ b, g ∙ c, h ∙ d)

module _ (unidecode : Str → Str) where
  create_artist-Leaves :
      (name mbid : Str) (t : Tables) → Leaves t (create_artist unidecode name mbid t).1
  unfolding create_artist
  create_artist-Leaves name mbid t = leaves t

  any_artist-Leaves :
      (name : Str) (o : Option Artist) (t : Tables) → Leaves t (any_artist unidecode name o t).1
  any_artist-Leaves name (some a) t = leaves t
  any_artist-Leaves name none t = create_artist-Leaves name [] t

  adopted-Leaves :
      (name mbid : Str) (o : Option Artist) (t : Tables)
      → Leaves t (adopted unidecode name mbid o t).1
  adopted-Leaves name mbid (some a) t = leaves t
  adopted-Leaves name mbid none t = create_artist-Leaves name mbid t

  by_brainz_id-Leaves :
      (name mbid : Str) (o : Option Artist) (t : Tables)
      → Leaves t (by_brainz_id unidecode name mbid o t).1
  by_brainz_id-Leaves name mbid (some a) t = leaves t
  by_brainz_id-Leaves name mbid none t =
      adopted-Leaves name mbid (find (is_name_only name) t.artists) t

  pub populate_artist-Leaves :
      (name mbid : Str) (t : Tables) → Leaves t (populate_artist unidecode name mbid t).1
  unfolding populate_artist
  populate_artist-Leaves name [] t = any_artist-Leaves name (find (has_name name) t.artists) t
  populate_artist-Leaves name (c ∷ cs) t =
      by_brainz_id-Leaves name (c ∷ cs) (find (has_brainz_id (c ∷ cs)) t.artists) t

  pub populate_refs-Leaves :
      (known : Str → Str) (es : List Credited) (t : Tables)
      → Leaves t (populate_refs unidecode known es t).1
  unfolding populate_refs
  populate_refs-Leaves known [] t = leaves t
  populate_refs-Leaves known (e ∷ es) t =
      let mbid = or_text e.music_brainz_id (known e.value) in
      let t1 = (populate_artist unidecode e.value mbid t).1 in
      Leaves-trans t t1 (populate_refs unidecode known es t1).1
        (populate_artist-Leaves e.value mbid t) (populate_refs-Leaves known es t1)

found_genre-Leaves :
    (name : Str) (o : Option Genre) (t : Tables) → Leaves t (found_genre name o t).1
found_genre-Leaves name (some g) t = leaves t
found_genre-Leaves name none t = leaves t

add_genre_names-Leaves : (names : List Str) (t : Tables) → Leaves t (add_genre_names names t).1
unfolding add_genre_names
add_genre_names-Leaves [] t = leaves t
add_genre_names-Leaves (name ∷ names) t =
    let found = find (λ g. str_eq g.name name) t.genres in
    let t1 = (found_genre name found t).1 in
    Leaves-trans t t1 (add_genre_names names t1).1 (found_genre-Leaves name found t)
      (add_genre_names-Leaves names t1)

populate_genres-Leaves : (names : List Str) (t : Tables) → Leaves t (populate_genres names t).1
unfolding populate_genres
populate_genres-Leaves names t = add_genre_names-Leaves (keep not_blank (map trim_space names)) t

module _ (cfg : Settings) (w : World) where
  contributor_rows-Leaves :
      (known : Str → Str) (i : ℤ) (groups : List (Str × List Credited)) (t : Tables)
      → Leaves t (contributor_rows cfg w known i groups t).1
  unfolding contributor_rows
  contributor_rows-Leaves known i [] t = leaves t
  contributor_rows-Leaves known i ((role, entries) ∷ groups) t =
      let t1 = (populate_refs w.unidecode known entries t).1 in
      Leaves-trans t t1 (contributor_rows cfg w known i groups t1).1
        (populate_refs-Leaves w.unidecode known entries t)
        (contributor_rows-Leaves known i groups t1)

  pub query_genres-Leaves : (tags : FileTags) (t : Tables) → Leaves t (query_genres cfg w tags t).1
  unfolding query_genres
  query_genres-Leaves tags t =
      let t1 = (populate_genres (genre_names cfg w tags) t).1 in
      let inherited = inherited_names cfg.genre_tree (genre_names cfg w tags) in
      Leaves-trans t t1 (populate_genres inherited t1).1
        (populate_genres-Leaves (genre_names cfg w tags) t) (populate_genres-Leaves inherited t1)

  pub query_links-Leaves :
      (tags : FileTags) (i : ℤ) (genres : List ℤ × List ℤ) (t : Tables)
      → Leaves t (query_links cfg w tags i genres t)
  unfolding query_links populate_track_genres populate_track_isrcs populate_track_credits
  query_links-Leaves tags i (direct, inherited) t0 =
      let t2 =
        populate_track_isrcs i (read_values tags.values tags.get Specs.isrc cfg.isrc_setting)
          (populate_track_genres i direct inherited t0) in
      let t3 = record t2 { track_credits = keep (λ c. not (int_eq c.owner i)) t2.track_credits } in
      let (refs, t4) = populate_refs w.unidecode (known_ids cfg w tags) (people cfg w tags).1 t3 in
      let t5 = populate_track_credits i (codes "artist") refs t4 in
      let t6 = (contributor_rows cfg w (known_ids cfg w tags) i (credits_of cfg w tags) t5).1 in
      Leaves-trans t0 t4 t6
        (populate_refs-Leaves w.unidecode (known_ids cfg w tags) (people cfg w tags).1 t3)
        (contributor_rows-Leaves (known_ids cfg w tags) i (credits_of cfg w tags) t5)
