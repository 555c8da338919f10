-- ===== src/SpecidPaths/Located.antt =====
-- specidpaths.go: Lookup finds the track that Locate has named by its path.
use gonic.Base.{
  ◌≡◌, refl, sym, ap, ◌∙◌, inl, inr, Bool, true, false, ◌&&◌, List, [], ◌∷◌, ◌++◌, append_assoc,
  some, Str, str_eq, str_eq_refl, has_prefix, All, ℤ, int_eq, int_eq_iff, find, any, Bool-cases,
}
use gonic.FilePath.{
  slash, dot, separated, join, clean, up_to_slash, after_slash, split_on, resolve, All-front,
  All-back, IsName, absolute, trailing, join-trailing, join-dot_file, rel-trailing,
  up_to_slash-trailing, after_slash-trailing, clean-trailing,
}
use gonic.Fileutil.{within}
use gonic.Specid
use gonic.Specid.{SpecId}
use gonic.Db.{Album, AlbumPath, album_by_id}
use gonic.SpecidPaths.{
  TrackRow, Tables, join_all, track_path, locate, id_for, in_album, track_id, album_location,
  lookup_track, lookup,
}

-- Where an album lies in a music folder: in the folder itself, or in a folder below it.
pub data Folder : Type 0 where
  root : Folder
  inside : List Str → Str → Folder

abbrev pub parts_of : Folder → List Str
parts_of root = []
parts_of (inside ds r) = ds ++ r ∷ []

-- The columns of such an album.
abbrev pub location_in : Str → Folder → AlbumPath
location_in m root = record { root_dir = m; left_path = []; right_path = dot }
location_in m (inside ds r) = record { root_dir = m; left_path = trailing ds; right_path = r }

join_all-four :
    (b : Str) (bs : List Str) (l r f : Str)
    → join_all (absolute b bs ∷ l ∷ r ∷ f ∷ [])
      ≡ join (absolute b bs) (l ++ slash ∷ (r ++ slash ∷ f))
unfolding join_all join separated
join_all-four b bs [] r f = refl
join_all-four b bs (c ∷ l) r f = refl

-- The path of a file in such a folder.
abbrev pub file_path : Str → List Str → Folder → Str → Str
file_path b bs folder f = absolute b (bs ++ (parts_of folder ++ f ∷ []))

module _ (b : Str) (bs : List Str) (base_names : All IsName (b ∷ bs)) (f : Str) where
  joined :
      (folder : Folder) (names : All IsName (parts_of folder ++ f ∷ []))
      → let l = location_in (absolute b bs) folder in
        join_all (l.root_dir ∷ l.left_path ∷ l.right_path ∷ f ∷ []) ≡ file_path b bs folder f
  joined root (n, h) = join_all-four b bs [] dot f ∙ join-dot_file b bs f base_names n
  joined (inside ds r) h =
      let e = append_assoc ds (r ∷ []) (f ∷ []) in
      join_all-four b bs (trailing ds) r f
      ∙ join-trailing b bs ds r f base_names (rw e at h)
      ∙ ap (λ l. absolute b (bs ++ l)) (sym e)

  location-trailing :
      (folder : Folder)
      → All IsName (parts_of folder ++ f ∷ [])
      → album_location (absolute b bs) (trailing (parts_of folder) ++ f)
        ≡ location_in (absolute b bs) folder
  unfolding album_location
  location-trailing root (n, h) =
      rw (up_to_slash-trailing [] f n.one_part)
        (unfold trailing clean split_on resolve str_eq up_to_slash after_slash in refl)
  location-trailing (inside ds r) h =
      let front = All-front (ds ++ r ∷ []) (f ∷ []) h in
      let last = (All-back (ds ++ r ∷ []) (f ∷ []) h).0 in
      let r_name = (All-back ds (r ∷ []) front).0 in
      rw
        (
          up_to_slash-trailing (ds ++ r ∷ []) f last.one_part,
          clean-trailing ds r front,
          up_to_slash-trailing ds r r_name.one_part,
          after_slash-trailing ds r r_name.one_part,
        )
        refl

  lookup_track-file :
      (db : Tables) (folder : Folder)
      → All IsName (parts_of folder ++ f ∷ [])
      → lookup_track db (file_path b bs folder f) (absolute b bs)
        ≡ id_for Specid.track
            (track_id (find (in_album db.albums (location_in (absolute b bs) folder) f) db.tracks))
  unfolding lookup_track
  lookup_track-file db folder h =
      let last = (All-back (parts_of folder) (f ∷ []) h).0 in
      rw
        (
          rel-trailing b bs (parts_of folder) f base_names h,
          after_slash-trailing (parts_of folder) f last.one_part,
          location-trailing folder h,
        )
        refl

  lookup-file :
      (db : Tables) (music_paths : List Str) (podcasts_path : Str) (folder : Folder)
      → All IsName (parts_of folder ++ f ∷ [])
      → has_prefix (file_path b bs folder f) podcasts_path ≡ false
      → find (λ m. within (file_path b bs folder f) m) music_paths ≡ some (absolute b bs)
      → lookup db music_paths podcasts_path (file_path b bs folder f)
        ≡ lookup_track db (file_path b bs folder f) (absolute b bs)
  unfolding lookup
  lookup-file db music_paths podcasts_path folder h no_podcast first =
      rw (no_podcast, first) (unfold has_prefix separated in refl)

-- The row that a query by an id finds.
found-id :
    (i : ℤ) (ts : List TrackRow) (t : TrackRow) → find (λ u. int_eq u.id i) ts ≡ some t → t.id ≡ i
found-id i [] t h = cc h
found-id i (u ∷ ts) t h = elim (Bool-cases (int_eq u.id i)) [
  | inl e ↦
      let k : some u ≡ some t = rw e at h in
      let q : u ≡ t = cc k in sym (ap (λ r. r.id) q) ∙ (int_eq_iff u.id i).0 e
  | inr e ↦ found-id i ts t (rw e at h)
]

-- An album that is there joins with the tracks that refer to it.
any-album :
    (i : ℤ) (location : AlbumPath) (albums : List Album) (a : Album)
    → album_by_id i albums ≡ some a
    → a.location ≡ location
    → any
        (λ c.
          int_eq c.id i
          && str_eq c.location.root_dir location.root_dir
          && str_eq c.location.left_path location.left_path
          && str_eq c.location.right_path location.right_path)
        albums
      ≡ true
any-album i location [] a h l = cc h
any-album i location (c ∷ albums) a h l = elim (Bool-cases (int_eq c.id i)) [
  | inl e ↦
      let k : some c ≡ some a = rw e at h in
      let q : c ≡ a = cc k in
      let m : c.location ≡ location = ap (λ r. r.location) q ∙ l in
      rw
        (
          e,
          m,
          str_eq_refl location.root_dir,
          str_eq_refl location.left_path,
          str_eq_refl location.right_path,
        )
        refl
  | inr e ↦ rw e (any-album i location albums a (rw e at h) l)
]

-- A track that alone has its place is found by it.
find-alone :
    (p : TrackRow → Bool) (i : ℤ) (ts : List TrackRow) (t : TrackRow)
    → find (λ u. int_eq u.id i) ts ≡ some t
    → p t ≡ true
    → All (λ u. p u ≡ true → u.id ≡ i) ts
    → track_id (find p ts) ≡ some i
find-alone p i [] t h q alone = cc h
find-alone p i (u ∷ ts) t h q (a, alone) = elim (Bool-cases (p u)) [
  | inl e ↦ rw e (ap (λ j. some j) (a e))
  | inr e ↦ elim (Bool-cases (int_eq u.id i)) [
    | inl same ↦
        let k : some u ≡ some t = rw same at h in
        let r : u ≡ t = cc k in let bad : false ≡ true = sym e ∙ ap p r ∙ q in cc bad
    | inr other ↦ rw e (find-alone p i ts t (rw other at h) q alone)
  ]
]

abbrev pub track_sid : ℤ → SpecId
track_sid i = record { typ = Specid.track; value = i; string_value = [] }

module _ (db : Tables) (music_paths : List Str) (podcasts_path : Str) (b : Str) (bs : List Str)
    (base_names : All IsName (b ∷ bs)) (folder : Folder) (i : ℤ) (t : TrackRow) (a : Album) where
  locate-track :
      find (λ u. int_eq u.id i) db.tracks ≡ some t
      → album_by_id t.album_id db.albums ≡ some a
      → a.location ≡ location_in (absolute b bs) folder
      → All IsName (parts_of folder ++ t.filename ∷ [])
      → locate db (track_sid i) ≡ some (file_path b bs folder t.filename)
  unfolding locate track_path
  locate-track found album at names =
      rw (found, album, at)
        (unfold str_eq in ap (λ s. some s) (joined b bs base_names t.filename folder names))

  -- The path at which Locate finds a track is looked up as the id of the track: if its album lies in
  -- a music folder, that is the first of the music paths that the file is within, the path does not
  -- begin with the text of the podcasts path, and no other track has its folder and name.
  pub lookup-locate :
      find (λ u. int_eq u.id i) db.tracks ≡ some t
      → album_by_id t.album_id db.albums ≡ some a
      → a.location ≡ location_in (absolute b bs) folder
      → All IsName (parts_of folder ++ t.filename ∷ [])
      → find (λ m. within (file_path b bs folder t.filename) m) music_paths ≡ some (absolute b bs)
      → has_prefix (file_path b bs folder t.filename) podcasts_path ≡ false
      → All
          (λ u.
            in_album db.albums (location_in (absolute b bs) folder) t.filename u ≡ true → u.id ≡ i)
          db.tracks
      → (path : Str) × (locate db (track_sid i) ≡ some path)
        × (lookup db music_paths podcasts_path path ≡ some (track_sid i))
  lookup-locate found album at names first no_podcast alone =
      let p = in_album db.albums (location_in (absolute b bs) folder) t.filename in
      let itself : p t ≡ true =
        rw
          (
            any-album t.album_id (location_in (absolute b bs) folder) db.albums a album at,
            str_eq_refl t.filename,
          )
          refl in
      (
        file_path b bs folder t.filename,
        locate-track found album at names,
        lookup-file b bs base_names t.filename db music_paths podcasts_path folder names no_podcast
              first
            ∙ lookup_track-file b bs base_names t.filename db folder names
            ∙ ap (id_for Specid.track) (find-alone p i db.tracks t found itself alone),
      )
