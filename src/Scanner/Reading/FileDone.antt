-- ===== src/Scanner/Reading/FileDone.antt =====
-- scanner.go: what `populateTrackAndArtists` does when it succeeds.
use gonic.Base.{
  ℕ, ◌≡◌, refl, sym, ap, subst, ◌∙◌, inl, inr, true, false, ◌&&◌, not, List, none, some, Str, codes,
  str_eq, ℤ, pos, int_eq, find, keep, if◌then◌else◌, Bool-cases,
}
use gonic.Scanner.{among}
use gonic.Scanner.Tables.{ScannedAlbum, ScannedTrack, Tables, track_is_at, save}
use gonic.Scanner.Session.{Settings, FileTags, FileTimes, Properties, World, Session}
use gonic.Scanner.Populate.{
  populate_refs, populate_album_credits, populate_album_genres, populate_album_labels,
}
use gonic.Scanner.Rows.{populate_album, populate_album_embedded_cover, id_or_zero}
use gonic.Scanner.Files.{query_album, people, known_ids, create_time}
use gonic.Scanner.Tables.Laws.{IsTable, save-IsTable}
use gonic.Scanner.Reading.Leaves.{Leaves, leaves, populate_refs-Leaves}
use gonic.Scanner.Reading.Stored.{SameFolder, Holds, AlbumTable, TrackTable, save-Holds}

-- The rows of folders are still there, and the tracks are as they were.
abbrev pub FoldersStay : Tables → Tables → Type 0
FoldersStay t u =
    AlbumTable u
    × ((z : ScannedAlbum) → Holds z t.albums → Holds z u.albums)
    × (u.tracks ≡ t.tracks)
    × (u.next_track ≡ t.next_track)

pub Leaves-FoldersStay : (t u : Tables) → Leaves t u → AlbumTable t → FoldersStay t u
Leaves-FoldersStay t u (a, b, c, d) h = (
  subst (λ n. IsTable (λ r. r.id) n u.albums) (sym c)
      (subst (IsTable (λ r. r.id) t.next_album) (sym a) h),
  λ z. subst (Holds z) (sym a),
  b,
  d,
)

pub same-SameFolder : (x : ScannedAlbum) → SameFolder x x
same-SameFolder x = (refl, refl, refl, refl)

-- Saving the row of a folder, with tables that are the old ones in albums and tracks.
saved-FoldersStay :
    (t v u : Tables) (x y : ScannedAlbum)
    → AlbumTable t
    → Holds x t.albums
    → SameFolder y x
    → Leaves t v
    → (u.albums ≡ save (λ r. r.id) y v.albums)
      × (u.tracks ≡ v.tracks)
      × (u.next_album ≡ v.next_album)
      × (u.next_track ≡ v.next_track)
    → FoldersStay t u
saved-FoldersStay t v u x y h held same l (a, b, c, d) =
    let albums : u.albums ≡ save (λ r. r.id) y t.albums = a ∙ ap (save (λ r. r.id) y) l.0 in
    (
      subst (λ n. IsTable (λ r. r.id) n u.albums) (sym (c ∙ l.2))
          (subst (IsTable (λ r. r.id) t.next_album) (sym albums)
            (save-IsTable (λ r. r.id) t.next_album y t.albums h)),
      λ z hz. subst (Holds z) (sym albums) (save-Holds t.next_album t.albums x y z h held same hz),
      b ∙ l.1,
      d ∙ l.3,
    )

module _ (cfg : Settings) (w : World) where
  pub query_album-FoldersStay :
      (tags : FileTags) (times : FileTimes) (genres : List ℤ × List ℤ) (x : ScannedAlbum)
      (t : Tables)
      → AlbumTable t
      → Holds x t.albums
      → let (x', u) = query_album cfg w tags times genres x t in SameFolder x' x × FoldersStay t u
  unfolding query_album populate_album_credits populate_album populate_album_genres
      populate_album_labels
  query_album-FoldersStay tags times (direct, inherited) x t h held =
      let t1 = record t { album_credits = keep (λ c. not (int_eq c.owner x.id)) t.album_credits } in
      let (refs, t2) = populate_refs w.unidecode (known_ids cfg w tags) (people cfg w tags).0 t1 in
      let t3 = populate_album_credits x.id (codes "albumartist") refs t2 in
      let (x', t4) = populate_album w tags times.mod_time (create_time times) x t3 in
      let t5 = populate_album_genres x.id direct inherited t4 in
      let l = populate_refs-Leaves w.unidecode (known_ids cfg w tags) (people cfg w tags).0 t1 in
      (
        (refl, refl, refl, refl),
        saved-FoldersStay t t3 (populate_album_labels x.id (tags.values (codes "Label")) t5) x x' h
            held (refl, refl, refl, refl) l (refl, refl, refl, refl),
      )

  pub cover-FoldersStay :
      (props : Properties) (x x' : ScannedAlbum) (r : ScannedTrack) (t : Tables)
      → AlbumTable t
      → Holds x t.albums
      → SameFolder x' x
      → FoldersStay t (populate_album_embedded_cover cfg.scan_embedded_cover props x' r t)
  unfolding populate_album_embedded_cover
  cover-FoldersStay props x x' r t h held same =
      elim (Bool-cases (
        int_eq (id_or_zero x'.embedded_cover_track_id)
          (if cfg.scan_embedded_cover && props.has_cover then r.id else pos 0))) [
            | inl e ↦ rw e (Leaves-FoldersStay t t (leaves t) h)
            | inr e ↦
                let covers = cfg.scan_embedded_cover && props.has_cover in
                let y = record x' {
                  embedded_cover_track_id = if covers then some r.id else none;
                } in
                rw e (
                  saved-FoldersStay t t (record t { albums = save (λ a. a.id) y t.albums }) x y h
                    held same (leaves t) (refl, refl, refl, refl))
          ]

-- What a file leaves behind: the rows of the folders, the row of its track, which is seen, and the
-- rows of other files as they were.
pub record FileDone (x : ScannedAlbum) (now : ℕ) (name : Str) (s s' : Session) : Type 0 where
  pub album_table : AlbumTable s'.tables
  pub track_table : TrackTable s'.tables
  pub folders : (z : ScannedAlbum) → Holds z s.tables.albums → Holds z s'.tables.albums
  pub track :
      (r : ScannedTrack) × (find (track_is_at x.id name) s'.tables.tracks ≡ some r)
      × (r.updated_at ≡ now)
      × (among s'.state.seen_tracks r.id ≡ true)
  pub others :
      (m : Str)
      → str_eq name m ≡ false
      → find (track_is_at x.id m) s'.tables.tracks ≡ find (track_is_at x.id m) s.tables.tracks
  pub seen : (j : ℤ) → among s.state.seen_tracks j ≡ true → among s'.state.seen_tracks j ≡ true

pub FoldersStay-trans : (t u v : Tables) → FoldersStay t u → FoldersStay u v → FoldersStay t v
FoldersStay-trans t u v (a, b, c, d) (e, f, g, h) = (e, λ z k. f z (b z k), g ∙ c, h ∙ d)

pub TrackTable-stays : (t u : Tables) → FoldersStay t u → TrackTable t → TrackTable u
TrackTable-stays t u (a, b, c, d) h =
    subst (λ n. IsTable (λ r. r.id) n u.tracks) (sym d)
      (subst (IsTable (λ r. r.id) t.next_track) (sym c) h)

pub Written-FoldersStay :
    (t u : Tables)
    → u.albums ≡ t.albums
    → u.next_album ≡ t.next_album
    → AlbumTable t
    → AlbumTable u × ((z : ScannedAlbum) → Holds z t.albums → Holds z u.albums)
Written-FoldersStay t u a b h = (
  subst (λ n. IsTable (λ r. r.id) n u.albums) (sym b)
      (subst (IsTable (λ r. r.id) t.next_album) (sym a) h),
  λ z. subst (Holds z) (sym a),
)
