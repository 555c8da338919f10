-- ===== src/Scanner/Reading/Stored.antt =====
-- scanner.go: the rows of a folder and of its tracks stay what they are while a file of the folder is
-- written.
use gonic.Base.{
  ℕ, ◌≡◌, refl, sym, ap, ◌∙◌, inl, inr, true, false, List, [], ◌∷◌, Option, none, some, Str, str_eq,
  str_eq_iff, str_eq_refl, ℤ, pos, int_eq, int_eq_refl, find, arith, if◌then◌else◌, Bool-cases,
}
use gonic.Db.{same_path}
use gonic.Scanner.Tables.{
  ScannedAlbum, ScannedTrack, TrackTags, Tables, album_is_at, track_is_at, save,
}
use gonic.Scanner.Tables.Laws.{
  find-append_none, find-append_other, find-fits, IsTable, saved, find-save, find-save_same,
  find-save_other, agree, found_same, save-IsTable, append-IsTable,
}
use gonic.Scanner.Rows.{created_of, track_row, populate_track}

-- A row of the same folder, whatever its tags.
abbrev pub SameFolder : ScannedAlbum → ScannedAlbum → Type 0
SameFolder a x =
    (a.id ≡ x.id) × (a.location ≡ x.location) × (a.cover ≡ x.cover) × (a.parent_id ≡ x.parent_id)

-- The row of the folder of `x`.
abbrev pub Holds : ScannedAlbum → List ScannedAlbum → Type 0
Holds x albums =
    (a : ScannedAlbum) × (find (album_is_at x.location) albums ≡ some a) × SameFolder a x

abbrev pub AlbumTable : Tables → Type 0
AlbumTable t = IsTable (λ a. a.id) t.next_album t.albums

abbrev pub TrackTable : Tables → Type 0
TrackTable t = IsTable (λ r. r.id) t.next_track t.tracks

saved-SameFolder :
    (x y z a c : ScannedAlbum)
    → SameFolder a x
    → SameFolder y x
    → SameFolder c z
    → (int_eq c.id y.id ≡ true → c ≡ a)
    → SameFolder (if int_eq c.id y.id then y else c) z
saved-SameFolder x y z a c (a1, a2, a3, a4) (y1, y2, y3, y4) (c1, c2, c3, c4) same =
    elim (Bool-cases (int_eq c.id y.id)) [
      | inl e ↦
          let k : c ≡ a = same e in
          rw e (
            y1 ∙ sym a1 ∙ sym (ap (λ r. r.id) k) ∙ c1,
            y2 ∙ sym a2 ∙ sym (ap (λ r. r.location) k) ∙ c2,
            y3 ∙ sym a3 ∙ sym (ap (λ r. r.cover) k) ∙ c3,
            y4 ∙ sym a4 ∙ sym (ap (λ r. r.parent_id) k) ∙ c4,
          )
      | inr e ↦ rw e (c1, c2, c3, c4)
    ]

-- Saving a row of one folder leaves every folder the row that it has, but for the tags.
pub save-Holds :
    (n : ℕ) (albums : List ScannedAlbum) (x y z : ScannedAlbum)
    → IsTable (λ a. a.id) n albums
    → Holds x albums
    → SameFolder y x
    → Holds z albums
    → Holds z (save (λ a. a.id) y albums)
save-Holds n albums x y z t (a, f, s) sy (c, g, sz) = (
  if int_eq c.id y.id then y else c,
  find-save (λ r. r.id) (album_is_at z.location) y albums
        (agree (λ r. r.id) (album_is_at z.location) (album_is_at x.location) y a n albums t f
          (sy.0 ∙ sym s.0) (ap (λ p. same_path p z.location) (s.1 ∙ sym sy.1)))
      ∙ ap (saved (λ r. r.id) y) g
      ∙ unfold saved in refl,
  saved-SameFolder x y z a c s sy sz (λ e.
      found_same (λ r. r.id) (album_is_at z.location) (album_is_at x.location) c a n albums t g f
        (ap (int_eq c.id) (s.0 ∙ sym sy.0) ∙ e)),
)

-- What `populateTrack` leaves of the tracks: the new row for its file, and the others as they were.
abbrev pub Written : ℕ → ℤ → Str → ScannedTrack → Tables → Tables → Type 0
Written now i name r t u =
    (find (track_is_at i name) u.tracks ≡ some r)
    × (r.updated_at ≡ now)
    × TrackTable u
    × ((m : Str)
        → str_eq name m ≡ false
        → find (track_is_at i m) u.tracks ≡ find (track_is_at i m) t.tracks)
    × (u.albums ≡ t.albums)
    × (u.next_album ≡ t.next_album)

module _ (unidecode : Str → Str) (now create_time : ℕ) (i : ℤ) (name : Str)
    (columns : TrackTags) where
  abbrev row : ℕ → ℤ → ScannedTrack
  row created id = track_row unidecode now created id i name columns

  row-fits : (created : ℕ) (id : ℤ) → track_is_at i name (row created id) ≡ true
  unfolding track_row
  row-fits created id = rw (int_eq_refl i, str_eq_refl name) refl

  row-strange :
      (created : ℕ) (id : ℤ) (m : Str)
      → str_eq name m ≡ false
      → track_is_at i m (row created id) ≡ false
  unfolding track_row
  row-strange created id m h = rw (h, int_eq_refl i) refl

  found-strange :
      (a : ScannedTrack) (m : Str)
      → track_is_at i name a ≡ true
      → str_eq name m ≡ false
      → track_is_at i m a ≡ false
  found-strange a m f h =
      let same : a.filename ≡ name = (str_eq_iff a.filename name).0 (ground (arith, f)) in
      let k : str_eq a.filename m ≡ false = ap (λ s. str_eq s m) same ∙ h in ground (arith, k)

  pub populate_track-Written :
      (o : Option ScannedTrack) (t : Tables)
      → TrackTable t
      → find (track_is_at i name) t.tracks ≡ o
      → let (r, u) = populate_track unidecode now create_time i o name columns t in
        Written now i name r t u
  unfolding populate_track
  populate_track-Written (some old) t h f =
      let fits = find-fits (track_is_at i name) t.tracks old f in
      let r = row (created_of create_time (some old)) old.id in
      (
        find-save_same (λ x. x.id) (track_is_at i name) r old t.next_track t.tracks h f row-id
            (row-fits (created_of create_time (some old)) old.id),
        unfold track_row in refl,
        save-IsTable (λ x. x.id) t.next_track r t.tracks h,
        λ m k.
            find-save_other (λ x. x.id) (track_is_at i m) (track_is_at i name) r old t.next_track
              t.tracks h f row-id (found-strange old m fits k)
              (row-strange (created_of create_time (some old)) old.id m k),
        refl,
        refl,
      )
    where
      row-id : (row (created_of create_time (some old)) old.id).id ≡ old.id
      row-id = unfold track_row in refl
  populate_track-Written none t h f =
      let r = row (created_of create_time none) (pos t.next_track) in
      (
        find-append_none (track_is_at i name) t.tracks (r ∷ []) f
            ∙ rw (row-fits (created_of create_time none) (pos t.next_track)) refl,
        unfold track_row in refl,
        append-IsTable (λ x. x.id) t.next_track r t.tracks (unfold track_row in refl) h,
        λ m k.
            find-append_other (track_is_at i m) t.tracks r
              (row-strange (created_of create_time none) (pos t.next_track) m k),
        refl,
        refl,
      )
