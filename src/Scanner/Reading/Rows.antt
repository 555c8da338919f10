-- ===== src/Scanner/Reading/Rows.antt =====
-- scanner.go: the rows of a folder and of its parent, found or created.
use gonic.Base.{
  ℕ, suc, ◌≡◌, refl, sym, ap, ◌∙◌, inl, inr, true, ◌&&◌, List, [], ◌∷◌, ◌++◌, Option, none, some,
  Str, str_eq, str_eq_iff, str_eq_refl, ℤ, pos, int_eq, int_eq_iff, find, arith, if◌then◌else◌,
  Bool-cases, Option-cases,
}
use gonic.Db.{AlbumPath, same_path}
use gonic.Scanner.Tables.{ScannedAlbum, Tables, album_is_at, save}
use gonic.Scanner.Tables.Laws.{
  find-append_some, find-append_none, find-fits, find-save, find-save_same, agree, saved,
  save-IsTable, append-IsTable,
}
use gonic.Scanner.Rows.{empty_album, find_parent, with_basics, basics_of, populate_album_basics}
use gonic.Scanner.Reading.Stored.{Holds, AlbumTable}

pub same_path→eq : (p q : AlbumPath) → same_path p q ≡ true → p ≡ q
unfolding same_path
same_path→eq p q h =
    let a : p.root_dir ≡ q.root_dir = (str_eq_iff p.root_dir q.root_dir).0 (ground (arith, h)) in
    let b : p.left_path ≡ q.left_path =
      (str_eq_iff p.left_path q.left_path).0 (ground (arith, h)) in
    let c : p.right_path ≡ q.right_path =
      (str_eq_iff p.right_path q.right_path).0 (ground (arith, h)) in
    λ i. record { root_dir = a i; left_path = b i; right_path = c i }

pub same_path_refl : (p : AlbumPath) → same_path p p ≡ true
unfolding same_path
same_path_refl p =
    rw (str_eq_refl p.root_dir, str_eq_refl p.left_path, str_eq_refl p.right_path) refl

pub found-location :
    (p : AlbumPath) (albums : List ScannedAlbum) (a : ScannedAlbum)
    → find (album_is_at p) albums ≡ some a
    → a.location ≡ p
found-location p albums a f = same_path→eq a.location p (find-fits (album_is_at p) albums a f)

-- The folder at a path has a row with an id.
abbrev pub HoldsId : AlbumPath → ℤ → List ScannedAlbum → Type 0
HoldsId p i albums = (a : ScannedAlbum) × (find (album_is_at p) albums ≡ some a) × (a.id ≡ i)

-- What a query for the row of a folder leaves.
abbrev pub Located : AlbumPath → ScannedAlbum → Tables → Tables → Type 0
Located p x t u =
    AlbumTable u
    × Holds x u.albums
    × (x.location ≡ p)
    × ((q : AlbumPath) (i : ℤ) → HoldsId q i t.albums → HoldsId q i u.albums)
    × (u.tracks ≡ t.tracks)
    × (u.next_track ≡ t.next_track)

found-Located :
    (p : AlbumPath) (a : ScannedAlbum) (t : Tables)
    → AlbumTable t
    → find (album_is_at p) t.albums ≡ some a
    → Located p a t t
found-Located p a t h f = (
  h,
  (
    a,
    ap (λ q. find (album_is_at q) t.albums) (found-location p t.albums a f) ∙ f,
    (refl, refl, refl, refl),
  ),
  found-location p t.albums a f,
  λ q i k. k,
  refl,
  refl,
)

added-Located :
    (p : AlbumPath) (a : ScannedAlbum) (t : Tables)
    → AlbumTable t
    → find (album_is_at p) t.albums ≡ none
    → a.id ≡ pos t.next_album
    → a.location ≡ p
    → Located p a t (record t { albums = t.albums ++ a ∷ []; next_album = suc t.next_album })
added-Located p a t h f i l = (
  append-IsTable (λ r. r.id) t.next_album a t.albums i h,
  (
    a,
    find-append_none (album_is_at a.location) t.albums (a ∷ [])
          (ap (λ q. find (album_is_at q) t.albums) l ∙ f)
        ∙ rw (same_path_refl a.location) refl,
    (refl, refl, refl, refl),
  ),
  l,
  λ q j (b, g, e). (b, find-append_some (album_is_at q) t.albums (a ∷ []) b g, e),
  refl,
  refl,
)

saved-Located :
    (p : AlbumPath) (a y : ScannedAlbum) (t : Tables)
    → AlbumTable t
    → find (album_is_at p) t.albums ≡ some a
    → y.id ≡ a.id
    → y.location ≡ a.location
    → Located p y t (record t { albums = save (λ r. r.id) y t.albums })
saved-Located p a y t h f i l = (
  save-IsTable (λ r. r.id) t.next_album y t.albums h,
  (
    y,
    find-save_same (λ r. r.id) (album_is_at y.location) y a t.next_album t.albums h
        (ap (λ q. find (album_is_at q) t.albums) (l ∙ found-location p t.albums a f) ∙ f) i
        (same_path_refl y.location),
    (refl, refl, refl, refl),
  ),
  l ∙ found-location p t.albums a f,
  λ q j (b, g, e). (
    if int_eq b.id y.id then y else b,
    find-save (λ r. r.id) (album_is_at q) y t.albums
          (agree (λ r. r.id) (album_is_at q) (album_is_at p) y a t.next_album t.albums h f i
            (ap (λ m. same_path m q) (sym l)))
        ∙ ap (saved (λ r. r.id) y) g
        ∙ unfold saved in refl,
    saved-id b ∙ e,
  ),
  refl,
  refl,
)
  where
    saved-id : (b : ScannedAlbum) → (if int_eq b.id y.id then y else b).id ≡ b.id
    saved-id b = elim (Bool-cases (int_eq b.id y.id)) [
      | inl k ↦ rw k (sym ((int_eq_iff b.id y.id).0 k))
      | inr k ↦ rw k refl
    ]

pub find_parent-Located :
    (now : ℕ) (p : AlbumPath) (t : Tables)
    → AlbumTable t
    → let (x, u) = find_parent now p t in Located p x t u
unfolding find_parent
find_parent-Located now p t h = elim (Option-cases (find (album_is_at p) t.albums)) [
  | inl f ↦ rw f (added-Located p (empty_album t.next_album now p) t h f refl refl)
  | inr (a, f) ↦ rw f (found-Located p a t h f)
]

module _ (unidecode : Str → Str) (now : ℕ) (p : AlbumPath) (parent : ℤ) (cover : Str) where
  basics-Located :
      (o : Option ScannedAlbum) (t : Tables)
      → AlbumTable t
      → find (album_is_at p) t.albums ≡ o
      → let (x, u) = basics_of unidecode now p parent cover o t in
        Located p x t u × (x.cover ≡ cover) × (x.parent_id ≡ parent)
  unfolding with_basics
  basics-Located none t h f = (
    added-Located p (with_basics unidecode parent cover (empty_album t.next_album now p)) t h f refl
        refl,
    refl,
    refl,
  )
  basics-Located (some a) t h f =
      elim (Bool-cases (str_eq a.cover cover && int_eq a.parent_id parent)) [
        | inl e ↦ rw e (
          found-Located p a t h f,
          (str_eq_iff a.cover cover).0 (ground (arith, e)),
          (int_eq_iff a.parent_id parent).0 (ground (arith, e)),
        )
        | inr e ↦
            rw e
              (saved-Located p a (with_basics unidecode parent cover a) t h f refl refl, refl, refl)
      ]

  pub populate_album_basics-Located :
      (t : Tables)
      → AlbumTable t
      → let (x, u) = populate_album_basics unidecode now p parent cover t in
        Located p x t u × (x.cover ≡ cover) × (x.parent_id ≡ parent)
  unfolding populate_album_basics
  populate_album_basics-Located t h = basics-Located (find (album_is_at p) t.albums) t h refl
