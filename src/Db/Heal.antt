-- ===== src/Db/Heal.antt =====
-- heal.go: healing gives each row the album that is at its path.
use gonic.Base.{
  ◌≡◌, refl, sym, ap, subst, inl, inr, true, false, ◌&&◌, List, [], ◌∷◌, Option, none, some, arith,
  str_eq_iff, ℤ, int_eq, int_eq_iff, find, All, Option-cases, Bool-cases,
}
use gonic.Db.{
  AlbumPath, Album, CollectionAlbum, same_path, album_at, id_of, orphaned, relinked, heal,
}

same_path→eq : (p q : AlbumPath) → same_path p q ≡ true → p ≡ q
unfolding same_path
same_path→eq p q h = ground (
  arith,
  str_eq_iff p.root_dir q.root_dir,
  str_eq_iff p.left_path q.left_path,
  str_eq_iff p.right_path q.right_path,
)

-- No two albums are at one path: the unique index `idx_album_abs_path`.
abbrev pub PathsUnique : List Album → Type 0
PathsUnique [] = Unit
PathsUnique (a ∷ albums) =
    All (λ b. same_path b.location a.location ≡ false) albums × PathsUnique albums

find-none :
    (p : AlbumPath) (i : ℤ) (albums : List Album)
    → All (λ b. same_path b.location p ≡ false) albums
    → find (λ b. same_path b.location p && int_eq b.id i) albums ≡ none
find-none p i [] h = refl
find-none p i (a ∷ albums) (n, h) = rw n (find-none p i albums h)

found-album_at :
    (p : AlbumPath) (i : ℤ) (a : Album) (albums : List Album)
    → PathsUnique albums
    → find (λ b. same_path b.location p && int_eq b.id i) albums ≡ some a
    → id_of (album_at p albums) ≡ some i
found-album_at p i a [] u h = cc
found-album_at p i a (b ∷ albums) (n, u) h = elim (Bool-cases (same_path b.location p)) [
  | inr e ↦ rw e (found-album_at p i a albums u (rw e at h))
  | inl e ↦
      let q : b.location ≡ p = same_path→eq b.location p e in
      rw e (elim (Bool-cases (int_eq b.id i)) [
        | inl k ↦ ap some ((int_eq_iff b.id i).0 k)
        | inr k ↦
            let later : find (λ c. same_path c.location p && int_eq c.id i) albums ≡ some a =
              rw (e, k) at h in
            absurd (
              let none_left =
                find-none p i albums
                  (subst (λ r. All (λ c. same_path c.location r ≡ false) albums) q n) in
              cc none_left)
      ])
]

relinked-orphaned :
    (albums : List Album) (p : AlbumPath) (o : Option ℤ)
    → PathsUnique albums
    → relinked albums p (orphaned albums p o) ≡ id_of (album_at p albums)
unfolding relinked orphaned
relinked-orphaned albums p none u = refl
relinked-orphaned albums p (some i) u =
    elim (Option-cases (find (λ a. same_path a.location p && int_eq a.id i) albums)) [
      | inl e ↦ rw (e, relinked)
      | inr (a, e) ↦ rw (e, relinked) (sym (found-album_at p i a albums u e))
    ]

-- A healed row refers to the album at the path that the row keeps, and to none if there is none,
-- whatever it referred to before, if no two albums are at one path.
pub heal-album_at :
    (albums : List Album) (e : CollectionAlbum)
    → PathsUnique albums
    → (heal albums e).album_id ≡ id_of (album_at e.location albums)
unfolding heal
heal-album_at albums e u = relinked-orphaned albums e.location e.album_id u
