-- ===== src/Playlist/Effects.antt =====
-- playlist.go: what a successful Read, Write or Delete went by, and the files that it leaves alone.
use gonic.Base.{
  ℕ, ◌≡◌, refl, sym, ap, ◌∙◌, inl, inr, Bool, false, not, List, [], ◌∷◌, ◌++◌, any, Result, ok, err,
  bind-ok, ok-inj, Str, str_eq, str_eq_iff, str_key, lookup, lookup-insert, keep, ℤ, arith,
  trim_space, Bool-cases,
}
use gonic.FilePath.{rel, dir, elements}
use gonic.Fileutil
use gonic.Fileutil.{safe_join}
use gonic.Playlist.{
  Playlist, File, Disk, Error, escaping, safe_path, stat, is_file, folders_above, mkdir_failed,
  set_attr, add_item, decode_attr, read_line, read_lines, unread, read, write, delete, sanity_check,
  mkdir_all, open_file, or_empty,
}

set_attr-user_id :
    (a : Str × Str) (playlist : Playlist) → (set_attr a playlist).user_id ≡ playlist.user_id
unfolding set_attr
set_attr-user_id (name, value) playlist = ground arith

add_item-user_id :
    (folder line : Str) (playlist : Playlist)
    → (add_item folder line playlist).user_id ≡ playlist.user_id
unfolding add_item
add_item-user_id folder line playlist = ground arith

read_line-user_id :
    (folder : Str) (playlist : Playlist) (l : Str)
    → (read_line folder playlist l).user_id ≡ playlist.user_id
unfolding read_line
read_line-user_id folder playlist l = elim (Bool-cases (str_eq (trim_space l) [])) [
  | inl e ↦ rw e refl
  | inr e ↦ rw e (
      add_item-user_id folder (trim_space l) (set_attr (decode_attr (trim_space l)) playlist)
      ∙ set_attr-user_id (decode_attr (trim_space l)) playlist)
]

read_lines-user_id :
    (folder : Str) (playlist : Playlist) (ls : List Str)
    → (read_lines folder playlist ls).user_id ≡ playlist.user_id
unfolding read_lines
read_lines-user_id folder playlist [] = refl
read_lines-user_id folder playlist (l ∷ ls) =
    read_lines-user_id folder (read_line folder playlist l) ls ∙ read_line-user_id folder playlist l

-- The user whom a path belongs to.
unfoldable pub owner_at : Str → Str → ℤ
owner_at base path = (unread (or_empty (rel base path)) 0).user_id

escaping-ok : (r : Result Fileutil.Error Str) (path : Str) → escaping r ≡ ok path → r ≡ ok path
escaping-ok (ok p) path h = let e : p ≡ path = cc h in ap (λ q. ok q) e
escaping-ok (err e) path h = cc h

mkdir_all-files :
    (path : Str) (disk made : Disk) → mkdir_all path disk ≡ ok made → made.files ≡ disk.files
mkdir_all-files path disk made h =
    elim (Bool-cases (any (is_file disk) (folders_above (elements path)))) [
      | inl e ↦ (let k : err mkdir_failed ≡ ok made = rw e at h in cc k)
      | inr e ↦
          (let k : ok (record disk { folders = folders_above (elements path) ++ disk.folders })
                ≡ ok made =
              rw e at h in
            ap (λ d. d.files) (sym (ok-inj {E = Error} _ made k)))
    ]

lookup-keep :
    (path q : Str) (files : List (Str × File))
    → str_eq path q ≡ false
    → lookup q (keep (λ f. not (str_eq f.0 path)) files) ≡ lookup q files
unfolding lookup
lookup-keep path q [] h = refl
lookup-keep path q ((p, f) ∷ files) h = elim (Bool-cases (str_eq p path)) [
  | inl e ↦ rw (e, (str_eq_iff p path).0 e, h) (lookup-keep path q files h)
  | inr e ↦ rw (e, lookup-keep path q files h) refl
]

module _ (base : Str) (rel_path : Str) where
  -- A playlist that is read belongs to the owner of its path.
  pub read-owner :
      (disk : Disk) (playlist : Playlist)
      → read base rel_path disk ≡ ok playlist
      → (abs : Str) × (safe_join base rel_path ≡ ok abs) × (playlist.user_id ≡ owner_at base abs)
  unfolding read owner_at unread
  read-owner disk playlist h =
      let (sane, e, k) = bind-ok (sanity_check base disk) _ playlist h in
      let (abs, f, l) = bind-ok (safe_path base rel_path) _ playlist k in
      let (file, g, m) = bind-ok (stat abs disk) _ playlist l in
      (
        abs,
        escaping-ok (safe_join base rel_path) abs f,
        ap (λ p. p.user_id) (sym (ok-inj {E = Error} _ playlist m))
            ∙ read_lines-user_id (dir abs) _ _,
      )

  -- Write goes to the safe path.
  pub write-place :
      (printable : ℕ → Bool) (now : ℕ) (playlist : Playlist) (disk after : Disk)
      → write printable base now rel_path playlist disk ≡ ok after
      → (abs : Str) × (safe_join base rel_path ≡ ok abs)
  unfolding write
  write-place printable now playlist disk after h =
      let (sane, e, k) = bind-ok (sanity_check base disk) _ after h in
      let (abs, f, l) = bind-ok (safe_path base rel_path) _ after k in
      (abs, escaping-ok (safe_join base rel_path) abs f)

  -- Write changes no file but that at its path.
  pub write-elsewhere :
      (printable : ℕ → Bool) (now : ℕ) (playlist : Playlist) (disk after : Disk) (abs q : Str)
      → safe_join base rel_path ≡ ok abs
      → str_eq abs q ≡ false
      → write printable base now rel_path playlist disk ≡ ok after
      → lookup q after.files ≡ lookup q disk.files
  unfolding write
  write-elsewhere printable now playlist disk after abs q place other h =
      let (sane, e, k) = bind-ok (sanity_check base disk) _ after h in
      let (abs2, f, l) = bind-ok (safe_path base rel_path) _ after k in
      let (made, g, m) = bind-ok (mkdir_all (dir abs2) disk) _ after l in
      let (old, j, n) = bind-ok (open_file abs2 made) _ after m in
      let same =
        ok-inj {E = Fileutil.Error} abs2 abs
          (sym (escaping-ok (safe_join base rel_path) abs2 f) ∙ place) in
      sym (ap (λ d. lookup q d.files) (ok-inj {E = Error} _ after n))
      ∙ lookup-insert abs2 q _ made.files
      ∙ rw (same, other) (ap (lookup q) (mkdir_all-files (dir abs2) disk made g))

  -- Delete changes no file but that at its path.
  pub delete-elsewhere :
      (disk after : Disk) (abs q : Str)
      → safe_join base rel_path ≡ ok abs
      → str_eq abs q ≡ false
      → delete base rel_path disk ≡ ok after
      → lookup q after.files ≡ lookup q disk.files
  unfolding delete
  delete-elsewhere disk after abs q place other h =
      let (sane, e, k) = bind-ok (sanity_check base disk) _ after h in
      let (abs2, f, l) = bind-ok (safe_path base rel_path) _ after k in
      let (file, g, m) = bind-ok (stat abs2 disk) _ after l in
      let same =
        ok-inj {E = Fileutil.Error} abs2 abs
          (sym (escaping-ok (safe_join base rel_path) abs2 f) ∙ place) in
      sym (ap (λ d. lookup q d.files) (ok-inj {E = Error} _ after m))
      ∙ lookup-keep abs2 q disk.files (rw same other)
