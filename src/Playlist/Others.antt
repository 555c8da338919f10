-- ===== src/Playlist/Others.antt =====
-- handlers_playlist.go: no request changes a playlist of another user.
use gonic.Base.{
  ℕ, ◌≡◌, ◌≢◌, refl, sym, ap, ◌∙◌, ◌⊎◌, inl, inr, Bool, true, false, List, [], ◌∷◌, ◌++◌, Option,
  some, Result, ok, err, bind-ok, ok-inj, Str, codes, str_eq, str_eq-false, str_key, lookup, All,
  pos, itoa, atoi-itoa, in_int, int_eq, int_eq_iff, arith, Bool-cases,
}
use gonic.FilePath.{IsName, absolute}
use gonic.Fileutil
use gonic.Fileutil.{safe_join}
use gonic.Specid.{SpecId}
use gonic.Params.{Params}
use gonic.Params.Ids
use gonic.Db.{User}
use gonic.Playlist
use gonic.Playlist.{
  Playlist, Disk, unread, read, write, delete, new_path, sanity_check, user_id_from_path,
}
use gonic.Playlist.Effects.{owner_at, write-place, write-elsewhere}
use gonic.Playlist.Stored.{owner_at-file_of}
use gonic.Playlist.NewPath.{new_path-names, safe_join-names, itoa-IsName}
use gonic.Playlist.Owners.{
  or_code-ok, or_panic-ok, elsewhere, not_foreign-ok, serve_update-elsewhere,
  serve_delete-elsewhere,
}
use gonic.Playlist.Handlers.{
  Stop, or_code, or_panic, no_collection, foreign, added_ids, id_keys, existing, or_no_playlist,
  not_foreign, path_for, Request, creating, updating, deleting, serve, only_disk, serve_create,
}

or_no_playlist-cases :
    (r : Result Playlist.Error Playlist)
    → ((or_no_playlist r).user_id ≡ pos 0) ⊎ (r ≡ ok (or_no_playlist r))
or_no_playlist-cases (ok playlist) = inr refl
or_no_playlist-cases (err e) = inl refl

-- Either there is no playlist, or it is the one that is read.
existing-cases :
    (base path : Str) (disk : Disk)
    → ((existing base path disk).user_id ≡ pos 0)
      ⊎ (read base path disk ≡ ok (existing base path disk))
existing-cases base path disk = elim (Bool-cases (str_eq path [])) [
  | inl e ↦ inl (rw e refl)
  | inr e ↦ rw e (or_no_playlist-cases (read base path disk))
]

module _ (b : Str) (bs : List Str) (base_names : All IsName (b ∷ bs)) where
  -- A new path belongs to the user for whom it is made.
  new_path-owner :
      (now k : ℕ) (s path abs : Str)
      → in_int (pos k) ≡ true
      → new_path now (pos k) s ≡ some path
      → safe_join (absolute b bs) path ≡ ok abs
      → owner_at (absolute b bs) abs ≡ pos k
  new_path-owner now k s path abs int e place =
      let (n, is_name, q) = new_path-names now k s path e in
      let file = absolute b (bs ++ itoa (pos k) ∷ n ∷ []) in
      let at = safe_join-names b bs (itoa (pos k)) n base_names (itoa-IsName k) is_name in
      let same : file ≡ abs =
        ok-inj {E = Fileutil.Error} file abs
          (sym at ∙ ap (safe_join (absolute b bs)) (sym q) ∙ place) in
      ap (owner_at (absolute b bs)) (sym same)
      ∙ owner_at-file_of b bs (itoa (pos k)) [] n
          (record { base_names = base_names; names = (itoa-IsName k, (is_name, tt)) }) (pos k)
          (atoi-itoa (pos k) int)

  module _ (user : User) (k : ℕ) (is_user : user.id ≡ pos k) (int : in_int (pos k) ≡ true) (q : Str)
      (not_nobody : owner_at (absolute b bs) q ≢ pos 0)
      (not_user : owner_at (absolute b bs) q ≢ user.id) where
    -- The path that is written to is the user's or nobody's.
    path_for-elsewhere :
        (now : ℕ) (path0 path abs : Str) (disk : Disk)
        → foreign user (existing (absolute b bs) path0 disk) ≡ false
        → path_for now user path0 (existing (absolute b bs) path0 disk) ≡ ok path
        → safe_join (absolute b bs) path ≡ ok abs
        → str_eq abs q ≡ false
    path_for-elsewhere now path0 path abs disk own e place =
        let playlist = existing (absolute b bs) path0 disk in
        elim (Bool-cases (int_eq playlist.user_id (pos 0))) [
          | inl fresh ↦
              let f : or_panic (new_path now user.id (itoa (pos now))) ≡ ok path = rw fresh at e in
              let made =
                ap (λ i. new_path now i (itoa (pos now))) (sym is_user)
                ∙ or_panic-ok (new_path now user.id (itoa (pos now))) path f in
              let owner = new_path-owner now k (itoa (pos now)) path abs int made place in
              str_eq-false abs q
                (λ e. not_user (ap (owner_at (absolute b bs)) (sym e) ∙ owner ∙ sym is_user))
          | inr kept ↦
              let f : ok path0 ≡ ok path = rw kept at e in
              let same = ok-inj {E = Stop} path0 path f in
              elim (existing-cases (absolute b bs) path0 disk) [
                | inl nobody ↦ absurd (ground (arith, int_eq_iff playlist.user_id (pos 0)))
                | inr r ↦
                    elsewhere (absolute b bs) user q not_nobody not_user path0 abs disk playlist r
                      (ap (safe_join (absolute b bs)) same ∙ place) own
              ]
        ]

    module _ (decode encode : Str → Str) (locate : SpecId → Option Str) (printable : ℕ → Bool) where
      serve_create-elsewhere :
          (now : ℕ) (p : Params) (disk after : Disk) (answer : SpecId)
          → serve_create decode encode locate printable (absolute b bs) now user p disk
            ≡ ok (after, answer)
          → lookup q after.files ≡ lookup q disk.files
      unfolding serve_create
      serve_create-elsewhere now p disk after answer h =
          let id = (Ids.get_first p id_keys).0 in
          let path0 = decode id.string_value in
          let base = absolute b bs in
          let playlist = existing base path0 disk in
          let (u, e, k) = bind-ok (no_collection id) _ (after, answer) h in
          let (v, allowed, l) = bind-ok (not_foreign 50 user playlist) _ (after, answer) k in
          let (path, chosen, m) = bind-ok (path_for now user path0 playlist) _ (after, answer) l in
          let (items, f, n) =
            bind-ok
              (added_ids decode encode locate printable base (Ids.get_list p (codes "songId"))) _
              (after, answer) m in
          let (disk2, w, o) =
            bind-ok (or_code 0 (write printable base now path _ disk)) _ (after, answer) n in
          let same : disk2 ≡ after = ap (λ x. x.0) (ok-inj {E = Stop} _ (after, answer) o) in
          let written = or_code-ok 0 (write printable base now path _ disk) disk2 w in
          let (abs, place) = write-place base path printable now _ disk disk2 written in
          ap (λ d. lookup q d.files) (sym same)
          ∙ write-elsewhere base path printable now _ disk disk2 abs q place
              (path_for-elsewhere now path0 path abs disk
                (not_foreign-ok base user q not_nobody not_user 50 playlist v allowed) chosen place)
              written

      only_disk-elsewhere :
          (now : ℕ) (p : Params) (disk after : Disk) (r : Result Stop (Disk × SpecId))
          → serve_create decode encode locate printable (absolute b bs) now user p disk ≡ r
          → only_disk decode encode locate printable (absolute b bs) r ≡ ok after
          → lookup q after.files ≡ lookup q disk.files
      only_disk-elsewhere now p disk after (ok (made, answer)) e h =
          serve_create-elsewhere now p disk after answer
            (e ∙ ap (λ d. ok (d, answer)) (ok-inj {E = Stop} made after h))
      only_disk-elsewhere now p disk after (err s) e h = cc h

      -- A request of a user that is carried out leaves alone every file below the base folder that
      -- belongs to another user, and not to the user 0: its text and time stay, and no such file is
      -- made. To whom a file belongs says the first folder on the way to it from the base, or it is
      -- user 1. The base is an absolute path, and the user's id a number in the range of an int; ids
      -- may be decoded and located in any way.
      pub serve-elsewhere :
          (now : ℕ) (request : Request) (disk after : Disk)
          → serve decode encode locate printable (absolute b bs) now user request disk ≡ ok after
          → lookup q after.files ≡ lookup q disk.files
      unfolding serve
      serve-elsewhere now (creating p) disk after h =
          only_disk-elsewhere now p disk after
            (serve_create decode encode locate printable (absolute b bs) now user p disk) refl h
      serve-elsewhere now (updating p) disk after h =
          serve_update-elsewhere (absolute b bs) user q not_nobody not_user decode encode locate
            printable now p disk after h
      serve-elsewhere now (deleting p) disk after h =
          serve_delete-elsewhere (absolute b bs) user q not_nobody not_user decode encode locate
            printable p disk after h
