-- ===== src/Playlist/Owners.antt =====
-- handlers_playlist.go: updating and deleting keep to the playlists of the user.
use gonic.Base.{
  ℕ, ◌≡◌, ◌≢◌, sym, ap, ◌∙◌, inl, inr, Bool, false, Option, none, some, Result, ok, err, bind-ok,
  ok-inj, Str, str_eq, str_eq-false, str_key, lookup, ℤ, pos, int_eq_iff, arith, if◌then◌else◌,
  Bool-cases,
}
use gonic.Fileutil
use gonic.Fileutil.{safe_join}
use gonic.Specid.{SpecId}
use gonic.Params.{Params}
use gonic.Params.Ids
use gonic.Db.{User}
use gonic.Playlist.{Playlist, Disk, read, write, delete}
use gonic.Playlist.Effects.{owner_at, read-owner, write-elsewhere, delete-elsewhere}
use gonic.Playlist.Handlers.{
  Stop, or_code, or_panic, required_id, no_collection, foreign, id_keys, not_foreign, serve_update,
  serve_delete, edited, save_edited,
}

pub or_code-ok : {E A : Type 0} (n : ℕ) (r : Result E A) (a : A) → or_code n r ≡ ok a → r ≡ ok a
or_code-ok n (ok b) a h = let e : b ≡ a = cc h in ap (λ x. ok x) e
or_code-ok n (err e) a h = cc h

pub or_panic-ok : {A : Type 0} (o : Option A) (a : A) → or_panic o ≡ ok a → o ≡ some a
or_panic-ok none a h = cc h
or_panic-ok (some b) a h = let e : b ≡ a = cc h in ap (λ x. some x) e

-- A playlist that is not foreign to a user is the user's or nobody's.
not_foreign-owner :
    (user : User) (playlist : Playlist) (owner : ℤ)
    → foreign user playlist ≡ false
    → playlist.user_id ≡ owner
    → owner ≢ pos 0
    → owner ≢ user.id
    → ⊥
not_foreign-owner user playlist owner h e n m =
    ground (arith, int_eq_iff playlist.user_id (pos 0), int_eq_iff playlist.user_id user.id)

module _ (base : Str) (user : User) (q : Str) (not_nobody : owner_at base q ≢ pos 0)
    (not_user : owner_at base q ≢ user.id) where
  -- A path of somebody else's is not one that the user may write to.
  pub elsewhere :
      (path abs : Str) (disk : Disk) (playlist : Playlist)
      → read base path disk ≡ ok playlist
      → safe_join base path ≡ ok abs
      → foreign user playlist ≡ false
      → str_eq abs q ≡ false
  elsewhere path abs disk playlist r place h =
      let (abs2, place2, owner) = read-owner base path disk playlist r in
      let same = ok-inj {E = Fileutil.Error} abs2 abs (sym place2 ∙ place) in
      str_eq-false abs q (λ e.
        not_foreign-owner user playlist (owner_at base q) h (owner ∙ ap (owner_at base) (same ∙ e))
          not_nobody not_user)

  pub not_foreign-ok :
      (n : ℕ) (playlist : Playlist) (u : Unit {0})
      → not_foreign n user playlist ≡ ok u
      → foreign user playlist ≡ false
  not_foreign-ok n playlist u h = ground (arith, h)

  module _ (decode encode : Str → Str) (locate : SpecId → Option Str) (printable : ℕ → Bool) where
    pub serve_delete-elsewhere :
        (p : Params) (disk after : Disk)
        → serve_delete decode encode locate printable base user p disk ≡ ok after
        → lookup q after.files ≡ lookup q disk.files
    unfolding serve_delete
    serve_delete-elsewhere p disk after h =
        let (id, e, k) = bind-ok (required_id (Ids.get_first p id_keys)) _ after h in
        let (u, f, l) = bind-ok (no_collection id) _ after k in
        let path = decode id.string_value in
        let (playlist, g, m) = bind-ok (or_code 70 (read base path disk)) _ after l in
        let (v, allowed, n) = bind-ok (not_foreign 50 user playlist) _ after m in
        let was_read = or_code-ok 70 (read base path disk) playlist g in
        let (abs, place, owner) = read-owner base path disk playlist was_read in
        delete-elsewhere base path disk after abs q place
          (elsewhere path abs disk playlist was_read place (not_foreign-ok 50 playlist v allowed))
          (or_code-ok 0 (delete base path disk) after n)

    saved-elsewhere :
        (now : ℕ) (p : Params) (path abs : Str) (playlist : Playlist) (disk after : Disk)
        → safe_join base path ≡ ok abs
        → str_eq abs q ≡ false
        → save_edited decode encode locate printable base now p path playlist disk ≡ ok after
        → lookup q after.files ≡ lookup q disk.files
    saved-elsewhere now p path abs playlist disk after place other h =
        let (new, e, k) =
          bind-ok (edited decode encode locate printable base p playlist) _ after h in
        write-elsewhere base path printable now new disk after abs q place other
          (or_code-ok 0 (write printable base now path new disk) after k)

    updated-elsewhere :
        (now : ℕ) (p : Params) (path : Str) (playlist : Playlist) (disk after : Disk)
        → read base path disk ≡ ok playlist
        → (if foreign user playlist
            then ok disk
            else save_edited decode encode locate printable base now p path playlist disk)
          ≡ ok after
        → lookup q after.files ≡ lookup q disk.files
    updated-elsewhere now p path playlist disk after r h =
        let (abs, place, owner) = read-owner base path disk playlist r in
        elim (Bool-cases (foreign user playlist)) [
          | inl e ↦
              (let k : ok disk ≡ ok after = rw e at h in
                ap (λ d. lookup q d.files) (sym (ok-inj {E = Stop} disk after k)))
          | inr e ↦
              saved-elsewhere now p path abs playlist disk after place
                (elsewhere path abs disk playlist r place e) (rw e at h)
        ]

    pub serve_update-elsewhere :
        (now : ℕ) (p : Params) (disk after : Disk)
        → serve_update decode encode locate printable base now user p disk ≡ ok after
        → lookup q after.files ≡ lookup q disk.files
    unfolding serve_update
    serve_update-elsewhere now p disk after h =
        let (id, e, k) = bind-ok (required_id (Ids.get_first p id_keys)) _ after h in
        let (u, f, l) = bind-ok (no_collection id) _ after k in
        let path = decode id.string_value in
        let (playlist, g, m) = bind-ok (or_code 0 (read base path disk)) _ after l in
        updated-elsewhere now p path playlist disk after
          (or_code-ok 0 (read base path disk) playlist g) m
