-- ===== src/Playlist/Created.antt =====
-- handlers_playlist.go: a playlist that was created is there under the id in the answer.
mod Tests
use gonic.Base.{
  ℕ, ◌≡◌, refl, sym, ap, ◌∙◌, Bool, true, false, not, ◌&&◌, List, [], ◌∷◌, ◌++◌, Option, none, some,
  Result, ok, err, ◌>>=◌, Str, codes, str_eq, All, ℤ, pos, itoa, atoi, atoi-itoa, in_int, int_eq,
  arith, if◌then◌else◌,
}
use gonic.FilePath.{IsName, absolute, slash}
use gonic.Fileutil.{safe_join}
use gonic.Specid
use gonic.Specid.{SpecId, zero_id}
use gonic.Params.{Params, Error, no_values}
use gonic.Params.Ids
use gonic.Params.Texts
use gonic.Db.{User}
use gonic.Playlist.{Playlist, Disk, read, write, new_path, sanity_check}
use gonic.Playlist.RoundTrip.{Storable}
use gonic.Playlist.NewPath.{safe_join-names, itoa-IsName}
use gonic.Playlist.Stored.{Place, folder_of, file_of, after_write, Free, write-after, read-after}
use gonic.Playlist.Handlers.{
  Stop, id_keys, given, located, added_ids, no_playlist, existing, not_foreign, path_for,
  serve_create, no_collection, playlist_id_encode, or_code, or_panic, ids_given,
}

-- The playlist that a request without an id asks for.
abbrev pub requested : ℕ → User → Params → List Str → Playlist
requested now user p items = record {
  updated_at = now;
  user_id = user.id;
  name = given (Texts.get p (codes "name")) [];
  comment = [];
  items = items;
  is_public = false;
}

no_collection-zero : no_collection zero_id ≡ ok tt
unfolding str_eq
no_collection-zero = refl

existing-none : (base : Str) (disk : Disk) → existing base [] disk ≡ no_playlist
unfolding str_eq
existing-none base disk = refl

not_foreign-none : (user : User) → not_foreign 50 user no_playlist ≡ ok tt
unfolding int_eq
not_foreign-none user = refl

path_for-none :
    (now : ℕ) (user : User) (path : Str)
    → new_path now user.id (itoa (pos now)) ≡ some path
    → path_for now user [] no_playlist ≡ ok path
unfolding int_eq
path_for-none now user path e = rw e refl

module _ (decode encode : Str → Str) (locate : SpecId → Option Str) (printable : ℕ → Bool) (b : Str)
    (bs : List Str) (now k : ℕ) (user : User) (p : Params) (n : Str) (ids : List SpecId)
    (items : List Str) (disk : Disk) where
  abbrev path : Str
  path = itoa (pos k) ++ slash ∷ n

  -- A request without an id creates a playlist with the songs whose ids it gives, in the folder of the
  -- user, and answers with an id under which it is read, with the name of the request: if the new path
  -- is a file name in that folder that no folder has and no file stands in the way of, if the songs are
  -- found, and the playlist can be stored in the sense of reading back a written one. The user's id is
  -- a number in the range of an int, and the encoding of ids is one that its decoding takes back.
  pub create-read :
      (place : Place b bs (itoa (pos k)) [] n)
      → user.id ≡ pos k
      → in_int (pos k) ≡ true
      → ((s : Str) → decode (encode s) ≡ s)
      → decode [] ≡ []
      → Ids.get_first p id_keys ≡ (zero_id, some no_values)
      → new_path now user.id (itoa (pos now)) ≡ some path
      → Ids.get_list p (codes "songId") ≡ (ids, none)
      → located decode encode locate printable (absolute b bs) ids ≡ ok items
      → sanity_check (absolute b bs) disk ≡ ok tt
      → Free b bs (itoa (pos k)) [] n place printable now path (requested now user p items) disk
      → Storable printable (folder_of b bs (itoa (pos k)) [] n place) (requested now user p items)
      → (after : Disk) × (answer : SpecId) × (serve_create decode encode locate printable
            (absolute b bs)
            now
            user
            p
            disk
          ≡ ok (after, answer))
        × (read (absolute b bs) (decode answer.string_value) after
            ≡ ok (requested now user p items))
  create-read place is_user int taken_back empty no_id made parsed found sane free storable =
      let base = absolute b bs in
      let playlist = requested now user p items in
      let at =
        safe_join-names b bs (itoa (pos k)) n place.base_names place.names.0 place.names.1.0 in
      let after = after_write b bs (itoa (pos k)) [] n place printable now path playlist disk in
      let answer = playlist_id_encode decode encode locate printable base path in
      let written =
        write-after b bs (itoa (pos k)) [] n place printable now path playlist disk sane at free in
      let back =
        read-after b bs (itoa (pos k)) [] n place printable now path playlist disk (pos k)
          (atoi-itoa (pos k) int) sane at storable in
      (
        after,
        answer,
        (unfold serve_create in
            rw
              (
                no_id,
                no_collection-zero,
                empty,
                existing-none base disk,
                not_foreign-none user,
                path_for-none now user path made,
                parsed,
                found,
                written,
              )
              (unfold int_eq in refl)),
        ap (λ q. read base q after) (taken_back path)
            ∙ back
            ∙ ap (λ i. ok (record playlist { user_id = i })) (sym is_user),
      )
