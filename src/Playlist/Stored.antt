-- ===== src/Playlist/Stored.antt =====
-- playlist.go: Store.Read gives back what Store.Write has put into a user's folder.
use gonic.Base.{
  ℕ, ◌≡◌, ◌≢◌, refl, sym, ap, ◌∙◌, Bool, true, false, List, [], ◌∷◌, ◌++◌, append_assoc, append-nil,
  some, ok, Str, All, All-append, str_eq, insert, lookup-insert, str_eq_refl, str_key, ℤ, arith,
  atoi, any, trim_prefix, has_prefix,
}
use gonic.FilePath.{
  All-front, All-back, slash, separated, render, join_slash, dir, rel, elements, IsName, absolute,
  dir-append, rel-below, elements-absolute, split_on-separated_end,
}
use gonic.Fileutil.{safe_join}
use gonic.Lines.{print_lines}
use gonic.Playlist.{
  Playlist, Disk, read, unread, written_lines, write, text_at, is_file, sanity_check,
  user_id_from_path, first_path_el, folders_above,
}
use gonic.Playlist.Effects.{owner_at}
use gonic.Playlist.Layout.{sanity_check-folders}
use gonic.Playlist.RoundTrip.{Storable, read_lines-written}

trim_prefix-none : (s p : Str) → has_prefix s p ≡ false → trim_prefix s p ≡ s
unfolding trim_prefix
trim_prefix-none s p h = rw h refl

not_rooted : (c : ℕ) (s : Str) → c ≢ slash → has_prefix (c ∷ s) (slash ∷ []) ≡ false
unfolding has_prefix
not_rooted c s h = ground arith

-- The first element of a relative path of names.
first_path_el-names :
    (u : Str) (rest : List Str) → All IsName (u ∷ rest) → first_path_el (join_slash (u ∷ rest)) ≡ u
unfolding first_path_el
first_path_el-names [] rest (n, h) = absurd (n.some_text refl)
first_path_el-names (c ∷ u) rest (n, h) =
    rw
      (
        trim_prefix-none (c ∷ (u ++ separated rest)) (slash ∷ [])
            (not_rooted c (u ++ separated rest) n.one_part.0),
        split_on-separated_end (c ∷ u) rest n.one_part h,
      )
      refl

-- A file in the folder of a user, below the base folder of a store.
pub record Place (b : Str) (bs : List Str) (u : Str) (mid : List Str) (n : Str) : Type 0 where
  pub base_names : All IsName (b ∷ bs)
  pub names : All IsName (u ∷ (mid ++ n ∷ []))

module _ (b : Str) (bs : List Str) (u : Str) (mid : List Str) (n : Str)
    (p : Place b bs u mid n) where
  abbrev pub folder_of : Str
  folder_of = absolute b (bs ++ u ∷ mid)

  abbrev pub file_of : Str
  file_of = absolute b (bs ++ u ∷ (mid ++ n ∷ []))

  folder-IsName : All IsName (b ∷ (bs ++ u ∷ mid))
  folder-IsName =
      All-append IsName (b ∷ bs) (u ∷ mid) p.base_names (All-front (u ∷ mid) (n ∷ []) p.names)

  dir-file_of : dir file_of ≡ folder_of
  dir-file_of =
      ap (λ l. dir (absolute b l)) (sym (append_assoc bs (u ∷ mid) (n ∷ [])))
      ∙ dir-append b (bs ++ u ∷ mid) n folder-IsName (All-back (u ∷ mid) (n ∷ []) p.names).0

  elements-folder_of : elements folder_of ≡ elements (absolute b bs) ++ u ∷ mid
  elements-folder_of =
      elements-absolute b (bs ++ u ∷ mid) folder-IsName
      ∙ ap (λ l. l ++ u ∷ mid) (sym (elements-absolute b bs p.base_names))

  owner-file_of : user_id_from_path (join_slash (u ∷ (mid ++ n ∷ []))) ≡ atoi u
  unfolding user_id_from_path
  owner-file_of = ap atoi (first_path_el-names u (mid ++ n ∷ []) p.names)

  owner-folder : user_id_from_path u ≡ atoi u
  unfolding user_id_from_path
  owner-folder = ap atoi (
      ap first_path_el (sym (append-nil u))
      ∙ (unfold separated in first_path_el-names u [] (p.names.0, tt)))

  rel-file_of : rel (absolute b bs) file_of ≡ some (join_slash (u ∷ (mid ++ n ∷ [])))
  rel-file_of = rel-below b bs u (mid ++ n ∷ []) p.base_names p.names

  -- The file belongs to the user that the folder is named by.
  pub owner_at-file_of : (i : ℤ) → atoi u ≡ some i → owner_at (absolute b bs) file_of ≡ i
  unfolding owner_at unread
  owner_at-file_of i owner = rw (rel-file_of, owner-file_of, owner) refl

  module _ (printable : ℕ → Bool) (now : ℕ) (rel_path : Str) (playlist : Playlist)
      (disk : Disk) where
    -- What a successful Write leaves.
    abbrev pub after_write : Disk
    after_write = record {
      folders = folders_above (elements folder_of) ++ disk.folders;
      files =
          insert file_of
            (record {
              text =
                  print_lines (written_lines printable folder_of (text_at file_of disk) playlist);
              mod_time = now;
            })
            disk.files;
    }

    abbrev pub Free : Type 0
    Free =
        (any (is_file disk) (folders_above (elements folder_of)) ≡ false)
        × (any (λ f. str_eq (render true f) file_of)
              (folders_above (elements folder_of) ++ disk.folders)
            ≡ false)

    pub write-after :
        sanity_check (absolute b bs) disk ≡ ok tt
        → safe_join (absolute b bs) rel_path ≡ ok file_of
        → Free
        → write printable (absolute b bs) now rel_path playlist disk ≡ ok after_write
    unfolding write
    write-after sane place free = rw (sane, place, dir-file_of, free.0, free.1) refl

    abbrev start : Playlist
    start = unread (join_slash (u ∷ (mid ++ n ∷ []))) now

    start-owner : (i : ℤ) → atoi u ≡ some i → start.user_id ≡ i
    unfolding unread
    start-owner i owner = rw (owner-file_of, owner) refl

    pub read-after :
        (i : ℤ)
        → atoi u ≡ some i
        → sanity_check (absolute b bs) disk ≡ ok tt
        → safe_join (absolute b bs) rel_path ≡ ok file_of
        → Storable printable folder_of playlist
        → read (absolute b bs) rel_path after_write
          ≡ ok (record playlist { updated_at = now; user_id = i })
    unfolding read unread
    read-after i owner sane place s =
        let lookup_new =
          lookup-insert file_of file_of
            (record {
              text =
                  print_lines (written_lines printable folder_of (text_at file_of disk) playlist);
              mod_time = now;
            })
            disk.files in
        rw
          (
            sanity_check-folders (absolute b bs) disk after_write u i mid (owner-folder ∙ owner)
                (ap (λ l. folders_above l ++ disk.folders) elements-folder_of) sane,
            place,
            lookup_new,
            str_eq_refl file_of,
            rel-file_of,
            dir-file_of,
          )
          (ap (λ q. ok q)
            (read_lines-written printable b (bs ++ u ∷ mid) folder-IsName playlist s
                (text_at file_of disk) start (unfold unread in refl)
              ∙ ap (λ j. record playlist { updated_at = now; user_id = j }) (start-owner i owner)))

    -- A playlist is written into the folder of a user, with folders below it made where they are
    -- missing, if the layout of the base folder is sound, no file stands where a folder is needed and
    -- no folder in the place of the file. Read then gives it back: its name, comment, visibility and
    -- items as they were, the user that the folder is named by, and the time of the writing. The name
    -- and the comment are valid UTF-8, their lines short enough for the scanner, and each item is the
    -- path of a file whose line is short enough, of one line, and is not taken for a comment.
    pub read-write :
        (i : ℤ)
        → atoi u ≡ some i
        → sanity_check (absolute b bs) disk ≡ ok tt
        → safe_join (absolute b bs) rel_path ≡ ok file_of
        → Free
        → Storable printable folder_of playlist
        → (after : Disk) × (write printable (absolute b bs) now rel_path playlist disk ≡ ok after)
          × (read (absolute b bs) rel_path after
              ≡ ok (record playlist { updated_at = now; user_id = i }))
    read-write i owner sane place free s =
        (after_write, write-after sane place free, read-after i owner sane place s)
