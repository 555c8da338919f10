-- ===== src/Scanner/Reading.antt =====
-- scanner.go: `scanDir` as a whole.
pub mod Leaves
pub mod Stored
pub mod FileDone
pub mod FileWritten
pub mod FilesDone
pub mod Chosen
pub mod Listed
pub mod Applied
pub mod Tracks
pub mod Rows
pub mod Rescan
use gonic.Base.{
  ℕ, ◌≡◌, refl, sym, ap, subst, ◌∙◌, true, false, List, [], some, ok, map, Str, str_eq, str_eq_refl,
  ℤ, int_eq, int_eq_refl, find, All,
}
use gonic.FilePath.{join, dir, up_to_slash, after_slash}
use gonic.Db.{AlbumPath}
use gonic.Scanner.Tables.{ScannedAlbum, album_is_at}
use gonic.Scanner.Session.{
  Settings, Item, World, State, Session, require, query, note, see_album, ◌>>=◌, folder_unreadable,
}
use gonic.Scanner.Rows.{find_parent, populate_album_basics}
use gonic.Scanner.Folder.{at, list_items, scan_folder, music_dir_relative, scan_dir}
use gonic.Scanner.Reading.Stored.{Holds, AlbumTable, TrackTable}
use gonic.Scanner.Steps.{step-ok, require-ok, Unrepeated}
use gonic.Scanner.Reading.Listed.{list_items-Unrepeated}
use gonic.Scanner.Reading.Tracks.{IsCurrent, Settled, scan_tracks-Settled}
use gonic.Scanner.Reading.Rows.{
  HoldsId, found-location, find_parent-Located, populate_album_basics-Located,
}
use gonic.Scanner.Tables.Laws.{IsTable}
use gonic.Scanner.Reading.Rescan.{IsPast, scan_tracks-unchanged}

abbrev pub names_in : List Item → List Str
names_in = map (λ i. i.name)

-- The paths by which the rows of a folder and of its parent are found.
abbrev pub path_of : Str → Str → AlbumPath
path_of root path = at root (up_to_slash path) (after_slash path)

abbrev pub parent_of : Str → Str → AlbumPath
parent_of root path = path_of root (dir path)

module _ (cfg : Settings) (w : World) where
  -- The folder has a row, with its cover and below the row of its parent, and every track that it
  -- lists has a row of this folder that is current and seen.
  pub record IsRead (now : ℕ) (folder root path : Str) (items : List Item) (s : Session)
      : Type 0 where
    pub parent : ScannedAlbum
    pub parent_found : find (album_is_at (parent_of root path)) s.tables.albums ≡ some parent
    pub album : ScannedAlbum
    pub album_found : find (album_is_at (path_of root path)) s.tables.albums ≡ some album
    pub cover : album.cover ≡ (list_items cfg w folder items ([], [])).0
    pub below : album.parent_id ≡ parent.id
    pub tracks :
        All (IsCurrent w now (join root path) album.id s) (list_items cfg w folder items ([], [])).1
    pub album_table : AlbumTable s.tables
    pub track_table : TrackTable s.tables

  IsRead-after :
      (now : ℕ) (folder root path : Str) (items : List Item) (x : ScannedAlbum) (i : ℤ)
      (s s' : Session)
      → Settled w now (join root path) x (list_items cfg w folder items ([], [])).1 s s'
      → Holds x s.tables.albums
      → x.location ≡ path_of root path
      → x.cover ≡ (list_items cfg w folder items ([], [])).0
      → x.parent_id ≡ i
      → HoldsId (parent_of root path) i s.tables.albums
      → IsRead now folder root path items s'
  IsRead-after now folder root path items x i s s' done held l c k (b, g, j) =
      let here = found-location (parent_of root path) s.tables.albums b g in
      let (p, fp, sp) =
        done.folders b
          (b, ap (λ q. find (album_is_at q) s.tables.albums) here ∙ g, (refl, refl, refl, refl)) in
      let (a, fa, sa) = done.folders x held in
      record {
        parent = p;
        parent_found = ap (λ q. find (album_is_at q) s'.tables.albums) (sym here) ∙ fp;
        album = a;
        album_found = ap (λ q. find (album_is_at q) s'.tables.albums) (sym l) ∙ fa;
        cover = sa.2 ∙ c;
        below = sa.3 ∙ k ∙ sym j ∙ sym sp.0;
        tracks =
            subst
              (λ n.
                All (IsCurrent w now (join root path) n s')
                  (list_items cfg w folder items ([], [])).1)
              (sym sa.0) done.tracks;
        album_table = done.album_table;
        track_table = done.track_table;
      }

  pub scan_folder-IsRead :
      (now : ℕ) (folder root path : Str) (items : List Item) (s s' : Session)
      → AlbumTable s.tables
      → TrackTable s.tables
      → Unrepeated (names_in items)
      → scan_folder cfg w now folder root path items s ≡ (ok tt, s')
      → IsRead now folder root path items s'
  unfolding scan_folder ◌>>=◌ query note
  scan_folder-IsRead now folder root path items s s' ha ht u e =
      let (cover, names) = list_items cfg w folder items ([], []) in
      let (parent, t1) = find_parent now (parent_of root path) s.tables in
      let (a1, h1, l1, k1, f1, n1) = find_parent-Located now (parent_of root path) s.tables ha in
      let (x, t2) = populate_album_basics w.unidecode now (path_of root path) parent.id cover t1 in
      let ((a2, h2, l2, k2, f2, n2), c2, p2) =
        populate_album_basics-Located w.unidecode now (path_of root path) parent.id cover t1 a1 in
      let s2 : Session = record {
        tables = t2;
        state = see_album x.id (see_album parent.id s.state);
      } in
      let ht2 : TrackTable t2 =
        subst (λ n. IsTable (λ r. r.id) n t2.tracks) (sym (n2 ∙ n1))
          (subst (IsTable (λ r. r.id) s.tables.next_track) (sym (f2 ∙ f1)) ht) in
      let done =
        scan_tracks-Settled cfg w now (join root path) x names s2 s' a2 ht2 h2
          (list_items-Unrepeated cfg w folder items [] [] u tt tt) e in
      IsRead-after now folder root path items x parent.id s2 s' done h2 l2 c2 p2 (
        k2 (parent_of root path) parent.id
          (h1.0, ap (λ q. find (album_is_at q) t1.albums) (sym l1) ∙ h1.1, h1.2.0))

  -- The listing of a folder gives no name twice.
  abbrev pub ListsOnce : Str → Type 0
  ListsOnce folder =
      (items : List Item) → w.read_dir folder ≡ some items → Unrepeated (names_in items)

  -- If a folder below a music directory is read without an error, from tables in which no id is given
  -- twice and with a listing that gives no name twice, then it has a row with the cover that was chosen,
  -- below the row of its parent; and each of its tracks has a row of this folder, whose id the scan has
  -- seen, and which was written just now or is not older than its file.
  pub scan_dir-IsRead :
      (now : ℕ) (folder : Str) (s s' : Session)
      → AlbumTable s.tables
      → TrackTable s.tables
      → ListsOnce folder
      → str_eq (music_dir_relative cfg.music_dirs folder).0 folder ≡ false
      → scan_dir cfg w now folder s ≡ (ok tt, s')
      → (items : List Item) × (w.read_dir folder ≡ some items)
        × (let (root, path) = music_dir_relative cfg.music_dirs folder in
            IsRead now folder root path items s')
  unfolding scan_dir
  scan_dir-IsRead now folder s s' ha ht once b e =
      let (root, path) = music_dir_relative cfg.music_dirs folder in
      let e' = rw b at e in
      let (items, s1, e1, e2) =
        step-ok (require folder_unreadable (w.read_dir folder))
          (scan_folder cfg w now folder root path) s tt s' e' in
      let (listed, q) = require-ok folder_unreadable (w.read_dir folder) s items s1 e1 in
      (
        items,
        listed,
        scan_folder-IsRead now folder root path items s s' ha ht (once items listed)
            (subst (λ z. scan_folder cfg w now folder root path items z ≡ (ok tt, s')) q e2),
      )

  rescan_folder :
      (now later : ℕ) (folder root path : Str) (items : List Item) (s u : Session)
      → IsRead now folder root path items s
      → ((m : Str) → IsPast w now (join root path) m)
      → u.tables ≡ s.tables
      → u.state.is_full ≡ false
      → (u' : Session) × (scan_folder cfg w later folder root path items u ≡ (ok tt, u'))
        × (u'.tables ≡ s.tables)
  unfolding scan_folder ◌>>=◌ query note find_parent populate_album_basics
  rescan_folder now later folder root path items s u read past q f =
      let at_parent =
        ap (λ t. find (album_is_at (parent_of root path)) t.albums) q ∙ read.parent_found in
      let at_album =
        ap (λ t. find (album_is_at (path_of root path)) t.albums) q ∙ read.album_found in
      let u1 : Session = record {
        tables = u.tables;
        state = see_album read.album.id (see_album read.parent.id u.state);
      } in
      let (u', e, k) =
        scan_tracks-unchanged cfg w now later (join root path) read.album read.album refl
          (list_items cfg w folder items ([], [])).1 s u1 q f past read.tracks in
      (u', rw (at_parent, at_album, same_cover, same_parent) e, k ∙ q)
    where
      same_cover : str_eq read.album.cover (list_items cfg w folder items ([], [])).0 ≡ true
      same_cover =
          ap (λ c. str_eq c (list_items cfg w folder items ([], [])).0) read.cover
          ∙ str_eq_refl (list_items cfg w folder items ([], [])).0

      same_parent : int_eq read.album.parent_id read.parent.id ≡ true
      same_parent = ap (λ i. int_eq i read.parent.id) read.below ∙ int_eq_refl read.parent.id

  -- If a folder below a music directory has been read without an error, from tables in which no id is
  -- given twice, with a listing that gives no name twice and no file from the future, then reading it
  -- again, in a scan that is not full and at any later time, gives no error and leaves the tables as
  -- they are.
  pub rescan :
      (now later : ℕ) (folder : Str) (s s' : Session) (st : State)
      → AlbumTable s.tables
      → TrackTable s.tables
      → ListsOnce folder
      → str_eq (music_dir_relative cfg.music_dirs folder).0 folder ≡ false
      → (let (root, path) = music_dir_relative cfg.music_dirs folder in
          (m : Str) → IsPast w now (join root path) m)
      → st.is_full ≡ false
      → scan_dir cfg w now folder s ≡ (ok tt, s')
      → (u : Session) × (scan_dir cfg w later folder (record { tables = s'.tables; state = st })
          ≡ (ok tt, u))
        × (u.tables ≡ s'.tables)
  unfolding scan_dir ◌>>=◌ require
  rescan now later folder s s' st ha ht once b past f e =
      let (root, path) = music_dir_relative cfg.music_dirs folder in
      let (items, listed, read) = scan_dir-IsRead now folder s s' ha ht once b e in
      let (u, e', k) =
        rescan_folder now later folder root path items s'
          (record { tables = s'.tables; state = st }) read past refl f in
      (u, rw (b, listed) e', k)
