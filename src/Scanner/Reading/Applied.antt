-- ===== src/Scanner/Reading/Applied.antt =====
-- scanner.go: what the writing of the updates of a folder leaves.
use gonic.Base.{ℕ, ◌≡◌, refl, sym, ap, subst, ◌∙◌, List, [], ◌∷◌, ok, map, Str, ℤ, All}
use gonic.Scanner.Tables.{ScannedAlbum, Tables}
use gonic.Scanner.Session.{Settings, World, Session, write, for_each}
use gonic.Scanner.Files.{TrackUpdate, TrackTagData, populate_track_and_artists}
use gonic.Scanner.Populate.{populate_album_disc_titles}
use gonic.Scanner.Folder.{disc_titles_from, read_update, write_updates, apply_updates}
use gonic.Scanner.Reading.Stored.{Holds, AlbumTable, TrackTable}
use gonic.Scanner.Steps.{step-ok, pure-ok, transaction-ok, Unrepeated}
use gonic.Scanner.Reading.FilesDone.{FilesDone, names_of, HasRow, Remembers, for_each-FilesDone}
use gonic.Scanner.Reading.Chosen.{chosen_names, Remembered, for_each-read_update}

names_of-update : (ds : List TrackTagData) → chosen_names (map (λ d. d.update) ds) ≡ names_of ds
names_of-update [] = refl
names_of-update (d ∷ ds) = ap (λ l. d.update.basename ∷ l) (names_of-update ds)

Remembered-update :
    (i : ℤ) (t : Tables) (ds : List TrackTagData)
    → Remembered i t.tracks (map (λ d. d.update) ds)
    → Remembers i t ds
Remembered-update i t [] h = tt
Remembered-update i t (d ∷ ds) (e, h) = (e, Remembered-update i t ds h)

titles-FilesDone :
    (x : ScannedAlbum) (now : ℕ) (names : List Str) (titles : List (ℤ × Str)) (s s' : Session)
    → FilesDone x now names s s'
    → FilesDone x now names s
        (record s' { tables = populate_album_disc_titles x.id titles s'.tables })
unfolding populate_album_disc_titles
titles-FilesDone x now names titles s s' h = record {
  album_table = h.album_table;
  track_table = h.track_table;
  folders = h.folders;
  tracks = rows names h.tracks;
  others = h.others;
  seen = h.seen;
}
  where
    rows :
        (ms : List Str)
        → All (HasRow x.id now s') ms
        → All
            (HasRow x.id now
              (record s' { tables = populate_album_disc_titles x.id titles s'.tables }))
            ms
    rows [] h = tt
    rows (m ∷ ms) (r, h) = (r, rows ms h)

module _ (cfg : Settings) (w : World) (now : ℕ) (x : ScannedAlbum) where
  -- The writing of what was read, with the rows that are not written.
  pub apply_updates-FilesDone :
      (us : List TrackUpdate) (s s' : Session)
      → AlbumTable s.tables
      → TrackTable s.tables
      → Holds x s.tables.albums
      → Unrepeated (chosen_names us)
      → Remembered x.id s.tables.tracks us
      → apply_updates cfg w now x us s ≡ (ok tt, s')
      → FilesDone x now (chosen_names us) s s'
  unfolding apply_updates write_updates write
  apply_updates-FilesDone [] s s' ha ht held u m e =
      let (_, q) = pure-ok tt tt s s' e in
      subst (FilesDone x now [] s) q (record {
        album_table = ha;
        track_table = ht;
        folders = λ z h. h;
        tracks = tt;
        others = λ m a. refl;
        seen = λ j h. h;
      })
  apply_updates-FilesDone (u ∷ us) s s' ha ht held un m e =
      let (ds, s1, e1, e2) = step-ok (for_each (read_update cfg w) (u ∷ us)) _ s tt s' e in
      let (same, q) = for_each-read_update cfg w (u ∷ us) ds s s1 e1 in
      let e3 = transaction-ok (write_updates cfg w now x ds) s1 tt s' e2 in
      let (vs, s2, e4, e5) =
        step-ok (for_each (populate_track_and_artists cfg w now x) ds) _ s1 tt s' e3 in
      let names : names_of ds ≡ chosen_names (u ∷ us) =
        sym (names_of-update ds) ∙ ap chosen_names same in
      let done =
        for_each-FilesDone cfg w now x ds vs s s2 ha ht held (subst Unrepeated (sym names) un)
          (Remembered-update x.id s.tables ds
            (subst (Remembered x.id s.tables.tracks) (sym same) m))
          (subst (λ z. for_each (populate_track_and_artists cfg w now x) ds z ≡ (ok vs, s2)) (sym q)
            e4) in
      subst (λ ms. FilesDone x now ms s s') names
        (subst (FilesDone x now (names_of ds) s) (ap (λ p. p.1) e5)
          (titles-FilesDone x now (names_of ds) (disc_titles_from cfg w [] ds) s s2 done))
