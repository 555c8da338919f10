-- ===== src/Scanner/Reading/FilesDone.antt =====
-- scanner.go: the loop over the files of a folder that are to be written, when it succeeds.
use gonic.Base.{
  ℕ, ◌≡◌, refl, subst, ◌∙◌, true, false, List, [], ◌∷◌, some, ok, map, Str, ℤ, find, All,
}
use gonic.Scanner.{among}
use gonic.Scanner.Tables.{ScannedAlbum, ScannedTrack, Tables, track_is_at}
use gonic.Scanner.Session.{Settings, World, Session, for_each}
use gonic.Scanner.Files.{TrackTagData, populate_track_and_artists}
use gonic.Scanner.Reading.Stored.{Holds, AlbumTable, TrackTable}
use gonic.Scanner.Reading.FileDone.{FileDone}
use gonic.Scanner.Reading.FileWritten.{populate_track_and_artists-FileDone}
use gonic.Scanner.Steps.{step-ok, pure-ok, str_eq_sym, Strange, Unrepeated}

abbrev pub names_of : List TrackTagData → List Str
names_of = map (λ d. d.update.basename)

-- The row of a file that has been written.
abbrev pub HasRow : ℤ → ℕ → Session → Str → Type 0
HasRow i now s name =
    (r : ScannedTrack) × (find (track_is_at i name) s.tables.tracks ≡ some r)
    × (r.updated_at ≡ now)
    × (among s.state.seen_tracks r.id ≡ true)

pub record FilesDone (x : ScannedAlbum) (now : ℕ) (names : List Str) (s s' : Session) : Type 0 where
  pub album_table : AlbumTable s'.tables
  pub track_table : TrackTable s'.tables
  pub folders : (z : ScannedAlbum) → Holds z s.tables.albums → Holds z s'.tables.albums
  pub tracks : All (HasRow x.id now s') names
  pub others :
      (m : Str)
      → Strange m names
      → find (track_is_at x.id m) s'.tables.tracks ≡ find (track_is_at x.id m) s.tables.tracks
  pub seen : (j : ℤ) → among s.state.seen_tracks j ≡ true → among s'.state.seen_tracks j ≡ true

-- The rows that the updates remember are the rows that there are.
abbrev pub Remembers : ℤ → Tables → List TrackTagData → Type 0
Remembers i t = All (λ d. find (track_is_at i d.update.basename) t.tracks ≡ d.update.track)

Remembers-later :
    (x : ScannedAlbum) (now : ℕ) (name : Str) (s s1 : Session) (ds : List TrackTagData)
    → FileDone x now name s s1
    → Strange name (names_of ds)
    → Remembers x.id s.tables ds
    → Remembers x.id s1.tables ds
Remembers-later x now name s s1 [] done a h = tt
Remembers-later x now name s s1 (d ∷ ds) done (a, as') (h, hs) =
    (done.others d.update.basename a ∙ h, Remembers-later x now name s s1 ds done as' hs)

module _ (cfg : Settings) (w : World) (now : ℕ) (x : ScannedAlbum) where
  done_later :
      (name : Str) (names : List Str) (s s1 s' : Session)
      → Strange name names
      → FileDone x now name s s1
      → FilesDone x now names s1 s'
      → FilesDone x now (name ∷ names) s s'
  done_later name names s s1 s' a done rest =
      let (r, f, fresh, r_seen) = done.track in
      record {
        album_table = rest.album_table;
        track_table = rest.track_table;
        folders = λ z h. rest.folders z (done.folders z h);
        tracks = ((r, rest.others name a ∙ f, fresh, rest.seen r.id r_seen), rest.tracks);
        others = λ m (b, bs). rest.others m bs ∙ done.others m (str_eq_sym m name false b);
        seen = λ j h. rest.seen j (done.seen j h);
      }

  pub for_each-FilesDone :
      (ds : List TrackTagData) (us : List (Unit {0})) (s s' : Session)
      → AlbumTable s.tables
      → TrackTable s.tables
      → Holds x s.tables.albums
      → Unrepeated (names_of ds)
      → Remembers x.id s.tables ds
      → for_each (populate_track_and_artists cfg w now x) ds s ≡ (ok us, s')
      → FilesDone x now (names_of ds) s s'
  unfolding for_each
  for_each-FilesDone [] us s s' ha ht held u m e =
      let (_, q) = pure-ok [] us s s' e in
      subst (FilesDone x now [] s) q (record {
        album_table = ha;
        track_table = ht;
        folders = λ z h. h;
        tracks = tt;
        others = λ m a. refl;
        seen = λ j h. h;
      })
  for_each-FilesDone (d ∷ ds) us s s' ha ht held (a, u) (m, ms) e =
      let (v, s1, e1, e2) = step-ok (populate_track_and_artists cfg w now x d) _ s us s' e in
      let (vs, s2, e3, e4) =
        step-ok (for_each (populate_track_and_artists cfg w now x) ds) _ s1 us s' e2 in
      let (_, q) = pure-ok (v ∷ vs) us s2 s' e4 in
      let done = populate_track_and_artists-FileDone cfg w now x d s s1 ha ht held m e1 in
      let rest =
        for_each-FilesDone ds vs s1 s2 done.album_table done.track_table (done.folders x held) u
          (Remembers-later x now d.update.basename s s1 ds done a ms) e3 in
      subst (FilesDone x now (names_of (d ∷ ds)) s) q
        (done_later d.update.basename (names_of ds) s s1 s2 a done rest)
