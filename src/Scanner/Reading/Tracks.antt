-- ===== src/Scanner/Reading/Tracks.antt =====
-- scanner.go: what `scanDir` leaves of a folder that it reads without an error.
use gonic.Base.{
  ℕ, ◌≡◌, refl, sym, ap, subst, ◌∙◌, ◌≤◌, ◌⊎◌, inl, inr, Bool, true, ◌&&◌, List, [], ◌∷◌, some, ok,
  Str, str_eq, str_eq_iff, str_eq_refl, ℤ, int_eq, int_eq_refl, find, any, All, In, arith,
  Bool-cases,
}
use gonic.FilePath.{join}
use gonic.Scanner.{among}
use gonic.Scanner.Tables.{ScannedAlbum, ScannedTrack, Tables, track_is_at}
use gonic.Scanner.Tables.Laws.{find-keep}
use gonic.Scanner.Session.{
  Settings, FileTimes, World, State, Session, pure, query, note, see_track, ◌>>=◌,
}
use gonic.Scanner.Files.{TrackUpdate}
use gonic.Scanner.Folder.{sort_texts, rows_of, see_tracks, updates_from, apply_updates, scan_tracks}
use gonic.Scanner.Reading.Stored.{Holds, AlbumTable, TrackTable}
use gonic.Scanner.Steps.{step-ok, Unrepeated}
use gonic.Scanner.Reading.Applied.{apply_updates-FilesDone}
use gonic.Scanner.Reading.FilesDone.{FilesDone, HasRow}
use gonic.Scanner.Reading.Chosen.{chosen_names, Listed, Remembered, Choice, updates_from-Chosen}
use gonic.Scanner.Reading.Listed.{All-sort_texts, sort_texts-All, sort_texts-Unrepeated}

-- A file has a row, which is seen, and was written just now or is not older than the file.
abbrev pub IsCurrent : World → ℕ → Str → ℤ → Session → Str → Type 0
IsCurrent w now folder i s m =
    (times : FileTimes) × (w.times (join folder m) ≡ some times)
    × ((r : ScannedTrack) × (find (track_is_at i m) s.tables.tracks ≡ some r)
        × ((r.updated_at ≡ now) ⊎ (times.mod_time ≤ r.updated_at))
        × (among s.state.seen_tracks r.id ≡ true))

pub record Settled (w : World) (now : ℕ) (folder : Str) (x : ScannedAlbum) (names : List Str)
    (s s' : Session) : Type 0 where
  pub album_table : AlbumTable s'.tables
  pub track_table : TrackTable s'.tables
  pub folders : (z : ScannedAlbum) → Holds z s.tables.albums → Holds z s'.tables.albums
  pub tracks : All (IsCurrent w now folder x.id s') names
  pub seen : (j : ℤ) → among s.state.seen_tracks j ≡ true → among s'.state.seen_tracks j ≡ true

see_tracks-seen :
    (rows : List ScannedTrack) (st : State) (j : ℤ)
    → among st.seen_tracks j ≡ true
    → among (see_tracks rows st).seen_tracks j ≡ true
see_tracks-seen [] st j h = h
see_tracks-seen (r ∷ rows) st j h = see_tracks-seen rows (see_track r.id st) j (ground (arith, h))

-- A row that is found is seen.
find-see_tracks :
    (p : ScannedTrack → Bool) (rows : List ScannedTrack) (st : State) (r : ScannedTrack)
    → find p rows ≡ some r
    → among (see_tracks rows st).seen_tracks r.id ≡ true
find-see_tracks p [] st r h = cc h
find-see_tracks p (x ∷ rows) st r h = elim (Bool-cases (p x)) [
  | inl e ↦
      let k : some x ≡ some r = rw e at h in
      let same : x ≡ r = cc k in
      see_tracks-seen rows (see_track x.id st) r.id
        (ap (λ y. among (y.id ∷ st.seen_tracks) r.id) same ∙ rw (int_eq_refl r.id) refl)
  | inr e ↦ find-see_tracks p rows (see_track x.id st) r (rw e at h)
]

-- The rows of the folder hold what a look-up of one of its names finds.
pub find-rows_of :
    (i : ℤ) (names : List Str) (t : Tables) (m : Str)
    → any (str_eq m) names ≡ true
    → find (track_is_at i m) (rows_of i names t) ≡ find (track_is_at i m) t.tracks
find-rows_of i names t m h =
    find-keep (track_is_at i m) (λ r. int_eq r.album_id i && any (str_eq r.filename) names) t.tracks
      (λ r f. fits r f)
  where
    fits :
        (r : ScannedTrack)
        → track_is_at i m r ≡ true
        → (int_eq r.album_id i && any (str_eq r.filename) names) ≡ true
    fits r f =
        let same : r.filename ≡ m = (str_eq_iff r.filename m).0 (ground (arith, f)) in
        let k : any (str_eq r.filename) names ≡ true = ap (λ s. any (str_eq s) names) same ∙ h in
        ground (arith, f, k)

pub Listed-weaken :
    (names more : List Str) → ((n : Str) → Listed names n → Listed more n) → All (Listed more) names
Listed-weaken [] more f = tt
Listed-weaken (n ∷ names) more f =
    (f n (rw (str_eq_refl n) refl), Listed-weaken names more (λ m h. f m (ground (arith, h))))

Remembered-rows_of :
    (i : ℤ) (names : List Str) (t : Tables) (us : List TrackUpdate)
    → All (Listed names) (chosen_names us)
    → Remembered i (rows_of i names t) us
    → Remembered i t.tracks us
Remembered-rows_of i names t [] l h = tt
Remembered-rows_of i names t (u ∷ us) (l, ls) (e, h) =
    (sym (find-rows_of i names t u.basename l) ∙ e, Remembered-rows_of i names t us ls h)

All-In : (P : Str → Type 0) (m : Str) (names : List Str) → All P names → In m names → P m
All-In P m [] h j = absurd j
All-In P m (n ∷ names) (p, h) (inl e) = rw e p
All-In P m (n ∷ names) (p, h) (inr j) = All-In P m names h j

module _ (cfg : Settings) (w : World) (now : ℕ) (folder : Str) (x : ScannedAlbum)
    (names : List Str) where
  abbrev started : Session → Session
  started s = record s { state = see_tracks (rows_of x.id names s.tables) s.state }

  current :
      (is_full : Bool) (us : List TrackUpdate) (s s' : Session) (m : Str)
      → FilesDone x now (chosen_names us) (started s) s'
      → Listed names m
      → Choice cfg w is_full folder x.id (rows_of x.id names s.tables) names us m
      → IsCurrent w now folder x.id s' m
  current is_full us s s' m done l (times, e, inl j) =
      let (r, f, fresh, r_seen) = All-In (HasRow x.id now s') m (chosen_names us) done.tracks j in
      (times, e, (r, f, inl fresh, r_seen))
  current is_full us s s' m done l (times, e, inr (a, (r, f, le))) = (
    times,
    e,
    (
      r,
      done.others m a ∙ sym (find-rows_of x.id names s.tables m l) ∙ f,
      inr le,
      done.seen r.id
          (find-see_tracks (track_is_at x.id m) (rows_of x.id names s.tables) s.state r f),
    ),
  )

  all-IsCurrent :
      (is_full : Bool) (us : List TrackUpdate) (s s' : Session) (ms : List Str)
      → FilesDone x now (chosen_names us) (started s) s'
      → All (Listed names) ms
      → All (Choice cfg w is_full folder x.id (rows_of x.id names s.tables) names us) ms
      → All (IsCurrent w now folder x.id s') ms
  all-IsCurrent is_full us s s' [] done l h = tt
  all-IsCurrent is_full us s s' (m ∷ ms) done (l, ls) (c, h) =
      (current is_full us s s' m done l c, all-IsCurrent is_full us s s' ms done ls h)

module _ (cfg : Settings) (w : World) (now : ℕ) (folder : Str) (x : ScannedAlbum) where
  pub scan_tracks-Settled :
      (names : List Str) (s s' : Session)
      → AlbumTable s.tables
      → TrackTable s.tables
      → Holds x s.tables.albums
      → Unrepeated names
      → scan_tracks cfg w now folder x names s ≡ (ok tt, s')
      → Settled w now folder x names s s'
  unfolding scan_tracks ◌>>=◌ query note pure
  scan_tracks-Settled [] s s' ha ht held u e =
      subst (Settled w now folder x [] s) (ap (λ p. p.1) e) (record {
        album_table = ha;
        track_table = ht;
        folders = λ z h. h;
        tracks = tt;
        seen = λ j h. h;
      })
  scan_tracks-Settled (n ∷ ns) s s' ha ht held u e =
      let names = n ∷ ns in
      let rows = rows_of x.id names s.tables in
      let s1 = started cfg w now folder x names s in
      let (us, s2, e1, e2) =
        step-ok (updates_from cfg w s1.state.is_full folder x.id rows 0 (sort_texts names))
          (λ us. apply_updates cfg w now x us) s1 tt s' e in
      let listed = Listed-weaken names names (λ m h. h) in
      let sorted_listed = sort_texts-All (Listed names) names listed in
      let (c, q) =
        updates_from-Chosen cfg w s1.state.is_full folder x.id rows names (sort_texts names) 0 us s1
          s2 sorted_listed (sort_texts-Unrepeated names u) e1 in
      let done =
        apply_updates-FilesDone cfg w now x us s1 s' ha ht held c.unrepeated
          (Remembered-rows_of x.id names s.tables us c.known c.remembered)
          (subst (λ z. apply_updates cfg w now x us z ≡ (ok tt, s')) (sym q) e2) in
      record {
        album_table = done.album_table;
        track_table = done.track_table;
        folders = done.folders;
        tracks = All-sort_texts (IsCurrent w now folder x.id s') names (
            all-IsCurrent cfg w now folder x names s1.state.is_full us s s' (sort_texts names) done
              sorted_listed c.choices);
        seen = λ j h. done.seen j (see_tracks-seen rows s.state j h);
      }
