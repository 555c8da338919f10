-- ===== src/Scanner/Reading/Rescan.antt =====
-- scanner.go: a folder that has been read is in the tables, and reading it again changes nothing.
use gonic.Base.{
  ℕ, suc, ◌≡◌, refl, sym, ap, subst, ◌∙◌, ◌≤◌, ◌⊎◌, inl, inr, false, ltb, List, [], ◌∷◌, some, ok,
  Str, ℤ, find, All, arith,
}
use gonic.FilePath.{join}
use gonic.Scanner.Tables.{ScannedAlbum, ScannedTrack, Tables, track_is_at}
use gonic.Scanner.Session.{
  Settings, FileTimes, World, State, Session, require, pure, query, note, see_track, ◌>>=◌,
}
use gonic.Scanner.Folder.{
  is_older, sort_texts, rows_of, see_tracks, updates_from, apply_updates, scan_tracks,
}
use gonic.Scanner.Reading.Chosen.{Listed}
use gonic.Scanner.Reading.Listed.{sort_texts-All}
use gonic.Scanner.Reading.Tracks.{IsCurrent, Listed-weaken, find-rows_of}

see_tracks-is_full :
    (rows : List ScannedTrack) (st : State) → (see_tracks rows st).is_full ≡ st.is_full
see_tracks-is_full [] st = refl
see_tracks-is_full (r ∷ rows) st = see_tracks-is_full rows (see_track r.id st)

-- A file is not from the future.
abbrev pub IsPast : World → ℕ → Str → Str → Type 0
IsPast w now folder m =
    (times : FileTimes) → w.times (join folder m) ≡ some times → times.mod_time ≤ now

module _ (cfg : Settings) (w : World) (now : ℕ) (folder : Str) (i : ℤ) where
  -- A file whose row among some rows is not older than it.
  abbrev IsUnchanged : List ScannedTrack → Str → Type 0
  IsUnchanged rows m =
      (times : FileTimes) × (w.times (join folder m) ≡ some times)
      × (is_older times.mod_time (find (track_is_at i m) rows) ≡ false)

  updates_from-unchanged :
      (rows : List ScannedTrack) (names : List Str) (k : ℕ) (s : Session)
      → All (IsUnchanged rows) names
      → updates_from cfg w false folder i rows k names s ≡ (ok [], s)
  unfolding updates_from ◌>>=◌ pure require
  updates_from-unchanged rows [] k s h = refl
  updates_from-unchanged rows (n ∷ names) k s ((times, e, o), h) =
      rw (e, updates_from-unchanged rows names (suc k) s h, o) refl

  unchanged :
      (names : List Str) (t : Tables) (s : Session) (m : Str)
      → t ≡ s.tables
      → IsPast w now folder m
      → Listed names m
      → IsCurrent w now folder i s m
      → IsUnchanged (rows_of i names t) m
  unchanged names t s m q past l (times, e, (r, f, fresh, _)) =
      let found : find (track_is_at i m) (rows_of i names t) ≡ some r =
        find-rows_of i names t m l ∙ ap (λ u. find (track_is_at i m) u.tracks) q ∙ f in
      let young : ltb r.updated_at times.mod_time ≡ false = not_before fresh (past times e) in
      (times, e, rw found young)
    where
      not_before :
          ((r.updated_at ≡ now) ⊎ (times.mod_time ≤ r.updated_at))
          → times.mod_time ≤ now
          → ltb r.updated_at times.mod_time ≡ false
      not_before (inl a) p = ground arith
      not_before (inr a) p = ground arith

  all-IsUnchanged :
      (names : List Str) (t : Tables) (s : Session) (ms : List Str)
      → t ≡ s.tables
      → ((m : Str) → IsPast w now folder m)
      → All (Listed names) ms
      → All (IsCurrent w now folder i s) ms
      → All (IsUnchanged (rows_of i names t)) ms
  all-IsUnchanged names t s [] q past l h = tt
  all-IsUnchanged names t s (m ∷ ms) q past (l, ls) (c, h) =
      (unchanged names t s m q (past m) l c, all-IsUnchanged names t s ms q past ls h)

module _ (cfg : Settings) (w : World) (now later : ℕ) (folder : Str) (x y : ScannedAlbum)
    (same : y.id ≡ x.id) where
  pub scan_tracks-unchanged :
      (names : List Str) (s u : Session)
      → u.tables ≡ s.tables
      → u.state.is_full ≡ false
      → ((m : Str) → IsPast w now folder m)
      → All (IsCurrent w now folder x.id s) names
      → (u' : Session) × (scan_tracks cfg w later folder y names u ≡ (ok tt, u'))
        × (u'.tables ≡ u.tables)
  unfolding scan_tracks ◌>>=◌ query note pure apply_updates
  scan_tracks-unchanged [] s u q f past h = (u, refl, refl)
  scan_tracks-unchanged (n ∷ ns) s u q f past h =
      let names = n ∷ ns in
      let rows = rows_of y.id names u.tables in
      let u' = record u { state = see_tracks rows u.state } in
      let full : (see_tracks rows u.state).is_full ≡ false = see_tracks-is_full rows u.state ∙ f in
      let h' =
        all-IsUnchanged cfg w now folder y.id names u.tables s (sort_texts names) q (λ m. past m)
          (sort_texts-All (Listed names) names (Listed-weaken names names (λ m l. l)))
          (sort_texts-All (IsCurrent w now folder y.id s) names
            (subst (λ i. All (IsCurrent w now folder i s) names) (sym same) h)) in
      (
        u',
        rw (full, updates_from-unchanged cfg w now folder y.id rows (sort_texts names) 0 u' h')
            refl,
        refl,
      )
