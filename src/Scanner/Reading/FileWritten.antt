-- ===== src/Scanner/Reading/FileWritten.antt =====
-- scanner.go: `populateTrackAndArtists` and its loop, when they succeed.
use gonic.Base.{
  ℕ, suc, ◌≡◌, refl, sym, ap, subst, ◌∙◌, inl, inr, Bool, true, false, ◌==◌, List, ◌∷◌, ok, Str, ℤ,
  int_eq_refl, find, arith, if◌then◌else◌, Option-cases,
}
use gonic.Scanner.{among}
use gonic.Scanner.Tables.{ScannedAlbum, ScannedTrack, Tables, track_is_at}
use gonic.Scanner.Session.{
  Settings, FileTags, FileTimes, Properties, World, State, Session, ◌>>=◌, require, query, write,
  note, see_track,
}
use gonic.Scanner.Rows.{populate_track, populate_album_embedded_cover, track_tags}
use gonic.Scanner.Files.{
  TrackTagData, query_genres, query_album, query_links, populate_track_and_artists, create_time,
}
use gonic.Scanner.Reading.Leaves.{query_genres-Leaves, query_links-Leaves}
use gonic.Scanner.Reading.Stored.{
  SameFolder, Holds, AlbumTable, TrackTable, Written, populate_track-Written,
}
use gonic.Scanner.Reading.FileDone.{
  FoldersStay, Leaves-FoldersStay, same-SameFolder, query_album-FoldersStay, cover-FoldersStay,
  FoldersStay-trans, TrackTable-stays, Written-FoldersStay, FileDone,
}

-- The three parts of a file's queries, one after another.
assemble :
    (x : ScannedAlbum) (now : ℕ) (name : Str) (r : ScannedTrack) (t t1 t2 t3 : Tables)
    (st st' : State)
    → TrackTable t
    → FoldersStay t t1
    → Written now x.id name r t1 t2
    → FoldersStay t2 t3
    → st'.seen_tracks ≡ r.id ∷ st.seen_tracks
    → FileDone x now name (record { tables = t; state = st }) (record { tables = t3; state = st' })
assemble x now name r t t1 t2 t3 st st' h (a, f, k, n) (found, fresh, table, others, albums, next)
      (a', f', k', n') seen =
    record {
      album_table = a';
      track_table = TrackTable-stays t2 t3 (a', f', k', n') table;
      folders = λ z hz. f' z (subst (Holds z) (sym albums) (f z hz));
      track = (
        r,
        ap (find (track_is_at x.id name)) k' ∙ found,
        fresh,
        ap (λ l. among l r.id) seen ∙ rw (int_eq_refl r.id) refl,
      );
      others =
          λ m e. ap (find (track_is_at x.id m)) k' ∙ others m e ∙ ap (find (track_is_at x.id m)) k;
      seen = λ j e. ap (λ l. among l j) seen ∙ ground (arith, e);
    }

module _ (cfg : Settings) (w : World) where
  album_part :
      (b : Bool) (tags : FileTags) (times : FileTimes) (genres : List ℤ × List ℤ) (x : ScannedAlbum)
      (t : Tables)
      → AlbumTable t
      → Holds x t.albums
      → let (x', u) = (if b then query_album cfg w tags times genres x else λ t. (x, t)) t in
        SameFolder x' x × FoldersStay t u
  album_part true tags times genres x t h held =
      query_album-FoldersStay cfg w tags times genres x t h held
  album_part false tags times genres x t h held = (same-SameFolder x, (h, λ z k. k, refl, refl))

  cover_part :
      (b : Bool) (props : Properties) (x x' : ScannedAlbum) (r : ScannedTrack) (t : Tables)
      → AlbumTable t
      → Holds x t.albums
      → SameFolder x' x
      → FoldersStay t (
          (if b then populate_album_embedded_cover cfg.scan_embedded_cover props x' r else λ t. t)
            t)
  cover_part true props x x' r t h held same = cover-FoldersStay cfg w props x x' r t h held same
  cover_part false props x x' r t h held same = (h, λ z k. k, refl, refl)

  pub populate_track_and_artists-FileDone :
      (now : ℕ) (x : ScannedAlbum) (d : TrackTagData) (s s' : Session)
      → AlbumTable s.tables
      → TrackTable s.tables
      → Holds x s.tables.albums
      → find (track_is_at x.id d.update.basename) s.tables.tracks ≡ d.update.track
      → populate_track_and_artists cfg w now x d s ≡ (ok tt, s')
      → FileDone x now d.update.basename s s'
  unfolding populate_track_and_artists ◌>>=◌ query write note require
  populate_track_and_artists-FileDone now x d s s' ha ht held row e =
      let (genres, t1) = query_genres cfg w d.tags s.tables in
      let stay1 = Leaves-FoldersStay s.tables t1 (query_genres-Leaves cfg w d.tags s.tables) ha in
      let held1 = stay1.1 x held in
      let (x', t2) =
        (if d.update.index == 0 then query_album cfg w d.tags d.update.times genres x else λ t.
        (x, t))
          t1 in
      let (same, stay2) =
        album_part (d.update.index == 0) d.tags d.update.times genres x t1 stay1.0 held1 in
      let stay = FoldersStay-trans s.tables t1 t2 stay1 stay2 in
      elim (Option-cases (w.file_size d.update.abs_path)) [
        | inl k ↦ let clash = rw k at e in absurd (cc clash)
        | inr (size, k) ↦
            let columns = track_tags w d.tags cfg.scan_embedded_cover d.props size in
            let created = create_time d.update.times in
            let (r, t3) =
              populate_track w.unidecode now created x.id d.update.track d.update.basename columns
                t2 in
            let written =
              populate_track-Written w.unidecode now created x.id d.update.basename columns
                d.update.track t2 (TrackTable-stays s.tables t2 stay ht)
                (ap (find (track_is_at x.id d.update.basename)) stay.2 ∙ row) in
            let (ha3, held3) = Written-FoldersStay t2 t3 written.4 written.5 stay.0 in
            let t4 = query_links cfg w d.tags r.id genres t3 in
            let stay4 =
              Leaves-FoldersStay t3 t4 (query_links-Leaves cfg w d.tags r.id genres t3) ha3 in
            let stay5 =
              cover_part (d.update.index == 0) d.props x x' r t4 stay4.0
                (stay4.1 x (held3 x (stay.1 x held))) same in
            let t5 =
              (if d.update.index == 0
                  then populate_album_embedded_cover cfg.scan_embedded_cover d.props x' r
                  else λ t. t)
                t4 in
            let done = rw k at e in
            subst (FileDone x now d.update.basename s) (ap (λ p. p.1) done) (
              assemble x now d.update.basename r s.tables t2 t3 t5 s.state
                (record (see_track r.id s.state) { seen_tracks_new = suc s.state.seen_tracks_new })
                ht stay written (FoldersStay-trans t3 t4 t5 stay4 stay5) refl)
      ]
