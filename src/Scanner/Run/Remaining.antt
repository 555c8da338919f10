-- ===== src/Scanner/Run/Remaining.antt =====
-- scanner.go: the tracks that are left behind a scan, and the flag.
use gonic.Base.{
  ℕ, zero, suc, ◌≤◌, ◌≡◌, refl, sym, ap, subst, ◌∙◌, inl, inr, Bool, true, false, not, List, [],
  ◌∷◌, map, some, take, drop, length, ℤ, int_eq_refl, keep, In, arith, Bool-cases,
}
use gonic.Scanner.{among, chunked, transaction_chunked}
use gonic.Scanner.Cleaned.{take-drop, length-drop-le, among-append, among-unseen}
use gonic.Scanner.Tables.{ScannedTrack, Tables}
use gonic.Scanner.Session.{Settings, World, State}
use gonic.Scanner.Emptied.{
  clean_album_metadata, clear_if_any, clear_albums, clean_genres, empty_album_ids,
}
use gonic.Scanner.Flag.{start_scanning, stop_scanning}
use gonic.Scanner.Run.{
  Visits, delete_tracks, delete_albums, unseen, clean_unseen_tracks, clean_unseen_albums,
  without_artists, clean_up, Library, already_scanning, finished, walked, scan_and_clean,
}

In-keep :
    {A : Type 0} (p : A → Bool) (a : A) (xs : List A) → In a (keep p xs) → In a xs × (p a ≡ true)
In-keep p a [] j = absurd j
In-keep p a (x ∷ xs) j = elim (Bool-cases (p x)) [
  | inl e ↦ kept e (In-keep p a xs) (rw e at j)
  | inr e ↦ (let (k, f) = In-keep p a xs (rw e at j) in (inr k, f))
]
  where
    kept :
        p x ≡ true
        → (In a (keep p xs) → In a xs × (p a ≡ true))
        → In a (x ∷ keep p xs)
        → In a (x ∷ xs) × (p a ≡ true)
    kept e g (inl q) = (inl q, ap p q ∙ e)
    kept e g (inr k) = (let (h, f) = g k in (inr h, f))

among-In :
    (r : ScannedTrack) (rs : List ScannedTrack) → In r rs → among (map (λ x. x.id) rs) r.id ≡ true
among-In r [] j = absurd j
among-In r (x ∷ rs) (inl e) = rw (sym (ap (λ y. y.id) e), int_eq_refl r.id) refl
among-In r (x ∷ rs) (inr j) = rw (among-In r rs j) (ground arith)

-- A step that only deletes, chunk by chunk, only deletes.
chunked-In :
    (f : List ℤ → Tables → Tables) (r : ScannedTrack)
    → ((ids : List ℤ) (t : Tables) → In r (f ids t).tracks → In r t.tracks)
    → (fuel : ℕ) (ids : List ℤ) (t : Tables) → In r (chunked fuel f ids t).tracks
    → In r t.tracks
unfolding chunked
chunked-In f r g zero ids t j = j
chunked-In f r g (suc fuel) [] t j = j
chunked-In f r g (suc fuel) (i ∷ is) t j =
    g (take 999 (i ∷ is)) t (chunked-In f r g fuel (drop 999 (i ∷ is)) (f (take 999 (i ∷ is)) t) j)

delete_tracks-In :
    (r : ScannedTrack) (ids : List ℤ) (t : Tables)
    → In r (delete_tracks ids t).tracks
    → In r t.tracks × (among ids r.id ≡ false)
unfolding delete_tracks
delete_tracks-In r ids t j =
    let (k, e) = In-keep (λ x. not (among ids x.id)) r t.tracks j in (k, ground (arith, e))

delete_albums-In :
    (r : ScannedTrack) (ids : List ℤ) (t : Tables)
    → In r (delete_albums ids t).tracks
    → In r t.tracks
unfolding delete_albums
delete_albums-In r ids t j = (delete_tracks-In r _ t j).0

-- No track with one of the ids is left, in however many chunks they are deleted.
chunked-gone :
    (r : ScannedTrack) (fuel : ℕ) (ids : List ℤ) (t : Tables)
    → length ids ≤ fuel
    → In r (chunked fuel delete_tracks ids t).tracks
    → among ids r.id ≡ false
unfolding chunked
chunked-gone r zero [] t l j = refl
chunked-gone r zero (i ∷ is) t l j = absurd (omega arith)
chunked-gone r (suc fuel) [] t l j = refl
chunked-gone r (suc fuel) (i ∷ is) t l j =
    let u = delete_tracks (i ∷ take 998 is) t in
    let later = chunked-gone r fuel (drop 998 is) u (omega (arith, length-drop-le 998 is)) j in
    let here = delete_tracks-In r (i ∷ take 998 is) t (
      chunked-In delete_tracks r (λ ids v k. (delete_tracks-In r ids v k).0) fuel (drop 998 is) u
        j) in
    ap (λ l. among (i ∷ l) r.id) (sym (take-drop 998 is))
    ∙ among-append (i ∷ take 998 is) (drop 998 is) r.id
    ∙ rw (here.1, later) refl

clean_unseen_tracks-In :
    (r : ScannedTrack) (st : State) (t : Tables)
    → In r (clean_unseen_tracks st t).tracks
    → In r t.tracks × (among st.seen_tracks r.id ≡ true)
unfolding clean_unseen_tracks transaction_chunked
clean_unseen_tracks-In r st t j =
    let ids = unseen st.seen_tracks (map (λ x. x.id) t.tracks) in
    let before =
      chunked-In delete_tracks r (λ is v k. (delete_tracks-In r is v k).0) (length ids) ids t j in
    let gone = chunked-gone r (length ids) ids t (omega arith) j in
    (
      before,
      elim (Bool-cases (among st.seen_tracks r.id)) [
        | inl e ↦ e
        | inr e ↦
            let c : true ≡ false =
              sym (
                among-unseen st.seen_tracks r.id (map (λ x. x.id) t.tracks) e
                  (among-In r t.tracks before))
              ∙ gone in
            cc c
      ],
    )

clean_unseen_albums-In :
    (r : ScannedTrack) (st : State) (t : Tables)
    → In r (clean_unseen_albums st t).tracks
    → In r t.tracks
unfolding clean_unseen_albums transaction_chunked
clean_unseen_albums-In r st t j =
    chunked-In delete_albums r (delete_albums-In r) _
      (unseen st.seen_albums (map (λ a. a.id) t.albums)) t j

clear_if_any-tracks : (ids : List ℤ) (t : Tables) → (clear_if_any ids t).tracks ≡ t.tracks
unfolding clear_if_any
clear_if_any-tracks [] t = refl
clear_if_any-tracks (i ∷ is) t = unfold clear_albums in refl

clean_album_metadata-tracks : (t : Tables) → (clean_album_metadata t).tracks ≡ t.tracks
unfolding clean_album_metadata
clean_album_metadata-tracks t = clear_if_any-tracks (empty_album_ids t) t

clean_genres-tracks : (t : Tables) → (clean_genres t).tracks ≡ t.tracks
unfolding clean_genres
clean_genres-tracks t = refl

clean_up-In :
    (r : ScannedTrack) (st : State) (t : Tables)
    → In r (clean_up st t).tracks
    → In r t.tracks × (among st.seen_tracks r.id ≡ true)
unfolding clean_up
clean_up-In r st t j =
    let t1 = clean_unseen_tracks st t in
    let t2 = clean_unseen_albums st t1 in
    let t3 = clean_album_metadata t2 in
    let j3 = subst (In r) (clean_genres-tracks (without_artists t3)) j in
    clean_unseen_tracks-In r st t
      (clean_unseen_albums-In r st t1 (subst (In r) (clean_album_metadata-tracks t2) j3))

module _ (cfg : Settings) (w : World) (now : ℕ) where
  -- A scan that is asked for while one runs is refused, and changes nothing. Any other one finishes,
  -- whatever errors it meets: the flag is clear again, the time of the scan is set, and every track that
  -- is left is as the walk left it and has been seen by it.
  pub scan_and_clean_lem :
      (is_full : Bool) (visits : Visits) (l : Library)
      → (l.scanning ≡ true → scan_and_clean cfg w now is_full visits l ≡ (already_scanning, l))
        × (l.scanning ≡ false
            → let s = walked cfg w now is_full visits l.tables in
              let (outcome, u) = scan_and_clean cfg w now is_full visits l in
              (outcome ≡ finished s.state)
              × (u.scanning ≡ false)
              × (u.last_scan ≡ some now)
              × ((r : ScannedTrack)
                  → In r u.tables.tracks
                  → In r s.tables.tracks × (among s.state.seen_tracks r.id ≡ true)))
  unfolding scan_and_clean start_scanning stop_scanning
  scan_and_clean_lem is_full visits l = (
    λ e. rw e refl,
    λ e.
        let s = walked cfg w now is_full visits l.tables in
        rw e (refl, refl, refl, λ r j. clean_up-In r s.state s.tables j),
  )
