-- ===== src/Scanner/Reading/Chosen.antt =====
-- scanner.go: which files of a folder `scanDir` writes, and the reading of their tags.
use gonic.Base.{
  ℕ, suc, ◌≡◌, refl, sym, ap, subst, ◌∙◌, ◌≤◌, ◌⊎◌, inl, inr, Bool, true, false, ◌||◌, List, [],
  ◌∷◌, Option, none, some, ok, map, Str, str_eq, ℤ, find, any, All, In, arith, Bool-cases,
}
use gonic.FilePath.{join}
use gonic.Scanner.Tables.{ScannedTrack, track_is_at}
use gonic.Scanner.Session.{
  Settings, FileTimes, World, no_times, tags_unreadable, Session, require, for_each,
}
use gonic.Scanner.Files.{TrackUpdate, TrackTagData}
use gonic.Scanner.Folder.{is_older, with_update, updates_from, read_update}
use gonic.Scanner.Steps.{step-ok, require-ok, pure-ok, str_eq_sym, Strange, Unrepeated}

abbrev pub chosen_names : List TrackUpdate → List Str
chosen_names = map (λ u. u.basename)

abbrev pub Remembered : ℤ → List ScannedTrack → List TrackUpdate → Type 0
Remembered i rows = All (λ u. find (track_is_at i u.basename) rows ≡ u.track)

-- Whether a name is one of some names.
abbrev pub Listed : List Str → Str → Type 0
Listed names n = any (str_eq n) names ≡ true

module _ (cfg : Settings) (w : World) (is_full : Bool) (folder : Str) (i : ℤ)
    (rows : List ScannedTrack) (listed : List Str) where
  -- A file is written, or it has a row that is not older than the file.
  abbrev pub Choice : List TrackUpdate → Str → Type 0
  Choice us m =
      (times : FileTimes) × (w.times (join folder m) ≡ some times)
      × (In m (chosen_names us)
          ⊎ (Strange m (chosen_names us)
              × ((r : ScannedTrack) × (find (track_is_at i m) rows ≡ some r)
                  × (times.mod_time ≤ r.updated_at))))

  pub record Chosen (names : List Str) (us : List TrackUpdate) : Type 0 where
    pub remembered : Remembered i rows us
    pub choices : All (Choice us) names
    pub unrepeated : Unrepeated (chosen_names us)
    pub known : All (Listed listed) (chosen_names us)
    pub strange : (n : Str) → Strange n names → Strange n (chosen_names us)

  choices-more :
      (u : TrackUpdate) (us : List TrackUpdate) (names : List Str)
      → Strange u.basename names
      → All (Choice us) names
      → All (Choice (u ∷ us)) names
  choices-more u us [] a h = tt
  choices-more u us (m ∷ names) (a, as') ((times, e, inl j), h) =
      ((times, e, inl (inr j)), choices-more u us names as' h)
  choices-more u us (m ∷ names) (a, as') ((times, e, inr (b, r)), h) =
      ((times, e, inr ((str_eq_sym u.basename m false a, b), r)), choices-more u us names as' h)

  not_older :
      (times : FileTimes) (o : Option ScannedTrack)
      → (is_full || is_older times.mod_time o) ≡ false
      → (r : ScannedTrack) × (o ≡ some r) × (times.mod_time ≤ r.updated_at)
  not_older times none h = absurd (ground arith)
  not_older times (some r) h = (r, refl, ground arith)

  module _ (n : Str) (names : List Str) (k : ℕ) (times : FileTimes) (us : List TrackUpdate) where
    abbrev written : TrackUpdate
    written = record {
      index = k;
      basename = n;
      abs_path = join folder n;
      track = find (track_is_at i n) rows;
      times = times;
    }

    Chosen-step :
        w.times (join folder n) ≡ some times
        → Listed listed n
        → Strange n names
        → Chosen names us
        → Chosen
            (n ∷ names)
            (with_update is_full k n (join folder n) (find (track_is_at i n) rows) times us)
    Chosen-step e l a c =
        elim (Bool-cases (is_full || is_older times.mod_time (find (track_is_at i n) rows))) [
          | inl b ↦ rw b (record {
            remembered = (refl, c.remembered);
            choices = ((times, e, inl (inl refl)), choices-more written us names a c.choices);
            unrepeated = (c.strange n a, c.unrepeated);
            known = (l, c.known);
            strange = λ m (h, hs). (h, c.strange m hs);
          })
          | inr b ↦
              let (r, f, le) = not_older times (find (track_is_at i n) rows) b in
              rw b (record {
                remembered = c.remembered;
                choices = ((times, e, inr (c.strange n a, (r, f, le))), c.choices);
                unrepeated = c.unrepeated;
                known = c.known;
                strange = λ m (h, hs). c.strange m hs;
              })
        ]

  pub updates_from-Chosen :
      (names : List Str) (k : ℕ) (us : List TrackUpdate) (s s' : Session)
      → All (Listed listed) names
      → Unrepeated names
      → updates_from cfg w is_full folder i rows k names s ≡ (ok us, s')
      → Chosen names us × (s ≡ s')
  unfolding updates_from
  updates_from-Chosen [] k us s s' ls u e =
      let (a, q) = pure-ok [] us s s' e in
      (
        subst (Chosen []) a (record {
          remembered = tt;
          choices = tt;
          unrepeated = tt;
          known = tt;
          strange = λ n h. tt;
        }),
        q,
      )
  updates_from-Chosen (n ∷ names) k us s s' (l, ls) (a, u) e =
      let (times, s1, e1, e2) =
        step-ok (require (no_times n) (w.times (join folder n))) _ s us s' e in
      let (times_are, q1) = require-ok (no_times n) (w.times (join folder n)) s times s1 e1 in
      let (rest, s2, e3, e4) =
        step-ok (updates_from cfg w is_full folder i rows (suc k) names) _ s1 us s' e2 in
      let (c, q2) = updates_from-Chosen names (suc k) rest s1 s2 ls u e3 in
      let (us_are, q3) = pure-ok _ us s2 s' e4 in
      (
        subst (Chosen (n ∷ names)) us_are (Chosen-step n names k times rest times_are l a c),
        sym q1 ∙ q2 ∙ q3,
      )

module _ (cfg : Settings) (w : World) where
  -- What is read of each file are the tags at its path.
  pub for_each-read_tags :
      (us : List TrackUpdate) (ds : List TrackTagData) (s s' : Session)
      → for_each (read_update cfg w) us s ≡ (ok ds, s')
      → All (λ d. w.read_tags d.update.abs_path ≡ some (d.props, d.tags)) ds
  unfolding for_each
  for_each-read_tags [] ds s s' e =
      let (a, _) = pure-ok [] ds s s' e in
      subst (All (λ d. w.read_tags d.update.abs_path ≡ some (d.props, d.tags))) a tt
  for_each-read_tags (u ∷ us) ds s s' e =
      let (d, s1, e1, e2) = step-ok (read_update cfg w u) _ s ds s' e in
      let (read, s3, e5, e6) =
        step-ok (require (tags_unreadable u.basename) (w.read_tags u.abs_path)) _ s d s1 e1 in
      let (is_read, _) =
        require-ok (tags_unreadable u.basename) (w.read_tags u.abs_path) s read s3 e5 in
      let (d_is, _) = pure-ok _ d s3 s1 e6 in
      let (rest, s2, e3, e4) = step-ok (for_each (read_update cfg w) us) _ s1 ds s' e2 in
      let (ds_are, _) = pure-ok (d ∷ rest) ds s2 s' e4 in
      subst (All (λ d. w.read_tags d.update.abs_path ≡ some (d.props, d.tags))) ds_are (
        subst (λ d. w.read_tags d.update.abs_path ≡ some (d.props, d.tags)) d_is is_read,
        for_each-read_tags us rest s1 s2 e3,
      )

  -- The reading keeps the updates, and changes nothing.
  pub for_each-read_update :
      (us : List TrackUpdate) (ds : List TrackTagData) (s s' : Session)
      → for_each (read_update cfg w) us s ≡ (ok ds, s')
      → (map (λ d. d.update) ds ≡ us) × (s ≡ s')
  unfolding for_each
  for_each-read_update [] ds s s' e =
      let (a, q) = pure-ok [] ds s s' e in (ap (map (λ d. d.update)) (sym a), q)
  for_each-read_update (u ∷ us) ds s s' e =
      let (d, s1, e1, e2) = step-ok (read_update cfg w u) _ s ds s' e in
      let (read, s3, e5, e6) =
        step-ok (require (tags_unreadable u.basename) (w.read_tags u.abs_path)) _ s d s1 e1 in
      let (_, q1) = require-ok (tags_unreadable u.basename) (w.read_tags u.abs_path) s read s3 e5 in
      let (d_is, q2) = pure-ok _ d s3 s1 e6 in
      let (rest, s2, e3, e4) = step-ok (for_each (read_update cfg w) us) _ s1 ds s' e2 in
      let (r, q3) = for_each-read_update us rest s1 s2 e3 in
      let (ds_are, q4) = pure-ok (d ∷ rest) ds s2 s' e4 in
      (
        ap (map (λ x. x.update)) (sym ds_are)
            ∙ ap (λ l. d.update ∷ l) r
            ∙ ap (λ x. x.update ∷ us) (sym d_is),
        sym q1 ∙ q2 ∙ q3 ∙ q4,
      )
