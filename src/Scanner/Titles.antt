-- ===== src/Scanner/Titles.antt =====
-- scanner.go: the titles of the discs of an album after a scan of its folder.
use gonic.Base.{
  ◌≡◌, refl, sym, ap, ◌∙◌, ℕ, inl, inr, not, List, [], ◌∷◌, ◌++◌, ok, map, Str, ℤ, int_eq,
  int_eq_refl, keep, Bool-cases, take, Option, none, some, All, true, false, ◌&&◌, ◌||◌, ◌⊎◌, Bool,
  subst, append-nil, codes, str_eq, pos, arith, int_eq_iff, if◌then◌else◌,
}
use gonic.Scanner.Tables.{ScannedAlbum, DiscTitle, Tables}
use gonic.Scanner.Session.{Settings, World, Session, Properties, FileTags, for_each, write}
use gonic.Scanner.Populate.{populate_album_disc_titles}
use gonic.Scanner.Files.{TrackUpdate, TrackTagData, populate_track_and_artists}
use gonic.Scanner.Folder.{
  has_disc, or_one, add_disc_title, disc_titles_from, read_update, write_updates, apply_updates,
}
use gonic.Scanner.Steps.{step-ok, transaction-ok}
use gonic.Scanner.Reading.Chosen.{for_each-read_update, for_each-read_tags}

-- The titles that an album has for its discs.
abbrev pub titles_of : ℤ → List DiscTitle → List (ℤ × Str)
titles_of i rows = map (λ d. (d.disc_number, d.title)) (keep (λ d. int_eq d.album_id i) rows)

abbrev title_row : ℤ → ℤ × Str → DiscTitle
title_row i p = record { album_id = i; disc_number = p.0; title = p.1 }

titles_of-kept :
    (i : ℤ) (rows more : List DiscTitle)
    → titles_of i (keep (λ d. not (int_eq d.album_id i)) rows ++ more) ≡ titles_of i more
titles_of-kept i [] more = refl
titles_of-kept i (d ∷ rows) more = elim (Bool-cases (int_eq d.album_id i)) [
  | inl e ↦ rw e (titles_of-kept i rows more)
  | inr e ↦ rw (e, e) (titles_of-kept i rows more)
]

titles_of-rows : (i : ℤ) (ps : List (ℤ × Str)) → titles_of i (map (title_row i) ps) ≡ ps
titles_of-rows i [] = refl
titles_of-rows i ((n, s) ∷ ps) = rw (int_eq_refl i, titles_of-rows i ps) refl

titles_of-populate :
    (i : ℤ) (ps : List (ℤ × Str)) (t : Tables)
    → titles_of i (populate_album_disc_titles i ps t).disc_titles ≡ ps
unfolding populate_album_disc_titles
titles_of-populate i ps t =
    titles_of-kept i t.disc_titles (map (title_row i) ps) ∙ titles_of-rows i ps

abbrev pub titles_for : ℤ → List (ℤ × Str) → List Str
titles_for n ps = map (λ p. p.1) (keep (λ p. int_eq p.0 n) ps)

titles_for-append :
    (n : ℤ) (ps qs : List (ℤ × Str)) → titles_for n (ps ++ qs) ≡ titles_for n ps ++ titles_for n qs
titles_for-append n [] qs = refl
titles_for-append n (p ∷ ps) qs = elim (Bool-cases (int_eq p.0 n)) [
  | inl e ↦ rw (e, titles_for-append n ps qs) refl
  | inr e ↦ rw e (titles_for-append n ps qs)
]

has_disc-none : (n : ℤ) (ps : List (ℤ × Str)) → titles_for n ps ≡ [] → has_disc n ps ≡ false
has_disc-none n [] h = refl
has_disc-none n (p ∷ ps) h = elim (Bool-cases (int_eq p.0 n)) [
  | inl e ↦ (let k : p.1 ∷ titles_for n ps ≡ [] = rw e at h in cc k)
  | inr e ↦
      let other : int_eq n p.0 ≡ false = ground (arith, int_eq_iff n p.0, int_eq_iff p.0 n) in
      rw (other, has_disc-none n ps (rw e at h)) refl
]

has_disc-some :
    (n : ℤ) (s : Str) (ss : List Str) (ps : List (ℤ × Str))
    → titles_for n ps ≡ s ∷ ss
    → has_disc n ps ≡ true
has_disc-some n s ss [] h = cc h
has_disc-some n s ss (p ∷ ps) h = elim (Bool-cases (int_eq p.0 n)) [
  | inl e ↦ rw ((int_eq_iff n p.0).1 (sym ((int_eq_iff p.0 n).0 e))) refl
  | inr e ↦ rw (has_disc-some n s ss ps (rw e at h)) (ground arith)
]

-- The title of a disc goes behind those that there are, unless the disc has one or it is blank.
module _ (n k : ℤ) (title : Str) where
  abbrev with_title : List (ℤ × Str) → List (ℤ × Str)
  with_title ps = if has_disc k ps || str_eq title [] then ps else ps ++ (k, title) ∷ []

  with_title-other :
      (ps : List (ℤ × Str)) → int_eq k n ≡ false → titles_for n (with_title ps) ≡ titles_for n ps
  with_title-other ps e = elim (Bool-cases (has_disc k ps || str_eq title [])) [
    | inl b ↦ rw b refl
    | inr b ↦ rw b (titles_for-append n ps ((k, title) ∷ []) ∙ rw e (append-nil (titles_for n ps)))
  ]

  with_title-none :
      (ps : List (ℤ × Str))
      → titles_for n ps ≡ []
      → titles_for n (with_title ps)
        ≡ (if int_eq k n && not (str_eq title []) then title ∷ [] else [])
  with_title-none ps h = elim (Bool-cases (int_eq k n)) [
    | inr e ↦ with_title-other ps e ∙ h ∙ rw e refl
    | inl e ↦
        let same : n ≡ k = sym ((int_eq_iff k n).0 e) in
        let free : has_disc k ps ≡ false =
          subst (λ i. has_disc i ps ≡ false) same (has_disc-none n ps h) in
        elim (Bool-cases (str_eq title [])) [
          | inl b ↦ rw (free, b, e) h
          | inr b ↦
              rw (free, b, e)
                (titles_for-append n ps ((k, title) ∷ [])
                  ∙ ap (λ l. l ++ titles_for n ((k, title) ∷ [])) h
                  ∙ rw e refl)
        ]
  ]

  with_title-some :
      (s : Str) (ps : List (ℤ × Str))
      → titles_for n ps ≡ s ∷ []
      → titles_for n (with_title ps) ≡ s ∷ []
  with_title-some s ps h = elim (Bool-cases (int_eq k n)) [
    | inr e ↦ with_title-other ps e ∙ h
    | inl e ↦
        let same : n ≡ k = sym ((int_eq_iff k n).0 e) in
        let had : has_disc k ps ≡ true =
          subst (λ i. has_disc i ps ≡ true) same (has_disc-some n s [] ps h) in
        rw had h
  ]

once :
    (b : Bool) (title : Str)
    → ((if b then title ∷ [] else []) ≡ [])
      ⊎ ((s : Str) × ((if b then title ∷ [] else []) ≡ s ∷ []))
once false title = inl refl
once true title = inr (title, refl)

module _ (w : World) (n : ℤ) where
  -- The title that what is read of a file gives to a disc: none if the file is of another disc (a disc
  -- number 0 counts as 1) or has no title for its disc.
  abbrev pub title_read : Option (Properties × FileTags) → List Str
  title_read none = []
  title_read (some (props, tags)) =
      let title = tags.get (codes "DISCSUBTITLE") in
      let number = w.parse_int (tags.get (codes "DiscNumber")) in
      if int_eq (if int_eq number (pos 0) then pos 1 else number) n && not (str_eq title [])
      then title ∷ []
      else []

  -- The titles that some files give to a disc, in their order.
  unfoldable pub titles_given : List TrackUpdate → List Str
  titles_given [] = []
  titles_given (u ∷ us) = title_read (w.read_tags u.abs_path) ++ titles_given us

  titles_in : List TrackTagData → List Str
  titles_in [] = []
  titles_in (d ∷ ds) = title_read (some (d.props, d.tags)) ++ titles_in ds

  titles_in-given :
      (ds : List TrackTagData)
      → All (λ d. w.read_tags d.update.abs_path ≡ some (d.props, d.tags)) ds
      → titles_in ds ≡ titles_given (map (λ d. d.update) ds)
  unfolding titles_in titles_given
  titles_in-given [] h = refl
  titles_in-given (d ∷ ds) (e, h) = rw (e, titles_in-given ds h) refl

  read-once :
      (o : Option (Properties × FileTags))
      → (title_read o ≡ []) ⊎ ((s : Str) × (title_read o ≡ s ∷ []))
  read-once none = inl refl
  read-once (some (props, tags)) = once _ (tags.get (codes "DISCSUBTITLE"))

module _ (cfg : Settings) (w : World) (n : ℤ) where
  -- A file adds the title that it gives if the disc has none.
  add_disc_title-none :
      (d : TrackTagData) (ps : List (ℤ × Str))
      → titles_for n ps ≡ []
      → titles_for n (add_disc_title cfg w d ps) ≡ title_read w n (some (d.props, d.tags))
  add_disc_title-none d ps h =
      with_title-none n (or_one (w.parse_int (d.tags.get (codes "DiscNumber"))))
        (d.tags.get (codes "DISCSUBTITLE")) ps h

  add_disc_title-some :
      (d : TrackTagData) (s : Str) (ps : List (ℤ × Str))
      → titles_for n ps ≡ s ∷ []
      → titles_for n (add_disc_title cfg w d ps) ≡ s ∷ []
  add_disc_title-some d s ps h =
      with_title-some n (or_one (w.parse_int (d.tags.get (codes "DiscNumber"))))
        (d.tags.get (codes "DISCSUBTITLE")) s ps h

  disc_titles_from-some :
      (s : Str) (ds : List TrackTagData) (ps : List (ℤ × Str))
      → titles_for n ps ≡ s ∷ []
      → titles_for n (disc_titles_from cfg w ps ds) ≡ s ∷ []
  unfolding disc_titles_from
  disc_titles_from-some s [] ps h = h
  disc_titles_from-some s (d ∷ ds) ps h =
      disc_titles_from-some s ds (add_disc_title cfg w d ps) (add_disc_title-some d s ps h)

  disc_titles_from-none :
      (ds : List TrackTagData) (ps : List (ℤ × Str))
      → titles_for n ps ≡ []
      → titles_for n (disc_titles_from cfg w ps ds) ≡ take 1 (titles_in w n ds)
  unfolding disc_titles_from titles_in
  disc_titles_from-none [] ps h = h
  disc_titles_from-none (d ∷ ds) ps h =
      let added = add_disc_title-none d ps h in
      elim (read-once w n (some (d.props, d.tags))) [
        | inl e ↦
            disc_titles_from-none ds (add_disc_title cfg w d ps) (added ∙ e)
            ∙ ap (λ l. take 1 (l ++ titles_in w n ds)) (sym e)
        | inr (s, e) ↦
            disc_titles_from-some s ds (add_disc_title cfg w d ps) (added ∙ e)
            ∙ ap (λ l. take 1 (l ++ titles_in w n ds)) (sym e)
      ]

-- When a scan of a folder has written at least one file without an error, the album has for each disc
-- exactly the first title that the written files give it, each by the tags at its own path, and none if
-- they give it none: what the files that were not written again had given is gone.
pub titles_of-apply_updates :
    (cfg : Settings) (w : World) (now : ℕ) (x : ScannedAlbum) (u : TrackUpdate)
    (us : List TrackUpdate) (s s' : Session) (n : ℤ)
    → apply_updates cfg w now x (u ∷ us) s ≡ (ok tt, s')
    → titles_for n (titles_of x.id s'.tables.disc_titles) ≡ take 1 (titles_given w n (u ∷ us))
unfolding apply_updates write_updates write
titles_of-apply_updates cfg w now x u us s s' n e =
    let (ds, s1, e1, e2) = step-ok (for_each (read_update cfg w) (u ∷ us)) _ s tt s' e in
    let (same, _) = for_each-read_update cfg w (u ∷ us) ds s s1 e1 in
    let tags_are = for_each-read_tags cfg w (u ∷ us) ds s s1 e1 in
    let e3 = transaction-ok (write_updates cfg w now x ds) s1 tt s' e2 in
    let (vs, s2, e4, e5) =
      step-ok (for_each (populate_track_and_artists cfg w now x) ds) _ s1 tt s' e3 in
    ap (λ p. titles_for n (titles_of x.id p.1.tables.disc_titles)) (sym e5)
    ∙ ap (titles_for n) (titles_of-populate x.id (disc_titles_from cfg w [] ds) s2.tables)
    ∙ disc_titles_from-none cfg w n ds [] refl
    ∙ ap (take 1) (titles_in-given w n ds tags_are ∙ ap (titles_given w n) same)
