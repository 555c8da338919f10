-- ===== src/Radio/Invariant.antt =====
-- handlers_internet_radio.go: only administrators change the stations, whose URLs stay valid.
use gonic.Base.{
  ◌≡◌, refl, sym, subst, ◌∙◌, ◌⊎◌, inl, inr, Bool, true, not, List, [], ◌∷◌, Option, none, some, ok,
  err, Str, codes, str_eq, str_eq_iff, pos, int_eq, keep, All, All-append, Bool-cases, bind-ok,
  ok-inj,
}
use gonic.Params.{Params, Error, get, parse}
use gonic.Params.Ids
use gonic.Params.Texts
use gonic.Db.{User}
use gonic.Radio.{
  Station, Stations, by_id, save, admin_only, required, station_there, uri, homepage_to_create,
  homepage_to_update, create, update, delete, Request, creating, updating, deleting, serve,
}

module _ (is_uri : Str → Bool) where
  abbrev ValidHomepage : Str → Type 0
  ValidHomepage v = (v ≡ []) ⊎ (is_uri v ≡ true)

  abbrev ValidRow : Station → Type 0
  ValidRow s = (is_uri s.stream_url ≡ true) × ValidHomepage s.homepage_url

  -- Every station has a URL to stream from, and a URL or nothing as its homepage.
  abbrev pub IsValid : Stations → Type 0
  IsValid st = All ValidRow st.rows

  uri-ok : (v w : Str) → uri is_uri v ≡ ok w → is_uri w ≡ true
  uri-ok v w h = elim (Bool-cases (is_uri v)) [
    | inl e ↦
        let k : ok v ≡ ok w = rw e at h in let q : v ≡ w = cc k in subst (λ x. is_uri x ≡ true) q e
    | inr e ↦ (let k : err 70 ≡ ok w = rw e at h in cc k)
  ]

  -- A text parameter that is missing reads as the empty text.
  Absent : Str × Option (Error (Unit {0})) → Type 0
  Absent x = ((x.1 ≡ none) ⊎ (x.0 ≡ []))

  get-Absent : (p : Params) (key : Str) → Absent (Texts.get p key)
  unfolding Absent Texts.get Texts.parse_str parse
  get-Absent p key = go (get p key)
    where
      go : (vs : List Str) → Absent (parse Texts.parse_str [] vs)
      go [] = inr refl
      go (v ∷ vs) = inl refl

  created-ValidHomepage :
      (x : Str × Option (Error (Unit {0}))) (w : Str)
      → Absent x
      → homepage_to_create is_uri x ≡ ok w
      → ValidHomepage w
  unfolding Absent
  created-ValidHomepage (v, some e) w (inl a) h = cc a
  created-ValidHomepage (v, some e) w (inr a) h = (let q : v ≡ w = cc h in inl (sym q ∙ a))
  created-ValidHomepage (v, none) w a h = elim (Bool-cases (str_eq v [])) [
    | inl e ↦
        let k : ok v ≡ ok w = rw e at h in
        let q : v ≡ w = cc k in inl (sym q ∙ (str_eq_iff v []).0 e)
    | inr e ↦ inr (uri-ok v w (rw e at h))
  ]

  updated-ValidHomepage :
      (x : Str × Option (Error (Unit {0}))) (w : Str)
      → Absent x
      → homepage_to_update is_uri x ≡ ok w
      → ValidHomepage w
  unfolding Absent
  updated-ValidHomepage (v, some e) w (inl a) h = cc a
  updated-ValidHomepage (v, some e) w (inr a) h = (let q : v ≡ w = cc h in inl (sym q ∙ a))
  updated-ValidHomepage (v, none) w a h = inr (uri-ok v w h)

  admin-ok : (user : User) (u : Unit {0}) → admin_only user ≡ ok u → user.is_admin ≡ true
  admin-ok user u h = elim (Bool-cases user.is_admin) [
    | inl e ↦ e
    | inr e ↦ (let k : err 50 ≡ ok u = rw e at h in cc k)
  ]

  keep-All : (q : Station → Bool) (ss : List Station) → All ValidRow ss → All ValidRow (keep q ss)
  keep-All q [] h = tt
  keep-All q (s ∷ ss) (v, h) = elim (Bool-cases (q s)) [
    | inl e ↦ rw e (v, keep-All q ss h)
    | inr e ↦ rw e (keep-All q ss h)
  ]

  save-All :
      (s : Station) (ss : List Station) → ValidRow s → All ValidRow ss → All ValidRow (save s ss)
  unfolding save
  save-All s [] v h = tt
  save-All s (t ∷ ss) v (w, h) = elim (Bool-cases (int_eq t.id s.id)) [
    | inl e ↦ rw e (v, h)
    | inr e ↦ rw e (w, save-All s ss v h)
  ]

  module _ (user : User) (st after : Stations) (p : Params) (valid : IsValid st) where
    create-IsValid : create is_uri user p st ≡ ok after → (user.is_admin ≡ true) × IsValid after
    unfolding create
    create-IsValid h =
        let (u, a, h1) = bind-ok (admin_only user) _ after h in
        let (g, b, h2) = bind-ok (required (Texts.get p (codes "streamUrl"))) _ after h1 in
        let (url, c, h3) = bind-ok (uri is_uri g) _ after h2 in
        let (name, d, h4) = bind-ok (required (Texts.get p (codes "name"))) _ after h3 in
        let (home, e, h5) =
          bind-ok (homepage_to_create is_uri (Texts.get p (codes "homepageUrl"))) _ after h4 in
        let row : Station = record {
          id = pos st.next_id;
          stream_url = url;
          name = name;
          homepage_url = home;
        } in
        let row_valid : ValidRow row =
          (uri-ok g url c, created-ValidHomepage _ home (get-Absent p (codes "homepageUrl")) e) in
        (
          admin-ok user u a,
          subst IsValid (ok-inj _ after h5)
              (All-append ValidRow st.rows (row ∷ []) valid (row_valid, tt)),
        )

    update-IsValid : update is_uri user p st ≡ ok after → (user.is_admin ≡ true) × IsValid after
    unfolding update
    update-IsValid h =
        let (u, a, h1) = bind-ok (admin_only user) _ after h in
        let (i, b0, h0) = bind-ok (required (Ids.get p (codes "id"))) _ after h1 in
        let (g, b, h2) = bind-ok (required (Texts.get p (codes "streamUrl"))) _ after h0 in
        let (url, c, h3) = bind-ok (uri is_uri g) _ after h2 in
        let (name, d, h4) = bind-ok (required (Texts.get p (codes "name"))) _ after h3 in
        let (home, e, h5) =
          bind-ok (homepage_to_update is_uri (Texts.get p (codes "homepageUrl"))) _ after h4 in
        let (s, f, h6) = bind-ok (station_there (by_id i.value st.rows)) _ after h5 in
        let row : Station = record s { stream_url = url; name = name; homepage_url = home } in
        let row_valid : ValidRow row =
          (uri-ok g url c, updated-ValidHomepage _ home (get-Absent p (codes "homepageUrl")) e) in
        (
          admin-ok user u a,
          subst IsValid (ok-inj _ after h6) (save-All row st.rows row_valid valid),
        )

    delete-IsValid : delete user p st ≡ ok after → (user.is_admin ≡ true) × IsValid after
    unfolding delete
    delete-IsValid h =
        let (u, a, h1) = bind-ok (admin_only user) _ after h in
        let (i, b, h2) = bind-ok (required (Ids.get p (codes "id"))) _ after h1 in
        let (s, c, h3) = bind-ok (station_there (by_id i.value st.rows)) _ after h2 in
        (
          admin-ok user u a,
          subst IsValid (ok-inj _ after h3) (keep-All (λ r. not (int_eq r.id s.id)) st.rows valid),
        )

-- A request that changes the stations is one of an administrator, and where every station had a
-- URL to stream from, and a URL or nothing as its homepage, every station has them afterwards.
pub serve-IsValid :
    (is_uri : Str → Bool) (user : User) (r : Request) (st after : Stations)
    → IsValid is_uri st
    → serve is_uri user r st ≡ ok after
    → (user.is_admin ≡ true) × IsValid is_uri after
unfolding serve
serve-IsValid is_uri user (creating p) st after valid = create-IsValid is_uri user st after p valid
serve-IsValid is_uri user (updating p) st after valid = update-IsValid is_uri user st after p valid
serve-IsValid is_uri user (deleting p) st after valid = delete-IsValid is_uri user st after p valid
