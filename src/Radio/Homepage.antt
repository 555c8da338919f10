-- ===== src/Radio/Homepage.antt =====
-- handlers_internet_radio.go: an empty homepage, in a request to create and in one to update.
use gonic.Base.{
  suc, ◌≡◌, refl, Bool, true, false, [], ◌∷◌, ◌++◌, pos, none, ok, err, Str, codes, str_eq_refl,
}
use gonic.Specid.{SpecId}
use gonic.Params.{Params}
use gonic.Params.Ids
use gonic.Params.Texts
use gonic.Db.{User}
use gonic.Radio.{Station, Stations, create, update}

-- With an empty homepage, which is no URL, and all else that they need, the request of an
-- administrator to create a station succeeds, and the one to update a station is refused.
pub empty_homepage :
    (is_uri : Str → Bool) (user : User) (p : Params) (st : Stations) (id : SpecId) (url name : Str)
    → is_uri [] ≡ false
    → user.is_admin ≡ true
    → Ids.get p (codes "id") ≡ (id, none)
    → Texts.get p (codes "streamUrl") ≡ (url, none)
    → is_uri url ≡ true
    → Texts.get p (codes "name") ≡ (name, none)
    → Texts.get p (codes "homepageUrl") ≡ ([], none)
    → ((after : Stations) × (create is_uri user p st ≡ ok after))
      × (update is_uri user p st ≡ err 70)
unfolding create update
empty_homepage is_uri user p st id url name e admin i u v n h =
    ((after, rw (admin, u, v, n, h, str_eq_refl []) refl), rw (admin, i, u, v, n, h, e) refl)
  where
    row : Station
    row = record { id = pos st.next_id; stream_url = url; name = name; homepage_url = [] }

    after : Stations
    after = record { rows = st.rows ++ row ∷ []; next_id = suc st.next_id }
