-- ===== src/Radio.antt =====
-- server/ctrlsubsonic/handlers_internet_radio.go: the handlers that change the radio stations.
pub mod Invariant
pub mod Homepage
mod Tests
use gonic.Base.{
  ℕ, suc, Bool, true, false, not, List, [], ◌∷◌, ◌++◌, Option, none, some, Result, ok, err, ◌>>=◌,
  Str, codes, str_eq, ℤ, pos, int_eq, find, keep, if◌then◌else◌,
}
use gonic.Specid.{SpecId}
use gonic.Params.{Params, Error}
use gonic.Params.Ids
use gonic.Params.Texts
use gonic.Db.{User}

-- A row of `InternetRadioStation`.
pub record Station : Type 0 where
  pub id : ℤ
  pub stream_url : Str
  pub name : Str
  pub homepage_url : Str

pub record Stations : Type 0 where
  pub rows : List Station
  pub next_id : ℕ

abbrev pub by_id : ℤ → List Station → Option Station
by_id i = find (λ s. int_eq s.id i)

-- gorm's Save of a row that is there.
unfoldable pub save : Station → List Station → List Station
save s [] = []
save s (t ∷ ts) = if int_eq t.id s.id then s ∷ ts else t ∷ save s ts

-- The answer to a request that changes nothing is its error code.
abbrev pub admin_only : User → Result ℕ (Unit {0})
admin_only user = if user.is_admin then ok tt else err 50

abbrev pub required : {F A : Type 0} → A × Option (Error F) → Result ℕ A
required (v, none) = ok v
required (v, some e) = err 10

abbrev pub station_there : Option Station → Result ℕ Station
station_there none = err 70
station_there (some s) = ok s

module _ (is_uri : Str → Bool) where
  -- `is_uri` says whether url.ParseRequestURI accepts a text.
  abbrev pub uri : Str → Result ℕ Str
  uri v = if is_uri v then ok v else err 70

  -- Creating passes over an empty homepage, updating only over one that is not given.
  abbrev pub homepage_to_create : {F : Type 0} → Str × Option (Error F) → Result ℕ Str
  homepage_to_create (v, none) = if str_eq v [] then ok v else uri v
  homepage_to_create (v, some e) = ok v

  abbrev pub homepage_to_update : {F : Type 0} → Str × Option (Error F) → Result ℕ Str
  homepage_to_update (v, none) = uri v
  homepage_to_update (v, some e) = ok v

  -- `ServeCreateInternetRadioStation`
  unfoldable pub create : User → Params → Stations → Result ℕ Stations
  create user p st = do
    admin ← admin_only user
    given ← required (Texts.get p (codes "streamUrl"))
    stream_url ← uri given
    name ← required (Texts.get p (codes "name"))
    homepage_url ← homepage_to_create (Texts.get p (codes "homepageUrl"))
    ok (record {
      rows =
          st.rows
          ++ record {
            id = pos st.next_id;
            stream_url = stream_url;
            name = name;
            homepage_url = homepage_url;
          }
            ∷ [];
      next_id = suc st.next_id;
    })

  -- `ServeUpdateInternetRadioStation`; the type of the id is not looked at.
  unfoldable pub update : User → Params → Stations → Result ℕ Stations
  unfolding save
  update user p st = do
    admin ← admin_only user
    station_id ← required (Ids.get p (codes "id"))
    given ← required (Texts.get p (codes "streamUrl"))
    stream_url ← uri given
    name ← required (Texts.get p (codes "name"))
    homepage_url ← homepage_to_update (Texts.get p (codes "homepageUrl"))
    station ← station_there (by_id station_id.value st.rows)
    ok (record st {
      rows =
          save
            (record station { stream_url = stream_url; name = name; homepage_url = homepage_url })
            st.rows;
    })

-- `ServeDeleteInternetRadioStation`
unfoldable pub delete : User → Params → Stations → Result ℕ Stations
delete user p st = do
  admin ← admin_only user
  station_id ← required (Ids.get p (codes "id"))
  station ← station_there (by_id station_id.value st.rows)
  ok (record st { rows = keep (λ s. not (int_eq s.id station.id)) st.rows })

pub data Request : Type 0 where
  creating updating deleting : Params → Request

unfoldable pub serve : (Str → Bool) → User → Request → Stations → Result ℕ Stations
serve is_uri user (creating p) = create is_uri user p
serve is_uri user (updating p) = update is_uri user p
serve is_uri user (deleting p) = delete user p
