-- ===== src/Radio/Tests.antt =====
-- Runs of handlers_internet_radio.go, and its theorems at concrete requests.
use gonic.Base.{
  ◌≡◌, refl, inl, Bool, true, [], ◌∷◌, none, ok, Str, codes, str_eq, has_prefix, cut, atoi,
  atoi_value, read_digits, read_uint, pos, int_eq,
}
use gonic.Specid
use gonic.Specid.{SpecId}
use gonic.Params.{Params, get, parse}
use gonic.Params.Ids
use gonic.Params.Texts
use gonic.Db.{User}
use gonic.Radio.{Station, Stations, save, update, updating, serve}
use gonic.Radio.Invariant.{IsValid, serve-IsValid}

-- Texts that begin with a scheme.
abbrev is_http : Str → Bool
is_http v = has_prefix v (codes "http")

abbrev admin : User
admin = record { id = pos 1; name = codes "admin"; password = codes "secret"; is_admin = true }

abbrev station : Station
station = record { id = pos 3; stream_url = codes "http:a"; name = codes "a"; homepage_url = [] }

abbrev stations : Stations
stations = record { rows = station ∷ []; next_id = 4 }

-- The id of an album names the station with the same number.
abbrev request : Params
request =
    (codes "id", codes "al-3" ∷ [])
    ∷ (codes "streamUrl", codes "http:b" ∷ [])
    ∷ (codes "name", codes "b" ∷ [])
    ∷ []

abbrev changed : Stations
changed = record {
  rows =
      record { id = pos 3; stream_url = codes "http:b"; name = codes "b"; homepage_url = [] } ∷ [];
  next_id = 4;
}

update_run : serve is_http admin (updating request) stations ≡ ok changed
unfolding serve update save int_eq has_prefix Ids.get Ids.parse_id Texts.get Texts.parse_str parse
    get Specid.new cut str_eq atoi atoi_value read_digits read_uint
update_run = refl

stations-IsValid : IsValid is_http stations
unfolding has_prefix
stations-IsValid = ((refl, inl refl), tt)

serve-IsValid_example : (admin.is_admin ≡ true) × IsValid is_http changed
serve-IsValid_example =
    serve-IsValid is_http admin (updating request) stations changed stations-IsValid update_run

abbrev bare : Params
bare =
    (codes "id", codes "ir-3" ∷ [])
    ∷ (codes "streamUrl", codes "http:b" ∷ [])
    ∷ (codes "name", codes "b" ∷ [])
    ∷ (codes "homepageUrl", [] ∷ [])
    ∷ []

abbrev station_id : SpecId
station_id = record { typ = Specid.internet_radio_station; value = pos 3; string_value = [] }

bare_id : Ids.get bare (codes "id") ≡ (station_id, none)
unfolding Ids.get Ids.parse_id parse get Specid.new cut str_eq atoi atoi_value read_digits read_uint
bare_id = refl
