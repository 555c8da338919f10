-- ===== src/Specid.antt =====
-- server/ctrlsubsonic/specid/ids.go: the typed ids of the Subsonic API, `al-12` or `pl-<path>`.
pub mod RoundTrip
mod Tests
use gonic.Base.{
  ℕ, ◌≡◌, Bool, true, false, ◌||◌, Option, none, some, [], ◌∷◌, ◌++◌, Result, ok, err, ◌>>=◌,
  if◌then◌else◌, Str, codes, str_eq, cut, ℤ, pos, atoi, itoa, int_eq,
}

pub data Error : Type 0 where
  bad_separator not_an_int bad_prefix bad_json : Error

-- Idt is a string type, and the zero value of an id has the empty one.
abbrev pub Idt : Type 0
Idt = Str

abbrev pub artist : Idt
artist = codes "ar"

abbrev pub album : Idt
album = codes "al"

abbrev pub track : Idt
track = codes "tr"

abbrev pub podcast : Idt
podcast = codes "pd"

abbrev pub podcast_episode : Idt
podcast_episode = codes "pe"

abbrev pub internet_radio_station : Idt
internet_radio_station = codes "ir"

abbrev pub playlist : Idt
playlist = codes "pl"

abbrev pub collection : Idt
collection = codes "co"

abbrev pub separator : ℕ
separator = b'-'

pub record SpecId : Type 0 where
  pub typ : Idt
  pub value : ℤ
  pub string_value : Str

abbrev pub zero_id : SpecId
zero_id = record { typ = []; value = pos 0; string_value = [] }

abbrev numeric : Idt → ℤ → SpecId
numeric t v = record { typ = t; value = v; string_value = [] }

-- The switch of `New` over the types whose value is a number.
numeric_id : Str → ℤ → Result Error SpecId
numeric_id t v =
    if str_eq t artist
    then ok (numeric artist v)
    else if str_eq t album
    then ok (numeric album v)
    else if str_eq t track
    then ok (numeric track v)
    else if str_eq t podcast
    then ok (numeric podcast v)
    else if str_eq t podcast_episode
    then ok (numeric podcast_episode v)
    else if str_eq t internet_radio_station
    then ok (numeric internet_radio_station v)
    else if str_eq t collection
    then ok (numeric collection v)
    else err bad_prefix

abbrev with_value : Str → Option ℤ → Result Error SpecId
with_value t none = err not_an_int
with_value t (some v) = numeric_id t v

abbrev of_parts : Str → Str → Result Error SpecId
of_parts t v =
    if str_eq t playlist
    then ok (record { typ = playlist; value = pos 0; string_value = v })
    else with_value t (atoi v)

unfoldable pub new : Str → Result Error SpecId
unfolding numeric_id
new s = elim (cut s separator) [ none ↦ err bad_separator | some (t, v) ↦ of_parts t v ]

-- The method String.
unfoldable pub to_string : SpecId → Str
to_string i =
    if int_eq i.value (pos 0)
    then (if str_eq i.string_value [] then codes "-1" else i.typ ++ separator ∷ i.string_value)
    else i.typ ++ separator ∷ itoa i.value
