-- ===== src/Bookmarks/Tests.antt =====
-- Runs of handlers_bookmark.go, and its theorems at concrete requests.
use gonic.Base.{
  ◌≡◌, refl, false, [], ◌∷◌, none, some, ok, arith, codes, str_eq, cut, atoi, atoi_value,
  read_digits, read_uint, pos, int_eq, find,
}
use gonic.Specid
use gonic.Specid.{SpecId, new}
use gonic.Params.{Params, get, parse}
use gonic.Params.Ids
use gonic.Params.Ints
use gonic.Params.Texts
use gonic.Db.{User}
use gonic.Bookmarks.{Bookmark, Bookmarks, is_at, create, put, save_first, creating, serve}
use gonic.Bookmarks.Invariant.{Distinct, serve-Distinct}
use gonic.Bookmarks.Latest.{create-latest}

abbrev user : User
user = record { id = pos 1; name = codes "alice"; password = codes "pw"; is_admin = false }

abbrev track_seven : SpecId
track_seven = record { typ = Specid.track; value = pos 7; string_value = [] }

abbrev old : Bookmark
old = record {
  id = 1;
  user_id = pos 1;
  position = pos 5;
  comment = codes "a";
  entry_id_type = codes "tr";
  entry_id = pos 7;
}

abbrev marks : Bookmarks
marks = record { rows = old ∷ []; next_id = 2 }

abbrev moved : Bookmarks
moved = record marks { rows = record old { position = pos 90; comment = [] } ∷ [] }

abbrev request : Params
request = (codes "id", codes "tr-7" ∷ []) ∷ (codes "position", codes "90" ∷ []) ∷ []

-- An id with the value 0 is no condition: the bookmark in track 7 is moved.
abbrev zero_request : Params
zero_request = (codes "id", codes "tr-0" ∷ []) ∷ (codes "position", codes "90" ∷ []) ∷ []

create_runs :
    (serve user (creating request) marks ≡ ok moved) × (create user zero_request marks ≡ ok moved)
unfolding serve create put save_first Ids.get Ids.parse_id Ints.get_or Ints.get Ints.parse_int
    Texts.get_or Texts.get Texts.parse_str get parse new cut str_eq int_eq atoi atoi_value
    read_digits read_uint
create_runs = (refl, refl)

serve-Distinct_example : Distinct moved.rows
serve-Distinct_example = serve-Distinct user (creating request) marks moved (tt, tt) create_runs.0

parsed : Ids.get request (codes "id") ≡ (track_seven, none)
unfolding Ids.get Ids.parse_id get parse new cut str_eq atoi read_digits
parsed = refl

create-latest_example :
    (after : Bookmarks) × (b : Bookmark) × (create user request marks ≡ ok after)
    × (find (is_at (pos 1) track_seven) after.rows ≡ some b)
    × (b.position ≡ pos 90)
    × (b.comment ≡ [])
unfolding Ints.get_or Ints.get Ints.parse_int Texts.get_or Texts.get get parse str_eq atoi
    atoi_value read_digits read_uint
create-latest_example =
    create-latest user request marks track_seven parsed (λ e. ground arith) (λ e. cc e)
