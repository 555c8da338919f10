-- ===== src/Auth/Tests.antt =====
-- Runs of the checks of ctrl.go, and their theorems at a concrete user.
use gonic.Base.{
  ◌≡◌, ◌↔◌, refl, false, List, [], ◌∷◌, ◌++◌, some, ok, Str, codes, str_eq, has_prefix, pos, arith,
  hex_char, hex_value,
}
use gonic.Db.{User}
use gonic.Auth.{encode_hex, decode_hex, check_creds_basic, by_name, authenticate}
use gonic.Auth.Credentials.{Proves, authenticate-encoded, authenticate-ok}

abbrev alice : User
alice = record { id = pos 1; name = codes "alice"; password = codes "pw"; is_admin = false }

abbrev users : List User
users = alice ∷ []

-- A digest for the tests: the text itself.
abbrev same : Str → Str
same s = s

encode_run : encode_hex (codes "pw") ≡ codes "7077"
unfolding encode_hex hex_char
encode_run = refl

digits_run : authenticate same users (codes "alice") (codes "enc:7077") [] [] ≡ ok alice
unfolding authenticate check_creds_basic decode_hex hex_value has_prefix str_eq
digits_run = refl

authenticate-encoded_example :
    authenticate same users (codes "alice") (codes "enc:" ++ encode_hex (codes "pw")) [] []
    ≡ ok alice
unfolding str_eq
authenticate-encoded_example =
    authenticate-encoded same users alice (codes "alice") refl (omega arith, (omega arith, tt))

authenticate-ok_example :
    (authenticate same users (codes "alice") (codes "enc:7077") [] [] ≡ ok alice)
    ↔ ((by_name (codes "alice") users ≡ some alice) × Proves same alice (codes "enc:7077") [] [])
authenticate-ok_example = authenticate-ok same users (codes "alice") (codes "enc:7077") [] [] alice
