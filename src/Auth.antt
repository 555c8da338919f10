-- ===== src/Auth.antt =====
-- server/ctrlsubsonic/ctrl.go: the parameters that every request needs, and who makes a request.
-- Texts are lists of bytes here.
pub mod Hex
pub mod Credentials
mod Tests
use gonic.Base.{
  ℕ, ◌+◌, ◌-◌, ◌*◌, ◌/◌, ◌%◌, Bool, true, false, ◌&&◌, List, [], ◌∷◌, ◌++◌, Option, none, some,
  Result, ok, err, ◌>>=◌, Str, codes, str_eq, has_prefix, find, drop, hex_char, hex_value,
  if◌then◌else◌,
}
use gonic.Params.{Params, Error}
use gonic.Params.Texts
use gonic.Db.{User}

-- encoding/hex of the Go library: the digits of a text, and the text that digits stand for, which
-- ends where they are not valid.
unfoldable pub encode_hex : Str → Str
encode_hex [] = []
encode_hex (c ∷ s) = hex_char (c / 16) ∷ hex_char (c % 16) ∷ encode_hex s

abbrev hex_pair : Option ℕ → Option ℕ → Option ℕ
hex_pair none y = none
hex_pair (some x) none = none
hex_pair (some x) (some y) = some (16 * x + y)

unfoldable pub decode_hex : Str → Str
decode_hex [] = []
decode_hex (a ∷ []) = []
decode_hex (a ∷ b ∷ s) = elim (hex_pair (hex_value a) (hex_value b)) [
  | none ↦ []
  | some c ↦ c ∷ decode_hex s
]

-- `checkCredsBasic`
unfoldable pub check_creds_basic : Str → Str → Bool
check_creds_basic password given =
    str_eq password (if has_prefix given (codes "enc:") then decode_hex (drop 4 given) else given)

abbrev pub by_name : Str → List User → Option User
by_name name = find (λ u. str_eq u.name name)

abbrev pub accepted : User → Bool → Result ℕ User
accepted user creds_ok = if creds_ok then ok user else err 40

module _ (md5 : Str → Str) where
  -- `checkCredsToken`
  unfoldable pub check_creds_token : Str → Str → Str → Bool
  check_creds_token password token salt = str_eq token (encode_hex (md5 (password ++ salt)))

  abbrev pub creds : Bool → User → Str → Str → Str → Bool
  creds token_auth user password token salt =
      if token_auth
      then check_creds_token user.password token salt
      else check_creds_basic user.password password

  abbrev pub found : Bool → Option User → Str → Str → Str → Result ℕ User
  found token_auth none password token salt = err 40
  found token_auth (some user) password token salt =
      accepted user (creds token_auth user password token salt)

  -- `withUser` on the values of the four parameters.
  unfoldable pub authenticate : List User → Str → Str → Str → Str → Result ℕ User
  authenticate users username password token salt =
      let password_auth = str_eq token [] && str_eq salt [] in
      if str_eq password []
      then (if password_auth
          then err 10
          else found true (by_name username users) password token salt)
      else (if password_auth
          then found false (by_name username users) password token salt
          else err 10)

  -- `withUser`: the user of a request, or the code of the answer.
  unfoldable pub with_user : List User → Params → Result ℕ User
  with_user users p =
      authenticate users (Texts.get p (codes "u")).0 (Texts.get p (codes "p")).0
        (Texts.get p (codes "t")).0 (Texts.get p (codes "s")).0

abbrev given : {F : Type 0} → Str × Option (Error F) → Result ℕ (Unit {0})
given (v, none) = ok tt
given (v, some e) = err 10

-- `withRequiredParams`
unfoldable pub with_required_params : Params → Result ℕ (Unit {0})
with_required_params p = do u ← given (Texts.get p (codes "u")); given (Texts.get p (codes "c"))

-- The two middlewares, one after the other: the user of a request.
unfoldable pub user_of : (Str → Str) → List User → Params → Result ℕ User
unfolding with_required_params with_user
user_of md5 users p = do checked ← with_required_params p; with_user md5 users p
