-- ===== src/Params/Ints.antt =====
-- params.go: the accessors of integers. `strconv.Atoi` gives a number beside its error too.
use gonic.Base.{Option, none, some, List, Str, ℤ, pos, atoi, atoi_value}
use gonic.Params
use gonic.Params.{Params, Parser, Error, parse, parse_list, or_else}

abbrev atoi_error : Option ℤ → Option (Unit {0})
atoi_error none = some tt
atoi_error (some z) = none

unfoldable pub parse_int : Parser (Unit {0}) ℤ
parse_int s = (atoi_value s, atoi_error (atoi s))

unfoldable pub get : Params → Str → ℤ × Option (Error (Unit {0}))
get p key = parse parse_int (pos 0) (Params.get p key)

unfoldable pub get_first : Params → List Str → ℤ × Option (Error (Unit {0}))
get_first p keys = parse parse_int (pos 0) (Params.get_first p keys)

unfoldable pub get_or : Params → Str → ℤ → ℤ
get_or p key fallback = or_else fallback (get p key)

unfoldable pub get_first_or : Params → ℤ → List Str → ℤ
get_first_or p fallback keys = or_else fallback (get_first p keys)

unfoldable pub get_list : Params → Str → List ℤ × Option (Error (Unit {0}))
get_list p key = parse_list parse_int (Params.get p key)

unfoldable pub get_first_list : Params → List Str → List ℤ × Option (Error (Unit {0}))
get_first_list p keys = parse_list parse_int (Params.get_first p keys)

unfoldable pub get_or_list : Params → Str → List ℤ → List ℤ
get_or_list p key fallback = or_else fallback (get_list p key)

unfoldable pub get_first_or_list : Params → List ℤ → List Str → List ℤ
get_first_or_list p fallback keys = or_else fallback (get_first_list p keys)
