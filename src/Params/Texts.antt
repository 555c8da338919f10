-- ===== src/Params/Texts.antt =====
-- params.go: the accessors of texts, `GetOr`, `GetFirstList` and so on; the parser takes every text.
use gonic.Base.{Option, none, List, [], Str}
use gonic.Params
use gonic.Params.{Params, Parser, Error, parse, parse_list, or_else}

unfoldable pub parse_str : Parser (Unit {0}) Str
parse_str s = (s, none)

unfoldable pub get : Params → Str → Str × Option (Error (Unit {0}))
get p key = parse parse_str [] (Params.get p key)

unfoldable pub get_first : Params → List Str → Str × Option (Error (Unit {0}))
get_first p keys = parse parse_str [] (Params.get_first p keys)

unfoldable pub get_or : Params → Str → Str → Str
get_or p key fallback = or_else fallback (get p key)

unfoldable pub get_first_or : Params → Str → List Str → Str
get_first_or p fallback keys = or_else fallback (get_first p keys)

unfoldable pub get_list : Params → Str → List Str × Option (Error (Unit {0}))
get_list p key = parse_list parse_str (Params.get p key)

unfoldable pub get_first_list : Params → List Str → List Str × Option (Error (Unit {0}))
get_first_list p keys = parse_list parse_str (Params.get_first p keys)

unfoldable pub get_or_list : Params → Str → List Str → List Str
get_or_list p key fallback = or_else fallback (get_list p key)

unfoldable pub get_first_or_list : Params → List Str → List Str → List Str
get_first_or_list p fallback keys = or_else fallback (get_first_list p keys)
