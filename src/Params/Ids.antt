-- ===== src/Params/Ids.antt =====
-- params.go: the accessors of ids; the parser is specid's `New`.
use gonic.Base.{Option, none, some, List, Str, Result, ok, err}
use gonic.Specid
use gonic.Specid.{SpecId, zero_id}
use gonic.Params
use gonic.Params.{Params, Parser, Error, parse, parse_list, or_else}

abbrev id_result : Result Specid.Error SpecId → SpecId × Option Specid.Error
id_result (ok i) = (i, none)
id_result (err e) = (zero_id, some e)

unfoldable pub parse_id : Parser Specid.Error SpecId
parse_id s = id_result (Specid.new s)

unfoldable pub get : Params → Str → SpecId × Option (Error Specid.Error)
get p key = parse parse_id zero_id (Params.get p key)

unfoldable pub get_first : Params → List Str → SpecId × Option (Error Specid.Error)
get_first p keys = parse parse_id zero_id (Params.get_first p keys)

unfoldable pub get_or : Params → Str → SpecId → SpecId
get_or p key fallback = or_else fallback (get p key)

unfoldable pub get_first_or : Params → SpecId → List Str → SpecId
get_first_or p fallback keys = or_else fallback (get_first p keys)

unfoldable pub get_list : Params → Str → List SpecId × Option (Error Specid.Error)
get_list p key = parse_list parse_id (Params.get p key)

unfoldable pub get_first_list : Params → List Str → List SpecId × Option (Error Specid.Error)
get_first_list p keys = parse_list parse_id (Params.get_first p keys)

unfoldable pub get_or_list : Params → Str → List SpecId → List SpecId
get_or_list p key fallback = or_else fallback (get_list p key)

unfoldable pub get_first_or_list : Params → List SpecId → List Str → List SpecId
get_first_or_list p fallback keys = or_else fallback (get_first_list p keys)
