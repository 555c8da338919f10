-- ===== src/Params/Times.antt =====
-- params.go: the accessors of times, given in milliseconds since 1970.
use gonic.Base.{Option, none, some, List, Str, ℤ, atoi, scale, wrap64}
use gonic.Params
use gonic.Params.{Params, Parser, Error, parse, or_else}

-- The zero value of a time, and a time by its nanoseconds since 1970.
pub data Time : Type 0 where
  zero_time : Time
  unix : ℤ → Time

abbrev of_ms : Option ℤ → Time × Option (Unit {0})
of_ms none = (zero_time, some tt)
of_ms (some ms) = (unix (wrap64 (scale 1_000_000 ms)), none)

unfoldable pub parse_time : Parser (Unit {0}) Time
parse_time s = of_ms (atoi s)

unfoldable pub get : Params → Str → Time × Option (Error (Unit {0}))
get p key = parse parse_time zero_time (Params.get p key)

unfoldable pub get_first : Params → List Str → Time × Option (Error (Unit {0}))
get_first p keys = parse parse_time zero_time (Params.get_first p keys)

unfoldable pub get_or : Params → Str → Time → Time
get_or p key fallback = or_else fallback (get p key)

unfoldable pub get_first_or : Params → Time → List Str → Time
get_first_or p fallback keys = or_else fallback (get_first p keys)
