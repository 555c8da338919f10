-- ===== src/Params/Floats.antt =====
-- params.go: the accessors of floats. The type of floats and its parser, strconv.ParseFloat, are
-- parameters.
use gonic.Base.{Option, List, Str}
use gonic.Params
use gonic.Params.{Params, Parser, Error, parse, parse_list, or_else}

module _ {F64 E : Type 0} (zero_float : F64) (parse_float : Parser E F64) where
  unfoldable pub get : Params → Str → F64 × Option (Error E)
  get p key = parse parse_float zero_float (Params.get p key)

  unfoldable pub get_first : Params → List Str → F64 × Option (Error E)
  get_first p keys = parse parse_float zero_float (Params.get_first p keys)

  unfoldable pub get_or : Params → Str → F64 → F64
  get_or p key fallback = or_else fallback (get p key)

  unfoldable pub get_first_or : Params → F64 → List Str → F64
  get_first_or p fallback keys = or_else fallback (get_first p keys)

  unfoldable pub get_list : Params → Str → List F64 × Option (Error E)
  get_list p key = parse_list parse_float (Params.get p key)

  unfoldable pub get_first_list : Params → List Str → List F64 × Option (Error E)
  get_first_list p keys = parse_list parse_float (Params.get_first p keys)

  unfoldable pub get_or_list : Params → Str → List F64 → List F64
  get_or_list p key fallback = or_else fallback (get_list p key)

  unfoldable pub get_first_or_list : Params → List F64 → List Str → List F64
  get_first_or_list p fallback keys = or_else fallback (get_first_list p keys)
