-- ===== src/Params/Bools.antt =====
-- params.go: the accessors of Booleans; the parser is strconv.ParseBool.
use gonic.Base.{
  Bool, true, false, Option, none, some, List, [], ◌∷◌, Str, codes, str_eq, any, if◌then◌else◌,
}
use gonic.Params
use gonic.Params.{Params, Parser, Error, parse, parse_list, or_else}

abbrev true_texts : List Str
true_texts = codes "1" ∷ codes "t" ∷ codes "T" ∷ codes "true" ∷ codes "TRUE" ∷ codes "True" ∷ []

abbrev false_texts : List Str
false_texts = codes "0" ∷ codes "f" ∷ codes "F" ∷ codes "false" ∷ codes "FALSE" ∷ codes "False" ∷ []

unfoldable pub parse_bool : Parser (Unit {0}) Bool
parse_bool s =
    if any (str_eq s) true_texts
    then (true, none)
    else if any (str_eq s) false_texts
    then (false, none)
    else (false, some tt)

unfoldable pub get : Params → Str → Bool × Option (Error (Unit {0}))
get p key = parse parse_bool false (Params.get p key)

unfoldable pub get_first : Params → List Str → Bool × Option (Error (Unit {0}))
get_first p keys = parse parse_bool false (Params.get_first p keys)

unfoldable pub get_or : Params → Str → Bool → Bool
get_or p key fallback = or_else fallback (get p key)

unfoldable pub get_first_or : Params → Bool → List Str → Bool
get_first_or p fallback keys = or_else fallback (get_first p keys)

unfoldable pub get_list : Params → Str → List Bool × Option (Error (Unit {0}))
get_list p key = parse_list parse_bool (Params.get p key)

unfoldable pub get_first_list : Params → List Str → List Bool × Option (Error (Unit {0}))
get_first_list p keys = parse_list parse_bool (Params.get_first p keys)

unfoldable pub get_or_list : Params → Str → List Bool → List Bool
get_or_list p key fallback = or_else fallback (get_list p key)

unfoldable pub get_first_or_list : Params → List Bool → List Str → List Bool
get_first_or_list p fallback keys = or_else fallback (get_first_list p keys)
