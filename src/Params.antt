-- ===== src/Params.antt =====
-- server/ctrlsubsonic/params/params.go: typed access to the parameters of a request. This file has
-- the parts that the accessors share; a child has the accessors of one type.
pub mod Lists
pub mod Texts
pub mod Ints
pub mod Floats
pub mod Ids
pub mod Bools
pub mod Times
mod Tests
use gonic.Base.{
  ◌≡◌, refl, Option, none, some, List, [], ◌∷◌, ◌++◌, Str, lookup, insert, if◌then◌else◌, Eq,
  str_key,
}

abbrev pub Params : Type 0
Params = List (Str × List Str)

-- `F` is the error of the parser that an accessor uses.
pub data Error (F : Type 0) : Type 0 where
  no_values : Error F
  invalid : F → Error F

-- A parser returns a value beside its error, as Go's do.
abbrev pub Parser : Type 0 → Type 0 → Type 0
Parser F A = Str → A × Option F

-- `maps.Copy`: the later map wins.
copy : Params → List (Str × List Str) → Params
copy m [] = m
copy m ((k, vs) ∷ form) = copy (insert k vs m) form

-- `form` is `r.Form` if ParseForm succeeded.
pub new : Params → Option Params → Params
unfolding copy
new url none = url
new url (some form) = copy url form

abbrev or_nil : Option (List Str) → List Str
or_nil none = []
or_nil (some vs) = vs

unfoldable pub get : Params → Str → List Str
unfolding lookup
get p key = or_nil (lookup key p)

unfoldable pub get_first : Params → List Str → List Str
unfolding lookup
get_first p [] = []
get_first p (k ∷ keys) = elim (lookup k p) [ some vs ↦ vs | none ↦ get_first p keys ]

module _ {F A : Type 0} (parser : Parser F A) where
  abbrev wrap : A × Option F → A × Option (Error F)
  wrap (a, none) = (a, none)
  wrap (a, some e) = (a, some (invalid e))

  -- The cases `*T` of `parse`; `zero_value` is what the variable holds before.
  unfoldable pub parse : A → List Str → A × Option (Error F)
  parse zero_value [] = (zero_value, some no_values)
  parse zero_value (v ∷ vs) = wrap (parser v)

  -- The cases `*[]T`: a failure leaves the values parsed so far.
  unfoldable pub parse_all : List Str → List A → List A × Option (Error F)
  parse_all [] done = (done, none)
  parse_all (v ∷ vs) done =
      let (a, e) = parser v in
      elim e [ none ↦ parse_all vs (done ++ a ∷ []) | some f ↦ (done, some (invalid f)) ]

  unfoldable pub parse_list : List Str → List A × Option (Error F)
  unfolding parse_all
  parse_list [] = ([], some no_values)
  parse_list (v ∷ vs) = parse_all (v ∷ vs) []

-- `if err == nil { return ret }; return or`
abbrev pub or_else : {F A : Type 0} → A → A × Option (Error F) → A
or_else fallback (a, none) = a
or_else fallback (a, some e) = fallback
