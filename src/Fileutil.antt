-- ===== src/Fileutil.antt =====
-- fileutil/fileutil.go: paths that stay within a directory, and names that are fit for a file.
pub mod Join
pub mod Names
mod Tests
use gonic.Base.{
  ℕ, zero, suc, ◌+◌, ◌-◌, min, Bool, true, false, ◌&&◌, ◌||◌, List, [], ◌∷◌, ◌++◌, Option, none,
  some, Result, ok, err, Str, codes, str_eq, has_prefix, format_ℕ, keep, take, length, ltb, leb,
  ◌==◌, if◌then◌else◌,
}
use gonic.FilePath.{slash, clean, join, ext}

pub data Error : Type 0 where
  escapes_base : Error

-- `HasPrefix`
unfoldable pub within : Str → Str → Bool
within p prefix = str_eq p prefix || has_prefix p (clean prefix ++ slash ∷ [])

-- `SafeJoin`
unfoldable pub safe_join : Str → Str → Result Error Str
safe_join base rel = let abs = join base rel in if within abs base then ok abs else err escapes_base

-- The characters that `nonAlphaNumExpr` leaves.
abbrev pub allowed : ℕ → Bool
allowed c =
    (leb b'a' c && leb c b'z')
    || (leb b'A' c && leb c b'Z')
    || (leb b'0' c && leb c b'9')
    || c == b'_'
    || c == b'.'

abbrev pub max_filename_length : ℕ
max_filename_length = 200

abbrev shorten : Str → Str → Option Str
shorten name e =
    let room = min max_filename_length (length name) in
    if ltb room (length e) then none else some (take (room - length e) name ++ e)

-- `Safe`; `none` is the panic of a slice that ends before its start.
unfoldable pub safe : Str → Option Str
safe filename = let name = keep allowed filename in shorten name (ext name)

-- What os.Stat says of a path.
pub data Stat (E : Type 0) : Type 0 where
  found missing : Stat E
  failed : E → Stat E

-- The path that `unique` tries in round `count`.
unfoldable pub candidate : Str → Str → ℕ → Str
candidate base filename count =
    let suffix = if count == 0 then [] else codes " (" ++ format_ℕ count ++ codes ")" in
    let e = ext filename in
    if str_eq filename []
    then base ++ suffix
    else join base (take (length filename - length e) filename ++ suffix ++ e)

module _ {E : Type 0} (stat : Str → Stat E) where
  -- `unique` on fuel: `none` if it runs out, else its result.
  unfoldable pub unique_from : ℕ → Str → Str → ℕ → Option (Result E Str)
  unique_from zero base filename count = none
  unique_from (suc fuel) base filename count =
      let path = candidate base filename count in
      elim (stat path) [
        | missing ↦ some (ok path)
        | failed e ↦ some (err e)
        | found ↦ unique_from fuel base filename (count + 1)
      ]

  -- `Unique`
  unfoldable pub unique : ℕ → Str → Str → Option (Result E Str)
  unfolding unique_from
  unique fuel base filename = unique_from fuel base filename 0

  -- `First` keeps the last error; on no paths it returns the empty path and no error.
  unfoldable pub first_from : List Str → Option (Stat E) → Str × Option (Stat E)
  first_from [] last = ([], last)
  first_from (p ∷ ps) last = elim (stat p) [
    | found ↦ (p, none)
    | missing ↦ first_from ps (some missing)
    | failed e ↦ first_from ps (some (failed e))
  ]
