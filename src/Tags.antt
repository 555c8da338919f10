-- ===== src/Tags.antt =====
-- tags/tags.go: the values of a tag, its alternatives, and the credits that they make. The reading
-- of a key, normtag.Values and normtag.Get, is a parameter.
pub mod Read
pub mod Credits
pub mod Specs
mod Tests
use gonic.Base.{
  ℕ, zero, suc, ◌+◌, Bool, true, false, not, ◌||◌, ◌==◌, List, [], ◌∷◌, Option, none, some, map,
  Str, str_eq, has_prefix, trim_space, length, get_elem?, any, if◌then◌else◌,
}

pub record Spec : Type 0 where
  pub multi_key : List Str
  pub key : List Str
  pub multi_key_credit : List Str
  pub key_credit : List Str
  pub key_music_brainz_id : List Str
  pub fallback : Str
  pub valid : Option (Str → Bool)

pub data MultiValueMode : Type 0 where
  no_multi delim multi : MultiValueMode

pub record MultiValueSetting : Type 0 where
  pub mode : MultiValueMode
  pub delimiter : Str

pub record Credited : Type 0 where
  pub value : Str
  pub value_credit : Str
  pub music_brainz_id : Str

abbrev pub valid_or_default : Option (Str → Bool) → Str → Bool
valid_or_default none v = not (str_eq v [])
valid_or_default (some valid) v = valid v

abbrev add_char : ℕ → List Str → List Str
add_char c [] = (c ∷ []) ∷ []
add_char c (s ∷ ss) = (c ∷ s) ∷ ss

-- strings.Split for a separator that is not empty; `skip` counts what is left of one.
split_from : Str → ℕ → Str → List Str
split_from sep skip [] = [] ∷ []
split_from sep (suc skip) (c ∷ s) = split_from sep skip s
split_from sep zero (c ∷ s) = elim (has_prefix (c ∷ s) sep) [
  | true ↦ [] ∷ split_from sep (pred_length sep) s
  | false ↦ add_char c (split_from sep zero s)
]
  where
    pred_length : Str → ℕ
    pred_length [] = zero
    pred_length (x ∷ xs) = length xs

abbrev singles : Str → List Str
singles [] = []
singles (c ∷ s) = (c ∷ []) ∷ singles s

unfoldable pub split : Str → Str → List Str
unfolding split_from
split s [] = singles s
split s (d ∷ sep) = split_from (d ∷ sep) zero s

-- The first of some keys that gives something.
abbrev pub first_of : (Str → Option (List Str)) → List Str → Option (List Str)
first_of f [] = none
first_of f (k ∷ ks) = elim (f k) [ none ↦ first_of f ks | some parts ↦ some parts ]

abbrev pub if_accepted : (Str → Bool) → List Str → Option (List Str)
if_accepted valid parts = if any valid parts then some parts else none

abbrev pub or_else : Option (List Str) → Option (List Str) → Option (List Str)
or_else none o = o
or_else (some parts) o = some parts

abbrev pub parts_of : Option (List Str) → List Str
parts_of none = []
parts_of (some parts) = parts

module _ (tag_values : Str → List Str) (tag_get : Str → Str) where
  abbrev pub delimited : (Str → Bool) → Str → Str → Option (List Str)
  delimited valid delimiter v = if str_eq v [] then none else if_accepted valid (split v delimiter)

  -- The switch of `read` over the mode.
  unfoldable pub chosen :
      List Str → List Str → MultiValueMode → Str → (Str → Bool) → Option (List Str)
  chosen multi_key key multi delimiter valid =
      or_else (first_of (λ k. if_accepted valid (tag_values k)) multi_key)
        (first_of (λ k. if_accepted valid (tag_values k)) key)
  chosen multi_key key delim delimiter valid =
      first_of (λ k. delimited valid delimiter (tag_get k)) key
  chosen multi_key key no_multi delimiter valid =
      first_of (λ k. if_accepted valid (tag_get k ∷ [])) key

  -- The function `read`.
  unfoldable pub read : List Str → List Str → MultiValueSetting → Option (Str → Bool) → List Str
  read multi_key key setting valid =
      map trim_space
        (parts_of (chosen multi_key key setting.mode setting.delimiter (valid_or_default valid)))

  abbrev pub or_fallback : Str → List Str → List Str
  or_fallback fallback [] = if str_eq fallback [] then [] else fallback ∷ []
  or_fallback fallback (v ∷ vs) = v ∷ vs

  abbrev pub setting_or_multi : Option MultiValueSetting → MultiValueSetting
  setting_or_multi none = record { mode = multi; delimiter = [] }
  setting_or_multi (some setting) = setting

  -- `readMulti`, with the setting that the map has for the tag, if any.
  unfoldable pub read_multi : Spec → Option MultiValueSetting → List Str × List Str × List Str
  read_multi spec given =
      let setting = setting_or_multi given in
      (
        or_fallback spec.fallback (read spec.multi_key spec.key setting spec.valid),
        read spec.multi_key_credit spec.key_credit setting none,
        read [] spec.key_music_brainz_id setting none,
      )

  -- `ReadValues`
  unfoldable pub read_values : Spec → Option MultiValueSetting → List Str
  unfolding read_multi
  read_values spec given = (read_multi spec given).0

  abbrev pub single : MultiValueSetting
  single = record { mode = no_multi; delimiter = [] }

  abbrev pub value_or : Str → List Str → Str
  value_or fallback [] = fallback
  value_or fallback (v ∷ vs) = if str_eq v [] then fallback else v

  abbrev pub credit_or_none : Str → List Str → Str
  credit_or_none value [] = []
  credit_or_none value (c ∷ cs) = if str_eq c value then [] else c

  -- The function `Read`.
  unfoldable pub read_one : Spec → Str × Str
  read_one spec =
      let value = value_or spec.fallback (read spec.multi_key spec.key single spec.valid) in
      (value, credit_or_none value (read spec.multi_key_credit spec.key_credit single none))

abbrev pub credit_at : Str → Option Str → Str
credit_at v none = []
credit_at v (some c) = if str_eq c [] || str_eq c v then [] else c

abbrev pub or_empty : Option Str → Str
or_empty none = []
or_empty (some s) = s

-- The loop of `pairCredits` from an index on.
unfoldable pub pair_from : List Str → List Str → Bool → ℕ → List Str → List Credited
pair_from credits ids counts_match i [] = []
pair_from credits ids counts_match i (v ∷ vs) =
    let rest = pair_from credits ids counts_match (suc i) vs in
    if str_eq v []
    then rest
    else record {
      value = v;
      value_credit = credit_at v (get_elem? credits i);
      music_brainz_id = if counts_match then or_empty (get_elem? ids i) else [];
    }
      ∷ rest

-- `pairCredits`
unfoldable pub pair_credits : List Str → List Str → List Str → List Credited
unfolding pair_from
pair_credits values credits ids = pair_from credits ids (length ids == length values) 0 values

-- `ReadCredits`
unfoldable pub read_credits :
    (Str → List Str) → (Str → Str) → Spec → Option MultiValueSetting → List Credited
unfolding read_multi pair_credits
read_credits tag_values tag_get spec given =
    let (values, credits, ids) = read_multi tag_values tag_get spec given in
    pair_credits values credits ids
