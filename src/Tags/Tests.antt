-- ===== src/Tags/Tests.antt =====
-- Runs of tags.go, and its theorems at concrete tags.
use gonic.Base.{◌≡◌, refl, List, [], ◌∷◌, none, Str, codes, str_eq, has_prefix, All}
use gonic.Tags.{Spec, split, pair_credits, pair_from}
use gonic.Tags.Credits.{IsCredit, pair_credits-IsCredit}

abbrev genre : Spec
genre = record {
  multi_key = [];
  key = codes "genre" ∷ [];
  multi_key_credit = [];
  key_credit = [];
  key_music_brainz_id = [];
  fallback = codes "Unknown Genre";
  valid = none;
}

abbrev blank_values : Str → List Str
blank_values k = codes " " ∷ []

abbrev blank : Str → Str
blank k = codes " "

split_run : split (codes "a; b; c") (codes "; ") ≡ codes "a" ∷ codes "b" ∷ codes "c" ∷ []
unfolding split has_prefix
split_run = refl

abbrev names : List Str
names = codes "A" ∷ [] ∷ codes "B" ∷ []

pair_run :
    pair_credits names (codes "A" ∷ codes "x" ∷ codes "Bee" ∷ []) (codes "id" ∷ [])
    ≡ record { value = codes "A"; value_credit = []; music_brainz_id = [] }
      ∷ record { value = codes "B"; value_credit = codes "Bee"; music_brainz_id = [] }
      ∷ []
unfolding pair_credits pair_from str_eq
pair_run = refl

pair_credits-IsCredit_example :
    All (IsCredit names (codes "id" ∷ [])) (pair_credits names (codes "A" ∷ []) (codes "id" ∷ []))
pair_credits-IsCredit_example = pair_credits-IsCredit names (codes "A" ∷ []) (codes "id" ∷ [])
