-- ===== src/Tags/Read.antt =====
-- tags.go: which alternative is read, and a tag that is blank.
use gonic.Base.{
  ◌≡◌, ◌≢◌, refl, ap, ◌∙◌, List, [], ◌∷◌, Option, none, some, map, Str, str_eq-false, str_eq_refl,
  trim_space,
}
use gonic.Tags.{
  Spec, multi, no_multi, valid_or_default, first_of, if_accepted, parts_of, chosen, read,
  read_multi, read_credits, read_one, pair_credits, pair_from,
}

first_of-here :
    (f : Str → Option (List Str)) (k : Str) (ks parts : List Str)
    → f k ≡ some parts
    → first_of f (k ∷ ks) ≡ some parts
first_of-here f k ks parts e = rw (first_of, e) refl

module _ (tag_values : Str → List Str) (tag_get : Str → Str) (k w : Str) (ks : List Str)
    (n : w ≢ []) (blank : trim_space w ≡ []) where
  accepted_blank : if_accepted (valid_or_default none) (w ∷ []) ≡ some (w ∷ [])
  accepted_blank = rw (str_eq-false w [] n) refl

  trimmed_blank :
      (o : Option (List Str)) → o ≡ some (w ∷ []) → map trim_space (parts_of o) ≡ [] ∷ []
  trimmed_blank o e = rw (e, blank) refl

  read_blank-multi :
      tag_values k ≡ w ∷ []
      → read tag_values tag_get [] (k ∷ ks) (record { mode = multi; delimiter = [] }) none ≡ [] ∷ []
  unfolding read chosen
  read_blank-multi vs = trimmed_blank _ (
      first_of-here (λ j. if_accepted (valid_or_default none) (tag_values j)) k ks (w ∷ [])
        (ap (if_accepted (valid_or_default none)) vs ∙ accepted_blank))

  read_blank-single :
      tag_get k ≡ w
      → read tag_values tag_get [] (k ∷ ks) (record { mode = no_multi; delimiter = [] }) none
        ≡ [] ∷ []
  unfolding read chosen
  read_blank-single g = trimmed_blank _ (
      first_of-here (λ j. if_accepted (valid_or_default none) (tag_get j ∷ [])) k ks (w ∷ [])
        (ap (λ v. if_accepted (valid_or_default none) (v ∷ [])) g ∙ accepted_blank))

-- A tag that is there, but blank, keeps the fallback from being used where many values are read, and
-- no credit is made, while the reading of one value gives the fallback.
pub blank_tag :
    (tag_values : Str → List Str) (tag_get : Str → Str) (spec : Spec) (k w : Str) (ks : List Str)
    → spec.multi_key ≡ []
    → spec.key ≡ k ∷ ks
    → spec.valid ≡ none
    → tag_values k ≡ w ∷ []
    → tag_get k ≡ w
    → w ≢ []
    → trim_space w ≡ []
    → (read_credits tag_values tag_get spec none ≡ [])
      × ((read_one tag_values tag_get spec).0 ≡ spec.fallback)
unfolding read_credits read_multi read_one pair_credits pair_from
blank_tag tag_values tag_get spec k w ks mk key valid vs g n blank = (
  rw (mk, key, valid, read_blank-multi tag_values tag_get k w ks n blank vs, str_eq_refl []) refl,
  rw (mk, key, valid, read_blank-single tag_values tag_get k w ks n blank g, str_eq_refl []) refl,
)
