-- ===== src/Queues/Items.antt =====
-- db.go: splitIDs takes back what join made.
use gonic.Base.{
  ℕ, ◌+◌, ◌≡◌, ◌≢◌, refl, ap, ◌∙◌, inl, inr, true, List, [], ◌∷◌, ◌++◌, map, Str, str_eq,
  str_eq_iff, int_eq, int_eq_iff, All, All-append, Lacks, ℤ, pos, negsuc, itoa, format_ℕ,
  format-digits, is_digit, arith, Bool-cases,
}
use gonic.FilePath.{split_on}
use gonic.Specid
use gonic.Specid.{SpecId, separator, to_string, new}
use gonic.Specid.RoundTrip.{IsWellFormed, new-to_string}
use gonic.Queues.{comma, join_commas, join_ids, or_zero, split_ids, playable}

module _ (sep : ℕ) where
  split_on-alone : (p : Str) → Lacks sep p → split_on sep p ≡ p ∷ []
  unfolding split_on
  split_on-alone [] h = refl
  split_on-alone (c ∷ p) (n, h) = rw (split_on-alone p h) (ground arith)

  split_on-first : (p s : Str) → Lacks sep p → split_on sep (p ++ sep ∷ s) ≡ p ∷ split_on sep s
  unfolding split_on
  split_on-first [] s h = ground arith
  split_on-first (c ∷ p) s (n, h) = rw (split_on-first p s h) (ground arith)

-- Parts without a comma are split as they were joined.
pub split_on-join_commas :
    (s : Str) (ss : List Str)
    → All (Lacks comma) (s ∷ ss)
    → split_on comma (join_commas (s ∷ ss)) ≡ s ∷ ss
unfolding join_commas
split_on-join_commas s [] (l, h) = split_on-alone comma s l
split_on-join_commas s (t ∷ ss) (l, h) =
    split_on-first comma s (join_commas (t ∷ ss)) l
    ∙ ap (λ ps. s ∷ ps) (split_on-join_commas t ss h)

digits-Lacks : (s : Str) → All (λ c. is_digit c ≡ true) s → Lacks comma s
digits-Lacks [] h = tt
digits-Lacks (c ∷ s) (d, h) = (ground (arith, d), digits-Lacks s h)

itoa-Lacks : (z : ℤ) → Lacks comma (itoa z)
unfolding itoa
itoa-Lacks (pos n) = digits-Lacks (format_ℕ n) (format-digits n)
itoa-Lacks (negsuc n) = (omega arith, digits-Lacks (format_ℕ (n + 1)) (format-digits (n + 1)))

playable-Lacks : (id : SpecId) → playable id ≡ true → Lacks comma id.typ
playable-Lacks id h = elim (Bool-cases (str_eq id.typ Specid.track)) [
  | inl e ↦ rw ((str_eq_iff id.typ Specid.track).0 e) (ground arith)
  | inr e ↦
      let f : str_eq id.typ Specid.podcast_episode ≡ true = ground (arith, e, h) in
      rw ((str_eq_iff id.typ Specid.podcast_episode).0 f) (ground arith)
]

-- An id of a track or an episode, with a value that is not 0, as it comes from a request.
pub record IsPlayable (id : SpecId) : Type 0 where
  pub of_type : playable id ≡ true
  pub well_formed : IsWellFormed id
  pub some_value : id.value ≢ pos 0

to_string-value :
    (id : SpecId) → id.value ≢ pos 0 → to_string id ≡ id.typ ++ separator ∷ itoa id.value
unfolding to_string
to_string-value id n = elim (Bool-cases (int_eq id.value (pos 0))) [
  | inl e ↦ absurd (n ((int_eq_iff id.value (pos 0)).0 e))
  | inr e ↦ rw e refl
]

to_string-Lacks : (id : SpecId) → IsPlayable id → Lacks comma (to_string id)
to_string-Lacks id p = rw (to_string-value id p.some_value) (
    All-append (λ c. c ≢ comma) id.typ (separator ∷ itoa id.value) (playable-Lacks id p.of_type)
      (omega arith, itoa-Lacks id.value))

texts-Lacks : (ids : List SpecId) → All IsPlayable ids → All (Lacks comma) (map to_string ids)
texts-Lacks [] h = tt
texts-Lacks (id ∷ ids) (p, h) = (to_string-Lacks id p, texts-Lacks ids h)

read_back :
    (ids : List SpecId) → All IsPlayable ids → map (λ p. or_zero (new p)) (map to_string ids) ≡ ids
read_back [] h = refl
read_back (id ∷ ids) (p, h) =
    ap (λ r. or_zero r ∷ map (λ p. or_zero (new p)) (map to_string ids))
      (new-to_string id p.well_formed)
    ∙ ap (λ l. id ∷ l) (read_back ids h)

split_ids-some : (s : Str) → s ≢ [] → split_ids s ≡ map (λ p. or_zero (new p)) (split_on comma s)
unfolding split_ids
split_ids-some [] n = absurd (n refl)
split_ids-some (c ∷ s) n = refl

join_commas-some : (s : Str) (ss : List Str) → s ≢ [] → join_commas (s ∷ ss) ≢ []
unfolding join_commas
join_commas-some [] ss n = absurd (n refl)
join_commas-some (c ∷ s) [] n = λ e. cc e
join_commas-some (c ∷ s) (t ∷ ss) n = λ e. cc e

append-some : (p s : Str) (c : ℕ) → p ++ c ∷ s ≢ []
append-some [] s c = λ e. cc e
append-some (d ∷ p) s c = λ e. cc e

to_string-some : (id : SpecId) → IsPlayable id → to_string id ≢ []
to_string-some id p =
    rw (to_string-value id p.some_value) (append-some id.typ (itoa id.value) separator)

-- The ids that were joined are split again.
pub split-join_ids : (ids : List SpecId) → All IsPlayable ids → split_ids (join_ids ids) ≡ ids
unfolding join_ids
split-join_ids [] h = (unfold split_ids join_commas in refl)
split-join_ids (id ∷ ids) (p, h) =
    split_ids-some (join_commas (map to_string (id ∷ ids)))
      (join_commas-some (to_string id) (map to_string ids) (to_string-some id p))
    ∙ ap (map (λ p. or_zero (new p)))
        (split_on-join_commas (to_string id) (map to_string ids) (texts-Lacks (id ∷ ids) (p, h)))
    ∙ read_back (id ∷ ids) (p, h)
