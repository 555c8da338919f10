-- ===== src/Tags/Credits.antt =====
-- tags.go: what `pairCredits` puts together.
use gonic.Base.{
  ℕ, suc, ◌≡◌, ◌≢◌, ◌⊎◌, refl, sym, inl, inr, ◌||◌, ◌==◌, List, [], ◌∷◌, Option, none, some, Str,
  str_eq, str_eq_iff, length, get_elem?, All, In, arith, if◌then◌else◌, Bool-cases,
}
use gonic.Tags.{Credited, credit_at, or_empty, pair_from, pair_credits}

-- A credit has a value of the list, a credited name that is another one, and an id only if there are
-- as many ids as values.
abbrev pub IsCredit : List Str → List Str → Credited → Type 0
IsCredit values ids e =
    (e.value ≢ [])
    × In e.value values
    × (e.value_credit ≢ e.value)
    × ((e.music_brainz_id ≡ []) ⊎ (length ids ≡ length values))

credit_at-differs : (v : Str) (o : Option Str) → v ≢ [] → credit_at v o ≢ v
credit_at-differs v none n e = n (sym e)
credit_at-differs v (some c) n e = elim (Bool-cases (str_eq c [] || str_eq c v)) [
  | inl b ↦ n (sym (rw b at e))
  | inr b ↦ (let q : c ≡ v = rw b at e in absurd (ground (arith, str_eq_iff c v)))
]

module _ (values credits ids : List Str) where
  id-counts :
      (o : Option Str)
      → ((if length ids == length values then or_empty o else []) ≡ [])
        ⊎ (length ids ≡ length values)
  id-counts o = elim (Bool-cases (length ids == length values)) [
    | inl b ↦ inr (ground arith)
    | inr b ↦ inl (rw b refl)
  ]

  pair_from-IsCredit :
      (i : ℕ) (vs : List Str)
      → ((x : Str) → In x vs → In x values)
      → All (IsCredit values ids) (pair_from credits ids (length ids == length values) i vs)
  unfolding pair_from
  pair_from-IsCredit i [] f = tt
  pair_from-IsCredit i (v ∷ vs) f =
      let rest = pair_from-IsCredit (suc i) vs (λ x j. f x (inr j)) in
      elim (Bool-cases (str_eq v [])) [
        | inl b ↦ rw b rest
        | inr b ↦
            let n : v ≢ [] = λ e. absurd (ground (arith, str_eq_iff v [])) in
            rw b (
              (
                n,
                f v (inl refl),
                credit_at-differs v (get_elem? credits i) n,
                id-counts (get_elem? ids i),
              ),
              rest,
            )
      ]

-- Every credit that `pairCredits` makes has one of the values and not an empty one, a credited name
-- that differs from the value, and an id only if there are as many ids as values.
pub pair_credits-IsCredit :
    (values credits ids : List Str) → All (IsCredit values ids) (pair_credits values credits ids)
unfolding pair_credits
pair_credits-IsCredit values credits ids = pair_from-IsCredit values credits ids 0 values (λ x i. i)
