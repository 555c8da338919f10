-- ===== src/Fileutil/Names.antt =====
-- fileutil.go: the names that `Safe` and `Unique` make.
use gonic.Base.{
  subst, ltb, ℕ, zero, suc, ◌+◌, ◌-◌, ◌≤◌, ◌<◌, min, ◌≡◌, true, not, ◌&&◌, [], ◌∷◌, ◌++◌, none,
  some, arith, ok, Str, All, All-append, length, length-append, take, keep, any, Bool-cases, inl,
  inr, ◌==◌,
}
use native.Mathlib.Nat.{add-zero}
use gonic.FilePath.{slash, ext, ext_step}
use gonic.Fileutil.{
  allowed, max_filename_length, shorten, safe, Stat, found, missing, candidate, unique_from, unique,
}

abbrev pub IsAllowed : Str → Type 0
IsAllowed = All (λ c. allowed c ≡ true)

keep-IsAllowed : (s : Str) → IsAllowed (keep allowed s)
keep-IsAllowed [] = tt
keep-IsAllowed (c ∷ s) = elim (Bool-cases (allowed c)) [
  | inl e ↦ rw e (e, keep-IsAllowed s)
  | inr e ↦ rw e (keep-IsAllowed s)
]

length-ext_step :
    (c : ℕ) (s e : Str) → length e ≤ length s → length (ext_step c s e) ≤ suc (length s)
unfolding ext_step
length-ext_step c s [] h = ground arith
length-ext_step c s (d ∷ e) h = omega arith

length-ext-le : (s : Str) → length (ext s) ≤ length s
unfolding ext
length-ext-le [] = omega arith
length-ext-le (c ∷ s) = length-ext_step c s (ext s) (length-ext-le s)

ext_step-IsAllowed :
    (c : ℕ) (s e : Str) → IsAllowed (c ∷ s) → IsAllowed e → IsAllowed (ext_step c s e)
unfolding ext_step
ext_step-IsAllowed c s (d ∷ e) h k = k
ext_step-IsAllowed c s [] h k = elim (Bool-cases (c == b'.' && not (any (λ d. d == slash) s))) [
  | inl e ↦ rw e h
  | inr e ↦ rw e tt
]

ext-IsAllowed : (s : Str) → IsAllowed s → IsAllowed (ext s)
unfolding ext
ext-IsAllowed [] h = tt
ext-IsAllowed (c ∷ s) h = ext_step-IsAllowed c s (ext s) h (ext-IsAllowed s h.1)

take-IsAllowed : (n : ℕ) (s : Str) → IsAllowed s → IsAllowed (take n s)
take-IsAllowed zero s h = tt
take-IsAllowed (suc n) [] h = tt
take-IsAllowed (suc n) (c ∷ s) h = (h.0, take-IsAllowed n s h.1)

length-take : (n : ℕ) (s : Str) → n ≤ length s → length (take n s) ≡ n
length-take zero s h = omega arith
length-take (suc n) [] h = omega arith
length-take (suc n) (c ∷ s) h = omega (arith, length-take n s (omega arith))

shorten_fits :
    (name e : Str)
    → length e ≤ length name
    → length e ≤ max_filename_length
    → IsAllowed name
    → IsAllowed e
    → (r : Str) × (shorten name e ≡ some r)
      × (length r ≡ min max_filename_length (length name))
      × IsAllowed r
shorten_fits name e le fits h k =
    let kept = min max_filename_length (length name) - length e in
    (
      take kept name ++ e,
      ground arith,
      omega (arith, length-append (take kept name) e, length-take kept name (omega arith)),
      All-append _ (take kept name) e (take-IsAllowed kept name h) k,
    )

shorten-IsAllowed :
    (name e r : Str) → shorten name e ≡ some r → IsAllowed name → IsAllowed e → IsAllowed r
shorten-IsAllowed name e r h k l =
    let room = min max_filename_length (length name) in
    elim (Bool-cases (ltb room (length e))) [
      | inl q ↦ (let n : none ≡ some r = rw q at h in cc n)
      | inr q ↦
          (let n : some (take (room - length e) name ++ e) ≡ some r = rw q at h in
            let m : take (room - length e) name ++ e ≡ r = cc n in
            subst IsAllowed m (
              All-append _ (take (room - length e) name) e (take-IsAllowed (room - length e) name k)
                l))
    ]

pub safe-IsAllowed : (filename r : Str) → safe filename ≡ some r → IsAllowed r
unfolding safe
safe-IsAllowed filename r h =
    let name = keep allowed filename in
    shorten-IsAllowed name (ext name) r h (keep-IsAllowed filename)
      (ext-IsAllowed name (keep-IsAllowed filename))

-- If the extension of the cleaned name has at most 200 characters, `Safe` gives a name of at most
-- 200 characters, as long as the cleaned name if that fits, and of letters, digits, `_` and `.`.
pub safe_fits :
    (filename : Str)
    → let name = keep allowed filename in
      length (ext name) ≤ max_filename_length
      → (r : Str) × (safe filename ≡ some r)
        × (length r ≡ min max_filename_length (length name))
        × IsAllowed r
unfolding safe
safe_fits filename h =
    let name = keep allowed filename in
    shorten_fits name (ext name) (length-ext-le name) h (keep-IsAllowed filename)
      (ext-IsAllowed name (keep-IsAllowed filename))

-- `Safe` panics on every name whose cleaned form has an extension of more than 200 characters: the
-- extension is taken off a name that was cut to 200 characters.
pub safe_panics :
    (filename : Str)
    → max_filename_length < length (ext (keep allowed filename))
    → safe filename ≡ none
unfolding safe
safe_panics filename h = ground arith

module _ {E : Type 0} (stat : Str → Stat E) (base filename : Str) where
  -- The candidates of `n` rounds are all there.
  abbrev pub AllFound : ℕ → ℕ → Type 0
  AllFound count zero = Unit
  AllFound count (suc n) = (stat (candidate base filename count) ≡ found) × AllFound (count + 1) n

  unique_from_finds :
      (fuel n count : ℕ)
      → n < fuel
      → AllFound count n
      → stat (candidate base filename (count + n)) ≡ missing
      → unique_from stat fuel base filename count ≡ some (ok (candidate base filename (count + n)))
  unfolding unique_from
  unique_from_finds zero n count h a e = elim h [ ]
  unique_from_finds (suc fuel) zero count h a e = rw add-zero (
      let e' : stat (candidate base filename count) ≡ missing = rw add-zero at e in
      rw (e', unique_from))
  unique_from_finds (suc fuel) (suc n) count h (f, a) e =
      let q : count + suc n ≡ count + 1 + n = omega arith in
      rw (f, unique_from) (rw q (unique_from_finds fuel n (count + 1) (omega arith) a (rw q at e)))

  -- `Unique` gives the first candidate that is missing: the name itself, then with ` (1)` and so
  -- on; with more fuel than candidates that are there it does not run out.
  pub unique_finds :
      (fuel n : ℕ)
      → n < fuel
      → AllFound 0 n
      → stat (candidate base filename n) ≡ missing
      → unique stat fuel base filename ≡ some (ok (candidate base filename n))
  unfolding unique
  unique_finds fuel n h a e =
      let q : 0 + n ≡ n = omega arith in rw (← q) (unique_from_finds fuel n 0 h a (rw q e))
