-- ===== src/Specid/RoundTrip.antt =====
-- ids.go: what `New` accepts, and `New` against `String`.
use gonic.Base.{
  ◌≡◌, ◌≢◌, ◌⊎◌, inl, inr, refl, ap, ◌∙◌, true, false, Option, none, some, [], ◌∷◌, ◌++◌, arith,
  Result, ok, err, Str, codes, str_eq, str_eq_iff, str_eq-false, cut, cut-append, cut_sound,
  cut-none, Lacks, ℤ, pos, atoi, itoa, in_int, atoi-itoa, atoi-in_int, read_digits, subst, int_eq,
  int_eq_iff, Option-cases, Bool-cases,
}
use gonic.Specid.{
  Error, bad_separator, not_an_int, bad_prefix, Idt, SpecId, artist, album, track, podcast,
  podcast_episode, internet_radio_station, playlist, collection, separator, numeric_id, with_value,
  of_parts, new, to_string,
}

-- The types whose value is a number.
abbrev pub IsNumeric : Idt → Type 0
IsNumeric t =
    (t ≡ artist)
    ⊎ (t ≡ album)
    ⊎ (t ≡ track)
    ⊎ (t ≡ podcast)
    ⊎ (t ≡ podcast_episode)
    ⊎ (t ≡ internet_radio_station)
    ⊎ (t ≡ collection)

-- An id that stands for something: a numeric one with a value that is an int and not 0, or a
-- playlist with a text.
abbrev pub IsWellFormed : SpecId → Type 0
IsWellFormed i =
    (IsNumeric i.typ × (i.value ≢ pos 0) × (in_int i.value ≡ true) × (i.string_value ≡ []))
    ⊎ ((i.typ ≡ playlist) × (i.value ≡ pos 0) × (i.string_value ≢ []))

numeric_id-IsNumeric :
    (t : Str) (v : ℤ)
    → IsNumeric t
    → numeric_id t v ≡ ok (record { typ = t; value = v; string_value = [] })
unfolding numeric_id str_eq
numeric_id-IsNumeric t v (inl e) = rw e
numeric_id-IsNumeric t v (inr (inl e)) = rw e
numeric_id-IsNumeric t v (inr (inr (inl e))) = rw e
numeric_id-IsNumeric t v (inr (inr (inr (inl e)))) = rw e
numeric_id-IsNumeric t v (inr (inr (inr (inr (inl e))))) = rw e
numeric_id-IsNumeric t v (inr (inr (inr (inr (inr (inl e)))))) = rw e
numeric_id-IsNumeric t v (inr (inr (inr (inr (inr (inr e)))))) = rw e

numeric_id_cases :
    (t : Str) (v : ℤ)
    → (IsNumeric t × (numeric_id t v ≡ ok (record { typ = t; value = v; string_value = [] })))
      ⊎ ((¬ IsNumeric t) × (numeric_id t v ≡ err bad_prefix))
unfolding numeric_id
numeric_id_cases t v = ground (
  arith,
  str_eq_iff t artist,
  str_eq_iff t album,
  str_eq_iff t track,
  str_eq_iff t podcast,
  str_eq_iff t podcast_episode,
  str_eq_iff t internet_radio_station,
  str_eq_iff t collection,
)

-- What the text of an id stands for, each error included.
pub data Reads (s : Str) : Result Error SpecId → Type 0 where
  no_separator : Lacks separator s → Reads s (err bad_separator)
  names_playlist :
      (v : Str)
      → s ≡ playlist ++ separator ∷ v
      → Reads s (ok (record { typ = playlist; value = pos 0; string_value = v }))
  no_number :
      (t v : Str)
      → s ≡ t ++ separator ∷ v
      → Lacks separator t
      → t ≢ playlist
      → atoi v ≡ none
      → Reads s (err not_an_int)
  no_type :
      (t v : Str) (n : ℤ)
      → s ≡ t ++ separator ∷ v
      → Lacks separator t
      → t ≢ playlist
      → atoi v ≡ some n
      → ¬ IsNumeric t
      → Reads s (err bad_prefix)
  names_number :
      (t v : Str) (n : ℤ)
      → s ≡ t ++ separator ∷ v
      → atoi v ≡ some n
      → IsNumeric t
      → Reads s (ok (record { typ = t; value = n; string_value = [] }))

with_value-Reads :
    (s t v : Str) (o : Option ℤ)
    → s ≡ t ++ separator ∷ v
    → Lacks separator t
    → t ≢ playlist
    → atoi v ≡ o
    → Reads s (with_value t o)
with_value-Reads s t v none e l p a = no_number t v e l p a
with_value-Reads s t v (some n) e l p a = elim (numeric_id_cases t n) [
  | inl (h, q) ↦ rw q (names_number t v n e a h)
  | inr (h, q) ↦ rw q (no_type t v n e l p a h)
]

of_parts-Reads : (s t v : Str) → s ≡ t ++ separator ∷ v → Lacks separator t → Reads s (of_parts t v)
of_parts-Reads s t v e l = elim (Bool-cases (str_eq t playlist)) [
  | inl h ↦
      rw h ((names_playlist v (e ∙ ap (λ x. x ++ separator ∷ v) ((str_eq_iff t playlist).0 h))))
  | inr h ↦
      rw h (with_value-Reads s t v (atoi v) e l (λ p. ground (arith, str_eq_iff t playlist)) refl)
]

-- `New` gives what the text stands for, and for a text that stands for no id the error that says
-- why, tried in the order: no separator, no number, no type.
pub new-Reads : (s : Str) → Reads s (new s)
unfolding new
new-Reads s = elim (Option-cases (cut s separator)) [
  | inl e ↦ rw (e, new) (no_separator (cut-none s separator e))
  | inr ((t, v), e) ↦
      let (q, l) = cut_sound s t v separator e in rw (e, new) (of_parts-Reads s t v q l)
]

new_parts : (t v : Str) → Lacks separator t → new (t ++ separator ∷ v) ≡ of_parts t v
unfolding new
new_parts t v l = rw (cut-append t v separator l, new)

numeric-Lacks : (t : Str) → IsNumeric t → Lacks separator t × (str_eq t playlist ≡ false)
unfolding str_eq
numeric-Lacks t (inl e) = rw e (omega arith, refl)
numeric-Lacks t (inr (inl e)) = rw e (omega arith, refl)
numeric-Lacks t (inr (inr (inl e))) = rw e (omega arith, refl)
numeric-Lacks t (inr (inr (inr (inl e)))) = rw e (omega arith, refl)
numeric-Lacks t (inr (inr (inr (inr (inl e))))) = rw e (omega arith, refl)
numeric-Lacks t (inr (inr (inr (inr (inr (inl e)))))) = rw e (omega arith, refl)
numeric-Lacks t (inr (inr (inr (inr (inr (inr e)))))) = rw e (omega arith, refl)

module _ (t : Str) (v : ℤ) (s : Str) where
  fields : SpecId
  fields = record { typ = t; value = v; string_value = s }

  round_trip_number :
      IsNumeric t → v ≢ pos 0 → in_int v ≡ true → s ≡ [] → new (to_string fields) ≡ ok fields
  unfolding fields to_string
  round_trip_number n z r e = elim (Bool-cases (int_eq v (pos 0))) [
    | inl h ↦ absurd (z ((int_eq_iff v (pos 0)).0 h))
    | inr h ↦ rw (
      h,
      new_parts t (itoa v) (numeric-Lacks t n).0,
      (numeric-Lacks t n).1,
      atoi-itoa v r,
      numeric_id-IsNumeric t v n,
      e,
    )
  ]

  round_trip_text : t ≡ playlist → v ≡ pos 0 → s ≢ [] → new (to_string fields) ≡ ok fields
  unfolding fields to_string int_eq str_eq
  round_trip_text p z n = rw (p, z, str_eq-false s [] n, new_parts playlist s (omega arith))

-- A well-formed id is read back from its text.
pub new-to_string : (i : SpecId) → IsWellFormed i → new (to_string i) ≡ ok i
unfolding fields
new-to_string i (inl (n, z, r, e)) = round_trip_number i.typ i.value i.string_value n z r e
new-to_string i (inr (t, z, v)) = round_trip_text i.typ i.value i.string_value t z v

abbrev IsStable : Result Error SpecId → Type 0
IsStable (err e) = Unit
IsStable (ok i) = (new (to_string i) ≡ ok i) ⊎ (to_string i ≡ codes "-1")

Reads-IsStable : (s : Str) (r : Result Error SpecId) → Reads s r → IsStable r
unfolding to_string int_eq str_eq fields
Reads-IsStable s _ (no_separator l) = tt
Reads-IsStable s _ (names_playlist [] e) = inr refl
Reads-IsStable s _ (names_playlist (c ∷ v) e) =
    inl (round_trip_text playlist (pos 0) (c ∷ v) refl refl (λ h. cc))
Reads-IsStable s _ (no_number t v e l p a) = tt
Reads-IsStable s _ (no_type t v n e l p a h) = tt
Reads-IsStable s _ (names_number t v n e a h) = elim (Bool-cases (int_eq n (pos 0))) [
  | inl z ↦ inr (rw z)
  | inr z ↦ inl (
      round_trip_number t n [] h (λ q. ground (arith, int_eq_iff n (pos 0))) (atoi-in_int v n a)
        refl)
]

-- The text of an id that `New` gave is read as that id again, unless it is `-1`, the text of the
-- ids with nothing in them, which `New` refuses as an unknown type.
pub new-to_string-new :
    (s : Str) (i : SpecId)
    → new s ≡ ok i
    → ((new (to_string i) ≡ ok i) ⊎ (to_string i ≡ codes "-1"))
      × (new (codes "-1") ≡ err bad_prefix)
unfolding new numeric_id cut str_eq atoi read_digits
new-to_string-new s i h = (subst IsStable h (Reads-IsStable s (new s) (new-Reads s)), refl)
