-- ===== src/Params/Lists.antt =====
-- params.go: which values the keys of a request select, and what `parse` makes of a list of values.
use gonic.Base.{
  ◌≡◌, ◌≢◌, refl, sym, ap, subst, ◌∙◌, inl, inr, Option, none, some, List, [], ◌∷◌, ◌++◌, map,
  append_assoc, append-nil, All, Str, lookup, insert, lookup-insert, Option-cases, Bool-cases, true,
  str_eq, str_eq_iff, str_eq-false, str_key, atoi, in_int, scale, wrap64-in_int, ℤ,
}
use gonic.Specid.{SpecId, to_string}
use gonic.Specid.RoundTrip.{IsWellFormed, new-to_string}
use gonic.Params.{
  Params, Parser, Error, no_values, invalid, new, copy, get, get_first, parse_all, parse_list,
}
use gonic.Params.Ids
use gonic.Params.Times

-- The values of a list of keys: those of the first key that the request has.
pub data FirstOf (p : Params) (keys : List Str) : List Str → Type 0 where
  absent : All (λ k. lookup k p ≡ none) keys → FirstOf p keys []
  found :
      (before behind : List Str) (k : Str) (vs : List Str)
      → keys ≡ before ++ (k ∷ behind)
      → All (λ j. lookup j p ≡ none) before
      → lookup k p ≡ some vs
      → FirstOf p keys vs

FirstOf-cons :
    (p : Params) (k : Str) (keys vs : List Str)
    → lookup k p ≡ none
    → FirstOf p keys vs
    → FirstOf p (k ∷ keys) vs
FirstOf-cons p k keys _ e (absent a) = absent (e, a)
FirstOf-cons p k keys _ e (found before behind j vs q a h) =
    found (k ∷ before) behind j vs (ap (λ l. k ∷ l) q) (e, a) h

-- `getFirst` gives the values under the first of the keys that the request has, whatever stands
-- under the later ones, and no values if it has none of them.
pub get_first-FirstOf : (p : Params) (keys : List Str) → FirstOf p keys (get_first p keys)
unfolding get_first
get_first-FirstOf p [] = absent tt
get_first-FirstOf p (k ∷ keys) = elim (Option-cases (lookup k p)) [
  | inl e ↦
      rw (e, get_first) (FirstOf-cons p k keys (get_first p keys) e (get_first-FirstOf p keys))
  | inr (vs, e) ↦ rw (e, get_first) (found [] keys k vs refl tt e)
]

module _ {F A : Type 0} (parser : Parser F A) where
  -- Each text is parsed, with no error, to the value at its place.
  abbrev Parsed : List Str → List A → Type 0
  Parsed [] [] = Unit
  Parsed [] (a ∷ xs) = ⊥
  Parsed (v ∷ vs) [] = ⊥
  Parsed (v ∷ vs) (a ∷ xs) = (parser v ≡ (a, none)) × Parsed vs xs

  Parsed-append :
      (vs ws : List Str) (xs bs : List A)
      → Parsed vs xs
      → Parsed ws bs
      → Parsed (vs ++ ws) (xs ++ bs)
  Parsed-append [] ws [] bs h k = k
  Parsed-append [] ws (a ∷ xs) bs h k = absurd h
  Parsed-append (v ∷ vs) ws [] bs h k = absurd h
  Parsed-append (v ∷ vs) ws (a ∷ xs) bs (e, h) k = (e, Parsed-append vs ws xs bs h k)

  -- What a list of values is parsed to.
  pub data ParsedAs (vs : List Str) : List A × Option (Error F) → Type 0 where
    nothing : vs ≡ [] → ParsedAs vs ([], some no_values)
    whole : (xs : List A) → vs ≢ [] → Parsed vs xs → ParsedAs vs (xs, none)
    stopped :
        (good : List Str) (v : Str) (rest : List Str) (xs : List A) (f : F)
        → vs ≡ good ++ (v ∷ rest)
        → Parsed good xs
        → (parser v).1 ≡ some f
        → ParsedAs vs (xs, some (invalid f))

  parse_all_step :
      (v : Str) (vs : List Str) (done : List A) (a : A)
      → parser v ≡ (a, none)
      → parse_all parser (v ∷ vs) done ≡ parse_all parser vs (done ++ a ∷ [])
  unfolding parse_all
  parse_all_step v vs done a e = rw (ap (λ r. r.1) e, ap (λ r. r.0) e, parse_all)

  parse_all-ParsedAs :
      (all past vs : List Str) (xs : List A)
      → all ≡ past ++ vs
      → all ≢ []
      → Parsed past xs
      → ParsedAs all (parse_all parser vs xs)
  unfolding parse_all
  parse_all-ParsedAs all past [] xs e n h =
      whole xs n (subst (λ l. Parsed l xs) (sym (e ∙ append-nil past)) h)
  parse_all-ParsedAs all past (v ∷ vs) xs e n h = elim (Option-cases (parser v).1) [
    | inl good ↦
        rw (good, parse_all)
          (parse_all-ParsedAs all (past ++ v ∷ []) vs (xs ++ (parser v).0 ∷ [])
            (e ∙ sym (append_assoc past (v ∷ []) vs)) n
            (Parsed-append past (v ∷ []) xs ((parser v).0 ∷ []) h
              ((λ i. ((parser v).0, good i)), tt)))
    | inr (f, bad) ↦ rw (bad, parse_all) (stopped past v vs xs f e h bad)
  ]

  -- A list is parsed to the values of all its texts, or to those before the first that the parser
  -- refuses, with its error; the empty list gives no values, and an error.
  pub parse_list-ParsedAs : (vs : List Str) → ParsedAs vs (parse_list parser vs)
  unfolding parse_list
  parse_list-ParsedAs [] = nothing refl
  parse_list-ParsedAs (v ∷ vs) = parse_all-ParsedAs (v ∷ vs) [] (v ∷ vs) [] refl (λ h. cc) tt

parse_id-to_string : (i : SpecId) → IsWellFormed i → Ids.parse_id (to_string i) ≡ (i, none)
unfolding Ids.parse_id
parse_id-to_string i w = rw (new-to_string i w)

parse_all-ids :
    (ids done : List SpecId)
    → All IsWellFormed ids
    → parse_all Ids.parse_id (map to_string ids) done ≡ (done ++ ids, none)
parse_all-ids [] done h = unfold parse_all in rw append-nil
parse_all-ids (i ∷ ids) done (w, h) = rw (
  parse_all_step Ids.parse_id (to_string i) (map to_string ids) done i (parse_id-to_string i w),
  parse_all-ids ids (done ++ i ∷ []) h,
  append_assoc,
)

-- A request that lists the texts of well-formed ids is read as those ids, in order.
pub get_list-to_string :
    (p : Params) (key : Str) (i : SpecId) (ids : List SpecId)
    → lookup key p ≡ some (map to_string (i ∷ ids))
    → All IsWellFormed (i ∷ ids)
    → Ids.get_list p key ≡ (i ∷ ids, none)
unfolding Ids.get_list parse_list get
get_list-to_string p key i ids e h = rw e (parse_all-ids (i ∷ ids) [] h)

-- A time given in milliseconds is exact as long as its nanoseconds fit in 64 bits.
pub parse_time-exact :
    (s : Str) (ms : ℤ)
    → atoi s ≡ some ms
    → in_int (scale 1_000_000 ms) ≡ true
    → Times.parse_time s ≡ (Times.unix (scale 1_000_000 ms), none)
unfolding Times.parse_time
parse_time-exact s ms e h = rw (e, wrap64-in_int (scale 1_000_000 ms) h)

abbrev Absent : Str → Params → Type 0
Absent k = All (λ entry. entry.0 ≢ k)

-- No key stands twice, as in a Go map.
abbrev IsMap : Params → Type 0
IsMap [] = Unit
IsMap ((k, vs) ∷ m) = Absent k m × IsMap m

lookup-Absent : (k : Str) (m : Params) → Absent k m → lookup k m ≡ none
unfolding lookup
lookup-Absent k [] h = refl
lookup-Absent k ((j, vs) ∷ m) (n, h) = rw (str_eq-false j k n) (lookup-Absent k m h)

abbrev first_of_maps : Option (List Str) → Option (List Str) → Option (List Str)
first_of_maps (some vs) later = some vs
first_of_maps none later = later

lookup-copy :
    (k : Str) (url form : Params)
    → IsMap form
    → lookup k (copy url form) ≡ first_of_maps (lookup k form) (lookup k url)
unfolding copy lookup
lookup-copy k url [] h = refl
lookup-copy k url ((j, vs) ∷ form) (n, h) =
    rw (lookup-copy k (insert j vs url) form h, lookup-insert j k vs url)
      (elim (Bool-cases (str_eq j k)) [
        | inl q ↦ rw (q, lookup-Absent k form (subst (λ i. Absent i form) ((str_eq_iff j k).0 q) n))
        | inr q ↦ rw q
      ])

-- A parameter is looked up in the form, if ParseForm succeeded and it is there, and else in the URL.
pub lookup-new :
    (k : Str) (url form : Params)
    → IsMap form
    → (lookup k (new url none) ≡ lookup k url)
      × (lookup k (new url (some form)) ≡ first_of_maps (lookup k form) (lookup k url))
unfolding new
lookup-new k url form h = (refl, lookup-copy k url form h)
