-- ===== src/Params/Tests.antt =====
-- Runs of params.go, and its theorems at a concrete request.
use gonic.Base.{
  ◌≡◌, refl, inl, inr, some, [], ◌∷◌, codes, str_eq, atoi, atoi_value, read_digits, read_uint, ℤ,
  pos, str_key, in_int, true, arith, ℕ, suc,
}
use gonic.Specid.{SpecId, track}
use gonic.Specid.RoundTrip.{IsWellFormed}
use gonic.Params.{Params, invalid, get, parse_list}
use gonic.Params.Ints

abbrev track_id : ℤ → SpecId
track_id n = record { typ = track; value = n; string_value = [] }

track_id-IsWellFormed :
    (n : ℕ) → in_int (pos (suc n)) ≡ true → IsWellFormed (track_id (pos (suc n)))
track_id-IsWellFormed n h = inl (inr (inr (inl refl)), (λ e. ground arith), h, refl)

abbrev request : Params
request =
    (codes "id", codes "tr-1" ∷ codes "tr-2" ∷ [])
    ∷ (codes "position", codes "3" ∷ codes "x" ∷ codes "4" ∷ [])
    ∷ []

abbrev posted : Params
posted = (codes "id", codes "tr-9" ∷ []) ∷ []

-- The values before a bad one come back beside the error.
position_list : Ints.get_list request (codes "position") ≡ (pos 3 ∷ [], some (invalid tt))
unfolding Ints.get_list Ints.parse_int parse_list get str_eq atoi atoi_value read_digits read_uint
position_list = refl
