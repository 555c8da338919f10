-- ===== src/Base/Map.antt =====
-- Keys with a Boolean equality, and Go maps as association lists.
use Prim.Native.Nat.{ℕ}
use mathlib.Core.Bool.{Bool, true}
use mathlib.Core.List.{List, [], ◌∷◌}
use mathlib.Core.Logic.{◌↔◌}
use mathlib.Core.Option.{Option, none, some}
use mathlib.Core.Path.{◌≡◌, refl}
use native.Mathlib.Omega.{arith}
use gonic.Base.Tests.{◌==◌, if◌then◌else◌}
use gonic.Base.Text.{Str, str_eq, str_eq_iff}
use gonic.Base.Int.{ℤ, int_eq, int_eq_iff}

pub record Eq (K : Type 0) : Type 0 where
  pub same : K → K → Bool
  pub same_iff : (a b : K) → (same a b ≡ true) ↔ (a ≡ b)

pub nat_same_iff : (a b : ℕ) → (a == b ≡ true) ↔ (a ≡ b)
nat_same_iff a b = (λ h. ground arith, λ h. ground arith)

instance abbrev pub nat_key : Eq ℕ
nat_key = record { same = ◌==◌; same_iff = nat_same_iff }

instance abbrev pub str_key : Eq Str
str_key = record { same = str_eq; same_iff = str_eq_iff }

instance abbrev pub int_key : Eq ℤ
int_key = record { same = int_eq; same_iff = int_eq_iff }

module _ {K V : Type 0} ⦃e : Eq K⦄ where
  unfoldable pub lookup : K → List (K × V) → Option V
  lookup k [] = none
  lookup k ((j, v) ∷ m) = if e.same j k then some v else lookup k m

  unfoldable pub insert : K → V → List (K × V) → List (K × V)
  insert k v [] = (k, v) ∷ []
  insert k v ((j, w) ∷ m) = if e.same j k then (k, v) ∷ m else (j, w) ∷ insert k v m

  pub lookup-insert :
      (k j : K) (v : V) (m : List (K × V))
      → lookup j (insert k v m) ≡ (if e.same k j then some v else lookup j m)
  unfolding lookup insert
  lookup-insert k j v [] = refl
  lookup-insert k j v ((i, w) ∷ m) =
      ground (arith, e.same_iff k j, e.same_iff i k, e.same_iff i j, lookup-insert k j v m)
