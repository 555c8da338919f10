-- ===== src/Texttree/Cycles.antt =====
-- texttree.go: the walk of `checkCycle` up the tree ends, and finds every cycle.
use gonic.Base.{
  ℕ, zero, suc, ◌+◌, ◌≤◌, ◌<◌, ◌≡◌, ◌≢◌, ◌↔◌, refl, sym, ap, subst, ◌∙◌, inl, inr, true, false, not,
  List, [], ◌∷◌, none, some, ok, err, arith, Str, str_eq, str_eq_iff, str_key, lookup, length,
  length-keep-le, keep, All, Option-cases, Bool-cases,
}
use gonic.Texttree.{cycle, has, check_from, check_cycle}

All-has :
    (P : Str → Type 0) (c : Str) (visited : List Str) → All P visited → has c visited ≡ true → P c
All-has P c [] h e = cc
All-has P c (v ∷ visited) (pv, h) e = elim (Bool-cases (str_eq v c)) [
  | inl q ↦ subst P ((str_eq_iff v c).0 q) pv
  | inr q ↦ All-has P c visited h (rw q at e)
]

-- The entries of a map whose key is not in a list.
abbrev unvisited : List Str → List (Str × Str) → ℕ
unvisited visited m = length (keep (λ e. not (has e.0 visited)) m)

unvisited_le :
    (c : Str) (visited : List Str) (m : List (Str × Str))
    → unvisited (c ∷ visited) m ≤ unvisited visited m
unvisited_le c visited [] = ground arith
unvisited_le c visited (e ∷ m) = ground (arith, unvisited_le c visited m)

unvisited_lt :
    (c p : Str) (visited : List Str) (m : List (Str × Str))
    → lookup c m ≡ some p
    → has c visited ≡ false
    → unvisited (c ∷ visited) m < unvisited visited m
unfolding lookup
unvisited_lt c p visited [] h n = cc
unvisited_lt c p visited ((k, q) ∷ m) h n =
    ground
      (arith, unvisited_lt c p visited m, unvisited_le c visited m, str_eq_iff k c, str_eq_iff c k)

module _ (parents : List (Str × Str)) where
  -- The walk up from a name leaves the tree after so many steps.
  abbrev pub RootedIn : ℕ → Str → Type 0
  RootedIn zero cur = lookup cur parents ≡ none
  RootedIn (suc n) cur = (p : Str) × (lookup cur parents ≡ some p) × RootedIn n p

  RootedIn-same : (n m : ℕ) (cur : Str) → RootedIn n cur → RootedIn m cur → n ≡ m
  RootedIn-same zero zero cur h k = refl
  RootedIn-same zero (suc m) cur h (q, k, _) = (let e : none ≡ some q = sym h ∙ k in cc e)
  RootedIn-same (suc n) zero cur (p, h, _) k = (let e : none ≡ some p = sym k ∙ h in cc e)
  RootedIn-same (suc n) (suc m) cur (p, h, r) (q, k, s) =
      let e : some p ≡ some q = sym h ∙ k in
      let e' : p ≡ q = cc e in ap suc (RootedIn-same n m q (subst (λ x. RootedIn n x) e' r) s)

  module _ (fuel : ℕ) (visited : List Str) (cur : Str) where
    step-seen :
        has cur visited ≡ true → check_from parents (suc fuel) visited cur ≡ some (err (cycle cur))
    unfolding check_from
    step-seen v = rw (check_from, v) refl

    step-root :
        has cur visited ≡ false
        → lookup cur parents ≡ none
        → check_from parents (suc fuel) visited cur ≡ some (ok tt)
    unfolding check_from
    step-root v n = rw (check_from, v, n) refl

    step-up :
        (p : Str)
        → has cur visited ≡ false
        → lookup cur parents ≡ some p
        → check_from parents (suc fuel) visited cur ≡ check_from parents fuel (cur ∷ visited) p
    unfolding check_from
    step-up p v n = rw (check_from, v, n) refl

  check_from-returns :
      (fuel : ℕ) (visited : List Str) (cur : Str)
      → unvisited visited parents < fuel
      → check_from parents fuel visited cur ≢ none
  check_from-returns zero visited cur h e = omega arith
  check_from-returns (suc fuel) visited cur h e = elim (Bool-cases (has cur visited)) [
    | inl v ↦ (let q : none ≡ some (err (cycle cur)) = sym e ∙ step-seen fuel visited cur v in cc q)
    | inr v ↦ elim (Option-cases (lookup cur parents)) [
      | inl n ↦ (let q : none ≡ some (ok tt) = sym e ∙ step-root fuel visited cur v n in cc q)
      | inr (p, n) ↦
          check_from-returns fuel (cur ∷ visited) p
            (omega (arith, unvisited_lt cur p visited parents n v, h))
            (sym (step-up fuel visited cur p v n) ∙ e)
    ]
  ]

  check_from-RootedIn :
      (fuel : ℕ) (visited : List Str) (cur : Str)
      → check_from parents fuel visited cur ≡ some (ok tt)
      → (d : ℕ) × RootedIn d cur
  unfolding check_from
  check_from-RootedIn zero visited cur h = cc
  check_from-RootedIn (suc fuel) visited cur h = elim (Bool-cases (has cur visited)) [
    | inl v ↦
        (let q : some (err (cycle cur)) ≡ some (ok tt) = sym (step-seen fuel visited cur v) ∙ h in
          cc q)
    | inr v ↦ elim (Option-cases (lookup cur parents)) [
      | inl n ↦ (zero, n)
      | inr (p, n) ↦
          let (d, r) =
            check_from-RootedIn fuel (cur ∷ visited) p (sym (step-up fuel visited cur p v n) ∙ h) in
          (suc d, (p, n, r))
    ]
  ]

  -- The names on the way are further from the root than the name that the walk has reached.
  abbrev Deeper : ℕ → Str → Type 0
  Deeper d v = (m : ℕ) × (d < m) × RootedIn m v

  Deeper-All : (d : ℕ) (vs : List Str) → All (Deeper (suc d)) vs → All (Deeper d) vs
  Deeper-All d [] h = tt
  Deeper-All d (v ∷ vs) ((m, l, r), h) = ((m, omega arith, r), Deeper-All d vs h)

  unseen :
      (visited : List Str) (cur : Str) (d : ℕ)
      → RootedIn d cur
      → All (Deeper d) visited
      → has cur visited ≡ false
  unseen visited cur d r below = elim (Bool-cases (has cur visited)) [
    | inl v ↦
        let (m, l, s) = All-has (Deeper d) cur visited below v in
        let q : d ≡ m = RootedIn-same d m cur r s in absurd (omega (arith, l, q))
    | inr v ↦ v
  ]

  check_from-ok :
      (fuel : ℕ) (visited : List Str) (cur : Str) (d : ℕ)
      → RootedIn d cur
      → All (Deeper d) visited
      → unvisited visited parents < fuel
      → check_from parents fuel visited cur ≡ some (ok tt)
  check_from-ok zero visited cur d r below h = absurd (omega arith)
  check_from-ok (suc fuel) visited cur zero n below h =
      step-root fuel visited cur (unseen visited cur zero n below) n
  check_from-ok (suc fuel) visited cur (suc d) (p, n, r) below h =
      let v = unseen visited cur (suc d) (p, n, r) below in
      step-up fuel visited cur p v n
      ∙ check_from-ok fuel (cur ∷ visited) p d r
          ((suc d, omega arith, (p, n, r)), Deeper-All d visited below)
          (omega (arith, unvisited_lt cur p visited parents n v, h))

  RootedIn-unvisited :
      (n : ℕ) (visited : List Str) (cur : Str)
      → RootedIn n cur
      → All (Deeper n) visited
      → n ≤ unvisited visited parents
  RootedIn-unvisited zero visited cur r below = omega arith
  RootedIn-unvisited (suc n) visited cur (p, h, r) below =
      let v = unseen visited cur (suc n) (p, h, r) below in
      let k =
        RootedIn-unvisited n (cur ∷ visited) p r
          ((suc n, omega arith, (p, h, r)), Deeper-All n visited below) in
      omega (arith, k, unvisited_lt cur p visited parents h v)

  -- A walk that ends passes each name with a parent once.
  pub RootedIn-length : (n : ℕ) (cur : Str) → RootedIn n cur → n ≤ length parents
  RootedIn-length n cur r =
      omega
        (arith, RootedIn-unvisited n [] cur r tt, length-keep-le (λ e. not (has e.0 [])) parents)

-- `checkCycle` ends, also where there is a cycle, after at most one round for each name with a
-- parent and one more, and it accepts a name exactly if the walk up from it ends at a name without
-- a parent.
pub check_cycle_lem :
    (parents : List (Str × Str)) (name : Str)
    → (check_cycle parents name ≢ none)
      × ((check_cycle parents name ≡ some (ok tt)) ↔ ((d : ℕ) × RootedIn parents d name))
unfolding check_cycle
check_cycle_lem parents name = (
  check_from-returns parents fuel [] name enough,
  (
    check_from-RootedIn parents fuel [] name,
    λ (d, r). check_from-ok parents fuel [] name d r tt enough,
  ),
)
  where
    fuel : ℕ
    fuel = length parents + 1

    enough : unvisited [] parents < length parents + 1
    enough = omega (arith, length-keep-le (λ e. not (has e.0 [])) parents)
