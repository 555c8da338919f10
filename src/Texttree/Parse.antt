-- ===== src/Texttree/Parse.antt =====
-- texttree.go: the tree that `ParseReader` returns.
use gonic.Base.{
  ℕ, zero, ◌+◌, ◌≡◌, ◌≢◌, ◌↔◌, ◌⊎◌, inl, inr, refl, sym, ap, subst, List, [], ◌∷◌, map, Option,
  none, some, Result, ok, err, arith, Str, str_key, All, In,
}
use mathlib.Core.Path.{ap₂}
use gonic.Texttree.{
  Error, Reading, read, check_all, collect_all, collect_descendants, with_entry, answered,
  check_cycle, parse,
}
use gonic.Texttree.Cycles.{RootedIn, check_cycle_lem}
use gonic.Texttree.Collect.{Below, collect_descendants_lem}

-- The names of an entry are the name itself and those below it.
abbrev pub Entry : List (Str × Str) → Str × List Str → Type 0
Entry parents (name, names) = (x : Str) → In x names ↔ ((n : ℕ) × Below parents n name x)

check_all-ok :
    (parents : List (Str × Str)) (names : List Str)
    → All (λ x. check_cycle parents x ≡ some (ok tt)) names
    → check_all parents names ≡ some (ok tt)
unfolding check_all
check_all-ok parents [] h = refl
check_all-ok parents (x ∷ names) (e, h) = rw (check_all, e) (check_all-ok parents names h)

module _ (lines : List Str) (r : Reading) (read_ok : read lines ≡ ok r) where
  abbrev Collected : List Str → Type 0
  Collected names =
      (fuel : ℕ) × (tree : List (Str × List Str)) × ((more : ℕ)
        → collect_all (fuel + more) r.children names ≡ some tree)
      × All (Entry r.parents) tree
      × (map (λ e. e.0) tree ≡ names)

  Collected-each :
      (names : List Str) → All (λ x. check_cycle r.parents x ≡ some (ok tt)) names → Collected names
  unfolding collect_all
  Collected-each [] h = (zero, [], (λ more. refl), tt, refl)
  Collected-each (x ∷ names) (e, h) =
      let (f, ns, runs, entry) = collect_descendants_lem lines r x read_ok e in
      let (g, tree, later, entries, keys) = Collected-each names h in
      (
        f + g,
        (x, ns) ∷ tree,
        λ more.
            (let a : f + g + more ≡ f + (g + more) = omega arith in
              let b : f + g + more ≡ g + (f + more) = omega arith in
              ap₂ (with_entry x)
                (subst (λ n. collect_descendants r.children n x ≡ some ns) (sym a)
                  (runs (g + more)))
                (subst (λ n. collect_all n r.children names ≡ some tree) (sym b)
                  (later (f + more)))),
        (entry, entries),
        ap (λ l. x ∷ l) keys,
      )

-- Where the loop accepts the lines and `checkCycle` every name that they name, `ParseReader` returns
-- with enough fuel, and more fuel changes nothing: the tree has an entry for each name seen, with the
-- name and all the names below it and no other.
pub parse_lem :
    (lines : List Str) (r : Reading)
    → read lines ≡ ok r
    → All (λ x. check_cycle r.parents x ≡ some (ok tt)) r.seen
    → (fuel : ℕ) × (tree : List (Str × List Str)) × ((more : ℕ)
        → parse (fuel + more) lines ≡ some (ok tree))
      × All (Entry r.parents) tree
      × (map (λ e. e.0) tree ≡ r.seen)
unfolding parse
parse_lem lines r read_ok acyclic =
    let (fuel, tree, runs, entries, keys) = Collected-each lines r read_ok r.seen acyclic in
    (
      fuel,
      tree,
      λ more. rw (read_ok, check_all-ok r.parents r.seen acyclic) (ap answered (runs more)),
      entries,
      keys,
    )

check_cycle-cases :
    (parents : List (Str × Str)) (x : Str)
    → (check_cycle parents x ≡ some (ok tt))
      ⊎ ((e : Error) × (check_cycle parents x ≡ some (err e)))
check_cycle-cases parents x = go (check_cycle parents x) (check_cycle_lem parents x).0
  where
    go :
        (o : Option (Result Error (Unit {0})))
        → o ≢ none
        → (o ≡ some (ok tt)) ⊎ ((e : Error) × (o ≡ some (err e)))
    go none h = absurd (h refl)
    go (some (ok _)) h = inl refl
    go (some (err e)) h = inr (e, refl)

check_all-err :
    (parents : List (Str × Str)) (names : List Str) (x : Str)
    → In x names
    → check_cycle parents x ≢ some (ok tt)
    → (e : Error) × (check_all parents names ≡ some (err e))
unfolding check_all
check_all-err parents [] x i h = absurd i
check_all-err parents (y ∷ names) x i h = elim (check_cycle-cases parents y) [
  | inr (e, q) ↦ (e, rw (check_all, q) refl)
  | inl q ↦ elim i [
    | inl k ↦ absurd (h (subst (λ z. check_cycle parents z ≡ some (ok tt)) (sym k) q))
    | inr j ↦ let (e, r) = check_all-err parents names x j h in (e, rw (check_all, q) r)
  ]
]

-- Where the walk up from a name seen never ends, `ParseReader` returns an error, and needs no fuel
-- for it.
pub parse-cycle :
    (lines : List Str) (r : Reading) (x : Str)
    → read lines ≡ ok r
    → In x r.seen
    → ((d : ℕ) → RootedIn r.parents d x → ⊥)
    → (e : Error) × ((fuel : ℕ) → parse fuel lines ≡ some (err e))
unfolding parse
parse-cycle lines r x read_ok seen endless =
    let refused : check_cycle r.parents x ≢ some (ok tt) =
      λ q. (let (d, rooted) = (check_cycle_lem r.parents x).1.0 q in endless d rooted) in
    let (e, q) = check_all-err r.parents r.seen x seen refused in (e, λ fuel. rw (read_ok, q) refl)
