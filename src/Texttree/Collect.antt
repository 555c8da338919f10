-- ===== src/Texttree/Collect.antt =====
-- texttree.go: `collectDescendants` ends on a tree, and collects the names below a name.
use gonic.Base.{
  ℕ, zero, suc, ◌+◌, ◌<◌, ◌≡◌, ◌↔◌, refl, sym, ap, subst, ◌∙◌, inl, inr, List, [], ◌∷◌, ◌++◌,
  append_assoc, append-nil, reverse, All-reverse, none, some, ok, arith, Str, str_eq, str_eq_iff,
  str_key, lookup, length, length-append, All, In, Bool-cases,
}
use gonic.Texttree.{
  Reading, edges, read, children_in, collect_from, collect_descendants, check_cycle,
}
use gonic.Texttree.Members.{All-In, All-intro, In-left, In-right, In-append, In-reverse_aux}
use gonic.Texttree.Cycles.{RootedIn, RootedIn-length, check_cycle_lem}
use gonic.Texttree.Edges.{children_of, parent_of, OneParent, read-maps, read-OneParent}

-- Going up so many times from a name leads to another.
abbrev pub Below : List (Str × Str) → ℕ → Str → Str → Type 0
Below parents zero top x = x ≡ top
Below parents (suc n) top x = (p : Str) × (lookup x parents ≡ some p) × Below parents n top p

module _ (parents : List (Str × Str)) where
  Below-extend :
      (n : ℕ) (top z x : Str)
      → lookup z parents ≡ some top
      → Below parents n z x
      → Below parents (suc n) top x
  Below-extend zero top z x h e = (top, subst (λ y. lookup y parents ≡ some top) (sym e) h, refl)
  Below-extend (suc n) top z x h (p, k, b) = (p, k, Below-extend n top z p h b)

  Below-split :
      (n : ℕ) (top x : Str)
      → Below parents (suc n) top x
      → (z : Str) × (lookup z parents ≡ some top) × Below parents n z x
  Below-split zero top x (p, k, e) = (x, k ∙ ap some e, refl)
  Below-split (suc n) top x (p, k, b) = let (z, l, c) = Below-split n top p b in (z, l, (p, k, c))

module _ (children : List (Str × List Str)) where
  -- The names at and below some names, to a height, in the order of the walk.
  abbrev visit : ℕ → List Str → List Str
  visit zero names = []
  visit (suc h) [] = []
  visit (suc h) (x ∷ xs) = x ∷ visit h (reverse (children_in children x)) ++ visit (suc h) xs

  -- Below the names are less than so many levels.
  abbrev Height : ℕ → List Str → Type 0
  Height zero names = names ≡ []
  Height (suc h) [] = Unit
  Height (suc h) (x ∷ xs) = Height h (reverse (children_in children x)) × Height (suc h) xs

  collect_from-visit :
      (h : ℕ) (xs rest names : List Str) (fuel : ℕ)
      → Height h xs
      → collect_from children fuel rest ≡ some names
      → collect_from children (length (visit h xs) + fuel) (xs ++ rest) ≡ some (visit h xs ++ names)
  unfolding collect_from
  collect_from-visit zero xs rest names fuel e k =
      let z : 0 + fuel ≡ fuel = omega arith in
      rw z (subst (λ ys. collect_from children fuel (ys ++ rest) ≡ some names) (sym e) k)
  collect_from-visit (suc h) [] rest names fuel e k =
      (let z : 0 + fuel ≡ fuel = omega arith in rw z k)
  collect_from-visit (suc h) (x ∷ xs) rest names fuel (e, es) k =
      let below = visit h (reverse (children_in children x)) in
      let later = visit (suc h) xs in
      let ih = collect_from-visit (suc h) xs rest names fuel es k in
      let q =
        collect_from-visit h (reverse (children_in children x)) (xs ++ rest) (later ++ names)
          (length later + fuel) e ih in
      let size : suc (length (below ++ later)) + fuel ≡ suc (length below + (length later + fuel)) =
        omega (arith, length-append below later) in
      rw (size, append_assoc below later names) (rw q refl)

module _ (parents : List (Str × Str)) (children : List (Str × List Str))
    (linked : (x c : Str) → In c (children_in children x) ↔ (lookup c parents ≡ some x)) where
  children-lookup :
      (x : Str) → All (λ c. lookup c parents ≡ some x) (reverse (children_in children x))
  children-lookup x =
      All-reverse (λ c. lookup c parents ≡ some x) (children_in children x)
        (All-intro (λ c. lookup c parents ≡ some x) (children_in children x) (λ c. (linked x c).0))

  RootedIn-children :
      (d : ℕ) (x : Str) (cs : List Str)
      → RootedIn parents d x
      → All (λ c. lookup c parents ≡ some x) cs
      → All (RootedIn parents (suc d)) cs
  RootedIn-children d x [] r h = tt
  RootedIn-children d x (c ∷ cs) r (k, h) = ((x, k, r), RootedIn-children d x cs r h)

  RootedIn-Height :
      (h d : ℕ) (xs : List Str)
      → All (RootedIn parents d) xs
      → length parents < d + h
      → Height children h xs
  RootedIn-Height zero d [] r l = refl
  RootedIn-Height zero d (x ∷ xs) (r, _) l =
      absurd (omega (arith, RootedIn-length parents d x r, l))
  RootedIn-Height (suc h) d [] r l = tt
  RootedIn-Height (suc h) d (x ∷ xs) (r, rs) l = (
    RootedIn-Height h (suc d) (reverse (children_in children x))
        (RootedIn-children d x (reverse (children_in children x)) r (children-lookup x))
        (omega (arith, l)),
    RootedIn-Height (suc h) d xs rs l,
  )

  Below-visit :
      (h n : ℕ) (xs : List Str) (y x : Str)
      → Height children h xs
      → In y xs
      → Below parents n y x
      → In x (visit children h xs)
  Below-visit zero n [] y x e i b = i
  Below-visit zero n (z ∷ xs) y x e i b = cc e
  Below-visit (suc h) n [] y x e i b = absurd i
  Below-visit (suc h) zero (z ∷ xs) y x (e, es) (inl q) b = inl (b ∙ q)
  Below-visit (suc h) (suc n) (z ∷ xs) y x (e, es) (inl q) b =
      let (w, k, c) = Below-split parents n y x b in
      let i : In w (children_in children z) = (linked z w).1 (k ∙ ap some q) in
      let j = In-reverse_aux w (children_in children z) [] (inl i) in
      inr (In-left x _ _ (Below-visit h n (reverse (children_in children z)) w x e j c))
  Below-visit (suc h) n (z ∷ xs) y x (e, es) (inr i) b =
      inr (In-right x _ _ (Below-visit (suc h) n xs y x es i b))

  visit-Below :
      (h : ℕ) (xs : List Str) (x : Str)
      → In x (visit children h xs)
      → (n : ℕ) × (y : Str) × In y xs × Below parents n y x
  visit-Below zero xs x i = absurd i
  visit-Below (suc h) [] x i = absurd i
  visit-Below (suc h) (z ∷ xs) x (inl e) = (zero, z, inl refl, e)
  visit-Below (suc h) (z ∷ xs) x (inr i) =
      elim (In-append x (visit children h (reverse (children_in children z)))
        (visit children (suc h) xs) i) [
          | inl j ↦
              let (n, y, k, b) = visit-Below h (reverse (children_in children z)) x j in
              let l =
                All-In (λ c. lookup c parents ≡ some z) (reverse (children_in children z)) y
                  (children-lookup z) k in
              (suc n, z, inl refl, Below-extend parents n z y x l b)
          | inr j ↦ let (n, y, k, b) = visit-Below (suc h) xs x j in (n, y, inr k, b)
        ]

In-children_of :
    (p c : Str) (es : List (Str × Str))
    → OneParent es
    → In c (children_of p es) ↔ (parent_of c es ≡ some p)
In-children_of p c [] u = (λ i. absurd i, λ e. cc e)
In-children_of p c ((q, d) ∷ es) (n, u) =
    let (to, back) = In-children_of p c es u in
    elim (Bool-cases (str_eq d c)) [
      | inl e ↦
          let k : d ≡ c = (str_eq_iff d c).0 e in
          let none_c : parent_of c es ≡ none = subst (λ x. parent_of x es ≡ none) k n in
          elim (Bool-cases (str_eq q p)) [
            | inl g ↦ rw (e, g) (λ i. ap some ((str_eq_iff q p).0 g), λ h. inl (sym k))
            | inr g ↦
                rw (e, g)
                  (
                    λ i. (let z : none ≡ some p = sym none_c ∙ to i in cc z),
                    λ h. (let z : q ≡ p = cc h in absurd (ground (arith, str_eq_iff q p))),
                  )
          ]
      | inr e ↦ elim (Bool-cases (str_eq q p)) [
        | inl g ↦
            rw (e, g)
              (
                λ i. elim i [ inl j ↦ absurd (ground (arith, str_eq_iff d c)) | inr j ↦ to j ],
                λ h. inr (back h),
              )
        | inr g ↦ rw (e, g) (to, back)
      ]
    ]

collect_from-nil :
    (children : List (Str × List Str)) (fuel : ℕ) → collect_from children fuel [] ≡ some []
unfolding collect_from
collect_from-nil children zero = refl
collect_from-nil children (suc fuel) = refl

only :
    (parents : List (Str × Str)) (name x : Str)
    → ((n : ℕ) × (y : Str) × In y (name ∷ []) × Below parents n y x)
    → (n : ℕ) × Below parents n name x
only parents name x (n, y, inl e, b) = (n, subst (λ z. Below parents n z x) e b)
only parents name x (n, y, inr i, b) = absurd i

-- On the maps that `ParseReader` has read, `collectDescendants` of a name that `checkCycle` accepts
-- ends, with enough fuel, in a list of the name itself and of all the names below it and of no other.
pub collect_descendants_lem :
    (lines : List Str) (r : Reading) (name : Str)
    → read lines ≡ ok r
    → check_cycle r.parents name ≡ some (ok tt)
    → (fuel : ℕ) × (names : List Str) × ((more : ℕ)
        → collect_descendants r.children (fuel + more) name ≡ some names)
      × ((x : Str) → In x names ↔ ((n : ℕ) × Below r.parents n name x))
unfolding collect_descendants collect_from
collect_descendants_lem lines r name read_ok acyclic =
    let (children_ok, parents_ok) = read-maps lines r read_ok in
    let one : OneParent (edges lines) = (read-OneParent lines).0 (r, read_ok) in
    let linked : (x c : Str) → In c (children_in r.children x) ↔ (lookup c r.parents ≡ some x) =
      λ x c. rw (children_ok x, parents_ok c) (In-children_of x c (edges lines) one) in
    let (d, rooted) = (check_cycle_lem r.parents name).1.0 acyclic in
    let high =
      RootedIn-Height r.parents r.children linked (length r.parents + 1) d (name ∷ []) (rooted, tt)
        (omega arith) in
    let names = visit r.children (length r.parents + 1) (name ∷ []) in
    (
      length names,
      names,
      λ more.
          collect_from-visit r.children (length r.parents + 1) (name ∷ []) [] [] more high
            (collect_from-nil r.children more)
          ∙ ap some (append-nil names),
      λ x. (
        λ i.
            only r.parents name x
              (visit-Below r.parents r.children linked (length r.parents + 1) (name ∷ []) x i),
        λ (n, b).
            Below-visit r.parents r.children linked (length r.parents + 1) n (name ∷ []) name x high
              (inl refl) b,
      ),
    )
