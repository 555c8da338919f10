-- ===== src/Texttree/Edges.antt =====
-- texttree.go: what the maps of `ParseReader` hold after the loop over the lines.
use gonic.Base.{
  ◌↔◌, ◌≡◌, refl, sym, ap, ◌∙◌, inl, inr, false, List, [], ◌∷◌, ◌++◌, append_assoc, append-nil,
  Option, none, some, ok, err, arith, Str, str_eq, str_eq_iff, str_eq_refl, str_key, lookup,
  lookup-insert, if◌then◌else◌, Option-cases, Bool-cases,
}
use gonic.Texttree.{
  duplicate_child, Reading, no_lines, or_nil, edges, with_edge, add_edge, add_edges, read,
}

-- The children of a parent, in order, and the parent of a child, by its first edge.
abbrev pub children_of : Str → List (Str × Str) → List Str
children_of p [] = []
children_of p ((q, c) ∷ es) = if str_eq q p then c ∷ children_of p es else children_of p es

abbrev pub parent_of : Str → List (Str × Str) → Option Str
parent_of c [] = none
parent_of c ((p, d) ∷ es) = if str_eq d c then some p else parent_of c es

-- No child has two edges.
abbrev pub OneParent : List (Str × Str) → Type 0
OneParent [] = Unit
OneParent ((p, c) ∷ es) = (parent_of c es ≡ none) × OneParent es

abbrev or_else : Option Str → Option Str → Option Str
or_else none o = o
or_else (some p) o = some p

module _ (p c : Str) (es : List (Str × Str)) (r : Reading) where
  add_edges-new :
      lookup c r.parents ≡ none → add_edges ((p, c) ∷ es) r ≡ add_edges es (with_edge p c r)
  unfolding add_edges add_edge
  add_edges-new n = rw (add_edges, n) refl

  add_edges-duplicate :
      (w : Str) → lookup c r.parents ≡ some w → add_edges ((p, c) ∷ es) r ≡ err (duplicate_child c)
  unfolding add_edges add_edge
  add_edges-duplicate w n = rw (add_edges, n) refl

  -- An edge that is accepted names a child that had no parent.
  accepted :
      (s : Reading)
      → add_edges ((p, c) ∷ es) r ≡ ok s
      → (lookup c r.parents ≡ none) × (add_edges es (with_edge p c r) ≡ ok s)
  accepted s h = elim (Option-cases (lookup c r.parents)) [
    | inl n ↦ (n, sym (add_edges-new n) ∙ h)
    | inr (w, n) ↦
        (let q : err (duplicate_child c) ≡ ok s = sym (add_edges-duplicate w n) ∙ h in cc q)
  ]

no_edges : (r s : Reading) → add_edges [] r ≡ ok s → r ≡ s
unfolding add_edges
no_edges r s h = cc h

or_else-none : (o : Option Str) → or_else o none ≡ o
or_else-none none = refl
or_else-none (some p) = refl

add_edges-children :
    (p : Str) (es : List (Str × Str)) (r s : Reading)
    → add_edges es r ≡ ok s
    → or_nil (lookup p s.children) ≡ or_nil (lookup p r.children) ++ children_of p es
unfolding add_edges
add_edges-children p [] r s h =
    rw (no_edges r s h) (sym (append-nil (or_nil (lookup p s.children))))
add_edges-children p ((q, c) ∷ es) r s h =
    let (n, k) = accepted q c es r s h in
    add_edges-children p es (with_edge q c r) s k ∙ elim (Bool-cases (str_eq q p)) [
      | inl e ↦
          rw
            (
              lookup-insert q p (or_nil (lookup q r.children) ++ c ∷ []) r.children,
              e,
              (str_eq_iff q p).0 e,
            )
            (append_assoc (or_nil (lookup p r.children)) (c ∷ []) (children_of p es))
      | inr e ↦ rw (lookup-insert q p (or_nil (lookup q r.children) ++ c ∷ []) r.children, e) refl
    ]

add_edges-parents :
    (c : Str) (es : List (Str × Str)) (r s : Reading)
    → add_edges es r ≡ ok s
    → lookup c s.parents ≡ or_else (lookup c r.parents) (parent_of c es)
unfolding add_edges
add_edges-parents c [] r s h = rw (no_edges r s h) (sym (or_else-none (lookup c s.parents)))
add_edges-parents c ((p, d) ∷ es) r s h =
    let (n, k) = accepted p d es r s h in
    add_edges-parents c es (with_edge p d r) s k ∙ elim (Bool-cases (str_eq d c)) [
      | inl e ↦ rw (lookup-insert d c p r.parents, e, ← (str_eq_iff d c).0 e, n) refl
      | inr e ↦ rw (lookup-insert d c p r.parents, e) refl
    ]

-- After the loop, the children of each name are those that its edges name, in order, and the parent
-- of each name is the one that its edge names.
pub read-maps :
    (lines : List Str) (r : Reading)
    → read lines ≡ ok r
    → ((p : Str) → or_nil (lookup p r.children) ≡ children_of p (edges lines))
      × ((c : Str) → lookup c r.parents ≡ parent_of c (edges lines))
unfolding read lookup
read-maps lines r h = (
  λ p. add_edges-children p (edges lines) no_lines r h,
  λ c. add_edges-parents c (edges lines) no_lines r h,
)

had_parent :
    (c w : Str) (es : List (Str × Str)) (r s : Reading)
    → add_edges es r ≡ ok s
    → lookup c r.parents ≡ some w
    → parent_of c es ≡ none
had_parent c w [] r s h n = refl
had_parent c w ((p, d) ∷ es) r s h n =
    let (m, k) = accepted p d es r s h in
    elim (Bool-cases (str_eq d c)) [
      | inl e ↦
          (let q : none ≡ some w =
              sym m ∙ ap (λ x. lookup x r.parents) ((str_eq_iff d c).0 e) ∙ n in
            cc q)
      | inr e ↦
          rw e (had_parent c w es (with_edge p d r) s k (rw (lookup-insert d c p r.parents, e) n))
    ]

add_edges-OneParent : (es : List (Str × Str)) (r s : Reading) → add_edges es r ≡ ok s → OneParent es
add_edges-OneParent [] r s h = tt
add_edges-OneParent ((p, c) ∷ es) r s h =
    let (m, k) = accepted p c es r s h in
    (
      had_parent c p es (with_edge p c r) s k
          (rw (lookup-insert c c p r.parents, str_eq_refl c) refl),
      add_edges-OneParent es (with_edge p c r) s k,
    )

-- The children of the edges have no parent yet.
abbrev New : Reading → List (Str × Str) → Type 0
New r [] = Unit
New r ((p, c) ∷ es) = (lookup c r.parents ≡ none) × New r es

New-with_edge :
    (p c : Str) (r : Reading) (es : List (Str × Str))
    → parent_of c es ≡ none
    → New r es
    → New (with_edge p c r) es
New-with_edge p c r [] h n = tt
New-with_edge p c r ((q, d) ∷ es) h (m, n) = elim (Bool-cases (str_eq d c)) [
  | inl e ↦ (let k : some q ≡ none = rw e at h in cc k)
  | inr e ↦
      let f : str_eq c d ≡ false = ground (arith, str_eq_iff c d, str_eq_iff d c) in
      (rw (lookup-insert c d p r.parents, f) m, New-with_edge p c r es (rw e at h) n)
]

add_edges-ok :
    (es : List (Str × Str)) (r : Reading)
    → OneParent es
    → New r es
    → (s : Reading) × (add_edges es r ≡ ok s)
unfolding add_edges
add_edges-ok [] r h n = (r, refl)
add_edges-ok ((p, c) ∷ es) r (h, hs) (n, ns) =
    let (s, k) = add_edges-ok es (with_edge p c r) hs (New-with_edge p c r es h ns) in
    (s, add_edges-new p c es r n ∙ k)

no_lines-New : (es : List (Str × Str)) → New no_lines es
unfolding lookup
no_lines-New [] = tt
no_lines-New ((p, c) ∷ es) = (refl, no_lines-New es)

-- The loop accepts the lines exactly if no child has two edges.
pub read-OneParent :
    (lines : List Str) → ((r : Reading) × (read lines ≡ ok r)) ↔ OneParent (edges lines)
unfolding read
read-OneParent lines = (
  λ (r, h). add_edges-OneParent (edges lines) no_lines r h,
  λ h. add_edges-ok (edges lines) no_lines h (no_lines-New (edges lines)),
)
