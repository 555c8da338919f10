-- ===== src/Texttree/Tests.antt =====
-- Runs of texttree.go, and its theorems at concrete lines.
use gonic.Base.{
  ℕ, ◌≡◌, ◌≢◌, ◌↔◌, ◌+◌, sym, ◌∙◌, inl, inr, map, All, In, refl, List, [], ◌∷◌, none, some, ok, err,
  Str, codes, str_eq, has_prefix, cut, trim_space, trim_left, trim_right, lookup, insert, str_key,
}
use gonic.Texttree.Collect.{Below, collect_descendants_lem}
use gonic.Texttree.Parse.{Entry, parse_lem, parse-cycle}
use gonic.Texttree.{
  Error, collect_descendants, collect_from, parse, Reading, cycle, edge, edges, add_edges, add_edge,
  read, check_from, check_cycle,
}
use gonic.Texttree.Cycles.{RootedIn, check_cycle_lem}

abbrev genres : List Str
genres =
    codes "# genres"
    ∷ codes "rock\tpunk"
    ∷ codes " rock\tmetal "
    ∷ codes "metal\tdoom"
    ∷ codes "alone"
    ∷ []

abbrev genre_edges : List (Str × Str)
genre_edges =
    (codes "rock", codes "punk")
    ∷ (codes "rock", codes "metal")
    ∷ (codes "metal", codes "doom")
    ∷ []

edges_run : edges genres ≡ genre_edges
unfolding edges edge str_eq has_prefix cut trim_space trim_left trim_right
edges_run = refl

abbrev ring : List (Str × Str)
ring = (codes "a", codes "b") ∷ (codes "b", codes "a") ∷ []

ring_run : check_cycle ring (codes "a") ≡ some (err (cycle (codes "a")))
unfolding check_cycle check_from lookup str_eq
ring_run = refl

check_cycle_lem_example :
    (check_cycle ring (codes "a") ≢ none)
    × ((check_cycle ring (codes "a") ≡ some (ok tt)) ↔ ((d : ℕ) × RootedIn ring d (codes "a")))
check_cycle_lem_example = check_cycle_lem ring (codes "a")

abbrev reading : Reading
reading = record {
  children =
      (codes "rock", codes "punk" ∷ codes "metal" ∷ []) ∷ (codes "metal", codes "doom" ∷ []) ∷ [];
  seen = codes "doom" ∷ codes "metal" ∷ codes "punk" ∷ codes "rock" ∷ [];
  parents =
      (codes "punk", codes "rock")
      ∷ (codes "metal", codes "rock")
      ∷ (codes "doom", codes "metal")
      ∷ [];
}

reads : read genres ≡ ok reading
unfolding read add_edges add_edge lookup insert edges edge str_eq has_prefix cut trim_space
    trim_left trim_right
reads = refl

rock_acyclic : check_cycle reading.parents (codes "rock") ≡ some (ok tt)
unfolding check_cycle check_from lookup str_eq
rock_acyclic = refl

collect_descendants_lem_example :
    (fuel : ℕ) × (names : List Str) × ((more : ℕ)
      → collect_descendants reading.children (fuel + more) (codes "rock") ≡ some names)
    × ((x : Str) → In x names ↔ ((n : ℕ) × Below reading.parents n (codes "rock") x))
collect_descendants_lem_example =
    collect_descendants_lem genres reading (codes "rock") reads rock_acyclic

-- The children of a name come after it, the last one first.
rock_run :
    collect_descendants reading.children 9 (codes "rock")
    ≡ some (codes "rock" ∷ codes "metal" ∷ codes "doom" ∷ codes "punk" ∷ [])
unfolding collect_descendants collect_from lookup str_eq
rock_run = refl

reading_acyclic : All (λ x. check_cycle reading.parents x ≡ some (ok tt)) reading.seen
unfolding check_cycle check_from lookup str_eq
reading_acyclic = (refl, (refl, (refl, (refl, tt))))

parse_lem_example :
    (fuel : ℕ) × (tree : List (Str × List Str)) × ((more : ℕ)
      → parse (fuel + more) genres ≡ some (ok tree))
    × All (Entry reading.parents) tree
    × (map (λ e. e.0) tree ≡ reading.seen)
parse_lem_example = parse_lem genres reading reads reading_acyclic

abbrev ring_lines : List Str
ring_lines = codes "a\tb" ∷ codes "b\ta" ∷ []

abbrev ring_reading : Reading
ring_reading = record {
  children = (codes "a", codes "b" ∷ []) ∷ (codes "b", codes "a" ∷ []) ∷ [];
  seen = codes "b" ∷ codes "a" ∷ [];
  parents = (codes "b", codes "a") ∷ (codes "a", codes "b") ∷ [];
}

ring_reads : read ring_lines ≡ ok ring_reading
unfolding read add_edges add_edge lookup insert edges edge str_eq has_prefix cut trim_space
    trim_left trim_right
ring_reads = refl

ring_refused : check_cycle ring_reading.parents (codes "a") ≡ some (err (cycle (codes "a")))
unfolding check_cycle check_from lookup str_eq
ring_refused = refl

ring_endless : (d : ℕ) → RootedIn ring_reading.parents d (codes "a") → ⊥
ring_endless d r =
    let q = (check_cycle_lem ring_reading.parents (codes "a")).1.1 (d, r) in
    let e = sym ring_refused ∙ q in cc e

parse-cycle_example : (e : Error) × ((fuel : ℕ) → parse fuel ring_lines ≡ some (err e))
parse-cycle_example =
    parse-cycle ring_lines ring_reading (codes "a") ring_reads (inr (inl refl)) ring_endless
