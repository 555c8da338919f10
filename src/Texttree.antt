-- ===== src/Texttree.antt =====
-- texttree/texttree.go: a tree of names from lines of a parent, a tab and a child.
pub mod Cycles
pub mod Edges
pub mod Members
pub mod Collect
pub mod Parse
mod Tests
use gonic.Base.{
  ℕ, zero, suc, ◌+◌, Bool, true, false, ◌||◌, List, [], ◌∷◌, ◌++◌, reverse, Option, none, some,
  Result, ok, err, Str, str_eq, str_key, has_prefix, cut, trim_space, lookup, insert, length, any,
  if◌then◌else◌,
}

pub data Error : Type 0 where
  duplicate_child cycle : Str → Error

-- The maps that `ParseReader` builds: the children of a name, the names seen, the parent of a name.
pub record Reading : Type 0 where
  pub children : List (Str × List Str)
  pub seen : List Str
  pub parents : List (Str × Str)

abbrev pub no_lines : Reading
no_lines = record { children = []; seen = []; parents = [] }

abbrev named : Str → Str → Option (Str × Str)
named parent child = if str_eq parent [] || str_eq child [] then none else some (parent, child)

abbrev halves : Option (Str × Str) → Option (Str × Str)
halves none = none
halves (some (parent, child)) = named (trim_space parent) (trim_space child)

abbrev trimmed : Str → Option (Str × Str)
trimmed line =
    if str_eq line [] || has_prefix line (b'#' ∷ []) then none else halves (cut line b'\t')

-- The parent and the child that a line names, if it is not passed over.
unfoldable pub edge : Str → Option (Str × Str)
edge line = trimmed (trim_space line)

abbrev pub has : Str → List Str → Bool
has s = any (λ t. str_eq t s)

-- An entry of a Go map that is used as a set.
abbrev pub mark : Str → List Str → List Str
mark s seen = if has s seen then seen else s ∷ seen

abbrev pub or_nil : Option (List Str) → List Str
or_nil none = []
or_nil (some cs) = cs

abbrev pub with_edge : Str → Str → Reading → Reading
with_edge parent child r = record {
  children = insert parent (or_nil (lookup parent r.children) ++ child ∷ []) r.children;
  seen = mark child (mark parent r.seen);
  parents = insert child parent r.parents;
}

-- The body of the loop for a line that names an edge.
unfoldable pub add_edge : Str → Str → Reading → Result Error Reading
add_edge parent child r = elim (lookup child r.parents) [
  | some p ↦ err (duplicate_child child)
  | none ↦ ok (with_edge parent child r)
]

-- The edges that the lines name, in order.
unfoldable pub edges : List Str → List (Str × Str)
unfolding edge
edges [] = []
edges (line ∷ lines) = elim (edge line) [ none ↦ edges lines | some e ↦ e ∷ edges lines ]

unfoldable pub add_edges : List (Str × Str) → Reading → Result Error Reading
unfolding add_edge
add_edges [] r = ok r
add_edges ((parent, child) ∷ es) r = elim (add_edge parent child r) [
  | err e ↦ err e
  | ok r' ↦ add_edges es r'
]

-- The loop of `ParseReader` over the lines of the file.
unfoldable pub read : List Str → Result Error Reading
unfolding edges add_edges
read lines = add_edges (edges lines) no_lines

module _ (parents : List (Str × Str)) where
  -- The loop of `checkCycle` on fuel.
  unfoldable pub check_from : ℕ → List Str → Str → Option (Result Error (Unit {0}))
  check_from zero visited cur = none
  check_from (suc fuel) visited cur = elim (has cur visited) [
    | true ↦ some (err (cycle cur))
    | false ↦ elim (lookup cur parents) [
      | none ↦ some (ok tt)
      | some p ↦ check_from fuel (cur ∷ visited) p
    ]
  ]

  -- `checkCycle`
  unfoldable pub check_cycle : Str → Option (Result Error (Unit {0}))
  check_cycle name = check_from (length parents + 1) [] name

module _ (children : List (Str × List Str)) where
  abbrev pub children_in : Str → List Str
  children_in name = or_nil (lookup name children)

  abbrev pub prefixed : Str → Option (List Str) → Option (List Str)
  prefixed cur none = none
  prefixed cur (some names) = some (cur ∷ names)

  -- The loop of `collectDescendants` on fuel, the top of its stack first.
  unfoldable pub collect_from : ℕ → List Str → Option (List Str)
  collect_from fuel [] = some []
  collect_from zero (cur ∷ stack) = none
  collect_from (suc fuel) (cur ∷ stack) =
      prefixed cur (collect_from fuel (reverse (children_in cur) ++ stack))

  -- `collectDescendants`
  unfoldable pub collect_descendants : ℕ → Str → Option (List Str)
  unfolding collect_from
  collect_descendants fuel name = collect_from fuel (name ∷ [])

-- The first cycle that `ParseReader` finds going over the names seen.
unfoldable pub check_all : List (Str × Str) → List Str → Option (Result Error (Unit {0}))
check_all parents [] = some (ok tt)
check_all parents (name ∷ names) = elim (check_cycle parents name) [
  | none ↦ none
  | some (err e) ↦ some (err e)
  | some (ok _) ↦ check_all parents names
]

abbrev pub with_entry :
    Str → Option (List Str) → Option (List (Str × List Str)) → Option (List (Str × List Str))
with_entry name none tree = none
with_entry name (some names) none = none
with_entry name (some names) (some tree) = some ((name, names) ∷ tree)

-- The tree that `ParseReader` returns: the names collected for each name seen.
unfoldable pub collect_all : ℕ → List (Str × List Str) → List Str → Option (List (Str × List Str))
collect_all fuel children [] = some []
collect_all fuel children (name ∷ names) =
    with_entry name (collect_descendants children fuel name) (collect_all fuel children names)

abbrev pub answered : Option (List (Str × List Str)) → Option (Result Error (List (Str × List Str)))
answered none = none
answered (some tree) = some (ok tree)

abbrev pub finish :
    ℕ → Reading → Option (Result Error (Unit {0})) → Option (Result Error (List (Str × List Str)))
finish fuel r none = none
finish fuel r (some (err e)) = some (err e)
finish fuel r (some (ok _)) = answered (collect_all fuel r.children r.seen)

abbrev pub checked : ℕ → Result Error Reading → Option (Result Error (List (Str × List Str)))
checked fuel (err e) = some (err e)
checked fuel (ok r) = finish fuel r (check_all r.parents r.seen)

-- `ParseReader`
unfoldable pub parse : ℕ → List Str → Option (Result Error (List (Str × List Str)))
unfolding check_all collect_all read
parse fuel lines = checked fuel (read lines)
