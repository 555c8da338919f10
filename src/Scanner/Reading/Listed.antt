-- ===== src/Scanner/Reading/Listed.antt =====
-- scanner.go: the names of the tracks of a folder, in the order of the folder and sorted.
use gonic.Base.{
  ◌≡◌, inl, inr, false, ◌||◌, List, [], ◌∷◌, ◌++◌, map, Str, codes, has_prefix, str_eq, All,
  All-append, Bool-cases,
}
use gonic.FilePath.{join}
use gonic.Scanner.Session.{Settings, Item, World}
use gonic.Scanner.Folder.{text_le, insert_text, sort_texts, list_item, list_items}
use gonic.Scanner.Steps.{str_eq_sym, Strange, Unrepeated}

module _ (P : Str → Type 0) where
  insert_text-All : (s : Str) (ts : List Str) → P s → All P ts → All P (insert_text s ts)
  unfolding insert_text
  insert_text-All s [] p h = (p, tt)
  insert_text-All s (t ∷ ts) p (q, h) = elim (Bool-cases (text_le s t)) [
    | inl e ↦ rw e (p, (q, h))
    | inr e ↦ rw e (q, insert_text-All s ts p h)
  ]

  pub sort_texts-All : (ts : List Str) → All P ts → All P (sort_texts ts)
  unfolding sort_texts
  sort_texts-All [] h = tt
  sort_texts-All (t ∷ ts) (p, h) = insert_text-All t (sort_texts ts) p (sort_texts-All ts h)

  All-insert_text : (s : Str) (ts : List Str) → All P (insert_text s ts) → P s × All P ts
  unfolding insert_text
  All-insert_text s [] (p, h) = (p, tt)
  All-insert_text s (t ∷ ts) h = elim (Bool-cases (text_le s t)) [
    | inl e ↦ rw e at h
    | inr e ↦
        let (q, k) : P t × All P (insert_text s ts) = rw e at h in
        let (p, ks) = All-insert_text s ts k in (p, (q, ks))
  ]

  -- What holds of the sorted names holds of the names.
  pub All-sort_texts : (ts : List Str) → All P (sort_texts ts) → All P ts
  unfolding sort_texts
  All-sort_texts [] h = tt
  All-sort_texts (t ∷ ts) h =
      let (p, k) = All-insert_text t (sort_texts ts) h in (p, All-sort_texts ts k)

insert_text-Unrepeated :
    (s : Str) (ts : List Str) → Strange s ts → Unrepeated ts → Unrepeated (insert_text s ts)
unfolding insert_text
insert_text-Unrepeated s [] a u = (tt, tt)
insert_text-Unrepeated s (t ∷ ts) (a, as') (b, u) = elim (Bool-cases (text_le s t)) [
  | inl e ↦ rw e ((a, as'), (b, u))
  | inr e ↦ rw e (
    insert_text-All (λ m. str_eq t m ≡ false) s ts (str_eq_sym s t false a) b,
    insert_text-Unrepeated s ts as' u,
  )
]

pub sort_texts-Unrepeated : (ts : List Str) → Unrepeated ts → Unrepeated (sort_texts ts)
unfolding sort_texts
sort_texts-Unrepeated [] u = tt
sort_texts-Unrepeated (t ∷ ts) (a, u) =
    insert_text-Unrepeated t (sort_texts ts) (sort_texts-All (λ m. str_eq t m ≡ false) ts a)
      (sort_texts-Unrepeated ts u)

abbrev StrangeToAll : List Str → List Str → Type 0
StrangeToAll names tracks = All (λ m. Strange m names) tracks

append-Unrepeated :
    (n : Str) (tracks : List Str)
    → All (λ m. str_eq m n ≡ false) tracks
    → Unrepeated tracks
    → Unrepeated (tracks ++ n ∷ [])
append-Unrepeated n [] h u = (tt, tt)
append-Unrepeated n (m ∷ tracks) (e, h) (a, u) =
    (All-append (λ k. str_eq m k ≡ false) tracks (n ∷ []) a (e, tt), append-Unrepeated n tracks h u)

heads :
    (n : Str) (names tracks : List Str)
    → StrangeToAll (n ∷ names) tracks
    → All (λ m. str_eq m n ≡ false) tracks
heads n names [] h = tt
heads n names (m ∷ tracks) ((a, as'), h) = (a, heads n names tracks h)

tails :
    (n : Str) (names tracks : List Str)
    → StrangeToAll (n ∷ names) tracks
    → StrangeToAll names tracks
tails n names [] h = tt
tails n names (m ∷ tracks) ((a, as'), h) = (as', tails n names tracks h)

module _ (cfg : Settings) (w : World) (folder : Str) where
  list_item-Unrepeated :
      (item : Item) (names : List Str) (cover : Str) (tracks : List Str)
      → Strange item.name names
      → StrangeToAll (item.name ∷ names) tracks
      → Unrepeated tracks
      → let tracks' = (list_item cfg w folder item (cover, tracks)).1 in
        StrangeToAll names tracks' × Unrepeated tracks'
  unfolding list_item
  list_item-Unrepeated item names cover tracks a h u =
      let kept : StrangeToAll names tracks × Unrepeated tracks =
        (tails item.name names tracks h, u) in
      elim (Bool-cases (
        w.is_excluded (join folder item.name)
        || item.is_dir
        || has_prefix item.name (codes "._"))) [
          | inl e ↦ rw e kept
          | inr e ↦ elim (Bool-cases (w.is_cover item.name)) [
            | inl f ↦ rw (e, f) kept
            | inr f ↦ elim (Bool-cases (w.can_read (join folder item.name))) [
              | inl g ↦
                  rw (e, f, g)
                    (
                      All-append (λ m. Strange m names) tracks (item.name ∷ []) kept.0 (a, tt),
                      append-Unrepeated item.name tracks (heads item.name names tracks h) u,
                    )
              | inr g ↦ rw (e, f, g) kept
            ]
          ]
        ]

  pub list_items-Unrepeated :
      (items : List Item) (cover : Str) (tracks : List Str)
      → Unrepeated (map (λ i. i.name) items)
      → StrangeToAll (map (λ i. i.name) items) tracks
      → Unrepeated tracks
      → Unrepeated (list_items cfg w folder items (cover, tracks)).1
  unfolding list_items
  list_items-Unrepeated [] cover tracks v h u = u
  list_items-Unrepeated (item ∷ items) cover tracks (a, v) h u =
      let found = list_item cfg w folder item (cover, tracks) in
      let (k, u') = list_item-Unrepeated item (map (λ i. i.name) items) cover tracks a h u in
      list_items-Unrepeated items found.0 found.1 v k u'
