-- ===== src/Bookmarks/Invariant.antt =====
-- handlers_bookmark.go: a user has at most one bookmark in an entry, and the last one created.
use gonic.Base.{
  ◌≡◌, refl, subst, inl, inr, Bool, false, not, ◌&&◌, List, [], ◌∷◌, ◌++◌, none, some, ok, bind-ok,
  ok-inj, Str, codes, str_eq, ℤ, int_eq, find, keep, All, All-append, arith, Bool-cases,
  Option-cases,
}
use gonic.Specid.{SpecId}
use gonic.Params.Ids
use gonic.Db.{User}
use gonic.Bookmarks.{
  Bookmark, Bookmarks, matches, is_at, save_first, new_bookmark, put, id_required, create, delete,
  Request, creating, deleting, serve,
}

abbrev pub same_entry : Bookmark → Bookmark → Bool
same_entry b c =
    int_eq b.user_id c.user_id
    && str_eq b.entry_id_type c.entry_id_type
    && int_eq b.entry_id c.entry_id

abbrev DiffersFrom : Bookmark → List Bookmark → Type 0
DiffersFrom b = All (λ c. same_entry b c ≡ false)

-- No two bookmarks of one user in one entry.
abbrev pub Distinct : List Bookmark → Type 0
Distinct [] = Unit
Distinct (b ∷ bs) = DiffersFrom b bs × Distinct bs

module _ (p : Bookmark → Bool) where
  keep-DiffersFrom :
      (b : Bookmark) (bs : List Bookmark) → DiffersFrom b bs → DiffersFrom b (keep p bs)
  keep-DiffersFrom b [] h = tt
  keep-DiffersFrom b (c ∷ bs) (d, h) = elim (Bool-cases (p c)) [
    | inl e ↦ rw e (d, keep-DiffersFrom b bs h)
    | inr e ↦ rw e (keep-DiffersFrom b bs h)
  ]

  keep-Distinct : (bs : List Bookmark) → Distinct bs → Distinct (keep p bs)
  keep-Distinct [] h = tt
  keep-Distinct (b ∷ bs) (d, h) = elim (Bool-cases (p b)) [
    | inl e ↦ rw e (keep-DiffersFrom b bs d, keep-Distinct bs h)
    | inr e ↦ rw e (keep-Distinct bs h)
  ]

  module _ (position : ℤ) (comment : Str) where
    save_first-DiffersFrom :
        (b : Bookmark) (bs : List Bookmark)
        → DiffersFrom b bs
        → DiffersFrom b (save_first p position comment bs)
    unfolding save_first
    save_first-DiffersFrom b [] h = tt
    save_first-DiffersFrom b (c ∷ bs) (d, h) = elim (Bool-cases (p c)) [
      | inl e ↦ rw e (d, h)
      | inr e ↦ rw e (d, save_first-DiffersFrom b bs h)
    ]

    save_first-Distinct :
        (bs : List Bookmark) → Distinct bs → Distinct (save_first p position comment bs)
    unfolding save_first
    save_first-Distinct [] h = tt
    save_first-Distinct (b ∷ bs) (d, h) = elim (Bool-cases (p b)) [
      | inl e ↦ rw e (d, h)
      | inr e ↦ rw e (save_first-DiffersFrom b bs d, save_first-Distinct bs h)
    ]

-- What has no row that matches is new.
module _ (user_id : ℤ) (id : SpecId) (new : Bookmark) (of_user : new.user_id ≡ user_id)
    (of_type : new.entry_id_type ≡ id.typ) (of_id : new.entry_id ≡ id.value) where
  unmatched : (b : Bookmark) → matches user_id id b ≡ false → same_entry b new ≡ false
  unmatched b h = rw (of_user, of_type, of_id) (ground (arith, h))

  append-Distinct :
      (bs : List Bookmark)
      → find (matches user_id id) bs ≡ none
      → Distinct bs
      → Distinct (bs ++ new ∷ [])
  append-Distinct [] f h = (tt, tt)
  append-Distinct (b ∷ bs) f (d, h) = elim (Bool-cases (matches user_id id b)) [
    | inl e ↦ (let k : some b ≡ none = rw e at f in cc k)
    | inr e ↦ (
      All-append (λ c. same_entry b c ≡ false) bs (new ∷ []) d (unmatched b e, tt),
      append-Distinct bs (rw e at f) h,
    )
  ]

put-Distinct :
    (user_id : ℤ) (id : SpecId) (position : ℤ) (comment : Str) (st : Bookmarks)
    → Distinct st.rows
    → Distinct (put user_id id position comment st).rows
unfolding put
put-Distinct user_id id position comment st h =
    elim (Option-cases (find (matches user_id id) st.rows)) [
      | inl e ↦ rw e (
          append-Distinct user_id id (new_bookmark st.next_id user_id id position comment) refl refl
            refl st.rows e h)
      | inr (b, e) ↦ rw e (save_first-Distinct (matches user_id id) position comment st.rows h)
    ]

-- No request to the bookmark handlers gives a user two bookmarks in one entry.
pub serve-Distinct :
    (user : User) (request : Request) (st after : Bookmarks)
    → Distinct st.rows
    → serve user request st ≡ ok after
    → Distinct after.rows
unfolding serve create delete
serve-Distinct user (creating p) st after d h =
    let (id, e, k) = bind-ok (id_required (Ids.get p (codes "id"))) _ after h in
    subst (λ a. Distinct a.rows) (ok-inj _ after k) (put-Distinct user.id id _ _ st d)
serve-Distinct user (deleting p) st after d h =
    let (id, e, k) = bind-ok (id_required (Ids.get p (codes "id"))) _ after h in
    subst (λ a. Distinct a.rows) (ok-inj _ after k)
      (keep-Distinct (λ b. not (is_at user.id id b)) st.rows d)
