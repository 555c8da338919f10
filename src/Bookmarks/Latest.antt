-- ===== src/Bookmarks/Latest.antt =====
-- handlers_bookmark.go: the bookmark that was created is the one that is there.
use gonic.Base.{
  ◌≡◌, ◌≢◌, refl, sym, ◌∙◌, inl, inr, true, false, List, [], ◌∷◌, ◌++◌, none, some, ok, Str, codes,
  str_eq-false, str_eq_refl, ℤ, pos, int_eq, int_eq_iff, int_eq_refl, find, Bool-cases,
  Option-cases,
}
use gonic.Specid.{SpecId}
use gonic.Params.{Params}
use gonic.Params.Ids
use gonic.Params.Ints
use gonic.Params.Texts
use gonic.Db.{User}
use gonic.Bookmarks.{Bookmark, Bookmarks, matches, is_at, save_first, new_bookmark, put, create}

module _ (user_id : ℤ) (id : SpecId) (position : ℤ) (comment : Str) (some_value : id.value ≢ pos 0)
    (some_type : id.typ ≢ []) where
  matches-is_at : (b : Bookmark) → matches user_id id b ≡ is_at user_id id b
  matches-is_at b =
      let v : int_eq id.value (pos 0) ≡ false = elim (Bool-cases (int_eq id.value (pos 0))) [
        | inl e ↦ absurd (some_value ((int_eq_iff id.value (pos 0)).0 e))
        | inr e ↦ e
      ] in
      rw (v, str_eq-false id.typ [] some_type) refl

  -- The bookmark of the user in the entry, with what was asked for.
  abbrev Latest : List Bookmark → Type 0
  Latest bs =
      (b : Bookmark) × (find (is_at user_id id) bs ≡ some b)
      × (b.position ≡ position)
      × (b.comment ≡ comment)

  save_first-Latest :
      (bs : List Bookmark) (b : Bookmark)
      → find (matches user_id id) bs ≡ some b
      → Latest (save_first (matches user_id id) position comment bs)
  unfolding save_first
  save_first-Latest [] b f = cc f
  save_first-Latest (c ∷ bs) b f = elim (Bool-cases (matches user_id id c)) [
    | inl e ↦
        let at : is_at user_id id c ≡ true = sym (matches-is_at c) ∙ e in
        rw e (record c { position = position; comment = comment }, rw at refl, refl, refl)
    | inr e ↦
        let at : is_at user_id id c ≡ false = sym (matches-is_at c) ∙ e in
        let (d, g, p, q) = save_first-Latest bs b (rw e at f) in rw e (d, rw at g, p, q)
  ]

  append-Latest :
      (new : Bookmark) (bs : List Bookmark)
      → is_at user_id id new ≡ true
      → new.position ≡ position
      → new.comment ≡ comment
      → find (matches user_id id) bs ≡ none
      → Latest (bs ++ new ∷ [])
  append-Latest new [] at p q f = (new, rw at refl, p, q)
  append-Latest new (c ∷ bs) at p q f = elim (Bool-cases (matches user_id id c)) [
    | inl e ↦ (let k : some c ≡ none = rw e at f in cc k)
    | inr e ↦
        let other : is_at user_id id c ≡ false = sym (matches-is_at c) ∙ e in
        let (d, g, r, s) = append-Latest new bs at p q (rw e at f) in (d, rw other g, r, s)
  ]

  put-Latest : (st : Bookmarks) → Latest (put user_id id position comment st).rows
  unfolding put
  put-Latest st = elim (Option-cases (find (matches user_id id) st.rows)) [
    | inl e ↦ rw e (
        append-Latest (new_bookmark st.next_id user_id id position comment) st.rows
          (rw (int_eq_refl user_id, str_eq_refl id.typ, int_eq_refl id.value) refl) refl refl e)
    | inr (b, e) ↦ rw e (save_first-Latest st.rows b e)
  ]

-- If the id of a request can be parsed, and its value is not 0, a bookmark is created or changed: the
-- user's bookmark in that entry has the position and the comment of the request, or 0 and no text
-- where they are missing.
pub create-latest :
    (user : User) (p : Params) (st : Bookmarks) (id : SpecId)
    → Ids.get p (codes "id") ≡ (id, none)
    → id.value ≢ pos 0
    → id.typ ≢ []
    → (after : Bookmarks) × (b : Bookmark) × (create user p st ≡ ok after)
      × (find (is_at user.id id) after.rows ≡ some b)
      × (b.position ≡ Ints.get_or p (codes "position") (pos 0))
      × (b.comment ≡ Texts.get_or p (codes "comment") [])
create-latest user p st id parsed v t =
    let position = Ints.get_or p (codes "position") (pos 0) in
    let comment = Texts.get_or p (codes "comment") [] in
    let (b, f, q, r) = put-Latest user.id id position comment v t st in
    (put user.id id position comment st, b, (unfold create in rw parsed refl), f, q, r)
