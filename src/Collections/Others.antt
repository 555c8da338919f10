-- ===== src/Collections/Others.antt =====
-- handlers_collection.go: no request of a user changes a collection of another user.
use gonic.Base.{
  ℕ, suc, ◌≤◌, ◌≡◌, ◌≢◌, refl, sym, ap, subst, ◌∙◌, Bool, false, not, List, [], ◌∷◌, ◌++◌, Option,
  none, some, Result, ok, err, arith, Str, codes, ℤ, pos, int_eq, int_eq_iff, keep,
}
use native.Mathlib.Nat.{le_refl}
use gonic.Params.{Params, Error}
use gonic.Params.Texts
use gonic.Params.Bools
use gonic.Db.{User, Collection, Db}
use gonic.Collections.{set_albums, album_ids}
use gonic.Collections.Albums.{album_ids-set_albums, keep_others}
use gonic.Collections.Access.{writer, by_id-append, by_id-save, by_id-keep}
use gonic.Collections.Handlers.{
  State, Response, by_id, collection_for_write, collection_album_ids, save, edited, create,
  create_with, serve_create, update, replace_list, if_given, for_writer, serve_update, delete,
  serve_delete, Request, create_collection, update_collection, delete_collection, serve,
}

-- No row has an id that the database has yet to give.
abbrev pub IsFresh : Db → Type 0
IsFresh db = (i : ℕ) → db.next_collection ≤ i → by_id (pos i) db.collections ≡ none

-- A collection's row and its albums stay, and the ids to come stay unused.
abbrev pub Kept : Collection → Db → Db → Type 0
Kept c db after =
    (by_id c.id after.collections ≡ some c)
    × (album_ids c.id after ≡ album_ids c.id db)
    × IsFresh after

by_id-save-none :
    (i : ℤ) (c : Collection) (cs : List Collection) → by_id i cs ≡ none → by_id i (save c cs) ≡ none
unfolding save
by_id-save-none i c [] h = refl
by_id-save-none i c (d ∷ cs) h =
    ground
      (arith, by_id-save-none i c cs, int_eq_iff d.id c.id, int_eq_iff d.id i, int_eq_iff c.id i)

by_id-keep-none :
    (i : ℤ) (q : Collection → Bool) (cs : List Collection)
    → by_id i cs ≡ none
    → by_id i (keep q cs) ≡ none
by_id-keep-none i q [] h = refl
by_id-keep-none i q (d ∷ cs) h = ground (arith, by_id-keep-none i q cs)

by_id-append-none :
    (i : ℤ) (c : Collection) (cs : List Collection)
    → by_id i cs ≡ none
    → i ≢ c.id
    → by_id i (cs ++ c ∷ []) ≡ none
by_id-append-none i c [] h n = ground (arith, int_eq_iff c.id i)
by_id-append-none i c (d ∷ cs) h n = ground (arith, by_id-append-none i c cs)

module _ (c : Collection) (st : State) (fresh : IsFresh st.db)
    (there : by_id c.id st.db.collections ≡ some c) where
  same-Kept : Kept c st.db st.db
  same-Kept = (there, refl, fresh)

  not_next : c.id ≢ pos st.db.next_collection
  not_next e =
      let h : by_id c.id st.db.collections ≡ none =
        subst (λ i. by_id i st.db.collections ≡ none) (sym e)
          (fresh st.db.next_collection (le_refl st.db.next_collection)) in
      let q : none ≡ some c = sym h ∙ there in cc q

  create-Kept :
      (now : ℕ) (user : User) (p : Params) (name : Str) (ids : List ℤ)
      → Kept c st.db (create now user p name ids st).0.db
  unfolding create set_albums album_ids
  create-Kept now user p name ids = (
    by_id-append c.id c st.db.collections (row ∷ []) there,
    (album_ids-set_albums row.id c.id ids grown not_next).1,
    λ i h. by_id-append-none (pos i) row st.db.collections (fresh i (omega arith)) (ground arith),
  )
    where
      row : Collection
      row = record {
        id = pos st.db.next_collection;
        user_id = user.id;
        name = name;
        comment = Texts.get_or p (codes "comment") [];
        is_public = Bools.get_or p (codes "public") false;
        created_at = now;
        updated_at = now;
      }

      d : Db
      d = st.db

      grown : Db
      grown = record d {
        collections = d.collections ++ row ∷ [];
        next_collection = suc d.next_collection;
      }

  not_same :
      (e : Collection) → by_id e.id st.db.collections ≡ some e → c.user_id ≢ e.user_id → c.id ≢ e.id
  not_same e h n q =
      let r : some c ≡ some e = sym there ∙ ap (λ i. by_id i st.db.collections) q ∙ h in
      let k : c ≡ e = cc r in n (ap (λ x. x.user_id) k)

  replace-Kept :
      (i : ℤ) (ids : Result ℕ (List ℤ)) (saved : State)
      → c.id ≢ i
      → Kept c st.db saved.db
      → Kept c st.db (replace_list i ids saved).0.db
  unfolding set_albums
  replace-Kept i (err code) saved n k = k
  replace-Kept i (ok ids) saved n (a, b, f) =
      (a, (album_ids-set_albums i c.id ids saved.db n).1 ∙ b, f)

  if_given-Kept :
      (x : Str × Option (Error (Unit {0}))) (saved : State) (r : State × Response)
      → Kept c st.db saved.db
      → Kept c st.db r.0.db
      → Kept c st.db (if_given x saved r).0.db
  if_given-Kept (v, none) saved r k l = l
  if_given-Kept (v, some e) saved r k l = k

  update-Kept :
      (now : ℕ) (p : Params) (e : Collection) → c.id ≢ e.id → Kept c st.db (update now p e st).0.db
  unfolding update edited album_ids
  update-Kept now p e n =
      if_given-Kept (Texts.get p (codes "albumId")) saved
        (replace_list e.id (collection_album_ids p (codes "albumId")) saved) k
        (replace-Kept e.id (collection_album_ids p (codes "albumId")) saved n k)
    where
      d : Db
      d = st.db

      saved : State
      saved = record st { db = record d { collections = save (edited now p e) d.collections } }

      k : Kept c st.db saved.db
      k = (
        by_id-save c.id (edited now p e) d.collections n ∙ there,
        refl,
        λ i h. by_id-save-none (pos i) (edited now p e) d.collections (fresh i h),
      )

  delete-Kept : (e : Collection) → c.id ≢ e.id → Kept c st.db (delete e st).0.db
  unfolding delete album_ids
  delete-Kept e n = (
    by_id-keep c.id e.id st.db.collections n ∙ there,
    rw (keep_others c.id e.id st.db.collection_albums n) refl,
    λ i h. by_id-keep-none (pos i) (λ d. not (int_eq d.id e.id)) st.db.collections (fresh i h),
  )

  module _ (user : User) (other : c.user_id ≢ user.id) where
    created-Kept :
        (now : ℕ) (p : Params) (name : Str × Option (Error (Unit {0}))) (ids : Result ℕ (List ℤ))
        → Kept c st.db (create_with now user p name ids st).0.db
    created-Kept now p (name, some e) ids = same-Kept
    created-Kept now p (name, none) (err code) = same-Kept
    created-Kept now p (name, none) (ok ids) = create-Kept now user p name ids

    written-Kept :
        (p : Params) (k : Collection → State × Response)
        → ((e : Collection) → c.id ≢ e.id → Kept c st.db (k e).0.db)
        → Kept c st.db (for_writer (collection_for_write st.db user p) st k).0.db
    written-Kept p k h = go (collection_for_write st.db user p) refl
      where
        go :
            (x : Result ℕ Collection)
            → collection_for_write st.db user p ≡ x
            → Kept c st.db (for_writer x st k).0.db
        go (err code) q = same-Kept
        go (ok e) q =
            let (there_e, owner) = writer st.db user p e q in
            h e (not_same e there_e (λ r. other (r ∙ owner)))

    -- Whatever a user asks of the handlers that write, whether it is done or refused, the row and
    -- the album list of a collection that another user owns stay what they were, and ids that were
    -- not given out yet belong to no collection, before and after.
    pub others-Kept : (now : ℕ) (r : Request) → Kept c st.db (serve now user r st).0.db
    unfolding serve serve_create serve_update serve_delete
    others-Kept now (create_collection p) =
        created-Kept now p (Texts.get p (codes "name")) (collection_album_ids p (codes "albumId"))
    others-Kept now (update_collection p) =
        written-Kept p (λ e. update now p e st) (update-Kept now p)
    others-Kept now (delete_collection p) = written-Kept p (λ e. delete e st) delete-Kept
