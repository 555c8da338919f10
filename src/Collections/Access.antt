-- ===== src/Collections/Access.antt =====
-- handlers_collection.go: who may write a collection, and its row in the table.
use gonic.Base.{
  ◌≡◌, ◌≢◌, refl, sym, ap, subst, ◌∙◌, inl, inr, not, List, [], ◌∷◌, ◌++◌, Option, none, some, ok,
  err, ◌>>=◌, arith, codes, str_eq, ℤ, int_eq, int_eq_iff, int_eq_refl, keep, Option-cases,
  Bool-cases,
}
use gonic.Specid
use gonic.Specid.{SpecId}
use gonic.Params.{Params, Error}
use gonic.Params.Ids
use gonic.Db.{User, Collection, Db}
use gonic.Collections.Handlers.{
  by_id, readable, owned, id_param, collection_by_id, collection_for_read_id, collection_for_read,
  collection_for_write, save,
}

by_id-id : (i : ℤ) (c : Collection) (cs : List Collection) → by_id i cs ≡ some c → c.id ≡ i
by_id-id i c [] h = cc
by_id-id i c (d ∷ cs) h = elim (Bool-cases (int_eq d.id i)) [
  | inl e ↦
      let h' : some d ≡ some c = rw e at h in
      let q : d ≡ c = cc h' in ap (λ x. x.id) (sym q) ∙ (int_eq_iff d.id i).0 e
  | inr e ↦ by_id-id i c cs (rw e at h)
]

readable-owned :
    (user : User) (d c : Collection)
    → (readable user d >>= owned user) ≡ ok c
    → (d ≡ c) × (d.user_id ≡ user.id)
readable-owned user d c h = elim (Bool-cases (int_eq d.user_id user.id)) [
  | inl e ↦ (let h' : ok d ≡ ok c = rw (e, e) at h in cc h', (int_eq_iff d.user_id user.id).0 e)
  | inr e ↦ elim (Bool-cases d.is_public) [
    | inl q ↦ (let h' : err 50 ≡ ok c = rw (e, q, e) at h in cc h')
    | inr q ↦ (let h' : err 50 ≡ ok c = rw (e, q) at h in cc h')
  ]
]

-- Who may write is the owner of a row that is there.
read_id-writer :
    (db : Db) (user : User) (id : SpecId) (c : Collection)
    → (collection_for_read_id db user id >>= owned user) ≡ ok c
    → (by_id c.id db.collections ≡ some c) × (c.user_id ≡ user.id)
unfolding collection_for_read_id collection_by_id
read_id-writer db user id c h = elim (Bool-cases (str_eq id.typ Specid.collection)) [
  | inr e ↦ (let h' : err 70 ≡ ok c = rw e at h in cc h')
  | inl e ↦ elim (Option-cases (by_id id.value db.collections)) [
    | inl n ↦ (let h' : err 70 ≡ ok c = rw (e, n) at h in cc h')
    | inr (d, f) ↦
        let r : (readable user d >>= owned user) ≡ ok c = rw (e, f) at h in
        let (q, o) = readable-owned user d c r in
        let g : by_id id.value db.collections ≡ some c = f ∙ ap some q in
        (
          subst (λ i. by_id i db.collections ≡ some c) (sym (by_id-id id.value c db.collections g))
              g,
          ap (λ x. x.user_id) (sym q) ∙ o,
        )
  ]
]

id_param-writer :
    (db : Db) (user : User) (x : SpecId × Option (Error Specid.Error)) (c : Collection)
    → ((id_param x >>= collection_for_read_id db user) >>= owned user) ≡ ok c
    → (by_id c.id db.collections ≡ some c) × (c.user_id ≡ user.id)
id_param-writer db user (id, none) c h = read_id-writer db user id c h
id_param-writer db user (id, some e) c h = cc

pub writer :
    (db : Db) (user : User) (p : Params) (c : Collection)
    → collection_for_write db user p ≡ ok c
    → (by_id c.id db.collections ≡ some c) × (c.user_id ≡ user.id)
unfolding collection_for_write collection_for_read
writer db user p c h = id_param-writer db user (Ids.get p (codes "id")) c h

pub by_id-append :
    (i : ℤ) (c : Collection) (cs ds : List Collection)
    → by_id i cs ≡ some c
    → by_id i (cs ++ ds) ≡ some c
by_id-append i c [] ds h = cc
by_id-append i c (d ∷ cs) ds h = ground (arith, by_id-append i c cs ds)

pub by_id-save :
    (i : ℤ) (c : Collection) (cs : List Collection) → i ≢ c.id → by_id i (save c cs) ≡ by_id i cs
unfolding save
by_id-save i c [] n = refl
by_id-save i c (d ∷ cs) n =
    ground (arith, by_id-save i c cs, int_eq_iff d.id c.id, int_eq_iff d.id i, int_eq_iff c.id i)

pub by_id-save_self :
    (c d : Collection) (cs : List Collection)
    → by_id d.id cs ≡ some c
    → c.id ≡ d.id
    → by_id d.id (save d cs) ≡ some d
unfolding save
by_id-save_self c d [] h e = cc
by_id-save_self c d (b ∷ cs) h e = ground (arith, by_id-save_self c d cs, int_eq_refl d.id)

pub by_id-keep :
    (i j : ℤ) (cs : List Collection)
    → i ≢ j
    → by_id i (keep (λ e. not (int_eq e.id j)) cs) ≡ by_id i cs
by_id-keep i j [] n = refl
by_id-keep i j (d ∷ cs) n = ground (arith, by_id-keep i j cs, int_eq_iff d.id j, int_eq_iff d.id i)
