-- ===== src/Collections/Refused.antt =====
-- handlers_collection.go: what a request with album ids that cannot be read leaves behind.
use gonic.Base.{ℕ, ◌≡◌, refl, ap, Option, none, some, ok, err, Str, codes}
use gonic.Params.{Params, Error}
use gonic.Params.Texts
use gonic.Db.{User, Collection, Db}
use gonic.Collections.Handlers.{
  State, Response, failure, collection_for_write, collection_album_ids, save, edited, create_with,
  serve_create, update, if_given, serve_update,
}

create_with-err :
    (now code : ℕ) (user : User) (p : Params) (x : Str × Option (Error (Unit {0}))) (st : State)
    → (create_with now user p x (err code) st).0 ≡ st
create_with-err now code user p (name, none) st = refl
create_with-err now code user p (name, some e) st = refl

if_given-none :
    (x : Str × Option (Error (Unit {0}))) (st : State) (r : State × Response)
    → x.1 ≡ none
    → if_given x st r ≡ r
if_given-none (v, none) st r h = refl
if_given-none (v, some e) st r h = cc

-- With album ids that cannot be read, creating a collection leaves the state as it was, while
-- changing one, which the user may, answers the same error with the new name, comment and
-- visibility already saved.
pub bad_albums :
    (now code : ℕ) (user : User) (p : Params) (c : Collection) (st : State)
    → collection_album_ids p (codes "albumId") ≡ err code
    → (Texts.get p (codes "albumId")).1 ≡ none
    → collection_for_write st.db user p ≡ ok c
    → ((serve_create now user p st).0 ≡ st)
      × ((serve_update now user p st).1 ≡ failure code)
      × ((serve_update now user p st).0.db.collections ≡ save (edited now p c) st.db.collections)
unfolding serve_create serve_update update
bad_albums now code user p c st bad given write = (
  rw bad (create_with-err now code user p (Texts.get p (codes "name")) st),
  rw (write, bad) (ap (λ r. r.1) (updated)),
  rw (write, bad) (ap (λ r. r.0.db.collections) (updated)),
)
  where
    d : Db
    d = st.db

    saved : State
    saved = record st { db = record d { collections = save (edited now p c) d.collections } }

    updated :
        if_given (Texts.get p (codes "albumId")) saved (saved, failure code) ≡ (saved, failure code)
    updated = if_given-none (Texts.get p (codes "albumId")) saved (saved, failure code) given
