-- ===== src/Collections/Handlers.antt =====
-- server/ctrlsubsonic/handlers_collection.go: who may read and change a collection, and the handlers
-- that change one.
use gonic.Base.{
  ℕ, suc, Bool, false, not, ◌&&◌, List, [], ◌∷◌, ◌++◌, Option, none, some, Result, ok, err, ◌>>=◌,
  Str, codes, str_eq, ℤ, pos, int_eq, find, keep, length, ltb, if◌then◌else◌,
}
use gonic.Specid
use gonic.Specid.{SpecId}
use gonic.Params.{Params, Error, no_values, invalid}
use gonic.Params.Ids
use gonic.Params.Texts
use gonic.Params.Bools
use gonic.Db.{User, Collection, Db}
use gonic.Collections.{set_albums, album_ids, stats}

-- The database, and the collections whose cached covers were purged, the last one first.
pub record State : Type 0 where
  pub db : Db
  pub purged : List ℤ

pub record Rendered : Type 0 where
  pub id : ℤ
  pub name : Str
  pub comment : Str
  pub is_public : Bool
  pub owner : Str
  pub album_count : ℕ
  pub song_count : ℕ
  pub duration : ℕ
  pub created : ℕ
  pub changed : ℕ
  pub has_cover : Bool

-- A response, by its Subsonic error code if it is one.
pub data Response : Type 0 where
  failure : ℕ → Response
  empty : Response
  collection : Rendered → Response

abbrev pub by_id : ℤ → List Collection → Option Collection
by_id i = find (λ c. int_eq c.id i)

abbrev pub or_missing : Option Collection → Result ℕ Collection
or_missing none = err 70
or_missing (some c) = ok c

-- `collectionByID`, with the handler's answer to its errors.
unfoldable pub collection_by_id : Db → SpecId → Result ℕ Collection
collection_by_id db id =
    if str_eq id.typ Specid.collection then or_missing (by_id id.value db.collections) else err 70

abbrev pub readable : User → Collection → Result ℕ Collection
readable user c = if not (int_eq c.user_id user.id) && not c.is_public then err 50 else ok c

-- `collectionForReadID`
unfoldable pub collection_for_read_id : Db → User → SpecId → Result ℕ Collection
unfolding collection_by_id
collection_for_read_id db user id = do c ← collection_by_id db id; readable user c

abbrev pub id_param : SpecId × Option (Error Specid.Error) → Result ℕ SpecId
id_param (id, none) = ok id
id_param (id, some e) = err 10

-- `collectionForRead`
unfoldable pub collection_for_read : Db → User → Params → Result ℕ Collection
unfolding collection_for_read_id
collection_for_read db user p = do
  id ← id_param (Ids.get p (codes "id"))
  collection_for_read_id db user id

abbrev pub owned : User → Collection → Result ℕ Collection
owned user c = if int_eq c.user_id user.id then ok c else err 50

-- `collectionForWrite`
unfoldable pub collection_for_write : Db → User → Params → Result ℕ Collection
unfolding collection_for_read
collection_for_write db user p = do c ← collection_for_read db user p; owned user c

abbrev album_id : Result Specid.Error SpecId → Result ℕ ℤ
album_id (err e) = err 10
album_id (ok id) = if str_eq id.typ Specid.album then ok id.value else err 10

abbrev cons_ok : ℤ → Result ℕ (List ℤ) → Result ℕ (List ℤ)
cons_ok i (err e) = err e
cons_ok i (ok ids) = ok (i ∷ ids)

-- The loop of `collectionAlbumIDs`: an empty text is passed over.
unfoldable pub parse_album_ids : List Str → Result ℕ (List ℤ)
parse_album_ids [] = ok []
parse_album_ids (v ∷ vs) =
    let rest = parse_album_ids vs in
    if str_eq v [] then rest else (album_id (Specid.new v) >>= λ i. cons_ok i rest)

abbrev album_values : List Str × Option (Error (Unit {0})) → Result ℕ (List ℤ)
album_values (vs, none) = parse_album_ids vs
album_values (vs, some no_values) = parse_album_ids vs
album_values (vs, some (invalid e)) = err 10

-- `collectionAlbumIDs`
unfoldable pub collection_album_ids : Params → Str → Result ℕ (List ℤ)
collection_album_ids p key = album_values (Texts.get_list p key)

abbrev owner_name : Option User → Str
owner_name none = []
owner_name (some u) = u.name

-- `collectionRender`; the owner is there if the query preloaded it.
unfoldable pub render : Db → Collection → Option User → Rendered
render db c owner =
    let (count, total) = stats c.id db in
    record {
      id = c.id;
      name = c.name;
      comment = c.comment;
      is_public = c.is_public;
      owner = owner_name owner;
      album_count = length (album_ids c.id db);
      song_count = count;
      duration = total;
      created = c.created_at;
      changed = c.updated_at;
      has_cover = ltb 0 (length (album_ids c.id db));
    }

-- gorm's Save of a row that is there.
unfoldable pub save : Collection → List Collection → List Collection
save c [] = []
save c (d ∷ cs) = if int_eq d.id c.id then c ∷ cs else d ∷ save c cs

abbrev with_collections : List Collection → Db → Db
with_collections cs db = record db { collections = cs }

-- `ServeCreateCollection` from its album ids on: the row and its albums are one transaction.
unfoldable pub create : ℕ → User → Params → Str → List ℤ → State → State × Response
create now user p name ids st =
    let c : Collection = record {
      id = pos st.db.next_collection;
      user_id = user.id;
      name = name;
      comment = Texts.get_or p (codes "comment") [];
      is_public = Bools.get_or p (codes "public") false;
      created_at = now;
      updated_at = now;
    } in
    let d : Db = st.db in
    let db : Db = set_albums c.id ids (record d {
      collections = d.collections ++ c ∷ [];
      next_collection = suc d.next_collection;
    }) in
    (record st { db = db }, collection (render db c none))

abbrev pub create_with :
    ℕ
    → User
    → Params
    → Str × Option (Error (Unit {0}))
    → Result ℕ (List ℤ)
    → State
    → State × Response
create_with now user p (name, some e) ids st = (st, failure 10)
create_with now user p (name, none) (err code) st = (st, failure code)
create_with now user p (name, none) (ok ids) st = create now user p name ids st

-- `ServeCreateCollection`
unfoldable pub serve_create : ℕ → User → Params → State → State × Response
unfolding create
serve_create now user p st =
    create_with now user p (Texts.get p (codes "name")) (collection_album_ids p (codes "albumId"))
      st

-- `if val, err := …; err == nil` over a field.
abbrev given : {F A : Type 0} → A → A × Option (Error F) → A
given old (v, none) = v
given old (v, some e) = old

-- The row that `ServeUpdateCollection` saves.
unfoldable pub edited : ℕ → Params → Collection → Collection
edited now p c = record c {
  name = given c.name (Texts.get p (codes "name"));
  comment = given c.comment (Texts.get p (codes "comment"));
  is_public = given c.is_public (Bools.get p (codes "public"));
  updated_at = now;
}

abbrev pub replace_list : ℤ → Result ℕ (List ℤ) → State → State × Response
replace_list c (err code) st = (st, failure code)
replace_list c (ok ids) st =
    (record st { db = set_albums c ids st.db; purged = c ∷ st.purged }, empty)

abbrev pub if_given : Str × Option (Error (Unit {0})) → State → State × Response → State × Response
if_given (v, none) st r = r
if_given (v, some e) st r = (st, empty)

-- `ServeUpdateCollection` for a collection that the user may change: it saves the row before it
-- reads the album ids.
unfoldable pub update : ℕ → Params → Collection → State → State × Response
unfolding save edited
update now p c st =
    let d : Db = st.db in
    let saved : State = record st {
      db = with_collections (save (edited now p c) d.collections) d;
    } in
    if_given (Texts.get p (codes "albumId")) saved
      (replace_list c.id (collection_album_ids p (codes "albumId")) saved)

-- `ServeDeleteCollection`; the rows of its albums go with it (ON DELETE CASCADE).
unfoldable pub delete : Collection → State → State × Response
delete c st =
    let d : Db = st.db in
    (
      record st {
        db = record d {
          collections = keep (λ e. not (int_eq e.id c.id)) d.collections;
          collection_albums = keep (λ e. not (int_eq e.collection_id c.id)) d.collection_albums;
        };
        purged = c.id ∷ st.purged;
      },
      empty,
    )

abbrev pub for_writer :
    Result ℕ Collection → State → (Collection → State × Response) → State × Response
for_writer (err code) st k = (st, failure code)
for_writer (ok c) st k = k c

unfoldable pub serve_update : ℕ → User → Params → State → State × Response
unfolding update
serve_update now user p st =
    for_writer (collection_for_write st.db user p) st (λ c. update now p c st)

unfoldable pub serve_delete : User → Params → State → State × Response
unfolding delete
serve_delete user p st = for_writer (collection_for_write st.db user p) st (λ c. delete c st)

pub data Request : Type 0 where
  create_collection update_collection delete_collection : Params → Request

-- One call of a handler that writes, at a time.
unfoldable pub serve : ℕ → User → Request → State → State × Response
serve now user (create_collection p) st = serve_create now user p st
serve now user (update_collection p) st = serve_update now user p st
serve now user (delete_collection p) st = serve_delete user p st
