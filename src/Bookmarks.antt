-- ===== src/Bookmarks.antt =====
-- server/ctrlsubsonic/handlers_bookmark.go: the bookmarks of users in tracks and episodes. A query
-- with a struct for its conditions passes over the fields that are zero, as gorm documents.
pub mod Invariant
pub mod Latest
mod Tests
use gonic.Base.{
  ℕ, suc, Bool, true, not, ◌&&◌, ◌||◌, List, [], ◌∷◌, ◌++◌, Option, none, some, Result, ok, err,
  ◌>>=◌, Str, codes, str_eq, ℤ, pos, int_eq, find, keep, if◌then◌else◌,
}
use gonic.Specid
use gonic.Specid.{SpecId}
use gonic.Params.{Params, Error}
use gonic.Params.Ids
use gonic.Params.Ints
use gonic.Params.Texts
use gonic.Db.{User}

-- A row of `Bookmark`.
pub record Bookmark : Type 0 where
  pub id : ℕ
  pub user_id : ℤ
  pub position : ℤ
  pub comment : Str
  pub entry_id_type : Str
  pub entry_id : ℤ

pub record Bookmarks : Type 0 where
  pub rows : List Bookmark
  pub next_id : ℕ

abbrev matches_id : ℤ → ℤ → Bool
matches_id value i = int_eq value (pos 0) || int_eq i value

-- The conditions of `FirstOrCreate`; a user's id is not zero.
abbrev pub matches : ℤ → SpecId → Bookmark → Bool
matches user_id id b =
    int_eq b.user_id user_id
    && (str_eq id.typ [] || str_eq b.entry_id_type id.typ)
    && matches_id id.value b.entry_id

-- The columns that `Save` writes to the first row that fits.
unfoldable pub save_first : (Bookmark → Bool) → ℤ → Str → List Bookmark → List Bookmark
save_first p position comment [] = []
save_first p position comment (b ∷ bs) =
    let rest = save_first p position comment bs in
    if p b then record b { position = position; comment = comment } ∷ bs else b ∷ rest

abbrev pub new_bookmark : ℕ → ℤ → SpecId → ℤ → Str → Bookmark
new_bookmark n user_id id position comment = record {
  id = n;
  user_id = user_id;
  position = position;
  comment = comment;
  entry_id_type = id.typ;
  entry_id = id.value;
}

abbrev pub put_found : Option Bookmark → ℤ → SpecId → ℤ → Str → Bookmarks → Bookmarks
put_found (some b) user_id id position comment st = record st {
  rows = save_first (matches user_id id) position comment st.rows;
}
put_found none user_id id position comment st = record {
  rows = st.rows ++ new_bookmark st.next_id user_id id position comment ∷ [];
  next_id = suc st.next_id;
}

-- `FirstOrCreate`, and `Save` of the row that it gives.
unfoldable pub put : ℤ → SpecId → ℤ → Str → Bookmarks → Bookmarks
put user_id id position comment st =
    put_found (find (matches user_id id) st.rows) user_id id position comment st

abbrev pub id_required : SpecId × Option (Error Specid.Error) → Result ℕ SpecId
id_required (id, none) = ok id
id_required (id, some e) = err 10

-- `ServeCreateBookmark`
unfoldable pub create : User → Params → Bookmarks → Result ℕ Bookmarks
create user p st = do
  id ← id_required (Ids.get p (codes "id"))
  ok (
      put user.id id (Ints.get_or p (codes "position") (pos 0))
        (Texts.get_or p (codes "comment") []) st)

-- The condition of `ServeDeleteBookmark`
abbrev pub is_at : ℤ → SpecId → Bookmark → Bool
is_at user_id id b =
    int_eq b.user_id user_id && str_eq b.entry_id_type id.typ && int_eq b.entry_id id.value

-- `ServeDeleteBookmark`
unfoldable pub delete : User → Params → Bookmarks → Result ℕ Bookmarks
delete user p st = do
  id ← id_required (Ids.get p (codes "id"))
  ok (record st { rows = keep (λ b. not (is_at user.id id b)) st.rows })

pub data Request : Type 0 where
  creating deleting : Params → Request

unfoldable pub serve : User → Request → Bookmarks → Result ℕ Bookmarks
serve user (creating p) = create user p
serve user (deleting p) = delete user p
