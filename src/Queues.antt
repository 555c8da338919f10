-- ===== src/Queues.antt =====
-- server/ctrlsubsonic/handlers_common.go: the saved play queues, with their items as db/db.go keeps
-- them in one text.
pub mod Items
pub mod Saved
mod Tests
use gonic.Base.{
  ℕ, Bool, ◌||◌, List, [], ◌∷◌, ◌++◌, map, Option, none, some, Result, ok, err, ◌>>=◌, Str, codes,
  str_eq, ℤ, pos, int_eq, find, keep, if◌then◌else◌,
}
use gonic.FilePath.{split_on}
use gonic.Specid
use gonic.Specid.{SpecId, zero_id, new, to_string}
use gonic.Params.{Params, Error}
use gonic.Params.Ids
use gonic.Params.Ints
use gonic.Params.Texts
use gonic.Db.{User}

-- A row of `PlayQueue`.
pub record PlayQueue : Type 0 where
  pub user_id : ℤ
  pub current : Str
  pub position : ℤ
  pub changed_by : Str
  pub items : Str

abbrev pub comma : ℕ
comma = b','

-- strings.Join at a comma
unfoldable pub join_commas : List Str → Str
join_commas [] = []
join_commas (s ∷ []) = s
join_commas (s ∷ t ∷ ss) = s ++ comma ∷ join_commas (t ∷ ss)

-- `join`
unfoldable pub join_ids : List SpecId → Str
unfolding join_commas
join_ids ids = join_commas (map to_string ids)

abbrev pub or_zero : Result Specid.Error SpecId → SpecId
or_zero (ok id) = id
or_zero (err e) = zero_id

-- `splitIDs`: a text that is no id counts as the zero id.
unfoldable pub split_ids : Str → List SpecId
split_ids [] = []
split_ids (c ∷ s) = map (λ p. or_zero (new p)) (split_on comma (c ∷ s))

abbrev pub playable : SpecId → Bool
playable id = str_eq id.typ Specid.track || str_eq id.typ Specid.podcast_episode

abbrev pub ids_required : List SpecId × Option (Error Specid.Error) → Result ℕ (List SpecId)
ids_required (ids, none) = ok ids
ids_required (ids, some e) = err 10

abbrev pub some_playable : List SpecId → Result ℕ (List SpecId)
some_playable [] = err 10
some_playable (id ∷ ids) = ok (id ∷ ids)

-- The row of a user, who has at most one: it is looked up before it is written. (Of several rows `Find`
-- would keep the last.)
abbrev pub queue_of : ℤ → List PlayQueue → Option PlayQueue
queue_of i = find (λ q. int_eq q.user_id i)

-- The first row of the user is overwritten; without one there is a new row.
unfoldable pub put : PlayQueue → List PlayQueue → List PlayQueue
put q [] = q ∷ []
put q (r ∷ rs) = if int_eq r.user_id q.user_id then q ∷ rs else r ∷ put q rs

-- `ServeSavePlayQueue`: the rows after it, or an error code.
unfoldable pub save_queue : User → Params → List PlayQueue → Result ℕ (List PlayQueue)
save_queue user p rows = do
  tracks ← ids_required (Ids.get_list p (codes "id"))
  track_ids ← some_playable (keep playable tracks)
  ok (
      put
        (record {
          user_id = user.id;
          current = to_string (Ids.get_or p (codes "current") zero_id);
          position = Ints.get_or p (codes "position") (pos 0);
          changed_by = Texts.get_or p (codes "c") [];
          items = join_ids track_ids;
        })
        rows)

-- The ids of the queue that `ServeGetPlayQueue` answers with; `none` if there is no queue.
abbrev pub items_of : Option PlayQueue → Option (List SpecId)
items_of none = none
items_of (some q) = some (split_ids q.items)

unfoldable pub get_queue : User → List PlayQueue → Option (List SpecId)
get_queue user rows = items_of (queue_of user.id rows)
