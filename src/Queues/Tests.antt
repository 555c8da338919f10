-- ===== src/Queues/Tests.antt =====
-- Runs of the play queue handlers, and their theorem at a concrete request.
use gonic.Base.{false, [], ◌∷◌, codes, pos}
use gonic.Specid
use gonic.Specid.{SpecId}
use gonic.Params.{Params}
use gonic.Params.Ids
use gonic.Db.{User}
use gonic.Queues.{PlayQueue}

abbrev user : User
user = record { id = pos 1; name = codes "alice"; password = codes "pw"; is_admin = false }

abbrev request : Params
request = (codes "id", codes "tr-7" ∷ codes "al-2" ∷ codes "pe-3" ∷ []) ∷ []

abbrev track_seven : SpecId
track_seven = record { typ = Specid.track; value = pos 7; string_value = [] }

abbrev episode_three : SpecId
episode_three = record { typ = Specid.podcast_episode; value = pos 3; string_value = [] }

abbrev others_queue : PlayQueue
others_queue = record {
  user_id = pos 2;
  current = [];
  position = pos 0;
  changed_by = [];
  items = codes "tr-1";
}
