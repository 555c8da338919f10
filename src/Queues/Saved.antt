-- ===== src/Queues/Saved.antt =====
-- handlers_common.go: the queue that was saved is the one that is answered with.
use gonic.Params.{Params}
use gonic.Params.Ids
use gonic.Params.Ints
use gonic.Params.Texts
