-- ===== src/Scanner/Watch.antt =====
-- scanner/scanner.go: the loop of `ExecuteWatch`, a step for each thing that it selects. What the
-- watcher reports, what os.Stat says of a path, and whether a scan runs already come with the event.
pub mod Armed
use gonic.Base.{
  Bool, true, false, not, ◌&&◌, ◌||◌, List, [], ◌∷◌, Option, none, some, Str, str_eq, any,
  if◌then◌else◌,
}
use gonic.FilePath.{dir}

-- `batchSeen`, `batchClean`, and whether the timer runs.
pub record Watch : Type 0 where
  pub seen : List Str
  pub clean : Bool
  pub armed : Bool

abbrev pub not_watching : Watch
not_watching = record { seen = []; clean = false; armed = false }

pub data Event : Type 0 where
  -- the timer fires, and `StartScanning` fails if a scan runs
  fired : (busy : Bool) → Event
  -- a path was removed, or created or written, and os.Stat says whether it is a folder
  notified : (removed written : Bool) → (path : Str) → (is_dir : Option Bool) → Event
  failed : Event

-- What the loop asks for: a scan with the clean up, or one of some folders.
pub data Request : Type 0 where
  scan_and_clean : Request
  scan_folders : List Str → Request

abbrev pub put_path : Str → List Str → List Str
put_path p seen = if any (str_eq p) seen then seen else p ∷ seen

abbrev pub on_timer : Bool → Bool → Watch → Watch × Option Request
on_timer true true st = (record { seen = []; clean = false; armed = false }, none)
on_timer true false st = (record { seen = []; clean = false; armed = false }, some scan_and_clean)
on_timer false true st = (record st { armed = false }, none)
on_timer false false st = (record st { seen = []; armed = false }, some (scan_folders st.seen))

abbrev pub on_stat : Str → Option Bool → Watch → Watch
on_stat path none st = st
on_stat path (some is_dir) st = record st {
  seen = put_path (if is_dir then path else dir path) st.seen;
  armed = true;
}

unfoldable pub watch_step : Event → Watch → Watch × Option Request
watch_step (fired busy) st = on_timer st.clean busy st
watch_step (notified removed written path is_dir) st =
    if removed
    then (record st { clean = true; armed = true }, none)
    else if written
    then (on_stat path is_dir st, none)
    else (st, none)
watch_step failed st = (st, none)

abbrev pub requests : Option Request → List Request → List Request
requests none rs = rs
requests (some r) rs = r ∷ rs

-- The loop over some events: where it ends, and what it asked for.
unfoldable pub watch : List Event → Watch → Watch × List Request
unfolding watch_step
watch [] st = (st, [])
watch (e ∷ es) st =
    let (st1, r) = watch_step e st in let (st2, rs) = watch es st1 in (st2, requests r rs)
