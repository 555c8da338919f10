-- ===== src/Scanner/Flag.antt =====
-- scanner/scanner.go: the flag `scanning`, which keeps scans apart. Any number of threads ask for a scan
-- or see to what the watcher has gathered; a step is one access to the flag.
pub mod Safety
use gonic.Base.{ℕ, Bool, true, false, ◌==◌, if◌then◌else◌, ◌≡◌, ◌≢◌}

-- Where a thread stands: out of a scan, in one, or sent away with `ErrAlreadyScanning`.
pub data Stand : Type 0 where
  out scanning refused : Stand

-- The flag, and the threads by their numbers.
pub record Threads : Type 0 where
  pub flag : Bool
  pub stands : ℕ → Stand

-- `StartScanning`: whether the flag was clear, and the flag after it
unfoldable pub start_scanning : Bool → Bool × Bool
start_scanning true = (false, true)
start_scanning false = (true, true)

-- `StopScanning`
unfoldable pub stop_scanning : Bool → Bool
stop_scanning flag = false

abbrev pub stand_after : Bool → Stand
stand_after true = scanning
stand_after false = refused

abbrev pub update : ℕ → Stand → (ℕ → Stand) → ℕ → Stand
update i a f j = if i == j then a else f j

-- A thread that is in no scan asks for one; every way out of a scan, an error or not, stops it.
pub data Step (s : Threads) : Threads → Type 0 where
  ask :
      (i : ℕ)
      → s.stands i ≢ scanning
      → Step s (record {
        flag = (start_scanning s.flag).1;
        stands = update i (stand_after (start_scanning s.flag).0) s.stands;
      })
  leave :
      (i : ℕ)
      → s.stands i ≡ scanning
      → Step s (record { flag = stop_scanning s.flag; stands = update i out s.stands })

abbrev pub initial : Threads
initial = record { flag = false; stands = λ i. out }

pub data Reach : Threads → Type 0 where
  here : Reach initial
  next : {s t : Threads} → Reach s → Step s t → Reach t
