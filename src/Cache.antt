-- ===== src/Cache.antt =====
-- cache/cache.go: `Eject` of the least recently used files of a cache directory.
pub mod Eject
mod Tests
use gonic.Base.{
  ℕ, ◌+◌, ◌-◌, ◌*◌, Bool, true, false, List, [], ◌∷◌, Str, Result, ok, err, ℤ, pos, negsuc, scale,
  wrap64, leb, ltb, if◌then◌else◌,
}

-- A file of the cache; `mod_time` counts from some moment before all of them.
pub record File : Type 0 where
  pub path : Str
  pub size : ℕ
  pub mod_time : ℕ

pub record DirCache : Type 0 where
  pub path : Str
  pub limit_mb : ℤ

abbrev pub total_size : List File → ℕ
total_size [] = 0
total_size (f ∷ fs) = f.size + total_size fs

insert_by_time : File → List File → List File
insert_by_time f [] = f ∷ []
insert_by_time f (g ∷ gs) =
    if leb f.mod_time g.mod_time then f ∷ g ∷ gs else g ∷ insert_by_time f gs

-- `sort.Slice` by modification time.
pub sort_by_time : List File → List File
unfolding insert_by_time
sort_by_time [] = []
sort_by_time (f ∷ fs) = insert_by_time f (sort_by_time fs)

-- total > int64(limitMB)*1024*1024
abbrev pub exceeds : ℕ → ℤ → Bool
exceeds total (pos limit) = ltb limit total
exceeds total (negsuc n) = true

-- int64(limitMB)*1024*1024, which wraps around in 64 bits
abbrev pub limit_bytes : DirCache → ℤ
limit_bytes c = wrap64 (scale (1024 * 1024) c.limit_mb)

-- How `Eject` ends: as it should, with an error of os.Remove, or by a panic on an empty slice.
pub data End : Type 0 where
  done remove_failed panicked : End

-- What stays on disk, the files that were removed, oldest first, and the end.
pub record Outcome : Type 0 where
  pub kept : List File
  pub removed : List File
  pub end : End

abbrev ends : List File → End → Outcome
ends fs e = record { kept = fs; removed = []; end = e }

abbrev removing : File → Outcome → Outcome
removing f o = record o { removed = f ∷ o.removed }

module _ (remove : Str → Bool) where
  -- The loop of `Eject`; `remove` says whether os.Remove succeeds. `Eject` starts it with the sum of
  -- the sizes, so that the total is always the sum of those left, and never below the size taken off.
  pub eject_loop : ℕ → ℤ → List File → Outcome
  eject_loop total limit [] = if exceeds total limit then ends [] panicked else ends [] done
  eject_loop total limit (f ∷ fs) =
      let rest = eject_loop (total - f.size) limit fs in
      if exceeds total limit
      then (if remove f.path then removing f rest else ends (f ∷ fs) remove_failed)
      else ends (f ∷ fs) done

  -- `Eject` over the files that the walk of the directory finds.
  pub eject : DirCache → List File → Outcome
  eject c files = eject_loop (total_size files) (limit_bytes c) (sort_by_time files)
