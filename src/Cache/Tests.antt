-- ===== src/Cache/Tests.antt =====
-- Runs of cache.go, and its theorems at a concrete directory.
use gonic.Base.{
  ℕ, ◌*◌, ◌≤◌, ◌≡◌, refl, Bool, true, [], ◌∷◌, ◌++◌, All, Str, codes, pos, negsuc, arith, wrap64,
}
use mathlib.Core.List.{Perm}
use gonic.Cache.{File, DirCache, total_size, sort_by_time, eject_loop, eject, done, panicked}
use gonic.Cache.Eject.{LastNeeded, eject_lem, eject_negative}

abbrev file : Str → ℕ → ℕ → File
file p size t = record { path = p; size = size; mod_time = t }

abbrev new_file : File
new_file = file (codes "new") 600_000 9

abbrev old_file : File
old_file = file (codes "old") 700_000 2

abbrev one_mb : DirCache
one_mb = record { path = codes "/cache"; limit_mb = pos 1 }

abbrev succeeds : Str → Bool
succeeds p = true

eject_run :
    eject succeeds one_mb (new_file ∷ old_file ∷ [])
    ≡ record { kept = new_file ∷ []; removed = old_file ∷ []; end = done }
unfolding eject eject_loop sort_by_time wrap64
eject_run = refl

eject_lem_example :
    let o = eject succeeds one_mb (new_file ∷ old_file ∷ []) in
    (o.end ≡ done)
    × Perm (o.removed ++ o.kept) (new_file ∷ old_file ∷ [])
    × (total_size o.kept ≤ 1024 * 1024 * 1)
    × LastNeeded (1024 * 1024 * 1) (total_size o.kept) o.removed
    × All (λ f. All (λ g. f.mod_time ≤ g.mod_time) o.kept) o.removed
eject_lem_example =
    eject_lem succeeds (λ p. refl) one_mb 1 (new_file ∷ old_file ∷ []) refl (omega arith)

eject_negative_example :
    eject_loop succeeds 600_000 (negsuc 0) (new_file ∷ [])
    ≡ record { kept = []; removed = new_file ∷ []; end = panicked }
eject_negative_example = eject_negative succeeds (λ p. refl) 600_000 0 (new_file ∷ [])
