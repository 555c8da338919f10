-- ===== src/Fileutil/Tests.antt =====
-- Runs of fileutil.go, and its theorems at concrete paths.
use gonic.Base.{
  ℕ, zero, suc, ◌≡◌, refl, [], ◌∷◌, some, arith, ok, err, Str, codes, str_eq, has_prefix, All,
  length, ◌≢◌, if◌then◌else◌,
}
use gonic.FilePath.{
  slash, split_on, resolve, clean, join, ext, absolute, IsName, parts_under, starts_with,
}
use gonic.Fileutil.{within, safe_join, escapes_base, safe, Stat, found, missing}
use gonic.Fileutil.Join.{safe_join_lem}
use gonic.Fileutil.Names.{safe_fits, IsAllowed}

abbrev music : Str
music = codes "music"

name : {p : Str} → p ≢ [] → p ≢ codes "." → p ≢ codes ".." → All (λ c. c ≢ slash) p → IsName p
name a b c d = record { some_text = a; not_dot = b; not_dot_dot = c; one_part = d }

music-IsName : All IsName (music ∷ [])
music-IsName = (name (λ e. cc) (λ e. cc) (λ e. cc) (omega arith), tt)

sibling-IsName : All IsName (codes "music2" ∷ codes "a" ∷ [])
sibling-IsName = (
  name (λ e. cc) (λ e. cc) (λ e. cc) (omega arith),
  (name (λ e. cc) (λ e. cc) (λ e. cc) (omega arith), tt),
)

safe_join_runs :
    (safe_join (codes "/music") (codes "a/../b") ≡ ok (codes "/music/b"))
    × (safe_join (codes "/music") (codes "../music2/a") ≡ err escapes_base)
unfolding safe_join within clean join str_eq has_prefix
safe_join_runs = (refl, refl)

-- The root directory holds nothing but itself, since its prefix would be two slashes.
root_refuses : safe_join (codes "/") (codes "a") ≡ err escapes_base
unfolding safe_join within clean join str_eq has_prefix
root_refuses = refl

safe_run : safe (codes "a b/c.m3u") ≡ some (codes "abc.m3u")
unfolding safe ext
safe_run = refl

safe_join_lem_example : safe_join (absolute music []) (codes "..") ≡ err escapes_base
unfolding parts_under resolve split_on starts_with str_eq
safe_join_lem_example = safe_join_lem music [] music-IsName (codes "..")

safe_fits_example : (r : Str) × (safe (codes "a b.m3u") ≡ some r) × (length r ≡ 6) × IsAllowed r
unfolding ext
safe_fits_example = safe_fits (codes "a b.m3u") (omega arith)

-- Letters.
abbrev repeated : ℕ → Str
repeated zero = []
repeated (suc n) = b'a' ∷ repeated n

-- The first name is taken.
taken : Str → Stat (Unit {0})
taken p = if str_eq p (codes "/pod/a.mp3") then found else missing
