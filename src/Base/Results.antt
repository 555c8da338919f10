-- ===== src/Base/Results.antt =====
-- What a bind of results that succeeds went through.
use mathlib.Core.Path.{◌≡◌, refl}
use gonic.Base.Tests.{Result, ok, err, ◌>>=◌}

module _ {E A B : Type 0} where
  pub bind-ok :
      (r : Result E A) (f : A → Result E B) (b : B)
      → (r >>= f) ≡ ok b
      → (a : A) × (r ≡ ok a) × (f a ≡ ok b)
  bind-ok (err e) f b h = cc h
  bind-ok (ok a) f b h = (a, refl, h)

pub ok-inj : {E A : Type 0} (a b : A) → ◌≡◌ {A = Result E A} (ok a) (ok b) → a ≡ b
ok-inj a b h = cc h
