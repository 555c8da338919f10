-- ===== src/Scanner/Steps.antt =====
-- scanner.go: what a chain of steps that succeeds went through, and lists of names without a repetition.
use gonic.Base.{
  ◌≡◌, refl, sym, ◌∙◌, ap, inl, inr, Bool, true, false, List, [], ◌∷◌, Option, none, some, ok, err,
  ok-inj, Result, Str, str_eq, str_eq_iff, All, Bool-cases,
}
use gonic.Scanner.Session.{
  ScanError, Session, Scan, continue, require, pure, ◌>>=◌, transaction, rolled_back,
}

module _ {A B : Type 0} where
  continue-ok :
      (f : A → Scan B) (v : Result ScanError A × Session) (b : B) (s' : Session)
      → continue f v ≡ (ok b, s')
      → (a : A) × (s1 : Session) × (v ≡ (ok a, s1)) × (f a s1 ≡ (ok b, s'))
  continue-ok f (ok a, s1) b s' h = (a, s1, refl, h)
  continue-ok f (err e, s1) b s' h = cc h

  pub step-ok :
      (m : Scan A) (f : A → Scan B) (s : Session) (b : B) (s' : Session)
      → (m >>= f) s ≡ (ok b, s')
      → (a : A) × (s1 : Session) × (m s ≡ (ok a, s1)) × (f a s1 ≡ (ok b, s'))
  unfolding ◌>>=◌
  step-ok m f s b s' h = continue-ok f (m s) b s' h

module _ {A : Type 0} where
  pub require-ok :
      (e : ScanError) (o : Option A) (s : Session) (a : A) (s' : Session)
      → require e o s ≡ (ok a, s')
      → (o ≡ some a) × (s' ≡ s)
  unfolding require
  require-ok e none s a s' h = cc h
  require-ok e (some x) s a s' h = (cc h, sym (ap (λ p. p.1) h))

  pub pure-ok : (a b : A) (s s' : Session) → pure a s ≡ (ok b, s') → (a ≡ b) × (s ≡ s')
  unfolding pure
  pure-ok a b s s' h = (ok-inj a b (ap (λ p. p.0) h), ap (λ p. p.1) h)

  rolled_back-ok :
      (s : Session) (v : Result ScanError A × Session) (a : A) (s' : Session)
      → rolled_back s v ≡ (ok a, s')
      → v ≡ (ok a, s')
  unfolding rolled_back
  rolled_back-ok s (ok x, s1) a s' h = h
  rolled_back-ok s (err e, s1) a s' h = cc h

  -- A transaction that succeeds is its steps.
  pub transaction-ok :
      (m : Scan A) (s : Session) (a : A) (s' : Session)
      → transaction m s ≡ (ok a, s')
      → m s ≡ (ok a, s')
  unfolding transaction
  transaction-ok m s a s' h = rolled_back-ok s (m s) a s' h

pub str_eq_sym : (s t : Str) (b : Bool) → str_eq s t ≡ b → str_eq t s ≡ b
str_eq_sym s t true h = (str_eq_iff t s).1 (sym ((str_eq_iff s t).0 h))
str_eq_sym s t false h = elim (Bool-cases (str_eq t s)) [
  | inl e ↦ let k : true ≡ false = sym ((str_eq_iff s t).1 (sym ((str_eq_iff t s).0 e))) ∙ h in cc k
  | inr e ↦ e
]

-- A name is none of some others, and no two of some names are one.
abbrev pub Strange : Str → List Str → Type 0
Strange n = All (λ m. str_eq n m ≡ false)

abbrev pub Unrepeated : List Str → Type 0
Unrepeated [] = Unit
Unrepeated (n ∷ ns) = Strange n ns × Unrepeated ns
