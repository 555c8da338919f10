-- ===== src/Base/Int.antt =====
-- Signed integers over the native numbers, and their decimal texts (strconv.Itoa and Atoi).
use Prim.Native.Nat.{ℕ, zero, suc, ◌+◌, ◌-◌, ◌*◌, ◌/◌, ◌%◌, ◌^◌, ◌<◌, ◌≤◌}
use mathlib.Core.Bool.{Bool, true, false, ◌&&◌}
use mathlib.Core.List.{[], ◌∷◌}
use mathlib.Core.Option.{Option, none, some}
use mathlib.Core.Path.{◌≡◌, refl}
use mathlib.Core.Logic.{◌↔◌, inl, inr}
use native.Mathlib.Omega.{arith}
use gonic.Base.Tests.{◌==◌, ltb, leb, if◌then◌else◌, Bool-cases, Option-cases}
use gonic.Base.Lists.{All}
use gonic.Base.Text.{Str}

-- `negsuc n` is -(n + 1).
pub data ℤ : Type 0 where
  pos : ℕ → ℤ
  negsuc : ℕ → ℤ

-- The least value above the range of a 64 bit int.
abbrev pub int_limit : ℕ
int_limit = 2 ^ 63

abbrev pub in_int : ℤ → Bool
in_int (pos n) = ltb n int_limit
in_int (negsuc n) = ltb n int_limit

unfoldable pub int_eq : ℤ → ℤ → Bool
int_eq (pos m) (pos n) = m == n
int_eq (negsuc m) (negsuc n) = m == n
int_eq (pos m) (negsuc n) = false
int_eq (negsuc m) (pos n) = false

-- The decimal digits of a number below `fuel`, most significant first.
digits_below : ℕ → ℕ → Str → Str
digits_below zero n out = out
digits_below (suc fuel) n out =
    let rest = digits_below fuel (n / 10) ((b'0' + n % 10) ∷ out) in
    if ltb n 10 then (b'0' + n) ∷ out else rest

unfoldable pub format_ℕ : ℕ → Str
unfolding digits_below
format_ℕ n = digits_below (suc n) n []

-- strconv.Itoa, and %d
unfoldable pub itoa : ℤ → Str
unfolding format_ℕ
itoa (pos n) = format_ℕ n
itoa (negsuc n) = b'-' ∷ format_ℕ (n + 1)

abbrev pub is_digit : ℕ → Bool
is_digit c = leb b'0' c && leb c b'9'

-- The value of the digits behind `n`.
unfoldable pub read_digits : Str → ℕ → Option ℕ
read_digits [] n = some n
read_digits (c ∷ s) n = if is_digit c then read_digits s (n * 10 + (c - b'0')) else none

abbrev parse_ℕ : Str → Option ℕ
parse_ℕ [] = none
parse_ℕ (c ∷ s) = read_digits (c ∷ s) 0

abbrev signed : Bool → ℕ → Option ℤ
signed false n = if ltb n int_limit then some (pos n) else none
signed true zero = some (pos 0)
signed true (suc n) = if ltb n int_limit then some (negsuc n) else none

abbrev signed? : Bool → Option ℕ → Option ℤ
signed? negative none = none
signed? negative (some n) = signed negative n

-- strconv.Atoi: `none` on a syntax error and out of the range of an int.
unfoldable pub atoi : Str → Option ℤ
unfolding read_digits
atoi [] = none
atoi (c ∷ s) =
    if c == b'-'
    then signed? true (parse_ℕ s)
    else if c == b'+'
    then signed? false (parse_ℕ s)
    else signed? false (parse_ℕ (c ∷ s))

read_digits_below :
    (fuel n : ℕ) (out : Str)
    → n < fuel
    → read_digits (digits_below fuel n out) 0 ≡ read_digits out n
unfolding digits_below read_digits
read_digits_below zero n out h = absurd (omega arith)
read_digits_below (suc fuel) n out h =
    ground (arith, read_digits_below fuel (n / 10) ((b'0' + n % 10) ∷ out))

abbrev pub StartsDigit : Str → Type 0
StartsDigit [] = ⊥
StartsDigit (c ∷ s) = is_digit c ≡ true

digits_below-StartsDigit :
    (fuel n : ℕ) (out : Str) → n < fuel → StartsDigit (digits_below fuel n out)
unfolding digits_below
digits_below-StartsDigit zero n out h = absurd (omega arith)
digits_below-StartsDigit (suc fuel) n out h =
    ground (arith, digits_below-StartsDigit fuel (n / 10) ((b'0' + n % 10) ∷ out))

digits_below-digits :
    (fuel n : ℕ) (out : Str)
    → n < fuel
    → All (λ c. is_digit c ≡ true) out
    → All (λ c. is_digit c ≡ true) (digits_below fuel n out)
unfolding digits_below
digits_below-digits zero n out l h = h
digits_below-digits (suc fuel) n out l h = elim (Bool-cases (ltb n 10)) [
  | inl e ↦ rw e (ground arith, h)
  | inr e ↦
      rw e
        (digits_below-digits fuel (n / 10) ((b'0' + n % 10) ∷ out) (ground arith) (ground arith, h))
]

pub format-digits : (n : ℕ) → All (λ c. is_digit c ≡ true) (format_ℕ n)
unfolding format_ℕ
format-digits n = digits_below-digits (suc n) n [] (omega arith) tt

atoi_unsigned : (s : Str) → StartsDigit s → atoi s ≡ signed? false (read_digits s 0)
unfolding atoi
atoi_unsigned [] h = absurd h
atoi_unsigned (c ∷ s) h = ground arith

parse_ℕ_digits : (s : Str) → StartsDigit s → parse_ℕ s ≡ read_digits s 0
parse_ℕ_digits [] h = absurd h
parse_ℕ_digits (c ∷ s) h = refl

pub read_digits-format : (n : ℕ) → read_digits (format_ℕ n) 0 ≡ some n
unfolding format_ℕ read_digits
read_digits-format n = read_digits_below (suc n) n [] (omega arith)

pub format-StartsDigit : (n : ℕ) → StartsDigit (format_ℕ n)
unfolding format_ℕ
format-StartsDigit n = digits_below-StartsDigit (suc n) n [] (omega arith)

-- Every int is read back from its decimal text.
pub atoi-itoa : (z : ℤ) → in_int z ≡ true → atoi (itoa z) ≡ some z
unfolding itoa
atoi-itoa (pos n) h =
    rw (atoi_unsigned (format_ℕ n) (format-StartsDigit n), read_digits-format n) (ground arith)
atoi-itoa (negsuc n) h =
    unfold atoi in
    rw (parse_ℕ_digits (format_ℕ (n + 1)) (format-StartsDigit (n + 1)), read_digits-format (n + 1))
      (ground arith)

pub int_eq_iff : (a b : ℤ) → (int_eq a b ≡ true) ↔ (a ≡ b)
unfolding int_eq
int_eq_iff (pos m) (pos n) = (λ h. ground arith, λ h. ground arith)
int_eq_iff (negsuc m) (negsuc n) = (λ h. ground arith, λ h. ground arith)
int_eq_iff (pos m) (negsuc n) = (λ h. cc, λ h. cc)
int_eq_iff (negsuc m) (pos n) = (λ h. cc, λ h. cc)

signed-in_int : (b : Bool) (o : Option ℕ) (z : ℤ) → signed? b o ≡ some z → in_int z ≡ true
signed-in_int b none z h = cc
signed-in_int false (some n) z h = ground arith
signed-in_int true (some zero) z h = ground arith
signed-in_int true (some (suc n)) z h = ground arith

-- What is read is an int.
pub atoi-in_int : (s : Str) (z : ℤ) → atoi s ≡ some z → in_int z ≡ true
unfolding atoi
atoi-in_int [] z h = cc
atoi-in_int (c ∷ s) z h = ground (
  arith,
  signed-in_int true (parse_ℕ s) z,
  signed-in_int false (parse_ℕ s) z,
  signed-in_int false (parse_ℕ (c ∷ s)) z,
)

abbrev clamped : Bool → ℕ → ℤ
clamped false n = pos (if ltb n int_limit then n else int_limit - 1)
clamped true n =
    if n == 0 then pos 0 else negsuc (if ltb (n - 1) int_limit then n - 1 else int_limit - 1)

abbrev clamped? : Bool → Option ℕ → ℤ
clamped? negative none = pos 0
clamped? negative (some n) = clamped negative n

-- strconv.ParseUint behind `n`: it stops as soon as the value does not fit into 64 bits, whatever follows.
unfoldable pub read_uint : Str → ℕ → Option ℕ
read_uint [] n = some n
read_uint (c ∷ s) n =
    let more = n * 10 + (c - b'0') in
    let rest = read_uint s more in
    if is_digit c then (if ltb more (2 ^ 64) then rest else some (2 ^ 64 - 1)) else none

abbrev parse_uint : Str → Option ℕ
parse_uint [] = none
parse_uint (c ∷ s) = read_uint (c ∷ s) 0

read_digits-le : (s : Str) (n m : ℕ) → read_digits s n ≡ some m → n ≤ m
unfolding read_digits
read_digits-le [] n m h = ground arith
read_digits-le (c ∷ s) n m h = elim (Bool-cases (is_digit c)) [
  | inl e ↦ let le = read_digits-le s (n * 10 + (c - b'0')) m (rw e at h) in omega (arith, le)
  | inr e ↦ (let k : none ≡ some m = rw e at h in cc k)
]

-- A number that fits is read by both.
read_uint-read_digits :
    (s : Str) (n m : ℕ) → read_digits s n ≡ some m → m < 2 ^ 64 → read_uint s n ≡ some m
unfolding read_digits read_uint
read_uint-read_digits [] n m h l = h
read_uint-read_digits (c ∷ s) n m h l = elim (Bool-cases (is_digit c)) [
  | inl e ↦
      let k : read_digits s (n * 10 + (c - b'0')) ≡ some m = rw e at h in
      let le = read_digits-le s (n * 10 + (c - b'0')) m k in
      let fits : ltb (n * 10 + (c - b'0')) (2 ^ 64) ≡ true = ground (arith, le) in
      rw (e, fits) (read_uint-read_digits s (n * 10 + (c - b'0')) m k l)
  | inr e ↦ (let k : none ≡ some m = rw e at h in cc k)
]

-- The number that Atoi returns beside its error: 0 on a syntax error, the nearest int out of range.
unfoldable pub atoi_value : Str → ℤ
unfolding read_uint
atoi_value [] = pos 0
atoi_value (c ∷ s) =
    if c == b'-'
    then clamped? true (parse_uint s)
    else if c == b'+'
    then clamped? false (parse_uint s)
    else clamped? false (parse_uint (c ∷ s))

clamped-signed :
    (b : Bool) (s : Str) (z : ℤ) → signed? b (parse_ℕ s) ≡ some z → clamped? b (parse_uint s) ≡ z
clamped-signed b [] z h = cc h
clamped-signed b (c ∷ s) z h = elim (Option-cases (read_digits (c ∷ s) 0)) [
  | inl n ↦ (let k : none ≡ some z = rw n at h in cc k)
  | inr (m, e) ↦
      let k : signed b m ≡ some z = rw e at h in
      let same = read_uint-read_digits (c ∷ s) 0 m e (signed-lt b m z k) in
      rw same (clamped-value b m z k)
]
  where
    signed-lt : (b : Bool) (m : ℕ) (z : ℤ) → signed b m ≡ some z → m < 2 ^ 64
    signed-lt false m z h = ground arith
    signed-lt true zero z h = omega arith
    signed-lt true (suc m) z h = ground arith

    clamped-value : (b : Bool) (m : ℕ) (z : ℤ) → signed b m ≡ some z → clamped b m ≡ z
    clamped-value false m z h = ground arith
    clamped-value true zero z h = ground arith
    clamped-value true (suc m) z h = ground arith

-- Without an error it is the number read.
pub atoi_value-atoi : (s : Str) (z : ℤ) → atoi s ≡ some z → atoi_value s ≡ z
unfolding atoi atoi_value
atoi_value-atoi [] z h = cc
atoi_value-atoi (c ∷ s) z h =
    ground
      (arith, clamped-signed true s z, clamped-signed false s z, clamped-signed false (c ∷ s) z)

-- k * z
abbrev pub scale : ℕ → ℤ → ℤ
scale k (pos n) = pos (k * n)
scale k (negsuc n) = if k == 0 then pos 0 else negsuc (k * (n + 1) - 1)

-- The residue of an integer modulo 2 ^ 64.
abbrev residue : ℤ → ℕ
residue (pos n) = n % 2 ^ 64
residue (negsuc n) = 2 ^ 64 - 1 - n % 2 ^ 64

-- What a 64 bit int holds after an overflow.
unfoldable pub wrap64 : ℤ → ℤ
wrap64 z = let r = residue z in if ltb r int_limit then pos r else negsuc (2 ^ 64 - 1 - r)

-- Nothing changes within the range of an int.
pub wrap64-in_int : (z : ℤ) → in_int z ≡ true → wrap64 z ≡ z
unfolding wrap64
wrap64-in_int (pos n) h = ground arith
wrap64-in_int (negsuc n) h = ground arith

pub int_eq_refl : (a : ℤ) → int_eq a a ≡ true
int_eq_refl a = (int_eq_iff a a).1 refl
