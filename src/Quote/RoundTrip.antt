-- ===== src/Quote/RoundTrip.antt =====
-- strconv: Unquote takes back what Quote made.
use gonic.Base.{
  ℕ, zero, suc, ◌+◌, ◌*◌, ◌/◌, ◌%◌, ◌<◌, ◌≡◌, refl, ap, ◌∙◌, inl, inr, Bool, true, ◌||◌, [], ◌∷◌,
  ◌++◌, append_assoc, Option, none, some, Str, All, All-append, Lacks, arith, ◌≢◌, hex_char,
  hex_value-hex_char, ltb, ◌==◌, Bool-cases, Option-cases,
}
use gonic.Quote.{
  quote_mark, backslash, letter_for, hex_digits, is_print, escaped, quote_char, quote_chars, quote,
  Place, plain, after_backslash, closed, hex, octal, valid_rune, move, add, unquote_from, unquote,
}

abbrev pow16 : ℕ → ℕ
pow16 zero = 1
pow16 (suc k) = pow16 k * 16

module _ (mark : ℕ) where
  unquote_from-move :
      (p q : Place) (d : Option ℕ) (c : ℕ) (s : Str)
      → move mark p c ≡ some (q, d)
      → unquote_from mark p (c ∷ s) ≡ add d (unquote_from mark q s)
  unfolding unquote_from
  unquote_from-move plain q d c s e = rw (unquote_from, e) refl
  unquote_from-move after_backslash q d c s e = rw (unquote_from, e) refl
  unquote_from-move closed q d c s e = (unfold move in cc e)
  unquote_from-move (hex left n) q d c s e = rw (unquote_from, e) refl
  unquote_from-move (octal left n) q d c s e = rw (unquote_from, e) refl

  unquote_hex-suc :
      (left n d : ℕ) (rest : Str)
      → d < 16
      → unquote_from mark (hex (suc (suc left)) n) (hex_char d ∷ rest)
        ≡ add none (unquote_from mark (hex (suc left) (n * 16 + d)) rest)
  unquote_hex-suc left n d rest h =
      unquote_from-move (hex (suc (suc left)) n) (hex (suc left) (n * 16 + d)) none (hex_char d)
        rest (unfold move in rw (hex_value-hex_char d h) refl)

  unquote_hex-last :
      (n d : ℕ) (rest : Str)
      → d < 16
      → valid_rune (n * 16 + d) ≡ true
      → unquote_from mark (hex (suc zero) n) (hex_char d ∷ rest)
        ≡ add (some (n * 16 + d)) (unquote_from mark plain rest)
  unquote_hex-last n d rest h v =
      unquote_from-move (hex (suc zero) n) plain (some (n * 16 + d)) (hex_char d) rest
        (unfold move in rw (hex_value-hex_char d h, v) refl)

add-none : (o : Option Str) → add none o ≡ o
add-none none = refl
add-none (some s) = refl

module _ (mark : ℕ) where
  -- The digits but the last are read into the number.
  unquote_from-hex_digits :
      (k left n m : ℕ) (rest : Str)
      → m < pow16 k
      → n ≡ k + suc left
      → unquote_from mark (hex n 0) (hex_digits k m ++ rest)
        ≡ unquote_from mark (hex (suc left) m) rest
  unfolding hex_digits
  unquote_from-hex_digits zero left n m rest h e =
      let z : m ≡ 0 = omega arith in let q : n ≡ suc left = omega arith in rw (z, q) refl
  unquote_from-hex_digits (suc k) left n m rest h e =
      let low : m % 16 < 16 = omega arith in
      let whole : m / 16 * 16 + m % 16 ≡ m = omega arith in
      rw (append_assoc (hex_digits k (m / 16)) (hex_char (m % 16) ∷ []) rest) (
        unquote_from-hex_digits k (suc left) n (m / 16) (hex_char (m % 16) ∷ rest) (omega arith)
          (omega arith)
        ∙ unquote_hex-suc mark left (m / 16) (m % 16) rest low
        ∙ add-none _
        ∙ ap (λ x. unquote_from mark (hex (suc left) x) rest) whole)

  unquote_from-number :
      (k m : ℕ) (rest : Str)
      → m < pow16 (suc k)
      → valid_rune m ≡ true
      → unquote_from mark (hex (suc k) 0) (hex_digits (suc k) m ++ rest)
        ≡ add (some m) (unquote_from mark plain rest)
  unfolding hex_digits
  unquote_from-number k m rest h v =
      let low : m % 16 < 16 = omega arith in
      let whole : m / 16 * 16 + m % 16 ≡ m = omega arith in
      rw (append_assoc (hex_digits k (m / 16)) (hex_char (m % 16) ∷ []) rest) (
        unquote_from-hex_digits k 0 (suc k) (m / 16) (hex_char (m % 16) ∷ rest) (omega arith)
          (omega arith)
        ∙ unquote_hex-last mark (m / 16) (m % 16) rest low (rw whole v)
        ∙ ap (λ x. add (some x) (unquote_from mark plain rest)) whole)

-- The opening of a number is read without a character.
module _ (rest : Str) where
  unquote-backslash :
      (s : Str)
      → unquote_from quote_mark plain (backslash ∷ s) ≡ unquote_from quote_mark after_backslash s
  unquote-backslash s =
      unquote_from-move quote_mark plain after_backslash none backslash s (unfold move in refl)
      ∙ add-none _

  unquote-letter :
      (l c : ℕ)
      → move quote_mark after_backslash l ≡ some (plain, some c)
      → unquote_from quote_mark plain (backslash ∷ l ∷ rest)
        ≡ add (some c) (unquote_from quote_mark plain rest)
  unquote-letter l c e =
      unquote-backslash (l ∷ rest)
      ∙ unquote_from-move quote_mark after_backslash plain (some c) l rest e

  unquote-number :
      (l k c : ℕ)
      → move quote_mark after_backslash l ≡ some (hex (suc k) 0, none)
      → c < pow16 (suc k)
      → valid_rune c ≡ true
      → unquote_from quote_mark plain (backslash ∷ l ∷ (hex_digits (suc k) c ++ rest))
        ≡ add (some c) (unquote_from quote_mark plain rest)
  unquote-number l k c e h v =
      unquote-backslash (l ∷ (hex_digits (suc k) c ++ rest))
      ∙ unquote_from-move quote_mark after_backslash (hex (suc k) 0) none l
          (hex_digits (suc k) c ++ rest) e
      ∙ add-none _
      ∙ unquote_from-number quote_mark k c rest h v

  unquote-escaped :
      (c : ℕ)
      → valid_rune c ≡ true
      → unquote_from quote_mark plain (backslash ∷ (escaped c ++ rest))
        ≡ add (some c) (unquote_from quote_mark plain rest)
  unquote-escaped c v = elim (Bool-cases (ltb c 32 || c == 127)) [
    | inl small ↦ rw small (unquote-number b'x' 1 c (unfold move in refl) (ground arith) v)
    | inr other ↦ elim (Bool-cases (ltb c 0x10000)) [
      | inl short ↦
          rw (other, short) (unquote-number b'u' 3 c (unfold move in refl) (ground arith) v)
      | inr long ↦ rw (other, long) (unquote-number b'U' 7 c (unfold move in refl) (ground arith) v)
    ]
  ]

  unquote-plain :
      (c : ℕ)
      → move quote_mark plain c ≡ some (plain, some c)
      → unquote_from quote_mark plain (c ∷ rest) ≡ add (some c) (unquote_from quote_mark plain rest)
  unquote-plain c e = unquote_from-move quote_mark plain plain (some c) c rest e

letter_for-move :
    (c l : ℕ) → letter_for c ≡ some l → move quote_mark after_backslash l ≡ some (plain, some c)
unfolding move
letter_for-move c l e = ground arith

hex_char-ne : (d : ℕ) → hex_char d ≢ 10
unfolding hex_char
hex_char-ne d = ground arith

hex_digits-Lacks : (k n : ℕ) → Lacks 10 (hex_digits k n)
unfolding hex_digits
hex_digits-Lacks zero n = tt
hex_digits-Lacks (suc k) n =
    All-append (λ c. c ≢ 10) (hex_digits k (n / 16)) (hex_char (n % 16) ∷ [])
      (hex_digits-Lacks k (n / 16)) (hex_char-ne (n % 16), tt)

escaped-Lacks : (c : ℕ) → Lacks 10 (escaped c)
escaped-Lacks c = elim (Bool-cases (ltb c 32 || c == 127)) [
  | inl small ↦ rw small (omega arith, hex_digits-Lacks 2 c)
  | inr other ↦ elim (Bool-cases (ltb c 0x10000)) [
    | inl short ↦ rw (other, short) (omega arith, hex_digits-Lacks 4 c)
    | inr long ↦ rw (other, long) (omega arith, hex_digits-Lacks 8 c)
  ]
]

letter_for-ne : (c l : ℕ) → letter_for c ≡ some l → l ≢ 10
letter_for-ne c l e = ground arith

module _ (printable : ℕ → Bool) where
  unquote-quote_char :
      (c : ℕ) (rest : Str)
      → valid_rune c ≡ true
      → unquote_from quote_mark plain (quote_char printable c ++ rest)
        ≡ add (some c) (unquote_from quote_mark plain rest)
  unfolding quote_char
  unquote-quote_char c rest v = elim (Bool-cases (c == quote_mark || c == backslash)) [
    | inl mark ↦ rw mark (unquote-letter rest c c (unfold move in ground arith))
    | inr other ↦ elim (Bool-cases (is_print printable c)) [
      | inl shown ↦ rw (other, shown) (unquote-plain rest c (unfold move in ground arith))
      | inr hidden ↦ elim (Option-cases (letter_for c)) [
        | inl none_for ↦ rw (other, hidden, none_for) (unquote-escaped rest c v)
        | inr (l, e) ↦ rw (other, hidden, e) (unquote-letter rest l c (letter_for-move c l e))
      ]
    ]
  ]

  unquote-quote_chars :
      (s : Str)
      → All (λ c. valid_rune c ≡ true) s
      → unquote_from quote_mark plain (quote_chars printable s ++ quote_mark ∷ []) ≡ some s
  unfolding quote_chars
  unquote-quote_chars [] h = (unfold unquote_from move in refl)
  unquote-quote_chars (c ∷ s) (v, h) =
      rw (append_assoc (quote_char printable c) (quote_chars printable s) (quote_mark ∷ [])) (
        unquote-quote_char c (quote_chars printable s ++ quote_mark ∷ []) v
        ∙ ap (add (some c)) (unquote-quote_chars s h))

  -- Unquote gives back each text that was quoted, if it is one of valid code points, whichever
  -- characters past ASCII are printable.
  pub unquote-quote :
      (s : Str) → All (λ c. valid_rune c ≡ true) s → unquote (quote printable s) ≡ some s
  unfolding unquote quote
  unquote-quote s h = unquote-quote_chars s h

  quote_char-Lacks : (c : ℕ) → Lacks 10 (quote_char printable c)
  unfolding quote_char
  quote_char-Lacks c = elim (Bool-cases (c == quote_mark || c == backslash)) [
    | inl mark ↦ rw mark (omega arith, (ground arith, tt))
    | inr other ↦ elim (Bool-cases (is_print printable c)) [
      | inl shown ↦ rw (other, shown) (ground arith, tt)
      | inr hidden ↦ elim (Option-cases (letter_for c)) [
        | inl none_for ↦ rw (other, hidden, none_for) (omega arith, escaped-Lacks c)
        | inr (l, e) ↦ rw (other, hidden, e) (omega arith, (letter_for-ne c l e, tt))
      ]
    ]
  ]

  quote_chars-Lacks : (s : Str) → Lacks 10 (quote_chars printable s)
  unfolding quote_chars
  quote_chars-Lacks [] = tt
  quote_chars-Lacks (c ∷ s) =
      All-append (λ d. d ≢ 10) (quote_char printable c) (quote_chars printable s)
        (quote_char-Lacks c) (quote_chars-Lacks s)

  -- A quoted text stands on one line.
  pub quote-Lacks : (s : Str) → Lacks 10 (quote printable s)
  unfolding quote
  quote-Lacks s = (
    omega arith,
    All-append (λ d. d ≢ 10) (quote_chars printable s) (quote_mark ∷ []) (quote_chars-Lacks s)
        (omega arith, tt),
  )
