-- ===== src/Quote.antt =====
-- strconv.Quote and strconv.Unquote of the Go library, on texts that are valid UTF-8: playlist files
-- hold names and comments in this form. Which characters past ASCII strconv.IsPrint takes is a
-- parameter.
pub mod RoundTrip
use gonic.Base.{
  ℕ, zero, suc, ◌+◌, ◌-◌, ◌*◌, ◌/◌, ◌%◌, Bool, true, false, ◌&&◌, ◌||◌, List, [], ◌∷◌, ◌++◌, Option,
  none, some, Str, codes, not, keep, cut, hex_char, hex_value, leb, ltb, ◌==◌, if◌then◌else◌,
}

abbrev pub quote_mark : ℕ
quote_mark = b'"'

abbrev pub backslash : ℕ
backslash = 92

-- The letter behind a backslash for a control character.
abbrev pub letter_for : ℕ → Option ℕ
letter_for c =
    if c == 7
    then some b'a'
    else if c == 8
    then some b'b'
    else if c == 12
    then some b'f'
    else if c == 10
    then some b'n'
    else if c == 13
    then some b'r'
    else if c == 9
    then some b't'
    else if c == 11
    then some b'v'
    else none

-- So many hexadecimal digits of a number.
unfoldable pub hex_digits : ℕ → ℕ → Str
hex_digits zero n = []
hex_digits (suc k) n = hex_digits k (n / 16) ++ hex_char (n % 16) ∷ []

abbrev pub escaped : ℕ → Str
escaped c =
    if ltb c 32 || c == 127
    then b'x' ∷ hex_digits 2 c
    else if ltb c 0x10000
    then b'u' ∷ hex_digits 4 c
    else b'U' ∷ hex_digits 8 c

abbrev pub letter_or_escaped : ℕ → Option ℕ → Str
letter_or_escaped c (some l) = backslash ∷ l ∷ []
letter_or_escaped c none = backslash ∷ escaped c

module _ (printable : ℕ → Bool) where
  -- strconv.IsPrint
  abbrev pub is_print : ℕ → Bool
  is_print c = if ltb c 128 then leb 32 c && ltb c 127 else printable c

  unfoldable pub quote_char : ℕ → Str
  quote_char c =
      if c == quote_mark || c == backslash
      then backslash ∷ c ∷ []
      else if is_print c
      then c ∷ []
      else letter_or_escaped c (letter_for c)

  unfoldable pub quote_chars : Str → Str
  quote_chars [] = []
  quote_chars (c ∷ s) = quote_char c ++ quote_chars s

  -- strconv.Quote
  unfoldable pub quote : Str → Str
  quote s = quote_mark ∷ (quote_chars s ++ quote_mark ∷ [])

-- Where the reader of a quoted text is: behind a whole character, behind a backslash, in a number
-- with so many digits to come, or behind the closing mark.
pub data Place : Type 0 where
  plain after_backslash closed : Place
  hex octal : ℕ → ℕ → Place

abbrev pub escape_of : ℕ → ℕ → Option ℕ
escape_of mark c =
    if c == b'a'
    then some 7
    else if c == b'b'
    then some 8
    else if c == b'f'
    then some 12
    else if c == b'n'
    then some 10
    else if c == b'r'
    then some 13
    else if c == b't'
    then some 9
    else if c == b'v'
    then some 11
    else if c == backslash || c == mark
    then some c
    else none

abbrev pub number_at : ℕ → Option Place
number_at c =
    if c == b'x'
    then some (hex 2 0)
    else if c == b'u'
    then some (hex 4 0)
    else if c == b'U'
    then some (hex 8 0)
    else if leb b'0' c && leb c b'7'
    then some (octal 2 (c - 48))
    else none

-- What a character at a place gives: a new place and perhaps a character of the text.
abbrev pub Move : Type 0
Move = Option (Place × Option ℕ)

-- utf8.ValidRune
abbrev pub valid_rune : ℕ → Bool
valid_rune n = ltb n 0xd800 || (leb 0xe000 n && ltb n 0x110000)

abbrev pub at_plain : ℕ → ℕ → Move
at_plain mark c =
    if c == mark
    then some (closed, none)
    else if c == 10
    then none
    else if c == backslash
    then some (after_backslash, none)
    else some (plain, some c)

abbrev pub start_number : Option Place → Move
start_number none = none
start_number (some p) = some (p, none)

abbrev pub at_escape : Option ℕ → ℕ → Move
at_escape (some d) c = some (plain, some d)
at_escape none c = start_number (number_at c)

abbrev pub finish_hex : ℕ → Move
finish_hex n = if valid_rune n then some (plain, some n) else none

abbrev pub at_digit : ℕ → ℕ → Option ℕ → Move
at_digit left n none = none
at_digit zero n (some d) = none
at_digit (suc zero) n (some d) = finish_hex (n * 16 + d)
at_digit (suc (suc left)) n (some d) = some (hex (suc left) (n * 16 + d), none)

abbrev pub finish_octal : ℕ → Move
finish_octal n = if ltb n 256 then some (plain, some n) else none

abbrev pub at_octal : ℕ → ℕ → ℕ → Bool → Move
at_octal left n c false = none
at_octal zero n c true = none
at_octal (suc zero) n c true = finish_octal (n * 8 + (c - 48))
at_octal (suc (suc left)) n c true = some (octal (suc left) (n * 8 + (c - 48)), none)

-- The mark is that of the text that is read.
unfoldable pub move : ℕ → Place → ℕ → Move
move mark plain c = at_plain mark c
move mark after_backslash c = at_escape (escape_of mark c) c
move mark closed c = none
move mark (hex left n) c = at_digit left n (hex_value c)
move mark (octal left n) c = at_octal left n c (leb b'0' c && leb c b'7')

abbrev pub add : Option ℕ → Option Str → Option Str
add d none = none
add none (some s) = some s
add (some c) (some s) = some (c ∷ s)

unfoldable pub unquote_from : ℕ → Place → Str → Option Str
unfolding move
unquote_from mark closed [] = some []
unquote_from mark plain [] = none
unquote_from mark after_backslash [] = none
unquote_from mark (hex left n) [] = none
unquote_from mark (octal left n) [] = none
unquote_from mark p (c ∷ s) = elim (move mark p c) [
  | none ↦ none
  | some (q, d) ↦ add d (unquote_from mark q s)
]

-- Between single quotes stands one character.
abbrev single : Option Str → Option Str
single none = none
single (some []) = none
single (some (c ∷ [])) = some (c ∷ [])
single (some (c ∷ d ∷ s)) = none

-- Between backquotes all stands for itself, but for carriage returns.
abbrev raw : Option (Str × Str) → Option Str
raw none = none
raw (some (before, [])) = some (keep (λ c. not (c == 13)) before)
raw (some (before, c ∷ behind)) = none

-- strconv.Unquote
unfoldable pub unquote : Str → Option Str
unfolding unquote_from
unquote [] = none
unquote (c ∷ s) =
    if c == quote_mark
    then unquote_from quote_mark plain s
    else if c == 39
    then single (unquote_from 39 plain s)
    else if c == 96
    then raw (cut s 96)
    else none
