-- ===== src/Lines.antt =====
-- bufio.Scanner over the lines of a file, as gonic reads its playlists, and fmt.Fprintln of lines.
-- The scanner ends without a word at a line that its buffer cannot hold.
pub mod Laws
use gonic.Base.{ℕ, ◌+◌, List, [], ◌∷◌, ◌++◌, Str, ltb, ◌==◌, if◌then◌else◌}

abbrev pub newline : ℕ
newline = 10

abbrev pub begin_with : ℕ → List Str → List Str
begin_with c [] = (c ∷ []) ∷ []
begin_with c (l ∷ ls) = (c ∷ l) ∷ ls

-- The lines of a text; nothing behind the last newline is no line.
unfoldable pub raw_lines : Str → List Str
raw_lines [] = []
raw_lines (c ∷ s) = let ls = raw_lines s in if c == newline then [] ∷ ls else begin_with c ls

-- bufio.ScanLines takes one carriage return off the end.
unfoldable pub drop_cr : Str → Str
drop_cr [] = []
drop_cr (c ∷ []) = if c == 13 then [] else c ∷ []
drop_cr (c ∷ d ∷ s) = c ∷ drop_cr (d ∷ s)

-- The bytes of a code point in UTF-8.
abbrev pub rune_length : ℕ → ℕ
rune_length c = if ltb c 0x80 then 1 else if ltb c 0x800 then 2 else if ltb c 0x10000 then 3 else 4

unfoldable pub byte_length : Str → ℕ
byte_length [] = 0
byte_length (c ∷ s) = rune_length c + byte_length s

-- bufio.MaxScanTokenSize
abbrev pub buffer_size : ℕ
buffer_size = 65536

unfoldable pub scan_lines : List Str → List Str
unfolding byte_length drop_cr
scan_lines [] = []
scan_lines (l ∷ ls) =
    let rest = scan_lines ls in if ltb (byte_length l) buffer_size then drop_cr l ∷ rest else []

-- What the calls of Text give while Scan succeeds.
unfoldable pub scan : Str → List Str
unfolding scan_lines raw_lines
scan s = scan_lines (raw_lines s)

unfoldable pub print_lines : List Str → Str
print_lines [] = []
print_lines (l ∷ ls) = l ++ newline ∷ print_lines ls
