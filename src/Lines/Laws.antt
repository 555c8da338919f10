-- ===== src/Lines/Laws.antt =====
-- What was printed by lines is scanned as those lines.
use gonic.Base.{
  ℕ, ◌≤◌, ◌≡◌, ◌≢◌, refl, ap, inl, inr, true, List, [], ◌∷◌, ◌++◌, map, Str, All, Lacks, trim_left,
  trim_right, trim_space, arith, ltb, ◌==◌, Bool-cases, is_space,
}
use gonic.Lines.{
  newline, begin_with, raw_lines, drop_cr, byte_length, buffer_size, scan_lines, scan, print_lines,
}

-- A line that the scanner takes whole.
pub record Fits (l : Str) : Type 0 where
  pub one_line : Lacks newline l
  pub short : ltb (byte_length l) buffer_size ≡ true

raw_lines-line : (l s : Str) → Lacks newline l → raw_lines (l ++ newline ∷ s) ≡ l ∷ raw_lines s
unfolding raw_lines
raw_lines-line [] s h = refl
raw_lines-line (c ∷ l) s (n, h) = rw (raw_lines-line l s h) (ground arith)

scan-Fits : (ls : List Str) → All Fits ls → scan_lines (raw_lines (print_lines ls)) ≡ map drop_cr ls
unfolding print_lines scan_lines
scan-Fits [] h = (unfold raw_lines in refl)
scan-Fits (l ∷ ls) (f, h) =
    rw (raw_lines-line l (print_lines ls) f.one_line, f.short)
      (ap (λ m. drop_cr l ∷ m) (scan-Fits ls h))

-- Lines that fit are scanned as they were printed, less a carriage return at their end.
pub scan-print_lines : (ls : List Str) → All Fits ls → scan (print_lines ls) ≡ map drop_cr ls
unfolding scan
scan-print_lines ls h = scan-Fits ls h

begin_with-Lacks :
    (c : ℕ) (ls : List Str)
    → c ≢ newline
    → All (Lacks newline) ls
    → All (Lacks newline) (begin_with c ls)
begin_with-Lacks c [] n h = ((n, tt), tt)
begin_with-Lacks c (l ∷ ls) n (k, h) = ((n, k), h)

raw_lines-Lacks : (s : Str) → All (Lacks newline) (raw_lines s)
unfolding raw_lines
raw_lines-Lacks [] = tt
raw_lines-Lacks (c ∷ s) = elim (Bool-cases (c == newline)) [
  | inl e ↦ rw e (tt, raw_lines-Lacks s)
  | inr e ↦ rw e (begin_with-Lacks c (raw_lines s) (ground arith) (raw_lines-Lacks s))
]

drop_cr-Lacks : (l : Str) → Lacks newline l → Lacks newline (drop_cr l)
unfolding drop_cr
drop_cr-Lacks [] h = tt
drop_cr-Lacks (c ∷ []) (n, h) = ground (arith, n)
drop_cr-Lacks (c ∷ d ∷ l) (n, h) = (n, drop_cr-Lacks (d ∷ l) h)

byte_length-drop_cr : (l : Str) → byte_length (drop_cr l) ≤ byte_length l
unfolding drop_cr byte_length
byte_length-drop_cr [] = omega arith
byte_length-drop_cr (c ∷ []) = ground arith
byte_length-drop_cr (c ∷ d ∷ l) = ground (arith, byte_length-drop_cr (d ∷ l))

drop_cr-Fits : (l : Str) → Fits l → Fits (drop_cr l)
drop_cr-Fits l f = record {
  one_line = drop_cr-Lacks l f.one_line;
  short = ground (arith, f.short, byte_length-drop_cr l);
}

scan_lines-Fits : (ls : List Str) → All (Lacks newline) ls → All Fits (scan_lines ls)
unfolding scan_lines
scan_lines-Fits [] h = tt
scan_lines-Fits (l ∷ ls) (n, h) = elim (Bool-cases (ltb (byte_length l) buffer_size)) [
  | inl e ↦ rw e (drop_cr-Fits l (record { one_line = n; short = e }), scan_lines-Fits ls h)
  | inr e ↦ rw e tt
]

-- What is scanned fits.
pub scan-All_Fits : (s : Str) → All Fits (scan s)
unfolding scan
scan-All_Fits s = scan_lines-Fits (raw_lines s) (raw_lines-Lacks s)

trim_right-drop_cr : (l : Str) → trim_right (drop_cr l) ≡ trim_right l
unfolding trim_right drop_cr
trim_right-drop_cr [] = refl
trim_right-drop_cr (c ∷ []) = ground arith
trim_right-drop_cr (c ∷ d ∷ l) = rw (trim_right-drop_cr (d ∷ l)) refl

trim_ends-drop_cr : (l : Str) → trim_right (trim_left (drop_cr l)) ≡ trim_right (trim_left l)
unfolding trim_left drop_cr
trim_ends-drop_cr [] = refl
trim_ends-drop_cr (c ∷ []) = (unfold trim_right in ground arith)
trim_ends-drop_cr (c ∷ d ∷ l) = elim (Bool-cases (is_space c)) [
  | inl e ↦ rw e (trim_ends-drop_cr (d ∷ l))
  | inr e ↦ rw e (trim_right-drop_cr (c ∷ d ∷ l))
]

-- The carriage return at the end is one of the spaces that TrimSpace takes off.
pub trim_space-drop_cr : (l : Str) → trim_space (drop_cr l) ≡ trim_space l
unfolding trim_space
trim_space-drop_cr l = trim_ends-drop_cr l
