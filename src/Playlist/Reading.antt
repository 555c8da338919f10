-- ===== src/Playlist/Reading.antt =====
-- playlist.go: the loop of Read over the lines that Write puts down.
use gonic.Base.{
  ◌≡◌, ◌≢◌, refl, ap, ◌∙◌, inl, inr, Bool, true, false, List, [], ◌∷◌, ◌++◌, map, Str, All,
  has_prefix, trim_space, str_eq, str_eq-false, keep, arith, if◌then◌else◌, Bool-cases,
}
use gonic.FilePath.{is_abs, join}
use gonic.Lines.{drop_cr, scan, print_lines}
use gonic.Lines.Laws.{Fits, scan-print_lines, scan-All_Fits, trim_space-drop_cr}
use gonic.Playlist.{
  Playlist, attr_prefix, decode_attr, set_attr, add_item, read_line, read_lines, is_comment,
}

-- A line that is an item and stands for itself.
pub record Plain (l : Str) : Type 0 where
  pub some_text : l ≢ []
  pub no_space : trim_space l ≡ l
  pub no_comment : has_prefix l (b'#' ∷ []) ≡ false

no_attr : (l : Str) → has_prefix l (b'#' ∷ []) ≡ false → has_prefix l attr_prefix ≡ false
unfolding has_prefix
no_attr [] h = refl
no_attr (c ∷ l) h = ground arith

module _ (folder : Str) where
  pub read_lines-append :
      (playlist : Playlist) (ls ms : List Str)
      → read_lines folder playlist (ls ++ ms) ≡ read_lines folder (read_lines folder playlist ls) ms
  unfolding read_lines
  read_lines-append playlist [] ms = refl
  read_lines-append playlist (l ∷ ls) ms = read_lines-append (read_line folder playlist l) ls ms

  read_line-drop_cr :
      (playlist : Playlist) (l : Str)
      → read_line folder playlist (drop_cr l) ≡ read_line folder playlist l
  unfolding read_line
  read_line-drop_cr playlist l = rw (trim_space-drop_cr l) refl

  pub read_lines-drop_cr :
      (playlist : Playlist) (ls : List Str)
      → read_lines folder playlist (map drop_cr ls) ≡ read_lines folder playlist ls
  unfolding read_lines
  read_lines-drop_cr playlist [] = refl
  read_lines-drop_cr playlist (l ∷ ls) =
      ap (λ p. read_lines folder p (map drop_cr ls)) (read_line-drop_cr playlist l)
      ∙ read_lines-drop_cr (read_line folder playlist l) ls

  -- The lines that were printed are read, if the scanner takes each of them.
  pub read_lines-print_lines :
      (playlist : Playlist) (ls : List Str)
      → All Fits ls
      → read_lines folder playlist (scan (print_lines ls)) ≡ read_lines folder playlist ls
  read_lines-print_lines playlist ls h = rw (scan-print_lines ls h) (read_lines-drop_cr playlist ls)

  comment_line :
      (playlist : Playlist) (line : Str)
      → has_prefix line attr_prefix ≡ false
      → has_prefix line (b'#' ∷ []) ≡ true
      → (if str_eq line []
          then playlist
          else add_item folder line (set_attr (decode_attr line) playlist))
        ≡ playlist
  unfolding add_item decode_attr set_attr
  comment_line playlist [] h k = (unfold str_eq in refl)
  comment_line playlist (c ∷ line) h k = rw (h, k) (unfold str_eq in refl)

  read_line-comment :
      (playlist : Playlist) (l : Str) → is_comment l ≡ true → read_line folder playlist l ≡ playlist
  unfolding read_line is_comment
  read_line-comment playlist l h =
      comment_line playlist (trim_space l) (ground (arith, h)) (ground (arith, h))

  -- Comments are passed over.
  pub read_lines-comments :
      (playlist : Playlist) (ls : List Str)
      → All (λ l. is_comment l ≡ true) ls
      → read_lines folder playlist ls ≡ playlist
  unfolding read_lines
  read_lines-comments playlist [] h = refl
  read_lines-comments playlist (l ∷ ls) (k, h) =
      rw (read_line-comment playlist l k) (read_lines-comments playlist ls h)

  pub read_line-item :
      (playlist : Playlist) (l : Str)
      → Plain l
      → read_line folder playlist l
        ≡ record playlist { items = playlist.items ++ (if is_abs l then l else join folder l) ∷ [] }
  unfolding read_line decode_attr
  read_line-item playlist l p =
      rw (p.no_space, str_eq-false l [] p.some_text, no_attr l p.no_comment)
        (unfold add_item set_attr str_eq in rw p.no_comment refl)

keep-All : (p : Str → Bool) (ls : List Str) → All (λ l. p l ≡ true) (keep p ls)
keep-All p [] = tt
keep-All p (l ∷ ls) = elim (Bool-cases (p l)) [
  | inl e ↦ rw e (e, keep-All p ls)
  | inr e ↦ rw e (keep-All p ls)
]

keep-Fits : (p : Str → Bool) (ls : List Str) → All Fits ls → All Fits (keep p ls)
keep-Fits p [] h = tt
keep-Fits p (l ∷ ls) (f, h) = elim (Bool-cases (p l)) [
  | inl e ↦ rw e (f, keep-Fits p ls h)
  | inr e ↦ rw e (keep-Fits p ls h)
]

pub comments-All : (s : Str) → All (λ l. is_comment l ≡ true) (keep is_comment (scan s))
comments-All s = keep-All is_comment (scan s)

pub comments-Fits : (s : Str) → All Fits (keep is_comment (scan s))
comments-Fits s = keep-Fits is_comment (scan s) (scan-All_Fits s)
