-- ===== src/FilePath/Within.antt =====
-- filepath: for clean absolute paths, a prefix of the text is a prefix of the parts.
use gonic.Base.{
  ◌≡◌, refl, ◌∙◌, Bool, true, false, ◌||◌, ◌&&◌, List, [], ◌∷◌, ◌++◌, append_assoc, arith, Str,
  str_eq, str_eq_refl, str_eq_iff, Lacks, All, has_prefix, has_prefix-nil,
}
use gonic.FilePath.Defs.{slash, separated, render}
use gonic.FilePath.Laws.{IsName, absolute}

-- The parts `bs` stand at the front of the parts `ps`.
unfoldable pub starts_with : List Str → List Str → Bool
starts_with ps [] = true
starts_with [] (b ∷ bs) = false
starts_with (p ∷ ps) (b ∷ bs) = str_eq p b && starts_with ps bs

-- The text of a directory, with a slash at its end.
abbrev closed : Str → Str
closed s = s ++ slash ∷ []

has_prefix-closed :
    (s t : Str) → (str_eq s t || has_prefix s (closed t)) ≡ has_prefix (closed s) (closed t)
unfolding str_eq has_prefix
has_prefix-closed [] [] = refl
has_prefix-closed [] (d ∷ []) = ground arith
has_prefix-closed [] (d ∷ e ∷ t) = ground arith
has_prefix-closed (c ∷ s) [] = ground arith
has_prefix-closed (c ∷ s) (d ∷ t) = ground (arith, has_prefix-closed s t)

has_prefix_part :
    (p b s t : Str)
    → Lacks slash p
    → Lacks slash b
    → has_prefix (p ++ slash ∷ s) (b ++ slash ∷ t) ≡ (str_eq p b && has_prefix s t)
unfolding str_eq has_prefix
has_prefix_part [] [] s t h k = ground arith
has_prefix_part [] (d ∷ b) s t h k = ground arith
has_prefix_part (c ∷ p) [] s t h k = ground arith
has_prefix_part (c ∷ p) (d ∷ b) s t h k = ground (arith, has_prefix_part p b s t h.1 k.1)

-- Each part in front of a slash.
unfoldable pub trailing : List Str → Str
trailing [] = []
trailing (p ∷ ps) = p ++ slash ∷ trailing ps

closed-separated : (ps : List Str) → closed (separated ps) ≡ slash ∷ trailing ps
unfolding separated trailing
closed-separated [] = refl
closed-separated (p ∷ ps) = rw (append_assoc p (separated ps) (slash ∷ []), closed-separated ps)

trailing-starts_with :
    (ps bs : List Str)
    → All IsName ps
    → All IsName bs
    → has_prefix (trailing ps) (trailing bs) ≡ starts_with ps bs
unfolding trailing starts_with
trailing-starts_with ps [] h k = has_prefix-nil (trailing ps)
trailing-starts_with [] ([] ∷ bs) h (n, k) = absurd (n.some_text refl)
trailing-starts_with [] ((c ∷ b) ∷ bs) h (n, k) = unfold has_prefix in refl
trailing-starts_with (p ∷ ps) (b ∷ bs) (n, h) (m, k) = rw (
  has_prefix_part p b (trailing ps) (trailing bs) n.one_part m.one_part,
  trailing-starts_with ps bs h k,
)

closed-starts_with :
    (ps bs : List Str)
    → All IsName ps
    → All IsName bs
    → has_prefix (closed (separated ps)) (closed (separated bs)) ≡ starts_with ps bs
closed-starts_with ps bs h k =
    rw (closed-separated ps, closed-separated bs)
      (unfold has_prefix in trailing-starts_with ps bs h k)

-- What fileutil's test says of a rendered path and a directory that is not the root.
pub render_within :
    (ps : List Str) (b : Str) (bs : List Str)
    → All IsName ps
    → All IsName (b ∷ bs)
    → (str_eq (render true ps) (absolute b bs)
        || has_prefix (render true ps) (absolute b bs ++ slash ∷ []))
      ≡ starts_with ps (b ∷ bs)
unfolding separated
render_within (p ∷ ps) b bs h k =
    has_prefix-closed (separated (p ∷ ps)) (separated (b ∷ bs))
    ∙ closed-starts_with (p ∷ ps) (b ∷ bs) h k
render_within [] [] bs h (n, k) = absurd (n.some_text refl)
render_within [] (c ∷ b) bs h (n, k) = unfold str_eq has_prefix starts_with in refl

pub starts_with-append : (bs rest : List Str) → starts_with (bs ++ rest) bs ≡ true
unfolding starts_with
starts_with-append [] [] = refl
starts_with-append [] (_ ∷ _) = refl
starts_with-append (b ∷ bs) rest = rw (str_eq_refl b) (starts_with-append bs rest)

pub starts_with→append :
    (ps bs : List Str) → starts_with ps bs ≡ true → (rest : List Str) × (ps ≡ bs ++ rest)
unfolding starts_with
starts_with→append ps [] h = (ps, refl)
starts_with→append [] (b ∷ bs) h = cc
starts_with→append (p ∷ ps) (b ∷ bs) h =
    let (rest, e) = starts_with→append ps bs (ground arith) in
    (rest, ground (arith, str_eq_iff p b))
