-- ===== src/Playlist/NewPath.antt =====
-- playlist.go: NewPath leads into the folder of its user.
use gonic.Base.{
  ℕ, ◌≡◌, ◌≢◌, refl, sym, ◌∙◌, inl, inr, true, List, [], ◌∷◌, ◌++◌, none, some, ok, Str, codes,
  str_eq, All, All-append, Lacks, pos, itoa, format_ℕ, format-digits, format-StartsDigit,
  StartsDigit, is_digit, arith, Option-cases,
}
use gonic.FilePath.{
  starts_with-append, separated, slash, dot, dot_dot, join, IsName, absolute, join-names,
  join-below,
}
use gonic.Fileutil.{safe, safe_join}
use gonic.Fileutil.Join.{safe_join_lem}
use gonic.Fileutil.Names.{IsAllowed, safe-IsAllowed}
use gonic.Playlist.{new_path, dated_path, or_pl}

-- Two names below a base folder are safe.
pub safe_join-names :
    (b : Str) (bs : List Str) (p n : Str)
    → All IsName (b ∷ bs)
    → IsName p
    → IsName n
    → safe_join (absolute b bs) (p ++ slash ∷ n) ≡ ok (absolute b (bs ++ p ∷ n ∷ []))
safe_join-names b bs p n names h k =
    safe_join_lem b bs names (p ++ slash ∷ n)
    ∙ rw (join-below b bs p n names h k, starts_with-append (b ∷ bs) (p ∷ n ∷ []))
        (unfold separated in refl)

digits-Lacks : (s : Str) → All (λ c. is_digit c ≡ true) s → Lacks slash s
digits-Lacks [] h = tt
digits-Lacks (c ∷ s) (d, h) = (ground (arith, d), digits-Lacks s h)

digits-IsName : (s : Str) → StartsDigit s → All (λ c. is_digit c ≡ true) s → IsName s
digits-IsName [] start h = absurd start
digits-IsName (c ∷ s) start h = record {
  some_text = λ e. cc e;
  not_dot = λ e. ground (arith, start);
  not_dot_dot = λ e. ground (arith, start);
  one_part = digits-Lacks (c ∷ s) h;
}

pub itoa-IsName : (k : ℕ) → IsName (itoa (pos k))
unfolding itoa
itoa-IsName k = digits-IsName (format_ℕ k) (format-StartsDigit k) (format-digits k)

allowed-Lacks : (s : Str) → IsAllowed s → Lacks slash s
allowed-Lacks [] h = tt
allowed-Lacks (c ∷ s) (a, h) = (ground (arith, a), allowed-Lacks s h)

or_pl-Lacks : (s : Str) → Lacks slash s → Lacks slash (or_pl s)
or_pl-Lacks [] h = (unfold str_eq in ground arith)
or_pl-Lacks (c ∷ s) h = (unfold str_eq in h)

dashed-IsName : (s t : Str) → Lacks slash s → Lacks slash t → IsName (s ++ b'-' ∷ t)
dashed-IsName s t h k = record {
  some_text = dashed-ne_nil s;
  not_dot = dashed-ne_dot s;
  not_dot_dot = dashed-ne_dot_dot s;
  one_part = All-append (λ c. c ≢ slash) s (b'-' ∷ t) h (omega arith, k);
}
  where
    dashed-ne_nil : (s : Str) → s ++ b'-' ∷ t ≢ []
    dashed-ne_nil [] = λ e. cc e
    dashed-ne_nil (c ∷ s) = λ e. cc e

    dashed-ne_dot : (s : Str) → s ++ b'-' ∷ t ≢ dot
    dashed-ne_dot [] = λ e. ground arith
    dashed-ne_dot (c ∷ []) = λ e. ground arith
    dashed-ne_dot (c ∷ d ∷ s) = λ e. ground arith

    dashed-ne_dot_dot : (s : Str) → s ++ b'-' ∷ t ≢ dot_dot
    dashed-ne_dot_dot [] = λ e. ground arith
    dashed-ne_dot_dot (c ∷ []) = λ e. ground arith
    dashed-ne_dot_dot (c ∷ d ∷ []) = λ e. ground arith
    dashed-ne_dot_dot (c ∷ d ∷ f ∷ s) = λ e. ground arith

-- A new path is the user's id, a slash and a name.
pub new_path-names :
    (now k : ℕ) (playlist_name path : Str)
    → new_path now (pos k) playlist_name ≡ some path
    → (n : Str) × IsName n × (path ≡ itoa (pos k) ++ slash ∷ n)
unfolding new_path
new_path-names now k playlist_name path h = elim (Option-cases (safe playlist_name)) [
  | inl e ↦ (let q : dated_path now (pos k) none ≡ some path = rw e at h in cc q)
  | inr (name, e) ↦
      let rest = itoa (pos now) ++ codes ".m3u" in
      let n = or_pl name ++ b'-' ∷ rest in
      let q : dated_path now (pos k) (some name) ≡ some path = rw e at h in
      let r : join (itoa (pos k)) n ≡ path = cc q in
      let is_name =
        dashed-IsName (or_pl name) rest
          (or_pl-Lacks name (allowed-Lacks name (safe-IsAllowed playlist_name name e)))
          (All-append (λ c. c ≢ slash) (itoa (pos now)) (codes ".m3u") (itoa-IsName now).one_part
            (ground arith)) in
      (n, is_name, sym r ∙ join-names (itoa (pos k)) n (itoa-IsName k) is_name)
]
