-- ===== src/Fileutil/Join.antt =====
-- fileutil.go: `SafeJoin` never leaves its base.
use gonic.Base.{
  ◌≡◌, sym, subst, ◌∙◌, inl, inr, true, List, ◌∷◌, ◌++◌, arith, ok, err, Str, All, if◌then◌else◌,
  Bool-cases,
}
use gonic.FilePath.{
  render, absolute, IsName, parts_under, parts_under-IsName, clean-absolute, join-absolute,
  starts_with, render_within, starts_with→append,
}
use gonic.Fileutil.{within, safe_join, escapes_base}

module _ (b : Str) (bs : List Str) (names : All IsName (b ∷ bs)) where
  -- A path of names passes the test exactly if the directory's parts stand at its front, so that
  -- `/music2/a` is not within `/music`.
  pub within-starts_with :
      (ps : List Str)
      → All IsName ps
      → within (render true ps) (absolute b bs) ≡ starts_with ps (b ∷ bs)
  unfolding within
  within-starts_with ps h = rw (clean-absolute b bs names) (render_within ps b bs h names)

  -- `SafeJoin` resolves the relative path against the directory, `.` and `..` included, and
  -- refuses it exactly if that does not lead to the directory or below it.
  pub safe_join_lem :
      (rel : Str)
      → let ps = parts_under (b ∷ bs) rel in
        safe_join (absolute b bs) rel
        ≡ (if starts_with ps (b ∷ bs) then ok (render true ps) else err escapes_base)
  unfolding safe_join
  safe_join_lem rel = rw (
    join-absolute b bs rel names,
    within-starts_with (parts_under (b ∷ bs) rel) (parts_under-IsName (b ∷ bs) rel names),
  )

  below :
      (ps : List Str) (p : Str)
      → All IsName ps
      → (if starts_with ps (b ∷ bs) then ok (render true ps) else err escapes_base) ≡ ok p
      → (rest : List Str) × (p ≡ render true ((b ∷ bs) ++ rest)) × All IsName ((b ∷ bs) ++ rest)
  below ps p all e = elim (Bool-cases (starts_with ps (b ∷ bs))) [
    | inl yes_below ↦
        let (rest, q) = starts_with→append ps (b ∷ bs) yes_below in
        (rest, ground arith, subst (All IsName) q all)
    | inr no_below ↦ absurd (ground arith)
  ]

  -- A path that `SafeJoin` returns is the directory's parts and then names, none of them `..`.
  pub safe_join-below :
      (rel p : Str)
      → safe_join (absolute b bs) rel ≡ ok p
      → (rest : List Str) × (p ≡ render true ((b ∷ bs) ++ rest)) × All IsName ((b ∷ bs) ++ rest)
  safe_join-below rel p h =
      below (parts_under (b ∷ bs) rel) p (parts_under-IsName (b ∷ bs) rel names)
        (sym (safe_join_lem rel) ∙ h)
