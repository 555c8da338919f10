-- ===== src/Cache/Eject.antt =====
-- cache.go: what `Eject` keeps.
use gonic.Base.{
  ℕ, ◌+◌, ◌-◌, ◌*◌, ◌≤◌, ◌<◌, ◌≡◌, ◌≢◌, refl, ap, ◌∙◌, subst, Bool, true, false, List, [], ◌∷◌,
  ◌++◌, arith, All, Str, pos, negsuc, leb, ltb, Bool-cases, inl, inr, wrap64-in_int, ◌^◌,
}
use mathlib.Core.List.{Perm}
use mathlib.Core.List.Perm
use gonic.Cache.{
  File, DirCache, total_size, insert_by_time, sort_by_time, done, panicked, Outcome, ends, removing,
  eject_loop, eject, limit_bytes,
}

-- Oldest first.
abbrev pub IsSorted : List File → Type 0
IsSorted [] = Unit
IsSorted (f ∷ fs) = All (λ g. f.mod_time ≤ g.mod_time) fs × IsSorted fs

insert_by_time-perm : (f : File) (fs : List File) → Perm (insert_by_time f fs) (f ∷ fs)
unfolding insert_by_time
insert_by_time-perm f [] = Perm.refl _
insert_by_time-perm f (g ∷ gs) = elim (Bool-cases (leb f.mod_time g.mod_time)) [
  | inl e ↦ rw e (Perm.refl _)
  | inr e ↦ rw e (Perm.trans (Perm.cons g (insert_by_time-perm f gs)) (Perm.swap f g gs))
]

pub sort_by_time-perm : (fs : List File) → Perm (sort_by_time fs) fs
unfolding sort_by_time
sort_by_time-perm [] = Perm.refl _
sort_by_time-perm (f ∷ fs) =
    Perm.trans (insert_by_time-perm f (sort_by_time fs)) (Perm.cons f (sort_by_time-perm fs))

All-le :
    (m n : ℕ) (fs : List File) → m ≤ n → All (λ g. n ≤ g.mod_time) fs → All (λ g. m ≤ g.mod_time) fs
All-le m n [] h a = tt
All-le m n (g ∷ gs) h a = (omega arith, All-le m n gs h a.1)

insert_by_time-All :
    (m : ℕ) (f : File) (fs : List File)
    → m ≤ f.mod_time
    → All (λ g. m ≤ g.mod_time) fs
    → All (λ g. m ≤ g.mod_time) (insert_by_time f fs)
unfolding insert_by_time
insert_by_time-All m f [] h a = (h, tt)
insert_by_time-All m f (g ∷ gs) h a = elim (Bool-cases (leb f.mod_time g.mod_time)) [
  | inl e ↦ rw e (h, a)
  | inr e ↦ rw e (a.0, insert_by_time-All m f gs h a.1)
]

insert_by_time-IsSorted : (f : File) (fs : List File) → IsSorted fs → IsSorted (insert_by_time f fs)
unfolding insert_by_time
insert_by_time-IsSorted f [] s = (tt, tt)
insert_by_time-IsSorted f (g ∷ gs) s = elim (Bool-cases (leb f.mod_time g.mod_time)) [
  | inl e ↦ rw e (((ground arith, All-le f.mod_time g.mod_time gs (ground arith) s.0), s))
  | inr e ↦
      rw e (insert_by_time-All g.mod_time f gs (ground arith) s.0, insert_by_time-IsSorted f gs s.1)
]

sort_by_time-IsSorted : (fs : List File) → IsSorted (sort_by_time fs)
unfolding sort_by_time
sort_by_time-IsSorted [] = tt
sort_by_time-IsSorted (f ∷ fs) =
    insert_by_time-IsSorted f (sort_by_time fs) (sort_by_time-IsSorted fs)

insert_by_time-size :
    (f : File) (fs : List File) → total_size (insert_by_time f fs) ≡ f.size + total_size fs
unfolding insert_by_time
insert_by_time-size f [] = refl
insert_by_time-size f (g ∷ gs) = ground (arith, insert_by_time-size f gs)

sort_by_time-size : (fs : List File) → total_size (sort_by_time fs) ≡ total_size fs
unfolding sort_by_time
sort_by_time-size [] = refl
sort_by_time-size (f ∷ fs) =
    omega (arith, insert_by_time-size f (sort_by_time fs), sort_by_time-size fs)

nil-ne-concat : (xs : List File) (f : File) → [] ≢ xs ++ f ∷ []
nil-ne-concat [] f e = cc
nil-ne-concat (x ∷ xs) f e = cc

abbrev tail : List File → List File
tail [] = []
tail (x ∷ xs) = xs

head_eq : {f g : File} {fs gs : List File} → f ∷ fs ≡ g ∷ gs → f ≡ g
head_eq e = cc

All-behind : (P : File → Type 0) (xs ys : List File) → All P (xs ++ ys) → All P ys
All-behind P [] ys h = h
All-behind P (x ∷ xs) ys h = All-behind P xs ys h.1

sorted-split :
    (before behind : List File)
    → IsSorted (before ++ behind)
    → All (λ f. All (λ g. f.mod_time ≤ g.mod_time) behind) before
sorted-split [] behind s = tt
sorted-split (f ∷ before) behind s =
    (All-behind (λ g. f.mod_time ≤ g.mod_time) before behind s.0, sorted-split before behind s.1)

-- The last of the removed files did not fit beside the kept ones.
abbrev pub LastNeeded : ℕ → ℕ → List File → Type 0
LastNeeded limit kept [] = Unit
LastNeeded limit kept (f ∷ []) = limit < f.size + kept
LastNeeded limit kept (f ∷ g ∷ fs) = LastNeeded limit kept (g ∷ fs)

last-LastNeeded :
    (limit kept : ℕ) (fs : List File)
    → ((before : List File) (f : File) → fs ≡ before ++ f ∷ [] → limit < f.size + kept)
    → LastNeeded limit kept fs
last-LastNeeded limit kept [] h = tt
last-LastNeeded limit kept (f ∷ []) h = h [] f refl
last-LastNeeded limit kept (f ∷ g ∷ fs) h =
    last-LastNeeded limit kept (g ∷ fs) (λ before d e. h (f ∷ before) d (ap (λ l. f ∷ l) e))

module _ (remove : Str → Bool) (removes : (p : Str) → remove p ≡ true) where
  -- Files were removed from the front, as few as bring the rest within the limit.
  pub record Ejected (limit : ℕ) (files : List File) (o : Outcome) : Type 0 where
    pub split : files ≡ o.removed ++ o.kept
    pub within_limit : total_size o.kept ≤ limit
    pub none_too_many :
        (before : List File) (f : File)
        → o.removed ≡ before ++ f ∷ []
        → limit < f.size + total_size o.kept
    pub finished : o.end ≡ done

  untouched : (limit : ℕ) (fs : List File) → total_size fs ≤ limit → Ejected limit fs (ends fs done)
  untouched limit fs h = record {
    split = refl;
    within_limit = h;
    none_too_many = λ before f e. absurd (nil-ne-concat before f e);
    finished = refl;
  }

  extended :
      (limit : ℕ) (f : File) (fs : List File) (o : Outcome)
      → limit < f.size + total_size fs
      → Ejected limit fs o
      → Ejected limit (f ∷ fs) (removing f o)
  extended limit f fs o over r = record {
    split = ap (λ l. f ∷ l) r.split;
    within_limit = r.within_limit;
    none_too_many = last;
    finished = r.finished;
  }
    where
      last :
          (before : List File) (g : File)
          → f ∷ o.removed ≡ before ++ g ∷ []
          → limit < g.size + total_size o.kept
      last [] g e =
          let k : fs ≡ o.kept = r.split ∙ ap (λ l. l ++ o.kept) (ap tail e) in
          subst (λ l. limit < g.size + total_size l) k
            (subst (λ h. limit < h.size + total_size fs) (head_eq e) over)
      last (b ∷ before) g e = r.none_too_many before g (ap tail e)

  eject_loop-Ejected :
      (limit : ℕ) (files : List File)
      → Ejected limit files (eject_loop remove (total_size files) (pos limit) files)
  unfolding eject_loop
  eject_loop-Ejected limit [] =
      let fits : ltb limit 0 ≡ false = ground arith in rw fits (untouched limit [] (omega arith))
  eject_loop-Ejected limit (f ∷ fs) = elim (Bool-cases (ltb limit (f.size + total_size fs))) [
    | inl over ↦
        let q : f.size + total_size fs - f.size ≡ total_size fs = omega arith in
        rw (over, removes f.path, q)
          (extended limit f fs _ (ground arith) (eject_loop-Ejected limit fs))
    | inr fits ↦ rw fits (untouched limit (f ∷ fs) (ground arith))
  ]

  limit_bytes-pos :
      (c : DirCache) (mb : ℕ)
      → c.limit_mb ≡ pos mb
      → mb < 2 ^ 43
      → limit_bytes c ≡ pos (1024 * 1024 * mb)
  limit_bytes-pos c mb e small = rw e (wrap64-in_int (pos (1024 * 1024 * mb)) (ground arith))

  -- When every removal succeeds, and the limit is not negative and less than 2 ^ 43 megabytes, so that
  -- it does not overflow when it is counted in bytes, `Eject` ends without an error and
  -- without a panic; each file was either kept or removed; what is kept is within the limit; the
  -- last removal was still needed; and no removed file is newer than a kept one.
  pub eject_lem :
      (c : DirCache) (mb : ℕ) (files : List File)
      → c.limit_mb ≡ pos mb
      → mb < 2 ^ 43
      → let o = eject remove c files in
        (o.end ≡ done)
        × Perm (o.removed ++ o.kept) files
        × (total_size o.kept ≤ 1024 * 1024 * mb)
        × LastNeeded (1024 * 1024 * mb) (total_size o.kept) o.removed
        × All (λ f. All (λ g. f.mod_time ≤ g.mod_time) o.kept) o.removed
  unfolding eject
  eject_lem c mb files e small =
      rw (limit_bytes-pos c mb e small, ← sort_by_time-size files)
        (let sorted = sort_by_time files in
          let r = eject_loop-Ejected (1024 * 1024 * mb) sorted in
          (
            r.finished,
            subst (λ l. Perm l files) r.split (sort_by_time-perm files),
            r.within_limit,
            last-LastNeeded _ _ _ r.none_too_many,
            sorted-split _ _ (subst IsSorted r.split (sort_by_time-IsSorted files)),
          ))

-- With a negative limit it removes every file and then panics.
pub eject_negative :
    (remove : Str → Bool)
    → ((p : Str) → remove p ≡ true)
    → (total n : ℕ) (files : List File)
    → eject_loop remove total (negsuc n) files
      ≡ record { kept = []; removed = files; end = panicked }
unfolding eject_loop
eject_negative remove removes total n [] = refl
eject_negative remove removes total n (f ∷ fs) =
    rw (removes f.path, eject_negative remove removes (total - f.size) n fs)
