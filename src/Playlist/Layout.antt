-- ===== src/Playlist/Layout.antt =====
-- playlist.go: the checks before an operation, and the folders that Write makes.
use gonic.Base.{
  ◌≡◌, refl, Bool, true, false, not, ◌||◌, List, [], ◌∷◌, ◌++◌, map, some, ok, Str, str_eq_refl,
  any, All, ℤ, arith,
}
use gonic.FilePath.{elements}
use gonic.Playlist.{
  Disk, sanity_check, entry_of, is_user_entry, user_id_from_path, folders_above, path_eq,
}

module _ {A : Type 0} (p : A → Bool) where
  any-append : (xs ys : List A) → any p (xs ++ ys) ≡ (any p xs || any p ys)
  any-append [] ys = refl
  any-append (x ∷ xs) ys = ground (arith, any-append xs ys)

  any-none : (xs : List A) → All (λ x. p x ≡ false) xs → any p xs ≡ false
  any-none [] h = refl
  any-none (x ∷ xs) (e, h) = rw (e, any-none xs h) refl

module _ {A B : Type 0} (P : B → Type 0) (f : A → B) where
  All-map : (xs : List A) → ((x : A) → P (f x)) → All P (map f xs)
  All-map [] h = tt
  All-map (x ∷ xs) h = (h x, All-map xs h)

  All-map_from :
      (Q : A → Type 0) (xs : List A) → ((x : A) → Q x → P (f x)) → All Q xs → All P (map f xs)
  All-map_from Q [] h k = tt
  All-map_from Q (x ∷ xs) h (q, k) = (h x q, All-map_from Q xs h k)

abbrev Accepted : List Str → List Str → Type 0
Accepted bs f = not (is_user_entry (entry_of bs f)) ≡ false

module _ (u : Str) (i : ℤ) (owner : user_id_from_path u ≡ some i) where
  Accepted-entry : (f : List Str) → Accepted [] (u ∷ f)
  unfolding entry_of
  Accepted-entry [] = rw owner refl
  Accepted-entry (n ∷ f) = refl

  Accepted-below : (c : Str) (bs f : List Str) → Accepted bs f → Accepted (c ∷ bs) (c ∷ f)
  unfolding entry_of
  Accepted-below c bs f h = rw (str_eq_refl c) h

  folders_above-Accepted : (bs mid : List Str) → All (Accepted bs) (folders_above (bs ++ u ∷ mid))
  unfolding folders_above
  folders_above-Accepted [] mid = (
    (unfold entry_of in refl),
    All-map (Accepted []) (λ f. u ∷ f) (folders_above mid) Accepted-entry,
  )
  folders_above-Accepted (c ∷ bs) mid = (
    (unfold entry_of in refl),
    All-map_from (Accepted (c ∷ bs)) (λ f. c ∷ f) (Accepted bs) (folders_above (bs ++ u ∷ mid))
        (Accepted-below c bs) (folders_above-Accepted bs mid),
  )

pub sanity_check-cases :
    (base : Str) (disk : Disk)
    → sanity_check base disk ≡ ok tt
    → (any (path_eq (elements base)) disk.folders ≡ true)
      × (any (λ f. not (is_user_entry (entry_of (elements base) f))) disk.folders ≡ false)
unfolding sanity_check
sanity_check-cases base disk h = ground (arith, h)

-- The folders made on the way to one below a user's folder pass the check.
pub sanity_check-folders :
    (base : Str) (disk made : Disk) (u : Str) (i : ℤ) (mid : List Str)
    → user_id_from_path u ≡ some i
    → made.folders ≡ folders_above (elements base ++ u ∷ mid) ++ disk.folders
    → sanity_check base disk ≡ ok tt
    → sanity_check base made ≡ ok tt
unfolding sanity_check
sanity_check-folders base disk made u i mid owner e h =
    let above = folders_above (elements base ++ u ∷ mid) in
    let (there, users) = sanity_check-cases base disk h in
    let accepted =
      any-none (λ f. not (is_user_entry (entry_of (elements base) f))) above
        (folders_above-Accepted u i owner (elements base) mid) in
    rw
      (
        e,
        any-append (path_eq (elements base)) above disk.folders,
        any-append (λ f. not (is_user_entry (entry_of (elements base) f))) above disk.folders,
        there,
        users,
        accepted,
      )
      (ground arith)
