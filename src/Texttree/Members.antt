-- ===== src/Texttree/Members.antt =====
-- Members of lists of names, for the walk of `collectDescendants` in texttree.go.
use mathlib.Core.List.{reverse_aux}
use gonic.Base.{refl, sym, subst, ◌⊎◌, inl, inr, List, [], ◌∷◌, ◌++◌, Str, All, In}

pub All-In : (P : Str → Type 0) (xs : List Str) (x : Str) → All P xs → In x xs → P x
All-In P [] x h i = absurd i
All-In P (y ∷ xs) x (p, h) (inl e) = subst P (sym e) p
All-In P (y ∷ xs) x (p, h) (inr i) = All-In P xs x h i

pub All-intro : (P : Str → Type 0) (xs : List Str) → ((x : Str) → In x xs → P x) → All P xs
All-intro P [] f = tt
All-intro P (x ∷ xs) f = (f x (inl refl), All-intro P xs (λ y i. f y (inr i)))

pub In-left : (x : Str) (xs ys : List Str) → In x xs → In x (xs ++ ys)
In-left x [] ys i = absurd i
In-left x (y ∷ xs) ys (inl e) = inl e
In-left x (y ∷ xs) ys (inr i) = inr (In-left x xs ys i)

pub In-right : (x : Str) (xs ys : List Str) → In x ys → In x (xs ++ ys)
In-right x [] ys i = i
In-right x (y ∷ xs) ys i = inr (In-right x xs ys i)

pub In-append : (x : Str) (xs ys : List Str) → In x (xs ++ ys) → In x xs ⊎ In x ys
In-append x [] ys i = inr i
In-append x (y ∷ xs) ys (inl e) = inl (inl e)
In-append x (y ∷ xs) ys (inr i) = elim (In-append x xs ys i) [ inl j ↦ inl (inr j) | inr j ↦ inr j ]

pub In-reverse_aux : (x : Str) (xs ys : List Str) → In x xs ⊎ In x ys → In x (reverse_aux xs ys)
In-reverse_aux x [] ys (inl i) = absurd i
In-reverse_aux x [] ys (inr i) = i
In-reverse_aux x (y ∷ xs) ys (inl (inl e)) = In-reverse_aux x xs (y ∷ ys) (inr (inl e))
In-reverse_aux x (y ∷ xs) ys (inl (inr i)) = In-reverse_aux x xs (y ∷ ys) (inl i)
In-reverse_aux x (y ∷ xs) ys (inr i) = In-reverse_aux x xs (y ∷ ys) (inr (inr i))
