-- ===== src/Base/Membership.antt =====
-- Membership in a list as a sum, which can be taken apart.
use mathlib.Core.Path.{◌≡◌}
use mathlib.Core.Logic.{◌⊎◌, inl, inr}
use mathlib.Core.List.{List, [], ◌∷◌, ◌++◌}

-- An element of a list, by recursion.
abbrev pub Among : {A : Type 0} → A → List A → Type 0
Among x [] = ⊥
Among x (y ∷ ys) = (x ≡ y) ⊎ Among x ys

pub Among-append_left : {A : Type 0} (x : A) (xs ys : List A) → Among x xs → Among x (xs ++ ys)
Among-append_left x [] ys h = absurd h
Among-append_left x (y ∷ xs) ys (inl e) = inl e
Among-append_left x (y ∷ xs) ys (inr h) = inr (Among-append_left x xs ys h)

pub Among-append_right : {A : Type 0} (x : A) (xs ys : List A) → Among x ys → Among x (xs ++ ys)
Among-append_right x [] ys h = h
Among-append_right x (y ∷ xs) ys h = inr (Among-append_right x xs ys h)

pub Among-append_cases :
    {A : Type 0} (x : A) (xs ys : List A) → Among x (xs ++ ys) → Among x xs ⊎ Among x ys
Among-append_cases x [] ys h = inr h
Among-append_cases x (y ∷ xs) ys (inl e) = inl (inl e)
Among-append_cases x (y ∷ xs) ys (inr h) = elim (Among-append_cases x xs ys h) [
  | inl a ↦ inl (inr a)
  | inr b ↦ inr b
]
