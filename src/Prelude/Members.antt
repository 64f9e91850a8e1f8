-- ===== src/Prelude/Members.antt =====
-- Membership in a list, as a type that computes on the list.
use mathlib.Core.Path.{◌≡◌, subst}
use mathlib.Core.Logic.{◌⊎◌, inl, inr}
use mathlib.Core.List.{List, [], ◌∷◌, ◌++◌}

abbrev pub Has : {A : Type 0} → A → List A → Type 0
Has a [] = ⊥
Has a (x ∷ xs) = (a ≡ x) ⊎ Has a xs

module _ {A : Type 0} (a : A) where
  pub Has-append : (xs ys : List A) → Has a xs ⊎ Has a ys → Has a (xs ++ ys)
  Has-append [] ys (inl h) = elim h [ ]
  Has-append [] ys (inr h) = h
  Has-append (x ∷ xs) ys (inl (inl e)) = inl e
  Has-append (x ∷ xs) ys (inl (inr h)) = inr (Has-append xs ys (inl h))
  Has-append (x ∷ xs) ys (inr h) = inr (Has-append xs ys (inr h))

  pub Has-split : (xs ys : List A) → Has a (xs ++ ys) → Has a xs ⊎ Has a ys
  Has-split [] ys h = inr h
  Has-split (x ∷ xs) ys (inl e) = inl (inl e)
  Has-split (x ∷ xs) ys (inr h) = elim (Has-split xs ys h) [
    | inl there ↦ inl (inr there)
    | inr later ↦ inr later
  ]

  pub Has-cast : {xs ys : List A} → xs ≡ ys → Has a xs → Has a ys
  Has-cast e h = subst (Has a) e h
