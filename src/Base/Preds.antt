-- ===== src/Base/Preds.antt =====
-- Predicates on lists, by recursion.
use mathlib.Core.Path.{◌≡◌, refl}
use mathlib.Core.Logic.{◌⊎◌, inl, inr}
use mathlib.Core.List.{List, [], ◌∷◌, ◌++◌}

module _ {A : Type 0} where
  abbrev pub All {κ} : (A → Type κ) → List A → Type κ
  All P [] = Unit
  All P (x ∷ xs) = P x × All P xs

  -- `a` stands in the list.
  abbrev pub IsIn : A → List A → Type 0
  IsIn a [] = ⊥
  IsIn a (x ∷ xs) = (x ≡ a) ⊎ IsIn a xs

  pub All-append {κ} : (P : A → Type κ) (xs ys : List A) → All P xs → All P ys → All P (xs ++ ys)
  All-append P [] ys hx hy = hy
  All-append P (x ∷ xs) ys (px, hx) hy = (px, All-append P xs ys hx hy)

  pub IsIn-All {κ} : (P : A → Type κ) (a : A) (xs : List A) → All P xs → IsIn a xs → P a
  IsIn-All P a [] h i = absurd i
  IsIn-All P a (x ∷ xs) (px, h) (inl e) = rw (← e) px
  IsIn-All P a (x ∷ xs) (px, h) (inr i) = IsIn-All P a xs h i

  pub All-intro {κ} : (P : A → Type κ) (xs : List A) → ((a : A) → IsIn a xs → P a) → All P xs
  All-intro P [] f = tt
  All-intro P (x ∷ xs) f = (f x (inl refl), All-intro P xs (λ a i. f a (inr i)))

  pub IsIn-append_right : (a : A) (xs ys : List A) → IsIn a ys → IsIn a (xs ++ ys)
  IsIn-append_right a [] ys i = i
  IsIn-append_right a (x ∷ xs) ys i = inr (IsIn-append_right a xs ys i)

  pub IsIn-append : (a : A) (xs ys : List A) → IsIn a (xs ++ ys) → IsIn a xs ⊎ IsIn a ys
  IsIn-append a [] ys i = inr i
  IsIn-append a (x ∷ xs) ys (inl e) = inl (inl e)
  IsIn-append a (x ∷ xs) ys (inr i) = elim (IsIn-append a xs ys i) [
    | inl j ↦ inl (inr j)
    | inr j ↦ inr j
  ]

  pub All-mono {κ μ} :
      (P : A → Type κ) (Q : A → Type μ) (xs : List A) → ((a : A) → P a → Q a) → All P xs → All Q xs
  All-mono P Q [] f h = tt
  All-mono P Q (x ∷ xs) f (px, h) = (f x px, All-mono P Q xs f h)
