-- ===== src/Base/Keys.antt =====
-- Maps with each key once, and what holds of all entries of a map.
use mathlib.Core.Path.{◌≡◌, sym, ap, ◌∙◌, subst}
use mathlib.Core.Logic.{inl, inr}
use mathlib.Core.Bool.{true}
use mathlib.Core.List.{List, [], ◌∷◌}
use lazywrap.Base.Tests.{Bool-cases}
use lazywrap.Base.Preds.{IsIn}
use lazywrap.Base.Maps.{Eq, insert, IsIn-insert}

module _ {K V : Type 0} where
  -- No key stands twice.
  abbrev pub IsDistinct : List (K × V) → Type 0
  IsDistinct [] = Unit
  IsDistinct ((k, v) ∷ m) = ((w : V) → IsIn (k, w) m → ⊥) × IsDistinct m

  abbrev pub Entries {ℓ} : (K → V → Type ℓ) → List (K × V) → Type ℓ
  Entries P m = (k : K) (v : V) → IsIn (k, v) m → P k v

  pub IsDistinct-unique :
      (m : List (K × V)) (k : K) (v w : V) → IsDistinct m → IsIn (k, v) m → IsIn (k, w) m → v ≡ w
  IsDistinct-unique [] k v w d i j = absurd i
  IsDistinct-unique ((l, x) ∷ m) k v w (n, d) (inl e) (inl f) = ap (λ p. p.1) (sym e ∙ f)
  IsDistinct-unique ((l, x) ∷ m) k v w (n, d) (inl e) (inr j) =
      let same : k ≡ l = ap (λ p. p.0) (sym e) in absurd (n w (subst (λ a. IsIn (a, w) m) same j))
  IsDistinct-unique ((l, x) ∷ m) k v w (n, d) (inr i) (inl f) =
      let same : k ≡ l = ap (λ p. p.0) (sym f) in absurd (n v (subst (λ a. IsIn (a, v) m) same i))
  IsDistinct-unique ((l, x) ∷ m) k v w (n, d) (inr i) (inr j) = IsDistinct-unique m k v w d i j

module _ {K V : Type 0} ⦃e : Eq K⦄ where
  pub insert-IsDistinct :
      (k : K) (v : V) (m : List (K × V)) → IsDistinct m → IsDistinct (insert k v m)
  unfolding insert
  insert-IsDistinct k v [] d = ((λ w i. i), tt)
  insert-IsDistinct k v ((j, w) ∷ m) (n, d) = elim (Bool-cases (e.beq j k)) [
    | inl x ↦
        let same : k ≡ j = sym ((e.beq_iff j k).0 x) in
        rw x ((λ u i. n u (subst (λ a. IsIn (a, u) m) same i)), d)
    | inr x ↦ rw x (
      (λ u i. elim (IsIn-insert k v m (j, u) i) [
        | inl q ↦ let y : e.beq j k ≡ true = (e.beq_iff j k).1 (ap (λ p. p.0) q) in cc
        | inr t ↦ n u t
      ]),
      insert-IsDistinct k v m d,
    )
  ]

  pub insert-Entries {ℓ} :
      (P : K → V → Type ℓ) (k : K) (v : V) (m : List (K × V))
      → P k v
      → Entries P m
      → Entries P (insert k v m)
  insert-Entries P k v m p h j w i = elim (IsIn-insert k v m (j, w) i) [
    | inl q ↦ subst (λ (x : K × V). P x.0 x.1) (sym q) p
    | inr t ↦ h j w t
  ]
