-- ===== src/Base/Maps.antt =====
-- Keys that can be compared, and Go maps as association lists.
-- The order of the list stands for the order of an iteration, which Go leaves open.
use mathlib.Core.Path.{◌≡◌, refl, sym}
use mathlib.Core.Logic.{◌↔◌, ◌⊎◌, inl, inr}
use mathlib.Core.Bool.{Bool, true, false}
use mathlib.Core.Option.{Option, none, some}
use mathlib.Core.List.{List, [], ◌∷◌}
use native.Mathlib.Omega.{arith}
use lazywrap.Base.Tests.{if◌then◌else◌, Bool-cases}
use lazywrap.Base.Text.{Bytes, eq_bytes, eq_bytes_iff}
use lazywrap.Base.Preds.{IsIn}
use lazywrap.Base.Int.{ℤ, eq_ℤ, eq_ℤ_iff}

pub record Eq (K : Type 0) : Type 0 where
  pub beq : K → K → Bool
  pub beq_iff : (a b : K) → (beq a b ≡ true) ↔ (a ≡ b)

instance abbrev pub bytes_eq : Eq Bytes
bytes_eq = record { beq = eq_bytes; beq_iff = eq_bytes_iff }

instance abbrev pub int_eq : Eq ℤ
int_eq = record { beq = eq_ℤ; beq_iff = eq_ℤ_iff }

module _ {ℓ} {K : Type 0} {V : Type ℓ} ⦃e : Eq K⦄ where
  -- `v, ok := m[k]`
  unfoldable pub lookup : K → List (K × V) → Option V
  lookup k [] = none
  lookup k ((j, v) ∷ m) = if e.beq j k then some v else lookup k m

  -- `m[k] = v`
  unfoldable pub insert : K → V → List (K × V) → List (K × V)
  insert k v [] = (k, v) ∷ []
  insert k v ((j, w) ∷ m) = if e.beq j k then (k, v) ∷ m else (j, w) ∷ insert k v m

  pub lookup-insert :
      (k j : K) (v : V) (m : List (K × V))
      → lookup j (insert k v m) ≡ (if e.beq k j then some v else lookup j m)
  unfolding lookup insert
  lookup-insert k j v [] = refl
  lookup-insert k j v ((i, w) ∷ m) =
      ground (arith, e.beq_iff k j, e.beq_iff i k, e.beq_iff i j, lookup-insert k j v m)

-- `_, ok := m[k]`
abbrev pub is_some {ℓ} : {A : Type ℓ} → Option A → Bool
is_some none = false
is_some (some _) = true

-- What stands in a map after a write is what was written, or stood there before.
pub IsIn-insert :
    {K V : Type 0} ⦃e : Eq K⦄ (k : K) (v : V) (m : List (K × V)) (p : K × V)
    → IsIn p (insert k v m)
    → (p ≡ (k, v)) ⊎ IsIn p m
unfolding insert
IsIn-insert k v [] p (inl q) = inl (sym q)
IsIn-insert k v [] p (inr i) = absurd i
IsIn-insert ⦃e⦄ k v ((j, w) ∷ m) p i = elim (Bool-cases (e.beq j k)) [
  | inl x ↦ split (rw x at i)
  | inr x ↦ later (IsIn-insert k v m p) (rw x at i)
]
  where
    split : IsIn p ((k, v) ∷ m) → (p ≡ (k, v)) ⊎ IsIn p ((j, w) ∷ m)
    split (inl q) = inl (sym q)
    split (inr t) = inr (inr t)

    later :
        (IsIn p (insert k v m) → (p ≡ (k, v)) ⊎ IsIn p m)
        → IsIn p ((j, w) ∷ insert k v m)
        → (p ≡ (k, v)) ⊎ IsIn p ((j, w) ∷ m)
    later ih (inl q) = inr (inl q)
    later ih (inr t) = elim (ih t) [ inl q ↦ inl q | inr u ↦ inr (inr u) ]
