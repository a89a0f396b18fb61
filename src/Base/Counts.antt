-- ===== src/Base/Counts.antt =====
-- Functions of a number, changed at one place, and how many of their first values pass a test.
use Prim.Native.Nat.{ℕ, zero, suc, ◌+◌, ◌≤◌, ◌<◌}
use mathlib.Core.Path.{◌≡◌, refl}
use mathlib.Core.Bool.{Bool, true, false}
use native.Mathlib.Omega.{arith}
use lazywrap.Base.Tests.{◌==◌, if◌then◌else◌}

abbrev pub update {ℓ} : {A : Type ℓ} → (ℕ → A) → ℕ → A → ℕ → A
update f i a j = if i == j then a else f j

abbrev pub bit : Bool → ℕ
bit true = 1
bit false = 0

module _ {A : Type 0} where
  pub count_below : ℕ → (A → Bool) → (ℕ → A) → ℕ
  count_below zero p f = 0
  count_below (suc n) p f = bit (p (f n)) + count_below n p f

  pub count_below-suc :
      (n : ℕ) (p : A → Bool) (f : ℕ → A)
      → count_below (suc n) p f ≡ bit (p (f n)) + count_below n p f
  unfolding count_below
  count_below-suc n p f = refl

  pub count_below-update_of_le :
      (n : ℕ) (p : A → Bool) (f : ℕ → A) (k : ℕ) (a : A)
      → n ≤ k
      → count_below n p (update f k a) ≡ count_below n p f
  unfolding count_below
  count_below-update_of_le zero p f k a h = refl
  count_below-update_of_le (suc n) p f k a h = ground (arith, count_below-update_of_le n p f k a)

  pub count_below-update :
      (n : ℕ) (p : A → Bool) (f : ℕ → A) (k : ℕ) (a : A)
      → k < n
      → count_below n p (update f k a) + bit (p (f k)) ≡ count_below n p f + bit (p a)
  unfolding count_below
  count_below-update zero p f k a h = absurd (omega arith)
  count_below-update (suc n) p f k a h =
      ground (arith, count_below-update n p f k a, count_below-update_of_le n p f k a)

  -- A value that passes is counted.
  pub count_below-zero :
      (n : ℕ) (p : A → Bool) (f : ℕ → A) → count_below n p f ≡ 0 → (k : ℕ) → k < n → p (f k) ≡ false
  unfolding count_below
  count_below-zero zero p f h k lt = absurd (omega arith)
  count_below-zero (suc n) p f h k lt = ground (arith, count_below-zero n p f (ground arith) k)

  pub count_below_none :
      (n : ℕ) (p : A → Bool) (f : ℕ → A)
      → ((k : ℕ) → k < n → p (f k) ≡ false)
      → count_below n p f ≡ 0
  unfolding count_below
  count_below_none zero p f h = refl
  count_below_none (suc n) p f h =
      ground (arith, h n, count_below_none n p f (λ k lt. h k (omega arith)))
