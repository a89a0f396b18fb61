-- ===== src/Config/Environment/Interpolate.antt =====
-- The loop of `interpolateEnv` ends.
use lazywrap.Base.{
  ℕ, zero, suc, ◌<◌, ◌≡◌, ◌≢◌, refl, ◌⊎◌, inl, inr, Bytes, [], ◌∷◌, ◌++◌, some, arith, length,
  length-append, Option-cases, Bool-cases, ◌==◌, ◌&&◌, ap,
}
use lazywrap.Config.Environment.{
  Result, EnvError, ok, err, fuel_spent, Env, cut_pair, replacement, interpolate_loop,
  interpolate_env,
}

-- A pair of bytes that is found stands where it was found.
pub cut_pair_sound :
    (b : ℕ) (s before after : Bytes)
    → cut_pair b s ≡ some (before, after)
    → s ≡ before ++ (b ∷ b ∷ after)
unfolding cut_pair
cut_pair_sound b [] before after h = ground arith
cut_pair_sound b (c ∷ []) before after h = ground arith
cut_pair_sound b (c ∷ d ∷ s) before after h = elim (Bool-cases (c == b && d == b)) [
  | inl x ↦ ground arith
  | inr x ↦ elim (Option-cases (cut_pair b (d ∷ s))) [
    | inl y ↦ ground arith
    | inr ((u, v), y) ↦ ground (arith, cut_pair_sound b (d ∷ s) u v y)
  ]
]

cut_pair_shorter :
    (b : ℕ) (s before after : Bytes) → cut_pair b s ≡ some (before, after) → length after < length s
cut_pair_shorter b s before after h =
    omega
      (arith, ap length (cut_pair_sound b s before after h), length-append before (b ∷ b ∷ after))

replacement_fuel : (base : Env) (expr : Bytes) → replacement base expr ≢ err fuel_spent
unfolding replacement
replacement_fuel base expr = ground arith

Result-cases : (r : Result Bytes) → ((e : EnvError) × (r ≡ err e)) ⊎ ((s : Bytes) × (r ≡ ok s))
Result-cases (ok s) = inr (s, refl)
Result-cases (err e) = inl (e, refl)

interpolate_loop_total :
    (fuel : ℕ) (base : Env) (out value : Bytes)
    → length value < fuel
    → interpolate_loop fuel base out value ≢ err fuel_spent
unfolding interpolate_loop
interpolate_loop_total zero base out value h = absurd (omega arith)
interpolate_loop_total (suc fuel) base out value h = elim (Option-cases (cut_pair 123 value)) [
  | inl x ↦ rw (interpolate_loop, x) (λ e. cc)
  | inr ((before, after), x) ↦ elim (Option-cases (cut_pair 125 after)) [
    | inl y ↦ rw (interpolate_loop, x, y) (λ e. cc)
    | inr ((expr, tail), y) ↦ elim (Result-cases (replacement base expr)) [
      | inl (e, z) ↦ rw (interpolate_loop, x, y, z) (ground (arith, replacement_fuel base expr))
      | inr (r, z) ↦
          let shorter = cut_pair_shorter 123 value before after x in
          let rest = cut_pair_shorter 125 after expr tail y in
          rw (interpolate_loop, x, y, z)
            (interpolate_loop_total fuel base ((out ++ before) ++ r) tail (omega arith))
    ]
  ]
]

-- Whatever the value and the environment, the loop of `interpolateEnv` ends
-- within one round for each byte of the value, and one more.
pub interpolate_env_total :
    (base : Env) (value : Bytes) → interpolate_env value base ≢ err fuel_spent
unfolding interpolate_env
interpolate_env_total base value =
    interpolate_loop_total (suc (length value)) base [] value (omega arith)
