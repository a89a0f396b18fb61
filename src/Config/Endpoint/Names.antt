-- ===== src/Config/Endpoint/Names.antt =====
-- internal/config/config.go: the names of the endpoints of an accepted app hold no NUL byte.
use mathlib.Core.Path.{subst}
use lazywrap.Base.{
  ℕ, suc, zero, ◌+◌, ◌≡◌, refl, ap, inl, inr, Bytes, bytes_eq, true, false, not, ◌||◌, List, [],
  ◌∷◌, arith, Bool-cases, has_byte, to_lower, insert, lookup, is_some, is_empty, eq_ℤ, pos,
  if◌then◌else◌, ◌==◌,
}
use lazywrap.Base.Keys.{Entries, insert-Entries}
use lazywrap.Config.Endpoint.{
  EndpointConfig, AppConfig, Checked, valid, rejected, ◌>>=◌, >>=-valid, valid-injective, passed,
  invalid_name, duplicate_name, valid_dns_label, all_label_bytes, collect_inputs, settle_primary,
  app_endpoint_inputs, has_routing, routing_without_port, legacy_routing_with_endpoints,
  invalid_app_id,
}

-- The name has no NUL byte.
abbrev pub IsPlain : Bytes → EndpointConfig → Type 0
IsPlain name v = has_byte 0 name ≡ false

all_label_bytes-has_byte : (s : Bytes) → all_label_bytes s ≡ true → has_byte 0 (to_lower s) ≡ false
unfolding all_label_bytes has_byte to_lower
all_label_bytes-has_byte [] h = refl
all_label_bytes-has_byte (c ∷ s) h = ground (arith, all_label_bytes-has_byte s)

valid_dns_label-has_byte : (s : Bytes) → valid_dns_label s ≡ true → has_byte 0 (to_lower s) ≡ false
unfolding valid_dns_label
valid_dns_label-has_byte [] h = cc
valid_dns_label-has_byte (c ∷ s) h = ground (arith, all_label_bytes-has_byte (c ∷ s))

collect_inputs-IsPlain :
    (inputs : List (Bytes × EndpointConfig)) (n : ℕ) (acc : List (Bytes × EndpointConfig))
    (r : ℕ × List (Bytes × EndpointConfig))
    → Entries IsPlain acc
    → collect_inputs n acc inputs ≡ valid r
    → Entries IsPlain r.1
unfolding collect_inputs
collect_inputs-IsPlain [] n acc r p h =
    subst (λ (x : ℕ × List (Bytes × EndpointConfig)). Entries IsPlain x.1) (valid-injective h) p
collect_inputs-IsPlain ((name, e) ∷ more) n acc r p h =
    let key = to_lower name in
    let rest = collect_inputs (if e.primary then n + 1 else n) (insert key e acc) more in
    let second : Checked (ℕ × List (Bytes × EndpointConfig)) =
      if is_some (lookup key acc) then rejected duplicate_name else rest in
    let (a, h1) = passed (not (valid_dns_label name)) invalid_name second h in
    let (b, h2) = passed (is_some (lookup key acc)) duplicate_name rest h1 in
    collect_inputs-IsPlain more _ (insert key e acc) r
      (insert-Entries IsPlain key e acc (valid_dns_label-has_byte name (ground (arith, a))) p) h2

settle_primary-IsPlain :
    (n : ℕ) (m out : List (Bytes × EndpointConfig))
    → Entries IsPlain m
    → settle_primary (n, m) ≡ valid out
    → Entries IsPlain out
unfolding settle_primary
settle_primary-IsPlain zero ((name, e) ∷ []) out p h =
    subst (Entries IsPlain) (valid-injective h) (λ k v i. elim i [
      | inl q ↦ p k e (inl (ap (λ (x : Bytes × EndpointConfig). (x.0, e)) q))
      | inr t ↦ absurd t
    ])
settle_primary-IsPlain zero [] out p h = ground arith
settle_primary-IsPlain zero (a ∷ b ∷ m) out p h = ground arith
settle_primary-IsPlain (suc n) m out p h = elim (Bool-cases (suc n == 1)) [
  | inl x ↦ subst (Entries IsPlain) (valid-injective (rw x at h)) p
  | inr x ↦ absurd (cc (rw x at h))
]

pub app_endpoint_inputs-IsPlain :
    (id : Bytes) (app : AppConfig) (out : List (Bytes × EndpointConfig))
    → app_endpoint_inputs id app ≡ valid out
    → Entries IsPlain out
unfolding app_endpoint_inputs
app_endpoint_inputs-IsPlain id app out h = elim (Bool-cases (is_empty app.endpoints)) [
  | inl x ↦ elim (Bool-cases (eq_ℤ app.legacy.port (pos 0))) [
    | inl y ↦
        let (_, b) =
          passed (has_routing app.legacy) routing_without_port (valid []) (rw (x, y) at h) in
        subst (Entries IsPlain) (valid-injective b) (λ k v i. absurd i)
    | inr y ↦ subst (Entries IsPlain) (valid-injective (rw (x, y) at h)) (λ k v i. elim i [
      | inl q ↦
          subst (λ (p : Bytes × EndpointConfig). has_byte 0 p.0 ≡ false) q (unfold has_byte in refl)
      | inr t ↦ absurd t
    ])
  ]
  | inr x ↦
      let e = app.legacy in
      let rest : Checked (List (Bytes × EndpointConfig)) =
        collect_inputs 0 [] app.endpoints >>= settle_primary in
      let h1 =
        passed (not (eq_ℤ e.port (pos 0)) || has_routing e) legacy_routing_with_endpoints
          (if not (valid_dns_label id) then rejected invalid_app_id else rest) (rw x at h) in
      let h2 = passed (not (valid_dns_label id)) invalid_app_id rest h1.1 in
      let ((n, m), e1, h3) = >>=-valid (collect_inputs 0 [] app.endpoints) settle_primary h2.1 in
      settle_primary-IsPlain n m out
        (collect_inputs-IsPlain app.endpoints 0 [] (n, m) (λ k v i. absurd i) e1) h3
]
