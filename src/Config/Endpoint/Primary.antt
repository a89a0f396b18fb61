-- ===== src/Config/Endpoint/Primary.antt =====
-- Which endpoints an app has: `appEndpointInputs`.
use lazywrap.Base.{
  ℕ, zero, suc, ◌+◌, ◌≡◌, refl, sym, Bytes, bytes_eq, eq_ℤ, pos, is_empty, Bool, true, false, not,
  ◌||◌, List, [], ◌∷◌, none, eq_ℤ_iff, ◌⊎◌, arith, Bool-cases, inl, inr, if◌then◌else◌, lookup,
  insert, is_some, to_lower,
}
use lazywrap.Config.Endpoint.{
  EndpointConfig, AppConfig, Checked, valid, rejected, ◌>>=◌, >>=-valid, valid-injective, passed,
  invalid_name, duplicate_name, routing_without_port, legacy_routing_with_endpoints, invalid_app_id,
  has_routing, valid_dns_label, collect_inputs, settle_primary, app_endpoint_inputs,
}

abbrev bit : Bool → ℕ
bit true = 1
bit false = 0

-- How many endpoints are primary.
pub count_primary : List (Bytes × EndpointConfig) → ℕ
count_primary [] = 0
count_primary ((name, e) ∷ more) = bit e.primary + count_primary more

count_primary-insert :
    (name : Bytes) (e : EndpointConfig) (m : List (Bytes × EndpointConfig))
    → lookup name m ≡ none
    → count_primary (insert name e m) ≡ bit e.primary + count_primary m
unfolding count_primary lookup insert
count_primary-insert name e [] h = refl
count_primary-insert name e ((j, f) ∷ m) h = ground (arith, count_primary-insert name e m)

collect_inputs-count_primary :
    (inputs : List (Bytes × EndpointConfig)) (n : ℕ) (acc : List (Bytes × EndpointConfig)) (m : ℕ)
    (out : List (Bytes × EndpointConfig))
    → n ≡ count_primary acc
    → collect_inputs n acc inputs ≡ valid (m, out)
    → m ≡ count_primary out
unfolding collect_inputs
collect_inputs-count_primary [] n acc m out e h = ground arith
collect_inputs-count_primary ((name, f) ∷ more) n acc m out e h =
    let key = to_lower name in
    let count : ℕ = if f.primary then n + 1 else n in
    let rest = collect_inputs count (insert key f acc) more in
    let last : Checked (ℕ × List (Bytes × EndpointConfig)) =
      if is_some (lookup key acc) then rejected duplicate_name else rest in
    let (_, h1) = passed (not (valid_dns_label name)) invalid_name last h in
    let (fresh, h2) = passed (is_some (lookup key acc)) duplicate_name rest h1 in
    collect_inputs-count_primary more count (insert key f acc) m out
      (ground (arith, count_primary-insert key f acc)) h2

settle_primary-count_primary :
    (n : ℕ) (m : List (Bytes × EndpointConfig)) (out : List (Bytes × EndpointConfig))
    → n ≡ count_primary m
    → settle_primary (n, m) ≡ valid out
    → count_primary out ≡ 1
unfolding settle_primary count_primary
settle_primary-count_primary zero ((name, e) ∷ []) out p h = let q = valid-injective h in rw (← q)
settle_primary-count_primary zero [] out p h = ground arith
settle_primary-count_primary zero (a ∷ b ∷ m) out p h = ground arith
settle_primary-count_primary (suc n) m out p h = ground arith

-- Of the endpoints that an app is accepted with exactly one is primary, or it has none, no
-- endpoints being configured and no port.
pub app_endpoint_inputs-primary :
    (id : Bytes) (app : AppConfig) (out : List (Bytes × EndpointConfig))
    → app_endpoint_inputs id app ≡ valid out
    → (count_primary out ≡ 1)
      ⊎ ((out ≡ [])
          × (app.endpoints ≡ [])
          × (app.legacy.port ≡ pos 0)
          × (has_routing app.legacy ≡ false))
unfolding app_endpoint_inputs
app_endpoint_inputs-primary id app out h = elim (Bool-cases (is_empty app.endpoints)) [
  | inl x ↦ elim (Bool-cases (eq_ℤ app.legacy.port (pos 0))) [
    | inl y ↦
        let (a, b) =
          passed (has_routing app.legacy) routing_without_port (valid []) (rw (x, y) at h) in
        inr (
          sym (valid-injective b),
          empty_list app.endpoints x,
          (eq_ℤ_iff app.legacy.port (pos 0)).0 y,
          a,
        )
    | inr y ↦ inl (rw (← valid-injective (rw (x, y) at h)) (unfold count_primary in refl))
  ]
  | inr x ↦
      let e = app.legacy in
      let rest : Checked (List (Bytes × EndpointConfig)) =
        collect_inputs 0 [] app.endpoints >>= settle_primary in
      let h1 =
        passed (not (eq_ℤ e.port (pos 0)) || has_routing e) legacy_routing_with_endpoints
          (if not (valid_dns_label id) then rejected invalid_app_id else rest) (rw x at h) in
      let h2 = passed (not (valid_dns_label id)) invalid_app_id rest h1.1 in
      let ((n, m), e1, h3) = >>=-valid (collect_inputs 0 [] app.endpoints) settle_primary h2.1 in
      inl (
        settle_primary-count_primary n m out
          (collect_inputs-count_primary app.endpoints 0 [] n m (unfold count_primary in refl) e1)
          h3)
]
  where
    empty_list : {A : Type 0} (l : List A) → is_empty l ≡ true → l ≡ []
    empty_list [] q = refl
    empty_list (a ∷ l) q = cc
