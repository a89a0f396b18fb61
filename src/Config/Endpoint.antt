-- ===== src/Config/Endpoint.antt =====
-- internal/config/config.go: `appEndpointInputs`, `normalizeEndpoint` and their helpers, which turn
-- the endpoints of a configuration into runtime endpoints.
pub mod Normalize
pub mod Claims
pub mod Routings
pub mod Primary
pub mod Names
use lazywrap.Base.{
  ◌≡◌, refl, Option, ℕ, zero, ◌+◌, Bytes, codes, bytes_eq, eq_bytes, int_eq, is_empty, Bool, true,
  false, not, ◌&&◌, ◌||◌, List, [], ◌∷◌, ◌==◌, ltb, leb, if◌then◌else◌, length, lookup, insert,
  is_some, ℤ, pos, eq_ℤ, trim_space, to_lower, contains_any, has_byte,
}

pub record EndpointConfig : Type 0 where
  pub port : ℤ
  pub protocol : Bytes
  pub path : Bytes
  pub host : Bytes
  pub listen_port : ℤ
  pub include_prefix : Bool
  pub grpc_health : Bool
  pub primary : Bool

-- `AppConfig`; `legacy` holds its own routing fields, which have the names of an endpoint's.
pub record AppConfig : Type 0 where
  pub env_files : List Bytes
  pub pwd : Bytes
  pub build : Bytes
  pub launch : Bytes
  pub stop : Bytes
  pub env : List (Bytes × Bytes)
  pub idle : Option ℤ
  pub legacy : EndpointConfig
  pub endpoints : List (Bytes × EndpointConfig)

pub data EndpointError : Type 0 where
  routing_without_port legacy_routing_with_endpoints invalid_app_id invalid_name : EndpointError
  duplicate_name one_primary : EndpointError
  invalid_port port_is_wrapper port_is_listen_port duplicate_port : EndpointError
  listen_port_without_tcp path_or_host prefix_with_host invalid_host duplicate_host : EndpointError
  relative_path duplicate_path routing_with_grpc routing_with_tcp : EndpointError
  invalid_listen_port listen_port_is_wrapper listen_port_is_port duplicate_listen_port :
      EndpointError
  invalid_protocol health_without_grpc : EndpointError

pub data Checked {ℓ} (A : Type ℓ) : Type ℓ where
  valid : A → Checked A
  rejected : EndpointError → Checked A

infixl 5 ◌>>=◌
abbrev pub ◌>>=◌ {ℓ κ} : {A : Type ℓ} {B : Type κ} → Checked A → (A → Checked B) → Checked B
valid a >>= f = f a
rejected e >>= f = rejected e

-- `validDNSLabel`
abbrev is_label_byte : ℕ → Bool
is_label_byte c =
    (leb b'a' c && leb c b'z')
    || (leb b'A' c && leb c b'Z')
    || (leb b'0' c && leb c b'9')
    || c == b'-'

all_label_bytes : Bytes → Bool
all_label_bytes [] = true
all_label_bytes (c ∷ s) = is_label_byte c && all_label_bytes s

ends_in_dash : Bytes → Bool
ends_in_dash [] = false
ends_in_dash (c ∷ []) = c == b'-'
ends_in_dash (c ∷ d ∷ s) = ends_in_dash (d ∷ s)

unfoldable pub valid_dns_label : Bytes → Bool
unfolding all_label_bytes ends_in_dash
valid_dns_label [] = false
valid_dns_label (c ∷ s) =
    if ltb 63 (length (c ∷ s)) || c == b'-' || ends_in_dash (c ∷ s)
    then false
    else all_label_bytes (c ∷ s)

-- `normalizeHost`
unfoldable pub normalize_host : Bytes → Checked Bytes
unfolding trim_space contains_any has_byte to_lower
normalize_host text =
    let host = trim_space text in
    if is_empty host || contains_any host (codes " /\\@") || has_byte b':' host
    then rejected invalid_host
    else valid (to_lower host)

-- A routing field of an app is set, the port aside.
abbrev pub has_routing : EndpointConfig → Bool
has_routing e =
    not (is_empty e.protocol)
    || not (is_empty e.path)
    || not (is_empty e.host)
    || not (eq_ℤ e.listen_port (pos 0))
    || e.include_prefix
    || e.grpc_health

-- The loop of `appEndpointInputs`: the endpoints by their names in lower case, and how many of
-- them are primary.
unfoldable pub collect_inputs :
    ℕ
    → List (Bytes × EndpointConfig)
    → List (Bytes × EndpointConfig)
    → Checked (ℕ × List (Bytes × EndpointConfig))
unfolding valid_dns_label to_lower lookup insert eq_bytes
collect_inputs primary result [] = valid (primary, result)
collect_inputs primary result ((name, e) ∷ more) =
    let key = to_lower name in
    let count = if e.primary then primary + 1 else primary in
    let rest = collect_inputs count (insert key e result) more in
    if not (valid_dns_label name)
    then rejected invalid_name
    else if is_some (lookup key result)
    then rejected duplicate_name
    else rest

-- A single endpoint without a primary mark becomes primary, and exactly one must be.
unfoldable pub settle_primary :
    ℕ × List (Bytes × EndpointConfig) → Checked (List (Bytes × EndpointConfig))
settle_primary (zero, (name, e) ∷ []) = valid ((name, record e { primary = true }) ∷ [])
settle_primary (n, result) = if n == 1 then valid result else rejected one_primary

unfoldable pub app_endpoint_inputs : Bytes → AppConfig → Checked (List (Bytes × EndpointConfig))
unfolding collect_inputs settle_primary valid_dns_label
app_endpoint_inputs id app =
    let e = app.legacy in
    let no_port = eq_ℤ e.port (pos 0) in
    if is_empty app.endpoints
    then (if no_port
        then (if has_routing e then rejected routing_without_port else valid [])
        else valid ((codes "default", record e { primary = true }) ∷ []))
    else if not no_port || has_routing e
    then rejected legacy_routing_with_endpoints
    else if not (valid_dns_label id)
    then rejected invalid_app_id
    else (collect_inputs 0 [] app.endpoints >>= settle_primary)

-- What a chain of checks that passes went through.
pub >>=-valid {ℓ κ} :
    {A : Type ℓ} {B : Type κ} (m : Checked A) (f : A → Checked B) {b : B}
    → (m >>= f) ≡ valid b
    → (a : A) × (m ≡ valid a) × (f a ≡ valid b)
>>=-valid (valid a) f h = (a, refl, h)
>>=-valid (rejected e) f h = cc

pub valid-injective {ℓ} : {A : Type ℓ} {a b : A} → valid a ≡ valid b → a ≡ b
valid-injective h = cc

-- A guard that was passed.
pub passed {ℓ} :
    {A : Type ℓ} (b : Bool) (x : EndpointError) (m : Checked A) {r : A}
    → (if b then rejected x else m) ≡ valid r
    → (b ≡ false) × (m ≡ valid r)
passed true x m h = cc
passed false x m h = (refl, h)
