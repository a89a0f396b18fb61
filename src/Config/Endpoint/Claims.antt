-- ===== src/Config/Endpoint/Claims.antt =====
-- An endpoint that `normalizeEndpoint` accepts has taken its ports, its names and its path, which
-- were all free.
use mathlib.Core.Path.{subst}
use lazywrap.Base.{
  ℕ, ◌≡◌, ◌≢◌, refl, Bytes, bytes_eq, eq_bytes, eq_bytes_iff, is_empty, true, false, not, ◌&&◌,
  ◌||◌, List, [], ◌∷◌, arith, Bool-cases, inl, inr, if◌then◌else◌, ℤ, to_lower, trim_space,
}
use lazywrap.Config.Types.{RuntimeEndpointConfig}
use lazywrap.Config.Endpoint.{
  EndpointConfig, Checked, valid, ◌>>=◌, >>=-valid, valid-injective, passed, routing_with_tcp,
  health_without_grpc,
}
use lazywrap.Config.Endpoint.Normalize.{
  protocol_http, protocol_grpc, protocol_tcp, Routing, route_tcp, route, protocol_of,
  finish_endpoint, endpoint_of, label_of, normalize_endpoint,
}
use lazywrap.Config.Registry.{Registry, out_of_range, register_port, register_listen_port}
use lazywrap.Config.Registry.Claims.{
  Resource, socket, Claims, Claims-append, register_port-Claims, register_listen_port-Claims,
}
use lazywrap.Config.Endpoint.Routings.{
  names_of, IsLower, Routes, route_http-Routes, route_grpc-Routes,
}

-- What an accepted endpoint needs for itself alone.
abbrev pub uses : RuntimeEndpointConfig → List Resource
uses e =
    socket e.port
    ∷ (if eq_bytes e.protocol protocol_tcp
        then socket e.listen_port ∷ []
        else names_of e.path e.host e.aliases)

-- The ports are in range and not the wrapper's, and the host and the aliases are in lower case.
pub record IsSound (wrapper : ℤ) (e : RuntimeEndpointConfig) : Type 0 where
  pub port_range : out_of_range e.port ≡ false
  pub port_other : e.port ≢ wrapper
  pub listen_range : eq_bytes e.protocol protocol_tcp ≡ true → out_of_range e.listen_port ≡ false
  pub listen_other : eq_bytes e.protocol protocol_tcp ≡ true → e.listen_port ≢ wrapper
  pub lower : IsLower e.host e.aliases

-- What a case of the switch on `protocol` leaves.
pub record Settles (wrapper : ℤ) (protocol : Bytes) (listen : ℤ) (reg : Registry) (r : Routing)
    : Type 0 where
  pub claims : Claims reg r.registry (
      if eq_bytes protocol protocol_tcp
      then socket listen ∷ []
      else names_of r.path r.host r.aliases)
  pub range : eq_bytes protocol protocol_tcp ≡ true → out_of_range listen ≡ false
  pub other : eq_bytes protocol protocol_tcp ≡ true → listen ≢ wrapper
  pub lower : IsLower r.host r.aliases

Routes-Settles :
    (wrapper : ℤ) (protocol : Bytes) (listen : ℤ) (reg : Registry) (r : Routing)
    → eq_bytes protocol protocol_tcp ≡ false
    → Routes reg r
    → Settles wrapper protocol listen reg r
Routes-Settles wrapper protocol listen reg r x (c, l) = record {
  claims = rw x c;
  range = λ t. cc;
  other = λ t. cc;
  lower = l;
}

module _ (wrapper : ℤ) (label : Bytes) (e : EndpointConfig) (path host protocol : Bytes)
    (reg : Registry) (r : Routing) where
  route_tcp-Settles :
      eq_bytes protocol protocol_tcp ≡ true
      → route_tcp wrapper label e path host reg ≡ valid r
      → Settles wrapper protocol e.listen_port reg r
  unfolding route_tcp to_lower
  route_tcp-Settles x h =
      let last : Checked Routing = register_listen_port wrapper label e.listen_port reg >>= λ reg'.
      valid (record { path = path; host = host; aliases = []; registry = reg' }) in
      let (b, h1) =
        passed (not (is_empty path) || not (is_empty host) || e.include_prefix) routing_with_tcp
          last h in
      let (reg1, e1, h2) = >>=-valid (register_listen_port wrapper label e.listen_port reg) _ h1 in
      let (c, range, other) = register_listen_port-Claims wrapper label e.listen_port reg reg1 e1 in
      let n : host ≡ [] = no_host host (ground arith) in
      subst (Settles wrapper protocol e.listen_port reg) (valid-injective h2) (record {
        claims = rw x c;
        range = λ t. range;
        other = λ t. other;
        lower = (rw n, tt, λ _. refl);
      })
    where
      no_host : (s : Bytes) → is_empty s ≡ true → s ≡ []
      no_host [] q = refl
      no_host (c ∷ s) q = cc

module _ (wrapper : ℤ) (id name label : Bytes) (e : EndpointConfig) (protocol : Bytes)
    (reg : Registry) (r : Routing) where
  route-Settles :
      route wrapper id name label e protocol reg ≡ valid r
      → Settles wrapper protocol e.listen_port reg r
  unfolding route
  route-Settles h = elim (Bool-cases (eq_bytes protocol protocol_http)) [
    | inl x ↦
        Routes-Settles wrapper protocol e.listen_port reg r
          (ground (arith, eq_bytes_iff protocol protocol_http, eq_bytes_iff protocol protocol_tcp))
          (route_http-Routes id name label e (trim_space e.path) (trim_space e.host) reg r
            (rw x at h))
    | inr x ↦ elim (Bool-cases (eq_bytes protocol protocol_grpc)) [
      | inl y ↦
          Routes-Settles wrapper protocol e.listen_port reg r
            (ground
              (arith, eq_bytes_iff protocol protocol_grpc, eq_bytes_iff protocol protocol_tcp))
            (route_grpc-Routes id name label e (trim_space e.path) (trim_space e.host) reg r
              (rw (x, y) at h))
      | inr y ↦ elim (Bool-cases (eq_bytes protocol protocol_tcp)) [
        | inl z ↦
            route_tcp-Settles wrapper label e (trim_space e.path) (trim_space e.host) protocol reg r
              z (rw (x, y, z) at h)
        | inr z ↦ cc (rw (x, y, z) at h)
      ]
    ]
  ]

-- An endpoint that is accepted takes what it uses, which was free, and is sound.
pub normalize_endpoint-Claims :
    (id name : Bytes) (e : EndpointConfig) (count : ℕ) (wrapper : ℤ) (reg reg' : Registry)
    (out : RuntimeEndpointConfig)
    → normalize_endpoint id name e count wrapper reg ≡ valid (out, reg')
    → Claims reg reg' (uses out) × IsSound wrapper out
unfolding normalize_endpoint finish_endpoint
normalize_endpoint-Claims id name e count wrapper reg reg' out h =
    let label = label_of id name count in
    let protocol = protocol_of e.protocol in
    let (reg1, e1, h1) = >>=-valid (register_port wrapper label e.port reg) _ h in
    let (r, e2, h2) = >>=-valid (route wrapper id name label e protocol reg1) _ h1 in
    let (c, range, other) = register_port-Claims wrapper label e.port reg reg1 e1 in
    let s = route-Settles wrapper id name label e protocol reg1 r e2 in
    let (_, h3) =
      passed (e.grpc_health && not (eq_bytes protocol protocol_grpc)) health_without_grpc
        (valid (endpoint_of name protocol e r, r.registry)) h2 in
    subst
      (λ (p : RuntimeEndpointConfig × Registry). Claims reg p.1 (uses p.0) × IsSound wrapper p.0)
      (valid-injective h3)
      (
        Claims-append (socket e.port ∷ []) _ c s.claims,
        record {
          port_range = range;
          port_other = other;
          listen_range = s.range;
          listen_other = s.other;
          lower = s.lower;
        },
      )
