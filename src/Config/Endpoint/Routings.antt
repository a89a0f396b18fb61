-- ===== src/Config/Endpoint/Routings.antt =====
-- internal/config/config.go: what the route of an endpoint claims, by protocol.
use mathlib.Core.Path.{subst}
use lazywrap.Base.{
  ◌≡◌, refl, Bytes, bytes_eq, eq_bytes, eq_bytes_iff, is_empty, Bool, true, false, not, ◌||◌, List,
  [], ◌∷◌, arith, Bool-cases, inl, inr, if◌then◌else◌, map, pos, eq_ℤ, to_lower, to_lower_idem,
  trim_space, trim_right, has_prefix, codes, ◌==◌, All,
}
use lazywrap.Config.Endpoint.{
  EndpointConfig, Checked, valid, >>=-valid, valid-injective, passed, rejected, prefix_with_host,
  listen_port_without_tcp, path_or_host, routing_with_grpc, normalize_host,
}
use lazywrap.Config.Endpoint.Normalize.{
  Routing, http_host, http_path, route_http, grpc_host, route_grpc, http_text, http_aliases,
  grpc_text, grpc_aliases, same_bool,
}
use lazywrap.Config.Registry.{
  Registry, register_host, register_path, register_aliases, register_unless,
}
use lazywrap.Config.Registry.Claims.{
  Resource, named, routed, Claims, register_host-Claims, register_path-Claims,
}
use lazywrap.Config.Registry.Aliases.{register_aliases-Claims, Skips}

-- The host, with its aliases, or else the path.
abbrev pub names_of : Bytes → Bytes → List Bytes → List Resource
names_of path host aliases =
    if is_empty host then routed path ∷ [] else named host ∷ map named aliases

is_empty-to_lower : (s : Bytes) → is_empty (to_lower s) ≡ is_empty s
unfolding to_lower
is_empty-to_lower [] = refl
is_empty-to_lower (c ∷ s) = refl

-- A normalized host is not empty and has no upper case.
normalize_host_lem :
    (text host : Bytes)
    → normalize_host text ≡ valid host
    → (is_empty host ≡ false) × (to_lower host ≡ host)
unfolding normalize_host
normalize_host_lem text host h = (
  ground (arith, is_empty-to_lower (trim_space text)),
  ground (arith, to_lower_idem (trim_space text)),
)

-- A host and its aliases are in lower case, and there is no alias without a host.
abbrev pub IsLower : Bytes → List Bytes → Type 0
IsLower host aliases =
    (to_lower host ≡ host)
    × All (λ a. to_lower a ≡ a) aliases
    × (is_empty host ≡ true → aliases ≡ [])

register_aliases-IsLower :
    (skips : Bytes → Bool) (label : Bytes) (aliases out : List Bytes) (reg reg' : Registry)
    → register_aliases skips label aliases reg ≡ valid (out, reg')
    → All (λ a. to_lower a ≡ a) out
unfolding register_aliases
register_aliases-IsLower skips label [] out reg reg' h =
    let o : [] ≡ out = ground arith in subst (All (λ a. to_lower a ≡ a)) o tt
register_aliases-IsLower skips label (a ∷ more) out reg reg' h =
    let (b, e0, h1) = >>=-valid (normalize_host a) _ h in
    let (reg1, _, h2) = >>=-valid (register_unless (skips b) label b reg) _ h1 in
    let ((rest, reg2), e2, h3) = >>=-valid (register_aliases skips label more reg1) _ h2 in
    let o : b ∷ rest ≡ out = ground arith in
    subst (All (λ a. to_lower a ≡ a)) o
      ((normalize_host_lem a b e0).1, register_aliases-IsLower skips label more rest reg1 reg2 e2)

-- What the cases of the switch leave: names that were free, in lower case.
abbrev pub Routes : Registry → Routing → Type 0
Routes reg r = Claims reg r.registry (names_of r.path r.host r.aliases) × IsLower r.host r.aliases

named-Routes :
    (path host : Bytes) (aliases : List Bytes) (reg reg' : Registry)
    → (is_empty host ≡ false) × (to_lower host ≡ host)
    → All (λ a. to_lower a ≡ a) aliases
    → Claims reg reg' (named host ∷ map named aliases)
    → Routes reg (record { path = path; host = host; aliases = aliases; registry = reg' })
named-Routes path host aliases reg reg' (full, low) lows c = (rw full c, (low, lows, λ n. cc))

module _ (label path text : Bytes) (aliases : List Bytes) (reg : Registry) (r : Routing) where
  http_host-Routes : http_host label path text aliases reg ≡ valid r → Routes reg r
  unfolding http_host
  http_host-Routes h =
      let (host, e1, h1) = >>=-valid (normalize_host text) _ h in
      let (reg1, e2, h2) = >>=-valid (register_host label host reg) _ h1 in
      let ((out, reg2), e3, h3) =
        >>=-valid (register_aliases (λ _. false) label aliases reg1) _ h2 in
      subst (Routes reg) (valid-injective h3) (
        named-Routes path host out reg reg2 (normalize_host_lem text host e1)
          (register_aliases-IsLower (λ _. false) label aliases out reg1 reg2 e3)
          (register_aliases-Claims (λ _. false) label aliases out reg reg1 reg2 (λ a x. cc)
            (named host ∷ []) (register_host-Claims label host reg reg1 e2) e3))

  grpc_host-Routes : grpc_host label path text aliases reg ≡ valid r → Routes reg r
  unfolding grpc_host
  grpc_host-Routes h =
      let (host, e1, h1) = >>=-valid (normalize_host text) _ h in
      let (reg1, e2, h2) = >>=-valid (register_host label host reg) _ h1 in
      let ((out, reg2), e3, h3) =
        >>=-valid (register_aliases (λ a. eq_bytes a host) label aliases reg1) _ h2 in
      let c = register_host-Claims label host reg reg1 e2 in
      subst (Routes reg) (valid-injective h3) (
        named-Routes path host out reg reg2 (normalize_host_lem text host e1)
          (register_aliases-IsLower (λ a. eq_bytes a host) label aliases out reg1 reg2 e3)
          (register_aliases-Claims (λ a. eq_bytes a host) label aliases out reg reg1 reg2
            (same_host host reg1 c) (named host ∷ []) c e3))
    where
      same_host :
          (host : Bytes) (reg1 : Registry)
          → Claims reg reg1 (named host ∷ [])
          → Skips reg reg1 (λ a. eq_bytes a host)
      same_host host reg1 c a x =
          let e : a ≡ host = (eq_bytes_iff a host).0 x in rw e (c.free.0, c.held.0)

module _ (label text host : Bytes) (reg : Registry) (r : Routing) where
  http_path-Routes : is_empty host ≡ true → http_path label text host reg ≡ valid r → Routes reg r
  unfolding http_path to_lower
  http_path-Routes n h = elim (Bool-cases (has_prefix text (codes "/"))) [
    | inr x ↦ cc (rw x at h)
    | inl x ↦
        let path = if eq_bytes text (codes "/") then text else trim_right (λ c. c == b'/') text in
        let (reg1, e1, h1) = >>=-valid (register_path label path reg) _ (rw x at h) in
        subst (Routes reg) (valid-injective h1)
          (rw n (register_path-Claims label path reg reg1 e1), (no_host host n, tt, λ _. refl))
  ]
    where
      no_host : (s : Bytes) → is_empty s ≡ true → to_lower s ≡ s
      no_host [] e = refl
      no_host (c ∷ s) e = cc

http_rest-Routes :
    (label path text : Bytes) (aliases : List Bytes) (prefix : Bool) (reg : Registry) (r : Routing)
    → (if not (is_empty text)
        then (if prefix then rejected prefix_with_host else http_host label path text aliases reg)
        else http_path label path text reg)
      ≡ valid r
    → Routes reg r
http_rest-Routes label path text aliases prefix reg r h = elim (Bool-cases (is_empty text)) [
  | inl x ↦ http_path-Routes label path text reg r x (rw x at h)
  | inr x ↦
      http_host-Routes label path text aliases reg r
        (passed prefix prefix_with_host (http_host label path text aliases reg) (rw x at h)).1
]

module _ (id name label : Bytes) (e : EndpointConfig) (path host : Bytes) (reg : Registry)
    (r : Routing) where
  pub route_http-Routes : route_http id name label e path host reg ≡ valid r → Routes reg r
  unfolding route_http
  route_http-Routes h =
      let text = http_text id name e path host in
      let aliases = http_aliases id name e path host in
      let rest : Checked Routing =
        if not (is_empty text)
        then (if e.include_prefix
            then rejected prefix_with_host
            else http_host label path text aliases reg)
        else http_path label path text reg in
      let inner : Checked Routing =
        if same_bool (is_empty path) (is_empty text) then rejected path_or_host else rest in
      let (_, h1) = passed (not (eq_ℤ e.listen_port (pos 0))) listen_port_without_tcp inner h in
      let (_, h2) = passed (same_bool (is_empty path) (is_empty text)) path_or_host rest h1 in
      http_rest-Routes label path text aliases e.include_prefix reg r h2

  pub route_grpc-Routes : route_grpc id name label e path host reg ≡ valid r → Routes reg r
  unfolding route_grpc
  route_grpc-Routes h =
      let text = grpc_text id name e host in
      let aliases = grpc_aliases id name e host in
      let last = grpc_host label path text aliases reg in
      let inner : Checked Routing =
        if not (is_empty path) || e.include_prefix then rejected routing_with_grpc else last in
      let (_, h1) = passed (not (eq_ℤ e.listen_port (pos 0))) listen_port_without_tcp inner h in
      let (_, h2) = passed (not (is_empty path) || e.include_prefix) routing_with_grpc last h1 in
      grpc_host-Routes label path text aliases reg r h2
