-- ===== src/Config/Endpoint/Normalize.antt =====
-- internal/config/config.go: `normalizeEndpoint`, one function for each case of its switch.
-- The error values are the kinds of the messages; the names in a message are left out.
use lazywrap.Base.{
  ℕ, Bytes, codes, eq_bytes, is_empty, Bool, true, false, not, ◌&&◌, ◌||◌, List, [], ◌∷◌, ◌++◌,
  ◌==◌, ltb, if◌then◌else◌, ℤ, pos, eq_ℤ, trim_space, trim_right, to_lower, has_prefix,
}
use lazywrap.Config.Types.{RuntimeEndpointConfig}
use lazywrap.Config.Endpoint.{
  EndpointConfig, Checked, valid, rejected, ◌>>=◌, normalize_host, listen_port_without_tcp,
  path_or_host, prefix_with_host, relative_path, routing_with_grpc, routing_with_tcp,
  invalid_protocol, health_without_grpc,
}
use lazywrap.Config.Registry.{
  Registry, register_port, register_listen_port, register_host, register_path, register_aliases,
}

abbrev pub protocol_http : Bytes
protocol_http = codes "http"

abbrev pub protocol_grpc : Bytes
protocol_grpc = codes "grpc"

abbrev pub protocol_tcp : Bytes
protocol_tcp = codes "tcp"

-- What a case of the switch leaves in `path`, `host` and `result.Aliases`, and the maps.
pub record Routing : Type 0 where
  pub path : Bytes
  pub host : Bytes
  pub aliases : List Bytes
  pub registry : Registry

-- `appID + ".localhost"` and `name + "." + appID + ".localhost"`
abbrev pub app_host : Bytes → Bytes
app_host id = id ++ codes ".localhost"

abbrev pub endpoint_host : Bytes → Bytes → Bytes
endpoint_host id name = name ++ (b'.' ∷ app_host id)

abbrev pub same_bool : Bool → Bool → Bool
same_bool true b = b
same_bool false b = not b

unfoldable pub http_host : Bytes → Bytes → Bytes → List Bytes → Registry → Checked Routing
unfolding normalize_host register_host register_aliases
http_host label path text aliases reg = do
  host ← normalize_host text
  reg' ← register_host label host reg
  (aliases', reg'') ← register_aliases (λ _. false) label aliases reg'
  valid (record { path = path; host = host; aliases = aliases'; registry = reg'' })

unfoldable pub http_path : Bytes → Bytes → Bytes → Registry → Checked Routing
unfolding has_prefix eq_bytes trim_right register_path
http_path label text host reg =
    let path = if eq_bytes text (codes "/") then text else trim_right (λ c. c == b'/') text in
    if not (has_prefix text (codes "/")) then rejected relative_path else (do
      reg' ← register_path label path reg
      valid (record { path = path; host = host; aliases = []; registry = reg' }))

-- The host that an endpoint gets which names none.
abbrev pub default_host : Bytes → Bytes → EndpointConfig → Bytes
default_host id name e = if e.primary then app_host id else endpoint_host id name

abbrev pub http_text : Bytes → Bytes → EndpointConfig → Bytes → Bytes → Bytes
http_text id name e path host =
    if is_empty path && is_empty host then default_host id name e else host

abbrev pub http_aliases : Bytes → Bytes → EndpointConfig → Bytes → Bytes → List Bytes
http_aliases id name e path host =
    if is_empty path
      && is_empty host
      && e.primary
      && not (eq_bytes (endpoint_host id name) (app_host id))
    then endpoint_host id name ∷ []
    else []

-- `case ProtocolHTTP`
unfoldable pub route_http :
    Bytes → Bytes → Bytes → EndpointConfig → Bytes → Bytes → Registry → Checked Routing
unfolding http_host http_path eq_bytes
route_http id name label e path host reg =
    let text = http_text id name e path host in
    let aliases = http_aliases id name e path host in
    if not (eq_ℤ e.listen_port (pos 0))
    then rejected listen_port_without_tcp
    else if same_bool (is_empty path) (is_empty text)
    then rejected path_or_host
    else if not (is_empty text)
    then (if e.include_prefix
        then rejected prefix_with_host
        else http_host label path text aliases reg)
    else http_path label path text reg

unfoldable pub grpc_host : Bytes → Bytes → Bytes → List Bytes → Registry → Checked Routing
unfolding normalize_host register_host register_aliases eq_bytes
grpc_host label path text aliases reg = do
  host ← normalize_host text
  reg' ← register_host label host reg
  (aliases', reg'') ← register_aliases (λ a. eq_bytes a host) label aliases reg'
  valid (record { path = path; host = host; aliases = aliases'; registry = reg'' })

abbrev pub grpc_text : Bytes → Bytes → EndpointConfig → Bytes → Bytes
grpc_text id name e host = if is_empty host then default_host id name e else host

abbrev pub grpc_aliases : Bytes → Bytes → EndpointConfig → Bytes → List Bytes
grpc_aliases id name e host = if is_empty host && e.primary then endpoint_host id name ∷ [] else []

-- `case ProtocolGRPC`
unfoldable pub route_grpc :
    Bytes → Bytes → Bytes → EndpointConfig → Bytes → Bytes → Registry → Checked Routing
unfolding grpc_host
route_grpc id name label e path host reg =
    if not (eq_ℤ e.listen_port (pos 0))
    then rejected listen_port_without_tcp
    else if not (is_empty path) || e.include_prefix
    then rejected routing_with_grpc
    else grpc_host label path (grpc_text id name e host) (grpc_aliases id name e host) reg

-- `case ProtocolTCP`
unfoldable pub route_tcp : ℤ → Bytes → EndpointConfig → Bytes → Bytes → Registry → Checked Routing
unfolding register_listen_port
route_tcp wrapper label e path host reg =
    if not (is_empty path) || not (is_empty host) || e.include_prefix
    then rejected routing_with_tcp
    else (do
      reg' ← register_listen_port wrapper label e.listen_port reg
      valid (record { path = path; host = host; aliases = []; registry = reg' }))

-- `switch protocol`
unfoldable pub route :
    ℤ → Bytes → Bytes → Bytes → EndpointConfig → Bytes → Registry → Checked Routing
unfolding route_http route_grpc route_tcp eq_bytes trim_space
route wrapper id name label e protocol reg =
    let path = trim_space e.path in
    let host = trim_space e.host in
    if eq_bytes protocol protocol_http
    then route_http id name label e path host reg
    else if eq_bytes protocol protocol_grpc
    then route_grpc id name label e path host reg
    else if eq_bytes protocol protocol_tcp
    then route_tcp wrapper label e path host reg
    else rejected invalid_protocol

unfoldable pub protocol_of : Bytes → Bytes
unfolding to_lower trim_space
protocol_of text =
    let protocol = to_lower (trim_space text) in
    if is_empty protocol then protocol_http else protocol

-- `result`, with the path and the host of the routing.
abbrev pub endpoint_of : Bytes → Bytes → EndpointConfig → Routing → RuntimeEndpointConfig
endpoint_of name protocol e r = record {
  name = name;
  protocol = protocol;
  path = r.path;
  host = r.host;
  aliases = r.aliases;
  listen_port = e.listen_port;
  port = e.port;
  include_prefix = e.include_prefix;
  grpc_health = e.grpc_health;
  primary = e.primary;
}

-- `health.grpc` is for gRPC alone.
unfoldable pub finish_endpoint :
    Bytes → Bytes → EndpointConfig → Routing → Checked (RuntimeEndpointConfig × Registry)
unfolding eq_bytes
finish_endpoint name protocol e r =
    if e.grpc_health && not (eq_bytes protocol protocol_grpc)
    then rejected health_without_grpc
    else valid (endpoint_of name protocol e r, r.registry)

unfoldable pub label_of : Bytes → Bytes → ℕ → Bytes
unfolding eq_bytes
label_of id name count =
    if ltb 1 count || not (eq_bytes name (codes "default")) then id ++ (b'.' ∷ name) else id

unfoldable pub normalize_endpoint :
    Bytes → Bytes → EndpointConfig → ℕ → ℤ → Registry → Checked (RuntimeEndpointConfig × Registry)
unfolding label_of protocol_of register_port route finish_endpoint
normalize_endpoint id name e count wrapper reg = do
  reg' ← register_port wrapper (label_of id name count) e.port reg
  r ← route wrapper id name (label_of id name count) e (protocol_of e.protocol) reg'
  finish_endpoint name (protocol_of e.protocol) e r
