-- ===== src/Proxy/Handler.antt =====
-- internal/proxy/handler.go: the routes and reverse proxies of a configuration, and the answer to a
-- request. What `Acquire` answers for a service is an argument; the reverse proxy of net/http/httputil
-- is the request that it sends.
pub mod Keys
pub mod Routes
pub mod Reach
pub mod Hosted
mod Samples
use lazywrap.Base.{
  ℕ, Bytes, bytes_eq, codes, eq_bytes, is_empty, Bool, true, false, not, ◌&&◌, ◌||◌, List, [], ◌∷◌,
  ◌++◌, Option, none, some, if◌then◌else◌, map, insert, lookup, ℤ, pos,
}
use lazywrap.Config.Types.{RuntimeEndpointConfig, RuntimeAppConfig, RuntimeConfig}
use lazywrap.Config.Endpoint.Normalize.{protocol_tcp, protocol_grpc}
use lazywrap.Config.Listing.{endpoint_list}
use lazywrap.Proxy.Router.{Route, Router, new_router, match}
use lazywrap.Proxy.Rewrite.{Url, rewrite}

-- `routeKey`
abbrev pub route_key : Bytes → Bytes → Bytes
route_key id endpoint = id ++ (0 ∷ endpoint)

abbrev pub main_route : Bytes → RuntimeEndpointConfig → Route
main_route id e = record {
  id = id;
  endpoint = e.name;
  path = e.path;
  host = e.host;
  protocol = e.protocol;
}

abbrev pub alias_route : Bytes → RuntimeEndpointConfig → Bytes → Route
alias_route id e alias = record {
  id = id;
  endpoint = e.name;
  path = [];
  host = alias;
  protocol = e.protocol;
}

abbrev pub is_tcp : RuntimeEndpointConfig → Bool
is_tcp e = eq_bytes e.protocol protocol_tcp

-- The routes of one endpoint.
abbrev pub endpoint_routes : Bytes → RuntimeEndpointConfig → List Route
endpoint_routes id e = if is_tcp e then [] else main_route id e ∷ map (alias_route id e) e.aliases

unfoldable pub list_routes : Bytes → List RuntimeEndpointConfig → List Route
unfolding eq_bytes
list_routes id [] = []
list_routes id (e ∷ es) = endpoint_routes id e ++ list_routes id es

unfoldable pub routes_of : List (Bytes × RuntimeAppConfig) → List Route
unfolding list_routes endpoint_list
routes_of [] = []
routes_of ((id, a) ∷ apps) = list_routes id (endpoint_list a) ++ routes_of apps

-- What the closures of a reverse proxy hold.
pub record Backend : Type 0 where
  pub service : Bytes
  pub endpoint : RuntimeEndpointConfig

abbrev pub backend_entry : Bytes → RuntimeEndpointConfig → List (Bytes × Backend)
backend_entry id e =
    if is_tcp e then [] else (route_key id e.name, record { service = id; endpoint = e }) ∷ []

unfoldable pub list_backends : Bytes → List RuntimeEndpointConfig → List (Bytes × Backend)
unfolding eq_bytes
list_backends id [] = []
list_backends id (e ∷ es) = backend_entry id e ++ list_backends id es

unfoldable pub backends_of : List (Bytes × RuntimeAppConfig) → List (Bytes × Backend)
unfolding list_backends endpoint_list
backends_of [] = []
backends_of ((id, a) ∷ apps) = list_backends id (endpoint_list a) ++ backends_of apps

-- The writes to `h.proxies`, in their order.
unfoldable pub put_all : List (Bytes × Backend) → List (Bytes × Backend) → List (Bytes × Backend)
unfolding insert
put_all m [] = m
put_all m ((k, b) ∷ more) = put_all (insert k b m) more

pub record Handler : Type 0 where
  pub router : Router
  pub proxies : List (Bytes × Backend)

-- `NewHandler`
unfoldable pub new_handler : RuntimeConfig → Handler
unfolding new_router routes_of put_all backends_of
new_handler c = record {
  router = new_router (routes_of c.apps);
  proxies = put_all [] (backends_of c.apps);
}

-- `Context.Err`
pub data ContextError : Type 0 where
  canceled deadline_exceeded : ContextError

-- What `errors.Is` and `strings.Contains` find in an error.
pub record Cause : Type 0 where
  pub is_canceled : Bool
  pub is_deadline : Bool
  pub has_readiness_timeout : Bool

-- The codes of gRPC that are used.
pub data Code : Type 0 where
  code_canceled code_deadline_exceeded code_unavailable : Code

abbrev pub ends_canceled : Option ContextError → Bool
ends_canceled (some canceled) = true
ends_canceled _ = false

abbrev pub ends_deadline : Option ContextError → Bool
ends_deadline (some deadline_exceeded) = true
ends_deadline _ = false

unfoldable pub grpc_code : Option ContextError → Cause → Code
grpc_code ctx e =
    if ends_canceled ctx || e.is_canceled
    then code_canceled
    else if ends_deadline ctx || e.is_deadline || e.has_readiness_timeout
    then code_deadline_exceeded
    else code_unavailable

unfoldable pub grpc_message : Option ContextError → Cause → Bytes
unfolding grpc_code
grpc_message ctx e = elim (grpc_code ctx e) [
  | code_canceled ↦ codes "request canceled"
  | code_deadline_exceeded ↦ codes "service startup timed out"
  | code_unavailable ↦ codes "service unavailable"
]

-- What the client gets: an answer of the handler, or what the backend at a port of this machine
-- answers to a path. The last is the panic of a proxy that is missing.
pub data Answer : Type 0 where
  not_found no_proxy : Answer
  grpc_failure : Code → Bytes → Answer
  http_failure : ℕ → Answer
  forwards : ℤ → Url → Answer

-- `Rewrite` of the reverse proxy.
unfoldable pub forward : RuntimeEndpointConfig → Url → Answer
unfolding rewrite
forward e url =
    forwards e.port (if is_empty e.host then rewrite e.path e.include_prefix url else url)

-- `ErrorHandler` of the reverse proxy.
unfoldable pub backend_failure : RuntimeEndpointConfig → Option ContextError → Cause → Answer
unfolding eq_bytes grpc_code
backend_failure e ctx cause =
    if eq_bytes e.protocol protocol_grpc
    then grpc_failure (grpc_code ctx cause) (codes "backend unavailable")
    else http_failure 502

-- The answer when `Acquire` fails.
unfoldable pub refusal : Bytes → Option ContextError → Cause → Answer
unfolding eq_bytes grpc_code grpc_message
refusal protocol ctx cause =
    if eq_bytes protocol protocol_grpc
    then grpc_failure (grpc_code ctx cause) (grpc_message ctx cause)
    else http_failure (if cause.has_readiness_timeout then 504 else 503)

-- The answer when there is a lease.
unfoldable pub pass_on : List (Bytes × Backend) → Route → Url → Answer
unfolding lookup forward
pass_on proxies route url = elim (lookup (route_key route.id route.endpoint) proxies) [
  | none ↦ no_proxy
  | some b ↦ forward b.endpoint url
]

-- `ServeHTTP`, for a host and a path; `acquire` gives a lease of a service, or an error.
unfoldable pub serve : Handler → (Bytes → Option Cause) → Option ContextError → Bytes → Url → Answer
unfolding match refusal pass_on
serve h acquire ctx host url = elim (match h.router host url.path) [
  | none ↦ not_found
  | some route ↦ elim (acquire route.id) [
    | some cause ↦ refusal route.protocol ctx cause
    | none ↦ pass_on h.proxies route url
  ]
]
