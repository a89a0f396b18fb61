-- ===== src/Proxy/Handler/Hosted.antt =====
-- internal/proxy/handler.go: the routes of a host, and what is served on a route.
use mathlib.Core.Path.{subst, ap₂}
use lazywrap.Base.{
  ◌≡◌, ◌≢◌, refl, sym, ap, ◌∙◌, ◌⊎◌, inl, inr, Bytes, bytes_eq, is_empty, false, List, [], ◌∷◌,
  Option, none, some, arith, Bool-cases, Option-cases, IsIn, All, lookup, map, to_lower,
}
use lazywrap.Config.Types.{RuntimeEndpointConfig}
use lazywrap.Config.Registry.Claims.{named}
use lazywrap.Config.Endpoint.Claims.{uses}
use lazywrap.Config.Endpoint.Routings.{IsLower}
use lazywrap.Proxy.Router.{Route, match}
use lazywrap.Proxy.Rewrite.{Url}
use lazywrap.Proxy.Handler.{
  Handler, Cause, ContextError, forwards, route_key, is_tcp, main_route, alias_route,
  endpoint_routes, refusal, pass_on, forward, serve,
}

-- It is the host of the endpoint, or one of its aliases.
abbrev pub HasHost : RuntimeEndpointConfig → Bytes → Type 0
HasHost e h = (e.host ≡ h) ⊎ IsIn h e.aliases

IsIn-map_named :
    (h : Bytes) (aliases : List Bytes) → IsIn h aliases → IsIn (named h) (map named aliases)
IsIn-map_named h [] i = absurd i
IsIn-map_named h (a ∷ aliases) (inl e) = inl (ap named e)
IsIn-map_named h (a ∷ aliases) (inr i) = inr (IsIn-map_named h aliases i)

pub full_host :
    (e : RuntimeEndpointConfig) (h : Bytes)
    → IsLower e.host e.aliases
    → h ≢ []
    → HasHost e h
    → is_empty e.host ≡ false
full_host e h low n (inl q) = ground (arith, n, q, filled e.host)
  where
    filled : (s : Bytes) → (is_empty s ≡ false) ⊎ (s ≡ [])
    filled [] = inr refl
    filled (c ∷ s) = inl refl
full_host e h (_, _, alone) n (inr i) = elim (Bool-cases (is_empty e.host)) [
  | inl x ↦ absurd (subst (IsIn h) (alone x) i)
  | inr x ↦ x
]

pub HasHost-uses :
    (e : RuntimeEndpointConfig) (h : Bytes)
    → is_tcp e ≡ false
    → IsLower e.host e.aliases
    → h ≢ []
    → HasHost e h
    → IsIn (named h) (uses e)
HasHost-uses e h x low n host = inr (rw (x, full_host e h low n host) (at host))
  where
    at : HasHost e h → IsIn (named h) (named e.host ∷ map named e.aliases)
    at (inl q) = inl (ap named q)
    at (inr i) = inr (IsIn-map_named h e.aliases i)

-- What the router finds is for the endpoint.
abbrev pub IsFor : Bytes → RuntimeEndpointConfig → Route → Type 0
IsFor id e q = (q.id ≡ id) × (q.endpoint ≡ e.name) × (q.protocol ≡ e.protocol)

alias_of :
    (id : Bytes) (f : RuntimeEndpointConfig) (q : Route) (h : Bytes) (aliases : List Bytes)
    → All (λ a. to_lower a ≡ a) aliases
    → to_lower q.host ≡ h
    → IsIn q (map (alias_route id f) aliases)
    → IsIn h aliases × IsFor id f q
alias_of id f q h [] low e i = absurd i
alias_of id f q h (a ∷ aliases) (l, low) e (inl s) = (
  inl (sym l ∙ ap (λ (x : Route). to_lower x.host) s ∙ e),
  (
    sym (ap (λ (x : Route). x.id) s),
    sym (ap (λ (x : Route). x.endpoint) s),
    sym (ap (λ (x : Route). x.protocol) s),
  ),
)
alias_of id f q h (a ∷ aliases) (l, low) e (inr i) =
    let (j, p) = alias_of id f q h aliases low e i in (inr j, p)

-- A route of an endpoint for the host `h` is made for one of its hosts.
pub endpoint_routes-HasHost :
    (id : Bytes) (f : RuntimeEndpointConfig) (q : Route) (h : Bytes)
    → IsLower f.host f.aliases
    → to_lower q.host ≡ h
    → IsIn q (endpoint_routes id f)
    → (is_tcp f ≡ false) × HasHost f h × IsFor id f q
endpoint_routes-HasHost id f q h low e i = elim (Bool-cases (is_tcp f)) [
  | inl x ↦ absurd (rw x at i)
  | inr x ↦ elim (either (rw x at i)) [
    | inl s ↦ (
      x,
      inl (sym low.0 ∙ ap (λ (t : Route). to_lower t.host) s ∙ e),
      (
        sym (ap (λ (t : Route). t.id) s),
        sym (ap (λ (t : Route). t.endpoint) s),
        sym (ap (λ (t : Route). t.protocol) s),
      ),
    )
    | inr j ↦ let (k, p) = alias_of id f q h f.aliases low.1 e j in (x, inr k, p)
  ]
]
  where
    either :
        IsIn q (main_route id f ∷ map (alias_route id f) f.aliases)
        → (main_route id f ≡ q) ⊎ IsIn q (map (alias_route id f) f.aliases)
    either j = j

-- There is a route of the endpoint for each of its hosts.
pub host_route :
    (id : Bytes) (e : RuntimeEndpointConfig) (h : Bytes)
    → is_tcp e ≡ false
    → HasHost e h
    → (q : Route) × IsIn q (endpoint_routes id e) × (q.host ≡ h)
host_route id e h x (inl s) = (main_route id e, rw x (inl refl), s)
host_route id e h x (inr i) = (alias_route id e h, rw x (inr (mapped e.aliases i)), refl)
  where
    mapped :
        (aliases : List Bytes)
        → IsIn h aliases
        → IsIn (alias_route id e h) (map (alias_route id e) aliases)
    mapped [] j = absurd j
    mapped (a ∷ more) (inl s) = inl (ap (alias_route id e) s)
    mapped (a ∷ more) (inr j) = inr (mapped more j)

-- What `serve` does with a route, by what is found of it.
pub serve_route :
    (h : Handler) (acquire : Bytes → Option Cause) (ctx : Option ContextError) (text : Bytes)
    (url : Url) (q : Route) (id : Bytes) (e : RuntimeEndpointConfig)
    → match h.router text url.path ≡ some q
    → IsFor id e q
    → lookup (route_key id e.name) h.proxies ≡ some (record { service = id; endpoint = e })
    → is_empty e.host ≡ false
    → serve h acquire ctx text url
      ≡ elim (acquire id) [ some cause ↦ refusal e.protocol ctx cause | none ↦ forwards e.port url ]
unfolding serve pass_on forward
serve_route h acquire ctx text url q id e m (a, b, d) found full =
    elim (Option-cases (acquire id)) [
      | inl n ↦
          let taken : acquire q.id ≡ none = ap acquire a ∙ n in
          let proxy : lookup (route_key q.id q.endpoint) h.proxies
              ≡ some (record { service = id; endpoint = e }) =
            ap₂ (λ x y. lookup (route_key x y) h.proxies) a b ∙ found in
          ground (arith, m, n, taken, proxy, full)
      | inr (cause, n) ↦
          let taken : acquire q.id ≡ some cause = ap acquire a ∙ n in ground (arith, m, n, taken, d)
    ]
