-- ===== src/Proxy/Handler/Reach.antt =====
-- internal/proxy/handler.go and internal/config/config.go: a request for the host of an endpoint of an
-- accepted configuration reaches that endpoint.
use mathlib.Core.Path.{subst, ap₂}
use lazywrap.Base.{
  ◌≡◌, ◌≢◌, refl, sym, ap, ◌∙◌, inl, inr, Bytes, bytes_eq, false, [], ◌∷◌, Option, none, some,
  Bool-cases, IsIn, IsIn-All, All-intro, lookup, to_lower, has_byte,
}
use lazywrap.Base.Keys.{IsDistinct-unique}
use lazywrap.Config.Types.{RuntimeEndpointConfig, RuntimeAppConfig, RuntimeConfig}
use lazywrap.Config.Registry.Claims.{named}
use lazywrap.Config.Endpoint.Claims.{uses, IsSound}
use lazywrap.Config.Endpoint.Routings.{IsLower}
use lazywrap.Config.Normalize.{World, Config, done, normalize}
use lazywrap.Config.Normalize.Apart.{IsEndpoint, normalize-NoShare}
use lazywrap.Config.Normalize.Keyed.{AreKeyed, normalize-AreKeyed}
use lazywrap.Config.Listing.{endpoint_list-IsIn, IsIn-endpoint_list}
use lazywrap.Proxy.Router.{request_hostname}
use lazywrap.Proxy.Router.Hosts.{HostOnly, match-Found}
use lazywrap.Proxy.Rewrite.{Url}
use lazywrap.Proxy.Handler.{
  Backend, Cause, ContextError, forwards, route_key, is_tcp, routes_of, backend_entry, backends_of,
  put_all, new_handler, refusal, serve,
}
use lazywrap.Proxy.Handler.Keys.{route_key-injective, put_all-lookup}
use lazywrap.Proxy.Handler.Routes.{
  Lists, IsIn-routes_of, routes_of-IsIn, IsIn-backends_of, backends_of-IsIn,
}
use lazywrap.Proxy.Handler.Hosted.{
  HasHost, full_host, HasHost-uses, IsFor, endpoint_routes-HasHost, host_route, serve_route,
}

module _ (w : World) (c : Config) (r : RuntimeConfig) (ok : normalize w c ≡ done r) where
  keyed : AreKeyed r.apps
  keyed = normalize-AreKeyed w c r ok

  name_of :
      (t : Bytes × Bytes) (e : RuntimeEndpointConfig)
      → IsEndpoint r.apps t e
      → (e.name ≡ t.1) × (has_byte 0 t.1 ≡ false)
  name_of t e (a, i, j) = (keyed.1 t.0 a i).0.1 t.1 e j

  same_endpoint :
      (t u : Bytes × Bytes) (e f : RuntimeEndpointConfig)
      → IsEndpoint r.apps t e
      → IsEndpoint r.apps u f
      → t ≡ u
      → e ≡ f
  same_endpoint t u e f (a, i, j) (b, k, l) s =
      let q : a ≡ b =
        IsDistinct-unique r.apps u.0 a b keyed.0
          (subst (λ (x : Bytes × Bytes). IsIn (x.0, a) r.apps) s i) k in
      IsDistinct-unique b.endpoints u.1 e f (keyed.1 u.0 b k).0.0
        (subst (λ (x : RuntimeAppConfig). IsIn (u.1, e) x.endpoints) q
          (subst (λ (x : Bytes × Bytes). IsIn (x.1, e) a.endpoints) s j))
        l

  listed :
      (id : Bytes) (f : RuntimeEndpointConfig)
      → Lists r.apps id f
      → (name : Bytes) × IsEndpoint r.apps (id, name) f
  listed id f (a, i, j) =
      let (name, k) = IsIn-endpoint_list a f (keyed.1 id a i).1 j in (name, (a, i, k))

  IsSound-of :
      (t : Bytes × Bytes) (e : RuntimeEndpointConfig) → IsEndpoint r.apps t e → IsSound r.port e
  IsSound-of t e i = (normalize-NoShare w c r ok t t e e i i).1

  -- Two endpoints that use one name are the same.
  owner_of :
      (t u : Bytes × Bytes) (e f : RuntimeEndpointConfig) (h : Bytes)
      → IsEndpoint r.apps t e
      → IsEndpoint r.apps u f
      → IsIn (named h) (uses e)
      → IsIn (named h) (uses f)
      → t ≡ u
  owner_of t u e f h i j x y = elim (normalize-NoShare w c r ok t u e f i j).0 [
    | inl s ↦ s
    | inr apart ↦ absurd (apart (named h) x y)
  ]

  module _ (id name : Bytes) (e : RuntimeEndpointConfig) (here : IsEndpoint r.apps (id, name) e)
      (http : is_tcp e ≡ false) where
    lists : Lists r.apps id e
    lists = (here.0, here.1, endpoint_list-IsIn here.0 name e here.2)

    -- The reverse proxy of the endpoint is the one under its key.
    sole :
        (id' : Bytes) (f : RuntimeEndpointConfig) (b : Backend)
        → IsIn {A = Bytes × Backend}
            (route_key id e.name, b)
            ((route_key id' f.name, record { service = id'; endpoint = f }) ∷ [])
        → ◌≡◌ {A = Bytes × Backend}
            (route_key id' f.name, record { service = id'; endpoint = f })
            (route_key id e.name, b)
    sole id' f b (inl s) = s
    sole id' f b (inr j) = absurd j

    proxy_of :
        lookup (route_key id e.name) (put_all [] (backends_of r.apps))
        ≡ some (record { service = id; endpoint = e })
    proxy_of =
        put_all-lookup (route_key id e.name) (record { service = id; endpoint = e })
          (backends_of r.apps) []
          (λ b i. only b (IsIn-backends_of (route_key id e.name, b) r.apps i))
          (backends_of-IsIn (route_key id e.name, record { service = id; endpoint = e }) id e r.apps
            lists (rw http (inl refl)))
      where
        only :
            (b : Backend)
            → (id' : Bytes) × (f : RuntimeEndpointConfig) × Lists r.apps id' f
              × IsIn (route_key id e.name, b) (backend_entry id' f)
            → b ≡ record { service = id; endpoint = e }
        only b (id', f, l, i) = elim (Bool-cases (is_tcp f)) [
          | inl x ↦ absurd (rw x at i)
          | inr x ↦
              let (name', there) = listed id' f l in
              let s = sole id' f b (rw x at i) in
              let (fn, fp) = name_of (id', name') f there in
              let (en, ep) = name_of (id, name) e here in
              let (q1, q2) =
                route_key-injective id' id f.name e.name (ap (has_byte 0) fn ∙ fp)
                  (ap (has_byte 0) en ∙ ep) (ap (λ (p : Bytes × Backend). p.0) s) in
              let tags : ◌≡◌ {A = Bytes × Bytes} (id, name) (id', name') =
                ap₂ (λ a b. (a, b)) (sym q1) (sym en ∙ sym q2 ∙ fn) in
              let same = same_endpoint (id, name) (id', name') e f here there tags in
              sym (ap (λ (p : Bytes × Backend). p.1) s)
              ∙ ap₂ (λ i g. record { service = i; endpoint = g }) q1 (sym same)
        ]

    module _ (h : Bytes) (full : h ≢ []) (host : HasHost e h) where
      only_host : HostOnly h (IsFor id e) (routes_of r.apps)
      only_host =
          All-intro (λ q. q.host ≢ [] → to_lower q.host ≡ h → IsFor id e q) (routes_of r.apps)
            (λ q i n low.
              let (id', f, l, j) = IsIn-routes_of q r.apps i in
              let (name', there) = listed id' f l in
              let soundf = (IsSound-of (id', name') f there).lower in
              let sounde = (IsSound-of (id, name) e here).lower in
              let (tcp, hostf, (a, b, d)) = endpoint_routes-HasHost id' f q h soundf low j in
              let s =
                owner_of (id, name) (id', name') e f h here there
                  (HasHost-uses e h http sounde full host)
                  (HasHost-uses f h tcp soundf full hostf) in
              let same = same_endpoint (id, name) (id', name') e f here there s in
              (
                a ∙ sym (ap (λ (x : Bytes × Bytes). x.0) s),
                b ∙ sym (ap (λ (x : RuntimeEndpointConfig). x.name) same),
                d ∙ sym (ap (λ (x : RuntimeEndpointConfig). x.protocol) same),
              ))

      low_host : to_lower h ≡ h
      low_host = lowered host (IsSound-of (id, name) e here).lower
        where
          lowered : HasHost e h → IsLower e.host e.aliases → to_lower h ≡ h
          lowered (inl q) (a, _, _) = subst (λ s. to_lower s ≡ s) q a
          lowered (inr i) (_, b, _) = IsIn-All (λ a. to_lower a ≡ a) h e.aliases b i

      serve_host :
          (acquire : Bytes → Option Cause) (ctx : Option ContextError) (text : Bytes) (url : Url)
          → request_hostname text ≡ h
          → serve (new_handler r) acquire ctx text url ≡ elim (acquire id) [
            | some cause ↦ refusal e.protocol ctx cause
            | none ↦ forwards e.port url
          ]
      unfolding new_handler
      serve_host acquire ctx text url at =
          let (q0, i, s) = host_route id e h http host in
          let (q, m, p) =
            match-Found h (IsFor id e) (routes_of r.apps) text url.path q0
              (routes_of-IsIn q0 id e r.apps lists i) (λ n. full (sym s ∙ n))
              (ap to_lower s ∙ low_host) only_host at in
          serve_route (new_handler r) acquire ctx text url q id e m p proxy_of
            (full_host e h (IsSound-of (id, name) e here).lower full host)

-- In an accepted configuration, a request whose host name is the host or an alias of an HTTP or gRPC
-- endpoint goes to the port of that endpoint with its path unchanged, once there is a lease of its
-- service; without a lease the answer is the refusal for the endpoint's protocol.
pub serve-endpoint :
    (w : World) (c : Config) (r : RuntimeConfig)
    → normalize w c ≡ done r
    → (id name : Bytes) (e : RuntimeEndpointConfig) → IsEndpoint r.apps (id, name) e
    → is_tcp e ≡ false
    → (h : Bytes) → h ≢ []
    → HasHost e h
    → (acquire : Bytes → Option Cause) (ctx : Option ContextError) (text : Bytes) (url : Url)
    → request_hostname text ≡ h
    → serve (new_handler r) acquire ctx text url
      ≡ elim (acquire id) [ some cause ↦ refusal e.protocol ctx cause | none ↦ forwards e.port url ]
serve-endpoint w c r ok id name e here http h full host =
    serve_host w c r ok id name e here http h full host
