-- ===== src/Proxy/Handler/Routes.antt =====
-- internal/proxy/handler.go: the routes and the reverse proxies of a configuration are those of its
-- endpoints.
use mathlib.Core.Path.{subst}
use lazywrap.Base.{
  ◌≡◌, refl, sym, ap, inl, inr, Bytes, List, [], ◌∷◌, ◌++◌, IsIn, IsIn-append, IsIn-append_right,
}
use lazywrap.Config.Types.{RuntimeEndpointConfig, RuntimeAppConfig}
use lazywrap.Config.Listing.{endpoint_list}
use lazywrap.Proxy.Router.{Route}
use lazywrap.Proxy.Handler.{
  Backend, endpoint_routes, list_routes, routes_of, backend_entry, list_backends, backends_of,
}

IsIn-append_left : {A : Type 0} (a : A) (xs ys : List A) → IsIn a xs → IsIn a (xs ++ ys)
IsIn-append_left a [] ys i = absurd i
IsIn-append_left a (x ∷ xs) ys (inl e) = inl e
IsIn-append_left a (x ∷ xs) ys (inr i) = inr (IsIn-append_left a xs ys i)

-- The endpoint is listed in one of the apps.
abbrev pub Lists : List (Bytes × RuntimeAppConfig) → Bytes → RuntimeEndpointConfig → Type 0
Lists apps id e = (a : RuntimeAppConfig) × IsIn (id, a) apps × IsIn e (endpoint_list a)

-- An element of what the endpoints of a list give is given by one of them, and the other way round.
module _ {A : Type 0} (f : Bytes → RuntimeEndpointConfig → List A) where
  gather : Bytes → List RuntimeEndpointConfig → List A
  gather id [] = []
  gather id (e ∷ es) = f id e ++ gather id es

  IsIn-gather :
      (x : A) (id : Bytes) (es : List RuntimeEndpointConfig)
      → IsIn x (gather id es)
      → (e : RuntimeEndpointConfig) × IsIn e es × IsIn x (f id e)
  unfolding gather
  IsIn-gather x id [] i = absurd i
  IsIn-gather x id (e ∷ es) i = elim (IsIn-append x (f id e) (gather id es) i) [
    | inl j ↦ (e, inl refl, j)
    | inr j ↦ let (g, k, l) = IsIn-gather x id es j in (g, inr k, l)
  ]

  gather-IsIn :
      (x : A) (id : Bytes) (e : RuntimeEndpointConfig) (es : List RuntimeEndpointConfig)
      → IsIn e es
      → IsIn x (f id e)
      → IsIn x (gather id es)
  unfolding gather
  gather-IsIn x id e [] i j = absurd i
  gather-IsIn x id e (g ∷ es) (inl q) j =
      IsIn-append_left x (f id g) (gather id es) (subst (λ t. IsIn x (f id t)) (sym q) j)
  gather-IsIn x id e (g ∷ es) (inr i) j =
      IsIn-append_right x (f id g) (gather id es) (gather-IsIn x id e es i j)

  gather_all : List (Bytes × RuntimeAppConfig) → List A
  gather_all [] = []
  gather_all ((id, a) ∷ apps) = gather id (endpoint_list a) ++ gather_all apps

  IsIn-gather_all :
      (x : A) (apps : List (Bytes × RuntimeAppConfig))
      → IsIn x (gather_all apps)
      → (id : Bytes) × (e : RuntimeEndpointConfig) × Lists apps id e × IsIn x (f id e)
  unfolding gather_all
  IsIn-gather_all x [] i = absurd i
  IsIn-gather_all x ((id, a) ∷ apps) i =
      elim (IsIn-append x (gather id (endpoint_list a)) (gather_all apps) i) [
        | inl j ↦
            let (e, k, l) = IsIn-gather x id (endpoint_list a) j in (id, e, (a, inl refl, k), l)
        | inr j ↦
            let (id', e, (b, k, m), l) = IsIn-gather_all x apps j in (id', e, (b, inr k, m), l)
      ]

  gather_all-IsIn :
      (x : A) (id : Bytes) (e : RuntimeEndpointConfig) (apps : List (Bytes × RuntimeAppConfig))
      → Lists apps id e
      → IsIn x (f id e)
      → IsIn x (gather_all apps)
  unfolding gather_all
  gather_all-IsIn x id e [] (a, i, j) k = absurd i
  gather_all-IsIn x id e ((id', b) ∷ apps) (a, inl q, j) k =
      subst
        (λ (p : Bytes × RuntimeAppConfig).
          IsIn x (gather p.0 (endpoint_list p.1) ++ gather_all apps))
        (sym q)
        (IsIn-append_left x (gather id (endpoint_list a)) (gather_all apps)
          (gather-IsIn x id e (endpoint_list a) j k))
  gather_all-IsIn x id e ((id', b) ∷ apps) (a, inr i, j) k =
      IsIn-append_right x (gather id' (endpoint_list b)) (gather_all apps)
        (gather_all-IsIn x id e apps (a, i, j) k)

list_routes-gather :
    (id : Bytes) (es : List RuntimeEndpointConfig)
    → list_routes id es ≡ gather endpoint_routes id es
unfolding list_routes gather
list_routes-gather id [] = refl
list_routes-gather id (e ∷ es) = ap (λ t. endpoint_routes id e ++ t) (list_routes-gather id es)

routes_of-gather :
    (apps : List (Bytes × RuntimeAppConfig)) → routes_of apps ≡ gather_all endpoint_routes apps
unfolding routes_of gather_all
routes_of-gather [] = refl
routes_of-gather ((id, a) ∷ apps) =
    rw (list_routes-gather id (endpoint_list a), routes_of-gather apps)

list_backends-gather :
    (id : Bytes) (es : List RuntimeEndpointConfig)
    → list_backends id es ≡ gather backend_entry id es
unfolding list_backends gather
list_backends-gather id [] = refl
list_backends-gather id (e ∷ es) = ap (λ t. backend_entry id e ++ t) (list_backends-gather id es)

backends_of-gather :
    (apps : List (Bytes × RuntimeAppConfig)) → backends_of apps ≡ gather_all backend_entry apps
unfolding backends_of gather_all
backends_of-gather [] = refl
backends_of-gather ((id, a) ∷ apps) =
    rw (list_backends-gather id (endpoint_list a), backends_of-gather apps)

-- Where a route comes from, and what routes there are.
pub IsIn-routes_of :
    (q : Route) (apps : List (Bytes × RuntimeAppConfig))
    → IsIn q (routes_of apps)
    → (id : Bytes) × (e : RuntimeEndpointConfig) × Lists apps id e × IsIn q (endpoint_routes id e)
IsIn-routes_of q apps i =
    IsIn-gather_all endpoint_routes q apps (subst (IsIn q) (routes_of-gather apps) i)

pub routes_of-IsIn :
    (q : Route) (id : Bytes) (e : RuntimeEndpointConfig) (apps : List (Bytes × RuntimeAppConfig))
    → Lists apps id e
    → IsIn q (endpoint_routes id e)
    → IsIn q (routes_of apps)
routes_of-IsIn q id e apps l i =
    subst (IsIn q) (sym (routes_of-gather apps)) (gather_all-IsIn endpoint_routes q id e apps l i)

pub IsIn-backends_of :
    (x : Bytes × Backend) (apps : List (Bytes × RuntimeAppConfig))
    → IsIn x (backends_of apps)
    → (id : Bytes) × (e : RuntimeEndpointConfig) × Lists apps id e × IsIn x (backend_entry id e)
IsIn-backends_of x apps i =
    IsIn-gather_all backend_entry x apps (subst (IsIn x) (backends_of-gather apps) i)

pub backends_of-IsIn :
    (x : Bytes × Backend) (id : Bytes) (e : RuntimeEndpointConfig)
    (apps : List (Bytes × RuntimeAppConfig))
    → Lists apps id e
    → IsIn x (backend_entry id e)
    → IsIn x (backends_of apps)
backends_of-IsIn x id e apps l i =
    subst (IsIn x) (sym (backends_of-gather apps)) (gather_all-IsIn backend_entry x id e apps l i)
