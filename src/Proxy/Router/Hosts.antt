-- ===== src/Proxy/Router/Hosts.antt =====
-- The host table of the router.
use lazywrap.Base.{
  ◌≡◌, ◌≢◌, refl, inl, inr, Bytes, is_empty, not, ◌&&◌, List, [], ◌∷◌, some, arith, if◌then◌else◌,
  All, All-intro, IsIn, ◌++◌, none, false, lookup, lookup-insert, bytes_eq, Bool-cases, ap, ◌∙◌,
  eq_bytes, eq_bytes_iff, to_lower,
}
use lazywrap.Proxy.Router.{
  Route, Router, add_route, add_routes, new_router, request_hostname, serves_path, match,
}
use lazywrap.Proxy.Router.Match.{path_routes, match-none-paths}
use lazywrap.Proxy.Router.Names.{IsPlain, request_hostname-plain, request_hostname-with_port}

add_route-hosts :
    (h : Bytes) (r : Router) (q : Route)
    → lookup h (add_route r q).hosts
      ≡ (if not (is_empty q.host) && eq_bytes (to_lower q.host) h then some q else lookup h r.hosts)
unfolding add_route
add_route-hosts h r q = ground (arith, lookup-insert (to_lower q.host) h q r.hosts)

module _ {ℓ} (h : Bytes) (P : Route → Type ℓ) where
  -- Every route of the list that has the host name `h` satisfies `P`.
  abbrev pub HostOnly : List Route → Type ℓ
  HostOnly = All (λ q. q.host ≢ [] → to_lower q.host ≡ h → P q)

  abbrev Found : Router → Type ℓ
  Found r = (q : Route) × (lookup h r.hosts ≡ some q) × P q

  add_routes-Found_kept :
      (rs : List Route) (acc : Router) → HostOnly rs → Found acc → Found (add_routes acc rs)
  unfolding add_routes
  add_routes-Found_kept [] acc only f = f
  add_routes-Found_kept (r ∷ rs) acc (o, only) (q, e, p) =
      add_routes-Found_kept rs (add_route acc r) only
        (elim (Bool-cases (not (is_empty r.host) && eq_bytes (to_lower r.host) h)) [
          | inl x ↦ (
            r,
            ground (arith, x, add_route-hosts h acc r),
            o (λ z. ground (arith, x, z)) (ground (arith, x, eq_bytes_iff (to_lower r.host) h)),
          )
          | inr x ↦ (q, ground (arith, x, e, add_route-hosts h acc r), p)
        ])

  add_routes-Found :
      (r : Route) (rs : List Route) (acc : Router)
      → HostOnly rs
      → r.host ≢ []
      → to_lower r.host ≡ h
      → IsIn r rs
      → Found (add_routes acc rs)
  unfolding add_routes
  add_routes-Found r [] acc only n e i = absurd i
  add_routes-Found r (q ∷ qs) acc (o, only) n e (inr i) =
      add_routes-Found r qs (add_route acc q) only n e i
  add_routes-Found r (q ∷ qs) acc (o, only) n e (inl same) =
      let full : q.host ≢ [] = rw same n in
      let low : to_lower q.host ≡ h = rw same e in
      add_routes-Found_kept qs (add_route acc q) only (
        q,
        ground (arith, full, low, add_route-hosts h acc q, eq_bytes_iff (to_lower q.host) h),
        o full low,
      )

  -- A request for a host goes to a route with what all routes for the host have, if there is one.
  pub match-Found :
      (routes : List Route) (host path : Bytes) (r : Route)
      → IsIn r routes
      → r.host ≢ []
      → to_lower r.host ≡ h
      → HostOnly routes
      → request_hostname host ≡ h
      → (q : Route) × (match (new_router routes) host path ≡ some q) × P q
  unfolding match new_router
  match-Found routes host path r i n low only e =
      let (q, f, p) = add_routes-Found r routes (record { hosts = []; paths = [] }) only n low i in
      (q, ground (arith, e, f), p)

-- Every route of the list that has the host name `h` is `r`.
abbrev pub OnlyHost : Bytes → Route → List Route → Type 0
OnlyHost h r = HostOnly h (λ q. q ≡ r)

-- A request for the host name of a route, in any case, alone or with a colon and a port, goes to that
-- route, whatever its path, if no other route has the same host name in any case. The name and the
-- port have no white space, colon or bracket.
pub match_host :
    (routes : List Route) (name port path : Bytes) (r : Route)
    → IsIn r routes
    → r.host ≢ []
    → OnlyHost (to_lower r.host) r routes
    → All IsPlain name
    → All IsPlain port
    → to_lower name ≡ to_lower r.host
    → (match (new_router routes) name path ≡ some r)
      × (match (new_router routes) (name ++ b':' ∷ port) path ≡ some r)
match_host routes name port path r i n only h k same =
    let goes : (host : Bytes)
        → request_hostname host ≡ to_lower name
        → match (new_router routes) host path ≡ some r =
      λ host e.
        let (q, f, p) =
          match-Found (to_lower r.host) (λ q. q ≡ r) routes host path r i n refl only (e ∙ same) in
        f ∙ ap some p in
    (
      goes name (request_hostname-plain name h),
      goes (name ++ b':' ∷ port) (request_hostname-with_port name port h k),
    )

-- `Match` finds no route only if no route has the host name that the request asks for, in any case,
-- and no route without a host serves the path.
pub match-none :
    (routes : List Route) (host path : Bytes)
    → match (new_router routes) host path ≡ none
    → ((r : Route) → IsIn r routes → r.host ≢ [] → to_lower r.host ≢ request_hostname host)
      × All (λ q. serves_path path q ≡ false) (path_routes routes)
match-none routes host path h = (
  λ r i n e.
      let (q, f, p) =
        match-Found {0} (request_hostname host) (λ q. Unit) routes host path r i n e
          (All-intro _ routes (λ q j m low. tt)) refl in
      ground (arith, h, f),
  match-none-paths routes host path h,
)
