-- ===== src/Proxy/Tests.antt =====
-- The theorems of this part at concrete inputs.
use lazywrap.Base.{
  ◌≡◌, ◌≢◌, refl, IsIn, All-intro, arith, ◌⊎◌, inl, inr, codes, true, false, ℕ, List, [], ◌∷◌, none,
  some, All, lookup, bytes_eq, to_lower, pos,
}
use lazywrap.Proxy.Router.{Route, new_router, request_hostname, serves_path, match}
use lazywrap.Proxy.Router.Match.{path_routes, Serves, match_longest}
use lazywrap.Proxy.Router.Names.{IsPlain}
use lazywrap.Proxy.Router.Hosts.{match_host, match-none}
use lazywrap.Proxy.Rewrite.{rewrite, rewrite_below}
use lazywrap.Proxy.Drain.{
  DrainHandler, new_drain, Event, serves, drains, ends, run, has_drain, IsExact, drain-IsExact,
}

abbrev api : Route
api = record {
  id = codes "api";
  endpoint = codes "default";
  path = codes "/api";
  host = [];
  protocol = codes "http";
}

abbrev deep : Route
deep = record {
  id = codes "deep";
  endpoint = codes "default";
  path = codes "/api/v2";
  host = [];
  protocol = codes "http";
}

abbrev web : Route
web = record {
  id = codes "web";
  endpoint = codes "default";
  path = [];
  host = codes "Web.localhost";
  protocol = codes "http";
}

abbrev routes : List Route
routes = api ∷ web ∷ deep ∷ []

-- The longest path route wins.
longest : match (new_router routes) (codes "localhost:8080") (codes "/api/v2/users") ≡ some deep
unfolding match new_router serves_path request_hostname lookup
longest = refl

match_longest_example :
    (lookup (request_hostname (codes "localhost:8080")) (new_router routes).hosts ≡ some deep)
    ⊎ ((lookup (request_hostname (codes "localhost:8080")) (new_router routes).hosts ≡ none)
        × Serves (codes "/api/v2/users") deep (path_routes routes))
match_longest_example =
    match_longest routes (codes "localhost:8080") (codes "/api/v2/users") deep longest

nowhere : match (new_router routes) (codes "localhost") (codes "/apiary") ≡ none
unfolding match new_router serves_path request_hostname lookup
nowhere = refl

match-none_example :
    ((r : Route)
      → IsIn r routes
      → r.host ≢ []
      → to_lower r.host ≢ request_hostname (codes "localhost"))
    × All (λ q. serves_path (codes "/apiary") q ≡ false) (path_routes routes)
match-none_example = match-none routes (codes "localhost") (codes "/apiary") nowhere

same_host : to_lower (codes "WEB.localhost") ≡ to_lower web.host
unfolding to_lower
same_host = refl

name-IsPlain : All IsPlain (codes "WEB.localhost")
name-IsPlain = All-intro IsPlain (codes "WEB.localhost") (λ c i. ground (arith, i))

port-IsPlain : All IsPlain (codes "443")
port-IsPlain = All-intro IsPlain (codes "443") (λ c i. ground (arith, i))

match_host_example :
    (match (new_router routes) (codes "WEB.localhost") (codes "/api") ≡ some web)
    × (match (new_router routes) (codes "WEB.localhost:443") (codes "/api") ≡ some web)
match_host_example =
    match_host routes (codes "WEB.localhost") (codes "443") (codes "/api") web (inr (inl refl))
      (λ e. cc) ((λ n e. absurd (n refl)), ((λ n e. refl), ((λ n e. absurd (n refl)), tt)))
      name-IsPlain port-IsPlain same_host

rewrite_below_example :
    (rewrite
        (codes "/api")
        false
        (record { path = codes "/api/a b"; raw_path = codes "/api/a%20b" })
      ≡ record { path = codes "/a b"; raw_path = codes "/a%20b" })
    × (rewrite (codes "/api") false (record { path = codes "/api/a b"; raw_path = [] })
        ≡ record { path = codes "/a b"; raw_path = [] })
    × (rewrite (codes "/api") false (record { path = codes "/api"; raw_path = [] })
        ≡ record { path = codes "/"; raw_path = [] })
    × (rewrite (codes "/api") true (record { path = codes "/api/x"; raw_path = [] })
        ≡ record { path = codes "/api/x"; raw_path = [] })
rewrite_below_example =
    rewrite_below (codes "/api") (codes "a b") (codes "a%20b")
      (record { path = codes "/api/x"; raw_path = [] })

abbrev drained : List Event
drained = serves ∷ serves ∷ ends ∷ drains ∷ serves ∷ ends ∷ []

drain-IsExact_example :
    (t : ℕ × DrainHandler) × (run drained (0, new_drain) ≡ some t) × IsExact (has_drain drained) t
drain-IsExact_example = drain-IsExact drained

abbrev busy : DrainHandler
busy = record { active = pos 2; draining = true; done = false }

abbrev free : DrainHandler
free = record { active = pos 1; draining = true; done = false }
