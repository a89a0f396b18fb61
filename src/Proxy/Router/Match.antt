-- ===== src/Proxy/Router/Match.antt =====
-- What `Match` returns: the route of the host if there is one, else the longest path route that
-- serves the path.
use mathlib.Core.List.{append-nil, append_assoc}
use mathlib.Core.Path.{subst}
use lazywrap.Base.{
  ℕ, ◌≤◌, ◌≡◌, refl, sym, ap, ◌∙◌, ◌⊎◌, inl, inr, Bytes, is_empty, true, false, List, [], ◌∷◌, ◌++◌,
  none, some, arith, Bool-cases, Option-cases, ltb, if◌then◌else◌, length, All, IsIn, All-mono,
  lookup, bytes_eq,
}
use lazywrap.Proxy.Router.{
  Route, Router, insert_path, sort_paths, add_route, add_routes, new_router, serves_path,
  match_path, request_hostname, match,
}

-- The routes that are not found by their host.
pub path_routes : List Route → List Route
path_routes [] = []
path_routes (r ∷ rs) = if is_empty r.host then r ∷ path_routes rs else path_routes rs

abbrev IsSorted : List Route → Type 0
IsSorted [] = Unit
IsSorted (r ∷ rs) = All (λ q. length q.path ≤ length r.path) rs × IsSorted rs

IsIn-insert_path : (a r : Route) (rs : List Route) → IsIn a (insert_path r rs) → (r ≡ a) ⊎ IsIn a rs
unfolding insert_path
IsIn-insert_path a r [] i = i
IsIn-insert_path a r (q ∷ qs) i = elim (Bool-cases (ltb (length r.path) (length q.path))) [
  | inl x ↦ ground (arith, IsIn-insert_path a r qs)
  | inr x ↦ ground arith
]

IsIn-sort_paths : (a : Route) (rs : List Route) → IsIn a (sort_paths rs) → IsIn a rs
unfolding sort_paths
IsIn-sort_paths a [] i = i
IsIn-sort_paths a (r ∷ rs) i = elim (IsIn-insert_path a r (sort_paths rs) i) [
  | inl e ↦ inl e
  | inr j ↦ inr (IsIn-sort_paths a rs j)
]

insert_path-All :
    (P : Route → Type 0) (r : Route) (rs : List Route) → P r → All P rs → All P (insert_path r rs)
unfolding insert_path
insert_path-All P r [] p h = (p, tt)
insert_path-All P r (q ∷ qs) p h = elim (Bool-cases (ltb (length r.path) (length q.path))) [
  | inl x ↦ rw x (h.0, insert_path-All P r qs p h.1)
  | inr x ↦ rw x (p, h)
]

All-insert_path :
    (P : Route → Type 0) (r : Route) (rs : List Route) → All P (insert_path r rs) → P r × All P rs
unfolding insert_path
All-insert_path P r [] h = h
All-insert_path P r (q ∷ qs) h = elim (Bool-cases (ltb (length r.path) (length q.path))) [
  | inl x ↦
      let h' : P q × All P (insert_path r qs) = rw x at h in
      let (p, t) = All-insert_path P r qs h'.1 in (p, (h'.0, t))
  | inr x ↦ rw x at h
]

All-sort_paths : (P : Route → Type 0) (rs : List Route) → All P (sort_paths rs) → All P rs
unfolding sort_paths
All-sort_paths P [] h = h
All-sort_paths P (r ∷ rs) h =
    let (p, t) = All-insert_path P r (sort_paths rs) h in (p, All-sort_paths P rs t)

All-longer :
    (n m : ℕ) (rs : List Route)
    → n ≤ m
    → All (λ q. length q.path ≤ n) rs
    → All (λ q. length q.path ≤ m) rs
All-longer n m [] le h = tt
All-longer n m (r ∷ rs) le (p, h) = (omega arith, All-longer n m rs le h)

insert_path-IsSorted : (r : Route) (rs : List Route) → IsSorted rs → IsSorted (insert_path r rs)
unfolding insert_path
insert_path-IsSorted r [] h = (tt, tt)
insert_path-IsSorted r (q ∷ qs) (b, h) = elim (Bool-cases (ltb (length r.path) (length q.path))) [
  | inl x ↦ rw x (
    insert_path-All (λ p. length p.path ≤ length q.path) r qs (ground arith) b,
    insert_path-IsSorted r qs h,
  )
  | inr x ↦
      rw x ((ground arith, All-longer (length q.path) (length r.path) qs (ground arith) b), (b, h))
]

sort_paths-IsSorted : (rs : List Route) → IsSorted (sort_paths rs)
unfolding sort_paths
sort_paths-IsSorted [] = tt
sort_paths-IsSorted (r ∷ rs) = insert_path-IsSorted r (sort_paths rs) (sort_paths-IsSorted rs)

-- `r` is a route of the list that serves the path, and none that serves it has a longer path.
abbrev pub Serves : Bytes → Route → List Route → Type 0
Serves path r rs =
    IsIn r rs
    × (serves_path path r ≡ true)
    × All (λ q. serves_path path q ≡ true → length q.path ≤ length r.path) rs

match_path-sorted :
    (path : Bytes) (rs : List Route) (r : Route)
    → IsSorted rs
    → match_path path rs ≡ some r
    → Serves path r rs
unfolding match_path
match_path-sorted path [] r s h = cc
match_path-sorted path (q ∷ qs) r (b, s) h = elim (Bool-cases (serves_path path q)) [
  | inl x ↦
      let e : q ≡ r = ground arith in
      subst (λ t. Serves path t (q ∷ qs)) e
        (
          inl refl,
          x,
          (
            (λ _. omega arith),
            All-mono (λ p. length p.path ≤ length q.path)
                (λ p. serves_path path p ≡ true → length p.path ≤ length q.path) qs (λ p le _. le)
                b,
          ),
        )
  | inr x ↦
      let (i, sv, all) = match_path-sorted path qs r s (rw x at h) in (inr i, sv, ((λ t. cc), all))
]

match_path-none :
    (path : Bytes) (rs : List Route)
    → match_path path rs ≡ none
    → All (λ q. serves_path path q ≡ false) rs
unfolding match_path
match_path-none path [] h = tt
match_path-none path (q ∷ qs) h = elim (Bool-cases (serves_path path q)) [
  | inl x ↦ ground arith
  | inr x ↦ (x, match_path-none path qs (rw x at h))
]

add_route-paths :
    (r : Router) (q : Route)
    → (add_route r q).paths ≡ (if is_empty q.host then r.paths ++ q ∷ [] else r.paths)
unfolding add_route
add_route-paths r q = ground arith

add_routes-path_routes :
    (r : Router) (routes : List Route) → (add_routes r routes).paths ≡ r.paths ++ path_routes routes
unfolding add_routes path_routes
add_routes-path_routes r [] = sym (append-nil r.paths)
add_routes-path_routes r (q ∷ qs) = elim (Bool-cases (is_empty q.host)) [
  | inl x ↦ rw x (
      add_routes-path_routes (add_route r q) qs
      ∙ rw (add_route-paths r q, x) (append_assoc r.paths (q ∷ []) (path_routes qs)))
  | inr x ↦ rw x (add_routes-path_routes (add_route r q) qs ∙ rw (add_route-paths r q, x))
]

new_router-path_routes :
    (routes : List Route) → (new_router routes).paths ≡ sort_paths (path_routes routes)
unfolding new_router
new_router-path_routes routes =
    ap sort_paths (add_routes-path_routes (record { hosts = []; paths = [] }) routes)

-- The host of a request wins; without a route for it `Match` returns a path route that serves the
-- path, and no path route that serves it has a longer path.
pub match_longest :
    (routes : List Route) (host path : Bytes) (r : Route)
    → match (new_router routes) host path ≡ some r
    → (lookup (request_hostname host) (new_router routes).hosts ≡ some r)
      ⊎ ((lookup (request_hostname host) (new_router routes).hosts ≡ none)
          × Serves path r (path_routes routes))
unfolding match
match_longest routes host path r h =
    elim (Option-cases (lookup (request_hostname host) (new_router routes).hosts)) [
      | inr (q, x) ↦ inl (ground arith)
      | inl x ↦
          let ps = path_routes routes in
          let found : match_path path (sort_paths ps) ≡ some r =
            ground (arith, new_router-path_routes routes) in
          let (i, sv, all) =
            match_path-sorted path (sort_paths ps) r (sort_paths-IsSorted ps) found in
          inr (x, (IsIn-sort_paths r ps i, sv, All-sort_paths _ ps all))
    ]

pub match-none-paths :
    (routes : List Route) (host path : Bytes)
    → match (new_router routes) host path ≡ none
    → All (λ q. serves_path path q ≡ false) (path_routes routes)
unfolding match
match-none-paths routes host path h =
    let ps = path_routes routes in
    let found : match_path path (sort_paths ps) ≡ none =
      ground (arith, new_router-path_routes routes) in
    All-sort_paths _ ps (match_path-none path (sort_paths ps) found)
