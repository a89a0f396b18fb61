-- ===== src/Proxy/Router.antt =====
-- internal/proxy/router.go.
pub mod Match
pub mod Names
pub mod Hosts
use mathlib.Core.List.{reverse}
use lazywrap.Base.{
  ℕ, Bytes, eq_bytes, is_empty, codes, Bool, true, false, not, ◌&&◌, ◌||◌, List, [], ◌∷◌, ◌++◌,
  Option, none, some, ◌==◌, ltb, if◌then◌else◌, length, take, get_elem?, lookup, insert, bytes_eq,
  to_lower, trim_space, has_byte, cut,
}

pub record Route : Type 0 where
  pub id : Bytes
  pub endpoint : Bytes
  pub path : Bytes
  pub host : Bytes
  pub protocol : Bytes

pub record Router : Type 0 where
  pub hosts : List (Bytes × Route)
  pub paths : List Route

-- `sort.Slice` by falling length of the path. Go leaves the order of equal lengths open; here the
-- earlier route stays in front.
unfoldable pub insert_path : Route → List Route → List Route
insert_path r [] = r ∷ []
insert_path r (q ∷ qs) =
    if ltb (length r.path) (length q.path) then q ∷ insert_path r qs else r ∷ q ∷ qs

unfoldable pub sort_paths : List Route → List Route
unfolding insert_path
sort_paths [] = []
sort_paths (r ∷ rs) = insert_path r (sort_paths rs)

-- One round of the loop of `NewRouter`.
unfoldable pub add_route : Router → Route → Router
unfolding insert
add_route r route =
    if not (is_empty route.host)
    then record r { hosts = insert (to_lower route.host) route r.hosts }
    else record r { paths = r.paths ++ route ∷ [] }

unfoldable pub add_routes : Router → List Route → Router
unfolding add_route
add_routes r [] = r
add_routes r (route ∷ routes) = add_routes (add_route r route) routes

unfoldable pub new_router : List Route → Router
unfolding add_routes sort_paths
new_router routes =
    let r = add_routes (record { hosts = []; paths = [] }) routes in
    record r { paths = sort_paths r.paths }

abbrev pub is_byte_at : Option ℕ → ℕ → Bool
is_byte_at none b = false
is_byte_at (some c) b = c == b

-- The test of `Match` on one path route.
unfoldable pub serves_path : Bytes → Route → Bool
unfolding eq_bytes
serves_path path r =
    eq_bytes r.path (codes "/")
    || eq_bytes path r.path
    || (ltb (length r.path) (length path)
        && eq_bytes (take (length r.path) path) r.path
        && is_byte_at (get_elem? path (length r.path)) b'/')

unfoldable pub match_path : Bytes → List Route → Option Route
unfolding serves_path
match_path path [] = none
match_path path (r ∷ rs) = if serves_path path r then some r else match_path path rs

-- What stands before the last occurrence of a byte.
unfoldable pub before_last : ℕ → Bytes → Option Bytes
unfolding cut
before_last b s = elim (cut b (reverse s)) [
  | none ↦ none
  | some (_, before) ↦ some (reverse before)
]

-- `net.SplitHostPort` of a text in brackets, `[host]:port`, past its first byte.
abbrev split_bracketed : Option (Bytes × Bytes) → Option Bytes
split_bracketed none = none
split_bracketed (some (host, [])) = none
split_bracketed (some (host, c ∷ port)) =
    if not (c == b':')
      || has_byte b':' port
      || has_byte b'[' host
      || has_byte b'[' port
      || has_byte b']' port
    then none
    else some host

abbrev pub split_plain : Bytes → Option Bytes → Option Bytes
split_plain s none = none
split_plain s (some host) =
    if has_byte b':' host || has_byte b'[' s || has_byte b']' s then none else some host

-- `net.SplitHostPort`: the host, or `none` for its error.
unfoldable pub split_host_port : Bytes → Option Bytes
unfolding before_last cut has_byte
split_host_port [] = none
split_host_port (c ∷ s) =
    if c == b'['
    then split_bracketed (cut b']' s)
    else split_plain (c ∷ s) (before_last b':' (c ∷ s))

abbrev or_else {ℓ} : {A : Type ℓ} → Option A → A → A
or_else none a = a
or_else (some b) a = b

unfoldable pub request_hostname : Bytes → Bytes
unfolding split_host_port trim_space to_lower
request_hostname host = let h = trim_space host in to_lower (or_else (split_host_port h) h)

unfoldable pub match : Router → Bytes → Bytes → Option Route
unfolding match_path
match r host path = elim (lookup (request_hostname host) r.hosts) [
  | some route ↦ some route
  | none ↦ match_path path r.paths
]
