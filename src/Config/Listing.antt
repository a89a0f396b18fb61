-- ===== src/Config/Listing.antt =====
-- internal/config/config.go: `EndpointList`.
use lazywrap.Base.{
  ◌≡◌, refl, ap, ◌⊎◌, inl, inr, Bytes, codes, is_empty, Bool, true, false, ◌||◌, ◌&&◌, List, [],
  ◌∷◌, Bool-cases, pos, eq_ℤ, if◌then◌else◌, IsIn, ◌==◌, ltb, map,
}
use lazywrap.Config.Types.{RuntimeEndpointConfig, RuntimeAppConfig}

-- `a < b` on strings.
unfoldable pub less_bytes : Bytes → Bytes → Bool
less_bytes [] [] = false
less_bytes [] (d ∷ t) = true
less_bytes (c ∷ s) [] = false
less_bytes (c ∷ s) (d ∷ t) = ltb c d || (c == d && less_bytes s t)

unfoldable pub insert_named : {V : Type 0} → Bytes × V → List (Bytes × V) → List (Bytes × V)
unfolding less_bytes
insert_named p [] = p ∷ []
insert_named p (q ∷ qs) =
    let rest = insert_named p qs in if less_bytes q.0 p.0 then q ∷ rest else p ∷ q ∷ qs

-- The entries of a map by their keys: `sort.Strings` of the keys, and a look at each.
unfoldable pub sort_named : {V : Type 0} → List (Bytes × V) → List (Bytes × V)
unfolding insert_named
sort_named [] = []
sort_named (p ∷ ps) = insert_named p (sort_named ps)

-- The endpoint that the fields of the app itself stand for.
abbrev pub legacy_endpoint : RuntimeAppConfig → RuntimeEndpointConfig
legacy_endpoint a = record {
  name = codes "default";
  protocol = a.protocol;
  path = a.path;
  host = a.host;
  aliases = [];
  listen_port = a.listen_port;
  port = a.port;
  include_prefix = a.include_prefix;
  grpc_health = a.grpc_health;
  primary = true;
}

-- `EndpointList`
unfoldable pub endpoint_list : RuntimeAppConfig → List RuntimeEndpointConfig
unfolding sort_named
endpoint_list a =
    if is_empty a.endpoints
    then (if eq_ℤ a.port (pos 0) then [] else legacy_endpoint a ∷ [])
    else map (λ p. p.1) (sort_named a.endpoints)

IsIn-insert_named :
    {V : Type 0} (p q : Bytes × V) (m : List (Bytes × V))
    → IsIn q (insert_named p m)
    → (p ≡ q) ⊎ IsIn q m
unfolding insert_named
IsIn-insert_named p q [] (inl e) = inl e
IsIn-insert_named p q [] (inr i) = absurd i
IsIn-insert_named p q (x ∷ m) i = elim (Bool-cases (less_bytes x.0 p.0)) [
  | inl e ↦ step (IsIn-insert_named p q m) (rw e at i)
  | inr e ↦ keep (rw e at i)
]
  where
    step :
        (IsIn q (insert_named p m) → (p ≡ q) ⊎ IsIn q m)
        → (x ≡ q) ⊎ IsIn q (insert_named p m)
        → (p ≡ q) ⊎ IsIn q (x ∷ m)
    step ih (inl f) = inr (inl f)
    step ih (inr j) = elim (ih j) [ inl f ↦ inl f | inr k ↦ inr (inr k) ]

    keep : (p ≡ q) ⊎ IsIn q (x ∷ m) → (p ≡ q) ⊎ IsIn q (x ∷ m)
    keep j = j

insert_named-IsIn :
    {V : Type 0} (p q : Bytes × V) (m : List (Bytes × V))
    → (p ≡ q) ⊎ IsIn q m
    → IsIn q (insert_named p m)
unfolding insert_named
insert_named-IsIn p q [] i = i
insert_named-IsIn p q (x ∷ m) i = elim (Bool-cases (less_bytes x.0 p.0)) [
  | inl e ↦ rw e (elim i [
    | inl f ↦ inr (insert_named-IsIn p q m (inl f))
    | inr j ↦ elim j [ inl f ↦ inl f | inr k ↦ inr (insert_named-IsIn p q m (inr k)) ]
  ])
  | inr e ↦ rw e i
]

pub IsIn-sort_named :
    {V : Type 0} (q : Bytes × V) (m : List (Bytes × V)) → IsIn q (sort_named m) → IsIn q m
unfolding sort_named
IsIn-sort_named q [] i = i
IsIn-sort_named q (p ∷ m) i = elim (IsIn-insert_named p q (sort_named m) i) [
  | inl e ↦ inl e
  | inr j ↦ inr (IsIn-sort_named q m j)
]

pub sort_named-IsIn :
    {V : Type 0} (q : Bytes × V) (m : List (Bytes × V)) → IsIn q m → IsIn q (sort_named m)
unfolding sort_named
sort_named-IsIn q [] i = i
sort_named-IsIn q (p ∷ m) (inl e) = insert_named-IsIn p q (sort_named m) (inl e)
sort_named-IsIn q (p ∷ m) (inr i) =
    insert_named-IsIn p q (sort_named m) (inr (sort_named-IsIn q m i))

values-IsIn :
    {V : Type 0} (name : Bytes) (v : V) (m : List (Bytes × V))
    → IsIn (name, v) m
    → IsIn v (map (λ p. p.1) m)
values-IsIn name v [] i = i
values-IsIn name v (p ∷ m) (inl e) = inl (ap (λ q. q.1) e)
values-IsIn name v (p ∷ m) (inr i) = inr (values-IsIn name v m i)

IsIn-values :
    {V : Type 0} (v : V) (m : List (Bytes × V))
    → IsIn v (map (λ p. p.1) m)
    → (name : Bytes) × IsIn (name, v) m
IsIn-values v [] i = absurd i
IsIn-values v ((name, w) ∷ m) (inl e) = (name, inl (ap (λ x. (name, x)) e))
IsIn-values v (p ∷ m) (inr i) = let (name, j) = IsIn-values v m i in (name, inr j)

-- An endpoint of the app is listed.
pub endpoint_list-IsIn :
    (a : RuntimeAppConfig) (name : Bytes) (e : RuntimeEndpointConfig)
    → IsIn (name, e) a.endpoints
    → IsIn e (endpoint_list a)
unfolding endpoint_list
endpoint_list-IsIn a name e i =
    rw (filled a.endpoints i)
      (values-IsIn name e (sort_named a.endpoints) (sort_named-IsIn (name, e) a.endpoints i))
  where
    filled : (m : List (Bytes × RuntimeEndpointConfig)) → IsIn (name, e) m → is_empty m ≡ false
    filled [] j = absurd j
    filled (p ∷ m) j = refl

-- What is listed is an endpoint of the app, if an app without endpoints has no port.
pub IsIn-endpoint_list :
    (a : RuntimeAppConfig) (e : RuntimeEndpointConfig)
    → (is_empty a.endpoints ≡ true → a.port ≡ pos 0)
    → IsIn e (endpoint_list a)
    → (name : Bytes) × IsIn (name, e) a.endpoints
unfolding endpoint_list
IsIn-endpoint_list a e bare i = elim (Bool-cases (is_empty a.endpoints)) [
  | inl x ↦ absurd (rw (x, bare x) at i)
  | inr x ↦
      let (name, j) = IsIn-values e (sort_named a.endpoints) (rw x at i) in
      (name, IsIn-sort_named (name, e) a.endpoints j)
]
