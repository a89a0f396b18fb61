-- ===== src/Config/Normalize/Keyed.antt =====
-- internal/config/config.go: the maps of an accepted configuration have each key once, and an endpoint
-- stands under its name.
use mathlib.Core.Path.{subst}
use lazywrap.Base.{
  ℕ, ◌≡◌, refl, sym, ap, inl, inr, Bytes, bytes_eq, is_empty, true, false, not, ◌&&◌, List, [], ◌∷◌,
  Bool-cases, ℤ, length, insert, trim_space, has_byte, eq_bytes, pos,
}
use lazywrap.Base.Keys.{IsDistinct, Entries, insert-IsDistinct, insert-Entries}
use lazywrap.Config.Types.{RuntimeEndpointConfig, RuntimeAppConfig, RuntimeConfig}
use lazywrap.Config.Endpoint.{
  EndpointConfig, AppConfig, valid, >>=-valid, valid-injective, passed, health_without_grpc,
  app_endpoint_inputs,
}
use lazywrap.Config.Endpoint.Normalize.{
  normalize_endpoint, route, label_of, protocol_of, protocol_grpc, endpoint_of, finish_endpoint,
}
use lazywrap.Config.Endpoint.Names.{IsPlain, app_endpoint_inputs-IsPlain}
use lazywrap.Config.Registry.{Registry, empty_registry, register_port}
use lazywrap.Config.Normalize.{
  World, Config, Defaults, done, of_checked, normalize_endpoints, normalize_app, normalize_apps,
  finish_app, defaults_of, normalize,
}
use lazywrap.Config.Normalize.Apart.{
  >>=-done, done-injective, of_checked-done, finish_app-endpoints, normalize-apps,
}

-- The endpoint has the name, which has no NUL byte.
abbrev pub IsNamed : Bytes → RuntimeEndpointConfig → Type 0
IsNamed name e = (e.name ≡ name) × (has_byte 0 name ≡ false)

-- The endpoints of an app, by their names.
abbrev pub IsKeyed : List (Bytes × RuntimeEndpointConfig) → Type 0
IsKeyed es = IsDistinct es × Entries IsNamed es

-- An app, in which the fields of a single endpoint are not used.
abbrev pub IsListed : RuntimeAppConfig → Type 0
IsListed a = IsKeyed a.endpoints × (is_empty a.endpoints ≡ true → a.port ≡ pos 0)

normalize_endpoint-name :
    (id name : Bytes) (e : EndpointConfig) (count : ℕ) (wrapper : ℤ) (reg reg' : Registry)
    (out : RuntimeEndpointConfig)
    → normalize_endpoint id name e count wrapper reg ≡ valid (out, reg')
    → out.name ≡ name
unfolding normalize_endpoint finish_endpoint
normalize_endpoint-name id name e count wrapper reg reg' out h =
    let label = label_of id name count in
    let protocol = protocol_of e.protocol in
    let (reg1, e1, h1) = >>=-valid (register_port wrapper label e.port reg) _ h in
    let (r, e2, h2) = >>=-valid (route wrapper id name label e protocol reg1) _ h1 in
    let (_, h3) =
      passed (e.grpc_health && not (eq_bytes protocol protocol_grpc)) health_without_grpc
        (valid (endpoint_of name protocol e r, r.registry)) h2 in
    ap (λ (p : RuntimeEndpointConfig × Registry). p.0.name) (sym (valid-injective h3))

normalize_endpoints-IsKeyed :
    (id : Bytes) (count : ℕ) (wrapper : ℤ) (inputs : List (Bytes × EndpointConfig))
    (acc : List (Bytes × RuntimeEndpointConfig)) (reg : Registry)
    (r : List (Bytes × RuntimeEndpointConfig) × Registry)
    → Entries IsPlain inputs
    → IsKeyed acc
    → normalize_endpoints id count wrapper acc reg inputs ≡ valid r
    → IsKeyed r.0
unfolding normalize_endpoints
normalize_endpoints-IsKeyed id count wrapper [] acc reg r p k h =
    subst (λ (x : List (Bytes × RuntimeEndpointConfig) × Registry). IsKeyed x.0) (valid-injective h)
      k
normalize_endpoints-IsKeyed id count wrapper ((name, e) ∷ more) acc reg r p (d, n) h =
    let ((f, reg1), e1, h1) = >>=-valid (normalize_endpoint id name e count wrapper reg) _ h in
    normalize_endpoints-IsKeyed id count wrapper more (insert name f acc) reg1 r
      (λ k v i. p k v (inr i))
      (
        insert-IsDistinct name f acc d,
        insert-Entries IsNamed name f acc
            (normalize_endpoint-name id name e count wrapper reg reg1 f e1, p name e (inl refl)) n,
      )
      h1

normalize_app-IsListed :
    (w : World) (d : Defaults) (id : Bytes) (a : AppConfig) (reg : Registry)
    (r : RuntimeAppConfig × Registry)
    → normalize_app w d id a reg ≡ done r
    → IsListed r.0
unfolding normalize_app
normalize_app-IsListed w d id a reg r h = elim (Bool-cases (is_empty (trim_space a.launch))) [
  | inl x ↦ absurd (cc (rw x at h))
  | inr x ↦
      let (inputs, e1, h1) = >>=-done (of_checked (app_endpoint_inputs id a)) _ (rw x at h) in
      let ((es, reg1), e2, h2) =
        >>=-done (of_checked (normalize_endpoints id (length inputs) d.port [] reg inputs)) _ h1 in
      let (app, e3, h3) = >>=-done (finish_app w d id a es) _ h2 in
      let keyed =
        normalize_endpoints-IsKeyed id (length inputs) d.port inputs [] reg (es, reg1)
          (app_endpoint_inputs-IsPlain id a inputs (of_checked-done _ e1)) (tt, λ k v i. absurd i)
          (of_checked-done _ e2) in
      let (same, bare) = finish_app-endpoints w d id a es app e3 in
      subst (λ (x : RuntimeAppConfig × Registry). IsListed x.0) (done-injective h3)
        (
          subst IsKeyed (sym same) keyed,
          subst (λ m. is_empty m ≡ true → app.port ≡ pos 0) (sym same) bare,
        )
]

-- The apps, by their names, with their endpoints.
abbrev pub AreKeyed : List (Bytes × RuntimeAppConfig) → Type 0
AreKeyed apps = IsDistinct apps × Entries (λ id a. IsListed a) apps

normalize_apps-AreKeyed :
    (w : World) (d : Defaults) (inputs : List (Bytes × AppConfig))
    (acc : List (Bytes × RuntimeAppConfig)) (reg : Registry) (out : List (Bytes × RuntimeAppConfig))
    → AreKeyed acc
    → normalize_apps w d acc reg inputs ≡ done out
    → AreKeyed out
unfolding normalize_apps
normalize_apps-AreKeyed w d [] acc reg out k h = subst AreKeyed (done-injective h) k
normalize_apps-AreKeyed w d ((id, a) ∷ more) acc reg out (dis, k) h =
    let ((app, reg1), e1, h1) = >>=-done (normalize_app w d id a reg) _ h in
    normalize_apps-AreKeyed w d more (insert id app acc) reg1 out
      (
        insert-IsDistinct id app acc dis,
        insert-Entries (λ _ x. IsListed x) id app acc
            (normalize_app-IsListed w d id a reg (app, reg1) e1) k,
      )
      h1

pub normalize-AreKeyed :
    (w : World) (c : Config) (r : RuntimeConfig) → normalize w c ≡ done r → AreKeyed r.apps
normalize-AreKeyed w c r h =
    normalize_apps-AreKeyed w (defaults_of c) c.apps [] empty_registry r.apps
      (tt, λ k v i. absurd i) (normalize-apps w c r h).1
