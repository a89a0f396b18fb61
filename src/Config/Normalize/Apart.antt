-- ===== src/Config/Normalize/Apart.antt =====
-- The endpoints of an accepted configuration do not get in one another's way.
use mathlib.Core.Path.{subst}
use lazywrap.Base.{
  ℕ, ◌≡◌, refl, sym, ap, ◌∙◌, ◌⊎◌, inl, inr, Bytes, bytes_eq, is_empty, Bool, true, false, not,
  ◌||◌, List, [], ◌∷◌, arith, Bool-cases, ℤ, pos, ltb_ℤ, if◌then◌else◌, length, insert, IsIn,
  IsIn-insert, trim_space,
}
use lazywrap.Config.Types.{RuntimeEndpointConfig, RuntimeAppConfig, RuntimeConfig}
use lazywrap.Config.Endpoint.{
  EndpointConfig, AppConfig, Checked, valid, rejected, >>=-valid, app_endpoint_inputs,
}
use lazywrap.Config.Endpoint.Normalize.{normalize_endpoint}
use lazywrap.Config.Endpoint.Claims.{IsSound, normalize_endpoint-Claims}
use lazywrap.Config.Registry.{Registry, empty_registry, out_of_range}
use lazywrap.Config.Normalize.{
  World, Config, Defaults, Outcome, done, refused, ◌>>=◌, of_checked, ConfigError, negative_idle,
  normalize_endpoints, app_idle, copy_primary, runtime_app, check_environment, check_pwd,
  app_environment, finish_app, normalize_app, normalize_apps, defaults_of, normalize, is_log_level,
  log_level_of, not_positive,
}
use lazywrap.Config.Normalize.Owns.{NoShare, Owns, Owns-none, Owns-more, Owns-join}

pub done-injective {ℓ} : {A : Type ℓ} {a b : A} → done a ≡ done b → a ≡ b
done-injective h = cc

pub >>=-done {ℓ κ} :
    {A : Type ℓ} {B : Type κ} (m : Outcome A) (f : A → Outcome B) {b : B}
    → (m >>= f) ≡ done b
    → (a : A) × (m ≡ done a) × (f a ≡ done b)
>>=-done (done a) f h = (a, refl, h)
>>=-done (refused e) f h = cc

pub of_checked-done {ℓ} : {A : Type ℓ} (m : Checked A) {a : A} → of_checked m ≡ done a → m ≡ valid a
of_checked-done (valid b) h = cc
of_checked-done (rejected e) h = cc

let_through {ℓ} :
    {A : Type ℓ} (b : Bool) (x : ConfigError) (m : Outcome A) {r : A}
    → (if b then refused x else m) ≡ done r
    → m ≡ done r
let_through true x m h = cc
let_through false x m h = h

-- The entries of a map, by their keys.
abbrev Entry : List (Bytes × RuntimeEndpointConfig) → Bytes → RuntimeEndpointConfig → Type 0
Entry m name e = IsIn (name, e) m

normalize_endpoints-Owns :
    (id : Bytes) (count : ℕ) (wrapper : ℤ) (reg0 : Registry)
    (inputs : List (Bytes × EndpointConfig)) (acc : List (Bytes × RuntimeEndpointConfig))
    (reg : Registry) (out : List (Bytes × RuntimeEndpointConfig)) (reg' : Registry)
    → Owns wrapper reg0 reg (Entry acc)
    → normalize_endpoints id count wrapper acc reg inputs ≡ valid (out, reg')
    → Owns wrapper reg0 reg' (Entry out)
unfolding normalize_endpoints
normalize_endpoints-Owns id count wrapper reg0 [] acc reg out reg' o h =
    let e : acc ≡ out = ground arith in
    let f : reg ≡ reg' = ground arith in
    subst (λ t. Owns wrapper reg0 t (Entry out)) f
      (subst (λ t. Owns wrapper reg0 reg (Entry t)) e o)
normalize_endpoints-Owns id count wrapper reg0 ((name, e) ∷ more) acc reg out reg' o h =
    let ((f, reg1), e1, h1) = >>=-valid (normalize_endpoint id name e count wrapper reg) _ h in
    let (c, s) = normalize_endpoint-Claims id name e count wrapper reg reg1 f e1 in
    normalize_endpoints-Owns id count wrapper reg0 more (insert name f acc) reg1 out reg'
      (Owns-more wrapper reg0 reg reg1 (Entry acc) (Entry (insert name f acc)) name f
        (λ t g i. split t g (IsIn-insert name f acc (t, g) i)) o c s)
      h1
  where
    split :
        {f : RuntimeEndpointConfig} (t : Bytes) (g : RuntimeEndpointConfig)
        → (◌≡◌ {A = Bytes × RuntimeEndpointConfig} (t, g) (name, f)) ⊎ IsIn (t, g) acc
        → ((t ≡ name) × (g ≡ f)) ⊎ IsIn (t, g) acc
    split t g (inl q) = inl (ap (λ p. p.0) q, ap (λ p. p.1) q)
    split t g (inr i) = inr i

-- An endpoint of an app, found by the names of both.
abbrev pub IsEndpoint :
    List (Bytes × RuntimeAppConfig) → Bytes × Bytes → RuntimeEndpointConfig → Type 0
IsEndpoint apps t e = (a : RuntimeAppConfig) × IsIn (t.0, a) apps × IsIn (t.1, e) a.endpoints

copy_primary-endpoints :
    (es : List (Bytes × RuntimeEndpointConfig)) (a : RuntimeAppConfig)
    → (copy_primary es a).endpoints ≡ a.endpoints
unfolding copy_primary
copy_primary-endpoints [] a = refl
copy_primary-endpoints ((name, e) ∷ more) a = ground (arith, copy_primary-endpoints more a)

copy_primary-port :
    (es : List (Bytes × RuntimeEndpointConfig)) (a : RuntimeAppConfig)
    → is_empty es ≡ true
    → (copy_primary es a).port ≡ a.port
unfolding copy_primary
copy_primary-port [] a h = refl
copy_primary-port (p ∷ more) a h = cc

-- An app keeps its endpoints, and without any it has no port.
pub finish_app-endpoints :
    (w : World) (d : Defaults) (id : Bytes) (a : AppConfig)
    (es : List (Bytes × RuntimeEndpointConfig)) (app : RuntimeAppConfig)
    → finish_app w d id a es ≡ done app
    → (app.endpoints ≡ es) × (is_empty es ≡ true → app.port ≡ pos 0)
unfolding finish_app runtime_app
finish_app-endpoints w d id a es app h =
    let (_, _, h1) = >>=-done (check_environment a.env) _ h in
    let (pwd, _, h2) = >>=-done (check_pwd w a.pwd) _ h1 in
    let (env, _, h3) = >>=-done (app_environment w pwd a) _ h2 in
    let idle = app_idle d.idle a.idle in
    let h4 =
      let_through (ltb_ℤ idle (pos 0)) negative_idle (done (runtime_app d id a pwd env idle es))
        h3 in
    let q = done-injective h4 in
    (
      ap (λ (x : RuntimeAppConfig). x.endpoints) (sym q) ∙ copy_primary-endpoints es _,
      λ n. ap (λ (x : RuntimeAppConfig). x.port) (sym q) ∙ copy_primary-port es _ n,
    )

normalize_app-Owns :
    (w : World) (d : Defaults) (id : Bytes) (a : AppConfig) (reg reg' : Registry)
    (app : RuntimeAppConfig)
    → normalize_app w d id a reg ≡ done (app, reg')
    → Owns d.port reg reg' (Entry app.endpoints)
unfolding normalize_app
normalize_app-Owns w d id a reg reg' app h = elim (Bool-cases (is_empty (trim_space a.launch))) [
  | inl x ↦ cc (rw x at h)
  | inr x ↦
      let (inputs, e1, h1) = >>=-done (of_checked (app_endpoint_inputs id a)) _ (rw x at h) in
      let ((es, reg1), e2, h2) =
        >>=-done (of_checked (normalize_endpoints id (length inputs) d.port [] reg inputs)) _ h1 in
      let (app', e3, h3) = >>=-done (finish_app w d id a es) _ h2 in
      let o =
        normalize_endpoints-Owns id (length inputs) d.port reg inputs [] reg es reg1
          (Owns-none d.port reg (Entry []) (λ t e m. m)) (of_checked-done _ e2) in
      let q : app' ≡ app = ap (λ p. p.0) (done-injective h3) in
      let q' : reg1 ≡ reg' = ap (λ p. p.1) (done-injective h3) in
      subst (λ (z : Registry). Owns d.port reg z (Entry app.endpoints)) q'
        (subst (λ (z : RuntimeAppConfig). Owns d.port reg reg1 (Entry z.endpoints)) q
          (subst (λ z. Owns d.port reg reg1 (Entry z))
            (sym (finish_app-endpoints w d id a es app' e3).0) o))
]

normalize_apps-Owns :
    (w : World) (d : Defaults) (reg0 : Registry) (inputs : List (Bytes × AppConfig))
    (acc : List (Bytes × RuntimeAppConfig)) (reg : Registry) (out : List (Bytes × RuntimeAppConfig))
    → Owns d.port reg0 reg (IsEndpoint acc)
    → normalize_apps w d acc reg inputs ≡ done out
    → (reg' : Registry) × Owns d.port reg0 reg' (IsEndpoint out)
unfolding normalize_apps
normalize_apps-Owns w d reg0 [] acc reg out o h =
    (reg, subst (λ t. Owns d.port reg0 reg (IsEndpoint t)) (done-injective h) o)
normalize_apps-Owns w d reg0 ((id, a) ∷ more) acc reg out o h =
    let ((app, reg1), e1, h1) = >>=-done (normalize_app w d id a reg) _ h in
    normalize_apps-Owns w d reg0 more (insert id app acc) reg1 out
      (Owns-join d.port reg0 reg reg1 (IsEndpoint acc) (Fresh app) (IsEndpoint (insert id app acc))
        (λ t e (b, i, j). split app t e b (IsIn-insert id app acc (t.0, b) i) j) o
        (Entry-Fresh app (normalize_app-Owns w d id a reg reg1 app e1)))
      h1
  where
    Fresh : RuntimeAppConfig → Bytes × Bytes → RuntimeEndpointConfig → Type 0
    Fresh app t e = (t.0 ≡ id) × IsIn (t.1, e) app.endpoints

    Entry-Fresh :
        {reg1 : Registry} (app : RuntimeAppConfig)
        → Owns d.port reg reg1 (Entry app.endpoints)
        → Owns d.port reg reg1 (Fresh app)
    Entry-Fresh app p = record {
      free = λ t e m. p.free t.1 e m.1;
      held = λ t e m. p.held t.1 e m.1;
      sound = λ t e m. p.sound t.1 e m.1;
      apart = λ t u e f m n. same e f t u m.0 n.0 (p.apart t.1 u.1 e f m.1 n.1);
      kept = p.kept;
    }
      where
        same :
            (e f : RuntimeEndpointConfig) (t u : Bytes × Bytes)
            → t.0 ≡ id
            → u.0 ≡ id
            → (t.1 ≡ u.1) ⊎ NoShare e f
            → (t ≡ u) ⊎ NoShare e f
        same e f t u x y (inl z) = inl (λ i. ((x ∙ sym y) i, z i))
        same e f t u x y (inr z) = inr z

    split :
        (app : RuntimeAppConfig) (t : Bytes × Bytes) (e : RuntimeEndpointConfig)
        (b : RuntimeAppConfig)
        → (◌≡◌ {A = Bytes × RuntimeAppConfig} (t.0, b) (id, app)) ⊎ IsIn (t.0, b) acc
        → IsIn (t.1, e) b.endpoints
        → IsEndpoint acc t e ⊎ Fresh app t e
    split app t e b (inl q) j = inr (
      ap (λ p. p.0) q,
      subst (λ (z : RuntimeAppConfig). IsIn (t.1, e) z.endpoints) (ap (λ p. p.1) q) j,
    )
    split app t e b (inr i) j = inl (b, i, j)

pub normalize-apps :
    (w : World) (c : Config) (r : RuntimeConfig)
    → normalize w c ≡ done r
    → (r.port ≡ (defaults_of c).port)
      × (normalize_apps w (defaults_of c) [] empty_registry c.apps ≡ done r.apps)
unfolding normalize
normalize-apps w c r h =
    let d = defaults_of c in
    elim (Bool-cases (out_of_range d.port)) [
      | inl x ↦ cc (rw x at h)
      | inr x ↦ elim (Bool-cases (not (is_log_level (log_level_of c.log_level)))) [
        | inl y ↦ cc (rw (x, y) at h)
        | inr y ↦
            elim (Bool-cases (
              not_positive d.idle || not_positive d.start_timeout || not_positive d.stop_timeout)) [
                | inl z ↦ cc (rw (x, y, z) at h)
                | inr z ↦
                    let (apps, e1, h1) =
                      >>=-done (normalize_apps w d [] empty_registry c.apps) _
                        (rw (x, y, z) at h) in
                    let q = done-injective h1 in
                    (
                      ap (λ (t : RuntimeConfig). t.port) (sym q),
                      e1 ∙ ap (λ (t : RuntimeConfig). done t.apps) q,
                    )
              ]
      ]
    ]

-- Each two endpoints of an accepted configuration that have not the same app and name use no port
-- number, host, alias or path in common; their ports lie between 1 and 65535 and are not the
-- wrapper's, and their hosts and aliases are in lower case.
pub normalize-NoShare :
    (w : World) (c : Config) (r : RuntimeConfig)
    → normalize w c ≡ done r
    → (t u : Bytes × Bytes) (e f : RuntimeEndpointConfig) → IsEndpoint r.apps t e
    → IsEndpoint r.apps u f
    → ((t ≡ u) ⊎ NoShare e f) × IsSound r.port e
normalize-NoShare w c r h t u e f m n =
    let (p, q) = normalize-apps w c r h in
    let (reg', o) =
      normalize_apps-Owns w (defaults_of c) empty_registry c.apps [] empty_registry r.apps
        (Owns-none (defaults_of c).port empty_registry (IsEndpoint []) (λ t e m. m.1)) q in
    (o.apart t u e f m n, rw p (o.sound t e m))
