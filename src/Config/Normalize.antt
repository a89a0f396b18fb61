-- ===== src/Config/Normalize.antt =====
-- internal/config/config.go: `Normalize`, which checks a decoded configuration, fills in the defaults
-- and resolves its apps. The order of an association list stands for the order in which Go iterates
-- over the map. A duration is in nanoseconds.
pub mod Owns
pub mod Apart
pub mod Keyed
use lazywrap.Base.{
  ℕ, Bytes, bytes_eq, codes, eq_bytes, is_empty, Bool, true, false, not, ◌&&◌, ◌||◌, List, [], ◌∷◌,
  Option, none, some, if◌then◌else◌, length, drop, map, insert, ℤ, pos, eq_ℤ, ltb_ℤ, trim_space,
  has_prefix,
}
use lazywrap.Config.Types.{RuntimeEndpointConfig, RuntimeAppConfig, RuntimeConfig}
use lazywrap.Config.Environment.{Env, EnvError, ok, err, validate_environment, resolve_environment}
use lazywrap.Config.Endpoint.{
  EndpointConfig, AppConfig, EndpointError, Checked, valid, rejected, app_endpoint_inputs,
}
use lazywrap.Config.Endpoint
use lazywrap.Config.Endpoint.Normalize.{normalize_endpoint}
use lazywrap.Config.Registry.{Registry, empty_registry, out_of_range}

pub record Duration : Type 0 where
  pub duration : ℤ
  pub is_set : Bool

pub record Config : Type 0 where
  pub port : ℤ
  pub idle : Duration
  pub log_level : Bytes
  pub start_timeout : Duration
  pub stop_timeout : Duration
  pub start_up : List Bytes
  pub tear_down : List Bytes
  pub apps : List (Bytes × AppConfig)

-- What `os` and `filepath` answer.
pub record World : Type 0 where
  pub home : Option Bytes  -- os.UserHomeDir
  pub is_dir : Bytes → Option Bool  -- os.Stat
  pub read_file : Bytes → Option Bytes
  pub is_abs : Bytes → Bool
  pub join : Bytes → Bytes → Bytes
  pub environ : Env

pub data ConfigError : Type 0 where
  invalid_wrapper_port invalid_log_level duration_not_positive : ConfigError
  launch_required pwd_required pwd_unusable pwd_no_directory negative_idle : ConfigError
  endpoint_error : EndpointError → ConfigError
  env_error : EnvError → ConfigError

pub data Outcome {ℓ} (A : Type ℓ) : Type ℓ where
  done : A → Outcome A
  refused : ConfigError → Outcome A

infixl 5 ◌>>=◌
abbrev pub ◌>>=◌ {ℓ κ} : {A : Type ℓ} {B : Type κ} → Outcome A → (A → Outcome B) → Outcome B
done a >>= f = f a
refused e >>= f = refused e

abbrev pub of_checked {ℓ} : {A : Type ℓ} → Checked A → Outcome A
of_checked (valid a) = done a
of_checked (rejected e) = refused (endpoint_error e)

-- `expandHomePath`
unfoldable pub expand_home_path : World → Bytes → Option Bytes
unfolding eq_bytes has_prefix
expand_home_path w path =
    if not (eq_bytes path (codes "~"))
      && not (has_prefix path (codes "~/"))
      && not (has_prefix path (codes "~\\"))
    then some path
    else elim w.home [
      | none ↦ none
      | some home ↦
          if eq_bytes path (codes "~") then some home else some (w.join home (drop 2 path))
    ]

-- The contents of an environment file of an app that runs in `pwd`.
unfoldable pub env_file_text : World → Bytes → Bytes → Option Bytes
unfolding expand_home_path trim_space
env_file_text w pwd name =
    if is_empty (trim_space name) then none else elim (expand_home_path w name) [
      | none ↦ none
      | some path ↦ w.read_file (if w.is_abs path then path else w.join pwd path)
    ]

-- The loop over the endpoints of an app.
unfoldable pub normalize_endpoints :
    Bytes
    → ℕ
    → ℤ
    → List (Bytes × RuntimeEndpointConfig)
    → Registry
    → List (Bytes × EndpointConfig)
    → Checked (List (Bytes × RuntimeEndpointConfig) × Registry)
unfolding normalize_endpoint insert
normalize_endpoints id count wrapper acc reg [] = valid (acc, reg)
normalize_endpoints id count wrapper acc reg ((name, e) ∷ more) =
    Endpoint.◌>>=◌ (normalize_endpoint id name e count wrapper reg)
      λ (out, reg'). normalize_endpoints id count wrapper (insert name out acc) reg' more

-- `if a.Pwd == "" …` to `if !st.IsDir() …`
unfoldable pub check_pwd : World → Bytes → Outcome Bytes
unfolding expand_home_path
check_pwd w text = if is_empty text then refused pwd_required else elim (expand_home_path w text) [
  | none ↦ refused pwd_unusable
  | some pwd ↦ elim (w.is_dir pwd) [
    | none ↦ refused pwd_unusable
    | some directory ↦ if directory then done pwd else refused pwd_no_directory
  ]
]

unfoldable pub app_environment : World → Bytes → AppConfig → Outcome Env
unfolding resolve_environment env_file_text
app_environment w pwd a =
    elim (resolve_environment w.environ (map (env_file_text w pwd) a.env_files) a.env) [
      | err e ↦ refused (env_error e)
      | ok env ↦ done env
    ]

unfoldable pub check_environment : Env → Outcome Env
unfolding validate_environment
check_environment env = elim (validate_environment env) [
  | none ↦ done env
  | some e ↦ refused (env_error e)
]

abbrev pub app_idle : ℤ → Option ℤ → ℤ
app_idle default none = default
app_idle default (some idle) = idle

-- The legacy fields of an app follow the first endpoint that is primary.
unfoldable pub copy_primary :
    List (Bytes × RuntimeEndpointConfig) → RuntimeAppConfig → RuntimeAppConfig
copy_primary [] a = a
copy_primary ((name, e) ∷ more) a =
    if e.primary
    then record a {
      protocol = e.protocol;
      path = e.path;
      host = e.host;
      listen_port = e.listen_port;
      port = e.port;
      include_prefix = e.include_prefix;
      grpc_health = e.grpc_health;
    }
    else copy_primary more a

-- The settings that the loop over the apps reads.
pub record Defaults : Type 0 where
  pub port : ℤ
  pub idle : ℤ
  pub start_timeout : ℤ
  pub stop_timeout : ℤ

unfoldable pub runtime_app :
    Defaults
    → Bytes
    → AppConfig
    → Bytes
    → Env
    → ℤ
    → List (Bytes × RuntimeEndpointConfig)
    → RuntimeAppConfig
unfolding copy_primary
runtime_app d id a pwd env idle endpoints = copy_primary endpoints (record {
  id = id;
  pwd = pwd;
  build = a.build;
  launch = a.launch;
  stop = a.stop;
  protocol = [];
  path = [];
  host = [];
  source = [];
  env = env;
  listen_port = pos 0;
  port = pos 0;
  idle = idle;
  start_timeout = d.start_timeout;
  stop_timeout = d.stop_timeout;
  include_prefix = false;
  grpc_health = false;
  endpoints = endpoints;
})

-- One round of the loop over the apps.
unfoldable pub finish_app :
    World
    → Defaults
    → Bytes
    → AppConfig
    → List (Bytes × RuntimeEndpointConfig)
    → Outcome RuntimeAppConfig
unfolding check_environment check_pwd app_environment runtime_app
finish_app w d id a endpoints = do
  _ ← check_environment a.env
  pwd ← check_pwd w a.pwd
  env ← app_environment w pwd a
  let idle = app_idle d.idle a.idle
  if ltb_ℤ idle (pos 0)
      then refused negative_idle
      else done (runtime_app d id a pwd env idle endpoints)

unfoldable pub normalize_app :
    World → Defaults → Bytes → AppConfig → Registry → Outcome (RuntimeAppConfig × Registry)
unfolding app_endpoint_inputs normalize_endpoints finish_app trim_space
normalize_app w d id a reg = if is_empty (trim_space a.launch) then refused launch_required else (do
  inputs ← of_checked (app_endpoint_inputs id a)
  (endpoints, reg') ← of_checked (normalize_endpoints id (length inputs) d.port [] reg inputs)
  app ← finish_app w d id a endpoints
  done (app, reg'))

unfoldable pub normalize_apps :
    World
    → Defaults
    → List (Bytes × RuntimeAppConfig)
    → Registry
    → List (Bytes × AppConfig)
    → Outcome (List (Bytes × RuntimeAppConfig))
unfolding normalize_app insert
normalize_apps w d acc reg [] = done acc
normalize_apps w d acc reg ((id, a) ∷ more) =
    normalize_app w d id a reg >>= λ (app, reg'). normalize_apps w d (insert id app acc) reg' more

-- `if !d.set && d.Duration == 0 { d.Duration = … }`
abbrev pub or_default : Duration → ℤ → ℤ
or_default d default = if not d.is_set && eq_ℤ d.duration (pos 0) then default else d.duration

unfoldable pub is_log_level : Bytes → Bool
unfolding eq_bytes
is_log_level s =
    eq_bytes s (codes "debug")
    || eq_bytes s (codes "info")
    || eq_bytes s (codes "warning")
    || eq_bytes s (codes "warn")
    || eq_bytes s (codes "error")

abbrev pub not_positive : ℤ → Bool
not_positive d = ltb_ℤ d (pos 1)

unfoldable pub defaults_of : Config → Defaults
defaults_of c = record {
  port = if eq_ℤ c.port (pos 0) then pos 3000 else c.port;
  idle = or_default c.idle (pos 1800000000000);
  start_timeout = or_default c.start_timeout (pos 30000000000);
  stop_timeout = or_default c.stop_timeout (pos 10000000000);
}

unfoldable pub log_level_of : Bytes → Bytes
log_level_of s = if is_empty s then codes "info" else s

unfoldable pub normalize : World → Config → Outcome RuntimeConfig
unfolding defaults_of is_log_level log_level_of normalize_apps
normalize w c =
    let d = defaults_of c in
    let level = log_level_of c.log_level in
    if out_of_range d.port
    then refused invalid_wrapper_port
    else if not (is_log_level level)
    then refused invalid_log_level
    else if not_positive d.idle || not_positive d.start_timeout || not_positive d.stop_timeout
    then refused duration_not_positive
    else (do
      apps ← normalize_apps w d [] empty_registry c.apps
      done (record {
        port = d.port;
        log_level = level;
        start_timeout = d.start_timeout;
        stop_timeout = d.stop_timeout;
        start_up = c.start_up;
        tear_down = c.tear_down;
        apps = apps;
      }))
