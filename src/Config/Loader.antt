-- ===== src/Config/Loader.antt =====
-- internal/config/config.go: `load` and `resourceLoader`, which read a configuration with the files
-- that it includes. The recursion through the files is on fuel. A YAML document and what os and
-- filepath answer are functions of the record Disk.
pub mod Terminates
pub mod Sources
pub mod Grown
pub mod Circles
mod Samples
use lazywrap.Base.{
  ℕ, zero, suc, Bytes, bytes_eq, codes, eq_bytes, is_empty, Bool, true, false, not, ◌&&◌, ◌||◌,
  List, [], ◌∷◌, ◌++◌, Option, none, some, if◌then◌else◌, insert, lookup, trim_space, map, pos,
}
use lazywrap.Config.Types.{RuntimeAppConfig, RuntimeConfig}
use lazywrap.Config.Endpoint.{AppConfig}
use lazywrap.Config.Normalize.{
  World, Config, ConfigError, Outcome, done, refused, expand_home_path, normalize,
}

-- What `validateResourceFields` reads of a document's first node: whether it is a mapping, and the
-- values of its children, a key before each value.
pub record Node : Type 0 where
  pub is_mapping : Bool
  pub content : List Bytes

-- `resourceConfig`
pub record ResourceConfig : Type 0 where
  pub resources : List Bytes
  pub apps : List (Bytes × AppConfig)

-- What os, filepath and yaml answer.
pub record Disk : Type 0 where
  pub world : World
  pub abs : Bytes → Option Bytes
  pub eval_symlinks : Bytes → Option Bytes
  pub dir : Bytes → Bytes
  pub unmarshal : Bytes → Option (Option Node)  -- no node for an empty document
  pub decode_resource : Bool → Bytes → Option ResourceConfig
  pub decode_config : Bool → Bytes → Option (Config × List Bytes)  -- with `resources`

pub data LoadError : Type 0 where
  no_canonical_path unreadable undecodable empty_resource not_mapping fuel_spent : LoadError
  global_field unknown_field : Bytes → LoadError
  circular : List Bytes → LoadError
  duplicate_app : Bytes → Bytes → Bytes → LoadError
  in_resource : Bytes → LoadError → LoadError
  invalid : ConfigError → LoadError

pub data Loaded {ℓ} (A : Type ℓ) : Type ℓ where
  loaded : A → Loaded A
  failed : LoadError → Loaded A

infixl 5 ◌>>=◌
abbrev pub ◌>>=◌ {ℓ κ} : {A : Type ℓ} {B : Type κ} → Loaded A → (A → Loaded B) → Loaded B
loaded a >>= f = f a
failed e >>= f = failed e

abbrev pub or_fail {ℓ} : {A : Type ℓ} → LoadError → Option A → Loaded A
or_fail e none = failed e
or_fail e (some a) = loaded a

-- `fmt.Errorf("resource %s: %w", path, err)`
abbrev pub within {ℓ} : {A : Type ℓ} → Bytes → Loaded A → Loaded A
within path (loaded a) = loaded a
within path (failed e) = failed (in_resource path e)

-- `CanonicalPath`
unfoldable pub canonical_path : Disk → Bytes → Option Bytes
unfolding expand_home_path
canonical_path d path = elim (expand_home_path d.world path) [
  | none ↦ none
  | some expanded ↦ elim (d.abs expanded) [ none ↦ none | some abs ↦ d.eval_symlinks abs ]
]

unfoldable pub is_global_field : Bytes → Bool
unfolding eq_bytes
is_global_field s =
    eq_bytes s (codes "port")
    || eq_bytes s (codes "idle")
    || eq_bytes s (codes "logLevel")
    || eq_bytes s (codes "startTimeout")
    || eq_bytes s (codes "stopTimeout")
    || eq_bytes s (codes "startUp")
    || eq_bytes s (codes "tearDown")

-- The check of one key; nothing if it may stand in a resource.
unfoldable pub field_error : Bool → Bytes → Option LoadError
unfolding eq_bytes is_global_field
field_error strict field =
    if eq_bytes field (codes "resources") || eq_bytes field (codes "apps")
    then none
    else if is_global_field field
    then some (global_field field)
    else if strict
    then some (unknown_field field)
    else none

-- The loop over the keys, at the even places.
unfoldable pub check_fields : Bool → List Bytes → Option LoadError
unfolding field_error
check_fields strict [] = none
check_fields strict (field ∷ []) = field_error strict field
check_fields strict (field ∷ value ∷ more) = elim (field_error strict field) [
  | some e ↦ some e
  | none ↦ check_fields strict more
]

unfoldable pub validate_resource_fields : Bool → Option Node → Option LoadError
unfolding check_fields
validate_resource_fields strict none = none
validate_resource_fields strict (some root) =
    if not root.is_mapping then some not_mapping else check_fields strict root.content

-- The fields of `resourceLoader` that change.
pub record ResourceLoader : Type 0 where
  pub apps : List (Bytes × AppConfig)
  pub sources : List (Bytes × Bytes)

-- The loop over the apps of a resource.
unfoldable pub add_apps : Bytes → List (Bytes × AppConfig) → ResourceLoader → Loaded ResourceLoader
unfolding lookup insert
add_apps path [] l = loaded l
add_apps path ((id, app) ∷ more) l = elim (lookup id l.sources) [
  | some first ↦ failed (duplicate_app id first path)
  | none ↦
      add_apps path more
        (record { apps = insert id app l.apps; sources = insert id path l.sources })
]

-- The resource that a file declares, read, checked and decoded.
unfoldable pub read_resource : Disk → Bool → Bytes → Loaded ResourceConfig
unfolding validate_resource_fields
read_resource d strict path = do
  b ← or_fail unreadable (d.world.read_file path)
  document ← or_fail undecodable (d.unmarshal b)
  elim (validate_resource_fields strict document) [
    | some e ↦ failed e
    | none ↦ or_fail undecodable (d.decode_resource strict b)
  ]

-- The canonical path of a resource that a file names.
unfoldable pub locate : Disk → Bytes → Bytes → Loaded Bytes
unfolding expand_home_path canonical_path trim_space
locate d declaring resource =
    let name = trim_space resource in
    if is_empty name then failed empty_resource else (do
      path ← or_fail no_canonical_path (expand_home_path d.world name)
      or_fail no_canonical_path (
          canonical_path d
            (if d.world.is_abs path then path else d.world.join (d.dir declaring) path)))

-- The stack from its first element that is the path.
unfoldable pub from_ancestor : Bytes → List Bytes → Option (List Bytes)
unfolding eq_bytes
from_ancestor path [] = none
from_ancestor path (ancestor ∷ stack) =
    if eq_bytes ancestor path then some (ancestor ∷ stack) else from_ancestor path stack

-- `loadAll`, with `loadOne` for what it calls.
unfoldable pub load_all :
    Disk
    → (Bytes → List Bytes → ResourceLoader → Loaded ResourceLoader)
    → Bytes
    → List Bytes
    → List Bytes
    → ResourceLoader
    → Loaded ResourceLoader
unfolding locate from_ancestor
load_all d load_one declaring stack [] l = loaded l
load_all d load_one declaring stack (resource ∷ more) l = locate d declaring resource >>= λ path.
    elim (from_ancestor path stack) [
      | some chain ↦ failed (circular (chain ++ path ∷ []))
      | none ↦ within path (load_one path (stack ++ path ∷ []) l) >>= λ l'.
          load_all d load_one declaring stack more l'
    ]

-- `loadOne`
unfoldable pub load_one :
    ℕ → Disk → Bool → Bytes → List Bytes → ResourceLoader → Loaded ResourceLoader
unfolding load_all read_resource add_apps
load_one zero d strict path stack l = failed fuel_spent
load_one (suc fuel) d strict path stack l = read_resource d strict path >>= λ r.
    add_apps path r.apps l >>= λ l'. load_all d (load_one fuel d strict) path stack r.resources l'

-- What Go reads for an app that is not in the map.
abbrev pub zero_app : RuntimeAppConfig
zero_app = record {
  id = [];
  pwd = [];
  build = [];
  launch = [];
  stop = [];
  protocol = [];
  path = [];
  host = [];
  source = [];
  env = [];
  listen_port = pos 0;
  port = pos 0;
  idle = pos 0;
  start_timeout = pos 0;
  stop_timeout = pos 0;
  include_prefix = false;
  grpc_health = false;
  endpoints = [];
}

abbrev pub app_at : Bytes → List (Bytes × RuntimeAppConfig) → RuntimeAppConfig
unfolding lookup
app_at id apps = elim (lookup id apps) [ none ↦ zero_app | some app ↦ app ]

abbrev pub with_source : Bytes → RuntimeAppConfig → RuntimeAppConfig
with_source source app = record app { source = source }

-- The last loop of `load`.
unfoldable pub set_sources :
    List (Bytes × Bytes) → List (Bytes × RuntimeAppConfig) → List (Bytes × RuntimeAppConfig)
unfolding insert app_at
set_sources [] apps = apps
set_sources ((id, source) ∷ more) apps =
    set_sources more (insert id (with_source source (app_at id apps)) apps)

-- `sources` at first: the apps of the root file.
abbrev pub root_sources : Bytes → List (Bytes × AppConfig) → List (Bytes × Bytes)
root_sources root apps = map (λ p. (p.0, root)) apps

-- The apps of the root file `root` and of all that it includes.
unfoldable pub load_resources :
    ℕ → Disk → Bool → Bytes → Config → List Bytes → Loaded ResourceLoader
unfolding load_one load_all
load_resources fuel d strict root c resources =
    load_all d (load_one fuel d strict) root (root ∷ []) resources
      (record { apps = c.apps; sources = root_sources root c.apps })

unfoldable pub finish_load : Disk → Config → ResourceLoader → Loaded RuntimeConfig
unfolding normalize set_sources
finish_load d c l = elim (normalize d.world (record c { apps = l.apps })) [
  | refused e ↦ failed (invalid e)
  | done r ↦ loaded (record r { apps = set_sources l.sources r.apps })
]

-- `load`
unfoldable pub load : ℕ → Disk → Bytes → Bool → Loaded RuntimeConfig
unfolding canonical_path load_resources finish_load
load fuel d path strict = do
  root ← or_fail no_canonical_path (canonical_path d path)
  b ← or_fail unreadable (d.world.read_file root)
  (c, resources) ← or_fail undecodable (d.decode_config strict b)
  l ← load_resources fuel d strict root c resources
  finish_load d c l
