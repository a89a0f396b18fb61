-- ===== src/Config/Loader/Samples.antt =====
-- Two files: the root includes the other one, and in the second disk the other one includes the root.
use lazywrap.Base.{
  ◌≡◌, refl, inl, inr, trim_space, ◌⊎◌, Bytes, codes, eq_bytes, bytes_eq, true, false, List, [],
  ◌∷◌, none, some, pos, IsIn, if◌then◌else◌, arith,
}
use lazywrap.Config.Endpoint.{AppConfig}
use lazywrap.Config.Normalize.{Duration, Config, expand_home_path}
use lazywrap.Config.Loader.{
  Disk, ResourceConfig, ResourceLoader, LoadError, circular, in_resource, load, load_resources,
  failed, read_resource, locate, canonical_path, validate_resource_fields,
}
use lazywrap.Config.Loader.Terminates.{AllIn, IsRoot, is_spent, load_ends}
use lazywrap.Config.Loader.Circles.{Circle, at_once}
use lazywrap.Config.Loader.Grown.{Has}
use lazywrap.Config.Loader.Sources.{Includes, load_resources_exact}

abbrev root_path : Bytes
root_path = codes "/r"

abbrev other_path : Bytes
other_path = codes "/a"

abbrev app_of : Bytes → AppConfig
app_of launch = record {
  env_files = [];
  pwd = codes "/srv";
  build = [];
  launch = launch;
  stop = [];
  env = [];
  idle = none;
  legacy = record {
    port = pos 0;
    protocol = [];
    path = [];
    host = [];
    listen_port = pos 0;
    include_prefix = false;
    grpc_health = false;
    primary = false;
  };
  endpoints = [];
}

abbrev unset : Duration
unset = record { duration = pos 0; is_set = false }

abbrev root_config : Config
root_config = record {
  port = pos 0;
  idle = unset;
  log_level = [];
  start_timeout = unset;
  stop_timeout = unset;
  start_up = [];
  tear_down = [];
  apps = (codes "web", app_of (codes "./web")) ∷ [];
}

abbrev other_resource : List Bytes → ResourceConfig
other_resource back = record { resources = back; apps = (codes "api", app_of (codes "./api")) ∷ [] }

abbrev disk : List Bytes → Disk
unfolding eq_bytes
disk back = record {
  world = record {
    home = none;
    is_dir = λ _. some true;
    read_file = λ p. some p;
    is_abs = λ _. true;
    join = λ a b. a;
    environ = [];
  };
  abs = λ p. some p;
  eval_symlinks = λ p. if eq_bytes p other_path then some other_path else some root_path;
  dir = λ _. codes "/";
  unmarshal = λ _. some none;
  decode_resource = λ _ _. some (other_resource back);
  decode_config = λ _ _. some (root_config, other_path ∷ []);
}

abbrev result : ResourceLoader
result = record {
  apps = (codes "web", app_of (codes "./web")) ∷ (codes "api", app_of (codes "./api")) ∷ [];
  sources = (codes "web", root_path) ∷ (codes "api", other_path) ∷ [];
}

load_resources_exact_example :
    ((p : Bytes) (r : ResourceConfig)
      → Includes (disk []) true root_path (other_path ∷ []) p r
      → (id : Bytes) (a : AppConfig) → IsIn (id, a) r.apps
      → Has result id a p)
    × ((id : Bytes) (a : AppConfig) (s : Bytes)
        → Has result id a s
        → ((s ≡ root_path) × IsIn (id, a) root_config.apps)
          ⊎ ((r : ResourceConfig) × Includes (disk []) true root_path (other_path ∷ []) s r
              × IsIn (id, a) r.apps))
unfolding load_resources
load_resources_exact_example =
    load_resources_exact 2 (disk []) true root_path root_config (other_path ∷ []) result refl

disk-AllIn : (back : List Bytes) → AllIn (disk back) (root_path ∷ other_path ∷ [])
unfolding eq_bytes
disk-AllIn back p c h = ground (arith, h)

abbrev circle : LoadError
circle = in_resource other_path (circular (root_path ∷ other_path ∷ root_path ∷ []))

abbrev circular_disk : Disk
circular_disk = disk (root_path ∷ [])

load_ends_example :
    ((e : LoadError) → load 2 circular_disk root_path true ≡ failed e → is_spent e ≡ false)
    × ((root : Bytes) (c : Config) (resources : List Bytes)
        → IsRoot circular_disk true root_path root c resources
        → Circle circular_disk true root resources
        → (e : LoadError) × (load 2 circular_disk root_path true ≡ failed e))
load_ends_example =
    load_ends circular_disk true (root_path ∷ other_path ∷ []) (disk-AllIn (root_path ∷ [])) 2
      root_path (omega arith)

-- The files of this disk form a circle, and its error is that of the circle.
disk-Circle : Circle circular_disk true root_path (other_path ∷ [])
unfolding read_resource locate canonical_path expand_home_path trim_space validate_resource_fields
disk-Circle = (
  other_path,
  other_path,
  inl refl,
  refl,
  inl (inr (at_once other_path (other_resource (root_path ∷ [])) root_path refl (inl refl) refl)),
)

load-circle : load 2 circular_disk root_path true ≡ failed circle
unfolding load
load-circle = refl
