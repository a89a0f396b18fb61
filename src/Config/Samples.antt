-- ===== src/Config/Samples.antt =====
-- A configuration of two apps, and the theorems on configurations at it.
use lazywrap.Base.{
  ◌≡◌, refl, ◌⊎◌, inl, inr, Bytes, codes, true, false, List, [], ◌∷◌, none, some, pos,
}
use lazywrap.Config.Types.{RuntimeEndpointConfig, RuntimeConfig}
use lazywrap.Config.Endpoint.{EndpointConfig, AppConfig, app_endpoint_inputs, has_routing}
use lazywrap.Config.Endpoint.Claims.{IsSound}
use lazywrap.Config.Endpoint.Primary.{count_primary, app_endpoint_inputs-primary}
use lazywrap.Config.Normalize.{World, Duration, Config, Outcome, done, refused, normalize}
use lazywrap.Config.Normalize.Owns.{NoShare}
use lazywrap.Config.Normalize.Apart.{normalize-NoShare}

abbrev pub machine : World
machine = record {
  home = some (codes "/root");
  is_dir = λ _. some true;
  read_file = λ _. none;
  is_abs = λ _. true;
  join = λ a b. a;
  environ = [];
}

abbrev pub unset : Duration
unset = record { duration = pos 0; is_set = false }

abbrev pub no_routing : EndpointConfig
no_routing = record {
  port = pos 0;
  protocol = [];
  path = [];
  host = [];
  listen_port = pos 0;
  include_prefix = false;
  grpc_health = false;
  primary = false;
}

abbrev pub web_app : AppConfig
web_app = record {
  env_files = [];
  pwd = codes "/srv";
  build = [];
  launch = codes "./web";
  stop = [];
  env = [];
  idle = none;
  legacy = no_routing;
  endpoints =
      (codes "Api", record no_routing { port = pos 8081; primary = true })
      ∷ (
        codes "db",
        record no_routing { port = pos 8082; listen_port = pos 5432; protocol = codes "TCP" },
      )
      ∷ [];
}

abbrev pub sample : Config
sample = record {
  port = pos 0;
  idle = unset;
  log_level = [];
  start_timeout = unset;
  stop_timeout = unset;
  start_up = [];
  tear_down = [];
  apps = (codes "web", web_app) ∷ [];
}

abbrev pub nothing : RuntimeConfig
nothing = record {
  port = pos 0;
  log_level = [];
  start_timeout = pos 0;
  stop_timeout = pos 0;
  start_up = [];
  tear_down = [];
  apps = [];
}

abbrev pub result_of : Outcome RuntimeConfig → RuntimeConfig
result_of (done r) = r
result_of (refused e) = nothing

abbrev pub sample_result : RuntimeConfig
sample_result = result_of (normalize machine sample)

abbrev pub api_endpoint : RuntimeEndpointConfig
api_endpoint = record {
  name = codes "api";
  protocol = codes "http";
  path = [];
  host = codes "web.localhost";
  aliases = codes "api.web.localhost" ∷ [];
  listen_port = pos 0;
  port = pos 8081;
  include_prefix = false;
  grpc_health = false;
  primary = true;
}

abbrev db_endpoint : RuntimeEndpointConfig
db_endpoint = record {
  name = codes "db";
  protocol = codes "tcp";
  path = [];
  host = [];
  aliases = [];
  listen_port = pos 5432;
  port = pos 8082;
  include_prefix = false;
  grpc_health = false;
  primary = false;
}

normalize-NoShare_example :
    ((◌≡◌ {A = Bytes × Bytes} (codes "web", codes "api") (codes "web", codes "db"))
      ⊎ NoShare api_endpoint db_endpoint)
    × IsSound sample_result.port api_endpoint
unfolding normalize
normalize-NoShare_example =
    normalize-NoShare machine sample sample_result refl (codes "web", codes "api")
      (codes "web", codes "db") api_endpoint db_endpoint (_, inl refl, inl refl)
      (_, inl refl, inr (inl refl))

abbrev web_inputs : List (Bytes × EndpointConfig)
web_inputs =
    (codes "api", record no_routing { port = pos 8081; primary = true })
    ∷ (
      codes "db",
      record no_routing { port = pos 8082; listen_port = pos 5432; protocol = codes "TCP" },
    )
    ∷ []

app_endpoint_inputs-primary_example :
    (count_primary web_inputs ≡ 1)
    ⊎ ((web_inputs ≡ [])
        × (web_app.endpoints ≡ [])
        × (web_app.legacy.port ≡ pos 0)
        × (has_routing web_app.legacy ≡ false))
unfolding app_endpoint_inputs
app_endpoint_inputs-primary_example =
    app_endpoint_inputs-primary (codes "web") web_app web_inputs refl
