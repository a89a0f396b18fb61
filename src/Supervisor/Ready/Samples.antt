-- ===== src/Supervisor/Ready/Samples.antt =====
-- Tests of the wait for the endpoints.
use lazywrap.Base.{
  some, Option, ◌&&◌, if◌then◌else◌, eq_bytes, eq_ℤ, ◌≡◌, ◌↔◌, refl, Bytes, codes, Bool, true,
  false, pos, List, [], ◌∷◌, none,
}
use lazywrap.Config.Types.{RuntimeEndpointConfig, RuntimeAppConfig}
use lazywrap.Config.Listing.{endpoint_list}
use lazywrap.Supervisor.Ready.{
  Address, serving, not_serving, no_client, Event, exits, expires, ticks, Turn, exited_early,
  timed_out, reached, failed, ready,
}
use lazywrap.Supervisor.Ready.Exact.{ReachesAll, ready_exact}

abbrev endpoint : Bytes → Bool → RuntimeEndpointConfig
endpoint name grpc = record {
  name = name;
  protocol = codes "http";
  path = [];
  host = codes "web.test";
  aliases = [];
  listen_port = pos 0;
  port = pos 9000;
  include_prefix = false;
  grpc_health = grpc;
  primary = false;
}

abbrev pub app : Bytes → RuntimeAppConfig
app stop = record {
  id = codes "web";
  pwd = [];
  build = [];
  launch = codes "./web";
  stop = stop;
  protocol = [];
  path = [];
  host = [];
  source = [];
  env = [];
  listen_port = pos 0;
  port = pos 0;
  idle = pos 0;
  start_timeout = pos 1;
  stop_timeout = pos 1;
  include_prefix = false;
  grpc_health = false;
  endpoints =
      (codes "api", endpoint (codes "api") false) ∷ (codes "rpc", endpoint (codes "rpc") true) ∷ [];
}

abbrev turn : Bool → Bool → Event → Turn
unfolding eq_bytes
turn dials serves event = record {
  dials = λ a. dials && eq_bytes a.host (codes "127.0.0.1") && eq_ℤ a.port (pos 9000);
  checks = λ a. if serves && eq_ℤ a.port (pos 9000) then some serving else some not_serving;
  next = event;
}

abbrev makes_client : Address → Option Bytes
makes_client a = none

-- The port answers before the health check does; the launch ends in between.
abbrev turns : List Turn
turns =
    turn false false ticks
    ∷ turn true false ticks
    ∷ turn true false exits
    ∷ turn true true ticks
    ∷ []

ready_detached : ready (app (codes "./stop")) none makes_client turns ≡ reached []
unfolding ready turn eq_bytes
ready_detached = refl

ready_early : ready (app []) none makes_client turns ≡ failed (codes "rpc", exited_early)
unfolding ready turn eq_bytes
ready_early = refl

ready_clientless :
    ready (app []) none (λ a. some (codes "bad")) turns
    ≡ failed (codes "rpc", no_client (codes "bad"))
unfolding ready turn eq_bytes
ready_clientless = refl

ready_late :
    ready (app []) none makes_client (turn false true expires ∷ turns)
    ≡ failed (codes "api", timed_out)
unfolding ready turn eq_bytes
ready_late = refl

ready_exact_example :
    (ready (app (codes "./stop")) none makes_client turns ≡ reached [])
    ↔ ReachesAll true none makes_client (endpoint_list (app (codes "./stop"))) turns []
ready_exact_example = ready_exact (app (codes "./stop")) none makes_client turns []
