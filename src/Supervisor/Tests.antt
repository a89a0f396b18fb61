-- ===== src/Supervisor/Tests.antt =====
-- Lives of one service, and the theorems of this part at concrete inputs.
use lazywrap.Base.{
  ℕ, ◌<◌, ◌≡◌, ◌≢◌, inl, refl, true, false, List, [], ◌∷◌, ◌++◌, none, some, pos, codes, arith,
}
use lazywrap.Config.Types.{RuntimeAppConfig}
use lazywrap.Supervisor.Machine.{running, stopped, stopping, Machine, new_service}
use lazywrap.Supervisor.Locked.{acquire_locked, release, idle, stop_in}
use lazywrap.Supervisor.Goroutines.{succeeds, reaped, work, quit}
use lazywrap.Supervisor.Run.{
  Event, acquires, releases, idles, stops_service, works, quits, exits, inhibits, inhibit, step,
  run,
}
use lazywrap.Supervisor.Channels.{is_active, is_live}
use lazywrap.Supervisor.Channels.Run.{run-ne-none, start_waited_for, stop_waited_for}
use lazywrap.Supervisor.Processes.{is_over}
use lazywrap.Supervisor.Processes.Run.{alive_unique, stopped_leaves_none}
use lazywrap.Supervisor.Leases.{outstanding, run-Leases}
use lazywrap.Supervisor.Idling.{state_of, idle_stops, idle_in_use}
use lazywrap.Supervisor.Inhibit.{inhibited_no_attempts}

abbrev web : RuntimeAppConfig
web = record {
  id = codes "web";
  pwd = codes "/srv";
  build = [];
  launch = codes "./web";
  stop = [];
  protocol = codes "http";
  path = [];
  host = codes "web.localhost";
  source = [];
  env = [];
  listen_port = pos 0;
  port = pos 8080;
  idle = pos 300;
  start_timeout = pos 30;
  stop_timeout = pos 10;
  include_prefix = false;
  grpc_health = false;
  endpoints = [];
}

-- A lazy start.
abbrev starts_up : List Event
starts_up =
    acquires
    ∷ works 0 succeeds
    ∷ works 0 succeeds
    ∷ works 0 succeeds
    ∷ works 0 succeeds
    ∷ works 0 succeeds
    ∷ []

-- A request, and an idle shutdown after it.
abbrev serves : List Event
serves = starts_up ++ (acquires ∷ releases 0 ∷ idles 3 ∷ [])

abbrev shuts : List Event
shuts =
    serves
    ++ (quits 0 succeeds
        ∷ quits 0 succeeds
        ∷ exits 0
        ∷ quits 0 (reaped none false)
        ∷ quits 0 succeeds
        ∷ [])

starts_up_runs : state_of (run web starts_up new_service) ≡ some running
unfolding run step work acquire_locked new_service
starts_up_runs = refl

serves_stops : state_of (run web serves new_service) ≡ some stopping
unfolding run step work acquire_locked new_service release idle
serves_stops = refl

shuts_stopped : state_of (run web shuts new_service) ≡ some stopped
unfolding run step work acquire_locked new_service release idle quit
shuts_stopped = refl

-- A second start after the first life.
abbrev restarts : List Event
restarts =
    shuts
    ++ (acquires ∷ works 1 succeeds ∷ works 1 succeeds ∷ works 1 succeeds ∷ works 1 succeeds ∷ [])

-- The state after these events.
abbrev after : List Event → Machine
after es = elim (run web es new_service) [ none ↦ new_service | some m ↦ m ]

abbrev none_yet : ℕ
none_yet = 0

first : 0 < 1
first = omega arith

second : 1 < 2
second = omega arith

run-ne-none_example : run web shuts new_service ≢ none
run-ne-none_example = run-ne-none web shuts

abbrev one : ℕ
one = 1

alive_unique_example : one ≡ one
unfolding run step work acquire_locked new_service release idle quit
alive_unique_example = alive_unique web restarts (after restarts) refl 1 1 second second refl refl

stopped_leaves_none_example : is_over (after shuts) 0 ≡ true
unfolding run step work acquire_locked new_service release idle quit
stopped_leaves_none_example = stopped_leaves_none web shuts (after shuts) refl (inl refl) 0 first

start_waited_for_example :
    ((after (acquires ∷ [])).start_done ≡ some 0)
    × (is_active ((after (acquires ∷ [])).workers 0) ≡ true)
unfolding run step work acquire_locked new_service
start_waited_for_example =
    start_waited_for web (acquires ∷ []) (after (acquires ∷ [])) refl 0 first refl

stop_waited_for_example :
    ((after serves).stop_done ≡ some 0) × (is_live ((after serves).stoppers 0) ≡ true)
unfolding run step work acquire_locked new_service release idle
stop_waited_for_example = stop_waited_for web serves (after serves) refl 0 first refl

run-Leases_example :
    (after serves).active_requests ≡ outstanding (after serves).granted (after serves).released
unfolding run step work acquire_locked new_service release idle
run-Leases_example = run-Leases web serves (after serves) refl

idle_stops_example :
    (g : ℕ) × ((after starts_up).idle_timer ≡ some g)
    × (state_of (idle g (after starts_up)) ≡ some stopping)
unfolding run step work acquire_locked new_service
idle_stops_example = idle_stops web starts_up (after starts_up) refl refl refl (λ e. cc)

-- A request has its lease, and a second one has given its lease back.
abbrev in_use : List Event
in_use = starts_up ++ (acquires ∷ acquires ∷ releases 1 ∷ [])

idle_in_use_example : idle 2 (after in_use) ≡ some (after in_use)
unfolding run step work acquire_locked new_service release
idle_in_use_example = idle_in_use web in_use (after in_use) refl 0 (omega arith) refl 2

-- Stopped by hand; a request and another stop follow.
abbrev held : List Event
held = shuts ++ inhibits false ∷ []

abbrev knocks : List Event
knocks = acquires ∷ stops_service ∷ []

inhibited_no_attempts_example : (after (held ++ knocks)).attempts ≡ (after held).attempts
unfolding run step work acquire_locked new_service release idle quit inhibit stop_in
inhibited_no_attempts_example =
    inhibited_no_attempts web knocks (after held) (after (held ++ knocks)) (inl refl)
      ((λ e. cc), ((λ e. cc), tt)) refl
