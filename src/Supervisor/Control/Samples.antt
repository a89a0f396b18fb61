-- ===== src/Supervisor/Control/Samples.antt =====
-- Tests of the supervisor: two services, one of which is started before all are stopped.
use lazywrap.Base.{◌≡◌, refl, codes, eq_bytes, false, List, [], ◌∷◌, Option, none, some}
use lazywrap.Supervisor.Machine.{closing, stopped, building, new_service}
use lazywrap.Supervisor.Locked.{Round, acquire_locked, stop_in}
use lazywrap.Supervisor.Run.{acquires, allows, stops_service, step}
use lazywrap.Supervisor.Ready.Samples.{app}
use lazywrap.Supervisor.Control.{
  Service, Supervisor, acquire, begin_stop_all, Control, acquires_service, on, run_controls,
  snapshots, Snapshot,
}
use lazywrap.Supervisor.Control.Closing.{AreClosed, begin_stop_all_final}

abbrev idle_service : Service
unfolding new_service
idle_service = record { cfg = app []; machine = new_service }

abbrev two : Supervisor
unfolding new_service
two = record {
  services = (codes "web", idle_service) ∷ (codes "api", idle_service) ∷ [];
  closes = false;
}

abbrev started : Supervisor
unfolding acquire acquire_locked
started = (acquire (codes "web") two).1

abbrev later : List Control
later =
    on (codes "web") stops_service
    ∷ on (codes "api") allows
    ∷ on (codes "api") acquires
    ∷ acquires_service (codes "api")
    ∷ []

abbrev or_itself : Option Supervisor → Supervisor
or_itself none = two
or_itself (some s) = s

abbrev last : Supervisor
unfolding run_controls begin_stop_all
last = or_itself (run_controls later (begin_stop_all started))

abbrev shown : Snapshot
shown = record { state = stopped; pid = none; restarts = 0; manual_stopped = false }

snapshots_two :
    snapshots started ≡ (codes "api", shown) ∷ (codes "web", record shown { state = building }) ∷ []
unfolding started snapshots acquire acquire_locked new_service
snapshots_two = refl

begin_stop_all_final_example :
    AreClosed started.services last.services
    × ((acquire (codes "api") last).0 ≡ Round.refuses closing)
unfolding started last run_controls begin_stop_all acquire acquire_locked step new_service eq_bytes
    stop_in
begin_stop_all_final_example = begin_stop_all_final later started last (codes "api") refl
