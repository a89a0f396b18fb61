-- ===== src/Supervisor/Control.antt =====
-- internal/supervisor/supervisor.go and internal/supervisor/inspection.go: the services of a
-- configuration under one supervisor.
--
-- The map of services is an association list. A step is one section of the supervisor or one step of
-- a service; `StopAll` is its first two lines here, and the `Stop` of each service, in any order,
-- are steps of the services.
pub mod Closing
mod Samples
use lazywrap.Base.{
  ℕ, ◌-◌, ◌≡◌, refl, inl, inr, Bytes, eq_bytes, bytes_eq, lookup, Bool, true, false, List, [], ◌∷◌,
  Option, none, some, if◌then◌else◌, map, arith, Option-cases, Bool-cases,
}
use lazywrap.Config.Types.{RuntimeAppConfig, RuntimeConfig}
use lazywrap.Config.Listing.{sort_named}
use lazywrap.Supervisor.Machine.{State, Failure, closing, unknown_service, Machine, new_service}
use lazywrap.Supervisor.Locked.{Round, acquire_locked}
use lazywrap.Supervisor.Run.{Event, step}

pub record Service : Type 0 where
  pub cfg : RuntimeAppConfig
  pub machine : Machine

pub record Supervisor : Type 0 where
  pub services : List (Bytes × Service)
  pub closes : Bool

-- `New`
unfoldable pub new_services : List (Bytes × RuntimeAppConfig) → List (Bytes × Service)
unfolding new_service
new_services [] = []
new_services ((id, a) ∷ apps) = (id, record { cfg = a; machine = new_service }) ∷ new_services apps

unfoldable pub new_supervisor : RuntimeConfig → Supervisor
unfolding new_services
new_supervisor c = record { services = new_services c.apps; closes = false }

-- The services with a change of one of them; `none` is a panic of its step.
unfoldable pub change :
    Bytes → (Service → Option Service) → List (Bytes × Service) → Option (List (Bytes × Service))
unfolding eq_bytes
change id f [] = some []
change id f ((j, v) ∷ services) =
    if eq_bytes j id
    then elim (f v) [ none ↦ none | some v' ↦ some ((j, v') ∷ services) ]
    else elim (change id f services) [ none ↦ none | some rest ↦ some ((j, v) ∷ rest) ]

-- `v.Acquire` up to its first wait, on the map of services.
unfoldable pub acquire_in_map : Bytes → List (Bytes × Service) → Round × List (Bytes × Service)
unfolding acquire_locked eq_bytes
acquire_in_map id [] = (Round.refuses unknown_service, [])
acquire_in_map id ((j, v) ∷ services) =
    let (round, rest) = acquire_in_map id services in
    let (own, m) = acquire_locked v.machine in
    if eq_bytes j id
    then (own, (j, record v { machine = m }) ∷ services)
    else (round, (j, v) ∷ rest)

-- `Supervisor.Acquire`
unfoldable pub acquire : Bytes → Supervisor → Round × Supervisor
unfolding acquire_in_map
acquire id s =
    let (round, services) = acquire_in_map id s.services in
    if s.closes then (Round.refuses closing, s) else (round, record s { services = services })

-- `s.cancel()`: the context of every service is done.
unfoldable pub cancel_all : List (Bytes × Service) → List (Bytes × Service)
cancel_all [] = []
cancel_all ((id, v) ∷ services) =
    (id, record v { machine = record v.machine { lifecycle_done = true } }) ∷ cancel_all services

-- The first two lines of `StopAll`.
unfoldable pub begin_stop_all : Supervisor → Supervisor
unfolding cancel_all
begin_stop_all s = record { services = cancel_all s.services; closes = true }

pub record Snapshot : Type 0 where
  pub state : State
  pub pid : Option ℕ
  pub restarts : ℕ
  pub manual_stopped : Bool

-- The launch of a service that has not ended.
abbrev pub live : Option ℕ → (ℕ → Bool) → Option ℕ
live none exited = none
live (some p) exited = if exited p then none else some p

unfoldable pub snapshot : Service → Snapshot
snapshot v = record {
  state = v.machine.state;
  pid = live v.machine.process v.machine.exited;
  restarts = v.machine.starts - 1;
  manual_stopped = v.machine.manual_stopped;
}

-- `Snapshots`
unfoldable pub snapshots : Supervisor → List (Bytes × Snapshot)
unfolding snapshot sort_named
snapshots s = sort_named (map (λ p. (p.0, snapshot p.1)) s.services)

-- A section of the supervisor, or a step of a service.
pub data Control : Type 0 where
  acquires_service : Bytes → Control
  begins_stop_all : Control
  on : Bytes → Event → Control

abbrev pub step_service : Event → Service → Option Service
unfolding step
step_service e v = elim (step v.cfg e v.machine) [
  | none ↦ none
  | some m ↦ some (record v { machine = m })
]

unfoldable pub control : Control → Supervisor → Option Supervisor
unfolding acquire begin_stop_all change step
control (acquires_service id) s = some (acquire id s).1
control begins_stop_all s = some (begin_stop_all s)
control (on id e) s = elim (change id (step_service e) s.services) [
  | none ↦ none
  | some services ↦ some (record s { services = services })
]

unfoldable pub run_controls : List Control → Supervisor → Option Supervisor
unfolding control
run_controls [] s = some s
run_controls (c ∷ cs) s = elim (control c s) [ none ↦ none | some s' ↦ run_controls cs s' ]
