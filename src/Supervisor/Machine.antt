-- ===== src/Supervisor/Machine.antt =====
-- internal/supervisor/service.go, state.go: the state of one service, with the goroutines that
-- work on it.
--
-- A channel or context is named by the number of the `make` that made it: attempt `k` to start has
-- the channels `startDone` and `workerDone` and the context of number `k`, and stop `j` has the
-- channel `stopDone` of number `j`. What Go keeps in a channel is whether it is closed.
use lazywrap.Base.{ℕ, Bool, false, Option, none, ◌==◌, if◌then◌else◌, ◌%◌, ◌^◌}

pub data State : Type 0 where
  stopped building starting running stopping failed : State

-- An error; `outside e` is the error `e` of the runner, of a context or of the network.
pub data Failure : Type 0 where
  closing unknown_service unknown_action kill_unavailable : Failure
  launch_exited_early exited_unexpectedly : Failure
  outside : ℕ → Failure
  build_failed launch_failed launch_exited readiness_timeout service_exited stop_failed :
      ℕ → Failure

-- Where the goroutine `start` of an attempt stands.
pub data WorkerPc : Type 0 where
  absent : WorkerPc
  runs_build : WorkerPc  -- before the build command returns
  runs_launch : WorkerPc  -- before `runner.Start` returns
  has_process : ℕ → WorkerPc  -- `runner.Start` returned this process
  probes : ℕ → WorkerPc  -- in `ready`
  fails : Failure → WorkerPc  -- before the lock of `fail`
  returns : WorkerPc  -- before the deferred `close(workerDone)`
  gone : WorkerPc

-- Where the goroutine `stop` of a stop stands.
pub data StopperPc : Type 0 where
  absent : StopperPc
  enters : StopperPc
  awaits_worker : Option ℕ → StopperPc  -- in `<-workerDone`, unless nil
  reaps : Option ℕ → StopperPc  -- stops the process that it read
  ends : Option ℕ → StopperPc  -- before the last lock, with the error of the stop command
  gone : StopperPc

abbrev pub update {ℓ} : {A : Type ℓ} → (ℕ → A) → ℕ → A → ℕ → A
update f i a j = if i == j then a else f j

-- uint64
abbrev pub u64 : ℕ → ℕ
u64 n = n % 2 ^ 64

pub record Machine : Type 0 where
  -- the fields of `Service`
  pub lifecycle_done : Bool
  pub state : State
  pub process : Option ℕ
  pub active_requests : ℕ
  pub idle_timer : Option ℕ  -- the generation that its function was given
  pub start_done : Option ℕ
  pub start_err : Option Failure
  pub stop_done : Option ℕ
  pub stop_err : Option ℕ
  pub generation : ℕ
  pub start_cancel : Option ℕ
  pub worker_done : Option ℕ
  pub starts : ℕ
  pub manual_stopped : Bool
  -- what has been made, and the state of each
  pub attempts : ℕ
  pub start_closed : ℕ → Bool
  pub worker_closed : ℕ → Bool
  pub cancelled : ℕ → Bool
  pub workers : ℕ → WorkerPc
  pub stops : ℕ
  pub stop_closed : ℕ → Bool
  pub stoppers : ℕ → StopperPc
  pub launches : ℕ
  pub signalled : ℕ → Bool  -- `Terminate` or `Kill` was called
  pub exited : ℕ → Bool  -- `p.Done` is closed
  pub watched : ℕ → Bool  -- a goroutine `watch` waits for it
  pub granted : ℕ  -- the release functions made by `Acquire`
  pub released : ℕ → Bool  -- the `sync.Once` of each

-- `newService`
unfoldable pub new_service : Machine
new_service = record {
  lifecycle_done = false;
  state = stopped;
  process = none;
  active_requests = 0;
  idle_timer = none;
  start_done = none;
  start_err = none;
  stop_done = none;
  stop_err = none;
  generation = 0;
  start_cancel = none;
  worker_done = none;
  starts = 0;
  manual_stopped = false;
  attempts = 0;
  start_closed = λ _. false;
  worker_closed = λ _. false;
  cancelled = λ _. false;
  workers = λ _. WorkerPc.absent;
  stops = 0;
  stop_closed = λ _. false;
  stoppers = λ _. StopperPc.absent;
  launches = 0;
  signalled = λ _. false;
  exited = λ _. false;
  watched = λ _. false;
  granted = 0;
  released = λ _. false;
}
