-- ===== src/Supervisor/Channels.antt =====
-- Which channel belongs to which goroutine, in every reachable state of a service: each channel is
-- closed once, at most one attempt to start is under way and at most one stop.
mod Locked
pub mod Run
mod Workers
mod Stoppers
use lazywrap.Base.{ℕ, ◌≤◌, ◌<◌, ◌≡◌, ◌⊎◌, Bool, true, false, Option, none, some}
use lazywrap.Supervisor.Machine.{
  State, building, starting, stopping, WorkerPc, runs_build, runs_launch, has_process, probes,
  fails, StopperPc, enters, awaits_worker, reaps, ends, Machine,
}
use lazywrap.Supervisor.Locked.{is_starting_up}

abbrev pub is_active : WorkerPc → Bool
is_active WorkerPc.absent = false
is_active WorkerPc.returns = false
is_active WorkerPc.gone = false
is_active _ = true

-- The state of the service while an attempt stands there, unless it was stopped.
abbrev pub fits : State → WorkerPc → Bool
fits building runs_build = true
fits building (fails _) = true
fits starting runs_launch = true
fits starting (has_process _) = true
fits starting (probes _) = true
fits starting (fails _) = true
fits _ _ = false

abbrev pub is_live : StopperPc → Bool
is_live StopperPc.absent = false
is_live StopperPc.gone = false
is_live _ = true

-- The stop no longer waits for the worker.
abbrev pub is_past : StopperPc → Bool
is_past (reaps _) = true
is_past (ends _) = true
is_past _ = false

-- The channel of the attempt under way is open, and its worker is at work.
abbrev pub IsOpen : Machine → Option ℕ → Type 0
IsOpen m none = ⊥
IsOpen m (some k) = (m.start_closed k ≡ false) × (k < m.attempts) × (is_active (m.workers k) ≡ true)

abbrev pub IsStopping : Machine → Option ℕ → Type 0
IsStopping m none = ⊥
IsStopping m (some j) = is_live (m.stoppers j) ≡ true

pub record Channels (m : Machine) : Type 0 where
  pub start_fresh :
      (k : ℕ)
      → m.attempts ≤ k
      → (m.workers k ≡ WorkerPc.absent) × (m.start_closed k ≡ false) × (m.worker_closed k ≡ false)
  pub stop_fresh :
      (j : ℕ) → m.stops ≤ j → (m.stoppers j ≡ StopperPc.absent) × (m.stop_closed j ≡ false)
  pub start_open : is_starting_up m.state ≡ true → IsOpen m m.start_done
  pub active_current :
      (k : ℕ)
      → is_active (m.workers k) ≡ true
      → (m.worker_done ≡ some k)
        × (is_starting_up m.state ≡ true → m.start_done ≡ some k)
        × ((fits m.state (m.workers k) ≡ true) ⊎ (m.state ≡ stopping))
  pub worker_gone : (k : ℕ) → m.worker_closed k ≡ true → m.workers k ≡ WorkerPc.gone
  pub live_current :
      (j : ℕ)
      → is_live (m.stoppers j) ≡ true
      → (m.stop_done ≡ some j) × (m.state ≡ stopping) × (m.stop_closed j ≡ false)
  pub stop_live : m.state ≡ stopping → IsStopping m m.stop_done
  pub awaits_current : (j : ℕ) (w : Option ℕ) → m.stoppers j ≡ awaits_worker w → w ≡ m.worker_done
  pub past_worker : (j k : ℕ) → is_past (m.stoppers j) ≡ true → is_active (m.workers k) ≡ false
  pub start_waited :
      (k : ℕ)
      → k < m.attempts
      → m.start_closed k ≡ false
      → (m.start_done ≡ some k) × (is_starting_up m.state ≡ true)
  pub stop_waited :
      (j : ℕ)
      → j < m.stops
      → m.stop_closed j ≡ false
      → (m.stop_done ≡ some j) × (m.state ≡ stopping)
