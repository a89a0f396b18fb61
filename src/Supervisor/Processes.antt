-- ===== src/Supervisor/Processes.antt =====
-- No launched process is forgotten: each is the process of the service, is in the hand of the
-- attempt that launched it, was told to end, or has ended.
mod Workers
mod Stoppers
pub mod Run
use lazywrap.Base.{ℕ, ◌<◌, ◌≡◌, ◌⊎◌, Bool, true, false, ◌||◌, Option, none, some}
use lazywrap.Supervisor.Machine.{
  State, stopped, building, failed, WorkerPc, runs_build, runs_launch, has_process, probes, fails,
  StopperPc, reaps, ends, Machine,
}

-- `Terminate` or `Kill` was called, or the process is done.
abbrev pub is_over : Machine → ℕ → Bool
is_over m p = m.signalled p || m.exited p

-- A service in this state has no process.
abbrev pub is_settled : State → Bool
is_settled stopped = true
is_settled failed = true
is_settled building = true
is_settled _ = false

abbrev pub IsOver : Machine → Option ℕ → Type 0
IsOver m none = Unit
IsOver m (some p) = is_over m p ≡ true

-- What a worker at `pc` knows of the process of the service.
abbrev pub Holds : Machine → WorkerPc → Type 0
Holds m runs_build = m.process ≡ none
Holds m runs_launch = m.process ≡ none
Holds m (has_process p) = (m.process ≡ none) × (p < m.launches)
Holds m (probes p) = m.process ≡ some p
Holds m (fails e) = IsOver m m.process
Holds m _ = Unit

-- What a stop at `pc` knows of it.
abbrev pub Sees : Machine → StopperPc → Type 0
Sees m (reaps p) = p ≡ m.process
Sees m (ends e) = IsOver m m.process
Sees m _ = Unit

-- The worker of the latest attempt has this process, which is not yet the service's.
abbrev pub InHand : Machine → Option ℕ → ℕ → Type 0
InHand m none p = ⊥
InHand m (some k) p = m.workers k ≡ has_process p

abbrev pub IsKept : Machine → ℕ → Type 0
IsKept m p = (is_over m p ≡ true) ⊎ (m.process ≡ some p) ⊎ InHand m m.worker_done p

pub record Processes (m : Machine) : Type 0 where
  pub known : (p : ℕ) → m.process ≡ some p → p < m.launches
  pub settled : is_settled m.state ≡ true → m.process ≡ none
  pub in_worker : (k : ℕ) → Holds m (m.workers k)
  pub in_stopper : (j : ℕ) → Sees m (m.stoppers j)
  pub kept : (p : ℕ) → p < m.launches → IsKept m p
