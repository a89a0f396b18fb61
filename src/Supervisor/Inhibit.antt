-- ===== src/Supervisor/Inhibit.antt =====
-- A manual stop, and the shutdown of the supervisor, keep lazy starts away.
use lazywrap.Base.{ℕ, ◌≡◌, ◌≢◌, refl, ◌⊎◌, inl, inr, true, List, [], ◌∷◌, some, arith, Option-cases}
use lazywrap.Config.Types.{RuntimeAppConfig}
use lazywrap.Supervisor.Machine.{StopperPc, enters, WorkerPc, runs_build, Machine}
use lazywrap.Supervisor.Locked.{begin_stop_locked, acquire_locked, release, idle, stop_in, fail}
use lazywrap.Supervisor.Goroutines.{Report, work, quit}
use lazywrap.Supervisor.Run.{Event, acquires, works, quits, allows, step, inhibit, wake_watch, run}

-- No `Start` or `Restart` of a user among the events.
abbrev pub NeverAllowed : List Event → Type 0
NeverAllowed [] = Unit
NeverAllowed (e ∷ es) = (e ≢ allows) × NeverAllowed es

-- Lazy starts are refused, and `n` attempts were made before.
abbrev Inhibited : ℕ → Machine → Type 0
Inhibited n m = ((m.manual_stopped ≡ true) ⊎ (m.lifecycle_done ≡ true)) × (m.attempts ≡ n)

abbrev SameInhibited : Machine → Machine → Type 0
SameInhibited m m' =
    (m'.manual_stopped ≡ m.manual_stopped)
    × (m'.lifecycle_done ≡ m.lifecycle_done)
    × (m'.attempts ≡ m.attempts)

module _ (cfg : RuntimeAppConfig) (m m' : Machine) where
  work-SameInhibited :
      (k : ℕ) (pc : WorkerPc) (r : Report) → work pc cfg k r m ≡ some m' → SameInhibited m m'
  unfolding work fail
  work-SameInhibited k runs_build r h = ground arith
  work-SameInhibited k _ r h = ground arith

  quit-SameInhibited :
      (j : ℕ) (pc : StopperPc) (r : Report) → quit pc cfg j r m ≡ some m' → SameInhibited m m'
  unfolding quit
  quit-SameInhibited j enters r h = ground arith
  quit-SameInhibited j _ r h = ground arith

  step-Inhibited :
      (n : ℕ) (e : Event) → e ≢ allows → Inhibited n m → step cfg e m ≡ some m' → Inhibited n m'
  unfolding step acquire_locked release idle begin_stop_locked stop_in inhibit wake_watch
  step-Inhibited n acquires ne v h = ground arith
  step-Inhibited n (works k r) ne v h = ground (arith, work-SameInhibited k (m.workers k) r h)
  step-Inhibited n (quits j r) ne v h = ground (arith, quit-SameInhibited j (m.stoppers j) r h)
  step-Inhibited n _ ne v h = ground arith

  -- A service whose context is done makes no attempt at any step, a `Start` by hand included.
  pub step-closed :
      (e : Event)
      → m.lifecycle_done ≡ true
      → step cfg e m ≡ some m'
      → (m'.lifecycle_done ≡ true) × (m'.attempts ≡ m.attempts)
  unfolding step acquire_locked release idle begin_stop_locked stop_in inhibit wake_watch
  step-closed acquires v h = ground arith
  step-closed (works k r) v h = ground (arith, work-SameInhibited k (m.workers k) r h)
  step-closed (quits j r) v h = ground (arith, quit-SameInhibited j (m.stoppers j) r h)
  step-closed _ v h = ground arith

run-Inhibited :
    (cfg : RuntimeAppConfig) (n : ℕ) (es : List Event) (m m' : Machine)
    → NeverAllowed es
    → Inhibited n m
    → run cfg es m ≡ some m'
    → Inhibited n m'
unfolding run
run-Inhibited cfg n [] m m' never v h = ground arith
run-Inhibited cfg n (e ∷ es) m m' (ne, never) v h = elim (Option-cases (step cfg e m)) [
  | inl x ↦ cc
  | inr (k, x) ↦ run-Inhibited cfg n es k m' never (step-Inhibited cfg m k n e ne v x) (rw x at h)
]

-- Once a service is stopped by hand or its supervisor shuts down, no events but a `Start` or
-- `Restart` by hand lead to another attempt to start it.
pub inhibited_no_attempts :
    (cfg : RuntimeAppConfig) (es : List Event) (m m' : Machine)
    → (m.manual_stopped ≡ true) ⊎ (m.lifecycle_done ≡ true)
    → NeverAllowed es
    → run cfg es m ≡ some m'
    → m'.attempts ≡ m.attempts
inhibited_no_attempts cfg es m m' i never h =
    (run-Inhibited cfg m.attempts es m m' never (i, refl) h).1
