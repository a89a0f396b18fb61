-- ===== src/Supervisor/Idling.antt =====
-- The idle timer: a running service without requests always has one that can stop it.
use lazywrap.Base.{
  ℕ, ◌≡◌, ◌≢◌, ◌<◌, refl, true, false, List, Option, none, some, arith, pos, eq_ℤ, eq_ℤ_iff,
}
use lazywrap.Config.Types.{RuntimeAppConfig}
use lazywrap.Supervisor.Machine.{
  State, running, stopping, StopperPc, enters, WorkerPc, runs_build, Machine, new_service,
}
use lazywrap.Supervisor.Locked.{
  is_running, begin_stop_locked, acquire_locked, release, idle, stop_in, fail,
}
use lazywrap.Supervisor.Leases.{outstanding-lt, run-Leases}
use lazywrap.Supervisor.Channels.{Channels}
use lazywrap.Supervisor.Channels.Run.{new_service-Channels, Channels-next, run-Channels}
use lazywrap.Supervisor.Goroutines.{Report, work, quit}
use lazywrap.Supervisor.Run.{
  Event, acquires, works, quits, inhibit, wake_watch, step, run, run-Next,
}

pub record Idling (cfg : RuntimeAppConfig) (m : Machine) : Type 0 where
  pub armed :
      is_running m.state ≡ true
      → m.active_requests ≡ 0
      → eq_ℤ cfg.idle (pos 0) ≡ false
      → m.idle_timer ≡ some m.generation
  pub current : (g : ℕ) → m.idle_timer ≡ some g → (g ≡ m.generation) × (is_running m.state ≡ true)

module _ (cfg : RuntimeAppConfig) (m m' : Machine) (c : Channels m) (v : Idling cfg m) where
  quit-Idling :
      (j : ℕ) (pc : StopperPc) (r : Report)
      → m.stoppers j ≡ pc
      → quit pc cfg j r m ≡ some m'
      → Idling cfg m'
  unfolding quit
  quit-Idling j enters r at h = record {
    armed = ground (arith, v.armed);
    current = λ g e. ground (arith, v.current g, c.live_current j);
  }
  quit-Idling j _ r at h = record {
    armed = ground (arith, v.armed);
    current = λ g e. ground (arith, v.current g, c.live_current j);
  }

  work-Idling : (k : ℕ) (pc : WorkerPc) (r : Report) → work pc cfg k r m ≡ some m' → Idling cfg m'
  unfolding work fail
  work-Idling k runs_build r h = record {
    armed = ground (arith, v.armed);
    current = λ g e. ground (arith, v.current g);
  }
  work-Idling k _ r h = record {
    armed = ground (arith, v.armed);
    current = λ g e. ground (arith, v.current g);
  }

  step-Idling : (e : Event) → step cfg e m ≡ some m' → Idling cfg m'
  unfolding step acquire_locked release idle begin_stop_locked stop_in inhibit wake_watch
  step-Idling acquires h = record {
    armed = ground (arith, v.armed);
    current = λ g e. ground (arith, v.current g);
  }
  step-Idling (works k r) h = work-Idling k (m.workers k) r h
  step-Idling (quits j r) h = quit-Idling j (m.stoppers j) r refl h
  step-Idling _ h = record {
    armed = ground (arith, v.armed);
    current = λ g e. ground (arith, v.current g);
  }

new_service-Idling : (cfg : RuntimeAppConfig) → Idling cfg new_service
unfolding new_service
new_service-Idling cfg = record { armed = λ h. cc; current = λ g e. cc }

run-Idling :
    (cfg : RuntimeAppConfig) (es : List Event) (m : Machine)
    → run cfg es new_service ≡ some m
    → Idling cfg m
run-Idling cfg es m h =
    (run-Next (λ m. Channels m × Idling cfg m) cfg
      (λ e m m' (c, v) s. (Channels-next cfg e m m' c s, step-Idling cfg m m' c v e s)) es
      new_service m (new_service-Channels, new_service-Idling cfg) h).1

abbrev pub state_of : Option Machine → Option State
state_of none = none
state_of (some m) = some m.state

-- In every reachable state where the service runs without requests and its idle timeout is not 0,
-- an idle timer is set, and the function of that timer begins a stop.
pub idle_stops :
    (cfg : RuntimeAppConfig) (es : List Event) (m : Machine)
    → run cfg es new_service ≡ some m
    → m.state ≡ running
    → m.active_requests ≡ 0
    → cfg.idle ≢ pos 0
    → (g : ℕ) × (m.idle_timer ≡ some g) × (state_of (idle g m) ≡ some stopping)
unfolding idle begin_stop_locked
idle_stops cfg es m h s a n =
    let v = run-Idling cfg es m h in
    let c = run-Channels cfg es m h in
    (m.generation, ground (arith, v.armed, eq_ℤ_iff cfg.idle (pos 0)), ground arith)

-- In every reachable state where a lease that was handed out is not released, no idle timer stops the
-- service: the function of a timer, of any generation, changes nothing.
pub idle_in_use :
    (cfg : RuntimeAppConfig) (es : List Event) (m : Machine)
    → run cfg es new_service ≡ some m
    → (k : ℕ) → k < m.granted
    → m.released k ≡ false
    → (g : ℕ) → idle g m ≡ some m
unfolding idle
idle_in_use cfg es m h k lt free g =
    ground (arith, run-Leases cfg es m h, outstanding-lt m.granted k m.released lt free)
