-- ===== src/Supervisor/Channels/Workers.antt =====
-- The goroutine `start` keeps the channels.
use lazywrap.Base.{ℕ, ◌≤◌, ◌<◌, ◌≡◌, ◌≢◌, ◌⊎◌, true, false, arith, Option, none, some}
use lazywrap.Config.Types.{RuntimeAppConfig}
use lazywrap.Supervisor.Machine.{Machine, stopping, WorkerPc, runs_build, StopperPc, awaits_worker}
use lazywrap.Supervisor.Goroutines.{Report, work}
use lazywrap.Supervisor.Locked.{Keeps, Keeps-intro, fail, is_starting_up}
use lazywrap.Supervisor.Channels.{Channels, IsOpen, IsStopping, is_active, is_live, is_past, fits}

-- One lemma for each field of `Channels`.
module _ (cfg : RuntimeAppConfig) (m m' : Machine) (v : Channels m) (k : ℕ) where
  work_start_fresh :
      (pc : WorkerPc) (r : Report)
      → m.workers k ≡ pc
      → work pc cfg k r m ≡ some m'
      → (i : ℕ) → m'.attempts ≤ i
      → (m'.workers i ≡ WorkerPc.absent)
        × (m'.start_closed i ≡ false)
        × (m'.worker_closed i ≡ false)
  unfolding work fail
  work_start_fresh runs_build r at e i h = ground (arith, v.start_fresh i, v.start_open)
  work_start_fresh _ r at e i h = ground (arith, v.start_fresh i, v.start_open)

  work_stop_fresh :
      (pc : WorkerPc) (r : Report)
      → m.workers k ≡ pc
      → work pc cfg k r m ≡ some m'
      → (j : ℕ) → m'.stops ≤ j
      → (m'.stoppers j ≡ StopperPc.absent) × (m'.stop_closed j ≡ false)
  unfolding work fail
  work_stop_fresh runs_build r at e j h = ground (arith, v.stop_fresh j)
  work_stop_fresh _ r at e j h = ground (arith, v.stop_fresh j)

  work_start-IsOpen :
      (pc : WorkerPc) (r : Report)
      → m.workers k ≡ pc
      → work pc cfg k r m ≡ some m'
      → is_starting_up m'.state ≡ true
      → IsOpen m' m'.start_done
  unfolding work fail
  work_start-IsOpen runs_build r at e h = ground (arith, v.start_open, v.active_current k)
  work_start-IsOpen _ r at e h = ground (arith, v.start_open, v.active_current k)

  work_active_current :
      (pc : WorkerPc) (r : Report)
      → m.workers k ≡ pc
      → work pc cfg k r m ≡ some m'
      → (i : ℕ) → is_active (m'.workers i) ≡ true
      → (m'.worker_done ≡ some i)
        × (is_starting_up m'.state ≡ true → m'.start_done ≡ some i)
        × ((fits m'.state (m'.workers i) ≡ true) ⊎ (m'.state ≡ stopping))
  unfolding work fail
  work_active_current runs_build r at e i h = ground (arith, v.active_current i, v.active_current k)
  work_active_current _ r at e i h = ground (arith, v.active_current i, v.active_current k)

  work_worker_gone :
      (pc : WorkerPc) (r : Report)
      → m.workers k ≡ pc
      → work pc cfg k r m ≡ some m'
      → (i : ℕ) → m'.worker_closed i ≡ true
      → m'.workers i ≡ WorkerPc.gone
  unfolding work fail
  work_worker_gone runs_build r at e i h = ground (arith, v.worker_gone i)
  work_worker_gone _ r at e i h = ground (arith, v.worker_gone i)

  work_live_current :
      (pc : WorkerPc) (r : Report)
      → m.workers k ≡ pc
      → work pc cfg k r m ≡ some m'
      → (j : ℕ) → is_live (m'.stoppers j) ≡ true
      → (m'.stop_done ≡ some j) × (m'.state ≡ stopping) × (m'.stop_closed j ≡ false)
  unfolding work fail
  work_live_current runs_build r at e j h = ground (arith, v.live_current j, v.active_current k)
  work_live_current _ r at e j h = ground (arith, v.live_current j, v.active_current k)

  work_stop_live :
      (pc : WorkerPc) (r : Report)
      → m.workers k ≡ pc
      → work pc cfg k r m ≡ some m'
      → m'.state ≡ stopping
      → IsStopping m' m'.stop_done
  unfolding work fail
  work_stop_live runs_build r at e h = ground (arith, v.stop_live)
  work_stop_live _ r at e h = ground (arith, v.stop_live)

  work_awaits_current :
      (pc : WorkerPc) (r : Report)
      → m.workers k ≡ pc
      → work pc cfg k r m ≡ some m'
      → (j : ℕ) (w : Option ℕ) → m'.stoppers j ≡ awaits_worker w
      → w ≡ m'.worker_done
  unfolding work fail
  work_awaits_current runs_build r at e j w h = ground (arith, v.awaits_current j w)
  work_awaits_current _ r at e j w h = ground (arith, v.awaits_current j w)

  work_past_worker :
      (pc : WorkerPc) (r : Report)
      → m.workers k ≡ pc
      → work pc cfg k r m ≡ some m'
      → (j i : ℕ) → is_past (m'.stoppers j) ≡ true
      → is_active (m'.workers i) ≡ false
  unfolding work fail
  work_past_worker runs_build r at e j i h = ground (arith, v.past_worker j i, v.past_worker j k)
  work_past_worker _ r at e j i h = ground (arith, v.past_worker j i, v.past_worker j k)

  work_start_waited :
      (pc : WorkerPc) (r : Report)
      → m.workers k ≡ pc
      → work pc cfg k r m ≡ some m'
      → (i : ℕ) → i < m'.attempts
      → m'.start_closed i ≡ false
      → (m'.start_done ≡ some i) × (is_starting_up m'.state ≡ true)
  unfolding work fail
  work_start_waited runs_build r at e i lt o = ground (arith, v.start_waited i, v.active_current k)
  work_start_waited _ r at e i lt o = ground (arith, v.start_waited i, v.active_current k)

  work_stop_waited :
      (pc : WorkerPc) (r : Report)
      → m.workers k ≡ pc
      → work pc cfg k r m ≡ some m'
      → (j : ℕ) → j < m'.stops
      → m'.stop_closed j ≡ false
      → (m'.stop_done ≡ some j) × (m'.state ≡ stopping)
  unfolding work fail
  work_stop_waited runs_build r at e j lt o = ground (arith, v.stop_waited j)
  work_stop_waited _ r at e j lt o = ground (arith, v.stop_waited j)

  work-Channels :
      (pc : WorkerPc) (r : Report) → m.workers k ≡ pc → work pc cfg k r m ≡ some m' → Channels m'
  work-Channels pc r at e = record {
    start_fresh = work_start_fresh pc r at e;
    stop_fresh = work_stop_fresh pc r at e;
    start_open = work_start-IsOpen pc r at e;
    active_current = work_active_current pc r at e;
    worker_gone = work_worker_gone pc r at e;
    live_current = work_live_current pc r at e;
    stop_live = work_stop_live pc r at e;
    awaits_current = work_awaits_current pc r at e;
    past_worker = work_past_worker pc r at e;
    start_waited = work_start_waited pc r at e;
    stop_waited = work_stop_waited pc r at e;
  }

work-ne-none :
    (cfg : RuntimeAppConfig) (m : Machine) (k : ℕ) (pc : WorkerPc) (r : Report)
    → Channels m
    → m.workers k ≡ pc
    → work pc cfg k r m ≢ none
unfolding work fail
work-ne-none cfg m k runs_build r v at =
    ground (arith, v.start_open, v.active_current k, v.worker_gone k)
work-ne-none cfg m k _ r v at = ground (arith, v.start_open, v.active_current k, v.worker_gone k)

-- Every step of `start` keeps the channels, and none panics.
pub work-Keeps :
    (cfg : RuntimeAppConfig) (m : Machine) (k : ℕ) (pc : WorkerPc) (r : Report)
    → Channels m
    → m.workers k ≡ pc
    → Keeps Channels (work pc cfg k r m)
work-Keeps cfg m k pc r v at =
    Keeps-intro Channels (work pc cfg k r m) (work-ne-none cfg m k pc r v at)
      (λ m' step. work-Channels cfg m m' v k pc r at step)
