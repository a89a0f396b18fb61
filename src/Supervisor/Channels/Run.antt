-- ===== src/Supervisor/Channels/Run.antt =====
-- Every reachable state.
use lazywrap.Base.{ℕ, ◌<◌, ◌≡◌, ◌≢◌, refl, true, false, List, none, some, arith}
use lazywrap.Config.Types.{RuntimeAppConfig}
use lazywrap.Supervisor.Machine.{Machine, new_service}
use lazywrap.Supervisor.Locked.{Keeps, Keeps-ne-none, Keeps-elim}
use lazywrap.Supervisor.Run.{
  Event, acquires, releases, idles, stops_service, works, quits, exits, watches, inhibits, allows,
  shuts_down, step, run, run-Keeps, run-Next,
}
use lazywrap.Supervisor.Channels.{Channels, is_active, is_live}
use lazywrap.Supervisor.Channels.Locked.{
  SameChannels-Channels, acquire_locked-Channels, idle-Channels, stop_in-Channels, release-Channels,
  inhibit-Channels, wake_watch-Channels,
}
use lazywrap.Supervisor.Channels.Workers.{work-Keeps}
use lazywrap.Supervisor.Channels.Stoppers.{quit-Channels}

pub new_service-Channels : Channels new_service
unfolding new_service
new_service-Channels = record {
  start_fresh = λ k h. (refl, refl, refl);
  stop_fresh = λ j h. (refl, refl);
  start_open = λ h. cc;
  active_current = λ k h. cc;
  worker_gone = λ k h. cc;
  live_current = λ j h. cc;
  stop_live = λ h. cc;
  awaits_current = λ j w h. cc;
  past_worker = λ j k h. cc;
  start_waited = λ k lt o. absurd (omega arith);
  stop_waited = λ j lt o. absurd (omega arith);
}

-- No step panics, and each keeps the channels.
pub step-Channels :
    (cfg : RuntimeAppConfig) (e : Event) (m : Machine) → Channels m → Keeps Channels (step cfg e m)
unfolding step
step-Channels cfg acquires m v = acquire_locked-Channels m v
step-Channels cfg (releases k) m v = release-Channels m v cfg k
step-Channels cfg (idles g) m v = idle-Channels m v g
step-Channels cfg stops_service m v = stop_in-Channels m v m.state refl
step-Channels cfg (works k r) m v = work-Keeps cfg m k (m.workers k) r v refl
step-Channels cfg (quits j r) m v = quit-Channels cfg m j (m.stoppers j) r v refl
step-Channels cfg (exits p) m v = SameChannels-Channels m _ (ground arith) v
step-Channels cfg (watches p r) m v = wake_watch-Channels m v p r
step-Channels cfg (inhibits kills) m v = inhibit-Channels m v cfg kills
step-Channels cfg allows m v = SameChannels-Channels m _ (ground arith) v
step-Channels cfg shuts_down m v = SameChannels-Channels m _ (ground arith) v

-- No interleaving of callers, timers, commands and goroutines closes a channel twice or a nil one.
pub run-ne-none : (cfg : RuntimeAppConfig) (es : List Event) → run cfg es new_service ≢ none
run-ne-none cfg es =
    Keeps-ne-none Channels
      (run-Keeps Channels cfg (step-Channels cfg) es new_service new_service-Channels)

pub Channels-next :
    (cfg : RuntimeAppConfig) (e : Event) (m m' : Machine)
    → Channels m
    → step cfg e m ≡ some m'
    → Channels m'
Channels-next cfg e m m' v h = Keeps-elim Channels (step cfg e m) (step-Channels cfg e m v) h

pub run-Channels :
    (cfg : RuntimeAppConfig) (es : List Event) (m : Machine)
    → run cfg es new_service ≡ some m
    → Channels m
run-Channels cfg es m h =
    run-Next Channels cfg (Channels-next cfg) es new_service m new_service-Channels h

-- In every reachable state at most one attempt to start has a goroutine `start` at work.
pub attempt_unique :
    (cfg : RuntimeAppConfig) (es : List Event) (m : Machine)
    → run cfg es new_service ≡ some m
    → (i k : ℕ) → is_active (m.workers i) ≡ true
    → is_active (m.workers k) ≡ true
    → i ≡ k
attempt_unique cfg es m h i k a b =
    let v = run-Channels cfg es m h in ground (arith, v.active_current i, v.active_current k)

-- In every reachable state at most one stop has a goroutine `stop` at work.
pub stop_unique :
    (cfg : RuntimeAppConfig) (es : List Event) (m : Machine)
    → run cfg es new_service ≡ some m
    → (i j : ℕ) → is_live (m.stoppers i) ≡ true
    → is_live (m.stoppers j) ≡ true
    → i ≡ j
stop_unique cfg es m h i j a b =
    let v = run-Channels cfg es m h in ground (arith, v.live_current i, v.live_current j)

-- Nobody waits for a start in vain: in every reachable state a `startDone` that was made and is
-- open belongs to the attempt under way, whose goroutine `start` is still at work.
pub start_waited_for :
    (cfg : RuntimeAppConfig) (es : List Event) (m : Machine)
    → run cfg es new_service ≡ some m
    → (k : ℕ) → k < m.attempts
    → m.start_closed k ≡ false
    → (m.start_done ≡ some k) × (is_active (m.workers k) ≡ true)
start_waited_for cfg es m h k lt o =
    let v = run-Channels cfg es m h in ground (arith, v.start_waited k, v.start_open)

-- Nobody waits for a stop in vain: in every reachable state a `stopDone` that was made and is open
-- belongs to the stop under way, whose goroutine `stop` is still at work.
pub stop_waited_for :
    (cfg : RuntimeAppConfig) (es : List Event) (m : Machine)
    → run cfg es new_service ≡ some m
    → (j : ℕ) → j < m.stops
    → m.stop_closed j ≡ false
    → (m.stop_done ≡ some j) × (is_live (m.stoppers j) ≡ true)
stop_waited_for cfg es m h j lt o =
    let v = run-Channels cfg es m h in ground (arith, v.stop_waited j, v.stop_live)
