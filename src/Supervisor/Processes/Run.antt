-- ===== src/Supervisor/Processes/Run.antt =====
-- The processes in every reachable state.
use lazywrap.Base.{ℕ, ◌<◌, ◌≡◌, refl, ◌⊎◌, Bool, true, false, List, Option, none, some, arith}
use lazywrap.Config.Types.{RuntimeAppConfig}
use lazywrap.Supervisor.Machine.{State, running, stopped, failed, Machine, new_service}
use lazywrap.Supervisor.Locked.{begin_stop_locked, acquire_locked, release, idle, stop_in}
use lazywrap.Supervisor.Run.{
  Event, acquires, works, quits, step, inhibit, wake_watch, run, run-Next,
}
use lazywrap.Supervisor.Channels.{Channels}
use lazywrap.Supervisor.Channels.Run.{new_service-Channels, Channels-next, run-Channels}
use lazywrap.Supervisor.Processes.{Processes, is_over, InHand}
use lazywrap.Supervisor.Processes.Workers.{work-Processes}
use lazywrap.Supervisor.Processes.Stoppers.{quit-Processes}

-- While a process is in the hand of an attempt the service is starting or stopping.
abbrev is_at_rest : State → Bool
is_at_rest stopped = true
is_at_rest failed = true
is_at_rest running = true
is_at_rest _ = false

InHand-state :
    (m : Machine) (c : Channels m) (p : ℕ) (w : Option ℕ)
    → InHand m w p
    → is_at_rest m.state ≡ false
InHand-state m c p none h = absurd h
InHand-state m c p (some k) h = ground (arith, c.active_current k)

module _ (cfg : RuntimeAppConfig) (m m' : Machine) (c : Channels m) (v : Processes m) where
  step-Processes : (e : Event) → step cfg e m ≡ some m' → Processes m'
  unfolding step acquire_locked release idle begin_stop_locked stop_in inhibit wake_watch
  step-Processes acquires h = record {
    known = λ p e. ground (arith, v.known p);
    settled = λ s. ground (arith, v.settled);
    in_worker = λ k. ground (arith, v.in_worker k, v.settled);
    in_stopper = λ j. ground (arith, v.in_stopper j);
    kept = λ p lt. ground (arith, v.kept p, v.settled, InHand-state m c p m.worker_done);
  }
  step-Processes (works k r) h = work-Processes cfg m m' c v k (m.workers k) r refl h
  step-Processes (quits j r) h = quit-Processes cfg m m' c v j (m.stoppers j) r refl h
  step-Processes _ h = record {
    known = λ p e. ground (arith, v.known p);
    settled = λ s. ground (arith, v.settled);
    in_worker = λ k. ground (arith, v.in_worker k, c.active_current k);
    in_stopper = λ j. ground (arith, v.in_stopper j, c.live_current j);
    kept = λ p lt. ground (arith, v.kept p);
  }

new_service-Processes : Processes new_service
unfolding new_service
new_service-Processes = record {
  known = λ p e. cc;
  settled = λ s. refl;
  in_worker = λ k. tt;
  in_stopper = λ j. tt;
  kept = λ p lt. absurd (omega arith);
}

pub run-Processes :
    (cfg : RuntimeAppConfig) (es : List Event) (m : Machine)
    → run cfg es new_service ≡ some m
    → Processes m
run-Processes cfg es m h =
    (run-Next (λ m. Channels m × Processes m) cfg
      (λ e m m' (c, v) s. (Channels-next cfg e m m' c s, step-Processes cfg m m' c v e s)) es
      new_service m (new_service-Channels, new_service-Processes) h).1

-- At most one launched process is neither done nor told to end, in every reachable state: no
-- interleaving of requests, stops, crashes and restarts launches a second one beside it.
pub alive_unique :
    (cfg : RuntimeAppConfig) (es : List Event) (m : Machine)
    → run cfg es new_service ≡ some m
    → (p q : ℕ) → p < m.launches
    → q < m.launches
    → is_over m p ≡ false
    → is_over m q ≡ false
    → p ≡ q
alive_unique cfg es m h p q lp lq ap aq =
    let v = run-Processes cfg es m h in same m.worker_done (v.kept p lp) (v.kept q lq)
  where
    same :
        (w : Option ℕ)
        → (is_over m p ≡ true) ⊎ (m.process ≡ some p) ⊎ InHand m w p
        → (is_over m q ≡ true) ⊎ (m.process ≡ some q) ⊎ InHand m w q
        → p ≡ q
    same none x y = ground arith
    same (some k) x y = ground (arith, (run-Processes cfg es m h).in_worker k)

-- A service that is stopped or failed leaves no process behind: each one that it ever launched is
-- done or was told to end.
pub stopped_leaves_none :
    (cfg : RuntimeAppConfig) (es : List Event) (m : Machine)
    → run cfg es new_service ≡ some m
    → (m.state ≡ stopped) ⊎ (m.state ≡ failed)
    → (p : ℕ) → p < m.launches
    → is_over m p ≡ true
stopped_leaves_none cfg es m h s p lt =
    let c = run-Channels cfg es m h in
    let v = run-Processes cfg es m h in
    ground (arith, v.kept p, v.settled, InHand-state m c p m.worker_done)
