-- ===== src/Supervisor/Channels/Locked.antt =====
-- The sections under the lock and the channels.
use lazywrap.Base.{
  ℕ, ◌≡◌, ◌≢◌, Bool, not, ◌||◌, inl, inr, none, some, ◌==◌, arith, Bool-cases, Option,
}
use lazywrap.Config.Types.{RuntimeAppConfig}
use lazywrap.Supervisor.Machine.{State, stopped, stopping, Machine}
use lazywrap.Supervisor.Locked.{
  is_running, Keeps, Keeps-intro, acquire_locked, begin_stop_locked, release, idle, stop_in,
}
use lazywrap.Supervisor.Run.{inhibit, wake_watch}
use lazywrap.Supervisor.Channels.{Channels}

-- The fields that `Channels` speaks of are the same.
abbrev pub SameChannels : Machine → Machine → Type 0
SameChannels m n =
    (n.state ≡ m.state)
    × (n.start_done ≡ m.start_done)
    × (n.stop_done ≡ m.stop_done)
    × (n.worker_done ≡ m.worker_done)
    × (n.attempts ≡ m.attempts)
    × (n.stops ≡ m.stops)
    × (n.start_closed ≡ m.start_closed)
    × (n.worker_closed ≡ m.worker_closed)
    × (n.stop_closed ≡ m.stop_closed)
    × (n.workers ≡ m.workers)
    × (n.stoppers ≡ m.stoppers)

pub SameChannels-Channels : (m n : Machine) → SameChannels m n → Channels m → Channels n
SameChannels-Channels m n (s, d, t, w, a, b, c, f, g, p, q) v = record {
  start_fresh = rw (a, p, c, f) v.start_fresh;
  stop_fresh = rw (b, q, g) v.stop_fresh;
  start_open = rw (s, d) (λ h. ground (arith, v.start_open h));
  active_current = rw (p, w, s, d) v.active_current;
  worker_gone = rw (f, p) v.worker_gone;
  live_current = rw (q, t, s, g) v.live_current;
  stop_live = rw (s, t) (λ h. ground (arith, v.stop_live h));
  awaits_current = rw (q, w) v.awaits_current;
  past_worker = rw (q, p) v.past_worker;
  start_waited = rw (a, c, d, s) v.start_waited;
  stop_waited = rw (b, g, t, s) v.stop_waited;
}

pub acquire_locked-Channels : (m : Machine) → Channels m → Channels (acquire_locked m).1
unfolding acquire_locked
acquire_locked-Channels m v = record {
  start_fresh = λ k h. ground (arith, v.start_fresh k);
  stop_fresh = λ j h. ground (arith, v.stop_fresh j);
  start_open = λ h. ground (arith, v.start_open, v.start_fresh m.attempts);
  active_current = λ k h. ground (arith, v.active_current k);
  worker_gone = λ k h. ground (arith, v.worker_gone k, v.start_fresh k);
  live_current = λ j h. ground (arith, v.live_current j);
  stop_live = λ h. ground (arith, v.stop_live);
  awaits_current = λ j w h. ground (arith, v.awaits_current j w, v.live_current j);
  past_worker = λ j k h. ground (arith, v.past_worker j k, v.live_current j);
  start_waited = λ k lt o. ground (arith, v.start_waited k);
  stop_waited = λ j lt o. ground (arith, v.stop_waited j);
}

module _ (m : Machine) (v : Channels m) where
  begin_stop_locked-ne-none : begin_stop_locked m ≢ none
  unfolding begin_stop_locked
  begin_stop_locked-ne-none = ground (arith, v.start_open)

  begin_stop_locked_next :
      (m' : Machine) → begin_stop_locked m ≡ some m' → m.state ≢ stopping → Channels m'
  unfolding begin_stop_locked
  begin_stop_locked_next m' e n = record {
    start_fresh = λ k h. ground (arith, v.start_fresh k, v.start_open);
    stop_fresh = λ j h. ground (arith, v.stop_fresh j);
    start_open = λ h. ground (arith, v.start_open);
    active_current = λ k h. ground (arith, v.active_current k);
    worker_gone = λ k h. ground (arith, v.worker_gone k, v.start_fresh k);
    live_current = λ j h. ground (arith, v.live_current j, v.stop_fresh m.stops);
    stop_live = λ h. ground (arith, v.stop_live);
    awaits_current = λ j w h. ground (arith, v.awaits_current j w, v.live_current j);
    past_worker = λ j k h. ground (arith, v.past_worker j k, v.live_current j);
    start_waited = λ k lt o. ground (arith, v.start_waited k);
    stop_waited = λ j lt o. ground (arith, v.stop_waited j);
  }

  begin_stop_locked-Channels : m.state ≢ stopping → Keeps Channels (begin_stop_locked m)
  begin_stop_locked-Channels n =
      Keeps-intro Channels (begin_stop_locked m) begin_stop_locked-ne-none
        (λ m' e. begin_stop_locked_next m' e n)

  pub idle-Channels : (g : ℕ) → Keeps Channels (idle g m)
  unfolding idle
  idle-Channels g =
      elim (Bool-cases
        (not (g == m.generation) || not (is_running m.state) || not (m.active_requests == 0))) [
          | inl x ↦ rw x v
          | inr x ↦ rw x (begin_stop_locked-Channels (ground arith))
        ]

  pub stop_in-Channels : (s : State) → m.state ≡ s → Keeps Channels (stop_in s m)
  unfolding stop_in
  stop_in-Channels stopped e = v
  stop_in-Channels stopping e = v
  stop_in-Channels _ e = begin_stop_locked-Channels (ground arith)

  pub release-Channels : (cfg : RuntimeAppConfig) (k : ℕ) → Channels (release cfg k m)
  unfolding release
  release-Channels cfg k = SameChannels-Channels m (release cfg k m) (ground arith) v

  pub inhibit-Channels : (cfg : RuntimeAppConfig) (kills : Bool) → Channels (inhibit cfg kills m)
  unfolding inhibit
  inhibit-Channels cfg kills = SameChannels-Channels m (inhibit cfg kills m) (ground arith) v

  pub wake_watch-Channels : (p : ℕ) (r : Option ℕ) → Channels (wake_watch p r m)
  unfolding wake_watch
  wake_watch-Channels p r = record {
    start_fresh = λ k h. ground (arith, v.start_fresh k);
    stop_fresh = λ j h. ground (arith, v.stop_fresh j);
    start_open = λ h. ground (arith, v.start_open);
    active_current = λ k h. ground (arith, v.active_current k);
    worker_gone = λ k h. ground (arith, v.worker_gone k);
    live_current = λ j h. ground (arith, v.live_current j);
    stop_live = λ h. ground (arith, v.stop_live);
    awaits_current = λ j w h. ground (arith, v.awaits_current j w);
    past_worker = λ j k h. ground (arith, v.past_worker j k);
    start_waited = λ k lt o. ground (arith, v.start_waited k);
    stop_waited = λ j lt o. ground (arith, v.stop_waited j);
  }
