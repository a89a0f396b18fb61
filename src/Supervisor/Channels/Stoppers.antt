-- ===== src/Supervisor/Channels/Stoppers.antt =====
-- The goroutine `stop` and the channels.
use lazywrap.Base.{
  ℕ, ◌≡◌, ◌≢◌, refl, ◌⊎◌, inl, inr, Bool, true, false, Option, none, some, arith, Bool-cases,
  is_empty,
}
use lazywrap.Config.Types.{RuntimeAppConfig}
use lazywrap.Supervisor.Machine.{Machine, StopperPc, enters, awaits_worker, reaps, ends, update}
use lazywrap.Supervisor.Locked.{Keeps, Keeps-intro}
use lazywrap.Supervisor.Goroutines.{Report, succeeds, reaped, await_worker, reap, finish_stop, quit}
use lazywrap.Supervisor.Channels.{Channels, is_active, is_live, is_past}

-- A live stop goes on to another live place.
abbrev moved : ℕ → StopperPc → (ℕ → Bool) → Machine → Machine
moved j pc sig m = record m { stoppers = update m.stoppers j pc; signalled = sig }

module _ (m : Machine) (v : Channels m) (j : ℕ) (live : is_live (m.stoppers j) ≡ true) where
  moved-Channels :
      (pc : StopperPc) (sig : ℕ → Bool)
      → is_live pc ≡ true
      → ((w : Option ℕ) → pc ≡ awaits_worker w → w ≡ m.worker_done)
      → (is_past pc ≡ true → (k : ℕ) → is_active (m.workers k) ≡ false)
      → Channels (moved j pc sig m)
  moved-Channels pc sig l aw past = record {
    start_fresh = v.start_fresh;
    stop_fresh = λ i h. ground (arith, v.stop_fresh i);
    start_open = v.start_open;
    active_current = v.active_current;
    worker_gone = v.worker_gone;
    live_current = λ i h. ground (arith, v.live_current i, v.live_current j);
    stop_live = λ h. ground (arith, v.stop_live h);
    awaits_current = λ i w h. ground (arith, v.awaits_current i w, aw w);
    past_worker = λ i k h. ground (arith, v.past_worker i k, λ (p : is_past pc ≡ true). past p k);
    start_waited = λ i lt o. ground (arith, v.start_waited i, v.live_current j);
    stop_waited = λ i lt o. ground (arith, v.stop_waited i, v.live_current j);
  }

  await_worker-Channels :
      (w : Option ℕ) → m.stoppers j ≡ awaits_worker w → Channels (await_worker j w m)
  unfolding await_worker
  await_worker-Channels none at =
      moved-Channels (reaps m.process) m.signalled refl (λ w e. cc)
        (λ _ k. ground (arith, v.active_current k, v.awaits_current j none))
  await_worker-Channels (some k) at = elim (Bool-cases (m.worker_closed k)) [
    | inl closed ↦ rw closed (
        moved-Channels (reaps m.process) m.signalled refl (λ w e. cc)
          (λ _ i. ground (arith, v.active_current i, v.awaits_current j (some k), v.worker_gone k)))
    | inr still ↦ rw still v
  ]

  reap-Channels :
      (p : Option ℕ) (custom : Bool) (e : Option ℕ) (late : Bool)
      → m.stoppers j ≡ reaps p
      → Channels (reap custom j p e late m)
  unfolding reap
  reap-Channels p custom e late at = go p custom late (Bool-cases (exited p))
    where
      exited : Option ℕ → Bool
      exited none = false
      exited (some q) = m.exited q

      over : (e' : Option ℕ) (sig : ℕ → Bool) → Channels (moved j (ends e') sig m)
      over e' sig =
          moved-Channels (ends e') sig refl (λ w x. cc) (λ _ k. ground (arith, v.past_worker j k))

      go :
          (p : Option ℕ) (custom late : Bool)
          → (exited p ≡ true) ⊎ (exited p ≡ false)
          → Channels (reap custom j p e late m)
      go none custom late x = over _ m.signalled
      go (some q) true true x = over e _
      go (some q) false true x = over none _
      go (some q) true false (inl x) = rw x (over e m.signalled)
      go (some q) false false (inl x) = rw x (over none _)
      go (some q) true false (inr x) = rw x v
      go (some q) false false (inr x) = rw x v

module _ (m m' : Machine) (v : Channels m) (j : ℕ) (e : Option ℕ) (at : m.stoppers j ≡ ends e)
    (step : finish_stop j e m ≡ some m') where
  finish_stop-Channels : Channels m'
  unfolding finish_stop
  finish_stop-Channels = record {
    start_fresh = λ k h. ground (arith, v.start_fresh k);
    stop_fresh = λ i h. ground (arith, v.stop_fresh i, v.live_current j, v.stop_fresh j);
    start_open = λ h. ground arith;
    active_current = λ k h. ground (arith, v.past_worker j k);
    worker_gone = λ k h. ground (arith, v.worker_gone k);
    live_current = λ i h. ground (arith, v.live_current i, v.live_current j);
    stop_live = λ h. ground arith;
    awaits_current = λ i w h. ground (arith, v.awaits_current i w);
    past_worker = λ i k h. ground (arith, v.past_worker i k);
    start_waited = λ i lt o. ground (arith, v.start_waited i, v.live_current j);
    stop_waited = λ i lt o. ground (arith, v.stop_waited i, v.live_current j);
  }

quit-ne-none :
    (cfg : RuntimeAppConfig) (m : Machine) (j : ℕ) (pc : StopperPc) (r : Report)
    → Channels m
    → m.stoppers j ≡ pc
    → quit pc cfg j r m ≢ none
unfolding quit
quit-ne-none cfg m j pc r v at = ground (arith, v.live_current j)

-- Every step of `stop` keeps the channels, and none panics.
pub quit-Channels :
    (cfg : RuntimeAppConfig) (m : Machine) (j : ℕ) (pc : StopperPc) (r : Report)
    → Channels m
    → m.stoppers j ≡ pc
    → Keeps Channels (quit pc cfg j r m)
unfolding quit
quit-Channels cfg m j enters succeeds v at =
    moved-Channels m v j (ground arith) (awaits_worker m.worker_done) m.signalled refl
      (λ w e. ground arith) (λ x. cc)
quit-Channels cfg m j (awaits_worker w) succeeds v at =
    await_worker-Channels m v j (ground arith) w at
quit-Channels cfg m j (reaps p) (reaped e late) v at = elim (Bool-cases (is_empty cfg.stop)) [
  | inl x ↦ rw x (reap-Channels m v j (ground arith) p false e late at)
  | inr x ↦ rw x (reap-Channels m v j (ground arith) p true e late at)
]
quit-Channels cfg m j (ends e) succeeds v at =
    Keeps-intro Channels (finish_stop j e m) (quit-ne-none cfg m j (ends e) succeeds v at)
      (λ m' step. finish_stop-Channels m m' v j e at step)
quit-Channels cfg m j _ _ v at = v
