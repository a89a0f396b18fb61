-- ===== src/Supervisor/Locked.antt =====
-- internal/supervisor/service.go: the sections of `Acquire`, `release`, `idle`, `Stop`, `fail` and
-- `watch` that run under the lock of the service.
-- `none` is the panic of closing a closed or nil channel.
use lazywrap.Base.{
  ℕ, suc, ◌+◌, ◌-◌, ◌≡◌, ◌≢◌, refl, Bool, true, false, not, ◌&&◌, ◌||◌, Option, none, some, ◌==◌,
  ltb, if◌then◌else◌, pos, eq_ℤ,
}
use mathlib.Core.Path.{subst}
use lazywrap.Config.Types.{RuntimeAppConfig}
use lazywrap.Supervisor.Machine.{
  State, stopped, building, starting, running, stopping, failed, Failure, closing,
  exited_unexpectedly, service_exited, runs_build, enters, update, u64, Machine,
}

infixl 5 ◌>>=◌
abbrev pub ◌>>=◌ : Option Machine → (Machine → Option Machine) → Option Machine
none >>= f = none
some m >>= f = f m

-- No panic, and a state with the property `P`.
abbrev pub Keeps : (Machine → Type 0) → Option Machine → Type 0
Keeps P none = ⊥
Keeps P (some m) = P m

pub Keeps-intro :
    (P : Machine → Type 0) (o : Option Machine)
    → o ≢ none
    → ((m : Machine) → o ≡ some m → P m)
    → Keeps P o
Keeps-intro P none n f = n refl
Keeps-intro P (some m) n f = f m refl

pub Keeps-ne-none : (P : Machine → Type 0) {o : Option Machine} → Keeps P o → o ≢ none
Keeps-ne-none P {o = none} h = absurd h
Keeps-ne-none P {o = some m} h = λ e. cc

pub Keeps-elim :
    (P : Machine → Type 0) (o : Option Machine) {m : Machine} → Keeps P o → o ≡ some m → P m
Keeps-elim P none h e = absurd h
Keeps-elim P (some m') {m} h e = let q : m' ≡ m = cc in subst P q h

pub Keeps-bind :
    (P : Machine → Type 0) (o : Option Machine) (f : Machine → Option Machine)
    → Keeps P o
    → ((m : Machine) → P m → Keeps P (f m))
    → Keeps P (o >>= f)
Keeps-bind P none f h keep = absurd h
Keeps-bind P (some m) f h keep = keep m h

-- `s.state == StateBuilding || s.state == StateStarting`
abbrev pub is_starting_up : State → Bool
is_starting_up building = true
is_starting_up starting = true
is_starting_up _ = false

abbrev pub is_running : State → Bool
is_running running = true
is_running _ = false

abbrev pub is_failed : State → Bool
is_failed failed = true
is_failed _ = false

-- `c == d` where `d` is not nil
abbrev pub is_channel : Option ℕ → ℕ → Bool
is_channel none k = false
is_channel (some j) k = j == k

unfoldable pub close_start : ℕ → Machine → Option Machine
close_start k m =
    if m.start_closed k
    then none
    else some (record m { start_closed = update m.start_closed k true })

-- Cancelling twice is harmless.
abbrev pub cancel : Option ℕ → Machine → Machine
cancel none m = m
cancel (some k) m = record m { cancelled = update m.cancelled k true }

-- `if s.startCancel != nil { s.startCancel(); s.startCancel = nil }`
unfoldable pub cancel_start : Machine → Machine
cancel_start m = record (cancel m.start_cancel m) { start_cancel = none }

unfoldable pub schedule_idle_locked : RuntimeAppConfig → Machine → Machine
schedule_idle_locked cfg m =
    let g = u64 (m.generation + 1) in
    let fresh = record m { generation = g; idle_timer = none } in
    if eq_ℤ cfg.idle (pos 0) then fresh else record fresh { idle_timer = some g }

-- What one round of `Acquire` finds under the lock: an error, a release function, or a channel
-- to wait for.
pub data Round : Type 0 where
  refuses : Failure → Round
  leases : ℕ → Round
  awaits_start : Option ℕ → Round
  awaits_stop : Option ℕ → Round

unfoldable pub lease : Machine → Round × Machine
lease m = (
  Round.leases m.granted,
  record m {
    generation = u64 (m.generation + 1);
    idle_timer = none;
    active_requests = m.active_requests + 1;
    granted = suc m.granted;
  },
)

-- The cases `StateStopped` and `StateFailed`: a new attempt, whose goroutine is `start`.
unfoldable pub begin_start : Machine → Round × Machine
begin_start m = (
  Round.awaits_start (some m.attempts),
  record m {
    state = building;
    start_done = some m.attempts;
    start_err = none;
    start_cancel = some m.attempts;
    worker_done = some m.attempts;
    workers = update m.workers m.attempts runs_build;
    attempts = suc m.attempts;
  },
)

-- The `switch` of `Acquire`.
unfoldable pub acquire_in : State → Machine → Round × Machine
unfolding lease begin_start
acquire_in running m = lease m
acquire_in stopped m = begin_start m
acquire_in failed m = begin_start m
acquire_in building m = (Round.awaits_start m.start_done, m)
acquire_in starting m = (Round.awaits_start m.start_done, m)
acquire_in stopping m = (Round.awaits_stop m.stop_done, m)

unfoldable pub acquire_locked : Machine → Round × Machine
unfolding acquire_in
acquire_locked m =
    if m.lifecycle_done || m.manual_stopped
    then (Round.refuses closing, m)
    else acquire_in m.state m

-- The end of a round of `Acquire`, after the wait: an error to return, or `none` for another round.
unfoldable pub after_wait : Machine → Option Failure
after_wait m = if is_failed m.state then m.start_err else none

-- The release function number `k`, which runs `release` once.
unfoldable pub release : RuntimeAppConfig → ℕ → Machine → Machine
unfolding schedule_idle_locked
release cfg k m =
    let fewer = if ltb 0 m.active_requests then m.active_requests - 1 else m.active_requests in
    let m' = record m { released = update m.released k true; active_requests = fewer } in
    if m.released k || not (ltb k m.granted)
    then m
    else if fewer == 0 && is_running m.state
    then schedule_idle_locked cfg m'
    else m'

-- `if wasStarting && s.startDone != nil { … }`
unfoldable pub abort_start : Bool → Option ℕ → Machine → Option Machine
unfolding close_start
abort_start true (some k) m = do
  m' ← close_start k (record m { start_err = some closing })
  some (record m' { start_done = none })
abort_start _ _ m = some m

-- `go s.stop()` of the caller is part of it.
unfoldable pub begin_stop_locked : Machine → Option Machine
unfolding abort_start
begin_stop_locked m =
    let was_starting = is_starting_up m.state in
    let m' = record m {
      generation = u64 (m.generation + 1);
      idle_timer = none;
      state = stopping;
      stop_done = some m.stops;
      stop_err = none;
      stops = suc m.stops;
      stoppers = update m.stoppers m.stops enters;
    } in
    abort_start was_starting m.start_done (if was_starting then cancel m.start_cancel m' else m')

-- The function of an idle timer that was set at generation `g`.
unfoldable pub idle : ℕ → Machine → Option Machine
unfolding begin_stop_locked
idle g m =
    if not (g == m.generation) || not (is_running m.state) || not (m.active_requests == 0)
    then some m
    else begin_stop_locked m

-- The `switch` of `Stop`, by the state of the service.
unfoldable pub stop_in : State → Machine → Option Machine
unfolding begin_stop_locked
stop_in stopped m = some m
stop_in stopping m = some m
stop_in _ m = begin_stop_locked m

unfoldable pub fail : ℕ → Failure → Machine → Option Machine
unfolding close_start cancel_start
fail attempt e m =
    if not (is_channel m.start_done attempt) || not (is_starting_up m.state) then some m else do
      m' ← close_start attempt (cancel_start (record m { state = failed; start_err = some e }))
      some (record m' { process = none })

-- The error of a process that ended with the result `r`.
abbrev pub exit_failure : Option ℕ → Failure
exit_failure none = exited_unexpectedly
exit_failure (some e) = service_exited e

-- `watch`, once `p` is done with the result `r`.
unfoldable pub watch : ℕ → Option ℕ → Machine → Machine
unfolding cancel_start
watch p r m =
    if is_channel m.process p && is_running m.state
    then record (cancel_start m) {
      generation = u64 (m.generation + 1);
      idle_timer = none;
      process = none;
      state = failed;
      start_err = some (exit_failure r);
    }
    else m
