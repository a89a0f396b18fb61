-- ===== src/Supervisor/Goroutines.antt =====
-- internal/supervisor/service.go: the goroutines `start` and `stop`, one step for each section
-- between two points where another goroutine can come in between.
-- A step that its goroutine cannot make leaves the machine as it is.
use lazywrap.Base.{ℕ, suc, ◌+◌, Bool, true, false, not, Option, none, some, if◌then◌else◌, is_empty}
use lazywrap.Config.Types.{RuntimeAppConfig}
use lazywrap.Supervisor.Machine.{
  State, stopped, building, starting, running, failed, Failure, build_failed, launch_failed,
  stop_failed, WorkerPc, runs_build, runs_launch, has_process, probes, fails, returns, StopperPc,
  enters, awaits_worker, reaps, ends, update, Machine,
}
use lazywrap.Supervisor.Locked.{◌>>=◌, close_start, cancel_start, schedule_idle_locked, fail}

-- What the world answers to a goroutine: success, the error of a command, the error of `ready`,
-- or the end of the wait of `stop` for a process, with the result of the stop command and whether
-- the stop timeout came first.
pub data Report : Type 0 where
  succeeds : Report
  errs : ℕ → Report
  unready : Failure → Report
  reaped : Option ℕ → Bool → Report

abbrev pub is_building : State → Bool
is_building building = true
is_building _ = false

abbrev pub is_starting : State → Bool
is_starting starting = true
is_starting _ = false

abbrev pub move_worker : ℕ → WorkerPc → Machine → Machine
move_worker k pc m = record m { workers = update m.workers k pc }

abbrev pub move_stopper : ℕ → StopperPc → Machine → Machine
move_stopper j pc m = record m { stoppers = update m.stoppers j pc }

-- `start`, after the build command.
unfoldable pub enter_starting : ℕ → Machine → Machine
enter_starting k m =
    if is_building m.state
    then move_worker k runs_launch (record m { state = starting })
    else move_worker k returns m

-- `start`, after `ready` returned nil for the process `p`.
unfoldable pub finish_start : RuntimeAppConfig → ℕ → ℕ → Machine → Option Machine
unfolding close_start schedule_idle_locked
finish_start cfg k p m = if not (is_starting m.state) then some (move_worker k returns m) else do
  m' ← close_start k (record m { state = running; starts = m.starts + 1; start_err = none })
  let m'' = move_worker k returns (schedule_idle_locked cfg m')
  some (if is_empty cfg.stop then record m'' { watched = update m''.watched p true } else m'')

-- The deferred `close(workerDone)`.
unfoldable pub close_worker : ℕ → Machine → Option Machine
close_worker k m =
    if m.worker_closed k
    then none
    else some
        (move_worker k WorkerPc.gone (record m { worker_closed = update m.worker_closed k true }))

-- The goroutine `start` of attempt `k`.
unfoldable pub work : WorkerPc → RuntimeAppConfig → ℕ → Report → Machine → Option Machine
unfolding enter_starting finish_start close_worker
work runs_build cfg k succeeds m = some (enter_starting k m)
work runs_build cfg k (errs e) m =
    some (if is_empty cfg.build then m else move_worker k (fails (build_failed e)) m)
work runs_launch cfg k succeeds m =
    some (move_worker k (has_process m.launches) (record m { launches = suc m.launches }))
work runs_launch cfg k (errs e) m = some (move_worker k (fails (launch_failed e)) m)
work (has_process p) cfg k succeeds m =
    some (move_worker k (probes p) (record m { process = some p }))
work (probes p) cfg k succeeds m = finish_start cfg k p m
work (probes p) cfg k (unready e) m =
    some (move_worker k (fails e) (record m { signalled = update m.signalled p true }))
work (fails e) cfg k succeeds m = do m' ← fail k e m; some (move_worker k returns m')
work returns cfg k succeeds m = close_worker k m
work _ cfg k _ m = some m

-- `<-workerDone`, then the process to stop is read.
unfoldable pub await_worker : ℕ → Option ℕ → Machine → Machine
await_worker j none m = move_stopper j (reaps m.process) m
await_worker j (some k) m = if m.worker_closed k then move_stopper j (reaps m.process) m else m

-- `stop`, from the stop command or `Terminate` to the end of the wait for the process.
unfoldable pub reap : Bool → ℕ → Option ℕ → Option ℕ → Bool → Machine → Machine
reap custom j none e late m = move_stopper j (ends (if custom then e else none)) m
reap true j (some p) e late m =
    if late
    then move_stopper j (ends e) (record m { signalled = update m.signalled p true })
    else if m.exited p
    then move_stopper j (ends e) m
    else m
reap false j (some p) e late m =
    let told = record m { signalled = update m.signalled p true } in
    if late
    then move_stopper j (ends none) told
    else if m.exited p
    then move_stopper j (ends none) told
    else m

-- `close(s.stopDone)`
unfoldable pub close_stop : Option ℕ → Machine → Option Machine
close_stop none m = none
close_stop (some j) m =
    if m.stop_closed j then none else some (record m { stop_closed = update m.stop_closed j true })

-- The state and the start error that `stop` leaves, by the error of the stop command.
unfoldable pub settle : Option ℕ → Machine → Machine
settle none m = record m { process = none; state = stopped }
settle (some e) m = record m { process = none; state = failed; start_err = some (stop_failed e) }

-- The last section of `stop` under the lock.
unfoldable pub finish_stop : ℕ → Option ℕ → Machine → Option Machine
unfolding settle cancel_start close_stop
finish_stop j e m = do
  m' ← close_stop m.stop_done (record (cancel_start (settle e m)) { stop_err = e })
  some (move_stopper j StopperPc.gone m')

-- The goroutine `stop` of stop `j`.
unfoldable pub quit : StopperPc → RuntimeAppConfig → ℕ → Report → Machine → Option Machine
unfolding await_worker reap finish_stop
quit enters cfg j succeeds m = some (move_stopper j (awaits_worker m.worker_done) m)
quit (awaits_worker w) cfg j succeeds m = some (await_worker j w m)
quit (reaps p) cfg j (reaped e late) m =
    some (if is_empty cfg.stop then reap false j p e late m else reap true j p e late m)
quit (ends e) cfg j succeeds m = finish_stop j e m
quit _ cfg j _ m = some m
