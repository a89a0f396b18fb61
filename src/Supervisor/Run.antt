-- ===== src/Supervisor/Run.antt =====
-- internal/supervisor: a service under any interleaving of its callers, timers and goroutines.
use lazywrap.Base.{
  ℕ, Bool, true, false, List, [], ◌∷◌, Option, none, some, ltb, ◌&&◌, ◌≡◌, inl, inr, Option-cases,
  if◌then◌else◌, is_empty,
}
use mathlib.Core.Path.{subst}
use lazywrap.Config.Types.{RuntimeAppConfig}
use lazywrap.Supervisor.Machine.{Machine, update}
use lazywrap.Supervisor.Locked.{
  ◌>>=◌, Keeps, Keeps-bind, acquire_locked, release, idle, stop_in, watch,
}
use lazywrap.Supervisor.Goroutines.{Report, work, quit}

-- One section under the lock, or one answer of the world. Timers may come late and in any order.
pub data Event : Type 0 where
  acquires : Event
  releases : ℕ → Event
  idles : ℕ → Event
  stops_service : Event
  works : ℕ → Report → Event
  quits : ℕ → Report → Event
  exits : ℕ → Event
  watches : ℕ → Option ℕ → Event
  inhibits : Bool → Event
  allows : Event
  shuts_down : Event

-- `v.process.Kill()` of `Action`.
unfoldable pub kill_process : Option ℕ → Machine → Machine
kill_process none m = m
kill_process (some p) m = record m { signalled = update m.signalled p true }

-- The first section of `Action` for "stop", "restart" (`kills` false) and "kill" (`kills` true).
unfoldable pub inhibit : RuntimeAppConfig → Bool → Machine → Machine
unfolding kill_process
inhibit cfg false m = record m { manual_stopped = true }
inhibit cfg true m =
    if is_empty cfg.stop then record (kill_process m.process m) { manual_stopped = true } else m

-- The goroutine `watch` of process `p` wakes when `p` is done, and is made for watched ones.
unfoldable pub wake_watch : ℕ → Option ℕ → Machine → Machine
unfolding watch
wake_watch p r m =
    if m.exited p && m.watched p
    then watch p r (record m { watched = update m.watched p false })
    else m

unfoldable pub step : RuntimeAppConfig → Event → Machine → Option Machine
unfolding inhibit wake_watch
step cfg acquires m = some (acquire_locked m).1
step cfg (releases k) m = some (release cfg k m)
step cfg (idles g) m = idle g m
step cfg stops_service m = stop_in m.state m
step cfg (works k r) m = work (m.workers k) cfg k r m
step cfg (quits j r) m = quit (m.stoppers j) cfg j r m
step cfg (exits p) m =
    some (if ltb p m.launches then record m { exited = update m.exited p true } else m)
step cfg (watches p r) m = some (wake_watch p r m)
step cfg (inhibits kills) m = some (inhibit cfg kills m)
step cfg allows m = some (record m { manual_stopped = false })
step cfg shuts_down m = some (record m { lifecycle_done = true })

unfoldable pub run : RuntimeAppConfig → List Event → Machine → Option Machine
run cfg [] m = some m
run cfg (e ∷ es) m = step cfg e m >>= run cfg es

-- What every step keeps without a panic, every run keeps without a panic.
pub run-Keeps :
    (P : Machine → Type 0) (cfg : RuntimeAppConfig)
    → ((e : Event) (m : Machine) → P m → Keeps P (step cfg e m))
    → (es : List Event) (m : Machine) → P m
    → Keeps P (run cfg es m)
unfolding run
run-Keeps P cfg keep [] m h = h
run-Keeps P cfg keep (e ∷ es) m h =
    Keeps-bind P (step cfg e m) (run cfg es) (keep e m h) (λ m' x. run-Keeps P cfg keep es m' x)

-- What every step that does not panic keeps, every run that does not panic keeps.
pub run-Next :
    (P : Machine → Type 0) (cfg : RuntimeAppConfig)
    → ((e : Event) (m m' : Machine) → P m → step cfg e m ≡ some m' → P m')
    → (es : List Event) (m m' : Machine) → P m
    → run cfg es m ≡ some m'
    → P m'
unfolding run
run-Next P cfg keep [] m m' h r = let q : m ≡ m' = cc in subst P q h
run-Next P cfg keep (e ∷ es) m m' h r = elim (Option-cases (step cfg e m)) [
  | inl x ↦ cc
  | inr (n, x) ↦ run-Next P cfg keep es n m' (keep e m n h x) (rw x at r)
]
