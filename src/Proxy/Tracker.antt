-- ===== src/Proxy/Tracker.antt =====
-- internal/proxy/drain.go: `ConnectionTracker` and the connections that its listeners accept.
--
-- A connection is named by the number of those accepted before it. A channel `changed` is named by the
-- number of those made before it; `none` is the panic of closing one twice. A call of `Close` is two
-- steps: the close of the connection, and the section of `remove`, which `once` keeps from running
-- again.
pub mod Safety
mod Samples
use lazywrap.Base.{
  ℕ, suc, ◌+◌, Bool, true, false, not, ◌&&◌, ◌||◌, List, [], ◌∷◌, Option, none, some, ◌==◌,
  if◌then◌else◌,
}
use lazywrap.Base.Counts.{update}

-- Where the `once` of a connection stands.
pub data ConnState : Type 0 where
  absent rejected live removing removed : ConnState

pub record ConnectionTracker : Type 0 where
  -- the fields of `ConnectionTracker`
  pub conns : ℕ → Bool
  pub closed : Bool
  pub changed : ℕ
  -- the channels that are closed, and the connections accepted
  pub signalled : ℕ → Bool
  pub accepted : ℕ
  pub states : ℕ → ConnState
  pub doomed : ℕ → Bool  -- in the list that a `CloseAll` closes

-- `NewConnectionTracker`
unfoldable pub new_tracker : ConnectionTracker
new_tracker = record {
  conns = λ _. false;
  closed = false;
  changed = 0;
  signalled = λ _. false;
  accepted = 0;
  states = λ _. absent;
  doomed = λ _. false;
}

-- `signalLocked`
unfoldable pub signal_locked : ConnectionTracker → Option ConnectionTracker
signal_locked t =
    if t.signalled t.changed
    then none
    else some (record t { signalled = update t.signalled t.changed true; changed = suc t.changed })

-- `add`
unfoldable pub add : ℕ → ConnectionTracker → Option (ConnectionTracker × Bool)
unfolding signal_locked
add c t =
    if t.closed
    then some (t, false)
    else elim (signal_locked (record t { conns = update t.conns c true })) [
      | none ↦ none
      | some u ↦ some (u, true)
    ]

-- `remove`
unfoldable pub remove : ℕ → ConnectionTracker → Option ConnectionTracker
unfolding signal_locked
remove c t = signal_locked (record t { conns = update t.conns c false })

abbrev pub set_state : ℕ → ConnState → ConnectionTracker → ConnectionTracker
set_state c s t = record t { states = update t.states c s }

-- `Accept`, once the listener has a connection.
unfoldable pub accept : ConnectionTracker → Option ConnectionTracker
unfolding add
accept t =
    let c = t.accepted in
    elim (add c (record t { accepted = suc c })) [
      | none ↦ none
      | some (u, tracked) ↦ some (set_state c (if tracked then live else rejected) u)
    ]

-- `Close` up to `remove`: only the first call of it goes on.
unfoldable pub begin_close : ConnState → ℕ → ConnectionTracker → ConnectionTracker
begin_close live c t = set_state c removing t
begin_close _ c t = t

-- The call of `remove` in `Close`.
unfoldable pub end_close : ConnState → ℕ → ConnectionTracker → Option ConnectionTracker
unfolding remove
end_close removing c t = remove c (set_state c removed t)
end_close _ c t = some t

-- The section of `CloseAll` under the lock.
unfoldable pub begin_close_all : ConnectionTracker → ConnectionTracker
begin_close_all t = record t { closed = true; doomed = λ c. t.doomed c || t.conns c }

pub data Event : Type 0 where
  accepts closes_all : Event
  closes removes : ℕ → Event

unfoldable pub step : Event → ConnectionTracker → Option ConnectionTracker
unfolding accept begin_close end_close begin_close_all
step accepts t = accept t
step closes_all t = some (begin_close_all t)
step (closes c) t = some (begin_close (t.states c) c t)
step (removes c) t = end_close (t.states c) c t

unfoldable pub run : List Event → ConnectionTracker → Option ConnectionTracker
unfolding step
run [] t = some t
run (e ∷ es) t = elim (step e t) [ none ↦ none | some u ↦ run es u ]
