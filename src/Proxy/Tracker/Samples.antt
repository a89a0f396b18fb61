-- ===== src/Proxy/Tracker/Samples.antt =====
-- Tests of the connection tracker: two connections, one closed by its client and one by `CloseAll`.
use lazywrap.Base.{ℕ, ◌≡◌, true, false, List, [], ◌∷◌, some}
use lazywrap.Proxy.Tracker.{
  ConnectionTracker, new_tracker, Event, accepts, closes_all, closes, removes, run,
}
use lazywrap.Proxy.Tracker.Safety.{is_tracked, has_close_all, tracker_exact}

abbrev life : List Event
life =
    accepts
    ∷ accepts
    ∷ closes 0
    ∷ closes 0
    ∷ removes 0
    ∷ closes_all
    ∷ accepts
    ∷ closes 1
    ∷ removes 1
    ∷ removes 1
    ∷ []

tracker_exact_example :
    (t : ConnectionTracker) × (run life new_tracker ≡ some t)
    × (t.signalled t.changed ≡ false)
    × ((c : ℕ) → t.conns c ≡ is_tracked (t.states c))
    × ((c : ℕ) → has_close_all life ≡ true → t.conns c ≡ true → t.doomed c ≡ true)
tracker_exact_example = tracker_exact life
