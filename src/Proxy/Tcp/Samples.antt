-- ===== src/Proxy/Tcp/Samples.antt =====
-- Tests of the TCP proxy: one client, served to the end, and a shutdown, while which another client
-- is accepted and refused but not yet closed.
use lazywrap.Base.{ℕ, ◌≤◌, ◌<◌, ◌≡◌, refl, ◌⊎◌, true, false, List, [], ◌∷◌, none, some}
use lazywrap.Base.Counts.{count_below}
use lazywrap.Proxy.Tcp.{
  TcpServer, Event, serves, accepts, shuts_down, handles, shuts, run, new_server, step, begin_serve,
  accept, track_client, track, close_conn, handle, track_backend, untrack_and_close, begin_shutdown,
  shut_conn,
}
use lazywrap.Proxy.Tcp.Invariant.{is_live, has_lease, in_hand}
use lazywrap.Proxy.Tcp.Shutdown.{run_counts, idle_clean}
use lazywrap.Proxy.Tcp.Closing.{shutdown_stops}

abbrev session : List Event
session =
    serves
    ∷ accepts
    ∷ accepts
    ∷ handles 0 true
    ∷ handles 0 true
    ∷ handles 0 true
    ∷ handles 0 true
    ∷ handles 0 true
    ∷ handles 0 true
    ∷ handles 0 true
    ∷ handles 0 true
    ∷ accepts
    ∷ shuts_down
    ∷ accepts
    ∷ []

abbrev connected : List Event
connected = serves ∷ accepts ∷ accepts ∷ handles 0 true ∷ handles 0 true ∷ []

abbrev stopping : List Event
stopping =
    serves
    ∷ accepts
    ∷ accepts
    ∷ handles 0 true
    ∷ handles 0 true
    ∷ shuts_down
    ∷ shuts 0
    ∷ handles 0 true
    ∷ []

abbrev after : List Event → TcpServer
unfolding run step begin_serve accept track_client track close_conn handle track_backend
    untrack_and_close begin_shutdown shut_conn new_server
after es = elim (run es new_server) [ none ↦ new_server | some t ↦ t ]

run_counts_example :
    (t : TcpServer) × (run session new_server ≡ some t)
    × (t.waits ≡ count_below t.opened is_live t.handlers)
    × (t.leases ≡ count_below t.opened has_lease t.handlers)
run_counts_example = run_counts session

idle_clean_example :
    ((c : ℕ) → c < 3 → ((after session).closed c ≡ true) ⊎ (in_hand (after session).loop c ≡ true))
    × ((c : ℕ) → (after session).conns c ≡ false)
    × ((after session).leases ≡ 0)
unfolding run step begin_serve accept track_client track close_conn handle track_backend
    untrack_and_close begin_shutdown shut_conn new_server
idle_clean_example = idle_clean session (after session) refl refl

shutdown_stops_example :
    ((after stopping).waits ≤ (after connected).waits)
    × ((c : ℕ)
        → (after stopping).conns c ≡ true
        → ((after connected).conns c ≡ true) × ((after stopping).doomed c ≡ true))
unfolding run step begin_serve accept track_client track close_conn handle track_backend
    untrack_and_close begin_shutdown shut_conn new_server
shutdown_stops_example =
    shutdown_stops (shuts 0 ∷ handles 0 true ∷ []) (after connected) (after stopping) refl
