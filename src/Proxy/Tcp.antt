-- ===== src/Proxy/Tcp.antt =====
-- internal/proxy/tcp.go: `TCPServer`, with the goroutines `handle` of its connections.
--
-- A connection is named by the number of those that were made before it, and a goroutine `handle` by
-- its client's connection. What `Close` does outside the lock and the section that follows it are
-- one step: closing a connection twice does no harm. `none` is the panic of a negative wait group.
pub mod Invariant
pub mod Handling
pub mod Closing
mod Samples
pub mod Shutdown
pub mod Backends
use lazywrap.Base.{
  ℕ, suc, ◌+◌, ◌-◌, Bool, true, false, ◌&&◌, ◌||◌, List, [], ◌∷◌, Option, none, some, ◌==◌,
  if◌then◌else◌,
}
use lazywrap.Base.Counts.{update}

-- Where a goroutine `handle` stands.
pub data Pc : Type 0 where
  absent : Pc
  acquires : Pc  -- in `sup.Acquire`
  dials : Pc  -- in `DialContext`
  copies : ℕ → Pc  -- before the first `<-errc`, with this backend connection
  drains : ℕ → Pc  -- before the second
  unwinds : ℕ → Pc  -- before the deferred `untrackAndClose(backend)`
  releases : Pc  -- before the deferred `release()`
  untracks : Pc  -- before the deferred `untrackAndClose(client)`
  signs_off : Pc  -- before the deferred `wg.Done()`
  gone : Pc

-- The client that the loop of `Serve` has in hand.
pub data Loop : Type 0 where
  free : Loop  -- in `Accept`
  admits : ℕ → Loop  -- before `trackClient`
  refuses : ℕ → Loop  -- before `client.Close()`, since it was not tracked

pub record TcpServer : Type 0 where
  -- the fields of `TCPServer`
  pub listening : Bool  -- `listener` is not nil
  pub conns : ℕ → Bool
  pub closing : Bool
  pub waits : ℕ  -- `wg`
  -- what has been made, and the state of each
  pub opened : ℕ
  pub closed : ℕ → Bool
  pub owner : ℕ → ℕ  -- the goroutine that a connection was made for
  pub loop : Loop
  pub handlers : ℕ → Pc
  pub leases : ℕ  -- release functions of the supervisor that did not run
  pub doomed : ℕ → Bool  -- in the list that a `Shutdown` closes

-- `NewTCPEndpointServer`
unfoldable pub new_server : TcpServer
new_server = record {
  listening = false;
  conns = λ _. false;
  closing = false;
  waits = 0;
  opened = 0;
  closed = λ _. false;
  owner = λ c. c;
  loop = free;
  handlers = λ _. absent;
  leases = 0;
  doomed = λ _. false;
}

pub data ServeError : Type 0 where
  server_closed already_serving : ServeError

-- The section of `Serve` under the lock: an error, or the loop over `Accept` begins.
unfoldable pub begin_serve : TcpServer → TcpServer × Option ServeError
begin_serve s =
    if s.closing
    then (s, some server_closed)
    else if s.listening
    then (s, some already_serving)
    else (record s { listening = true }, none)

-- `track`
unfoldable pub track : ℕ → TcpServer → TcpServer × Bool
track c s = if s.closing then (s, false) else (record s { conns = update s.conns c true }, true)

-- `trackClient`
unfoldable pub track_client : ℕ → TcpServer → TcpServer × Bool
track_client c s =
    if s.closing
    then (s, false)
    else (record s { conns = update s.conns c true; waits = s.waits + 1 }, true)

unfoldable pub close_conn : ℕ → TcpServer → TcpServer
close_conn c s = record s { closed = update s.closed c true }

unfoldable pub untrack_and_close : ℕ → TcpServer → TcpServer
unfolding close_conn
untrack_and_close c s = let t = close_conn c s in record t { conns = update t.conns c false }

abbrev pub move : ℕ → Pc → TcpServer → TcpServer
move h pc s = record s { handlers = update s.handlers h pc }

-- A connection is made for the goroutine `h`.
abbrev pub make_conn : ℕ → TcpServer → TcpServer
make_conn h s = record s { opened = suc s.opened; owner = update s.owner s.opened h }

-- A step of the loop of `Serve`, from one of its points to the next: `Accept` returns a client, the
-- section of `trackClient` and `go s.handle(client)`, and the close of a client that was refused.
unfoldable pub accept : Loop → TcpServer → TcpServer
unfolding track_client close_conn
accept free s = if s.listening then record (make_conn s.opened s) { loop = admits s.opened } else s
accept (admits c) s =
    let (t, admitted) = track_client c s in
    if admitted then move c acquires (record t { loop = free }) else record t { loop = refuses c }
accept (refuses c) s = record (close_conn c s) { loop = free }

-- `handle`, after the backend was dialled.
unfoldable pub track_backend : ℕ → TcpServer → TcpServer
unfolding track close_conn
track_backend h s =
    let b = s.opened in
    let (t, admitted) = track b (make_conn h s) in
    if admitted then move h (copies b) t else move h releases (close_conn b t)

-- The goroutine `handle` of the client `h`, from one point where it waits to the next; `ok` is what
-- `Acquire` or the dialler answers.
unfoldable pub handle : Pc → ℕ → Bool → TcpServer → Option TcpServer
unfolding track_backend untrack_and_close close_conn
handle acquires h true s = some (move h dials (record s { leases = s.leases + 1 }))
handle acquires h false s = some (move h untracks s)
handle dials h true s = some (track_backend h s)
handle dials h false s = some (move h releases s)
handle (copies b) h ok s = some (move h (drains b) (close_conn b (close_conn h s)))
handle (drains b) h ok s = some (move h (unwinds b) s)
handle (unwinds b) h ok s = some (move h releases (untrack_and_close b s))
handle releases h ok s = some (move h untracks (record s { leases = s.leases - 1 }))
handle untracks h ok s = some (move h signs_off (untrack_and_close h s))
handle signs_off h ok s =
    if s.waits == 0 then none else some (move h gone (record s { waits = s.waits - 1 }))
handle _ h ok s = some s

-- The section of `Shutdown` under the lock: the connections to close are those tracked now.
unfoldable pub begin_shutdown : TcpServer → TcpServer
begin_shutdown s = record s { closing = true; doomed = λ c. s.doomed c || s.conns c }

-- One round of the loop of `Shutdown` over these connections.
unfoldable pub shut_conn : ℕ → TcpServer → TcpServer
unfolding close_conn
shut_conn c s = if s.doomed c then close_conn c s else s

-- `Shutdown` returns nil once this holds.
abbrev pub is_idle : TcpServer → Bool
is_idle s = s.waits == 0

pub data Event : Type 0 where
  serves accepts shuts_down : Event
  handles : ℕ → Bool → Event
  shuts : ℕ → Event

unfoldable pub step : Event → TcpServer → Option TcpServer
unfolding begin_serve accept handle begin_shutdown shut_conn
step serves s = some (begin_serve s).0
step accepts s = some (accept s.loop s)
step (handles h ok) s = handle (s.handlers h) h ok s
step shuts_down s = some (begin_shutdown s)
step (shuts c) s = some (shut_conn c s)

unfoldable pub run : List Event → TcpServer → Option TcpServer
unfolding step
run [] s = some s
run (e ∷ es) s = elim (step e s) [ none ↦ none | some t ↦ run es t ]
