-- ===== src/Proxy/Tcp/Shutdown.antt =====
-- internal/proxy/tcp.go: what any interleaving of `Serve`, `handle` and `Shutdown` keeps, and what
-- `Shutdown` promises when it returns.
use mathlib.Core.Path.{subst}
use lazywrap.Base.{
  ℕ, ◌<◌, ◌≡◌, refl, ◌⊎◌, Bool, true, false, ◌||◌, List, [], ◌∷◌, Option, some, arith, if_lem,
}
use lazywrap.Base.Counts.{count_below, count_below-zero, count_below_none}
use lazywrap.Proxy.Tcp.{
  absent, Loop, free, admits, refuses, TcpServer, begin_serve, begin_shutdown, shut_conn,
  close_conn, new_server, Event, ServeError, serves, accepts, shuts_down, handles, shuts, step, run,
  is_idle,
}
use lazywrap.Proxy.Tcp.Invariant.{
  is_live, has_lease, keeps_open, in_hand, Held, IsValid, accept-IsValid,
}
use lazywrap.Proxy.Tcp.Backends.{handle-IsValid}

new_server-IsValid : IsValid new_server
unfolding new_server
new_server-IsValid = record {
  fresh = λ c le. (refl, refl);
  waiting = ground (arith, count_below_none 0 is_live (λ h. absent));
  leased = ground (arith, count_below_none 0 has_lease (λ h. absent));
  tracked = λ c p. ground (arith);
  unclosed = λ c lt. absurd (omega arith);
  hand = tt;
  own = λ h l. ground (arith);
  owned = λ c lt. absurd (omega arith);
  backs = λ h. tt;
}

same-Held :
    (s : TcpServer) (l g : Bool) (d cl : ℕ → Bool) (k : Loop)
    → Held s k
    → Held (record s { listening = l; closing = g; doomed = d; closed = cl }) k
same-Held s l g d cl free x = tt
same-Held s l g d cl (admits c) x = x
same-Held s l g d cl (refuses c) x = x

-- A change of the fields that the invariant does not read, and connections closed.
more_closed :
    (s : TcpServer) (l g : Bool) (d cl : ℕ → Bool)
    → IsValid s
    → ((c : ℕ) → s.closed c ≡ true → cl c ≡ true)
    → IsValid (record s { listening = l; closing = g; doomed = d; closed = cl })
more_closed s l g d cl v more = record {
  fresh = v.fresh;
  waiting = v.waiting;
  leased = v.leased;
  tracked = v.tracked;
  unclosed = λ c lt. ground (arith, v.unclosed c lt, more c);
  hand = same-Held s l g d cl s.loop v.hand;
  own = v.own;
  owned = v.owned;
  backs = v.backs;
}

begin_serve-IsValid : (s : TcpServer) → IsValid s → IsValid (begin_serve s).0
unfolding begin_serve
begin_serve-IsValid s v =
    if_lem (λ (r : TcpServer × Option ServeError). IsValid r.0) s.closing v
      (if_lem (λ (r : TcpServer × Option ServeError). IsValid r.0) s.listening v
        (more_closed s true s.closing s.doomed s.closed v (λ c p. p)))

begin_shutdown-IsValid : (s : TcpServer) → IsValid s → IsValid (begin_shutdown s)
unfolding begin_shutdown
begin_shutdown-IsValid s v =
    more_closed s s.listening true (λ c. s.doomed c || s.conns c) s.closed v (λ c p. p)

shut_conn-IsValid : (c : ℕ) (s : TcpServer) → IsValid s → IsValid (shut_conn c s)
unfolding shut_conn close_conn
shut_conn-IsValid c s v =
    if_lem IsValid (s.doomed c)
      (more_closed s s.listening s.closing s.doomed _ v (λ d p. ground (arith))) v

step-IsValid :
    (e : Event) (s : TcpServer) → IsValid s → (t : TcpServer) × (step e s ≡ some t) × IsValid t
unfolding step
step-IsValid serves s v = (_, refl, begin_serve-IsValid s v)
step-IsValid accepts s v = (_, refl, accept-IsValid s v s.loop refl)
step-IsValid (handles h ok) s v = handle-IsValid h ok s v (s.handlers h) refl
step-IsValid shuts_down s v = (_, refl, begin_shutdown-IsValid s v)
step-IsValid (shuts c) s v = (_, refl, shut_conn-IsValid c s v)

run-IsValid :
    (es : List Event) (s : TcpServer)
    → IsValid s
    → (t : TcpServer) × (run es s ≡ some t) × IsValid t
unfolding run
run-IsValid [] s v = (s, refl, v)
run-IsValid (e ∷ es) s v =
    let (t, q, w) = step-IsValid e s v in
    let (u, r, x) = run-IsValid es t w in (u, ground (arith, q, r), x)

-- However the goroutines of a server interleave, its wait group never goes below zero: it counts the
-- goroutines `handle` that began and did not end, and as many leases of the supervisor are out as
-- goroutines hold one.
pub run_counts :
    (es : List Event)
    → (t : TcpServer) × (run es new_server ≡ some t)
      × (t.waits ≡ count_below t.opened is_live t.handlers)
      × (t.leases ≡ count_below t.opened has_lease t.handlers)
run_counts es =
    let (t, q, v) = run-IsValid es new_server new_server-IsValid in (t, q, v.waiting, v.leased)

module _ {s : TcpServer} (v : IsValid s) (idle : is_idle s ≡ true) where
  no_live : (h : ℕ) → h < s.opened → is_live (s.handlers h) ≡ false
  no_live = count_below-zero s.opened is_live s.handlers (ground (arith, v.waiting))

  none_open : (c : ℕ) → c < s.opened → keeps_open s c ≡ false
  none_open c lt = ground (arith, no_live (s.owner c) (v.owned c lt))

  idle-untracked : (c : ℕ) → s.conns c ≡ false
  idle-untracked c = ground (arith, v.fresh c, v.tracked c, none_open c)

  idle-closed : (c : ℕ) → c < s.opened → (s.closed c ≡ true) ⊎ (in_hand s.loop c ≡ true)
  idle-closed c lt = ground (arith, v.unclosed c lt, none_open c lt)

  idle-leases : s.leases ≡ 0
  idle-leases = ground (
    arith,
    v.leased,
    count_below_none s.opened has_lease s.handlers (λ h lt. ground (arith, no_live h lt)),
  )

-- When the wait group is at zero, so that `Shutdown` returns nil, after any interleaving from the
-- start, then every connection that the server accepted or dialled is closed, but for the one client
-- that the loop of `Serve` may have in hand, between `Accept` and `trackClient` or before it closes a
-- client that was refused; none is tracked, and no lease of the supervisor is left.
pub idle_clean :
    (es : List Event) (t : TcpServer)
    → run es new_server ≡ some t
    → is_idle t ≡ true
    → ((c : ℕ) → c < t.opened → (t.closed c ≡ true) ⊎ (in_hand t.loop c ≡ true))
      × ((c : ℕ) → t.conns c ≡ false)
      × (t.leases ≡ 0)
idle_clean es t q idle =
    let (u, r, v) = run-IsValid es new_server new_server-IsValid in
    let same : u ≡ t = cc in
    let w = subst IsValid same v in (idle-closed w idle, idle-untracked w idle, idle-leases w idle)
