-- ===== src/Proxy/Tcp/Closing.antt =====
-- internal/proxy/tcp.go: what `Shutdown` stops.
use mathlib.Core.Path.{subst}
use lazywrap.Base.{
  ℕ, ◌≤◌, ◌≡◌, refl, inl, inr, Bool, true, List, [], ◌∷◌, some, arith, Option-cases, if_lem,
}
use lazywrap.Proxy.Tcp.{
  Pc, Loop, TcpServer, handle, track, track_backend, untrack_and_close, track_client, begin_serve,
  begin_shutdown, shut_conn, accept, close_conn, Event, serves, accepts, shuts_down, handles, shuts,
  step, run,
}

-- The server `t` is closing, and it waits for and tracks no more than `s` does.
record IsLess (s t : TcpServer) : Type 0 where
  closing : t.closing ≡ true
  waits : t.waits ≤ s.waits
  conns : (c : ℕ) → t.conns c ≡ true → s.conns c ≡ true
  doomed : (c : ℕ) → s.doomed c ≡ true → t.doomed c ≡ true
  closed : (c : ℕ) → s.closed c ≡ true → t.closed c ≡ true

IsLess-refl : (s : TcpServer) → s.closing ≡ true → IsLess s s
IsLess-refl s h = record {
  closing = h;
  waits = omega arith;
  conns = λ c p. p;
  doomed = λ c p. p;
  closed = λ c p. p;
}

IsLess-trans : {s t u : TcpServer} → IsLess s t → IsLess t u → IsLess s u
IsLess-trans a b = record {
  closing = b.closing;
  waits = ground (arith, a.waits, b.waits);
  conns = λ c p. a.conns c (b.conns c p);
  doomed = λ c p. b.doomed c (a.doomed c p);
  closed = λ c p. b.closed c (a.closed c p);
}

module _ (s : TcpServer) (h : s.closing ≡ true) where
  accept-IsLess : (l : Loop) → IsLess s (accept l s)
  unfolding accept track_client close_conn
  accept-IsLess l = record {
    closing = ground (arith, h);
    waits = ground (arith, h);
    conns = λ c p. ground (arith, h);
    doomed = λ c p. ground (arith, h);
    closed = λ c p. ground (arith, h);
  }

  handle-IsLess :
      (pc : Pc) (k : ℕ) (ok : Bool) (t : TcpServer) → handle pc k ok s ≡ some t → IsLess s t
  unfolding handle track_backend track untrack_and_close close_conn
  handle-IsLess pc k ok t q = record {
    closing = ground (arith, h);
    waits = ground (arith, h);
    conns = λ c p. ground (arith, h);
    doomed = λ c p. ground (arith, h);
    closed = λ c p. ground (arith, h);
  }

  of_some : {a t : TcpServer} → some a ≡ some t → IsLess s a → IsLess s t
  of_some {a} {t} q l = let same : a ≡ t = cc in subst (IsLess s) same l

  begin_serve-IsLess : IsLess s (begin_serve s).0
  unfolding begin_serve
  begin_serve-IsLess = record {
    closing = ground (arith, h);
    waits = ground (arith, h);
    conns = λ c p. ground (arith, h);
    doomed = λ c p. ground (arith, h);
    closed = λ c p. ground (arith, h);
  }

  step-IsLess : (e : Event) → (t : TcpServer) → step e s ≡ some t → IsLess s t
  unfolding step begin_serve begin_shutdown shut_conn close_conn
  step-IsLess serves t q = of_some q begin_serve-IsLess
  step-IsLess accepts t q = of_some q (accept-IsLess s.loop)
  step-IsLess (handles k ok) t q = handle-IsLess (s.handlers k) k ok t q
  step-IsLess shuts_down t q = of_some q (record {
    closing = refl;
    waits = omega arith;
    conns = λ c p. p;
    doomed = λ c p. ground (arith, p);
    closed = λ c p. p;
  })
  step-IsLess (shuts c) t q = of_some q (
      if_lem (IsLess s) (s.doomed c)
        (record {
          closing = h;
          waits = omega arith;
          conns = λ d p. p;
          doomed = λ d p. p;
          closed = λ d p. ground (arith, p);
        })
        (IsLess-refl s h))

run-IsLess : (es : List Event) (s t : TcpServer) → s.closing ≡ true → run es s ≡ some t → IsLess s t
unfolding run
run-IsLess [] s t h q = of_some s h q (IsLess-refl s h)
run-IsLess (e ∷ es) s t h q = elim (Option-cases (step e s)) [
  | inl n ↦ absurd (ground (arith, n, q))
  | inr (u, p) ↦
      let a = step-IsLess s h e u p in
      IsLess-trans a (run-IsLess es u t a.closing (ground (arith, p, q)))
]

-- After the section of `Shutdown` under the lock, whatever steps the goroutines then take: the wait
-- group is never above what it was, and a connection that is tracked was tracked already and is one of
-- those that `Shutdown` closes.
pub shutdown_stops :
    (es : List Event) (s t : TcpServer)
    → run es (begin_shutdown s) ≡ some t
    → (t.waits ≤ s.waits) × ((c : ℕ) → t.conns c ≡ true → (s.conns c ≡ true) × (t.doomed c ≡ true))
unfolding begin_shutdown
shutdown_stops es s t q =
    let l = run-IsLess es (begin_shutdown s) t refl q in
    (l.waits, λ c p. (l.conns c p, l.doomed c (ground (arith, l.conns c p))))
