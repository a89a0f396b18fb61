-- ===== src/Proxy/Tcp/Backends.antt =====
-- internal/proxy/tcp.go: every step of `handle` keeps the server's invariant.
use lazywrap.Base.{ℕ, ◌<◌, ◌≡◌, refl, Bool, true, false, some, arith, if◌then◌else◌, if_lem}
use lazywrap.Base.Counts.{update, count_below-suc, count_below-update}
use lazywrap.Proxy.Tcp.{
  Pc, absent, acquires, dials, copies, drains, unwinds, releases, untracks, signs_off, gone,
  TcpServer, Loop, free, admits, refuses, handle, track, track_backend, close_conn, move, make_conn,
}
use lazywrap.Proxy.Tcp.Invariant.{is_live, has_lease, Held, IsValid}
use lazywrap.Proxy.Tcp.Handling.{
  acquires-leased, plain, drains-handed, unwinds-closed, untracks-closed, releases-released,
  signs_off-done, waits_pos,
}

module _ (h : ℕ) {s : TcpServer} (v : IsValid s) (e : s.handlers h ≡ dials) where
  -- The server with the backend connection added, whatever becomes of it.
  abbrev with_backend : Pc → (ℕ → Bool) → (ℕ → Bool) → TcpServer
  with_backend pc cs cl = move h pc (record (make_conn h s) { conns = cs; closed = cl })

  at_dials : (h < s.opened) × (s.owner h ≡ h)
  at_dials = v.own h (ground (arith, e))

  untouched : (c : ℕ) → s.conns c ≡ true → c < s.opened
  untouched c p = ground (arith, v.fresh c)

  backend-Held :
      (pc : Pc) (cs cl : ℕ → Bool) (l : Loop)
      → ((c : ℕ) → c < s.opened → cs c ≡ s.conns c)
      → Held s l
      → Held (with_backend pc cs cl) l
  backend-Held pc cs cl free same x = tt
  backend-Held pc cs cl (admits c) same x = ground (arith, e, x, same c)
  backend-Held pc cs cl (refuses c) same x = ground (arith, e, x, same c)

  tracks-IsValid : IsValid (with_backend (copies s.opened) (update s.conns s.opened true) s.closed)
  tracks-IsValid = record {
    fresh = λ c le. ground (arith, v.fresh c, at_dials);
    waiting = ground (
      arith,
      e,
      v.waiting,
      v.fresh s.opened,
      at_dials,
      count_below-suc s.opened is_live (update s.handlers h (copies s.opened)),
      count_below-update s.opened is_live s.handlers h (copies s.opened),
    );
    leased = ground (
      arith,
      e,
      v.leased,
      v.fresh s.opened,
      at_dials,
      count_below-suc s.opened has_lease (update s.handlers h (copies s.opened)),
      count_below-update s.opened has_lease s.handlers h (copies s.opened),
    );
    tracked = λ c p. ground (arith, e, v.tracked c, untouched c, at_dials);
    unclosed = λ c lt. ground (arith, e, v.unclosed c, at_dials);
    hand =
        backend-Held (copies s.opened) (update s.conns s.opened true) s.closed s.loop
          (λ c lt. ground arith) v.hand;
    own = λ k l. ground (arith, e, v.own k, at_dials);
    owned = λ c lt. ground (arith, v.owned c, at_dials);
    backs = λ k. ground (arith, e, v.backs k, at_dials);
  }

  drops-IsValid : IsValid (with_backend releases s.conns (update s.closed s.opened true))
  drops-IsValid = record {
    fresh = λ c le. ground (arith, v.fresh c, at_dials);
    waiting = ground (
      arith,
      e,
      v.waiting,
      v.fresh s.opened,
      at_dials,
      count_below-suc s.opened is_live (update s.handlers h releases),
      count_below-update s.opened is_live s.handlers h releases,
    );
    leased = ground (
      arith,
      e,
      v.leased,
      v.fresh s.opened,
      at_dials,
      count_below-suc s.opened has_lease (update s.handlers h releases),
      count_below-update s.opened has_lease s.handlers h releases,
    );
    tracked = λ c p. ground (arith, e, v.tracked c, untouched c, at_dials);
    unclosed = λ c lt. ground (arith, e, v.unclosed c, at_dials);
    hand =
        backend-Held releases s.conns (update s.closed s.opened true) s.loop (λ c lt. refl) v.hand;
    own = λ k l. ground (arith, e, v.own k, at_dials);
    owned = λ c lt. ground (arith, v.owned c, at_dials);
    backs = λ k. ground (arith, e, v.backs k, at_dials);
  }

  pub track_backend-IsValid : IsValid (track_backend h s)
  unfolding track_backend track close_conn
  track_backend-IsValid =
      if_lem
        (λ (r : TcpServer × Bool).
          IsValid (
            if r.1
            then move h (copies s.opened) r.0
            else move h releases (close_conn s.opened r.0)))
        s.closing drops-IsValid tracks-IsValid

-- Every step of `handle` keeps the invariant, and does not panic.
pub handle-IsValid :
    (h : ℕ) (ok : Bool) (s : TcpServer)
    → IsValid s
    → (pc : Pc) → s.handlers h ≡ pc
    → (t : TcpServer) × (handle pc h ok s ≡ some t) × IsValid t
unfolding handle
handle-IsValid h true s v acquires e = (_, refl, acquires-leased h v e)
handle-IsValid h false s v acquires e =
    (_, refl, plain h v acquires untracks e refl refl refl (λ c. refl) tt)
handle-IsValid h true s v dials e = (_, refl, track_backend-IsValid h v e)
handle-IsValid h false s v dials e =
    (_, refl, plain h v dials releases e refl refl refl (λ c. refl) tt)
handle-IsValid h ok s v (copies b) e = (_, refl, drains-handed h v b e)
handle-IsValid h ok s v (drains b) e = (
  _,
  refl,
  plain h v (drains b) (unwinds b) e refl refl refl (λ c. refl) (ground (arith, e, v.backs h)),
)
handle-IsValid h ok s v (unwinds b) e = (_, refl, unwinds-closed h v b e)
handle-IsValid h ok s v releases e = (_, refl, releases-released h v e)
handle-IsValid h ok s v untracks e = (_, refl, untracks-closed h v e)
handle-IsValid h ok s v signs_off e =
    (_, ground (arith, waits_pos h v (ground (arith, e))), signs_off-done h v e)
handle-IsValid h ok s v absent e = (s, refl, v)
handle-IsValid h ok s v gone e = (s, refl, v)
