-- ===== src/Proxy/Tcp/Handling.antt =====
-- The goroutine `handle` keeps the server's invariant.
use lazywrap.Base.{ℕ, ◌+◌, ◌-◌, ◌<◌, ◌≡◌, ◌≢◌, ◌⊎◌, Bool, true, arith}
use lazywrap.Base.Counts.{bit, update, count_below-update, count_below-zero}
use lazywrap.Proxy.Tcp.{
  Pc, acquires, dials, copies, drains, unwinds, releases, untracks, signs_off, gone, TcpServer,
  Loop, free, admits, refuses, untrack_and_close, close_conn, move,
}
use lazywrap.Proxy.Tcp.Invariant.{
  is_live, has_lease, holds, keeps_open, in_hand, Held, Backs, IsValid,
}

-- The server after a move of the goroutine `h` to `pc`, with what else the move changes.
abbrev moved : ℕ → Pc → ℕ → ℕ → (ℕ → Bool) → (ℕ → Bool) → TcpServer → TcpServer
moved h pc w l cs cl s = record s {
  handlers = update s.handlers h pc;
  waits = w;
  leases = l;
  conns = cs;
  closed = cl;
}

record Moves (h : ℕ) (pc : Pc) (w l : ℕ) (cs cl : ℕ → Bool) (s : TcpServer) : Type 0 where
  live : is_live (s.handlers h) ≡ true
  waits : w + bit (is_live (s.handlers h)) ≡ s.waits + bit (is_live pc)
  leases : l + bit (has_lease (s.handlers h)) ≡ s.leases + bit (has_lease pc)
  untracked : (c : ℕ) → cs c ≡ true → s.conns c ≡ true
  tracked : (c : ℕ) → cs c ≡ true → holds (s.handlers h) h c ≡ true → holds pc h c ≡ true
  closed : (c : ℕ) → s.closed c ≡ true → cl c ≡ true
  handed : (c : ℕ) → holds (s.handlers h) h c ≡ true → (cl c ≡ true) ⊎ (holds pc h c ≡ true)
  backs : Backs s h pc

module _ {h : ℕ} {pc : Pc} {w l : ℕ} {cs cl : ℕ → Bool} {s : TcpServer} (v : IsValid s)
    (m : Moves h pc w l cs cl s) where
  Moves-tracked : (c : ℕ) → cs c ≡ true → keeps_open (moved h pc w l cs cl s) c ≡ true
  Moves-tracked c e = ground (arith, v.tracked c, m.untracked c, m.tracked c)

  Moves-unclosed :
      (c : ℕ)
      → c < s.opened
      → (cl c ≡ true) ⊎ (keeps_open (moved h pc w l cs cl s) c ≡ true) ⊎ (in_hand s.loop c ≡ true)
  Moves-unclosed c lt = ground (arith, v.unclosed c, m.closed c, m.handed c)

  Moves-Backs : (k : ℕ) → Backs (moved h pc w l cs cl s) k (update s.handlers h pc k)
  Moves-Backs k = ground (arith, v.backs k, m.backs)

  Moves-Held : (k : Loop) → Held s k → Held (moved h pc w l cs cl s) k
  Moves-Held free x = tt
  Moves-Held (admits c) x = ground (arith, x, m.live, m.untracked c)
  Moves-Held (refuses c) x = ground (arith, x, m.live, m.untracked c)

  Moves-IsValid : IsValid (moved h pc w l cs cl s)
  Moves-IsValid = record {
    fresh = λ c le. ground (arith, v.fresh c, v.own h, m.live, m.untracked c);
    waiting = ground (
      arith,
      v.waiting,
      m.waits,
      v.own h m.live,
      count_below-update s.opened is_live s.handlers h pc,
    );
    leased = ground (
      arith,
      v.leased,
      m.leases,
      v.own h m.live,
      count_below-update s.opened has_lease s.handlers h pc,
    );
    tracked = Moves-tracked;
    unclosed = Moves-unclosed;
    hand = Moves-Held s.loop v.hand;
    own = λ k e. ground (arith, v.own k, v.own h m.live);
    owned = v.owned;
    backs = Moves-Backs;
  }

module _ (h : ℕ) {s : TcpServer} (v : IsValid s) where
  pub acquires-leased :
      s.handlers h ≡ acquires → IsValid (move h dials (record s { leases = s.leases + 1 }))
  acquires-leased e = Moves-IsValid {w = s.waits} {cs = s.conns} {cl = s.closed} v (record {
    live = ground (arith, e);
    waits = ground (arith, e);
    leases = ground (arith, e);
    untracked = λ c p. p;
    tracked = λ c p q. ground (arith, e);
    closed = λ c p. p;
    handed = λ c q. ground (arith, e);
    backs = tt;
  })

  -- A move that changes nothing but the point where the goroutine stands, and what is counted.
  pub plain :
      (pc target : Pc)
      → s.handlers h ≡ pc
      → is_live pc ≡ true
      → has_lease pc ≡ has_lease target
      → is_live target ≡ true
      → ((c : ℕ) → holds pc h c ≡ holds target h c)
      → Backs s h target
      → IsValid (move h target s)
  plain pc target e live lease live_target hold b =
      Moves-IsValid {w = s.waits} {l = s.leases} {cs = s.conns} {cl = s.closed} v (record {
        live = ground (arith, e);
        waits = ground (arith, e);
        leases = ground (arith, e);
        untracked = λ c p. p;
        tracked = λ c p q. ground (arith, e, hold c);
        closed = λ c p. p;
        handed = λ c q. ground (arith, e, hold c);
        backs = b;
      })

  pub drains-handed :
      (b : ℕ)
      → s.handlers h ≡ copies b
      → IsValid (move h (drains b) (close_conn b (close_conn h s)))
  unfolding close_conn
  drains-handed b e = Moves-IsValid {w = s.waits} {l = s.leases} {cs = s.conns} v (record {
    live = ground (arith, e);
    waits = ground (arith, e);
    leases = ground (arith, e);
    untracked = λ c p. p;
    tracked = λ c p q. ground (arith, e);
    closed = λ c p. ground (arith, p);
    handed = λ c q. ground (arith, e);
    backs = ground (arith, e, v.backs h);
  })

  pub unwinds-closed :
      (b : ℕ) → s.handlers h ≡ unwinds b → IsValid (move h releases (untrack_and_close b s))
  unfolding untrack_and_close close_conn
  unwinds-closed b e = Moves-IsValid {w = s.waits} {l = s.leases} v (record {
    live = ground (arith, e);
    waits = ground (arith, e);
    leases = ground (arith, e);
    untracked = λ c p. ground (arith);
    tracked = λ c p q. ground (arith, e);
    closed = λ c p. ground (arith, p);
    handed = λ c q. ground (arith, e);
    backs = tt;
  })

  pub untracks-closed : s.handlers h ≡ untracks → IsValid (move h signs_off (untrack_and_close h s))
  unfolding untrack_and_close close_conn
  untracks-closed e = Moves-IsValid {w = s.waits} {l = s.leases} v (record {
    live = ground (arith, e);
    waits = ground (arith, e);
    leases = ground (arith, e);
    untracked = λ c p. ground (arith);
    tracked = λ c p q. ground (arith, e);
    closed = λ c p. ground (arith, p);
    handed = λ c q. ground (arith, e);
    backs = tt;
  })

  leased_pos : has_lease (s.handlers h) ≡ true → is_live (s.handlers h) ≡ true → s.leases ≢ 0
  leased_pos e l z = ground (
    arith,
    v.own h l,
    v.leased,
    count_below-zero s.opened has_lease s.handlers (ground (arith, v.leased)) h,
  )

  pub waits_pos : is_live (s.handlers h) ≡ true → s.waits ≢ 0
  waits_pos l z = ground (
    arith,
    v.own h l,
    v.waiting,
    count_below-zero s.opened is_live s.handlers (ground (arith, v.waiting)) h,
  )

  pub releases-released :
      s.handlers h ≡ releases → IsValid (move h untracks (record s { leases = s.leases - 1 }))
  releases-released e = Moves-IsValid {w = s.waits} {cs = s.conns} {cl = s.closed} v (record {
    live = ground (arith, e);
    waits = ground (arith, e);
    leases = ground (arith, e, leased_pos (ground (arith, e)) (ground (arith, e)));
    untracked = λ c p. p;
    tracked = λ c p q. ground (arith, e);
    closed = λ c p. p;
    handed = λ c q. ground (arith, e);
    backs = tt;
  })

  pub signs_off-done :
      s.handlers h ≡ signs_off → IsValid (move h gone (record s { waits = s.waits - 1 }))
  signs_off-done e = Moves-IsValid {l = s.leases} {cs = s.conns} {cl = s.closed} v (record {
    live = ground (arith, e);
    waits = ground (arith, e, waits_pos (ground (arith, e)));
    leases = ground (arith, e);
    untracked = λ c p. p;
    tracked = λ c p q. ground (arith, e);
    closed = λ c p. p;
    handed = λ c q. ground (arith, e);
    backs = tt;
  })
