-- ===== src/Proxy/Tcp/Invariant.antt =====
-- What holds of the server between two steps of any goroutine.
use lazywrap.Base.{
  ℕ, ◌≤◌, ◌<◌, ◌≡◌, ◌⊎◌, Bool, true, false, ◌||◌, arith, ◌==◌, ◌+◌, if_lem, if◌then◌else◌,
}
use lazywrap.Base.Counts.{update, count_below, count_below-suc, count_below-update}
use lazywrap.Proxy.Tcp.{
  Pc, absent, acquires, dials, copies, drains, unwinds, releases, signs_off, gone, TcpServer, Loop,
  free, admits, refuses, accept, track_client, close_conn, move, make_conn,
}

-- The wait group counts it.
abbrev pub is_live : Pc → Bool
is_live absent = false
is_live gone = false
is_live _ = true

-- It holds a lease of the supervisor.
abbrev pub has_lease : Pc → Bool
has_lease dials = true
has_lease (copies b) = true
has_lease (drains b) = true
has_lease (unwinds b) = true
has_lease releases = true
has_lease _ = false

-- It still has to close the connection `c`, as the goroutine of the client `h`.
abbrev pub holds : Pc → ℕ → ℕ → Bool
holds absent h c = false
holds gone h c = false
holds signs_off h c = false
holds (copies b) h c = h == c || b == c
holds (drains b) h c = h == c || b == c
holds (unwinds b) h c = h == c || b == c
holds _ h c = h == c

abbrev pub keeps_open : TcpServer → ℕ → Bool
keeps_open s c = holds (s.handlers (s.owner c)) (s.owner c) c

-- The backend connection of a goroutine was made for it.
abbrev pub Backs : TcpServer → ℕ → Pc → Type 0
Backs s h (copies b) = (b < s.opened) × (s.owner b ≡ h)
Backs s h (drains b) = (b < s.opened) × (s.owner b ≡ h)
Backs s h (unwinds b) = (b < s.opened) × (s.owner b ≡ h)
Backs s h _ = Unit

-- The loop of `Serve` has it in hand.
abbrev pub in_hand : Loop → ℕ → Bool
in_hand free c = false
in_hand (admits d) c = d == c
in_hand (refuses d) c = d == c

-- A client in hand was made, for a goroutine that has not begun.
abbrev pub Held : TcpServer → Loop → Type 0
Held s free = Unit
Held s (admits c) = (c < s.opened) × (s.owner c ≡ c) × (s.handlers c ≡ absent) × (s.conns c ≡ false)
Held s (refuses c) =
    (c < s.opened) × (s.owner c ≡ c) × (s.handlers c ≡ absent) × (s.conns c ≡ false)

pub record IsValid (s : TcpServer) : Type 0 where
  pub fresh : (c : ℕ) → s.opened ≤ c → (s.handlers c ≡ absent) × (s.conns c ≡ false)
  pub waiting : s.waits ≡ count_below s.opened is_live s.handlers
  pub leased : s.leases ≡ count_below s.opened has_lease s.handlers
  pub tracked : (c : ℕ) → s.conns c ≡ true → keeps_open s c ≡ true
  pub unclosed :
      (c : ℕ)
      → c < s.opened
      → (s.closed c ≡ true) ⊎ (keeps_open s c ≡ true) ⊎ (in_hand s.loop c ≡ true)
  pub hand : Held s s.loop
  pub own : (h : ℕ) → is_live (s.handlers h) ≡ true → (h < s.opened) × (s.owner h ≡ h)
  pub owned : (c : ℕ) → c < s.opened → s.owner c < s.opened
  pub backs : (h : ℕ) → Backs s h (s.handlers h)

accepts-IsValid :
    (s : TcpServer)
    → IsValid s
    → s.loop ≡ free
    → IsValid (record (make_conn s.opened s) { loop = admits s.opened })
accepts-IsValid s v e = record {
  fresh = λ c h. ground (arith, v.fresh c);
  waiting =
      ground (arith, v.waiting, v.fresh s.opened, count_below-suc s.opened is_live s.handlers);
  leased =
      ground (arith, v.leased, v.fresh s.opened, count_below-suc s.opened has_lease s.handlers);
  tracked = λ c h. ground (arith, v.tracked c, v.fresh c);
  unclosed = λ c h. ground (arith, e, v.unclosed c);
  hand = ground (arith, v.fresh s.opened);
  own = λ h l. ground (arith, v.own h);
  owned = λ c h. ground (arith, v.owned c);
  backs = λ h. ground (arith, v.backs h);
}

module _ (s : TcpServer) (v : IsValid s) (c : ℕ) (held : Held s (admits c)) where
  admits-IsValid :
      s.loop ≡ admits c
      → IsValid (
          move c acquires
            (record s { conns = update s.conns c true; waits = s.waits + 1; loop = free }))
  admits-IsValid e = record {
    fresh = λ d h. ground (arith, held, v.fresh d);
    waiting =
        ground (arith, v.waiting, held, count_below-update s.opened is_live s.handlers c acquires);
    leased =
        ground (arith, v.leased, held, count_below-update s.opened has_lease s.handlers c acquires);
    tracked = λ d h. ground (arith, held, v.tracked d);
    unclosed = λ d h. ground (arith, e, held, v.unclosed d);
    hand = tt;
    own = λ h l. ground (arith, held, v.own h);
    owned = v.owned;
    backs = λ h. ground (arith, held, v.backs h);
  }

  refuses-IsValid : s.loop ≡ admits c → IsValid (record s { loop = refuses c })
  refuses-IsValid e = record {
    fresh = v.fresh;
    waiting = v.waiting;
    leased = v.leased;
    tracked = v.tracked;
    unclosed = λ d h. ground (arith, e, v.unclosed d);
    hand = held;
    own = v.own;
    owned = v.owned;
    backs = v.backs;
  }

closes-IsValid :
    (s : TcpServer) (c : ℕ)
    → IsValid s
    → s.loop ≡ refuses c
    → IsValid (record (close_conn c s) { loop = free })
unfolding close_conn
closes-IsValid s c v e = record {
  fresh = v.fresh;
  waiting = v.waiting;
  leased = v.leased;
  tracked = v.tracked;
  unclosed = λ d h. ground (arith, e, v.unclosed d);
  hand = tt;
  own = v.own;
  owned = v.owned;
  backs = v.backs;
}

pub accept-IsValid : (s : TcpServer) → IsValid s → (l : Loop) → s.loop ≡ l → IsValid (accept l s)
unfolding accept track_client
accept-IsValid s v free e = if_lem IsValid s.listening (accepts-IsValid s v e) v
accept-IsValid s v (admits c) e =
    let held : Held s (admits c) = rw e at v.hand in
    if_lem
      (λ (r : TcpServer × Bool). IsValid (
        if r.1
        then move c acquires (record r.0 { loop = free })
        else record r.0 { loop = refuses c }))
      s.closing (refuses-IsValid s v c held e) (admits-IsValid s v c held e)
accept-IsValid s v (refuses c) e = closes-IsValid s c v e
