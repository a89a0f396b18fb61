-- ===== src/Supervisor/Leases.antt =====
-- `activeRequests` counts the release functions that were handed out and not yet called.
use lazywrap.Base.{
  ℕ, Bool-cases, inl, inr, ◌==◌, zero, suc, ◌≤◌, ◌<◌, ◌≡◌, refl, Bool, true, false, List, some,
  arith, if◌then◌else◌,
}
use lazywrap.Config.Types.{RuntimeAppConfig}
use lazywrap.Supervisor.Machine.{StopperPc, enters, Machine, update, new_service}
use lazywrap.Supervisor.Locked.{
  Keeps-elim, acquire_locked, begin_stop_locked, release, idle, stop_in, fail,
}
use lazywrap.Supervisor.Goroutines.{Report, work, quit}
use lazywrap.Supervisor.Run.{Event, acquires, releases, quits, step, run, run-Next}

-- How many of the first `n` release functions have not run.
pub outstanding : ℕ → (ℕ → Bool) → ℕ
outstanding zero released = 0
outstanding (suc n) released =
    if released n then outstanding n released else suc (outstanding n released)

pub outstanding-lt : (n k : ℕ) (f : ℕ → Bool) → k < n → f k ≡ false → 0 < outstanding n f
unfolding outstanding
outstanding-lt zero k f lt h = absurd (omega arith)
outstanding-lt (suc n) k f lt h = elim (Bool-cases (f n)) [
  | inr e ↦ ground (arith, e)
  | inl e ↦ rw e (
      outstanding-lt n k f
        (elim (Bool-cases (k == n)) [
          | inl s ↦ absurd (ground (arith, s, e, h))
          | inr s ↦ ground (arith, s, lt)
        ])
        h)
]

outstanding-update_of_le :
    (n : ℕ) (f : ℕ → Bool) (k : ℕ) → n ≤ k → outstanding n (update f k true) ≡ outstanding n f
unfolding outstanding
outstanding-update_of_le zero f k h = refl
outstanding-update_of_le (suc n) f k h = ground (arith, outstanding-update_of_le n f k)

outstanding-update :
    (n : ℕ) (f : ℕ → Bool) (k : ℕ)
    → k < n
    → f k ≡ false
    → outstanding n f ≡ suc (outstanding n (update f k true))
unfolding outstanding
outstanding-update zero f k h e = absurd (omega arith)
outstanding-update (suc n) f k h e =
    ground (arith, outstanding-update n f k, outstanding-update_of_le n f k)

pub record Leases (m : Machine) : Type 0 where
  pub fresh : (k : ℕ) → m.granted ≤ k → m.released k ≡ false
  pub counted : m.active_requests ≡ outstanding m.granted m.released

acquire_locked-Leases : (m : Machine) → Leases m → Leases (acquire_locked m).1
unfolding acquire_locked outstanding
acquire_locked-Leases m v = record {
  fresh = λ k h. ground (arith, v.fresh k);
  counted = ground (arith, v.fresh m.granted);
}

release-Leases :
    (cfg : RuntimeAppConfig) (k : ℕ) (m : Machine) → Leases m → Leases (release cfg k m)
unfolding release
release-Leases cfg k m v = record {
  fresh = λ i h. ground (arith, v.fresh i);
  counted = ground (arith, outstanding-update m.granted m.released k);
}

-- The fields that `Leases` speaks of are the same.
abbrev SameLeases : Machine → Machine → Type 0
SameLeases m n =
    (n.granted ≡ m.granted) × (n.released ≡ m.released) × (n.active_requests ≡ m.active_requests)

SameLeases-Leases : (m n : Machine) → SameLeases m n → Leases m → Leases n
SameLeases-Leases m n (g, r, a) v = record {
  fresh = rw (g, r) v.fresh;
  counted = rw (a, g, r) v.counted;
}

quit-SameLeases :
    (cfg : RuntimeAppConfig) (m m' : Machine) (j : ℕ) (pc : StopperPc) (r : Report)
    → quit pc cfg j r m ≡ some m'
    → SameLeases m m'
unfolding quit
quit-SameLeases cfg m m' j enters r h = ground arith
quit-SameLeases cfg m m' j _ r h = ground arith

step-Leases :
    (cfg : RuntimeAppConfig) (e : Event) (m m' : Machine)
    → Leases m
    → step cfg e m ≡ some m'
    → Leases m'
unfolding step idle begin_stop_locked stop_in work fail
step-Leases cfg acquires m m' v h =
    Keeps-elim Leases (step cfg acquires m) (acquire_locked-Leases m v) h
step-Leases cfg (releases k) m m' v h =
    Keeps-elim Leases (step cfg (releases k) m) (release-Leases cfg k m v) h
step-Leases cfg (quits j r) m m' v h =
    SameLeases-Leases m m' (quit-SameLeases cfg m m' j (m.stoppers j) r h) v
step-Leases cfg e m m' v h = SameLeases-Leases m m' (ground arith) v

new_service-Leases : Leases new_service
unfolding new_service outstanding
new_service-Leases = record { fresh = λ k h. refl; counted = refl }

-- In every reachable state `activeRequests` is the number of leases that `Acquire` has handed out
-- and that were not released, however often the release functions were called.
pub run-Leases :
    (cfg : RuntimeAppConfig) (es : List Event) (m : Machine)
    → run cfg es new_service ≡ some m
    → m.active_requests ≡ outstanding m.granted m.released
run-Leases cfg es m h =
    (run-Next Leases cfg (step-Leases cfg) es new_service m new_service-Leases h).counted
