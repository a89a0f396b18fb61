-- ===== src/Supervisor/Processes/Stoppers.antt =====
-- The goroutine `stop` and the processes.
use lazywrap.Base.{ℕ, ◌≡◌, ◌<◌, true, none, some, arith}
use lazywrap.Config.Types.{RuntimeAppConfig}
use lazywrap.Supervisor.Machine.{StopperPc, enters, Machine}
use lazywrap.Supervisor.Goroutines.{Report, quit}
use lazywrap.Supervisor.Channels.{Channels}
use lazywrap.Supervisor.Processes.{Processes, is_settled, Holds, Sees, IsKept}

module _ (cfg : RuntimeAppConfig) (m m' : Machine) (c : Channels m) (v : Processes m) (j : ℕ) where
  quit_known :
      (pc : StopperPc) (r : Report)
      → m.stoppers j ≡ pc
      → quit pc cfg j r m ≡ some m'
      → (p : ℕ) → m'.process ≡ some p
      → p < m'.launches
  unfolding quit
  quit_known enters r at h p e = ground (arith, v.known p)
  quit_known _ r at h p e = ground (arith, v.known p)

  quit_settled :
      (pc : StopperPc) (r : Report)
      → m.stoppers j ≡ pc
      → quit pc cfg j r m ≡ some m'
      → is_settled m'.state ≡ true
      → m'.process ≡ none
  unfolding quit
  quit_settled enters r at h s = ground (arith, v.settled)
  quit_settled _ r at h s = ground (arith, v.settled)

  quit_in_worker :
      (pc : StopperPc) (r : Report)
      → m.stoppers j ≡ pc
      → quit pc cfg j r m ≡ some m'
      → (k : ℕ) → Holds m' (m'.workers k)
  unfolding quit
  quit_in_worker enters r at h k = ground (arith, v.in_worker k)
  quit_in_worker _ r at h k = ground (arith, v.in_worker k, c.past_worker j k)

  quit_in_stopper :
      (pc : StopperPc) (r : Report)
      → m.stoppers j ≡ pc
      → quit pc cfg j r m ≡ some m'
      → (i : ℕ) → Sees m' (m'.stoppers i)
  unfolding quit
  quit_in_stopper enters r at h i = ground (arith, v.in_stopper i)
  quit_in_stopper _ r at h i =
      ground (arith, v.in_stopper i, v.in_stopper j, c.live_current i, c.live_current j)

  quit-IsKept :
      (pc : StopperPc) (r : Report)
      → m.stoppers j ≡ pc
      → quit pc cfg j r m ≡ some m'
      → (p : ℕ) → p < m'.launches
      → IsKept m' p
  unfolding quit
  quit-IsKept enters r at h p lt = ground (arith, v.kept p)
  quit-IsKept _ r at h p lt = ground (arith, v.kept p, v.in_stopper j)

  pub quit-Processes :
      (pc : StopperPc) (r : Report) → m.stoppers j ≡ pc → quit pc cfg j r m ≡ some m' → Processes m'
  quit-Processes pc r at h = record {
    known = quit_known pc r at h;
    settled = quit_settled pc r at h;
    in_worker = quit_in_worker pc r at h;
    in_stopper = quit_in_stopper pc r at h;
    kept = quit-IsKept pc r at h;
  }
