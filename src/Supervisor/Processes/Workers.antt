-- ===== src/Supervisor/Processes/Workers.antt =====
-- The goroutine `start` and the processes.
use lazywrap.Base.{ℕ, ◌≡◌, ◌<◌, arith, some}
use lazywrap.Config.Types.{RuntimeAppConfig}
use lazywrap.Supervisor.Machine.{WorkerPc, runs_build, Machine}
use lazywrap.Supervisor.Locked.{fail}
use lazywrap.Supervisor.Goroutines.{Report, work}
use lazywrap.Supervisor.Channels.{Channels}
use lazywrap.Supervisor.Processes.{Processes, Holds, Sees, IsKept}

module _ (cfg : RuntimeAppConfig) (m m' : Machine) (c : Channels m) (v : Processes m) (k : ℕ) where
  work_known :
      (pc : WorkerPc) (r : Report)
      → m.workers k ≡ pc
      → work pc cfg k r m ≡ some m'
      → (p : ℕ) → m'.process ≡ some p
      → p < m'.launches
  unfolding work fail
  work_known runs_build r at h p e = ground (arith, v.known p)
  work_known _ r at h p e = ground (arith, v.known p, v.in_worker k)

  work_in_worker :
      (pc : WorkerPc) (r : Report)
      → m.workers k ≡ pc
      → work pc cfg k r m ≡ some m'
      → (i : ℕ) → Holds m' (m'.workers i)
  unfolding work fail
  work_in_worker runs_build r at h i = ground (arith, v.in_worker i)
  work_in_worker _ r at h i =
      ground (arith, v.in_worker i, v.in_worker k, c.active_current i, c.active_current k)

  work_in_stopper :
      (pc : WorkerPc) (r : Report)
      → m.workers k ≡ pc
      → work pc cfg k r m ≡ some m'
      → (j : ℕ) → Sees m' (m'.stoppers j)
  unfolding work fail
  work_in_stopper runs_build r at h j = ground (arith, v.in_stopper j)
  work_in_stopper _ r at h j = ground (arith, v.in_stopper j, c.past_worker j k)

  work-IsKept :
      (pc : WorkerPc) (r : Report)
      → m.workers k ≡ pc
      → work pc cfg k r m ≡ some m'
      → (p : ℕ) → p < m'.launches
      → IsKept m' p
  unfolding work fail
  work-IsKept runs_build r at h p lt = ground (arith, v.kept p, c.active_current k)
  work-IsKept _ r at h p lt = ground (arith, v.kept p, v.in_worker k, c.active_current k)

  pub work-Processes :
      (pc : WorkerPc) (r : Report) → m.workers k ≡ pc → work pc cfg k r m ≡ some m' → Processes m'
  unfolding work fail
  work-Processes pc r at h = record {
    known = work_known pc r at h;
    settled = λ s. ground (arith, v.settled, v.in_worker k, c.active_current k);
    in_worker = work_in_worker pc r at h;
    in_stopper = work_in_stopper pc r at h;
    kept = work-IsKept pc r at h;
  }
