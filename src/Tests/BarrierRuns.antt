-- ===== src/Tests/BarrierRuns.antt =====
-- Three processes at the barrier of a2/sysproc.c.
use operating_system_design.Prelude.{
  ℕ, ◌<◌, ◌≡◌, some, List, [], ◌∷◌, get_or, replicate, arith, length-replicate,
}
use operating_system_design.Barrier.{KernelBarrier, releases, sys_barrier_init, sys_barrier}
use operating_system_design.Barrier.Round.{arrive_all, sys_barrier_lem}

abbrev fresh : KernelBarrier
fresh = record { num_procs = 0; arrived = 0; pids = replicate 64 0 }

sys_barrier_example :
    (b' b'' : KernelBarrier) × (woken : List ℕ) × (arrive_all
        (4 ∷ (7 ∷ []))
        (sys_barrier_init 3 fresh)
      ≡ some b')
    × (sys_barrier 5 b' ≡ releases woken b'')
    × (b''.arrived ≡ 0)
    × ((j : ℕ) → j < 2 → get_or woken j 0 ≡ get_or (4 ∷ (7 ∷ [])) j 0)
sys_barrier_example =
    sys_barrier_lem (4 ∷ (7 ∷ [])) 5 fresh (omega arith) (length-replicate {A = ℕ} 64 0)
