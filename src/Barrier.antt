-- ===== src/Barrier.antt =====
-- a2/sysproc.c: the barrier. The lock is left out: a call runs whole up to its return or its sleep.
pub mod Round
use operating_system_design.Prelude.{
  ℕ, ◌+◌, ◌^◌, Bool, List, [], ◌∷◌, set, take, ltb, leb, if◌then◌else◌, add32, sub32, is_nonpos,
}
use operating_system_design.Proc.{nproc}

-- `kernel_barrier`
pub record KernelBarrier : Type 0 where
  pub num_procs : ℕ
  pub arrived : ℕ
  pub pids : List ℕ

-- How `sys_barrier` ends: asleep on the caller's pid, or with wakeups of pids, or outside the
-- array.
pub data Arrived : Type 0 where
  sleeps : KernelBarrier → Arrived
  releases : List ℕ → KernelBarrier → Arrived
  fault : Arrived

unfoldable pub sys_barrier_init : ℕ → KernelBarrier → KernelBarrier
sys_barrier_init procs b = record b { num_procs = procs; arrived = 0 }

-- `a < b` of `int`s
abbrev pub int_lt : ℕ → ℕ → Bool
int_lt a b = ltb (add32 a (2 ^ 31)) (add32 b (2 ^ 31))

unfoldable pub sys_barrier : ℕ → KernelBarrier → Arrived
sys_barrier me b =
    let n = add32 b.arrived 1 in
    if int_lt n b.num_procs
    then (if ltb (sub32 n 1) nproc
        then sleeps (record b { arrived = n; pids = set b.pids (sub32 n 1) me })
        else fault)
    else if is_nonpos b.num_procs
    then releases [] (record b { arrived = 0 })
    else if leb b.num_procs nproc
    then releases (take b.num_procs b.pids) (record b { arrived = 0 })
    else fault
