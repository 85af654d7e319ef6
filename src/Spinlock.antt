-- ===== src/Spinlock.antt =====
-- xv6A1/spinlock.c: a spin lock, and the nesting of disabled interrupts on a processor. A processor
-- is its number. `name` and `pcs` are left out: they serve debugging.
pub mod Nesting
use operating_system_design.Prelude.{
  ℕ, Bool, true, false, not, ◌&&◌, Option, none, some, ◌==◌, if◌then◌else◌, add32, sub32, is_neg,
}
use operating_system_design.Proc.{is_slot}

-- The fields of `struct cpu` that these functions use, with the interrupt flag of the processor.
pub record Cpu : Type 0 where
  pub flag : Bool
  pub ncli : ℕ
  pub intena : Bool

pub record Spinlock : Type 0 where
  pub locked : Bool
  pub cpu : Option ℕ

unfoldable pub pushcli : Cpu → Cpu
pushcli c = record {
  flag = false;
  ncli = add32 c.ncli 1;
  intena = if c.ncli == 0 then c.flag else c.intena;
}

-- `popcli`: `none` is a panic.
unfoldable pub popcli : Cpu → Option Cpu
popcli c =
    let n = sub32 c.ncli 1 in
    if c.flag
    then none
    else if is_neg n
    then none
    else some (record c { flag = (n == 0) && c.intena; ncli = n })

unfoldable pub holding : ℕ → Spinlock → Cpu → Option (Bool × Cpu)
holding me lk c = elim (popcli (pushcli c)) [
  | none ↦ none
  | some c' ↦ some (lk.locked && is_slot lk.cpu me, c')
]

-- How `acquire` ends: with the lock, in the loop because the lock is taken, or in a panic.
pub data Acquired : Type 0 where
  acquired : Spinlock → Cpu → Acquired
  spins : Cpu → Acquired
  panics : Acquired

-- `acquire` from the `xchg` on, for what `holding` says.
unfoldable pub exchange : ℕ → Spinlock → Option (Bool × Cpu) → Acquired
exchange me lk none = panics
exchange me lk (some (true, c)) = panics
exchange me lk (some (false, c)) =
    if lk.locked then spins c else acquired (record { locked = true; cpu = some me }) c

unfoldable pub acquire : ℕ → Spinlock → Cpu → Acquired
acquire me lk c = let c1 = pushcli c in exchange me lk (holding me lk c1)

-- `release` for what `holding` says.
unfoldable pub let_go : Spinlock → Option (Bool × Cpu) → Option (Spinlock × Cpu)
let_go lk none = none
let_go lk (some (false, c)) = none
let_go lk (some (true, c)) = elim (popcli c) [
  | none ↦ none
  | some c' ↦ some (record { locked = false; cpu = none }, c')
]

unfoldable pub release : ℕ → Spinlock → Cpu → Option (Spinlock × Cpu)
release me lk c = let_go lk (holding me lk c)
