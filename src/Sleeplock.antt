-- ===== src/Sleeplock.antt =====
-- xv6A1/sleeplock.c over the process table. The address of the lock is its sleep channel. Each
-- function runs under the lock's spin lock, so a turn of `acquiresleep` up to its `sleep` or its
-- end is one step.
pub mod Turns
use operating_system_design.Prelude.{ℕ, Bool, true, false, not, ◌&&◌, ◌==◌, if◌then◌else◌}
use operating_system_design.Proc.{Chan, addr, Table, at}
use operating_system_design.Proc.Sched.{wakeup, sleep}

-- `struct sleeplock` without its spin lock and its name.
pub record Sleeplock : Type 0 where
  pub locked : ℕ
  pub pid : ℕ

abbrev pub initsleeplock : Sleeplock
initsleeplock = record { locked = 0; pid = 0 }

-- A turn of `acquiresleep` by process `cur`: whether it has the lock at the end.
unfoldable pub acquiresleep : ℕ → ℕ → Sleeplock → Table → Bool × Sleeplock × Table
acquiresleep chan cur lk t =
    if not (lk.locked == 0)
    then (false, lk, sleep cur (addr chan) t)
    else (true, record { locked = 1; pid = (at t cur).pid }, t)

-- `releasesleep`
unfoldable pub releasesleep : ℕ → Table → Sleeplock × Table
releasesleep chan t = (record { locked = 0; pid = 0 }, wakeup (addr chan) t)

-- `holdingsleep`
unfoldable pub holdingsleep : ℕ → Sleeplock → Table → Bool
holdingsleep cur lk t = not (lk.locked == 0) && (lk.pid == (at t cur).pid)
