-- ===== src/Tests/SleeplockRuns.antt =====
-- Two processes at a sleep lock of xv6A1/sleeplock.c.
use operating_system_design.Prelude.{ℕ, refl, [], ◌∷◌, zero, suc}
use operating_system_design.Proc.{running, addr, Table, at, zero_proc}
use operating_system_design.Proc.Wake.{SleepsOn}
use operating_system_design.Sleeplock.{initsleeplock, acquiresleep}
use operating_system_design.Sleeplock.Turns.{
  Shared, acquired_by, released_to, Reach, here, next, acquires, releases, IsFair, free,
  Reach-IsFair,
}

abbrev two : Table
two = record {
  procs =
      record zero_proc { state = running; pid = 5 }
      ∷ (record zero_proc { state = running; pid = 6 } ∷ []);
  nextpid = 7;
  initproc = 0;
}

abbrev at_rest : Shared
at_rest = record { lock = initsleeplock; table = two; holders = [] }

nobody_sleeps : (i : ℕ) → ¬ SleepsOn (addr 900) (at two i)
nobody_sleeps zero s = let z = s.0 in cc
nobody_sleeps (suc zero) s = let z = s.0 in cc
nobody_sleeps (suc (suc i)) s = let z = s.0 in cc

-- Slot 0 gets the lock, slot 1 sleeps for it, and slot 0 releases it.
abbrev contended : Shared
contended = acquired_by 900 1 (acquired_by 900 0 at_rest)

at_rest-Reach : Reach 900 at_rest (released_to 900 [] contended)
unfolding acquiresleep
at_rest-Reach = next (next (next here (acquires 0)) (acquires 1)) (releases 0 refl)

Reach-IsFair_example : IsFair 900 (released_to 900 [] contended)
Reach-IsFair_example = Reach-IsFair 900 (free refl refl nobody_sleeps) at_rest-Reach
