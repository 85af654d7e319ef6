-- ===== src/Proc/Sched.antt =====
-- xv6A1/proc.c: `wakeup1`, `kill`, `sleep`, `yield`, `sched` and the scan of `scheduler`.
use operating_system_design.Prelude.{
  ℕ, ◌+◌, Bool, false, not, ◌&&◌, Option, none, some, List, [], ◌∷◌, map, ◌==◌, set, if◌then◌else◌,
  minus_one,
}
use operating_system_design.Proc.{
  ProcState, sleeping, runnable, running, is_sleeping, is_runnable, is_running, Chan, chan_eq, Proc,
  Table, at,
}

-- The body of the loop of `wakeup1`.
unfoldable pub wake : Chan → Proc → Proc
wake chan p =
    if is_sleeping p.state && chan_eq p.chan chan then record p { state = runnable } else p

-- `wakeup1`, which `wakeup` runs under the lock.
unfoldable pub wakeup : Chan → Table → Table
wakeup chan t = record t { procs = map (wake chan) t.procs }

-- The body of the loop of `kill` at the process found.
unfoldable pub mark_killed : Proc → Proc
mark_killed p = record p { killed = 1; state = if is_sleeping p.state then runnable else p.state }

-- The loop of `kill`: `none` where no slot has the pid.
unfoldable pub kill_loop : ℕ → List Proc → Option (List Proc)
kill_loop pid [] = none
kill_loop pid (p ∷ ps) =
    let rest = kill_loop pid ps in
    if p.pid == pid
    then some (mark_killed p ∷ ps)
    else elim rest [ none ↦ none | some ps' ↦ some (p ∷ ps') ]

unfoldable pub kill : ℕ → Table → ℕ × Table
kill pid t = elim (kill_loop pid t.procs) [
  | none ↦ (minus_one, t)
  | some ps ↦ (0, record t { procs = ps })
]

-- `sleep` up to `sched`. `tidy` is what it does to the process after it is scheduled again.
unfoldable pub sleep : ℕ → Chan → Table → Table
sleep cur chan t = record t {
  procs = set t.procs cur (record (at t cur) { chan = chan; state = sleeping });
}

unfoldable pub tidy : ℕ → Table → Table
tidy cur t = record t { procs = set t.procs cur (record (at t cur) { chan = Chan.null }) }

-- `yield` up to `sched`.
unfoldable pub yield : ℕ → Table → Table
yield cur t = record t { procs = set t.procs cur (record (at t cur) { state = runnable }) }

-- `sched` switches only if none of its four panics fires.
unfoldable pub sched_allowed : (holding : Bool) (ncli : ℕ) (state : ProcState) (intr : Bool) → Bool
sched_allowed holding ncli state intr =
    if not holding
    then false
    else if not (ncli == 1)
    then false
    else if is_running state
    then false
    else not intr

-- The inner loop of `scheduler`, from slot `i` on to the next process that it runs.
unfoldable pub pick : ℕ → List Proc → Option ℕ
pick i [] = none
pick i (p ∷ ps) = if is_runnable p.state then some i else pick (i + 1) ps

-- What `scheduler` does to the process that it switches to.
unfoldable pub dispatch : ℕ → Table → Table
dispatch i t = record t { procs = set t.procs i (record (at t i) { state = running }) }
