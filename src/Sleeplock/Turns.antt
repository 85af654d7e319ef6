-- ===== src/Sleeplock/Turns.antt =====
-- Turns of processes at a sleep lock of xv6A1/sleeplock.c, in any order.
use mathlib.Core.Path.{subst}
use operating_system_design.Prelude.{
  ℕ, ◌≡◌, refl, sym, ap, ◌∙◌, inl, inr, Bool, true, false, List, [], ◌∷◌, arith, ◌==◌,
  if◌then◌else◌,
}
use operating_system_design.Proc.{ProcState, sleeping, Chan, addr, Proc, Table, at}
use operating_system_design.Proc.Sched.{wakeup, sleep}
use operating_system_design.Proc.Slots.{set_cases}
use operating_system_design.Proc.Wake.{SleepsOn, wakeup_exact}
use operating_system_design.Sleeplock.{Sleeplock, acquiresleep, releasesleep}

-- The lock, the process table, and the processes that have got the lock and not released it.
pub record Shared : Type 0 where
  pub lock : Sleeplock
  pub table : Table
  pub holders : List ℕ

-- Nothing that happens to the table starts a wait for this lock or changes a pid.
pub record IsQuiet (chan : ℕ) (t u : Table) : Type 0 where
  pub no_wait : (i : ℕ) → SleepsOn (addr chan) (at u i) → SleepsOn (addr chan) (at t i)
  pub pids : (i : ℕ) → (at u i).pid ≡ (at t i).pid

-- The state after a turn of `acquiresleep`, and after `releasesleep`.
abbrev turned : ℕ → List ℕ → Bool × Sleeplock × Table → Shared
turned cur hs (got, lk, t) = record { lock = lk; table = t; holders = if got then cur ∷ hs else hs }

abbrev pub acquired_by : ℕ → ℕ → Shared → Shared
acquired_by chan cur s = turned cur s.holders (acquiresleep chan cur s.lock s.table)

abbrev pub released_to : ℕ → List ℕ → Shared → Shared
released_to chan rest s =
    let (lk, t) = releasesleep chan s.table in record { lock = lk; table = t; holders = rest }

pub data Step (chan : ℕ) (s : Shared) : Shared → Type 0 where
  acquires : (cur : ℕ) → Step chan s (acquired_by chan cur s)
  releases :
      {rest : List ℕ} (cur : ℕ) → s.holders ≡ cur ∷ rest → Step chan s (released_to chan rest s)
  others : {u : Table} → IsQuiet chan s.table u → Step chan s (record s { table = u })

pub data Reach (chan : ℕ) (s : Shared) : Shared → Type 0 where
  here : Reach chan s s
  next : {u v : Shared} → Reach chan s u → Step chan u v → Reach chan s v

-- Either the lock is free, nobody has it and nobody sleeps for it, or one process has it, whose
-- pid stands in the lock.
pub data IsFair (chan : ℕ) (s : Shared) : Type 0 where
  free :
      s.lock.locked ≡ 0
      → s.holders ≡ []
      → ((i : ℕ) → ¬ SleepsOn (addr chan) (at s.table i))
      → IsFair chan s
  held :
      (h : ℕ)
      → s.lock.locked ≡ 1
      → s.holders ≡ h ∷ []
      → s.lock.pid ≡ (at s.table h).pid
      → IsFair chan s

sleep-pid :
    (cur : ℕ) (chan : Chan) (t : Table) (i : ℕ) → (at (sleep cur chan t) i).pid ≡ (at t i).pid
unfolding sleep
sleep-pid cur chan t i =
    elim (set_cases t.procs cur (record (at t cur) { chan = chan; state = sleeping }) i) [
      | inl (same, e) ↦ ap (λ (p : Proc). p.pid) e ∙ ap (λ j. (at t j).pid) same
      | inr e ↦ ap (λ (p : Proc). p.pid) e
    ]

wakeup-pid : (chan : Chan) (t : Table) (i : ℕ) → (at (wakeup chan t) i).pid ≡ (at t i).pid
wakeup-pid chan t i = elim (wakeup_exact chan t i) [
  | inl (_, e) ↦ ap (λ (p : Proc). p.pid) e
  | inr (_, e) ↦ ap (λ (p : Proc). p.pid) e
]

-- After a `wakeup` nobody sleeps on the channel.
wakeup_none : (chan : Chan) (t : Table) (i : ℕ) → ¬ SleepsOn chan (at (wakeup chan t) i)
wakeup_none chan t i s = elim (wakeup_exact chan t i) [
  | inl (_, e) ↦
      let z : ProcState.runnable ≡ sleeping = sym (ap (λ (p : Proc). p.state) e) ∙ s.0 in cc
  | inr (awake, e) ↦ awake (rw e at s)
]

acquiresleep_held :
    (chan cur : ℕ) (lk : Sleeplock) (t : Table)
    → (lk.locked == 0) ≡ false
    → acquiresleep chan cur lk t ≡ (false, lk, sleep cur (addr chan) t)
unfolding acquiresleep
acquiresleep_held chan cur lk t e = rw e refl

acquiresleep_free :
    (chan cur : ℕ) (lk : Sleeplock) (t : Table)
    → (lk.locked == 0) ≡ true
    → acquiresleep chan cur lk t ≡ (true, record { locked = 1; pid = (at t cur).pid }, t)
unfolding acquiresleep
acquiresleep_free chan cur lk t e = rw e refl

acquires-IsFair : (chan cur : ℕ) (s : Shared) → IsFair chan s → IsFair chan (acquired_by chan cur s)
acquires-IsFair chan cur s (free zero_lock nobody no_wait) =
    subst (λ r. IsFair chan (turned cur s.holders r))
      (sym (acquiresleep_free chan cur s.lock s.table (ground arith)))
      (held cur refl (ap (λ hs. cur ∷ hs) nobody) refl)
acquires-IsFair chan cur s (held h one_lock holder pid) =
    subst (λ r. IsFair chan (turned cur s.holders r))
      (sym (acquiresleep_held chan cur s.lock s.table (ground arith)))
      (held h one_lock holder (pid ∙ sym (sleep-pid cur (addr chan) s.table h)))

releases-IsFair :
    (chan cur : ℕ) (rest : List ℕ) (s : Shared)
    → s.holders ≡ cur ∷ rest
    → IsFair chan s
    → IsFair chan (released_to chan rest s)
unfolding releasesleep
releases-IsFair chan cur rest s mine (free zero_lock nobody no_wait) =
    let z : cur ∷ rest ≡ [] = sym mine ∙ nobody in cc
releases-IsFair chan cur rest s mine (held h one_lock holder pid) =
    let z : h ∷ [] ≡ cur ∷ rest = sym holder ∙ mine in
    let all_gone : rest ≡ [] = cc in free refl all_gone (wakeup_none (addr chan) s.table)

Step-IsFair : (chan : ℕ) (s u : Shared) → Step chan s u → IsFair chan s → IsFair chan u
Step-IsFair chan s _ (acquires cur) f = acquires-IsFair chan cur s f
Step-IsFair chan s _ (releases {rest} cur mine) f = releases-IsFair chan cur rest s mine f
Step-IsFair chan s _ (others q) (free zero_lock nobody no_wait) =
    free zero_lock nobody (λ i w. no_wait i (q.no_wait i w))
Step-IsFair chan s _ (others q) (held h one_lock holder pid) =
    held h one_lock holder (pid ∙ sym (q.pids h))

-- From a state in which the lock is free, nobody has it and nobody sleeps for it, or one process has
-- it, with its pid in the lock, whatever turns of `acquiresleep` processes take, whenever the holder
-- calls `releasesleep`, and whatever else happens to the process table, this stays so, as long as
-- nothing else starts a wait for the lock or changes a pid: no two processes have the lock at once,
-- and none sleeps on while it is free.
pub Reach-IsFair : (chan : ℕ) {s u : Shared} → IsFair chan s → Reach chan s u → IsFair chan u
Reach-IsFair chan f here = f
Reach-IsFair chan f (next r step) = Step-IsFair chan _ _ step (Reach-IsFair chan f r)
