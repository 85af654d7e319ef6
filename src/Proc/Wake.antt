-- ===== src/Proc/Wake.antt =====
-- Which processes `wakeup` and `kill` of xv6A1/proc.c touch, and how.
use mathlib.Core.Path.{subst}
use operating_system_design.Prelude.{
  ℕ, zero, suc, ◌<◌, ◌≡◌, refl, sym, ap, ◌⊎◌, inl, inr, ◌≢◌, true, List, [], ◌∷◌, Option, none,
  some, get_or, arith, ◌==◌, Bool-cases, ==→eq, ==→ne, minus_one, ◌&&◌,
}
use operating_system_design.Proc.{
  ProcState, sleeping, runnable, is_sleeping, Chan, chan_eq, Proc, Table, at, zero_proc,
}
use operating_system_design.Proc.Sched.{wake, wakeup, mark_killed, kill_loop, kill}
use operating_system_design.Proc.Slots.{at-wakeup}

-- The process sleeps on the channel.
abbrev pub SleepsOn : Chan → Proc → Type 0
SleepsOn chan p = (p.state ≡ sleeping) × (p.chan ≡ chan)

is_sleeping→eq : (s : ProcState) → is_sleeping s ≡ true → s ≡ sleeping
is_sleeping→eq s h = ground arith

chan_eq→eq : (a b : Chan) → chan_eq a b ≡ true → a ≡ b
chan_eq→eq Chan.null Chan.null h = refl
chan_eq→eq (Chan.slot i) (Chan.slot j) h = ap Chan.slot (==→eq i j h)
chan_eq→eq (Chan.addr i) (Chan.addr j) h = ap Chan.addr (==→eq i j h)
chan_eq→eq Chan.null (Chan.slot j) h = cc
chan_eq→eq Chan.null (Chan.addr j) h = cc
chan_eq→eq (Chan.slot i) Chan.null h = cc
chan_eq→eq (Chan.slot i) (Chan.addr j) h = cc
chan_eq→eq (Chan.addr i) Chan.null h = cc
chan_eq→eq (Chan.addr i) (Chan.slot j) h = cc

pub chan_eq_refl : (a : Chan) → chan_eq a a ≡ true
chan_eq_refl Chan.null = refl
chan_eq_refl (Chan.slot i) = ground arith
chan_eq_refl (Chan.addr i) = ground arith

wake_cases :
    (chan : Chan) (p : Proc)
    → (SleepsOn chan p × (wake chan p ≡ record p { state = runnable }))
      ⊎ ((¬ SleepsOn chan p) × (wake chan p ≡ p))
unfolding wake
wake_cases chan p = elim (Bool-cases (is_sleeping p.state && chan_eq p.chan chan)) [
  | inl both ↦
      inl ((is_sleeping→eq p.state (ground arith), chan_eq→eq p.chan chan (ground arith)), rw both)
  | inr neither ↦ inr (λ s. ground (arith, chan_eq_refl chan), rw neither)
]

-- `wakeup` makes every process that sleeps on the channel runnable, and changes nothing else: no
-- other field of such a process, no field of any other.
pub wakeup_exact :
    (chan : Chan) (t : Table) (i : ℕ)
    → (SleepsOn chan (at t i) × (at (wakeup chan t) i ≡ record (at t i) { state = runnable }))
      ⊎ ((¬ SleepsOn chan (at t i)) × (at (wakeup chan t) i ≡ at t i))
wakeup_exact chan t i = rw at-wakeup (wake_cases chan (at t i))

-- The first slot with the pid, killed and awake, and all others as they were.
pub record Killed (pid : ℕ) (ps ps' : List Proc) (i : ℕ) : Type 0 where
  pub has_pid : (get_or ps i zero_proc).pid ≡ pid
  pub first : (j : ℕ) → j < i → (get_or ps j zero_proc).pid ≢ pid
  pub killed : (get_or ps' i zero_proc).killed ≡ 1
  pub awake : (get_or ps' i zero_proc).state ≢ sleeping
  pub others : (j : ℕ) → j ≢ i → get_or ps' j zero_proc ≡ get_or ps j zero_proc

Killed-cons :
    {pid : ℕ} {ps ps' : List Proc} {i : ℕ} (p : Proc)
    → p.pid ≢ pid
    → Killed pid ps ps' i
    → Killed pid (p ∷ ps) (p ∷ ps') (suc i)
Killed-cons {pid} {ps} {ps'} {i} p ne k = record {
  has_pid = k.has_pid;
  first = before;
  killed = k.killed;
  awake = k.awake;
  others = elsewhere;
}
  where
    before : (j : ℕ) → j < suc i → (get_or (p ∷ ps) j zero_proc).pid ≢ pid
    before zero h = ne
    before (suc j) h = k.first j (omega arith)

    elsewhere : (j : ℕ) → j ≢ suc i → get_or (p ∷ ps') j zero_proc ≡ get_or (p ∷ ps) j zero_proc
    elsewhere zero h = refl
    elsewhere (suc j) h = k.others j (λ e. h (ap suc e))

abbrev Outcome : ℕ → List Proc → Option (List Proc) → Type 0
Outcome pid ps none = (j : ℕ) → (get_or ps j zero_proc).pid ≢ pid
Outcome pid ps (some ps') = (i : ℕ) × Killed pid ps ps' i

Outcome-cons :
    {pid : ℕ} (ps : List Proc) (p : Proc) (o : Option (List Proc))
    → p.pid ≢ pid
    → Outcome pid ps o
    → Outcome pid (p ∷ ps) (elim o [ none ↦ none | some ps' ↦ some (p ∷ ps') ])
Outcome-cons {pid} ps p none ne h = absent
  where
    absent : (j : ℕ) → (get_or (p ∷ ps) j zero_proc).pid ≢ pid
    absent zero = ne
    absent (suc j) = h j
Outcome-cons ps p (some ps') ne (i, k) = (suc i, Killed-cons p ne k)

Killed-head : (p : Proc) (ps : List Proc) → Killed p.pid (p ∷ ps) (mark_killed p ∷ ps) 0
unfolding mark_killed
Killed-head p ps = record {
  has_pid = refl;
  first = λ j h. absurd (omega arith);
  killed = refl;
  awake = ground arith;
  others = elsewhere;
}
  where
    elsewhere :
        (j : ℕ) → j ≢ 0 → get_or (mark_killed p ∷ ps) j zero_proc ≡ get_or (p ∷ ps) j zero_proc
    elsewhere zero h = absurd (h refl)
    elsewhere (suc j) h = refl

kill_loop-Outcome : (pid : ℕ) (ps : List Proc) → pid ≢ 0 → Outcome pid ps (kill_loop pid ps)
unfolding kill_loop
kill_loop-Outcome pid [] nz = λ j e. nz (sym e)
kill_loop-Outcome pid (p ∷ ps) nz = elim (Bool-cases (p.pid == pid)) [
  | inl same ↦
      rw same (
        0,
        subst (λ k. Killed k (p ∷ ps) (mark_killed p ∷ ps) 0) (==→eq _ _ same) (Killed-head p ps),
      )
  | inr other ↦
      rw other
        (Outcome-cons ps p (kill_loop pid ps) (==→ne _ _ other) (kill_loop-Outcome pid ps nz))
]

-- For a pid other than 0, `kill` returns 0, marks the first slot with that pid as killed, leaves it
-- in a state other than SLEEPING and changes no other slot; or it returns -1 and changes nothing,
-- and then no slot has the pid.
pub kill_lem :
    (pid : ℕ) (t : Table)
    → pid ≢ 0
    → (let (ret, t') = kill pid t in
        ((ret ≡ 0) × ((i : ℕ) × Killed pid t.procs t'.procs i))
        ⊎ ((ret ≡ minus_one) × (t' ≡ t) × ((i : ℕ) → (at t i).pid ≢ pid)))
unfolding kill
kill_lem pid t nz = from (kill_loop pid t.procs) (kill_loop-Outcome pid t.procs nz)
  where
    from :
        (o : Option (List Proc))
        → Outcome pid t.procs o
        → (let result : ℕ × Table = elim o [
          | none ↦ (minus_one, t)
          | some ps ↦ (0, record t { procs = ps })
        ] in
            ((result.0 ≡ 0) × ((i : ℕ) × Killed pid t.procs result.1.procs i))
            ⊎ ((result.0 ≡ minus_one) × (result.1 ≡ t) × ((i : ℕ) → (at t i).pid ≢ pid)))
    from none h = inr (refl, refl, h)
    from (some ps) h = inl (refl, h)
