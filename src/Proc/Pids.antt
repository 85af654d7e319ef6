-- ===== src/Proc/Pids.antt =====
-- Process identifiers of xv6A1/proc.c: in every state that the operations reach, slots in use have
-- distinct pids, all below `nextpid`.
pub mod Reach
use operating_system_design.Prelude.{
  ℕ, zero, suc, ◌+◌, ◌-◌, ◌<◌, ◌^◌, ◌≡◌, refl, sym, ap, ◌∙◌, ◌⊎◌, inl, inr, ◌≢◌, Bool, true, false,
  List, [], ◌∷◌, Option, none, some, get_or, set, arith, if◌then◌else◌, Bool-cases, ◌==◌, minus_one,
}
use operating_system_design.Proc.{
  ProcState, running, runnable, is_unused, is_slot, parent_chan, Chan, slot, Proc, Table, at,
  zero_proc, Call,
}
use operating_system_design.Proc.Life.{
  find_unused, claim, equip, allocproc, fill_child, fork_into, fork, pass_on, close_all,
  mark_zombie, exit_table, exit, reparent, reap, wait_round, wait_answer, wait_scan, Waited,
  returned, asleep,
}
use operating_system_design.Proc.Exit.{get_or-reparent}
use operating_system_design.Proc.Sched.{
  wake, wakeup, mark_killed, kill_loop, kill, sleep, tidy, yield, dispatch,
}
use operating_system_design.Proc.Slots.{at-wakeup, set_cases}

abbrev pub Live : Proc → Type 0
Live p = is_unused p.state ≡ false

pub record IsNumbered (t : Table) : Type 0 where
  pub distinct : (i j : ℕ) → Live (at t i) → Live (at t j) → (at t i).pid ≡ (at t j).pid → i ≡ j
  pub below : (i : ℕ) → Live (at t i) → (at t i).pid < t.nextpid

-- No slot comes into use, and those in use keep their pids.
pub record Keeps (t t' : Table) : Type 0 where
  pub next : t'.nextpid ≡ t.nextpid
  pub live : (i : ℕ) → Live (at t' i) → Live (at t i)
  pub pid : (i : ℕ) → Live (at t' i) → (at t' i).pid ≡ (at t i).pid

pub Keeps-IsNumbered : {t t' : Table} → Keeps t t' → IsNumbered t → IsNumbered t'
Keeps-IsNumbered k n = record {
  distinct =
      λ i j li lj e. n.distinct i j (k.live i li) (k.live j lj) (sym (k.pid i li) ∙ e ∙ k.pid j lj);
  below = λ i li. omega (arith, n.below i (k.live i li), k.pid i li, k.next);
}

pub Keeps-trans : {t u v : Table} → Keeps t u → Keeps u v → Keeps t v
Keeps-trans a b = record {
  next = b.next ∙ a.next;
  live = λ i l. a.live i (b.live i l);
  pid = λ i l. b.pid i l ∙ a.pid i (b.live i l);
}

-- A write to one slot that brings no unused slot into use and keeps the pid of one in use.
pub Keeps-set :
    (t : Table) (c : ℕ) (p : Proc)
    → (Live p → Live (at t c) × (p.pid ≡ (at t c).pid))
    → Keeps t (record t { procs = set t.procs c p })
Keeps-set t c p h = record {
  next = refl;
  live = λ i l. elim (set_cases t.procs c p i) [
    | inl (e, got) ↦ rw (← e) (h (rw got at l)).0
    | inr same ↦ rw same at l
  ];
  pid = λ i l. elim (set_cases t.procs c p i) [
    | inl (e, got) ↦ rw (got, ← e) (h (rw got at l)).1
    | inr same ↦ ap (λ (q : Proc). q.pid) same
  ];
}

-- The same slots are in use, with the same pids.
pub record Same (t t' : Table) : Type 0 where
  pub next : t'.nextpid ≡ t.nextpid
  pub use_of : (i : ℕ) → is_unused (at t' i).state ≡ is_unused (at t i).state
  pub pid : (i : ℕ) → (at t' i).pid ≡ (at t i).pid

pub Same-Keeps : {t t' : Table} → Same t t' → Keeps t t'
Same-Keeps s = record { next = s.next; live = λ i l. sym (s.use_of i) ∙ l; pid = λ i l. s.pid i }

pub Same-refl : (t : Table) → Same t t
Same-refl t = record { next = refl; use_of = λ i. refl; pid = λ i. refl }

Same-trans : {t u v : Table} → Same t u → Same u v → Same t v
Same-trans a b = record {
  next = b.next ∙ a.next;
  use_of = λ i. b.use_of i ∙ a.use_of i;
  pid = λ i. b.pid i ∙ a.pid i;
}

pub Same-set :
    (t : Table) (c : ℕ) (p : Proc)
    → is_unused p.state ≡ is_unused (at t c).state
    → p.pid ≡ (at t c).pid
    → Same t (record t { procs = set t.procs c p })
Same-set t c p hu hp = record {
  next = refl;
  use_of = λ i. elim (set_cases t.procs c p i) [
    | inl (e, got) ↦ rw (got, ← e) hu
    | inr same ↦ ap (λ (q : Proc). is_unused q.state) same
  ];
  pid = λ i. elim (set_cases t.procs c p i) [
    | inl (e, got) ↦ rw (got, ← e) hp
    | inr same ↦ ap (λ (q : Proc). q.pid) same
  ];
}

use_of-wake : (chan : Chan) (p : Proc) → is_unused (wake chan p).state ≡ is_unused p.state
unfolding wake
use_of-wake chan p = ground arith

pid-wake : (chan : Chan) (p : Proc) → (wake chan p).pid ≡ p.pid
unfolding wake
pid-wake chan p = ground arith

pub Same-wakeup : (chan : Chan) (t : Table) → Same t (wakeup chan t)
Same-wakeup chan t = record {
  next = nextpid-wakeup;
  use_of = λ i. rw (at-wakeup chan t i) (use_of-wake chan (at t i));
  pid = λ i. rw (at-wakeup chan t i) (pid-wake chan (at t i));
}
  where
    nextpid-wakeup : (wakeup chan t).nextpid ≡ t.nextpid
    nextpid-wakeup = unfold wakeup in refl

Same-adopt :
    (cur : ℕ) (t : Table) → Same t (record t { procs = (reparent cur t.initproc t.procs).0 })
Same-adopt cur t = record {
  next = refl;
  use_of = λ i. ground (arith, get_or-reparent cur t.initproc t.procs i);
  pid = λ i. ground (arith, get_or-reparent cur t.initproc t.procs i);
}

Same-pass_on : (cur : ℕ) (t : Table) → Same t (pass_on cur t)
unfolding pass_on
Same-pass_on cur t =
    let r = reparent cur t.initproc t.procs in
    elim (Bool-cases r.1) [
      | inl woken ↦ rw woken (Same-trans (Same-adopt cur t) (Same-wakeup (slot t.initproc) _))
      | inr not_woken ↦ rw not_woken (Same-adopt cur t)
    ]

Same-close_all : (cur : ℕ) (t : Table) → Same t (close_all cur t)
unfolding close_all
Same-close_all cur t = Same-set t cur _ refl refl

Same-mark_zombie : (cur : ℕ) (t : Table) → Live (at t cur) → Same t (mark_zombie cur t)
unfolding mark_zombie
Same-mark_zombie cur t alive = Same-set t cur _ (sym alive) refl

pub Same-exit_table : (cur : ℕ) (t : Table) → Live (at t cur) → Same t (exit_table cur t)
unfolding exit_table
Same-exit_table cur t alive =
    let s = Same-trans (Same-close_all cur t) (
      Same-trans (Same-wakeup (parent_chan (at t cur).parent) (close_all cur t))
        (Same-pass_on cur _)) in
    Same-trans s (Same-mark_zombie cur _ (s.use_of cur ∙ alive))

abbrev Kept : List Proc → Option (List Proc) → Type 0
Kept ps none = Unit {0}
Kept ps (some ps') =
    (i : ℕ)
    → (is_unused (get_or ps' i zero_proc).state ≡ is_unused (get_or ps i zero_proc).state)
      × ((get_or ps' i zero_proc).pid ≡ (get_or ps i zero_proc).pid)

Kept-cons :
    (p : Proc) (ps : List Proc) (o : Option (List Proc))
    → Kept ps o
    → Kept (p ∷ ps) (elim o [ none ↦ none | some ps' ↦ some (p ∷ ps') ])
Kept-cons p ps none k = tt
Kept-cons p ps (some ps') k = at_each
  where
    at_each :
        (i : ℕ)
        → (is_unused (get_or (p ∷ ps') i zero_proc).state
            ≡ is_unused (get_or (p ∷ ps) i zero_proc).state)
          × ((get_or (p ∷ ps') i zero_proc).pid ≡ (get_or (p ∷ ps) i zero_proc).pid)
    at_each zero = (refl, refl)
    at_each (suc i) = k i

Kept-head : (p : Proc) (ps : List Proc) → Kept (p ∷ ps) (some (mark_killed p ∷ ps))
unfolding mark_killed
Kept-head p ps zero = (ground arith, refl)
Kept-head p ps (suc i) = (refl, refl)

kill_loop-Kept : (pid : ℕ) (ps : List Proc) → Kept ps (kill_loop pid ps)
unfolding kill_loop
kill_loop-Kept pid [] = tt
kill_loop-Kept pid (p ∷ ps) = elim (Bool-cases (p.pid == pid)) [
  | inl same ↦ rw same (Kept-head p ps)
  | inr other ↦ rw other (Kept-cons p ps (kill_loop pid ps) (kill_loop-Kept pid ps))
]

pub Same-kill : (pid : ℕ) (t : Table) → Same t (kill pid t).1
unfolding kill
Same-kill pid t = from (kill_loop pid t.procs) (kill_loop-Kept pid t.procs)
  where
    from :
        (o : Option (List Proc))
        → Kept t.procs o
        → Same t (
            let r : ℕ × Table = elim o [
              | none ↦ (minus_one, t)
              | some ps ↦ (0, record t { procs = ps })
            ] in
            r.1)
    from none k = Same-refl t
    from (some ps) k = record { next = refl; use_of = λ i. (k i).0; pid = λ i. (k i).1 }
