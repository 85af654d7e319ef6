-- ===== src/Proc/Pids/Reach.antt =====
-- The operations of xv6A1/proc.c as steps of the process table, in any order.
use mathlib.Core.Path.{subst}
use operating_system_design.Prelude.{
  ℕ, false, ◌+◌, ◌≤◌, [], ◌∷◌, length, get_or-set_self, length-set, ◌<◌, ◌^◌, ◌≡◌, refl, sym, ap,
  ◌∙◌, inl, inr, Bool, List, Option, none, some, set, arith, Bool-cases, ◌==◌,
}
use operating_system_design.Proc.{
  ProcState, running, runnable, Chan, slot, Proc, Table, at, Call, is_unused, zero_proc,
}
use operating_system_design.Proc.Life.{
  find_unused, claim, equip, allocproc, fill_child, fork_into, allocate, fork_found, fork,
  exit_table, exit, reap, wait_round, wait_answer, wait_scan, returned, asleep,
}
use operating_system_design.Proc.Sched.{wakeup, kill, sleep, tidy, yield, dispatch}
use operating_system_design.Proc.Slots.{set_cases}
use operating_system_design.Proc.Pids.{
  Live, IsNumbered, Keeps, Keeps-IsNumbered, Keeps-trans, Keeps-set, Same, Same-Keeps, Same-set,
  Same-refl, Same-wakeup, Same-exit_table, Same-kill,
}

abbrev pub IsRunning : Table → ℕ → Type 0
IsRunning t i = (at t i).state ≡ running

-- One operation on the table, by a running process, by an interrupt or by a scheduler.
pub data Step (t : Table) : Table → Type 0 where
  forks : (kstack pgdir cur : ℕ) → t.nextpid + 1 < 2 ^ 32 → Step t (fork kstack pgdir cur t).1
  exits :
      {t' : Table} {calls : List Call} (cur : ℕ)
      → IsRunning t cur
      → exit cur t ≡ some (t', calls)
      → Step t t'
  reaps :
      {ret : ℕ} {t' : Table} {calls : List Call} (cur : ℕ)
      → wait_round cur t ≡ returned ret t' calls
      → Step t t'
  waits : {t' : Table} (cur : ℕ) → IsRunning t cur → wait_round cur t ≡ asleep t' → Step t t'
  sleeps : (cur : ℕ) (chan : Chan) → IsRunning t cur → Step t (sleep cur chan t)
  wakes : (chan : Chan) → Step t (wakeup chan t)
  kills : (pid : ℕ) → Step t (kill pid t).1
  yields : (cur : ℕ) → IsRunning t cur → Step t (yield cur t)
  runs : (i : ℕ) → (at t i).state ≡ runnable → Step t (dispatch i t)
  tidies : (cur : ℕ) → IsRunning t cur → Step t (tidy cur t)

pub data Reach (t : Table) : Table → Type 0 where
  here : Reach t t
  next : {u v : Table} → Reach t u → Step u v → Reach t v

claim-IsNumbered :
    (i : ℕ) (t : Table) → t.nextpid + 1 < 2 ^ 32 → IsNumbered t → IsNumbered (claim i t)
unfolding claim
claim-IsNumbered i t room n =
    let p : Proc = record (at t i) { state = ProcState.embryo; pid = t.nextpid } in
    record {
      distinct = λ a b la lb e. elim (set_cases t.procs i p a) [
        | inl (ia, ga) ↦ elim (set_cases t.procs i p b) [
          | inl (ib, gb) ↦ omega arith
          | inr gb ↦
              let eb = ap (λ (q : Proc). q.pid) gb in
              let ea = ap (λ (q : Proc). q.pid) ga in
              absurd (omega (arith, n.below b (rw gb at lb), e, ea, eb))
        ]
        | inr ga ↦ elim (set_cases t.procs i p b) [
          | inl (ib, gb) ↦
              let eb = ap (λ (q : Proc). q.pid) gb in
              let ea = ap (λ (q : Proc). q.pid) ga in
              absurd (omega (arith, n.below a (rw ga at la), e, ea, eb))
          | inr gb ↦ n.distinct a b (rw ga at la) (rw gb at lb) (rw (ga, gb) at e)
        ]
      ];
      below = λ a la. elim (set_cases t.procs i p a) [
        | inl (ia, ga) ↦ rw ga (omega arith)
        | inr ga ↦ rw ga (omega (arith, n.below a (rw ga at la)))
      ];
    }

equip-Keeps : (kstack i : ℕ) (t : Table) → Live (at t i) → Keeps t (equip kstack i t).1
unfolding equip
equip-Keeps kstack i t alive = elim (Bool-cases (kstack == 0)) [
  | inl fails ↦ rw fails (Keeps-set t i _ (λ l. cc l))
  | inr works ↦ rw works (Same-Keeps (Same-set t i _ refl refl))
]

fork_into-Keeps :
    (pgdir cur np : ℕ) (t : Table) → Live (at t np) → Keeps t (fork_into pgdir cur np t).1
unfolding fork_into fill_child
fork_into-Keeps pgdir cur np t alive = elim (Bool-cases (pgdir == 0)) [
  | inl fails ↦ rw fails (Keeps-set t np _ (λ l. cc l))
  | inr works ↦ rw works (Same-Keeps (Same-set t np _ (sym alive) refl))
]

find_unused-lt :
    (k : ℕ) (ps : List Proc) (i : ℕ) → find_unused k ps ≡ some i → (k ≤ i) × (i < k + length ps)
unfolding find_unused
find_unused-lt k [] i e = cc
find_unused-lt k (p ∷ ps) i e = elim (Bool-cases (is_unused p.state)) [
  | inl free ↦ ground arith
  | inr taken ↦
      let h : find_unused (k + 1) ps ≡ some i = ground arith in
      omega (arith, find_unused-lt (k + 1) ps i h)
]

claim-Live : (i : ℕ) (t : Table) → i < length t.procs → Live (at (claim i t) i)
unfolding claim
claim-Live i t h = ap (λ (p : Proc). is_unused p.state) (get_or-set_self t.procs i _ zero_proc h)

equip-Live :
    (kstack i : ℕ) (t : Table)
    → (kstack == 0) ≡ false
    → i < length t.procs
    → Live (at t i)
    → Live (at (equip kstack i t).1 i)
unfolding equip
equip-Live kstack i t works h alive =
    rw works
      (ap (λ (p : Proc). is_unused p.state) (get_or-set_self t.procs i _ zero_proc h) ∙ alive)

length-claim : (i : ℕ) (t : Table) → length (claim i t).procs ≡ length t.procs
unfolding claim
length-claim i t = length-set t.procs i _

fork_found-IsNumbered :
    (kstack pgdir cur : ℕ) (t : Table) (o : Option ℕ)
    → t.nextpid + 1 < 2 ^ 32
    → IsNumbered t
    → find_unused 0 t.procs ≡ o
    → IsNumbered (fork_found pgdir cur (allocate kstack t o)).1
unfolding fork_found allocate equip
fork_found-IsNumbered kstack pgdir cur t none room n e = n
fork_found-IsNumbered kstack pgdir cur t (some i) room n e =
    let inside = (find_unused-lt 0 t.procs i e).1 in
    let in' : i < length t.procs = omega (arith, inside) in
    let u = claim i t in
    let alive = claim-Live i t in' in
    let numbered = claim-IsNumbered i t room n in
    elim (Bool-cases (kstack == 0)) [
      | inl fails ↦
          rw fails (Keeps-IsNumbered (rw fails at (equip-Keeps kstack i u alive)) numbered)
      | inr works ↦
          let kept = equip-Keeps kstack i u alive in
          let live' = equip-Live kstack i u works (omega (arith, length-claim i t)) alive in
          rw works (
            Keeps-IsNumbered
              (Keeps-trans (rw works at kept) (fork_into-Keeps pgdir cur i _ (rw works at live')))
              numbered)
    ]

fork-IsNumbered :
    (kstack pgdir cur : ℕ) (t : Table)
    → t.nextpid + 1 < 2 ^ 32
    → IsNumbered t
    → IsNumbered (fork kstack pgdir cur t).1
unfolding fork allocproc
fork-IsNumbered kstack pgdir cur t room n =
    fork_found-IsNumbered kstack pgdir cur t (find_unused 0 t.procs) room n refl

IsRunning-Live : (t : Table) (i : ℕ) → IsRunning t i → Live (at t i)
IsRunning-Live t i r = ap is_unused r

wait_answer-Keeps :
    (cur : ℕ) (t : Table) (r : Bool × Option ℕ) {ret : ℕ} {t' : Table} {calls : List Call}
    → wait_answer cur t r ≡ returned ret t' calls
    → Keeps t t'
unfolding wait_answer reap
wait_answer-Keeps cur t (h, some i) {t'} e =
    let same : record t { procs = set t.procs i (reap (at t i)) } ≡ t' = ground arith in
    subst (Keeps t) same (Keeps-set t i _ (λ l. cc l))
wait_answer-Keeps cur t (h, none) {t'} e =
    let same : t ≡ t' = ground arith in subst (Keeps t) same (Same-Keeps (Same-refl t))

wait_answer-Same :
    (cur : ℕ) (t : Table) (r : Bool × Option ℕ) {t' : Table}
    → IsRunning t cur
    → wait_answer cur t r ≡ asleep t'
    → Same t t'
unfolding wait_answer sleep
wait_answer-Same cur t (h, some i) run e = cc
wait_answer-Same cur t (h, none) {t'} run e =
    let same : sleep cur (slot cur) t ≡ t' = ground arith in
    subst (Same t) same (Same-set t cur _ (sym (IsRunning-Live t cur run)) refl)

Step-IsNumbered : {t u : Table} → Step t u → IsNumbered t → IsNumbered u
unfolding exit wait_round sleep yield dispatch tidy
Step-IsNumbered (forks kstack pgdir cur room) n = fork-IsNumbered kstack pgdir cur _ room n
Step-IsNumbered {t} {u} (exits cur run e) n =
    let same : exit_table cur t ≡ u = ground arith in
    subst IsNumbered same
      (Keeps-IsNumbered (Same-Keeps (Same-exit_table cur t (IsRunning-Live t cur run))) n)
Step-IsNumbered {t} (reaps cur e) n =
    Keeps-IsNumbered (wait_answer-Keeps cur t (wait_scan cur 0 false t.procs) e) n
Step-IsNumbered {t} (waits cur run e) n =
    Keeps-IsNumbered (Same-Keeps (wait_answer-Same cur t (wait_scan cur 0 false t.procs) run e)) n
Step-IsNumbered {t} (sleeps cur chan run) n =
    Keeps-IsNumbered (Same-Keeps (Same-set t cur _ (sym (IsRunning-Live t cur run)) refl)) n
Step-IsNumbered (wakes chan) n = Keeps-IsNumbered (Same-Keeps (Same-wakeup chan _)) n
Step-IsNumbered (kills pid) n = Keeps-IsNumbered (Same-Keeps (Same-kill pid _)) n
Step-IsNumbered {t} (yields cur run) n =
    Keeps-IsNumbered (Same-Keeps (Same-set t cur _ (sym (IsRunning-Live t cur run)) refl)) n
Step-IsNumbered {t} (runs i r) n =
    Keeps-IsNumbered (Same-Keeps (Same-set t i _ (sym (ap is_unused r)) refl)) n
Step-IsNumbered {t} (tidies cur run) n =
    Keeps-IsNumbered (Same-Keeps (Same-set t cur _ refl refl)) n

-- From a table whose slots in use have distinct pids below `nextpid`, every sequence of operations
-- in which no `fork` comes when `nextpid` is about to wrap leads to such a table.
pub Reach-IsNumbered : {t u : Table} → IsNumbered t → Reach t u → IsNumbered u
Reach-IsNumbered n here = n
Reach-IsNumbered n (next r s) = Step-IsNumbered s (Reach-IsNumbered n r)
