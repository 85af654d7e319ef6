-- ===== src/Proc/Exit.antt =====
-- `exit` of xv6A1/proc.c, as its parent and its children see it.
use mathlib.Core.Path.{subst}
use operating_system_design.Prelude.{
  ℕ, zero, suc, ◌<◌, ◌≡◌, refl, sym, ap, ◌∙◌, inl, inr, ◌≢◌, false, List, [], ◌∷◌, some, length,
  get_or, arith, Bool-cases, if◌then◌else◌, get_or-set_self, get_or-set_ne, length-set, ne→==,
  ==-refl,
}
use operating_system_design.Proc.{
  runnable, zombie, is_slot, parent_chan, Chan, slot, Proc, Table, at, zero_proc, Call,
}
use operating_system_design.Proc.Life.{reparent, pass_on, close_all, mark_zombie, exit_table, exit}
use operating_system_design.Proc.Sched.{wake, wakeup}
use operating_system_design.Proc.Slots.{at-wakeup, length-wakeup}
use operating_system_design.Proc.Wake.{SleepsOn, chan_eq_refl}
use operating_system_design.Proc.Reap.{IsZombieChild}

abbrev pub adopt : ℕ → ℕ → Proc → Proc
adopt cur init p = if is_slot p.parent cur then record p { parent = some init } else p

pub get_or-reparent :
    (cur init : ℕ) (ps : List Proc) (i : ℕ)
    → get_or (reparent cur init ps).0 i zero_proc ≡ adopt cur init (get_or ps i zero_proc)
unfolding reparent
get_or-reparent cur init [] i = refl
get_or-reparent cur init (p ∷ ps) zero = elim (Bool-cases (is_slot p.parent cur)) [
  | inl yes_child ↦ rw yes_child
  | inr not_child ↦ rw not_child
]
get_or-reparent cur init (p ∷ ps) (suc i) = elim (Bool-cases (is_slot p.parent cur)) [
  | inl yes_child ↦ rw yes_child (get_or-reparent cur init ps i)
  | inr not_child ↦ rw not_child (get_or-reparent cur init ps i)
]

length-reparent : (cur init : ℕ) (ps : List Proc) → length (reparent cur init ps).0 ≡ length ps
unfolding reparent
length-reparent cur init [] = refl
length-reparent cur init (p ∷ ps) = elim (Bool-cases (is_slot p.parent cur)) [
  | inl yes_child ↦ rw yes_child (ap suc (length-reparent cur init ps))
  | inr not_child ↦ rw not_child (ap suc (length-reparent cur init ps))
]

wake-runnable : (chan : Chan) (p : Proc) → p.state ≡ runnable → (wake chan p).state ≡ runnable
unfolding wake
wake-runnable chan p h = ground arith

parent-wake : (chan : Chan) (p : Proc) → (wake chan p).parent ≡ p.parent
unfolding wake
parent-wake chan p = ground arith

-- What passing on the children of `cur` leaves of a process that is not one of them.
at-pass_on :
    (cur : ℕ) (t : Table) (i : ℕ)
    → ((at t i).state ≡ runnable → (at (pass_on cur t) i).state ≡ runnable)
      × (is_slot (at t i).parent cur ≡ false → (at (pass_on cur t) i).parent ≡ (at t i).parent)
unfolding pass_on
at-pass_on cur t i =
    let r = reparent cur t.initproc t.procs in
    let t' : Table = record t { procs = r.0 } in
    let got = get_or-reparent cur t.initproc t.procs i in
    elim (Bool-cases r.1) [
      | inl woken ↦
          rw (woken, at-wakeup (slot t.initproc) t' i, got)
            (λ h. wake-runnable _ _ (ground arith), λ h. rw h (parent-wake _ (at t i)))
      | inr not_woken ↦ rw (not_woken, got) (λ h. ground arith, λ h. rw h refl)
    ]

length-pass_on : (cur : ℕ) (t : Table) → length (pass_on cur t).procs ≡ length t.procs
unfolding pass_on
length-pass_on cur t =
    let r = reparent cur t.initproc t.procs in
    let len = length-reparent cur t.initproc t.procs in
    elim (Bool-cases r.1) [
      | inl woken ↦ rw (woken, length-wakeup (slot t.initproc) (record t { procs = r.0 })) len
      | inr not_woken ↦ rw not_woken len
    ]

module _ (cur : ℕ) (t : Table) where
  at-mark_zombie : (i : ℕ) → cur ≢ i → at (mark_zombie cur t) i ≡ at t i
  unfolding mark_zombie
  at-mark_zombie i ne = get_or-set_ne t.procs cur i _ zero_proc ne

  at-mark_zombie_self :
      cur < length t.procs → at (mark_zombie cur t) cur ≡ record (at t cur) { state = zombie }
  unfolding mark_zombie
  at-mark_zombie_self h = get_or-set_self t.procs cur _ zero_proc h

  at-close_all : (i : ℕ) → cur ≢ i → at (close_all cur t) i ≡ at t i
  unfolding close_all
  at-close_all i ne = get_or-set_ne t.procs cur i _ zero_proc ne

  parent-close_all : cur < length t.procs → (at (close_all cur t) cur).parent ≡ (at t cur).parent
  unfolding close_all
  parent-close_all h = ap (λ (p : Proc). p.parent) (get_or-set_self t.procs cur _ zero_proc h)

  length-close_all : length (close_all cur t).procs ≡ length t.procs
  unfolding close_all
  length-close_all = length-set t.procs cur _

wake_self : (chan : Chan) (p : Proc) → SleepsOn chan p → (wake chan p).state ≡ runnable
unfolding wake
wake_self chan p s = ground (arith, chan_eq_refl chan)

module _ (par c : ℕ) (t : Table) (ne : c ≢ par) (child : (at t c).parent ≡ some par) where
  woken_table : Table
  woken_table = wakeup (parent_chan (at t c).parent) (close_all c t)

  parent_wakes : SleepsOn (slot par) (at t par) → (at woken_table par).state ≡ runnable
  unfolding woken_table
  parent_wakes s =
      rw
        (
          at-wakeup (parent_chan (at t c).parent) (close_all c t) par,
          at-close_all c t par ne,
          child,
        )
        (wake_self (slot par) (at t par) s)

  parent_stays : c < length t.procs → (at woken_table c).parent ≡ some par
  unfolding woken_table
  parent_stays inside =
      rw (at-wakeup (parent_chan (at t c).parent) (close_all c t) c)
        (parent-wake _ (at (close_all c t) c) ∙ parent-close_all c t inside ∙ child)

  length-woken_table : length woken_table.procs ≡ length t.procs
  unfolding woken_table
  length-woken_table = length-wakeup _ (close_all c t) ∙ length-close_all c t

  exit_table_lem :
      SleepsOn (slot par) (at t par)
      → c < length t.procs
      → ((at (exit_table c t) par).state ≡ runnable) × IsZombieChild par (at (exit_table c t) c)
  unfolding exit_table woken_table
  exit_table_lem s inside =
      let u = woken_table in
      let in' : c < length (pass_on c u).procs =
        omega (arith, length-pass_on c u, length-woken_table, inside) in
      let stays = parent_stays inside in
      let not_own : is_slot (at u c).parent c ≡ false = rw stays (ne→== par c (λ e. ne (sym e))) in
      let kept = (at-pass_on c u c).1 not_own ∙ stays in
      rw (at-mark_zombie c (pass_on c u) par ne, at-mark_zombie_self c (pass_on c u) in')
        (
          (at-pass_on c u par).0 (parent_wakes s),
          record { child = rw kept (==-refl par); dead = refl },
        )

-- If a parent sleeps on its own slot, as `wait` does, and a child of it in another slot of the
-- table exits, without the panic for init, then the parent is runnable and the child a zombie of
-- it.
pub exit_wakes_parent :
    (par c : ℕ) (t t' : Table) (calls : List Call)
    → SleepsOn (slot par) (at t par)
    → (at t c).parent ≡ some par
    → c ≢ par
    → c < length t.procs
    → exit c t ≡ some (t', calls)
    → ((at t' par).state ≡ runnable) × IsZombieChild par (at t' c)
unfolding exit
exit_wakes_parent par c t t' calls sleeps child ne inside e =
    let same : exit_table c t ≡ t' = ground arith in
    subst (λ x. ((at x par).state ≡ runnable) × IsZombieChild par (at x c)) same
      (exit_table_lem par c t ne child sleeps inside)
