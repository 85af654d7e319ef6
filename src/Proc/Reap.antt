-- ===== src/Proc/Reap.antt =====
-- `exit` of a child against `wait` of its parent in xv6A1/proc.c: no wakeup is lost.
use operating_system_design.Prelude.{
  ℕ, zero, suc, ◌+◌, ◌<◌, ◌≡◌, refl, ap, ◌∙◌, inl, inr, ◌≢◌, Bool, true, false, ◌||◌, ◌&&◌, List,
  [], ◌∷◌, some, length, get_or, set, arith, Bool-cases, get_or-set_self, get_or-set_ne,
}
use operating_system_design.Proc.{
  unused, is_zombie, is_slot, Proc, Table, at, zero_proc, Call, kfree, freevm,
}
use operating_system_design.Proc.Life.{wait_scan, reap, returned, wait_answer, wait_round}

-- A child of `par` that has exited and waits to be freed.
pub record IsZombieChild (par : ℕ) (p : Proc) : Type 0 where
  pub child : is_slot p.parent par ≡ true
  pub dead : is_zombie p.state ≡ true

-- The scan of `wait` finds a zombie child if there is one.
wait_scan-finds :
    (par i : ℕ) (havekids : Bool) (ps : List Proc) (c : ℕ)
    → IsZombieChild par (get_or ps c zero_proc)
    → (m : ℕ) × (wait_scan par i havekids ps ≡ (true, some (i + m)))
      × IsZombieChild par (get_or ps m zero_proc)
unfolding wait_scan
wait_scan-finds par i havekids [] c z = cc (z.child)
wait_scan-finds par i havekids (p ∷ ps) zero z =
    let both : (is_slot p.parent par && is_zombie p.state) ≡ true =
      ground (arith, z.child, z.dead) in
    (0, rw both (ground arith), z)
wait_scan-finds par i havekids (p ∷ ps) (suc c) z =
    elim (Bool-cases (is_slot p.parent par && is_zombie p.state)) [
      | inl hit ↦ (0, rw hit (ground arith), record { child = ground arith; dead = ground arith })
      | inr miss ↦
          let (m, found, z') =
            wait_scan-finds par (i + 1) (is_slot p.parent par || havekids) ps c z in
          (suc m, rw (miss, found) (ground arith), z')
    ]

-- What is left of slot `i` once `wait` has freed it.
abbrev freed : Table → ℕ → Table
freed t i = record t { procs = set t.procs i (reap (at t i)) }

in_table : (par i : ℕ) (ps : List Proc) → IsZombieChild par (get_or ps i zero_proc) → i < length ps
in_table par i [] z = cc (z.child)
in_table par zero (p ∷ ps) z = omega arith
in_table par (suc i) (p ∷ ps) z = omega (arith, in_table par i ps z)

state-reap : (p : Proc) → (reap p).state ≡ unused
unfolding reap
state-reap p = refl

-- If some slot is a zombie child of `par`, a round of `wait` by `par` does not sleep: it returns
-- the pid of a zombie child, whose slot it makes UNUSED, and it changes no other slot.
pub wait_round-reaps :
    (par c : ℕ) (t : Table)
    → IsZombieChild par (at t c)
    → (i : ℕ) × (t' : Table) × (calls : List Call) × (wait_round par t
        ≡ returned (at t i).pid t' calls)
      × IsZombieChild par (at t i)
      × ((at t' i).state ≡ unused)
      × ((j : ℕ) → i ≢ j → at t' j ≡ at t j)
unfolding wait_round wait_answer
wait_round-reaps par c t z =
    let (i, found, zi) = wait_scan-finds par 0 false t.procs c z in
    let e : 0 + i ≡ i = omega arith in
    let p = at t i in
    let inside = in_table par i t.procs zi in
    (
      i,
      freed t i,
      kfree p.kstack ∷ (freevm p.pgdir ∷ []),
      rw (found, e) refl,
      zi,
      ap (λ (q : Proc). q.state) (get_or-set_self t.procs i (reap p) zero_proc inside)
          ∙ state-reap p,
      λ j ne. get_or-set_ne t.procs i j (reap p) zero_proc ne,
    )
