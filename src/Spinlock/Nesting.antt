-- ===== src/Spinlock/Nesting.antt =====
-- What `acquire` and `release` of xv6A1/spinlock.c do to the lock and to the interrupts.
use operating_system_design.Prelude.{
  ℕ, ◌+◌, ◌<◌, ◌^◌, ◌≡◌, ◌≢◌, refl, true, false, ◌&&◌, Option, none, some, ◌==◌, if◌then◌else◌,
  sub32, is_neg, arith, ==-refl, ne→==, gt→leb, Bool-cases, inl, inr, sym,
}
use operating_system_design.Proc.{is_slot}
use operating_system_design.Spinlock.{
  Cpu, Spinlock, pushcli, popcli, holding, acquired, spins, panics, exchange, acquire, let_go,
  release,
}

-- Interrupts are on only outside every critical section, and the nesting has room for two more.
pub record IsSane (c : Cpu) : Type 0 where
  pub outside : c.flag ≡ true → c.ncli ≡ 0
  pub room : c.ncli + 2 < 2 ^ 31

-- Inside a critical section `holding` changes nothing.
holding-inside :
    (me : ℕ) (lk : Spinlock) (c : Cpu)
    → c.flag ≡ false
    → 0 < c.ncli
    → c.ncli + 1 < 2 ^ 31
    → holding me lk c ≡ some (lk.locked && is_slot lk.cpu me, c)
unfolding holding pushcli popcli
holding-inside me lk c off pos room = ground arith

-- The processor inside the critical section.
abbrev inside : Cpu → Cpu
inside c = record {
  flag = false;
  ncli = c.ncli + 1;
  intena = if c.ncli == 0 then c.flag else c.intena;
}

pushcli-inside : (c : Cpu) → IsSane c → pushcli c ≡ inside c
unfolding pushcli
pushcli-inside c s = ground (arith, s.room)

acquire-exchange :
    (me : ℕ) (lk : Spinlock) (c : Cpu)
    → IsSane c
    → acquire me lk c ≡ exchange me lk (some (lk.locked && is_slot lk.cpu me, inside c))
unfolding acquire
acquire-exchange me lk c s =
    rw
      (
        pushcli-inside c s,
        holding-inside me lk (inside c) refl (omega arith) (omega (arith, s.room)),
      )
      refl

-- The processor after the critical section.
abbrev outside : Cpu → Cpu
outside c = record (inside c) { flag = c.flag; ncli = c.ncli }

flag_back :
    (c : Cpu) → IsSane c → ((c.ncli == 0) && (if c.ncli == 0 then c.flag else c.intena)) ≡ c.flag
flag_back c s = elim (Bool-cases c.flag) [
  | inl on ↦ ground (arith, s.outside on)
  | inr off ↦ ground arith
]

popcli-inside : (c : Cpu) → IsSane c → popcli (inside c) ≡ some (outside c)
unfolding popcli
popcli-inside c s =
    let n : sub32 (c.ncli + 1) 1 ≡ c.ncli = omega (arith, s.room) in
    let low : is_neg c.ncli ≡ false = gt→leb (2 ^ 31) c.ncli (omega (arith, s.room)) in
    rw (n, low, flag_back c s) refl

let_go-popcli :
    (lk : Spinlock) (c c' : Cpu)
    → popcli c ≡ some c'
    → let_go lk (some (true, c)) ≡ some (record { locked = false; cpu = none }, c')
unfolding let_go
let_go-popcli lk c c' e = rw (e, let_go) refl

-- On a processor where interrupts are on only outside every critical section, `acquire` of a free
-- lock gets it and turns interrupts off. The `release` that follows frees the lock and brings the
-- nesting and the interrupt flag back to what they were.
pub acquire-release :
    (me : ℕ) (lk : Spinlock) (c : Cpu)
    → IsSane c
    → lk.locked ≡ false
    → (lk' : Spinlock) × (c' : Cpu) × (c'' : Cpu) × (acquire me lk c ≡ acquired lk' c')
      × (c'.flag ≡ false)
      × (release me lk' c' ≡ some (record { locked = false; cpu = none }, c''))
      × (c''.flag ≡ c.flag)
      × (c''.ncli ≡ c.ncli)
unfolding exchange release
acquire-release me lk c s free =
    let held : Spinlock = record { locked = true; cpu = some me } in
    (
      held,
      inside c,
      outside c,
      rw (acquire-exchange me lk c s) (simp free refl),
      refl,
      rw (holding-inside me held (inside c) refl (omega arith) (omega (arith, s.room)), ==-refl me)
          (let_go-popcli held (inside c) (outside c) (popcli-inside c s)),
      refl,
      refl,
    )

not_holding :
    (j : ℕ) (lk : Spinlock) (c : Cpu)
    → (lk.locked && is_slot lk.cpu j) ≡ false
    → release j lk c ≡ none
unfolding release let_go holding
not_holding j lk c e = from (popcli (pushcli c))
  where
    from :
        (o : Option Cpu)
        → let_go lk (elim o [ none ↦ none | some c' ↦ some (lk.locked && is_slot lk.cpu j, c') ])
          ≡ none
    from none = refl
    from (some c') = simp e refl

-- While processor `me` holds a lock, `acquire` on every other such processor spins with interrupts
-- off, `acquire` by `me` panics, and so does `release` on every other processor.
pub acquire_held :
    (me j : ℕ) (lk : Spinlock) (c cj : Cpu)
    → IsSane c
    → IsSane cj
    → lk.locked ≡ true
    → lk.cpu ≡ some me
    → j ≢ me
    → ((c' : Cpu) × (acquire j lk cj ≡ spins c') × (c'.flag ≡ false))
      × (acquire me lk c ≡ panics)
      × (release j lk cj ≡ none)
unfolding exchange
acquire_held me j lk c cj s sj taken owner ne =
    let other : (me == j) ≡ false = ne→== me j (λ e. ne (sym e)) in
    (
      (inside cj, rw (acquire-exchange j lk cj sj) (simp (taken, owner, other) refl), refl),
      rw (acquire-exchange me lk c s) (simp (taken, owner, ==-refl me) refl),
      not_holding j lk cj (simp (taken, owner, other) refl),
    )
