-- ===== src/Barrier/Round.antt =====
-- One round of the barrier of a2/sysproc.c.
use mathlib.Core.Path.{subst}
use operating_system_design.Prelude.{
  ℕ, zero, suc, ◌+◌, ◌<◌, ◌≤◌, ◌≡◌, refl, ap, ◌∙◌, true, false, Option, none, some, List, [], ◌∷◌,
  length, length-set, get_or, set, take, get_or-set_self, get_or-set_ne, arith, ltb, leb, add32,
  sub32, is_nonpos,
}
use operating_system_design.Proc.{nproc}
use operating_system_design.Barrier.{
  KernelBarrier, Arrived, sleeps, releases, sys_barrier_init, sys_barrier, int_lt,
}

-- Goes on after a call that slept.
unfoldable pub after_sleep : (KernelBarrier → Option KernelBarrier) → Arrived → Option KernelBarrier
after_sleep f (sleeps b) = f b
after_sleep f (releases ps b) = none
after_sleep f Arrived.fault = none

-- The processes `ps` arrive one after another and all go to sleep.
unfoldable pub arrive_all : List ℕ → KernelBarrier → Option KernelBarrier
arrive_all [] b = some b
arrive_all (p ∷ ps) b = after_sleep (arrive_all ps) (sys_barrier p b)

sys_barrier-sleeps :
    (me : ℕ) (b : KernelBarrier)
    → b.arrived + 1 < b.num_procs
    → b.num_procs ≤ nproc
    → sys_barrier me b
      ≡ sleeps (record b { arrived = b.arrived + 1; pids = set b.pids b.arrived me })
unfolding sys_barrier
sys_barrier-sleeps me b early fits =
    let n : add32 b.arrived 1 ≡ b.arrived + 1 = omega arith in
    let m : sub32 (b.arrived + 1) 1 ≡ b.arrived = omega arith in
    let lt : int_lt (b.arrived + 1) b.num_procs ≡ true = ground arith in
    let room : ltb b.arrived nproc ≡ true = ground arith in simp (n, lt, m, room) refl

sys_barrier-releases :
    (me : ℕ) (b : KernelBarrier)
    → b.arrived + 1 ≡ b.num_procs
    → b.num_procs ≤ nproc
    → sys_barrier me b ≡ releases (take b.num_procs b.pids) (record b { arrived = 0 })
unfolding sys_barrier
sys_barrier-releases me b last fits =
    let lt : int_lt (add32 b.arrived 1) b.num_procs ≡ false = ground arith in
    let pos : is_nonpos b.num_procs ≡ false = ground arith in
    let room : leb b.num_procs nproc ≡ true = ground arith in simp (lt, pos, room) refl

-- The barrier `b'` after the arrival of `ps` at `b`.
record Waiting (ps : List ℕ) (b b' : KernelBarrier) : Type 0 where
  arrives : b'.arrived ≡ b.arrived + length ps
  total : b'.num_procs ≡ b.num_procs
  size : length b'.pids ≡ length b.pids
  before : (j : ℕ) → j < b.arrived → get_or b'.pids j 0 ≡ get_or b.pids j 0
  noted : (j : ℕ) → j < length ps → get_or b'.pids (b.arrived + j) 0 ≡ get_or ps j 0

Waiting-cons :
    (p : ℕ) (ps : List ℕ) (b b' : KernelBarrier)
    → b.arrived < length b.pids
    → Waiting ps (record b { arrived = b.arrived + 1; pids = set b.pids b.arrived p }) b'
    → Waiting (p ∷ ps) b b'
Waiting-cons p ps b b' room w = record {
  arrives = omega (arith, w.arrives);
  total = w.total;
  size = w.size ∙ length-set b.pids b.arrived p;
  before = λ j h. w.before j (omega arith) ∙ get_or-set_ne b.pids b.arrived j p 0 (omega arith);
  noted = noted';
}
  where
    noted' : (j : ℕ) → j < suc (length ps) → get_or b'.pids (b.arrived + j) 0 ≡ get_or (p ∷ ps) j 0
    noted' zero h =
        let e : b.arrived + 0 ≡ b.arrived = omega arith in
        rw e (w.before b.arrived (omega arith) ∙ get_or-set_self b.pids b.arrived p 0 room)
    noted' (suc j) h =
        let e : b.arrived + suc j ≡ b.arrived + 1 + j = omega arith in
        rw e (w.noted j (omega arith))

arrive_all-Waiting :
    (ps : List ℕ) (b : KernelBarrier)
    → b.arrived + length ps < b.num_procs
    → b.num_procs ≤ nproc
    → length b.pids ≡ nproc
    → (b' : KernelBarrier) × (arrive_all ps b ≡ some b') × Waiting ps b b'
unfolding arrive_all after_sleep
arrive_all-Waiting [] b early fits size = (
  b,
  refl,
  record {
    arrives = omega arith;
    total = refl;
    size = refl;
    before = λ j h. refl;
    noted = λ j h. absurd (omega arith);
  },
)
arrive_all-Waiting (p ∷ ps) b early fits size =
    let b1 : KernelBarrier = record b { arrived = b.arrived + 1; pids = set b.pids b.arrived p } in
    let (b', e, w) =
      arrive_all-Waiting ps b1 (omega arith) fits (length-set b.pids b.arrived p ∙ size) in
    (
      b',
      ap (after_sleep (arrive_all ps)) (sys_barrier-sleeps p b (omega arith) fits) ∙ e,
      Waiting-cons p ps b b' (omega (arith, size)) w,
    )

get_or-take : (n : ℕ) (xs : List ℕ) (j : ℕ) → j < n → get_or (take n xs) j 0 ≡ get_or xs j 0
get_or-take zero xs j h = absurd (omega arith)
get_or-take (suc n) [] j h = refl
get_or-take (suc n) (x ∷ xs) zero h = refl
get_or-take (suc n) (x ∷ xs) (suc j) h = get_or-take n xs j (omega arith)

-- A barrier of at most NPROC processes, set up with `sys_barrier_init`: all processes but the last
-- to arrive go to sleep, and the last one wakes each of them and leaves `arrived` at 0.
pub sys_barrier_lem :
    (ps : List ℕ) (me : ℕ) (b : KernelBarrier)
    → length ps + 1 ≤ nproc
    → length b.pids ≡ nproc
    → (b' b'' : KernelBarrier) × (woken : List ℕ) × (arrive_all ps
          (sys_barrier_init (length ps + 1) b)
        ≡ some b')
      × (sys_barrier me b' ≡ releases woken b'')
      × (b''.arrived ≡ 0)
      × ((j : ℕ) → j < length ps → get_or woken j 0 ≡ get_or ps j 0)
unfolding sys_barrier_init
sys_barrier_lem ps me b fits size =
    let n = length ps + 1 in
    let (b', e, w) =
      arrive_all-Waiting ps (sys_barrier_init n b) (omega arith) (omega arith) size in
    (
      b',
      record b' { arrived = 0 },
      take b'.num_procs b'.pids,
      e,
      sys_barrier-releases me b' (omega (arith, w.arrives, w.total)) (omega (arith, w.total)),
      refl,
      λ j h.
          let z : 0 + j ≡ j = omega arith in
          get_or-take b'.num_procs b'.pids j (omega (arith, w.total))
          ∙ subst (λ i. get_or b'.pids i 0 ≡ get_or ps j 0) z (w.noted j h),
    )
