-- ===== src/Proc/Slots.antt =====
-- One slot of the process table after the operations of xv6A1/proc.c.
use native.Mathlib.Decide.{ℕ_discrete, dec_lt}
use operating_system_design.Prelude.{
  ℕ, zero, suc, ◌≤◌, ◌≡◌, refl, sym, ap, ◌⊎◌, inl, inr, List, [], ◌∷◌, map, length, length-map,
  get_or, set, get_or-set_self, get_or-set_ne, arith,
}
use operating_system_design.Proc.{Proc, Table, at, zero_proc, Chan}
use operating_system_design.Proc.Sched.{wake, wakeup}

set_out : (xs : List Proc) (i : ℕ) (p : Proc) → length xs ≤ i → set xs i p ≡ xs
set_out [] i p h = refl
set_out (x ∷ xs) zero p h = absurd (omega arith)
set_out (x ∷ xs) (suc i) p h = ap (◌∷◌ x) (set_out xs i p (omega arith))

-- A slot after a write to slot `i`: the value written, or what it was.
pub set_cases :
    (xs : List Proc) (i : ℕ) (p : Proc) (j : ℕ)
    → ((i ≡ j) × (get_or (set xs i p) j zero_proc ≡ p))
      ⊎ (get_or (set xs i p) j zero_proc ≡ get_or xs j zero_proc)
set_cases xs i p j = elim (ℕ_discrete i j) [
  | yes e ↦ elim (dec_lt i (length xs)) [
    | yes inside ↦ inl (e, rw (← e) (get_or-set_self xs i p zero_proc inside))
    | no outside ↦ inr (rw (set_out xs i p (omega arith)))
  ]
  | no ne ↦ inr (get_or-set_ne xs i j p zero_proc ne)
]

pub get_or-map :
    (f : Proc → Proc) (xs : List Proc) (i : ℕ)
    → f zero_proc ≡ zero_proc
    → get_or (map f xs) i zero_proc ≡ f (get_or xs i zero_proc)
get_or-map f [] i e = sym e
get_or-map f (x ∷ xs) zero e = refl
get_or-map f (x ∷ xs) (suc i) e = get_or-map f xs i e

pub at-wakeup : (chan : Chan) (t : Table) (i : ℕ) → at (wakeup chan t) i ≡ wake chan (at t i)
unfolding wakeup wake
at-wakeup chan t i = get_or-map (wake chan) t.procs i refl

pub length-wakeup : (chan : Chan) (t : Table) → length (wakeup chan t).procs ≡ length t.procs
unfolding wakeup
length-wakeup chan t = length-map (wake chan) t.procs
