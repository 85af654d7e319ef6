-- ===== src/Proc/Multi.antt =====
-- The multicast of xv6A1/sysproc.c on the process table.
use native.Mathlib.Decide.{ℕ_discrete}
use operating_system_design.Prelude.{
  ℕ, ◌<◌, ◌≡◌, refl, sym, ap, ◌∙◌, ◌⊎◌, inl, inr, some, List, [], ◌∷◌, length, length-set, set,
  get_or-set_self, get_or-set_ne, arith, lt→ltb,
}
use operating_system_design.Proc.{Proc, Table, at, nproc, zero_proc}
use operating_system_design.Proc.Signal.{proc_sigsend, send_multi}

-- The number stands in the list.
abbrev pub Member : ℕ → List ℕ → Type 0
Member i [] = ⊥
Member i (x ∷ xs) = (i ≡ x) ⊎ Member i xs

abbrev pub AllSlots : List ℕ → Type 0
AllSlots [] = Unit
AllSlots (x ∷ xs) = (x < nproc) × AllSlots xs

abbrev pub signalled : List ℕ → Proc → Proc
signalled msg p = record p { intr = 1; message = msg }

-- The slots of the list have the message, and the others are as they were.
pub record Signalled (pids msg : List ℕ) (t t' : Table) : Type 0 where
  pub size : length t'.procs ≡ length t.procs
  pub told : (i : ℕ) → Member i pids → at t' i ≡ signalled msg (at t i)
  pub others : (i : ℕ) → ¬ Member i pids → at t' i ≡ at t i

abbrev told_one : ℕ → List ℕ → Table → Table
told_one p msg t = record t { procs = set t.procs p (signalled msg (at t p)) }

proc_sigsend-eq :
    (c p : ℕ) (msg : List ℕ) (t : Table)
    → p < nproc
    → proc_sigsend c p msg t ≡ some (0, told_one p msg t)
unfolding proc_sigsend
proc_sigsend-eq c p msg t lt = rw (lt→ltb p nproc lt) refl

-- `Member` can be decided.
Member-cases : (i : ℕ) (xs : List ℕ) → Member i xs ⊎ (¬ Member i xs)
Member-cases i [] = inr (λ h. h)
Member-cases i (x ∷ xs) = elim (ℕ_discrete i x) [
  | yes e ↦ inl (inl e)
  | no ne ↦ elim (Member-cases i xs) [
    | inl m ↦ inl (inr m)
    | inr out ↦ inr (λ h. elim h [ inl e ↦ ne e | inr m ↦ out m ])
  ]
]

Signalled-cons :
    (p : ℕ) (pids msg : List ℕ) (t t' : Table)
    → p < length t.procs
    → Signalled pids msg (told_one p msg t) t'
    → Signalled (p ∷ pids) msg t t'
Signalled-cons p pids msg t t' inside s = record {
  size = s.size ∙ length-set t.procs p (signalled msg (at t p));
  told = told';
  others = λ i out.
      s.others i (λ m. out (inr m))
      ∙ get_or-set_ne t.procs p i _ zero_proc (λ e. out (inl (sym e)));
}
  where
    told' : (i : ℕ) → Member i (p ∷ pids) → at t' i ≡ signalled msg (at t i)
    told' i h = elim (ℕ_discrete i p) [
      | yes e ↦
          let here = get_or-set_self t.procs p (signalled msg (at t p)) zero_proc inside in
          rw e (elim (Member-cases p pids) [
            | inl m ↦ s.told p m ∙ ap (signalled msg) here
            | inr out ↦ s.others p out ∙ here
          ])
      | no ne ↦
          let there =
            get_or-set_ne t.procs p i (signalled msg (at t p)) zero_proc (λ e. ne (sym e)) in
          elim h [ inl e ↦ absurd (ne e) | inr m ↦ s.told i m ∙ ap (signalled msg) there ]
    ]

-- If every receiver is the index of a slot of the full table, `sys_send_multi` returns 0, each
-- receiver's slot has the message with a signal pending, and no other slot changes.
pub send_multi_lem :
    (c : ℕ) (pids msg : List ℕ) (t : Table)
    → AllSlots pids
    → length t.procs ≡ nproc
    → (t' : Table) × (send_multi c pids msg t ≡ some (0, t')) × Signalled pids msg t t'
unfolding send_multi
send_multi_lem c [] msg t all size =
    (t, refl, record { size = refl; told = λ i h. absurd h; others = λ i h. refl })
send_multi_lem c (p ∷ pids) msg t all size =
    let t1 = told_one p msg t in
    let (t', e, s) =
      send_multi_lem c pids msg t1 all.1 (length-set t.procs p (signalled msg (at t p)) ∙ size) in
    (
      t',
      rw (proc_sigsend-eq c p msg t all.0, send_multi) e,
      Signalled-cons p pids msg t t' (omega (arith, size, all)) s,
    )
