-- ===== src/Vm/Walk.antt =====
-- `walkpgdir` of xv6A1/vm.c.
use operating_system_design.Prelude.{
  ℕ, ◌+◌, ◌*◌, ◌^◌, ◌<◌, ◌≡◌, refl, sym, ap, ◌∙◌, ◌⊎◌, inl, inr, Bool, true, false, List, [], ◌∷◌,
  ◌++◌, arith, ◌==◌, Bool-cases,
}
use operating_system_design.Kalloc.{Kmem, kalloc}
use operating_system_design.Kalloc.FreeList.{Chain}
use operating_system_design.Vm.{pdx, ptx, present, set_word, zero_page, walkpgdir}
use operating_system_design.Vm.Space.{dir, table, entry, IsSpace}
use operating_system_design.Vm.Grow.{
  table_entry, zero_page-Grown, grown_present, grown_table, grown-IsSpace, grown-entry, grown-Chain,
}

abbrev pub AllLow : List ℕ → Type 0
AllLow [] = Unit
AllLow (x ∷ xs) = (x < 2 ^ 32) × AllLow xs

-- The page tables of `pgdir` are in order, and `xs` are the free pages.
pub record IsVm (pgdir : ℕ) (k : Kmem) (xs : List ℕ) : Type 0 where
  pub space : IsSpace k.mem pgdir xs
  pub chain : Chain k.mem k.freelist xs
  pub low : AllLow xs

-- No translation differs.
abbrev pub SameEntries : ℕ → Kmem → Kmem → Type 0
SameEntries pgdir k k' =
    (i j : ℕ) → i < 1024 → j < 1024 → entry k'.mem pgdir i j ≡ entry k.mem pgdir i j

-- `slot` is where the entry of `va` stands; the tables may have grown by pages `ys`.
pub record Walked (pgdir va slot : ℕ) (k k' : Kmem) (xs ys xs' : List ℕ) : Type 0 where
  pub at : slot ≡ table k'.mem pgdir (pdx va) + 4 * ptx va
  pub there : present (dir k'.mem pgdir (pdx va)) ≡ true
  pub vm : IsVm pgdir k' xs'
  pub took : ys ++ xs' ≡ xs
  pub same : SameEntries pgdir k k'

pub pdx-bound : (va : ℕ) → pdx va < 1024
unfolding pdx
pdx-bound va = omega arith

pub ptx-bound : (va : ℕ) → ptx va < 1024
unfolding ptx
ptx-bound va = omega arith

-- The outcome of a walk that may allocate.
abbrev pub WalkOutcome : ℕ → ℕ → Kmem → List ℕ → ℕ × Kmem → Type 0
WalkOutcome pgdir va k xs (slot, k') =
    ((ys : List ℕ) × ((xs' : List ℕ) × Walked pgdir va slot k k' xs ys xs'))
    ⊎ ((slot ≡ 0) × (k' ≡ k) × (xs ≡ []))

-- The state with a new table at `x`, the first free page.
abbrev with_table : ℕ → ℕ → ℕ → Kmem → Kmem
with_table pgdir i x k =
    set_word (pgdir + 4 * i) (table_entry x) (zero_page x (record k { freelist = k.mem x }))

pub walk-there :
    (pgdir va : ℕ) (alloc : Bool) (k : Kmem)
    → present (dir k.mem pgdir (pdx va)) ≡ true
    → walkpgdir pgdir va alloc k ≡ (table k.mem pgdir (pdx va) + 4 * ptx va, k)
unfolding walkpgdir
walk-there pgdir va alloc k there = rw there refl

pub walk-away :
    (pgdir va : ℕ) (k : Kmem)
    → present (dir k.mem pgdir (pdx va)) ≡ false
    → walkpgdir pgdir va false k ≡ (0, k)
unfolding walkpgdir
walk-away pgdir va k away = rw away refl

walk-grow :
    (pgdir va : ℕ) (k : Kmem)
    → present (dir k.mem pgdir (pdx va)) ≡ false
    → (k.freelist == 0) ≡ false
    → walkpgdir pgdir va true k ≡ (k.freelist + 4 * ptx va, with_table pgdir (pdx va) k.freelist k)
unfolding walkpgdir kalloc
walk-grow pgdir va k away some_page = rw away (rw some_page refl)

walk-full :
    (pgdir va : ℕ) (k : Kmem)
    → present (dir k.mem pgdir (pdx va)) ≡ false
    → k.freelist ≡ 0
    → walkpgdir pgdir va true k ≡ (0, k)
unfolding walkpgdir kalloc
walk-full pgdir va k away empty = rw (away, empty) refl

with_table-Walked :
    (pgdir va x : ℕ) (k : Kmem) (xs : List ℕ)
    → IsVm pgdir k (x ∷ xs)
    → present (dir k.mem pgdir (pdx va)) ≡ false
    → Walked pgdir va (x + 4 * ptx va) k (with_table pgdir (pdx va) x k) (x ∷ xs) (x ∷ []) xs
unfolding set_word zero_page
with_table-Walked pgdir va x k xs v away =
    let i = pdx va in
    let (_, pos, al, new_page, c) = v.chain in
    let s = v.space in
    let lt = pdx-bound va in
    let low = v.low.0 in
    let mem' = (with_table pgdir i x k).mem in
    let g =
      zero_page-Grown (record k { freelist = k.mem x }) pgdir i x al s.aligned lt
        (λ e. s.dir_taken.0 (sym e)) in
    record {
      at =
          ap (λ t. t + 4 * ptx va)
            (sym (grown_table k.mem mem' pgdir i x xs s lt away pos low al new_page g));
      there = grown_present k.mem mem' pgdir i x xs s lt away pos low al new_page g;
      vm = record {
        space = grown-IsSpace k.mem mem' pgdir i x xs s lt away pos low al new_page g;
        chain =
            grown-Chain k.mem mem' pgdir i x xs s lt away pos low al new_page g (k.mem x) xs
              new_page s.dir_taken.1 c;
        low = v.low.1;
      };
      took = refl;
      same = grown-entry k.mem mem' pgdir i x xs s lt away pos low al new_page g;
    }

-- `walkpgdir` with `alloc` finds the entry's place, with a new table if there was none, or there is
-- no table and no page.
pub walkpgdir-WalkOutcome :
    (pgdir va : ℕ) (k : Kmem) (xs : List ℕ)
    → IsVm pgdir k xs
    → WalkOutcome pgdir va k xs (walkpgdir pgdir va true k)
walkpgdir-WalkOutcome pgdir va k xs v = elim (Bool-cases (present (dir k.mem pgdir (pdx va)))) [
  | inl there ↦ rw (walk-there pgdir va true k there) (
      inl (
        [],
        (xs, record { at = refl; there = there; vm = v; took = refl; same = λ i j lt lt'. refl }),
      ))
  | inr away ↦ from xs v away
]
  where
    from :
        (ys : List ℕ)
        → IsVm pgdir k ys
        → present (dir k.mem pgdir (pdx va)) ≡ false
        → WalkOutcome pgdir va k ys (walkpgdir pgdir va true k)
    from [] w away = rw (walk-full pgdir va k away w.chain) (inr (refl, refl, refl))
    from (x ∷ ys) w away =
        let (first, pos, _, _, _) = w.chain in
        let some_page : (k.freelist == 0) ≡ false = ground arith in
        let grows =
          walk-grow pgdir va k away some_page
          ∙ ap (λ r. (r + 4 * ptx va, with_table pgdir (pdx va) r k)) first in
        rw grows (inl (x ∷ [], (ys, with_table-Walked pgdir va x k ys w away)))
