-- ===== src/Vm/Free.antt =====
-- `freevm` of xv6A1/vm.c.
use mathlib.Core.Path.{subst}
use native.Mathlib.Decide.{ℕ_discrete}
use operating_system_design.Prelude.{
  ℕ, zero, suc, ◌+◌, ◌*◌, ◌%◌, ◌<◌, ◌≤◌, ◌≡◌, ◌≢◌, refl, sym, ap, ◌∙◌, ◌⊎◌, inl, inr, true, false,
  some, List, ◌∷◌, ◌++◌, arith, Absent, Bool-cases, ◌==◌,
}
use operating_system_design.Kalloc.{Kmem, page_size, kern_base, kfree}
use operating_system_design.Kalloc.FreeList.{Chain, IsPage, kfree-Chain}
use operating_system_design.Vm.{present, deallocuvm, free_table, free_tables, freevm}
use operating_system_design.Vm.Space.{dir, table, translate, IsSpace, SameDir, table_aligned}
use operating_system_design.Vm.Walk.{IsVm}
use operating_system_design.Vm.Frames.{frame_of, Frames}
use operating_system_design.Vm.Step.{Listed, Listed-left, Listed-right}
use operating_system_design.Vm.Dealloc.{deallocuvm-Cleared}

-- The pages that `freevm` frees at the end are pages of the kernel's memory.
pub record IsFreeable (kernel_end pgdir : ℕ) (mem : ℕ → ℕ) : Type 0 where
  pub dir_page : IsPage kernel_end pgdir
  pub table_page :
      (i : ℕ) → i < 1024 → present (dir mem pgdir i) ≡ true → IsPage kernel_end (table mem pgdir i)

-- The tables before entry `i` are free, and those from it on and the directory are not.
record Freed (pgdir i : ℕ) (k0 k : Kmem) (xs ys : List ℕ) : Type 0 where
  chain : Chain k.mem k.freelist ys
  dirs : SameDir pgdir k0.mem k.mem
  dir_taken : Absent pgdir ys
  left :
      (j : ℕ)
      → i ≤ j
      → j < 1024
      → present (dir k0.mem pgdir j) ≡ true
      → Absent (table k0.mem pgdir j) ys
  done_tables :
      (j : ℕ) → j < i → present (dir k0.mem pgdir j) ≡ true → Listed (table k0.mem pgdir j) ys
  kept : (v : ℕ) → Listed v xs → Listed v ys

off_page :
    (p t j : ℕ)
    → p % page_size ≡ 0
    → t % page_size ≡ 0
    → j < 1024
    → p ≢ t
    → (p + 4 * j < t) ⊎ (t + page_size ≤ p + 4 * j)
off_page p t j al al' lt ne = ground arith

free_table-Freed :
    (kernel_end pgdir i : ℕ) (k0 k : Kmem) (xs ys : List ℕ) (zs : List ℕ)
    → i < 1024
    → IsSpace k0.mem pgdir zs
    → IsFreeable kernel_end pgdir k0.mem
    → Freed pgdir i k0 k xs ys
    → (k' : Kmem) × ((ys' : List ℕ) × ((free_table kernel_end pgdir i k ≡ some k')
          × Freed pgdir (i + 1) k0 k' xs ys'))
unfolding free_table
free_table-Freed kernel_end pgdir i k0 k xs ys zs lt s fb f =
    elim (Bool-cases (present (dir k0.mem pgdir i))) [
      | inr away ↦ (
        k,
        (
          ys,
          (
            rw (f.dirs i lt, away) refl,
            record {
              chain = f.chain;
              dirs = f.dirs;
              dir_taken = f.dir_taken;
              left = λ j le lt_j p. f.left j (omega arith) lt_j p;
              done_tables = λ j lt_j p. elim (ℕ_discrete j i) [
                | yes same ↦ let q = rw same at p in cc
                | no differ ↦ f.done_tables j (omega arith) p
              ];
              kept = f.kept;
            },
          ),
        ),
      )
      | inl here ↦
          let t = table k0.mem pgdir i in
          let (k1, freed, chain1, outside) =
            kfree-Chain kernel_end t k ys (fb.table_page i lt here) (f.left i (omega arith) lt here)
              f.chain in
          (
            k1,
            (
              t ∷ ys,
              (
                rw (f.dirs i lt, here) freed,
                record {
                  chain = chain1;
                  dirs = λ j lt_j.
                      outside (pgdir + 4 * j) (
                        off_page pgdir t j s.aligned (table_aligned k0.mem pgdir i) lt_j
                          (λ e. s.no_dir i lt here (sym e)))
                      ∙ f.dirs j lt_j;
                  dir_taken = (λ e. s.no_dir i lt here (sym e), f.dir_taken);
                  left = λ j le lt_j p. (
                    s.distinct j i lt_j lt (λ e. omega arith) p here,
                    f.left j (omega arith) lt_j p,
                  );
                  done_tables = λ j lt_j p. elim (ℕ_discrete j i) [
                    | yes same ↦ inl (ap (table k0.mem pgdir) same)
                    | no differ ↦ inr (f.done_tables j (omega arith) p)
                  ];
                  kept = λ v l. inr (f.kept v l);
                },
              ),
            ),
          )
    ]

tables_next :
    (n kernel_end pgdir i : ℕ) (k k1 : Kmem)
    → free_table kernel_end pgdir i k ≡ some k1
    → free_tables (suc n) kernel_end pgdir i k ≡ free_tables n kernel_end pgdir (i + 1) k1
unfolding free_tables
tables_next n kernel_end pgdir i k k1 e = rw (free_tables, e) refl

free_tables-Freed :
    (n kernel_end pgdir i : ℕ) (k0 k : Kmem) (xs ys : List ℕ) (zs : List ℕ)
    → i + n ≤ 1024
    → IsSpace k0.mem pgdir zs
    → IsFreeable kernel_end pgdir k0.mem
    → Freed pgdir i k0 k xs ys
    → (k' : Kmem) × ((ys' : List ℕ) × ((free_tables n kernel_end pgdir i k ≡ some k')
          × Freed pgdir (i + n) k0 k' xs ys'))
unfolding free_tables
free_tables-Freed zero kernel_end pgdir i k0 k xs ys zs le s fb f =
    let same : i ≡ i + 0 = omega arith in
    (k, (ys, (refl, subst (λ j. Freed pgdir j k0 k xs ys) same f)))
free_tables-Freed (suc n) kernel_end pgdir i k0 k xs ys zs le s fb f =
    let (k1, (ys1, (step, f1))) =
      free_table-Freed kernel_end pgdir i k0 k xs ys zs (omega arith) s fb f in
    let (k', (ys', (runs, f'))) =
      free_tables-Freed n kernel_end pgdir (i + 1) k0 k1 xs ys1 zs (omega arith) s fb f1 in
    let same : i + 1 + n ≡ i + suc n = omega arith in
    (
      k',
      (
        ys',
        (
          tables_next n kernel_end pgdir i k k1 step ∙ runs,
          subst (λ j. Freed pgdir j k0 k' xs ys') same f',
        ),
      ),
    )

-- All the pages of the address space are on the free list, which is whole.
pub record Returned (pgdir : ℕ) (k k' : Kmem) (xs : List ℕ) : Type 0 where
  pub free : List ℕ
  pub chain : Chain k'.mem k'.freelist free
  pub frames :
      (va e : ℕ) → va < kern_base → translate pgdir va k ≡ some e → Listed (frame_of e) free
  pub tables :
      (i : ℕ) → i < 1024 → present (dir k.mem pgdir i) ≡ true → Listed (table k.mem pgdir i) free
  pub directory : Listed pgdir free
  pub before : (v : ℕ) → Listed v xs → Listed v free

freevm-eq :
    (kernel_end pgdir : ℕ) (k k1 k2 : Kmem)
    → (pgdir == 0) ≡ false
    → deallocuvm kernel_end pgdir kern_base 0 k ≡ some (0, k1)
    → free_tables 1024 kernel_end pgdir 0 k1 ≡ some k2
    → freevm kernel_end pgdir k ≡ kfree kernel_end pgdir k2
unfolding freevm
freevm-eq kernel_end pgdir k k1 k2 pos first second = rw (pos, first) (rw second refl)

-- `freevm` does not panic, and then the frame of every page below KERNBASE, every page table and
-- the directory are on the free list, with all the pages that were free before, each page once:
-- where the page tables are distinct pages of the kernel's memory that are not free, and each page
-- below KERNBASE has a frame of its own that `kfree` accepts and that is neither free nor a table.
pub freevm-Returned :
    (kernel_end pgdir : ℕ) (k : Kmem) (xs : List ℕ)
    → kern_base < kernel_end
    → IsVm pgdir k xs
    → Frames kernel_end pgdir k xs
    → IsFreeable kernel_end pgdir k.mem
    → (k' : Kmem) × (freevm kernel_end pgdir k ≡ some k') × Returned pgdir k k' xs
freevm-Returned kernel_end pgdir k xs big v fr fb =
    let (k1, cleared, c) =
      deallocuvm-Cleared kernel_end pgdir kern_base 0 k xs big (omega arith) (omega arith) v fr in
    let s1 = c.vm.space in
    let ys = c.freed ++ xs in
    let dir_page = fb.dir_page in
    let fb1 : IsFreeable kernel_end pgdir k1.mem = record {
      dir_page = dir_page;
      table_page = λ i lt p. rw (c.dirs i lt) (fb.table_page i lt (rw (c.dirs i lt) at p));
    } in
    let start : Freed pgdir 0 k1 k1 ys ys = record {
      chain = c.vm.chain;
      dirs = λ i lt. refl;
      dir_taken = s1.dir_taken;
      left = λ j le lt p. s1.table_taken j lt p;
      done_tables = λ j lt p. absurd (omega arith);
      kept = λ u l. l;
    } in
    let (k2, (zs, (tables_freed, f))) =
      free_tables-Freed 1024 kernel_end pgdir 0 k1 k1 ys ys ys (omega arith) s1 fb1 start in
    let (k', freed, chain', _) = kfree-Chain kernel_end pgdir k2 zs dir_page f.dir_taken f.chain in
    let pos : (pgdir == 0) ≡ false = ground arith in
    (
      k',
      freevm-eq kernel_end pgdir k k1 k2 pos cleared tables_freed ∙ freed,
      record {
        free = pgdir ∷ zs;
        chain = chain';
        frames = λ va e lt t. inr (
            f.kept (frame_of e)
              (Listed-left (frame_of e) c.freed xs (c.back va e (omega arith) lt t)));
        tables = λ i lt p.
            let e = c.dirs i lt in
            inr (subst (λ w. Listed (frame_of w) zs) e (f.done_tables i (omega arith) (rw e p)));
        directory = inl refl;
        before = λ u l. inr (f.kept u (Listed-right u c.freed xs l));
      },
    )
