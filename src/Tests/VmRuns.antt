-- ===== src/Tests/VmRuns.antt =====
-- A page directory of xv6A1/vm.c with one table and one user page, and one free page.
use operating_system_design.Prelude.{
  ℕ, ◌+◌, ◌*◌, ◌/◌, ◌<◌, ◌≤◌, ◌≡◌, refl, ◌∙◌, sym, true, none, some, Option, [], ◌∷◌, arith, ◌==◌,
  if◌then◌else◌,
}
use operating_system_design.Kalloc.{Kmem, page_round_up, kern_base, page_size}
use operating_system_design.Vm.{pdx, ptx, present, mappages, deallocuvm, freevm, clearpteu}
use operating_system_design.Vm.Space.{dir, translate, IsSpace}
use operating_system_design.Vm.Walk.{IsVm, pdx-bound}
use operating_system_design.Vm.Mapped.{IsMapped}
use operating_system_design.Vm.Map.{mappages-IsMapped}
use operating_system_design.Vm.Access.{translate-Reached, Guarded, clearpteu-Guarded}
use operating_system_design.Vm.Frames.{Frames}
use operating_system_design.Vm.Free.{IsFreeable, Returned, freevm-Returned}
use operating_system_design.Vm.Dealloc.{Cleared, deallocuvm-Cleared}

abbrev kernel_end : ℕ
kernel_end = 0x80115000

abbrev pgdir : ℕ
pgdir = 0x80401000

-- The table is at 0x80402000, the user page at 0x80403000 behind address 0, and the free page at
-- 0x80404000.
abbrev small : Kmem
small = record {
  mem = λ a. if a == 0x80401000 then 0x402007 else (if a == 0x80402000 then 0x403007 else 0);
  freelist = 0x80404000;
}

only_table : (i : ℕ) → i < 1024 → present (dir small.mem pgdir i) ≡ true → i ≡ 0
unfolding present
only_table i lt p = ground arith

only_word :
    (j e : ℕ) → small.mem (0x80402000 + 4 * j) ≡ e → present e ≡ true → (j ≡ 0) × (e ≡ 0x403007)
unfolding present
only_word j e w p = (ground arith, ground arith)

only_page :
    (va e : ℕ) → translate pgdir va small ≡ some e → (pdx va ≡ 0) × (ptx va ≡ 0) × (e ≡ 0x403007)
only_page va e t =
    let r = translate-Reached pgdir va e small t in
    let first = only_table (pdx va) (pdx-bound va) r.there in
    let (second, word) = only_word (ptx va) e (rw first at r.word) r.in_use in (first, second, word)

small-IsSpace : IsSpace small.mem pgdir (0x80404000 ∷ [])
small-IsSpace = record {
  aligned = refl;
  dir_taken = (omega arith, tt);
  table_pos = λ i lt p. rw (only_table i lt p) (omega arith);
  table_taken = λ i lt p. rw (only_table i lt p) (omega arith, tt);
  no_dir = λ i lt p. rw (only_table i lt p) (omega arith);
  distinct =
      λ i j lt lt' ne p q. absurd (ne (omega (arith, only_table i lt p, only_table j lt' q)));
}

small-IsVm : IsVm pgdir small (0x80404000 ∷ [])
small-IsVm = record {
  space = small-IsSpace;
  chain = (refl, omega arith, refl, tt, refl);
  low = (omega arith, tt);
}

first_page : (va : ℕ) → va < kern_base → pdx va ≡ 0 → ptx va ≡ 0 → va / page_size ≡ 0
unfolding pdx ptx
first_page va lt i j = omega arith

small-Frames : Frames kernel_end pgdir small (0x80404000 ∷ [])
small-Frames = record {
  page = λ va e lt t. rw (only_page va e t).2 (omega arith);
  taken = λ va e lt t. rw (only_page va e t).2 (omega arith, tt);
  data_page = λ va e lt t. rw (only_page va e t).2 (record {
    no_dir = omega arith;
    no_table = λ i lt_i p. rw (only_table i lt_i p) (omega arith);
  });
  apart = λ va u e e' lt lt' ne t t'.
      let (i, j, _) = only_page va e t in
      let (i', j', _) = only_page u e' t' in
      absurd (ne (first_page va lt i j ∙ sym (first_page u lt' i' j')));
}

unmapped : (u : ℕ) → 0x3ff000 ≤ u → u < kern_base → translate pgdir u small ≡ none
unmapped u low high = from (translate pgdir u small) refl
  where
    from : (o : Option ℕ) → translate pgdir u small ≡ o → translate pgdir u small ≡ none
    from none e = e
    from (some w) e =
        let (i, j, _) = only_page u w e in let first = first_page u high i j in absurd (omega arith)

mapped_at_zero : translate pgdir 0 small ≡ some 0x403007
unfolding pdx ptx present
mapped_at_zero = refl

-- The pages at 0x3ff000 and 0x400000, of which the second one needs a new table.
mappages-IsMapped_example :
    IsMapped pgdir 0x3ff000 0x500000 6 2 small
      (0x80404000 ∷ [])
      (mappages pgdir 0x3ff010 0x1800 0x500000 6 small)
mappages-IsMapped_example =
    mappages-IsMapped pgdir 0x3ff010 0x1800 0x500000 6 small (0x80404000 ∷ []) (omega arith)
      (omega arith) (omega arith) small-IsVm (λ u low high. unmapped u low (omega arith))

clearpteu-Guarded_example :
    (k' : Kmem) × (clearpteu pgdir 0 small ≡ some k')
    × Guarded pgdir 0 0x403007 small k' (0x80404000 ∷ [])
clearpteu-Guarded_example =
    clearpteu-Guarded pgdir 0 0x403007 small (0x80404000 ∷ []) (omega arith) small-IsVm
      mapped_at_zero

deallocuvm-Cleared_example :
    (k' : Kmem) × (deallocuvm kernel_end pgdir 0x1800 0 small ≡ some (0, k'))
    × Cleared kernel_end pgdir (page_round_up 0) 0x1800 small k' (0x80404000 ∷ [])
deallocuvm-Cleared_example =
    deallocuvm-Cleared kernel_end pgdir 0x1800 0 small (0x80404000 ∷ []) (omega arith) (omega arith)
      (omega arith) small-IsVm small-Frames

small-IsFreeable : IsFreeable kernel_end pgdir small.mem
small-IsFreeable = record {
  dir_page = omega arith;
  table_page = λ i lt p. rw (only_table i lt p) (omega arith);
}

freevm-Returned_example :
    (k' : Kmem) × (freevm kernel_end pgdir small ≡ some k')
    × Returned pgdir small k' (0x80404000 ∷ [])
freevm-Returned_example =
    freevm-Returned kernel_end pgdir small (0x80404000 ∷ []) (omega arith) small-IsVm small-Frames
      small-IsFreeable
