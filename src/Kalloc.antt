-- ===== src/Kalloc.antt =====
-- xv6A1/kalloc.c: the allocator of physical pages. The free list is threaded through the pages, so
-- the memory is part of the state, as a word for each address that is a multiple of 4. The lock is
-- left out: each function runs its critical section whole.
pub mod FreeList
use operating_system_design.Prelude.{
  ℕ, zero, suc, ◌+◌, ◌*◌, ◌/◌, ◌%◌, ◌^◌, not, ◌||◌, ◌&&◌, Option, none, some, ltb, leb, ◌==◌,
  if◌then◌else◌, add32, sub32,
}

abbrev pub page_size : ℕ
page_size = 4096

abbrev pub phys_top : ℕ
phys_top = 0xe000000

abbrev pub kern_base : ℕ
kern_base = 0x80000000

abbrev pub page_round_up : ℕ → ℕ
page_round_up a = add32 a (4095) / page_size * page_size

-- `kmem` with the memory: `freelist` is the address of a page, 0 for null.
pub record Kmem : Type 0 where
  pub mem : ℕ → ℕ
  pub freelist : ℕ

-- `memset(v, 1, PGSIZE)`
unfoldable pub junk : ℕ → (ℕ → ℕ) → ℕ → ℕ
junk v mem a = if leb v a && ltb a (v + page_size) then 0x01010101 else mem a

-- `r->next = next`
unfoldable pub link : ℕ → ℕ → (ℕ → ℕ) → ℕ → ℕ
link r next mem a = if a == r then next else mem a

-- `kfree`: `none` is the panic. `kernel_end` is the linker's symbol `end`.
unfoldable pub kfree : ℕ → ℕ → Kmem → Option Kmem
kfree kernel_end v k =
    if not (v % page_size == 0) || ltb v kernel_end || leb phys_top (sub32 v kern_base)
    then none
    else some (record { mem = link v k.freelist (junk v k.mem); freelist = v })

-- `kalloc`: the page, or 0.
unfoldable pub kalloc : Kmem → ℕ × Kmem
kalloc k = let r = k.freelist in (r, if r == 0 then k else record k { freelist = k.mem r })

-- The loop of `freerange` from page `p` on, with at most `fuel` rounds; then it stops as by a
-- panic.
unfoldable pub free_loop : ℕ → ℕ → ℕ → ℕ → Kmem → Option Kmem
free_loop zero kernel_end p vend k = none
free_loop (suc fuel) kernel_end p vend k =
    if leb (p + page_size) vend
    then elim (kfree kernel_end p k) [
      | none ↦ none
      | some k' ↦ free_loop fuel kernel_end (p + page_size) vend k'
    ]
    else some k

-- `freerange`, with as many rounds as pages can fit below `vend`, and one for the last test.
unfoldable pub freerange : ℕ → ℕ → ℕ → Kmem → Option Kmem
freerange kernel_end vstart vend k =
    free_loop (vend / page_size + 1) kernel_end (page_round_up vstart) vend k
