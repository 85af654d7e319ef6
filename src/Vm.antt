-- ===== src/Vm.antt =====
-- xv6A1/vm.c: the two levels of page tables, over the memory and the free list of xv6A1/kalloc.c.
-- The memory is a word for each kernel address that is a multiple of 4. A page directory is the
-- address of its page. `none` is a panic, or a read through a null pointer.
pub mod Space
pub mod Flags
pub mod Grow
pub mod Walk
pub mod Round
pub mod Mapped
pub mod Map
pub mod Access
pub mod Frames
pub mod Unmap
pub mod Step
pub mod Dealloc
pub mod Free
use Prim.Native.Nat.{bit_or}
use operating_system_design.Prelude.{
  ℕ, zero, suc, ◌+◌, ◌-◌, ◌*◌, ◌/◌, ◌%◌, ◌^◌, Bool, true, false, not, ◌||◌, ◌&&◌, Option, none,
  some, ltb, leb, ◌==◌, if◌then◌else◌, add32, sub32, minus_one,
}
use operating_system_design.Kalloc.{Kmem, page_size, page_round_up, kern_base, kfree, kalloc}

-- `PDX` and `PTX`
unfoldable pub pdx : ℕ → ℕ
pdx va = va / 2 ^ 22 % 1024

unfoldable pub ptx : ℕ → ℕ
ptx va = va / 2 ^ 12 % 1024

-- `PTE_ADDR`
abbrev pub pte_addr : ℕ → ℕ
pte_addr e = e / page_size * page_size

abbrev pub v2p : ℕ → ℕ
v2p a = sub32 a kern_base

abbrev pub p2v : ℕ → ℕ
p2v a = add32 a kern_base

abbrev pub page_round_down : ℕ → ℕ
page_round_down a = a / page_size * page_size

-- `e & PTE_P` and `e & PTE_U` as tests.
unfoldable pub present : ℕ → Bool
present e = e % 2 == 1

unfoldable pub user : ℕ → Bool
user e = e / 4 % 2 == 1

-- `PTE_P | PTE_W | PTE_U`
abbrev pub table_flags : ℕ
table_flags = 7

-- A word of the memory is written.
unfoldable pub set_word : ℕ → ℕ → Kmem → Kmem
set_word a w k = record k { mem = λ b. if b == a then w else k.mem b }

-- `memset(page, 0, PGSIZE)`
unfoldable pub zero_page : ℕ → Kmem → Kmem
zero_page page k = record k {
  mem = λ b. if leb page b && ltb b (page + page_size) then 0 else k.mem b;
}

-- `walkpgdir`: the address of the entry, or 0.
unfoldable pub walkpgdir : ℕ → ℕ → Bool → Kmem → ℕ × Kmem
walkpgdir pgdir va alloc k =
    let pde = pgdir + 4 * pdx va in
    let (pgtab, k1) = kalloc k in
    if present (k.mem pde)
    then (p2v (pte_addr (k.mem pde)) + 4 * ptx va, k)
    else if not alloc
    then (0, k)
    else if pgtab == 0
    then (0, k1)
    else (pgtab + 4 * ptx va, set_word pde (bit_or (v2p pgtab) table_flags) (zero_page pgtab k1))

-- The loop of `mappages` from page `a` on. It has as many rounds as there are pages up to `last`.
unfoldable pub map_loop : ℕ → ℕ → ℕ → ℕ → ℕ → ℕ → Kmem → Option (ℕ × Kmem)
map_loop zero pgdir a last pa perm k = none
map_loop (suc fuel) pgdir a last pa perm k =
    let (pte, k1) = walkpgdir pgdir a true k in
    let k2 = set_word pte (bit_or (bit_or pa perm) 1) k1 in
    let rest = map_loop fuel pgdir (add32 a page_size) last (add32 pa page_size) perm k2 in
    if pte == 0
    then some (minus_one, k1)
    else if present (k1.mem pte)
    then none
    else if a == last
    then some (0, k2)
    else rest

-- `mappages`
unfoldable pub mappages : ℕ → ℕ → ℕ → ℕ → ℕ → Kmem → Option (ℕ × Kmem)
mappages pgdir va size pa perm k =
    let a = page_round_down va in
    let last = page_round_down (sub32 (add32 va size) 1) in
    map_loop (sub32 last a / page_size + 1) pgdir a last pa perm k

-- One round of the loop of `deallocuvm`: the next page, and the state.
unfoldable pub dealloc_step : ℕ → ℕ → ℕ → Kmem → Option (ℕ × Kmem)
dealloc_step kernel_end pgdir a k =
    let pte = (walkpgdir pgdir a false k).0 in
    let pa = pte_addr (k.mem pte) in
    let skip = sub32 ((pdx a + 1) * 2 ^ 22 % 2 ^ 32) page_size in
    let freed : Option (ℕ × Kmem) = elim (kfree kernel_end (p2v pa) k) [
      | none ↦ none
      | some k1 ↦ some (add32 a page_size, set_word pte 0 k1)
    ] in
    if pte == 0
    then some (add32 skip page_size, k)
    else if present (k.mem pte)
    then (if pa == 0 then none else freed)
    else some (add32 a page_size, k)

unfoldable pub dealloc_loop : ℕ → ℕ → ℕ → ℕ → ℕ → Kmem → Option Kmem
dealloc_loop zero kernel_end pgdir a oldsz k = none
dealloc_loop (suc fuel) kernel_end pgdir a oldsz k =
    if ltb a oldsz
    then elim (dealloc_step kernel_end pgdir a k) [
      | none ↦ none
      | some (a', k1) ↦ dealloc_loop fuel kernel_end pgdir a' oldsz k1
    ]
    else some k

-- `deallocuvm`, with a round for each page below `oldsz` and one for the last test.
unfoldable pub deallocuvm : ℕ → ℕ → ℕ → ℕ → Kmem → Option (ℕ × Kmem)
deallocuvm kernel_end pgdir oldsz newsz k =
    if leb oldsz newsz
    then some (oldsz, k)
    else elim (dealloc_loop (oldsz / page_size + 2) kernel_end pgdir (page_round_up newsz) oldsz
        k) [ none ↦ none | some k1 ↦ some (newsz, k1) ]

-- One round of the loop of `freevm`: the table behind directory entry `i`, if there is one.
unfoldable pub free_table : ℕ → ℕ → ℕ → Kmem → Option Kmem
free_table kernel_end pgdir i k =
    let e = k.mem (pgdir + 4 * i) in
    if present e then kfree kernel_end (p2v (pte_addr e)) k else some k

-- The loop of `freevm` from entry `i` on, with the rounds left.
unfoldable pub free_tables : ℕ → ℕ → ℕ → ℕ → Kmem → Option Kmem
free_tables zero kernel_end pgdir i k = some k
free_tables (suc n) kernel_end pgdir i k = elim (free_table kernel_end pgdir i k) [
  | none ↦ none
  | some k1 ↦ free_tables n kernel_end pgdir (i + 1) k1
]

-- `freevm`
unfoldable pub freevm : ℕ → ℕ → Kmem → Option Kmem
freevm kernel_end pgdir k =
    if pgdir == 0 then none else elim (deallocuvm kernel_end pgdir kern_base 0 k) [
      | none ↦ none
      | some (_, k1) ↦ elim (free_tables 1024 kernel_end pgdir 0 k1) [
        | none ↦ none
        | some k2 ↦ kfree kernel_end pgdir k2
      ]
    ]

-- `clearpteu`
unfoldable pub clearpteu : ℕ → ℕ → Kmem → Option Kmem
clearpteu pgdir uva k =
    let pte = (walkpgdir pgdir uva false k).0 in
    let e = k.mem pte in if pte == 0 then none else some (set_word pte (e - e / 4 % 2 * 4) k)

-- `uva2ka`: the kernel's address of the page, or 0.
unfoldable pub uva2ka : ℕ → ℕ → Kmem → Option ℕ
uva2ka pgdir uva k =
    let pte = (walkpgdir pgdir uva false k).0 in
    let e = k.mem pte in
    if pte == 0
    then none
    else if not (present e)
    then some 0
    else if not (user e)
    then some 0
    else some (p2v (pte_addr e))
