-- ===== src/Tests/KallocRuns.antt =====
-- Pages of xv6A1/kalloc.c behind a kernel that ends at 0x80115000.
use operating_system_design.Prelude.{ℕ, ◌-◌, ◌/◌, ◌≡◌, some, [], arith}
use operating_system_design.Kalloc.{Kmem, page_size, page_round_up, freerange}
use operating_system_design.Kalloc.FreeList.{Chain, pages, freerange-Chain}

abbrev kernel_end : ℕ
kernel_end = 0x80115000

abbrev nothing_free : Kmem
nothing_free = record { mem = λ a. 0; freelist = 0 }

abbrev one_free : Kmem
one_free = record { mem = λ a. 0; freelist = 0x80200000 }

freerange-Chain_example :
    (k' : Kmem) × (freerange kernel_end 0x80200001 0x80205000 nothing_free ≡ some k')
    × Chain k'.mem k'.freelist
        (pages ((0x80205000 - page_round_up 0x80200001) / page_size) (page_round_up 0x80200001) [])
freerange-Chain_example =
    freerange-Chain kernel_end 0x80200001 0x80205000 nothing_free [] (omega arith) (omega arith)
      (omega arith) (omega arith) (λ v low high. tt) (omega arith)
