-- ===== src/Kalloc/FreeList.antt =====
-- The free list of xv6A1/kalloc.c as a list of pages.
use mathlib.Core.Path.{subst}
use operating_system_design.Prelude.{
  ℕ, zero, suc, ◌+◌, ◌-◌, ◌*◌, ◌/◌, ◌%◌, ◌<◌, ◌≤◌, ◌≡◌, ◌≢◌, refl, sym, ◌⊎◌, some, List, [], ◌∷◌,
  arith, Absent, ◌==◌, false, le→leb, gt→leb,
}
use operating_system_design.Kalloc.{
  Kmem, page_size, page_round_up, phys_top, kern_base, junk, link, kfree, kalloc, free_loop,
  freerange,
}

-- From `r` on, the memory links the pages of the list, all distinct and none at 0.
abbrev pub Chain : (ℕ → ℕ) → ℕ → List ℕ → Type 0
Chain mem r [] = r ≡ 0
Chain mem r (x ∷ xs) = (r ≡ x) × (0 < x) × (x % page_size ≡ 0) × Absent x xs × Chain mem (mem x) xs

-- Outside the page at `v` two memories agree.
abbrev pub SameOutside : ℕ → (ℕ → ℕ) → (ℕ → ℕ) → Type 0
SameOutside v mem mem' = (a : ℕ) → (a < v) ⊎ (v + page_size ≤ a) → mem' a ≡ mem a

-- Whatever is done to a page that is not on the list, the list stays.
pub Chain-frame :
    (mem mem' : ℕ → ℕ) (v r : ℕ) (xs : List ℕ)
    → v % page_size ≡ 0
    → SameOutside v mem mem'
    → Absent v xs
    → Chain mem r xs
    → Chain mem' r xs
Chain-frame mem mem' v r [] al same away c = c
Chain-frame mem mem' v r (x ∷ xs) al same away (e, pos, aligned, new, c) =
    let off : (x < v) ⊎ (v + page_size ≤ x) = apart v x al aligned away.0 in
    (
      e,
      pos,
      aligned,
      new,
      subst (λ n. Chain mem' n xs) (sym (same x off))
          (Chain-frame mem mem' v (mem x) xs al same away.1 c),
    )
  where
    apart :
        (v x : ℕ) → v % page_size ≡ 0 → x % page_size ≡ 0 → v ≢ x → (x < v) ⊎ (v + page_size ≤ x)
    apart v x a b ne = ground arith

-- The conditions under which `kfree` does not panic.
abbrev pub IsPage : ℕ → ℕ → Type 0
IsPage kernel_end v =
    (v % page_size ≡ 0) × (kernel_end ≤ v) × (kern_base ≤ v) × (v < kern_base + phys_top)

written-SameOutside : (v next : ℕ) (mem : ℕ → ℕ) → SameOutside v mem (link v next (junk v mem))
unfolding link junk
written-SameOutside v next mem a off = ground arith

kfree-eq :
    (kernel_end v : ℕ) (k : Kmem)
    → IsPage kernel_end v
    → kfree kernel_end v k ≡ some (record { mem = link v k.freelist (junk v k.mem); freelist = v })
unfolding kfree
kfree-eq kernel_end v k page = ground arith

freed-Chain :
    (v : ℕ) (k : Kmem) (xs : List ℕ)
    → 0 < v
    → v % page_size ≡ 0
    → Absent v xs
    → Chain k.mem k.freelist xs
    → Chain (link v k.freelist (junk v k.mem)) v (v ∷ xs)
freed-Chain v k xs pos al away c = (
  refl,
  pos,
  al,
  away,
  subst (λ n. Chain (link v k.freelist (junk v k.mem)) n xs) (sym (linked v k))
      (Chain-frame k.mem (link v k.freelist (junk v k.mem)) v k.freelist xs al
        (written-SameOutside v k.freelist k.mem) away c),
)
  where
    linked : (v : ℕ) (k : Kmem) → link v k.freelist (junk v k.mem) v ≡ k.freelist
    linked v k = unfold link in ground arith

-- `kfree` of a page of the kernel's memory that is not on the free list puts it at the front, and
-- writes nowhere outside it.
pub kfree-Chain :
    (kernel_end v : ℕ) (k : Kmem) (xs : List ℕ)
    → IsPage kernel_end v
    → Absent v xs
    → Chain k.mem k.freelist xs
    → (k' : Kmem) × (kfree kernel_end v k ≡ some k')
      × Chain k'.mem k'.freelist (v ∷ xs)
      × SameOutside v k.mem k'.mem
kfree-Chain kernel_end v k xs page away c = (
  record { mem = link v k.freelist (junk v k.mem); freelist = v },
  kfree-eq kernel_end v k page,
  freed-Chain v k xs (omega arith) page.0 away c,
  written-SameOutside v k.freelist k.mem,
)

-- `kalloc` takes the first page off the free list, and whatever its owner then writes to that page,
-- the rest stays a free list without it.
pub kalloc-Chain :
    (k : Kmem) (x : ℕ) (xs : List ℕ) (mem' : ℕ → ℕ)
    → Chain k.mem k.freelist (x ∷ xs)
    → SameOutside x k.mem mem'
    → ((kalloc k).0 ≡ x) × Absent x xs × Chain mem' (kalloc k).1.freelist xs
unfolding kalloc
kalloc-Chain k x xs mem' (e, pos, al, away, c) same =
    let some_page : (k.freelist == 0) ≡ false = ground arith in
    (e, away, rw (some_page) (rw e (Chain-frame k.mem mem' x (k.mem x) xs al same away c)))

-- The `n` pages from `p` on, the last one first, before `xs`.
abbrev pub pages : ℕ → ℕ → List ℕ → List ℕ
pages zero p xs = xs
pages (suc n) p xs = pages n (p + page_size) (p ∷ xs)

free_loop-Chain :
    (fuel n kernel_end p vend : ℕ) (k : Kmem) (xs : List ℕ)
    → n < fuel
    → n ≡ (vend - p) / page_size
    → p % page_size ≡ 0
    → kernel_end ≤ p
    → kern_base ≤ p
    → vend ≤ kern_base + phys_top
    → ((j : ℕ) → j < n → Absent (p + j * page_size) xs)
    → Chain k.mem k.freelist xs
    → (k' : Kmem) × (free_loop fuel kernel_end p vend k ≡ some k')
      × Chain k'.mem k'.freelist (pages n p xs)
unfolding free_loop
free_loop-Chain zero n kernel_end p vend k xs lt count al low base high new c = absurd (omega arith)
free_loop-Chain (suc fuel) zero kernel_end p vend k xs lt count al low base high new c =
    (k, rw (gt→leb (p + page_size) vend (omega arith)) refl, c)
free_loop-Chain (suc fuel) (suc n) kernel_end p vend k xs lt count al low base high new c =
    let (k1, freed, c1, _) =
      kfree-Chain kernel_end p k xs (omega arith)
        (subst (λ v. Absent v xs) (omega arith) (new 0 (omega arith))) c in
    let (k', rest, c') =
      free_loop-Chain fuel n kernel_end (p + page_size) vend k1 (p ∷ xs) (omega arith) (omega arith)
        (omega arith) (omega arith) (omega arith) high
        (λ j h. (omega arith, subst (λ v. Absent v xs) (omega arith) (new (j + 1) (omega arith))))
        c1 in
    (k', rw (le→leb (p + page_size) vend (omega arith), freed) rest, c')

-- `freerange` from `vstart` to `vend` does not panic and frees exactly the whole pages between
-- them, each once, for a range that lies behind the kernel's image and below PHYSTOP, and none of
-- whose pages is on the free list before.
pub freerange-Chain :
    (kernel_end vstart vend : ℕ) (k : Kmem) (xs : List ℕ)
    → kernel_end ≤ vstart
    → kern_base ≤ vstart
    → vstart ≤ vend
    → vend ≤ kern_base + phys_top
    → ((v : ℕ) → vstart ≤ v → v < vend → Absent v xs)
    → Chain k.mem k.freelist xs
    → (let first = page_round_up vstart in
        (k' : Kmem) × (freerange kernel_end vstart vend k ≡ some k')
        × Chain k'.mem k'.freelist (pages ((vend - first) / page_size) first xs))
unfolding freerange
freerange-Chain kernel_end vstart vend k xs low base order high new c =
    let first = page_round_up vstart in
    let n = (vend - first) / page_size in
    free_loop-Chain (vend / page_size + 1) n kernel_end first vend k xs (omega arith) refl
      (omega arith) (omega arith) (omega arith) high
      (λ j h. new (first + j * page_size) (omega arith) (omega arith)) c
