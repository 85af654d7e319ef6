-- ===== src/Vm/Dealloc.antt =====
-- `deallocuvm` of xv6A1/vm.c.
use mathlib.Core.Path.{subst}
use mathlib.Core.List.{append_assoc}
use operating_system_design.Prelude.{
  ℕ, zero, suc, ◌+◌, ◌*◌, ◌/◌, ◌%◌, ◌^◌, ◌<◌, ◌≤◌, ◌≡◌, refl, sym, ◌∙◌, ◌⊎◌, inl, inr, true, false,
  Option, none, some, List, [], ◌++◌, arith, ltb, Bool-cases, ltb→lt, ltb→le, le→ltb, gt→leb,
}
use operating_system_design.Kalloc.{Kmem, page_size, kern_base, page_round_up}
use operating_system_design.Vm.{dealloc_step, dealloc_loop, deallocuvm, page_round_down}
use operating_system_design.Vm.Space.{SameDir, translate}
use operating_system_design.Vm.Walk.{IsVm}
use operating_system_design.Vm.Frames.{frame_of, Frames}
use operating_system_design.Vm.Step.{
  Listed, Listed-left, Listed-right, Stepped, IsStepped, dealloc_step-IsStepped,
}

-- What the loop of `deallocuvm` does from page `a` up to `oldsz`.
pub record Cleared (kernel_end pgdir a oldsz : ℕ) (k k' : Kmem) (xs : List ℕ) : Type 0 where
  pub freed : List ℕ
  pub vm : IsVm pgdir k' (freed ++ xs)
  pub frames : Frames kernel_end pgdir k' (freed ++ xs)
  pub dirs : SameDir pgdir k.mem k'.mem
  pub gone : (va : ℕ) → a ≤ va → va < oldsz → translate pgdir va k' ≡ none
  pub back :
      (va e : ℕ) → a ≤ va → va < oldsz → translate pgdir va k ≡ some e → Listed (frame_of e) freed
  pub others :
      (va : ℕ)
      → va < 2 ^ 32
      → (va < a) ⊎ (oldsz ≤ page_round_down va)
      → translate pgdir va k' ≡ translate pgdir va k

next-Cleared :
    (kernel_end pgdir a b oldsz : ℕ) (k k1 k' : Kmem) (xs ys : List ℕ)
    → a < oldsz
    → a % page_size ≡ 0
    → oldsz ≤ kern_base
    → Stepped kernel_end pgdir a b k k1 xs ys
    → Cleared kernel_end pgdir b oldsz k1 k' (ys ++ xs)
    → Cleared kernel_end pgdir a oldsz k k' xs
next-Cleared kernel_end pgdir a b oldsz k k1 k' xs ys lt al high d c =
    let assoc = sym (append_assoc c.freed ys xs) in
    record {
      freed = c.freed ++ ys;
      vm = subst (IsVm pgdir k') assoc c.vm;
      frames = subst (Frames kernel_end pgdir k') assoc c.frames;
      dirs = λ i lt_i. c.dirs i lt_i ∙ d.dirs i lt_i;
      gone = λ va from_a to. elim (Bool-cases (ltb va b)) [
        | inl now ↦
            let lt_b = ltb→lt va b now in
            c.others va (omega arith) (inl lt_b) ∙ d.gone va from_a lt_b
        | inr later ↦ c.gone va (ltb→le va b later) to
      ];
      back = λ va e from_a to t. elim (Bool-cases (ltb va b)) [
        | inl now ↦ Listed-right (frame_of e) c.freed ys (d.back va e from_a (ltb→lt va b now) t)
        | inr later ↦
            let further = d.further in
            let at_b = ltb→le va b later in
            let before = d.others va (omega arith) (λ q. omega arith) ∙ t in
            Listed-left (frame_of e) c.freed ys (c.back va e at_b to before)
      ];
      others = λ va lt_va off.
          let further = d.further in
          c.others va lt_va (ground arith) ∙ d.others va lt_va (ground arith);
    }

-- A step that has been made.
record Made (kernel_end pgdir a : ℕ) (k : Kmem) (xs : List ℕ) (o : Option (ℕ × Kmem)) : Type 0 where
  page : ℕ
  state : Kmem
  freed : List ℕ
  runs : o ≡ some (page, state)
  step : Stepped kernel_end pgdir a page k state xs freed

made :
    (kernel_end pgdir a : ℕ) (k : Kmem) (xs : List ℕ) (o : Option (ℕ × Kmem))
    → IsStepped kernel_end pgdir a k xs o
    → Made kernel_end pgdir a k xs o
made kernel_end pgdir a k xs none h = absurd h
made kernel_end pgdir a k xs (some (b, k')) (ys, d) = record {
  page = b;
  state = k';
  freed = ys;
  runs = refl;
  step = d;
}

loop_over :
    (fuel kernel_end pgdir a oldsz : ℕ) (k : Kmem)
    → ltb a oldsz ≡ false
    → dealloc_loop (suc fuel) kernel_end pgdir a oldsz k ≡ some k
unfolding dealloc_loop
loop_over fuel kernel_end pgdir a oldsz k over = rw over refl

loop_next :
    (fuel kernel_end pgdir a b oldsz : ℕ) (k k' : Kmem)
    → ltb a oldsz ≡ true
    → dealloc_step kernel_end pgdir a k ≡ some (b, k')
    → dealloc_loop (suc fuel) kernel_end pgdir a oldsz k
      ≡ dealloc_loop fuel kernel_end pgdir b oldsz k'
unfolding dealloc_loop
loop_next fuel kernel_end pgdir a b oldsz k k' more e = rw (more, e) refl

idle-Cleared :
    (kernel_end pgdir a oldsz : ℕ) (k : Kmem) (xs : List ℕ)
    → oldsz ≤ a
    → IsVm pgdir k xs
    → Frames kernel_end pgdir k xs
    → Cleared kernel_end pgdir a oldsz k k xs
idle-Cleared kernel_end pgdir a oldsz k xs over v fr = record {
  freed = [];
  vm = v;
  frames = fr;
  dirs = λ i lt. refl;
  gone = λ va from_a to. absurd (omega arith);
  back = λ va e from_a to t. absurd (omega arith);
  others = λ va lt off. refl;
}

dealloc_loop-Cleared :
    (fuel kernel_end pgdir a oldsz : ℕ) (k : Kmem) (xs : List ℕ)
    → kern_base < kernel_end
    → oldsz ≤ kern_base
    → oldsz ≤ a + fuel * page_size
    → a % page_size ≡ 0
    → IsVm pgdir k xs
    → Frames kernel_end pgdir k xs
    → (k' : Kmem) × (dealloc_loop (suc fuel) kernel_end pgdir a oldsz k ≡ some k')
      × Cleared kernel_end pgdir a oldsz k k' xs
dealloc_loop-Cleared zero kernel_end pgdir a oldsz k xs big high enough al v fr =
    let over : oldsz ≤ a = omega arith in
    (
      k,
      loop_over zero kernel_end pgdir a oldsz k (le→ltb a oldsz over),
      idle-Cleared kernel_end pgdir a oldsz k xs over v fr,
    )
dealloc_loop-Cleared (suc fuel) kernel_end pgdir a oldsz k xs big high enough al v fr =
    elim (Bool-cases (ltb a oldsz)) [
      | inr over ↦ (
        k,
        loop_over (suc fuel) kernel_end pgdir a oldsz k over,
        idle-Cleared kernel_end pgdir a oldsz k xs (ltb→le a oldsz over) v fr,
      )
      | inl more ↦
          let lt = ltb→lt a oldsz more in
          let m =
            made kernel_end pgdir a k xs _
              (dealloc_step-IsStepped kernel_end pgdir a k xs big (omega arith) al v fr) in
          let d = m.step in
          let further = d.further in
          let (k', runs, c) =
            dealloc_loop-Cleared fuel kernel_end pgdir m.page oldsz m.state (m.freed ++ xs) big high
              (omega arith) d.aligned d.vm d.frames in
          (
            k',
            loop_next (suc fuel) kernel_end pgdir a m.page oldsz k m.state more m.runs ∙ runs,
            next-Cleared kernel_end pgdir a m.page oldsz k m.state k' xs m.freed lt al high d c,
          )
    ]

-- `deallocuvm` to a smaller size ends, does not panic and returns the new size. Then no address from
-- the new size, rounded up to a page, to the old size is mapped, the translations outside the pages
-- of that range are as before, and the frames that were mapped in it stand in front of the free
-- list, which is whole. The page tables are distinct pages that are not free, and each page that is
-- left has a frame of its own: where they were so and had so before, with frames that `kfree`
-- accepts and that are neither free nor a table, and the old size is at most KERNBASE.
pub deallocuvm-Cleared :
    (kernel_end pgdir oldsz newsz : ℕ) (k : Kmem) (xs : List ℕ)
    → kern_base < kernel_end
    → newsz < oldsz
    → oldsz ≤ kern_base
    → IsVm pgdir k xs
    → Frames kernel_end pgdir k xs
    → (k' : Kmem) × (deallocuvm kernel_end pgdir oldsz newsz k ≡ some (newsz, k'))
      × Cleared kernel_end pgdir (page_round_up newsz) oldsz k k' xs
unfolding deallocuvm
deallocuvm-Cleared kernel_end pgdir oldsz newsz k xs big less high v fr =
    let (k', runs, c) =
      dealloc_loop-Cleared (oldsz / page_size + 1) kernel_end pgdir (page_round_up newsz) oldsz k xs
        big high (omega arith) (omega arith) v fr in
    let rounds : oldsz / page_size + 2 ≡ suc (oldsz / page_size + 1) = omega arith in
    (k', rw (gt→leb oldsz newsz less, rounds, runs) refl, c)
