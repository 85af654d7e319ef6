-- ===== src/Vm/Unmap.antt =====
-- `deallocuvm` at a mapped page, of xv6A1/vm.c.
use operating_system_design.Prelude.{
  ℕ, ◌+◌, ◌*◌, ◌/◌, ◌^◌, ◌<◌, ◌≡◌, ◌≢◌, refl, ap, ◌∙◌, true, false, none, some, List, ◌∷◌, arith,
  ◌==◌, add32,
}
use operating_system_design.Kalloc.{Kmem, page_size, kern_base, kfree}
use operating_system_design.Kalloc.FreeList.{kfree-Chain}
use operating_system_design.Vm.{pdx, ptx, pte_addr, present, set_word, dealloc_step}
use operating_system_design.Vm.Space.{dir, table, translate, IsSpace, SameDir}
use operating_system_design.Vm.Walk.{IsVm, walk-there, pdx-bound, ptx-bound}
use operating_system_design.Vm.Round.{set_word-Stored, translate-page}
use operating_system_design.Vm.Access.{slot_of, slot_pos, Reached, translate-Reached}
use operating_system_design.Vm.Frames.{
  frame_of, Frames, outside-SameDir, outside-entry, freed-IsSpace, Unmapped, left-Frames,
}

dealloc_step_free :
    (kernel_end pgdir a e : ℕ) (k k1 : Kmem) (xs : List ℕ)
    → IsSpace k.mem pgdir xs
    → Reached pgdir a e k
    → (pte_addr e == 0) ≡ false
    → kfree kernel_end (frame_of e) k ≡ some k1
    → dealloc_step kernel_end pgdir a k
      ≡ some (add32 a page_size, set_word (slot_of pgdir a k) 0 k1)
unfolding dealloc_step
dealloc_step_free kernel_end pgdir a e k k1 xs s r frame freed =
    rw (walk-there pgdir a false k r.there, slot_pos pgdir a k xs s r.there)
      (rw (r.word, r.in_use, frame, freed) (rw (walk-there pgdir a false k r.there) refl))

-- A mapped page: its frame becomes free.
pub step-Unmapped :
    (kernel_end pgdir a e : ℕ) (k : Kmem) (xs : List ℕ)
    → kern_base < kernel_end
    → a < kern_base
    → IsVm pgdir k xs
    → Frames kernel_end pgdir k xs
    → translate pgdir a k ≡ some e
    → (k' : Kmem) × (dealloc_step kernel_end pgdir a k ≡ some (a + page_size, k'))
      × Unmapped kernel_end pgdir a k k' xs (frame_of e ∷ xs)
unfolding set_word
step-Unmapped kernel_end pgdir a e k xs big low v fr at_a =
    let f = frame_of e in
    let page = fr.page a e low at_a in
    let data_page = fr.data_page a e low at_a in
    let r = translate-Reached pgdir a e k at_a in
    let (k1, freed, chain1, outside) =
      kfree-Chain kernel_end f k xs page (fr.taken a e low at_a) v.chain in
    let frame : (pte_addr e == 0) ≡ false = ground arith in
    let slot = slot_of pgdir a k in
    let k' = set_word slot 0 k1 in
    let same_dir = outside-SameDir k.mem k1.mem pgdir f xs v.space data_page page.0 outside in
    let space1 = freed-IsSpace k.mem k1.mem pgdir f xs v.space data_page page.0 outside in
    let v1 : IsVm pgdir k1 (f ∷ xs) = record {
      space = space1;
      chain = chain1;
      low = (omega arith, v.low);
    } in
    let i = pdx a in
    let lt = pdx-bound a in
    let there1 : present (dir k1.mem pgdir i) ≡ true = rw (same_dir i lt) r.there in
    let at1 : slot ≡ table k1.mem pgdir i + 4 * ptx a = rw (same_dir i lt) refl in
    let d = set_word-Stored pgdir a slot 0 k1 (f ∷ xs) (omega arith) v1 there1 at1 in
    let same_dir' : SameDir pgdir k.mem k'.mem = λ j lt_j. d.dirs j lt_j ∙ same_dir j lt_j in
    let others : (va : ℕ)
        → va < 2 ^ 32
        → va / page_size ≢ a / page_size
        → translate pgdir va k' ≡ translate pgdir va k =
      λ va lt_va ne.
        d.elsewhere va lt_va ne
        ∙ outside-entry k.mem k1.mem pgdir f xs v.space data_page page.0 outside (pdx va) (ptx va)
            (pdx-bound va) (ptx-bound va) in
    let next : add32 a page_size ≡ a + page_size = omega arith in
    let gone : translate pgdir a k' ≡ none = d.here ∙ (unfold present in refl) in
    (
      k',
      dealloc_step_free kernel_end pgdir a e k k1 xs v.space r frame freed
          ∙ ap (λ b. some (b, k')) next,
      record {
        vm = d.vm;
        frames =
            left-Frames kernel_end pgdir a e k k' xs low at_a fr same_dir'
              (λ va same_page. translate-page pgdir va a k' same_page ∙ gone) others;
        dirs = same_dir';
        gone = gone;
        others = others;
      },
    )
