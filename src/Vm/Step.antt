-- ===== src/Vm/Step.antt =====
-- One round of the loop of `deallocuvm` of xv6A1/vm.c.
use mathlib.Core.Option.{none-ne-some, some-injective}
use operating_system_design.Prelude.{
  ℕ, ◌+◌, ◌*◌, ◌/◌, ◌%◌, ◌^◌, ◌<◌, ◌≤◌, ◌≡◌, ◌≢◌, refl, sym, ap, ◌∙◌, ◌⊎◌, inl, inr, true, false,
  Option, none, some, List, [], ◌∷◌, ◌++◌, arith, add32, sub32, Bool-cases,
}
use operating_system_design.Kalloc.{Kmem, page_size, kern_base}
use operating_system_design.Vm.{pdx, present, dealloc_step}
use operating_system_design.Vm.Space.{SameDir, dir, translate, IsSpace}
use operating_system_design.Vm.Walk.{IsVm, walk-there, walk-away}
use operating_system_design.Vm.Round.{mapped-none, translate-page}
use operating_system_design.Vm.Access.{slot_pos}
use operating_system_design.Vm.Frames.{frame_of, Frames}
use operating_system_design.Vm.Unmap.{step-Unmapped}

-- The page is on the list.
abbrev pub Listed : ℕ → List ℕ → Type 0
Listed v [] = ⊥
Listed v (x ∷ xs) = (v ≡ x) ⊎ Listed v xs

pub Listed-left : (v : ℕ) (xs ys : List ℕ) → Listed v xs → Listed v (xs ++ ys)
Listed-left v [] ys l = absurd l
Listed-left v (x ∷ xs) ys (inl e) = inl e
Listed-left v (x ∷ xs) ys (inr l) = inr (Listed-left v xs ys l)

pub Listed-right : (v : ℕ) (xs ys : List ℕ) → Listed v ys → Listed v (xs ++ ys)
Listed-right v [] ys l = l
Listed-right v (x ∷ xs) ys l = inr (Listed-right v xs ys l)

-- One round of the loop of `deallocuvm` from page `a`, on the way to page `b`.
pub record Stepped (kernel_end pgdir a b : ℕ) (k k' : Kmem) (xs ys : List ℕ) : Type 0 where
  pub further : a + page_size ≤ b
  pub bounded : b ≤ kern_base
  pub aligned : b % page_size ≡ 0
  pub vm : IsVm pgdir k' (ys ++ xs)
  pub frames : Frames kernel_end pgdir k' (ys ++ xs)
  pub back : (va e : ℕ) → a ≤ va → va < b → translate pgdir va k ≡ some e → Listed (frame_of e) ys
  pub dirs : SameDir pgdir k.mem k'.mem
  pub gone : (va : ℕ) → a ≤ va → va < b → translate pgdir va k' ≡ none
  pub others :
      (va : ℕ)
      → va < 2 ^ 32
      → va / page_size ≢ a / page_size
      → translate pgdir va k' ≡ translate pgdir va k

abbrev pub IsStepped : ℕ → ℕ → ℕ → Kmem → List ℕ → Option (ℕ × Kmem) → Type 0
IsStepped kernel_end pgdir a k xs none = ⊥
IsStepped kernel_end pgdir a k xs (some (b, k')) =
    (ys : List ℕ) × Stepped kernel_end pgdir a b k k' xs ys

-- The first address behind the table of `a`.
abbrev next_table : ℕ → ℕ
next_table a = (a / 2 ^ 22 + 1) * 2 ^ 22

dealloc_step_skip :
    (kernel_end pgdir a : ℕ) (k : Kmem)
    → a < kern_base
    → present (dir k.mem pgdir (pdx a)) ≡ false
    → dealloc_step kernel_end pgdir a k ≡ some (next_table a, k)
unfolding dealloc_step
dealloc_step_skip kernel_end pgdir a k low away =
    let next : add32 (sub32 ((pdx a + 1) * 2 ^ 22 % 2 ^ 32) page_size) page_size ≡ next_table a =
      unfold pdx in omega arith in
    rw (walk-away pgdir a k away) (ap (λ b. some (b, k)) next)

dealloc_step_pass :
    (kernel_end pgdir a : ℕ) (k : Kmem) (xs : List ℕ)
    → a < kern_base
    → IsSpace k.mem pgdir xs
    → present (dir k.mem pgdir (pdx a)) ≡ true
    → translate pgdir a k ≡ none
    → dealloc_step kernel_end pgdir a k ≡ some (a + page_size, k)
unfolding dealloc_step
dealloc_step_pass kernel_end pgdir a k xs low s there out =
    let unused = mapped-none _ (rw there at out) in
    rw (walk-there pgdir a false k there, slot_pos pgdir a k xs s there, unused)
      (ap (λ b. some (b, k)) (omega arith))

pub dealloc_step-IsStepped :
    (kernel_end pgdir a : ℕ) (k : Kmem) (xs : List ℕ)
    → kern_base < kernel_end
    → a < kern_base
    → a % page_size ≡ 0
    → IsVm pgdir k xs
    → Frames kernel_end pgdir k xs
    → IsStepped kernel_end pgdir a k xs (dealloc_step kernel_end pgdir a k)
dealloc_step-IsStepped kernel_end pgdir a k xs big low al v fr =
    from (translate pgdir a k) refl (Bool-cases (present (dir k.mem pgdir (pdx a))))
  where
    from :
        (o : Option ℕ)
        → translate pgdir a k ≡ o
        → (present (dir k.mem pgdir (pdx a)) ≡ true) ⊎ (present (dir k.mem pgdir (pdx a)) ≡ false)
        → IsStepped kernel_end pgdir a k xs (dealloc_step kernel_end pgdir a k)
    from (some e) at_a there_or =
        let (k', runs, u) = step-Unmapped kernel_end pgdir a e k xs big low v fr at_a in
        rw runs (
          frame_of e ∷ [],
          record {
            further = omega arith;
            bounded = omega arith;
            aligned = omega arith;
            vm = u.vm;
            frames = u.frames;
            dirs = u.dirs;
            back = λ va w from_a to t.
                let same_page : va / page_size ≡ a / page_size = omega arith in
                let same =
                  some-injective w e (sym t ∙ translate-page pgdir va a k same_page ∙ at_a) in
                inl (ap frame_of same);
            gone = λ va from_a to.
                let same_page : va / page_size ≡ a / page_size = omega arith in
                translate-page pgdir va a k' same_page ∙ u.gone;
            others = u.others;
          },
        )
    from none out (inl there) =
        rw (dealloc_step_pass kernel_end pgdir a k xs low v.space there out) (
          [],
          record {
            further = omega arith;
            bounded = omega arith;
            aligned = omega arith;
            vm = v;
            frames = fr;
            dirs = λ i lt. refl;
            back = λ va w from_a to t.
                let same_page : va / page_size ≡ a / page_size = omega arith in
                absurd (none-ne-some w (sym out ∙ translate-page pgdir a va k (sym same_page) ∙ t));
            gone = λ va from_a to.
                let same_page : va / page_size ≡ a / page_size = omega arith in
                translate-page pgdir va a k same_page ∙ out;
            others = λ va lt ne. refl;
          },
        )
    from none out (inr away) =
        let no_table : (va : ℕ) → a ≤ va → va < next_table a → translate pgdir va k ≡ none =
          λ va from_a to.
            let same_table : pdx va ≡ pdx a = unfold pdx in omega arith in
            rw (same_table, away) refl in
        rw (dealloc_step_skip kernel_end pgdir a k low away) (
          [],
          record {
            further = omega arith;
            bounded = omega arith;
            aligned = omega arith;
            vm = v;
            frames = fr;
            dirs = λ i lt. refl;
            back = λ va w from_a to t. absurd (none-ne-some w (sym (no_table va from_a to) ∙ t));
            gone = no_table;
            others = λ va lt ne. refl;
          },
        )
