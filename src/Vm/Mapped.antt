-- ===== src/Vm/Mapped.antt =====
-- What the rounds of the loop of `mappages` of xv6A1/vm.c come to.
use operating_system_design.Prelude.{
  ℕ, suc, ◌+◌, ◌-◌, ◌*◌, ◌/◌, ◌%◌, ◌^◌, ◌<◌, ◌≤◌, ◌≡◌, refl, ap, ◌∙◌, ◌⊎◌, inl, inr, Option, none,
  some, List, [], ◌++◌, arith, ltb, minus_one, Bool-cases,
}
use mathlib.Core.List.{append_assoc}
use operating_system_design.Kalloc.{Kmem, page_size}
use operating_system_design.Vm.Space.{translate}
use operating_system_design.Vm.Walk.{IsVm}
use operating_system_design.Vm.Round.{page_entry, Round, translate-page}

-- What `mappages` has done when it returns: it has mapped `count` pages from `a` on, to the frames
-- from `pa` on, and no other translation differs; it is either all of the `n` pages, or no page is
-- free any more.
pub record MapResult (pgdir a pa perm n : ℕ) (k : Kmem) (xs : List ℕ) (r : ℕ × Kmem) : Type 0 where
  pub count : ℕ
  pub taken : List ℕ
  pub left : List ℕ
  pub ends : ((r.0 ≡ 0) × (count ≡ n)) ⊎ ((r.0 ≡ minus_one) × (count < n) × (left ≡ []))
  pub vm : IsVm pgdir r.1 left
  pub took : taken ++ left ≡ xs
  pub inside :
      (va : ℕ)
      → a ≤ va
      → va < a + count * page_size
      → translate pgdir va r.1 ≡ some (page_entry (pa + (va - a) / page_size * page_size) perm)
  pub outside :
      (va : ℕ)
      → va < 2 ^ 32
      → (va < a) ⊎ (a + count * page_size ≤ va)
      → translate pgdir va r.1 ≡ translate pgdir va k

-- It returns, and so.
abbrev pub IsMapped : ℕ → ℕ → ℕ → ℕ → ℕ → Kmem → List ℕ → Option (ℕ × Kmem) → Type 0
IsMapped pgdir a pa perm n k xs none = ⊥
IsMapped pgdir a pa perm n k xs (some r) = MapResult pgdir a pa perm n k xs r

pub full-MapResult :
    (pgdir a pa perm n : ℕ) (k : Kmem)
    → IsVm pgdir k []
    → 0 < n
    → MapResult pgdir a pa perm n k [] (minus_one, k)
full-MapResult pgdir a pa perm n k v pos = record {
  count = 0;
  taken = [];
  left = [];
  ends = inr (refl, pos, refl);
  vm = v;
  took = refl;
  inside = λ va low high. absurd (omega arith);
  outside = λ va lt off. refl;
}

pub one-MapResult :
    (pgdir a pa perm : ℕ) (k k' : Kmem) (xs ys xs' : List ℕ)
    → a % page_size ≡ 0
    → Round pgdir a (page_entry pa perm) k k' xs ys xs'
    → MapResult pgdir a pa perm 1 k xs (0, k')
one-MapResult pgdir a pa perm k k' xs ys xs' al d = record {
  count = 1;
  taken = ys;
  left = xs';
  ends = inl (refl, refl);
  vm = d.vm;
  took = d.took;
  inside = λ va low high.
      let same : va / page_size ≡ a / page_size = omega arith in
      let none_over : (va - a) / page_size ≡ 0 = omega arith in
      translate-page pgdir va a k' same ∙ d.here ∙ ap (λ q. some (page_entry q perm)) (omega arith);
  outside = λ va lt off. d.elsewhere va lt (ground arith);
}

pub next-MapResult :
    (pgdir a pa perm n : ℕ) (k k' : Kmem) (xs ys xs' : List ℕ) (r : ℕ × Kmem)
    → a % page_size ≡ 0
    → a + (n + 1) * page_size ≤ 2 ^ 32
    → Round pgdir a (page_entry pa perm) k k' xs ys xs'
    → MapResult pgdir (a + page_size) (pa + page_size) perm n k' xs' r
    → MapResult pgdir a pa perm (suc n) k xs r
next-MapResult pgdir a pa perm n k k' xs ys xs' r al fits d m = record {
  count = m.count + 1;
  taken = ys ++ m.taken;
  left = m.left;
  ends = elim m.ends [
    | inl (zero_result, all) ↦ inl (zero_result, omega (arith, all))
    | inr (failed, less, nothing_left) ↦ inr (failed, omega arith, nothing_left)
  ];
  vm = m.vm;
  took = append_assoc ys m.taken m.left ∙ ap (λ zs. ys ++ zs) m.took ∙ d.took;
  inside = λ va low high. elim (Bool-cases (ltb va (a + page_size))) [
    | inl first ↦
        let same : va / page_size ≡ a / page_size = ground arith in
        let none_over : (va - a) / page_size ≡ 0 = ground arith in
        m.outside va (ground arith) (inl (ground arith))
        ∙ translate-page pgdir va a k' same
        ∙ d.here
        ∙ ap (λ q. some (page_entry q perm)) (omega arith)
    | inr later ↦
        let over : pa + page_size + (va - (a + page_size)) / page_size * page_size
            ≡ pa + (va - a) / page_size * page_size =
          ground arith in
        m.inside va (ground arith) (ground arith) ∙ ap (λ q. some (page_entry q perm)) over
  ];
  outside = λ va lt off. m.outside va lt (ground arith) ∙ d.elsewhere va lt (ground arith);
}
