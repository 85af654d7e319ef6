-- ===== src/Vm/Map.antt =====
-- `mappages` of xv6A1/vm.c.
use operating_system_design.Prelude.{
  ℕ, zero, suc, ◌+◌, ◌-◌, ◌*◌, ◌/◌, ◌%◌, ◌^◌, ◌<◌, ◌≤◌, ◌≡◌, refl, sym, ◌∙◌, inl, inr, true, Option,
  none, some, List, arith, ◌==◌, eq→==, ne→==, if◌then◌else◌, add32, sub32, minus_one,
}
use mathlib.Core.Path.{subst, ap₂}
use operating_system_design.Kalloc.{Kmem, page_size}
use operating_system_design.Vm.{set_word, walkpgdir, map_loop, mappages, page_round_down}
use operating_system_design.Vm.Space.{translate}
use operating_system_design.Vm.Walk.{IsVm, WalkOutcome, walkpgdir-WalkOutcome}
use operating_system_design.Vm.Round.{page_entry, Round, Found, Walked-Found, Walked-Round}
use operating_system_design.Vm.Mapped.{
  MapResult, IsMapped, full-MapResult, one-MapResult, next-MapResult,
}

module _ (fuel pgdir a last pa perm : ℕ) (k : Kmem) where
  map_loop_full :
      walkpgdir pgdir a true k ≡ (0, k)
      → map_loop (suc fuel) pgdir a last pa perm k ≡ some (minus_one, k)
  unfolding map_loop
  map_loop_full e = rw e refl

  map_loop-Found :
      (slot : ℕ) (k1 : Kmem)
      → walkpgdir pgdir a true k ≡ (slot, k1)
      → Found pgdir a k slot k1
      → map_loop (suc fuel) pgdir a last pa perm k ≡ (
          if a == last
          then some (0, set_word slot (page_entry pa perm) k1)
          else map_loop fuel pgdir
              (add32 a page_size)
              last
              (add32 pa page_size)
              perm
              (set_word slot (page_entry pa perm) k1))
  unfolding map_loop
  map_loop-Found slot k1 e f = rw e (rw (f.pos, f.unused) refl)

-- A round fails, or maps its page and goes on.
round_lem :
    (fuel n pgdir a last pa perm : ℕ) (k : Kmem) (xs : List ℕ)
    → a < 2 ^ 32
    → 0 < n
    → IsVm pgdir k xs
    → translate pgdir a k ≡ none
    → ((k' : Kmem) (ys xs' : List ℕ)
        → Round pgdir a (page_entry pa perm) k k' xs ys xs'
        → IsMapped pgdir a pa perm n k xs (
            if a == last
            then some (0, k')
            else map_loop fuel pgdir (add32 a page_size) last (add32 pa page_size) perm k'))
    → IsMapped pgdir a pa perm n k xs (map_loop (suc fuel) pgdir a last pa perm k)
round_lem fuel n pgdir a last pa perm k xs low pos v unmapped go_on =
    from (walkpgdir pgdir a true k) refl (walkpgdir-WalkOutcome pgdir a k xs v)
  where
    from :
        (r : ℕ × Kmem)
        → walkpgdir pgdir a true k ≡ r
        → WalkOutcome pgdir a k xs r
        → IsMapped pgdir a pa perm n k xs (map_loop (suc fuel) pgdir a last pa perm k)
    from (slot, k1) e (inl (ys, (xs', w))) =
        rw
          (map_loop-Found fuel pgdir a last pa perm k slot k1 e
            (Walked-Found pgdir a slot k k1 xs ys xs' w unmapped))
          (go_on (set_word slot (page_entry pa perm) k1) ys xs'
            (Walked-Round pgdir a slot pa perm k k1 xs ys xs' low w))
    from (slot, k1) e (inr (no_slot, same, empty)) =
        rw
          (map_loop_full fuel pgdir a last pa perm k
            (e ∙ ap₂ (λ (b : ℕ) (q : Kmem). (b, q)) no_slot same))
          (subst (λ zs. IsVm pgdir k zs → MapResult pgdir a pa perm n k zs (minus_one, k))
            (sym empty) (λ v'. full-MapResult pgdir a pa perm n k v' pos) v)

map_loop-IsMapped :
    (n pgdir a last pa perm : ℕ) (k : Kmem) (xs : List ℕ)
    → a % page_size ≡ 0
    → last ≡ a + n * page_size
    → a + (n + 1) * page_size ≤ 2 ^ 32
    → pa + (n + 1) * page_size ≤ 2 ^ 32
    → IsVm pgdir k xs
    → ((va : ℕ) → a ≤ va → va < a + (n + 1) * page_size → translate pgdir va k ≡ none)
    → IsMapped pgdir a pa perm (suc n) k xs (map_loop (suc n) pgdir a last pa perm k)
map_loop-IsMapped zero pgdir a last pa perm k xs al is_last fits fits' v unmapped =
    round_lem zero 1 pgdir a last pa perm k xs (omega arith) (omega arith) v
      (unmapped a (omega arith) (omega arith))
      (λ k' ys xs' d.
        rw (eq→== a last (omega arith)) (one-MapResult pgdir a pa perm k k' xs ys xs' al d))
map_loop-IsMapped (suc n) pgdir a last pa perm k xs al is_last fits fits' v unmapped =
    let a' : add32 a page_size ≡ a + page_size = omega arith in
    let pa' : add32 pa page_size ≡ pa + page_size = omega arith in
    round_lem (suc n) (suc (suc n)) pgdir a last pa perm k xs (omega arith) (omega arith) v
      (unmapped a (omega arith) (omega arith))
      (λ k' ys xs' d.
        rw (ne→== a last (omega arith), a', pa')
          (next_lem k' ys xs' d _ (
            map_loop-IsMapped n pgdir (a + page_size) last (pa + page_size) perm k' xs'
              (omega arith) (omega arith) (omega arith) (omega arith) d.vm
              (λ va from_a to.
                d.elsewhere va (omega arith) (λ e. omega arith)
                ∙ unmapped va (omega arith) (omega arith)))))
  where
    next_lem :
        (k' : Kmem) (ys xs' : List ℕ)
        → Round pgdir a (page_entry pa perm) k k' xs ys xs'
        → (o : Option (ℕ × Kmem))
        → IsMapped pgdir (a + page_size) (pa + page_size) perm (suc n) k' xs' o
        → IsMapped pgdir a pa perm (suc (suc n)) k xs o
    next_lem k' ys xs' d none h = h
    next_lem k' ys xs' d (some r) h =
        next-MapResult pgdir a pa perm (suc n) k k' xs ys xs' r al fits d h

-- How many pages `mappages` is asked to map.
abbrev pub pages_of : ℕ → ℕ → ℕ
pages_of va size = suc ((va + size - 1) / page_size - va / page_size)

-- `mappages` does not panic. It returns 0 if it has mapped every page that the range touches, in
-- order, by the entries `f | perm | PTE_P` for the addresses `f` of the frames from `pa` on, and -1
-- if it has mapped only the first ones so and no page is free any more. It changes no other translation, takes no page that was not free, and leaves the page
-- tables distinct and off the free list: where they were so before, no page of the range was mapped,
-- the range is not empty, and neither it nor its frames go beyond 2 ^ 32.
pub mappages-IsMapped :
    (pgdir va size pa perm : ℕ) (k : Kmem) (xs : List ℕ)
    → 0 < size
    → va + size ≤ 2 ^ 32
    → pa + pages_of va size * page_size ≤ 2 ^ 32
    → IsVm pgdir k xs
    → ((u : ℕ)
        → page_round_down va ≤ u
        → u < page_round_down va + pages_of va size * page_size
        → translate pgdir u k ≡ none)
    → IsMapped pgdir
        (page_round_down va)
        pa
        perm
        (pages_of va size)
        k
        xs
        (mappages pgdir va size pa perm k)
unfolding mappages
mappages-IsMapped pgdir va size pa perm k xs some_size fits fits' v unmapped =
    let n = (va + size - 1) / page_size - va / page_size in
    let a = page_round_down va in
    let last_byte : sub32 (add32 va size) 1 ≡ va + size - 1 = omega arith in
    let last = page_round_down (va + size - 1) in
    let rounds : sub32 last a / page_size + 1 ≡ suc n = omega arith in
    rw (last_byte, rounds)
      (map_loop-IsMapped n pgdir a last pa perm k xs (omega arith) (omega arith) (omega arith)
        (omega arith) v (λ u low high. unmapped u low (omega arith)))
