-- ===== src/Vm/Access.antt =====
-- `uva2ka` and `clearpteu` of xv6A1/vm.c.
use mathlib.Core.Path.{subst}
use mathlib.Core.Option.{none-ne-some, some-injective}
use operating_system_design.Prelude.{
  ℕ, ◌+◌, ◌-◌, ◌*◌, ◌/◌, ◌%◌, ◌^◌, ◌<◌, ◌≡◌, ◌≢◌, refl, ap, ◌∙◌, inl, inr, true, false, Option,
  none, some, List, arith, ◌==◌, if◌then◌else◌, Bool-cases,
}
use operating_system_design.Kalloc.{Kmem, page_size}
use operating_system_design.Vm.{pdx, ptx, pte_addr, p2v, present, user, set_word, clearpteu, uva2ka}
use operating_system_design.Vm.Space.{dir, table, mapped, translate, IsSpace}
use operating_system_design.Vm.Walk.{IsVm, walk-there, walk-away, pdx-bound}
use operating_system_design.Vm.Round.{set_word-Stored}

-- Where the entry of `va` stands.
abbrev pub slot_of : ℕ → ℕ → Kmem → ℕ
slot_of pgdir va k = table k.mem pgdir (pdx va) + 4 * ptx va

-- The walk has reached the entry `e`, which is in use.
pub record Reached (pgdir va e : ℕ) (k : Kmem) : Type 0 where
  pub there : present (dir k.mem pgdir (pdx va)) ≡ true
  pub word : k.mem (slot_of pgdir va k) ≡ e
  pub in_use : present e ≡ true

some-mapped : (w e : ℕ) → mapped w ≡ some e → (w ≡ e) × (present e ≡ true)
some-mapped w e h = elim (Bool-cases (present w)) [
  | inl is_in ↦
      let same = some-injective w e (rw is_in at h) in
      (same, subst (λ z. present z ≡ true) same is_in)
  | inr out ↦ absurd (none-ne-some e (rw out at h))
]

pub translate-Reached :
    (pgdir va e : ℕ) (k : Kmem) → translate pgdir va k ≡ some e → Reached pgdir va e k
translate-Reached pgdir va e k h = elim (Bool-cases (present (dir k.mem pgdir (pdx va)))) [
  | inl there ↦
      let (word, in_use) = some-mapped _ e (rw there at h) in
      record { there = there; word = word; in_use = in_use }
  | inr away ↦ absurd (none-ne-some e (rw away at h))
]

-- No entry stands at address 0.
pub slot_pos :
    (pgdir va : ℕ) (k : Kmem) (xs : List ℕ)
    → IsSpace k.mem pgdir xs
    → present (dir k.mem pgdir (pdx va)) ≡ true
    → (slot_of pgdir va k == 0) ≡ false
slot_pos pgdir va k xs s there = let pos = s.table_pos (pdx va) (pdx-bound va) there in ground arith

-- The kernel's address of a page that user code may touch, else 0.
abbrev pub user_page : Option ℕ → ℕ
user_page none = 0
user_page (some e) = if user e then p2v (pte_addr e) else 0

-- Where there is a table, `uva2ka` gives the address of the frame that the processor finds, if user
-- code may touch the page, and 0 otherwise. Where there is none, it reads through a null pointer.
pub uva2ka_lem :
    (pgdir va : ℕ) (k : Kmem) (xs : List ℕ)
    → IsSpace k.mem pgdir xs
    → uva2ka pgdir va k ≡ (
        if present (dir k.mem pgdir (pdx va))
        then some (user_page (translate pgdir va k))
        else none)
unfolding uva2ka
uva2ka_lem pgdir va k xs s = elim (Bool-cases (present (dir k.mem pgdir (pdx va)))) [
  | inr away ↦ rw (walk-away pgdir va k away, away) refl
  | inl there ↦
      let slot = slot_of pgdir va k in
      rw (walk-there pgdir va false k there, slot_pos pgdir va k xs s there, there)
        (elim (Bool-cases (present (k.mem slot))) [
          | inr unused ↦ rw unused refl
          | inl in_use ↦ rw in_use (elim (Bool-cases (user (k.mem slot))) [
            | inl open_page ↦ rw (open_page) refl
            | inr closed ↦ rw (closed) refl
          ])
        ])
]

-- The entry without `PTE_U`.
abbrev pub no_user : ℕ → ℕ
no_user e = e - e / 4 % 2 * 4

no_user-flags :
    (e : ℕ) → present e ≡ true → (present (no_user e) ≡ true) × (user (no_user e) ≡ false)
unfolding present user
no_user-flags e h = (ground arith, ground arith)

-- What `clearpteu` does to a mapped page: it returns, user code can no longer touch the page, which
-- stays mapped to its frame, and every other page is as before.
pub record Guarded (pgdir va e : ℕ) (k k' : Kmem) (xs : List ℕ) : Type 0 where
  pub vm : IsVm pgdir k' xs
  pub barred : uva2ka pgdir va k' ≡ some 0
  pub frame : (translate pgdir va k' ≡ some (no_user e)) × (pte_addr (no_user e) ≡ pte_addr e)
  pub others :
      (u : ℕ)
      → u < 2 ^ 32
      → u / page_size ≢ va / page_size
      → translate pgdir u k' ≡ translate pgdir u k

clearpteu-eq :
    (pgdir va e : ℕ) (k : Kmem) (xs : List ℕ)
    → IsSpace k.mem pgdir xs
    → Reached pgdir va e k
    → clearpteu pgdir va k ≡ some (set_word (slot_of pgdir va k) (no_user e) k)
unfolding clearpteu
clearpteu-eq pgdir va e k xs s r =
    rw (walk-there pgdir va false k r.there, slot_pos pgdir va k xs s r.there) (rw r.word refl)

-- `clearpteu` of a mapped page returns; then `uva2ka` refuses the page, which is still mapped to its
-- frame, and every other page is translated as before: where the page tables are distinct pages that
-- are not free.
pub clearpteu-Guarded :
    (pgdir va e : ℕ) (k : Kmem) (xs : List ℕ)
    → va < 2 ^ 32
    → IsVm pgdir k xs
    → translate pgdir va k ≡ some e
    → (k' : Kmem) × (clearpteu pgdir va k ≡ some k') × Guarded pgdir va e k k' xs
clearpteu-Guarded pgdir va e k xs low v h =
    let r = translate-Reached pgdir va e k h in
    let (in_use, closed) = no_user-flags e r.in_use in
    let slot = slot_of pgdir va k in
    let k' = set_word slot (no_user e) k in
    let d = set_word-Stored pgdir va slot (no_user e) k xs low v r.there refl in
    let here : translate pgdir va k' ≡ some (no_user e) = d.here ∙ rw in_use refl in
    let r' = translate-Reached pgdir va (no_user e) k' here in
    (
      k',
      clearpteu-eq pgdir va e k xs v.space r,
      record {
        vm = d.vm;
        barred =
            uva2ka_lem pgdir va k' xs d.vm.space
            ∙ ap (λ b. if b then some (user_page (translate pgdir va k')) else none) r'.there
            ∙ ap (λ o. some (user_page o)) here
            ∙ rw closed refl;
        frame = (here, omega arith);
        others = d.elsewhere;
      },
    )
