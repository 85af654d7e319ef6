-- ===== src/Vm/Round.antt =====
-- One round of the loop of `mappages` of xv6A1/vm.c.
use operating_system_design.Prelude.{
  ℕ, ◌+◌, ◌*◌, ◌/◌, ◌%◌, ◌^◌, ◌<◌, ◌≡◌, ◌≢◌, refl, sym, ◌∙◌, ◌⊎◌, inl, inr, true, false, none, some,
  List, ◌++◌, arith, ◌==◌, Bool-cases,
}
use Prim.Native.Nat.{bit_or}
use native.Mathlib.Decide.{ℕ_discrete}
use mathlib.Core.Path.{subst}
use mathlib.Core.Option.{none-ne-some}
use operating_system_design.Kalloc.{Kmem, page_size}
use operating_system_design.Vm.{pdx, ptx, present, set_word}
use operating_system_design.Vm.Flags.{bit_or_odd}
use operating_system_design.Vm.Space.{
  dir, table, mapped, entry, translate, Overwritten, SameDir, written-SameDir, set_word-Overwritten,
  written-IsSpace, entry-written, entry-written_other, written-Chain,
}
use operating_system_design.Vm.Walk.{IsVm, Walked, pdx-bound, ptx-bound}

-- The entry that `mappages` writes: `pa | perm | PTE_P`.
abbrev pub page_entry : ℕ → ℕ → ℕ
page_entry pa perm = bit_or (bit_or pa perm) 1

pub mapped-none : (e : ℕ) → mapped e ≡ none → present e ≡ false
mapped-none e h = elim (Bool-cases (present e)) [
  | inl is_in ↦ absurd (none-ne-some e (sym (rw is_in at h)))
  | inr out ↦ out
]

pub page_entry-present : (pa perm : ℕ) → present (page_entry pa perm) ≡ true
unfolding present
page_entry-present pa perm = rw (bit_or_odd (bit_or pa perm)) refl

-- Addresses of one page are translated alike, and addresses of two pages use different entries.
pub translate-page :
    (pgdir va va' : ℕ) (k : Kmem)
    → va / page_size ≡ va' / page_size
    → translate pgdir va k ≡ translate pgdir va' k
unfolding pdx ptx
translate-page pgdir va va' k same =
    let i : va / 2 ^ 22 % 1024 ≡ va' / 2 ^ 22 % 1024 = omega arith in
    let j : va / 2 ^ 12 % 1024 ≡ va' / 2 ^ 12 % 1024 = omega arith in rw (i, j) refl

pub pages-apart :
    (va va' : ℕ)
    → va < 2 ^ 32
    → va' < 2 ^ 32
    → va / page_size ≢ va' / page_size
    → (pdx va ≢ pdx va') ⊎ (ptx va ≢ ptx va')
unfolding pdx ptx
pages-apart va va' lt lt' ne = elim (ℕ_discrete (va / 2 ^ 22 % 1024) (va' / 2 ^ 22 % 1024)) [
  | yes same ↦ inr (λ e. ne (omega arith))
  | no differ ↦ inl differ
]

-- One page is mapped.
pub record Round (pgdir a e : ℕ) (k k' : Kmem) (xs ys xs' : List ℕ) : Type 0 where
  pub vm : IsVm pgdir k' xs'
  pub took : ys ++ xs' ≡ xs
  pub here : translate pgdir a k' ≡ some e
  pub elsewhere :
      (va : ℕ)
      → va < 2 ^ 32
      → va / page_size ≢ a / page_size
      → translate pgdir va k' ≡ translate pgdir va k

-- The walk has found the place of an entry that is not in use.
pub record Found (pgdir a : ℕ) (k : Kmem) (slot : ℕ) (k1 : Kmem) : Type 0 where
  pub pos : (slot == 0) ≡ false
  pub unused : present (k1.mem slot) ≡ false

pub Walked-Found :
    (pgdir a slot : ℕ) (k k1 : Kmem) (xs ys xs' : List ℕ)
    → Walked pgdir a slot k k1 xs ys xs'
    → translate pgdir a k ≡ none
    → Found pgdir a k slot k1
Walked-Found pgdir a slot k k1 xs ys xs' w unmapped =
    let i = pdx a in
    let j = ptx a in
    let lt = pdx-bound a in
    let positive = w.vm.space.table_pos i lt w.there in
    let free : entry k1.mem pgdir i j ≡ none = w.same i j lt (ptx-bound a) ∙ unmapped in
    record { pos = rw w.at (ground arith); unused = rw w.at (mapped-none _ (rw w.there at free)) }

-- The entry of `a` is another word.
pub record Stored (pgdir a w : ℕ) (k k' : Kmem) (xs : List ℕ) : Type 0 where
  pub vm : IsVm pgdir k' xs
  pub dirs : SameDir pgdir k.mem k'.mem
  pub here : translate pgdir a k' ≡ mapped w
  pub elsewhere :
      (va : ℕ)
      → va < 2 ^ 32
      → va / page_size ≢ a / page_size
      → translate pgdir va k' ≡ translate pgdir va k

pub set_word-Stored :
    (pgdir a slot w : ℕ) (k : Kmem) (xs : List ℕ)
    → a < 2 ^ 32
    → IsVm pgdir k xs
    → present (dir k.mem pgdir (pdx a)) ≡ true
    → slot ≡ table k.mem pgdir (pdx a) + 4 * ptx a
    → Stored pgdir a w k (set_word slot w k) xs
unfolding set_word
set_word-Stored pgdir a slot w k xs low v there at =
    let i = pdx a in
    let j = ptx a in
    let k' = set_word slot w k in
    let lt = pdx-bound a in
    let lt' = ptx-bound a in
    let s = v.space in
    let written = subst (λ b. Overwritten b w k.mem k'.mem) at (set_word-Overwritten slot w k) in
    record {
      vm = record {
        space = written-IsSpace k.mem k'.mem pgdir xs i j w s lt lt' there written;
        chain = written-Chain k.mem k'.mem pgdir xs i j w s lt lt' there written k.freelist v.chain;
        low = v.low;
      };
      dirs = written-SameDir k.mem k'.mem pgdir xs i j w s lt lt' there written;
      here = entry-written k.mem k'.mem pgdir xs i j w s lt lt' there written;
      elsewhere = λ va low' ne.
          entry-written_other k.mem k'.mem pgdir xs i j w s lt lt' there written (pdx va) (ptx va)
            (pdx-bound va) (ptx-bound va) (pages-apart va a low' low ne);
    }

pub Walked-Round :
    (pgdir a slot pa perm : ℕ) (k k1 : Kmem) (xs ys xs' : List ℕ)
    → a < 2 ^ 32
    → Walked pgdir a slot k k1 xs ys xs'
    → Round pgdir a (page_entry pa perm) k (set_word slot (page_entry pa perm) k1) xs ys xs'
Walked-Round pgdir a slot pa perm k k1 xs ys xs' low w =
    let d = set_word-Stored pgdir a slot (page_entry pa perm) k1 xs' low w.vm w.there w.at in
    record {
      vm = d.vm;
      took = w.took;
      here = d.here ∙ rw (page_entry-present pa perm) refl;
      elsewhere = λ va low' ne.
          d.elsewhere va low' ne ∙ w.same (pdx va) (ptx va) (pdx-bound va) (ptx-bound va);
    }
