-- ===== src/Vm/Grow.antt =====
-- A page table that `walkpgdir` of xv6A1/vm.c adds.
use Prim.Native.Nat.{bit_or}
use native.Mathlib.Decide.{ℕ_discrete}
use mathlib.Core.Path.{subst}
use operating_system_design.Prelude.{
  ℕ, ◌+◌, ◌*◌, ◌%◌, ◌^◌, ◌<◌, ◌≤◌, ◌≡◌, ◌≢◌, refl, sym, ap, ◌∙◌, ◌⊎◌, inl, inr, true, false, List,
  [], ◌∷◌, arith, Absent, eq→==, Bool-cases,
}
use operating_system_design.Kalloc.{Kmem, page_size}
use operating_system_design.Kalloc.FreeList.{Chain}
use operating_system_design.Vm.{pte_addr, v2p, p2v, present, table_flags, set_word, zero_page}
use operating_system_design.Vm.Flags.{bit_or_seven}
use operating_system_design.Vm.Space.{
  dir, table, mapped, entry, IsSpace, table_aligned, slots_apart,
}

-- The entry that leads to the table at `x`.
abbrev pub table_entry : ℕ → ℕ
table_entry x = bit_or (v2p x) table_flags

table_entry-eq : (x : ℕ) → x < 2 ^ 32 → x % page_size ≡ 0 → table_entry x ≡ v2p x + 7
table_entry-eq x low al = bit_or_seven (v2p x) (omega arith)

table_entry-present : (x : ℕ) → x < 2 ^ 32 → x % page_size ≡ 0 → present (table_entry x) ≡ true
unfolding present
table_entry-present x low al = let e = table_entry-eq x low al in rw e (ground arith)

table_entry-addr : (x : ℕ) → x < 2 ^ 32 → x % page_size ≡ 0 → p2v (pte_addr (table_entry x)) ≡ x
table_entry-addr x low al = rw (table_entry-eq x low al) (omega arith)

-- `mem'` is `mem` with an empty table at `x` behind directory entry `i`.
pub record Grown (mem mem' : ℕ → ℕ) (pgdir i x : ℕ) : Type 0 where
  pub empty : (j : ℕ) → j < 1024 → mem' (x + 4 * j) ≡ 0
  pub new : dir mem' pgdir i ≡ table_entry x
  pub others : (a : ℕ) → (a < x) ⊎ (x + page_size ≤ a) → a ≢ pgdir + 4 * i → mem' a ≡ mem a

pub zero_page-Grown :
    (k : Kmem) (pgdir i x : ℕ)
    → x % page_size ≡ 0
    → pgdir % page_size ≡ 0
    → i < 1024
    → x ≢ pgdir
    → Grown k.mem (set_word (pgdir + 4 * i) (table_entry x) (zero_page x k)).mem pgdir i x
unfolding set_word zero_page
zero_page-Grown k pgdir i x al al' lt ne = record {
  empty = λ j lt_j. let apart = slots_apart x pgdir j i al al' lt_j lt ne in ground arith;
  new = rw (eq→== (pgdir + 4 * i) (pgdir + 4 * i) refl) refl;
  others = λ a off ne_a. ground arith;
}

module _ (mem mem' : ℕ → ℕ) (pgdir i x : ℕ) (xs : List ℕ) (s : IsSpace mem pgdir (x ∷ xs))
    (lt_i : i < 1024) (away : present (dir mem pgdir i) ≡ false) (pos : 0 < x) (low : x < 2 ^ 32)
    (al : x % page_size ≡ 0) (new_page : Absent x xs) (g : Grown mem mem' pgdir i x) where
  -- A word of another page than `x` is as before, but for the directory's new entry.
  kept :
      (p j : ℕ)
      → p % page_size ≡ 0
      → j < 1024
      → p ≢ x
      → p + 4 * j ≢ pgdir + 4 * i
      → mem' (p + 4 * j) ≡ mem (p + 4 * j)
  kept p j al_p lt ne off = g.others (p + 4 * j) (ground arith) off

  grown_dir : (i' : ℕ) → i' < 1024 → i' ≢ i → dir mem' pgdir i' ≡ dir mem pgdir i'
  grown_dir i' lt ne = kept pgdir i' s.aligned lt s.dir_taken.0 (λ e. ne (omega arith))

  pub grown_present : present (dir mem' pgdir i) ≡ true
  grown_present = rw g.new (table_entry-present x low al)

  pub grown_table : table mem' pgdir i ≡ x
  grown_table = rw g.new (table_entry-addr x low al)

  -- What held of every table that was there, and holds of the new one, holds of every table.
  each_table :
      (P : ℕ → Type 0)
      → P x
      → ((i' : ℕ) → i' < 1024 → present (dir mem pgdir i') ≡ true → P (table mem pgdir i'))
      → (i' : ℕ) → i' < 1024
      → present (dir mem' pgdir i') ≡ true
      → P (table mem' pgdir i')
  each_table P at_x at_old i' lt here = elim (ℕ_discrete i' i) [
    | yes same ↦ rw (same, grown_table) at_x
    | no differ ↦ let e = grown_dir i' lt differ in rw e (at_old i' lt (rw e at here))
  ]

  old_table :
      (i' : ℕ) → i' < 1024 → i' ≢ i → present (dir mem' pgdir i') ≡ true → table mem' pgdir i' ≢ x
  old_table i' lt ne here =
      let e = grown_dir i' lt ne in rw e (s.table_taken i' lt (rw e at here)).0

  distinct_tables :
      (i1 i2 : ℕ)
      → i1 < 1024
      → i2 < 1024
      → i1 ≢ i2
      → present (dir mem' pgdir i1) ≡ true
      → present (dir mem' pgdir i2) ≡ true
      → table mem' pgdir i1 ≢ table mem' pgdir i2
  distinct_tables i1 i2 lt1 lt2 ne here1 here2 = elim (ℕ_discrete i1 i) [
    | yes same ↦
        let other : i2 ≢ i = λ e. ne (same ∙ sym e) in
        λ e. old_table i2 lt2 other here2 (sym e ∙ (rw same grown_table))
    | no differ ↦ elim (ℕ_discrete i2 i) [
      | yes same ↦ λ e. old_table i1 lt1 differ here1 (e ∙ (rw same grown_table))
      | no differ' ↦
          let e1 = grown_dir i1 lt1 differ in
          let e2 = grown_dir i2 lt2 differ' in
          rw (e1, e2) (s.distinct i1 i2 lt1 lt2 ne (rw e1 at here1) (rw e2 at here2))
    ]
  ]

  pub grown-IsSpace : IsSpace mem' pgdir xs
  grown-IsSpace = record {
    aligned = s.aligned;
    dir_taken = s.dir_taken.1;
    table_pos = each_table (λ t. 0 < t) pos s.table_pos;
    table_taken = each_table (λ t. Absent t xs) new_page (λ j lt p. (s.table_taken j lt p).1);
    no_dir = each_table (λ t. t ≢ pgdir) (λ e. s.dir_taken.0 (sym e)) s.no_dir;
    distinct = distinct_tables;
  }

  pub grown-entry : (i' j : ℕ) → i' < 1024 → j < 1024 → entry mem' pgdir i' j ≡ entry mem pgdir i' j
  grown-entry i' j lt lt_j = elim (ℕ_discrete i' i) [
    | yes same ↦
        rw (same, away, grown_present, grown_table) (rw (g.empty j lt_j) (unfold present in refl))
    | no differ ↦ elim (Bool-cases (present (dir mem pgdir i'))) [
      | inr none_there ↦ rw (grown_dir i' lt differ, none_there) refl
      | inl here ↦
          rw (grown_dir i' lt differ, here)
            (ap mapped (
              kept (table mem pgdir i') j (table_aligned mem pgdir i') lt_j
                (s.table_taken i' lt here).0
                (slots_apart (table mem pgdir i') pgdir j i (table_aligned mem pgdir i') s.aligned
                  lt_j lt_i (s.no_dir i' lt here))))
    ]
  ]

  -- The free list lies elsewhere.
  pub grown-Chain :
      (r : ℕ) (ys : List ℕ) → Absent x ys → Absent pgdir ys → Chain mem r ys → Chain mem' r ys
  grown-Chain r [] no_x no_dir c = c
  grown-Chain r (y ∷ ys) no_x no_dir (e, pos_y, al_y, new_y, c) =
      let same : mem' y ≡ mem y = g.others y (off no_x.0 al_y) (outside no_dir.0 al_y) in
      (
        e,
        pos_y,
        al_y,
        new_y,
        subst (λ n. Chain mem' n ys) (sym same) (grown-Chain (mem y) ys no_x.1 no_dir.1 c),
      )
    where
      off : x ≢ y → y % page_size ≡ 0 → (y < x) ⊎ (x + page_size ≤ y)
      off ne al_y = ground arith

      outside : pgdir ≢ y → y % page_size ≡ 0 → y ≢ pgdir + 4 * i
      outside ne al_y h = let al_dir = s.aligned in omega arith
