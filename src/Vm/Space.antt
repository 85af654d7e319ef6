-- ===== src/Vm/Space.antt =====
-- The mappings of a page directory of xv6A1/vm.c, and what a write to one of its tables does.
use native.Mathlib.Decide.{ℕ_discrete}
use operating_system_design.Prelude.{
  ℕ, ◌+◌, ◌*◌, ◌%◌, ◌<◌, ◌≡◌, ◌≢◌, refl, sym, ap, ◌⊎◌, inl, inr, true, Option, none, some, List,
  arith, Absent, eq→==, ne→==, if◌then◌else◌, Bool-cases,
}
use operating_system_design.Kalloc.{Kmem, page_size}
use operating_system_design.Kalloc.FreeList.{Chain, Chain-frame, SameOutside}
use operating_system_design.Vm.{pdx, ptx, pte_addr, p2v, present, set_word}

-- The page table behind directory entry `i`, and whether there is one.
abbrev pub dir : (ℕ → ℕ) → ℕ → ℕ → ℕ
dir mem pgdir i = mem (pgdir + 4 * i)

abbrev pub table : (ℕ → ℕ) → ℕ → ℕ → ℕ
table mem pgdir i = p2v (pte_addr (dir mem pgdir i))

-- The entry of page `j` of table `i`, if it is mapped.
abbrev pub mapped : ℕ → Option ℕ
mapped e = if present e then some e else none

abbrev pub entry : (ℕ → ℕ) → ℕ → ℕ → ℕ → Option ℕ
entry mem pgdir i j =
    if present (dir mem pgdir i) then mapped (mem (table mem pgdir i + 4 * j)) else none

-- The processor's translation of a virtual address: the page table entry that it uses.
abbrev pub translate : ℕ → ℕ → Kmem → Option ℕ
translate pgdir va k = entry k.mem pgdir (pdx va) (ptx va)

-- The directory and its tables are distinct pages, and none of them is on the free list `xs`.
pub record IsSpace (mem : ℕ → ℕ) (pgdir : ℕ) (xs : List ℕ) : Type 0 where
  pub aligned : pgdir % page_size ≡ 0
  pub dir_taken : Absent pgdir xs
  pub table_pos : (i : ℕ) → i < 1024 → present (dir mem pgdir i) ≡ true → 0 < table mem pgdir i
  pub table_taken :
      (i : ℕ) → i < 1024 → present (dir mem pgdir i) ≡ true → Absent (table mem pgdir i) xs
  pub no_dir : (i : ℕ) → i < 1024 → present (dir mem pgdir i) ≡ true → table mem pgdir i ≢ pgdir
  pub distinct :
      (i j : ℕ)
      → i < 1024
      → j < 1024
      → i ≢ j
      → present (dir mem pgdir i) ≡ true
      → present (dir mem pgdir j) ≡ true
      → table mem pgdir i ≢ table mem pgdir j

-- `mem'` is `mem` with another word at `a`.
abbrev pub Overwritten : ℕ → ℕ → (ℕ → ℕ) → (ℕ → ℕ) → Type 0
Overwritten a w mem mem' = (mem' a ≡ w) × ((b : ℕ) → b ≢ a → mem' b ≡ mem b)

pub set_word-Overwritten : (a w : ℕ) (k : Kmem) → Overwritten a w k.mem (set_word a w k).mem
unfolding set_word
set_word-Overwritten a w k = (rw (eq→== a a refl) refl, λ b ne. rw (ne→== b a ne) refl)

pub table_aligned : (mem : ℕ → ℕ) (pgdir i : ℕ) → table mem pgdir i % page_size ≡ 0
table_aligned mem pgdir i = omega arith

-- Words of different pages have different addresses.
pub slots_apart :
    (p q i j : ℕ)
    → p % page_size ≡ 0
    → q % page_size ≡ 0
    → i < 1024
    → j < 1024
    → p ≢ q
    → p + 4 * i ≢ q + 4 * j
slots_apart p q i j a b lt lt' ne e = ground arith

-- Two memories with the same directory.
abbrev pub SameDir : ℕ → (ℕ → ℕ) → (ℕ → ℕ) → Type 0
SameDir pgdir mem mem' = (i : ℕ) → i < 1024 → dir mem' pgdir i ≡ dir mem pgdir i

pub SameDir-IsSpace :
    (mem mem' : ℕ → ℕ) (pgdir : ℕ) (xs : List ℕ)
    → SameDir pgdir mem mem'
    → IsSpace mem pgdir xs
    → IsSpace mem' pgdir xs
SameDir-IsSpace mem mem' pgdir xs same s = record {
  aligned = s.aligned;
  dir_taken = s.dir_taken;
  table_pos = λ i lt p. rw (same i lt) (s.table_pos i lt (rw (same i lt) at p));
  table_taken = λ i lt p. rw (same i lt) (s.table_taken i lt (rw (same i lt) at p));
  no_dir = λ i lt p. rw (same i lt) (s.no_dir i lt (rw (same i lt) at p));
  distinct = λ i j lt lt' ne p q.
      rw (same i lt, same j lt')
        (s.distinct i j lt lt' ne (rw (same i lt) at p) (rw (same j lt') at q));
}

module _ (mem mem' : ℕ → ℕ) (pgdir : ℕ) (xs : List ℕ) (i j w : ℕ) (s : IsSpace mem pgdir xs)
    (lt_i : i < 1024) (lt_j : j < 1024) (there : present (dir mem pgdir i) ≡ true)
    (written : Overwritten (table mem pgdir i + 4 * j) w mem mem') where
  -- A word of a table is no word of the directory.
  pub written-SameDir : SameDir pgdir mem mem'
  written-SameDir i' lt = written.1 (pgdir + 4 * i') (
      slots_apart pgdir (table mem pgdir i) i' j s.aligned (table_aligned mem pgdir i) lt lt_j
        (λ q. s.no_dir i lt_i there (sym q)))

  pub written-IsSpace : IsSpace mem' pgdir xs
  written-IsSpace = SameDir-IsSpace mem mem' pgdir xs written-SameDir s

  -- The written entry.
  pub entry-written : entry mem' pgdir i j ≡ mapped w
  entry-written = rw (written-SameDir i lt_i, there, written.0) refl

  -- Every other entry.
  pub entry-written_other :
      (i' j' : ℕ)
      → i' < 1024
      → j' < 1024
      → (i' ≢ i) ⊎ (j' ≢ j)
      → entry mem' pgdir i' j' ≡ entry mem pgdir i' j'
  entry-written_other i' j' lt lt' other = elim (Bool-cases (present (dir mem pgdir i'))) [
    | inr away ↦ rw (written-SameDir i' lt, away) refl
    | inl here ↦ rw (written-SameDir i' lt, here) (ap mapped (written.1 _ (apart here other)))
  ]
    where
      apart :
          present (dir mem pgdir i') ≡ true
          → (i' ≢ i) ⊎ (j' ≢ j)
          → table mem pgdir i' + 4 * j' ≢ table mem pgdir i + 4 * j
      apart here (inl ne) e =
          slots_apart (table mem pgdir i') (table mem pgdir i) j' j (table_aligned mem pgdir i')
            (table_aligned mem pgdir i) lt' lt_j (s.distinct i' i lt lt_i ne here there) e
      apart here (inr ne) e = elim (ℕ_discrete i' i) [
        | yes same ↦ ne (let z = rw same at e in omega arith)
        | no differ ↦
            slots_apart (table mem pgdir i') (table mem pgdir i) j' j (table_aligned mem pgdir i')
              (table_aligned mem pgdir i) lt' lt_j (s.distinct i' i lt lt_i differ here there) e
      ]

  -- The free list does not see it.
  pub written-Chain : (r : ℕ) → Chain mem r xs → Chain mem' r xs
  written-Chain r c =
      Chain-frame mem mem' (table mem pgdir i) r xs (table_aligned mem pgdir i) outside
        (s.table_taken i lt_i there) c
    where
      outside : SameOutside (table mem pgdir i) mem mem'
      outside a off = written.1 a (λ e. ground arith)
