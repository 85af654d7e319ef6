-- ===== src/Vm/Frames.antt =====
-- The frames of user pages of xv6A1/vm.c, and what `kfree` of one of them leaves alone.
use mathlib.Core.Option.{none-ne-some}
use operating_system_design.Prelude.{
  ℕ, ◌+◌, ◌*◌, ◌/◌, ◌%◌, ◌^◌, ◌<◌, ◌≡◌, ◌≢◌, refl, sym, ap, ◌∙◌, inl, inr, true, none, some, List,
  ◌∷◌, arith, Absent, Bool-cases,
}
use operating_system_design.Kalloc.{Kmem, page_size, kern_base}
use operating_system_design.Kalloc.FreeList.{SameOutside, IsPage}
use operating_system_design.Vm.{pte_addr, p2v, present}
use operating_system_design.Vm.Space.{
  dir, table, mapped, entry, translate, IsSpace, SameDir, SameDir-IsSpace, table_aligned,
}
use operating_system_design.Vm.Walk.{IsVm}

-- The kernel's address of the frame that an entry maps.
abbrev pub frame_of : ℕ → ℕ
frame_of e = p2v (pte_addr e)

-- A page that holds neither the directory nor a table.
pub record IsData (pgdir : ℕ) (mem : ℕ → ℕ) (f : ℕ) : Type 0 where
  pub no_dir : pgdir ≢ f
  pub no_table : (i : ℕ) → i < 1024 → present (dir mem pgdir i) ≡ true → table mem pgdir i ≢ f

-- Below `KERNBASE` each page has a frame of its own, which `kfree` accepts and which is not free.
pub record Frames (kernel_end pgdir : ℕ) (k : Kmem) (xs : List ℕ) : Type 0 where
  pub page :
      (va e : ℕ) → va < kern_base → translate pgdir va k ≡ some e → IsPage kernel_end (frame_of e)
  pub taken : (va e : ℕ) → va < kern_base → translate pgdir va k ≡ some e → Absent (frame_of e) xs
  pub data_page :
      (va e : ℕ) → va < kern_base → translate pgdir va k ≡ some e → IsData pgdir k.mem (frame_of e)
  pub apart :
      (va u e e' : ℕ)
      → va < kern_base
      → u < kern_base
      → va / page_size ≢ u / page_size
      → translate pgdir va k ≡ some e
      → translate pgdir u k ≡ some e'
      → frame_of e ≢ frame_of e'

-- A memory that differs only inside a page without tables.
module _ (mem mem' : ℕ → ℕ) (pgdir f : ℕ) (xs : List ℕ) (s : IsSpace mem pgdir xs)
    (data_page : IsData pgdir mem f) (al : f % page_size ≡ 0) (same : SameOutside f mem mem') where
  outside_word :
      (p j : ℕ) → p % page_size ≡ 0 → j < 1024 → p ≢ f → mem' (p + 4 * j) ≡ mem (p + 4 * j)
  outside_word p j al_p lt ne = same (p + 4 * j) (ground arith)

  pub outside-SameDir : SameDir pgdir mem mem'
  outside-SameDir i lt = outside_word pgdir i s.aligned lt data_page.no_dir

  pub outside-entry : (i j : ℕ) → i < 1024 → j < 1024 → entry mem' pgdir i j ≡ entry mem pgdir i j
  outside-entry i j lt lt' = elim (Bool-cases (present (dir mem pgdir i))) [
    | inr away ↦ rw (outside-SameDir i lt, away) refl
    | inl here ↦
        rw (outside-SameDir i lt, here)
          (ap mapped (
            outside_word (table mem pgdir i) j (table_aligned mem pgdir i) lt'
              (data_page.no_table i lt here)))
  ]

  -- And the page may be free.
  pub freed-IsSpace : IsSpace mem' pgdir (f ∷ xs)
  freed-IsSpace =
      let t = SameDir-IsSpace mem mem' pgdir xs outside-SameDir s in
      record {
        aligned = t.aligned;
        dir_taken = (data_page.no_dir, t.dir_taken);
        table_pos = t.table_pos;
        table_taken = λ i lt p. (
          rw (outside-SameDir i lt) (data_page.no_table i lt (rw (outside-SameDir i lt) at p)),
          t.table_taken i lt p,
        );
        no_dir = t.no_dir;
        distinct = t.distinct;
      }

-- What freeing the frame of page `a` and clearing its entry comes to.
pub record Unmapped (kernel_end pgdir a : ℕ) (k k' : Kmem) (xs ys : List ℕ) : Type 0 where
  pub vm : IsVm pgdir k' ys
  pub frames : Frames kernel_end pgdir k' ys
  pub dirs : SameDir pgdir k.mem k'.mem
  pub gone : translate pgdir a k' ≡ none
  pub others :
      (va : ℕ)
      → va < 2 ^ 32
      → va / page_size ≢ a / page_size
      → translate pgdir va k' ≡ translate pgdir va k

-- The frames that are left.
pub left-Frames :
    (kernel_end pgdir a e : ℕ) (k k' : Kmem) (xs : List ℕ)
    → a < kern_base
    → translate pgdir a k ≡ some e
    → Frames kernel_end pgdir k xs
    → SameDir pgdir k.mem k'.mem
    → ((va : ℕ) → va / page_size ≡ a / page_size → translate pgdir va k' ≡ none)
    → ((va : ℕ)
        → va < 2 ^ 32
        → va / page_size ≢ a / page_size
        → translate pgdir va k' ≡ translate pgdir va k)
    → Frames kernel_end pgdir k' (frame_of e ∷ xs)
left-Frames kernel_end pgdir a e k k' xs low at_a fr same gone others = record {
  page = λ va w lt t. fr.page va w lt (before va w lt t);
  taken = λ va w lt t. (
    fr.apart va a w e lt low (elsewhere va w t) (before va w lt t) at_a,
    fr.taken va w lt (before va w lt t),
  );
  data_page = λ va w lt t.
      let d = fr.data_page va w lt (before va w lt t) in
      record {
        no_dir = d.no_dir;
        no_table = λ i lt_i p. rw (same i lt_i) (d.no_table i lt_i (rw (same i lt_i) at p));
      };
  apart = λ va u w w' lt lt' ne t t'.
      fr.apart va u w w' lt lt' ne (before va w lt t) (before u w' lt' t');
}
  where
    elsewhere : (va w : ℕ) → translate pgdir va k' ≡ some w → va / page_size ≢ a / page_size
    elsewhere va w t same_page = none-ne-some w (sym (gone va same_page) ∙ t)

    before :
        (va w : ℕ) → va < kern_base → translate pgdir va k' ≡ some w → translate pgdir va k ≡ some w
    before va w lt t = sym (others va (omega arith) (elsewhere va w t)) ∙ t
