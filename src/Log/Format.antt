-- ===== src/Log/Format.antt =====
-- The header block of xv6A1/log.c: what `write_head` stores, `read_head` reads back.
use operating_system_design.Prelude.{
  ℕ, zero, suc, ◌+◌, ◌≤◌, ◌<◌, ◌≡◌, refl, ◌∙◌, List, arith, length, get_or, set, length-set,
  get_or-set_self, get_or-set_ne,
}
use native.Mathlib.Decide.{ℕ_discrete}
use operating_system_design.Disk.{Block, Dev}
use operating_system_design.Disk.Writes.{cache-bwrite_self}
use operating_system_design.Log.{Log, read_loop, fill_loop, read_head, write_head}

pub length-fill_loop :
    (k i : ℕ) (block : List ℕ) (hb : Block) → length (fill_loop k i block hb) ≡ length hb
unfolding fill_loop
length-fill_loop zero i block hb = refl
length-fill_loop (suc k) i block hb =
    length-fill_loop k (i + 1) block _ ∙ length-set hb (i + 1) (get_or block i 0)

-- Words at or below the place where the loop starts are left alone.
pub fill_loop_below :
    (k i : ℕ) (block : List ℕ) (hb : Block) (j : ℕ)
    → j ≤ i
    → get_or (fill_loop k i block hb) j 0 ≡ get_or hb j 0
unfolding fill_loop
fill_loop_below zero i block hb j h = refl
fill_loop_below (suc k) i block hb j h =
    fill_loop_below k (i + 1) block _ j (omega arith)
    ∙ get_or-set_ne hb (i + 1) j (get_or block i 0) 0 (omega arith)

pub fill_loop_word :
    (k i : ℕ) (block : List ℕ) (hb : Block) (j : ℕ)
    → i ≤ j
    → j < i + k
    → i + k < length hb
    → get_or (fill_loop k i block hb) (j + 1) 0 ≡ get_or block j 0
unfolding fill_loop
fill_loop_word zero i block hb j h l f = absurd (omega arith)
fill_loop_word (suc k) i block hb j h l f =
    let v = get_or block i 0 in
    elim (ℕ_discrete i j) [
      | yes e ↦ ground (
        arith,
        fill_loop_below k (i + 1) block (set hb (i + 1) v) (j + 1),
        get_or-set_self hb (i + 1) v 0,
      )
      | no ne ↦
          fill_loop_word k (i + 1) block (set hb (i + 1) v) j (omega arith) (omega arith)
            (omega (arith, length-set hb (i + 1) v))
    ]

pub length-read_loop :
    (k i : ℕ) (lh : Block) (block : List ℕ) → length (read_loop k i lh block) ≡ length block
unfolding read_loop
length-read_loop zero i lh block = refl
length-read_loop (suc k) i lh block =
    length-read_loop k (i + 1) lh _ ∙ length-set block i (get_or lh (i + 1) 0)

pub read_loop_below :
    (k i : ℕ) (lh : Block) (block : List ℕ) (j : ℕ)
    → j < i
    → get_or (read_loop k i lh block) j 0 ≡ get_or block j 0
unfolding read_loop
read_loop_below zero i lh block j h = refl
read_loop_below (suc k) i lh block j h =
    read_loop_below k (i + 1) lh _ j (omega arith)
    ∙ get_or-set_ne block i j (get_or lh (i + 1) 0) 0 (omega arith)

pub read_loop_word :
    (k i : ℕ) (lh : Block) (block : List ℕ) (j : ℕ)
    → i ≤ j
    → j < i + k
    → i + k ≤ length block
    → get_or (read_loop k i lh block) j 0 ≡ get_or lh (j + 1) 0
unfolding read_loop
read_loop_word zero i lh block j h l f = absurd (omega arith)
read_loop_word (suc k) i lh block j h l f =
    let v = get_or lh (i + 1) 0 in
    elim (ℕ_discrete i j) [
      | yes e ↦
          ground
            (arith, read_loop_below k (i + 1) lh (set block i v) j, get_or-set_self block i v 0)
      | no ne ↦
          read_loop_word k (i + 1) lh (set block i v) j (omega arith) (omega arith)
            (omega (arith, length-set block i v))
    ]

-- What `write_head` puts on the disk, `read_head` reads back on any log with the same start and an
-- array as long: `n` and the `n` block numbers, if the header block has room for them.
pub read_head-write_head :
    (lg boot : Log) (d : Dev) (i : ℕ)
    → boot.start ≡ lg.start
    → lg.n ≤ length boot.block
    → lg.n < length (d.cache lg.start)
    → i < lg.n
    → (let lg' = read_head boot (write_head lg d) in
        (lg'.n ≡ lg.n) × (get_or lg'.block i 0 ≡ get_or lg.block i 0))
unfolding read_head write_head
read_head-write_head lg boot d i start array room h =
    let hb = set (d.cache lg.start) 0 lg.n in
    let v = fill_loop lg.n 0 lg.block hb in
    let wide : length hb ≡ length (d.cache lg.start) = length-set (d.cache lg.start) 0 lg.n in
    let n' : get_or v 0 0 ≡ lg.n =
      fill_loop_below lg.n 0 lg.block hb 0 (omega arith)
      ∙ get_or-set_self (d.cache lg.start) 0 lg.n 0 (omega arith) in
    rw (start, cache-bwrite_self lg.start v d, n')
      (
        refl,
        read_loop_word lg.n 0 v boot.block i (omega arith) (omega arith) (omega arith)
            ∙ fill_loop_word lg.n 0 lg.block hb i (omega arith) (omega arith) (omega arith),
      )
