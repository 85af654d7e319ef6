-- ===== src/Buffer.antt =====
-- xv6A1/bio.c: the buffer cache, as the list of its buffers from `head.next` to `head.prev`: the
-- most recently used one comes first. The locks are left out: each function runs its critical
-- section whole.
pub mod Refs
pub mod Release
use Prim.Native.Nat.{bit_and}
use operating_system_design.Prelude.{
  ℕ, zero, suc, ◌+◌, Bool, true, false, ◌&&◌, Option, none, some, List, [], ◌∷◌, ◌==◌,
  if◌then◌else◌, add32, sub32,
}

abbrev pub b_dirty : ℕ
b_dirty = 4

-- `struct buf` without its data, its lock and its queue link. `id` stands for its address.
pub record Buf : Type 0 where
  pub id : ℕ
  pub flags : ℕ
  pub dev : ℕ
  pub blockno : ℕ
  pub refcnt : ℕ

abbrev pub nbuf : ℕ
nbuf = 30

-- The loop of `binit` behind its first `n` rounds.
unfoldable pub binit_loop : ℕ → List Buf
binit_loop zero = []
binit_loop (suc n) = record { id = n; flags = 0; dev = 0; blockno = 0; refcnt = 0 } ∷ binit_loop n

abbrev pub binit : List Buf
binit = binit_loop nbuf

abbrev pub is_block : ℕ → ℕ → Buf → Bool
is_block dev blockno b = b.dev == dev && b.blockno == blockno

-- The first loop of `bget`: the buffer that has the block.
unfoldable pub find_cached : ℕ → ℕ → List Buf → Option (ℕ × List Buf)
find_cached dev blockno [] = none
find_cached dev blockno (b ∷ bs) =
    let rest = find_cached dev blockno bs in
    if is_block dev blockno b
    then some (b.id, record b { refcnt = add32 b.refcnt 1 } ∷ bs)
    else elim rest [ none ↦ none | some (id, bs') ↦ some (id, b ∷ bs') ]

abbrev pub is_unused : Buf → Bool
is_unused b = b.refcnt == 0 && bit_and b.flags b_dirty == 0

-- The second loop, from the last buffer on: the first that is unused.
unfoldable pub recycle : ℕ → ℕ → List Buf → Option (ℕ × List Buf)
recycle dev blockno [] = none
recycle dev blockno (b ∷ bs) = elim (recycle dev blockno bs) [
  | some (id, bs') ↦ some (id, b ∷ bs')
  | none ↦
      if is_unused b
      then some (b.id, record b { dev = dev; blockno = blockno; flags = 0; refcnt = 1 } ∷ bs)
      else none
]

-- `bget`: the buffer's address. `none` is the panic.
unfoldable pub bget : ℕ → ℕ → List Buf → Option (ℕ × List Buf)
bget dev blockno bs = elim (find_cached dev blockno bs) [
  | some r ↦ some r
  | none ↦ recycle dev blockno bs
]

-- `b->refcnt--`
unfoldable pub unref : ℕ → List Buf → List Buf
unref id [] = []
unref id (b ∷ bs) =
    let rest = unref id bs in
    if b.id == id then record b { refcnt = sub32 b.refcnt 1 } ∷ bs else b ∷ rest

-- The buffer at an address, with `b` behind it where there is none.
unfoldable pub find_buf : ℕ → List Buf → Buf → Buf
find_buf id [] d = d
find_buf id (b ∷ bs) d = let rest = find_buf id bs d in if b.id == id then b else rest

-- The list without the buffer at an address.
unfoldable pub unlink : ℕ → List Buf → List Buf
unlink id [] = []
unlink id (b ∷ bs) = let rest = unlink id bs in if b.id == id then bs else b ∷ rest

abbrev pub null_buf : Buf
null_buf = record { id = 0; flags = 0; dev = 0; blockno = 0; refcnt = 0 }

-- `brelse` of the buffer at an address, which its caller has locked.
unfoldable pub brelse : ℕ → List Buf → List Buf
brelse id bs =
    let bs' = unref id bs in
    let b = find_buf id bs' null_buf in if b.refcnt == 0 then b ∷ unlink id bs' else bs'
