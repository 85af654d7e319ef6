-- ===== src/Fs.antt =====
-- xv6A1/fs.c: the blocks of the file system, as bytes, under the log. The functions take the blocks
-- and return them; `logged` keeps the block numbers that `log_write` was called with.
pub mod Bitmap
pub mod Bits
pub mod Release
use Prim.Native.Nat.{bit_and, bit_or}
use operating_system_design.Prelude.{
  ℕ, zero, suc, ◌+◌, ◌-◌, ◌*◌, ◌/◌, ◌%◌, ◌^◌, Bool, true, false, ◌&&◌, List, [], ◌∷◌, Option, none,
  some, ltb, ◌==◌, if◌then◌else◌, get32,
}
use operating_system_design.Disk.{update}

abbrev pub bsize : ℕ
bsize = 512

-- `BPB`
abbrev pub bits_per_block : ℕ
bits_per_block = bsize * 8

-- `struct superblock`
pub record SuperBlock : Type 0 where
  pub size : ℕ
  pub nblocks : ℕ
  pub ninodes : ℕ
  pub nlog : ℕ
  pub logstart : ℕ
  pub inodestart : ℕ
  pub bmapstart : ℕ

-- The contents of every block, and the blocks logged, the last one first.
pub record Store : Type 0 where
  pub blocks : ℕ → ℕ → ℕ
  pub logged : List ℕ

-- A modified buffer of block `b`, given to `log_write`.
abbrev pub write_block : ℕ → (ℕ → ℕ) → Store → Store
write_block b bytes s = record { blocks = update s.blocks b bytes; logged = b ∷ s.logged }

-- `BBLOCK`
abbrev pub bblock : ℕ → SuperBlock → ℕ
bblock b sb = b / bits_per_block + sb.bmapstart

-- The byte of the bitmap block with bit `bi`, and the mask `m`.
abbrev pub bit_is_set : (ℕ → ℕ) → ℕ → Bool
bit_is_set bytes bi = if bit_and (bytes (bi / 8)) (2 ^ (bi % 8)) == 0 then false else true

abbrev pub set_bit : (ℕ → ℕ) → ℕ → ℕ → ℕ
set_bit bytes bi = update bytes (bi / 8) (bit_or (bytes (bi / 8)) (2 ^ (bi % 8)))

-- `&= ~m` on a byte
abbrev pub clear_bit : (ℕ → ℕ) → ℕ → ℕ → ℕ
clear_bit bytes bi = update bytes (bi / 8) (bit_and (bytes (bi / 8)) (255 - 2 ^ (bi % 8)))

unfoldable pub bzero : ℕ → Store → Store
bzero bno s = write_block bno (λ i. 0) s

-- The inner loop of `balloc`, with the rounds left: the first free bit from `bi` on below
-- `sb.size`.
unfoldable pub find_bit : ℕ → ℕ → ℕ → ℕ → (ℕ → ℕ) → Option ℕ
find_bit zero b bi size bytes = none
find_bit (suc k) b bi size bytes =
    let rest = find_bit k b (bi + 1) size bytes in
    if ltb (b + bi) size then (if bit_is_set bytes bi then rest else some bi) else none

-- What `balloc` does with a free bit.
unfoldable pub take_bit : SuperBlock → ℕ → ℕ → Store → ℕ × Store
take_bit sb b bi s =
    let bno = bblock b sb in
    (b + bi, bzero (b + bi) (write_block bno (set_bit (s.blocks bno) bi) s))

-- The outer loop of `balloc`, with the rounds left: `none` is the panic.
unfoldable pub balloc_loop : ℕ → SuperBlock → ℕ → Store → Option (ℕ × Store)
balloc_loop zero sb b s = none
balloc_loop (suc k) sb b s =
    let rest = balloc_loop k sb (b + bits_per_block) s in
    if ltb b sb.size
    then elim (find_bit bits_per_block b 0 sb.size (s.blocks (bblock b sb))) [
      | none ↦ rest
      | some bi ↦ some (take_bit sb b bi s)
    ]
    else none

-- `balloc`, with a round for each bitmap block.
unfoldable pub balloc : SuperBlock → Store → Option (ℕ × Store)
balloc sb s = balloc_loop (sb.size / bits_per_block + 1) sb 0 s

-- `readsb`: the superblock is in block 1.
abbrev pub readsb : Store → SuperBlock
readsb s =
    let bytes = s.blocks 1 in
    record {
      size = get32 bytes 0;
      nblocks = get32 bytes 4;
      ninodes = get32 bytes 8;
      nlog = get32 bytes 12;
      logstart = get32 bytes 16;
      inodestart = get32 bytes 20;
      bmapstart = get32 bytes 24;
    }

-- `bfree` once it has the superblock: `none` is the panic.
unfoldable pub free_bit : SuperBlock → ℕ → Store → Option Store
free_bit sb b s =
    let bno = bblock b sb in
    let bi = b % bits_per_block in
    if bit_is_set (s.blocks bno) bi
    then some (write_block bno (clear_bit (s.blocks bno) bi) s)
    else none

unfoldable pub bfree : ℕ → Store → Option Store
bfree b s = free_bit (readsb s) b s
