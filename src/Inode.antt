-- ===== src/Inode.antt =====
-- xv6A1/fs.c: inodes and their content. An inode of the cache is a record, and `none` is a panic.
pub mod Content
pub mod Splice
pub mod Overwrite
use operating_system_design.Prelude.{
  ℕ, zero, suc, ◌+◌, ◌-◌, ◌*◌, ◌/◌, ◌%◌, ◌^◌, Bool, true, false, not, ◌&&◌, ◌||◌, List, [], ◌∷◌,
  ◌++◌, Option, none, some, length, get_or, set, take, drop, ltb, leb, ◌==◌, if◌then◌else◌, add32,
  is_neg, get32, bytes32, words,
}
use operating_system_design.Disk.{update}
use operating_system_design.Fs.{SuperBlock, Store, bsize, write_block, balloc}

abbrev pub ndirect : ℕ
ndirect = 12

abbrev pub nindirect : ℕ
nindirect = 128

abbrev pub maxfile : ℕ
maxfile = ndirect + nindirect

abbrev pub ndev : ℕ
ndev = 10

-- `T_DEV`
abbrev pub t_dev : ℕ
t_dev = 3

-- `struct inode` without its lock. The `short`s are bit patterns of 16 bits.
pub record Inode : Type 0 where
  pub dev : ℕ
  pub inum : ℕ
  pub ref : ℕ
  pub valid : Bool
  pub type : ℕ
  pub major : ℕ
  pub minor : ℕ
  pub nlink : ℕ
  pub size : ℕ
  pub addrs : List ℕ

-- A list of bytes written into a block from offset `o` on.
abbrev pub splice : List ℕ → ℕ → (ℕ → ℕ) → ℕ → ℕ
splice xs o bytes i = if leb o i && ltb i (o + length xs) then get_or xs (i - o) 0 else bytes i

abbrev pub bytes16 : ℕ → List ℕ
bytes16 v = v % 256 ∷ (v / 2 ^ 8 % 256 ∷ [])

abbrev pub put32 : ℕ → ℕ → (ℕ → ℕ) → ℕ → ℕ
put32 o v = splice (bytes32 v) o

-- `bmap` where it finds or makes the address in `addrs[i]`.
unfoldable pub map_slot : SuperBlock → ℕ → Inode → Store → Option (ℕ × Inode × Store)
map_slot sb i ip s =
    let addr = get_or ip.addrs i 0 in
    if addr == 0
    then elim (balloc sb s) [
      | none ↦ none
      | some (a, s') ↦ some (a, record ip { addrs = set ip.addrs i a }, s')
    ]
    else some (addr, ip, s)

-- `bmap` for entry `bn` of the indirect block at `addr`.
unfoldable pub map_entry : SuperBlock → ℕ → ℕ → Inode → Store → Option (ℕ × Inode × Store)
map_entry sb bn addr ip s =
    let a = get32 (s.blocks addr) (4 * bn) in
    if a == 0
    then elim (balloc sb s) [
      | none ↦ none
      | some (a', s') ↦ some (a', ip, write_block addr (put32 (4 * bn) a' (s'.blocks addr)) s')
    ]
    else some (a, ip, s)

unfoldable pub bmap : SuperBlock → ℕ → Inode → Store → Option (ℕ × Inode × Store)
bmap sb bn ip s =
    if ltb bn ndirect
    then map_slot sb bn ip s
    else if ltb (bn - ndirect) nindirect
    then elim (map_slot sb ndirect ip s) [
      | none ↦ none
      | some (addr, ip', s') ↦ map_entry sb (bn - ndirect) addr ip' s'
    ]
    else none

-- `m` bytes of a block from offset `o` on.
unfoldable pub slice : ℕ → ℕ → (ℕ → ℕ) → List ℕ
slice zero o bytes = []
slice (suc m) o bytes = bytes o ∷ slice m (o + 1) bytes

-- `min(n - tot, BSIZE - off%BSIZE)`, for the bytes left.
abbrev pub chunk : ℕ → ℕ → ℕ
chunk off n = if ltb n (bsize - off % bsize) then n else bsize - off % bsize

-- The loop of `readi` for the `n` bytes left, with at most `fuel` rounds.
unfoldable pub read_loop : ℕ → SuperBlock → ℕ → ℕ → Inode → Store → Option (List ℕ × Inode × Store)
read_loop zero sb off n ip s = none
read_loop (suc fuel) sb off n ip s =
    if n == 0 then some ([], ip, s) else elim (bmap sb (off / bsize) ip s) [
      | none ↦ none
      | some (addr, ip', s') ↦
          let m = chunk off n in
          elim (read_loop fuel sb (off + m) (n - m) ip' s') [
            | none ↦ none
            | some (xs, ip'', s'') ↦ some (slice m (off % bsize) (s'.blocks addr) ++ xs, ip'', s'')
          ]
    ]

-- How `readi` ends: it returns -1, it calls the device's function, it has copied bytes, or it
-- panics.
pub data Read : Type 0 where
  failed : Read
  device : ℕ → Read
  copied : List ℕ → Inode → Store → Read
  panics : Read

unfoldable pub read_result : Option (List ℕ × Inode × Store) → Read
read_result none = panics
read_result (some (xs, ip, s)) = copied xs ip s

-- A major number is no `int` below 0 and has a function in `devsw`.
abbrev pub has_device : (ℕ → Bool) → ℕ → Bool
has_device devsw major = ltb major (2 ^ 15) && ltb major ndev && devsw major

-- `readi`, for the entries of `devsw` with a `read` function.
unfoldable pub readi : (ℕ → Bool) → SuperBlock → ℕ → ℕ → Inode → Store → Read
readi devsw sb off n ip s =
    if ip.type == t_dev
    then (if has_device devsw ip.major then device ip.major else failed)
    else if ltb ip.size off || ltb (add32 off n) off
    then failed
    else let n' = if ltb ip.size (add32 off n) then ip.size - off else n in
      read_result (read_loop (suc n') sb off n' ip s)

-- The loop of `writei` for the bytes left.
unfoldable pub write_loop : ℕ → SuperBlock → ℕ → List ℕ → Inode → Store → Option (Inode × Store)
write_loop zero sb off src ip s = none
write_loop (suc fuel) sb off src ip s =
    if length src == 0 then some (ip, s) else elim (bmap sb (off / bsize) ip s) [
      | none ↦ none
      | some (addr, ip', s') ↦
          let m = chunk off (length src) in
          write_loop fuel sb (off + m) (drop m src) ip'
            (write_block addr (splice (take m src) (off % bsize) (s'.blocks addr)) s')
    ]

-- Inodes per block, and the block of an inode.
abbrev pub ipb : ℕ
ipb = 8

abbrev pub iblock : ℕ → SuperBlock → ℕ
iblock i sb = i / ipb + sb.inodestart

-- The bytes of `struct dinode`.
unfoldable pub dinode_bytes : Inode → List ℕ
dinode_bytes ip =
    bytes16 ip.type
    ++ (bytes16 ip.major
        ++ (bytes16 ip.minor ++ (bytes16 ip.nlink ++ (bytes32 ip.size ++ words ip.addrs))))

unfoldable pub iupdate : SuperBlock → Inode → Store → Store
iupdate sb ip s =
    let b = iblock ip.inum sb in
    write_block b (splice (dinode_bytes ip) (ip.inum % ipb * 64) (s.blocks b)) s

-- How `writei` ends.
pub data Write : Type 0 where
  failed : Write
  device : ℕ → Write
  written : Inode → Store → Write
  panics : Write

-- `writei` behind its loop, for the offset that it has come to.
unfoldable pub grow : SuperBlock → ℕ → ℕ → Option (Inode × Store) → Write
grow sb off n none = panics
grow sb off n (some (ip, s)) =
    if not (n == 0) && ltb ip.size off
    then (let ip' = record ip { size = off } in written ip' (iupdate sb ip' s))
    else written ip s

-- `writei` of the bytes `src`, for the entries of `devsw` with a `write` function.
unfoldable pub writei : (ℕ → Bool) → SuperBlock → ℕ → List ℕ → Inode → Store → Write
writei devsw sb off src ip s =
    let n = length src in
    if ip.type == t_dev
    then (if has_device devsw ip.major then device ip.major else failed)
    else if ltb ip.size off || ltb (add32 off n) off
    then failed
    else if ltb (maxfile * bsize) (add32 off n)
    then failed
    else grow sb (off + n) n (write_loop (suc n) sb off src ip s)
