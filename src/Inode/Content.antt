-- ===== src/Inode/Content.antt =====
-- The bytes of a file that xv6A1/fs.c reads and writes through `bmap`.
use operating_system_design.Prelude.{
  get32, ℕ, zero, suc, ◌+◌, ◌-◌, ◌*◌, ◌/◌, ◌%◌, ◌^◌, ◌<◌, ◌≤◌, ◌≡◌, ◌≢◌, refl, sym, ap, ◌∙◌, Bool,
  List, [], ◌∷◌, ◌++◌, some, length, get_or, ltb, if◌then◌else◌, arith, Bool-cases, inl, inr, ne→==,
  lt→ltb, le→ltb, ltb→le, add32,
}
use operating_system_design.Fs.{SuperBlock, Store, bsize}
use operating_system_design.Inode.{
  ndirect, nindirect, maxfile, t_dev, Inode, map_slot, map_entry, bmap, slice, chunk, read_loop,
  copied, read_result, readi,
}

-- The address of block `bn` of a file, 0 where it has none.
abbrev pub addr_of : Inode → Store → ℕ → ℕ
addr_of ip s bn =
    if ltb bn ndirect
    then get_or ip.addrs bn 0
    else get32 (s.blocks (get_or ip.addrs ndirect 0)) (4 * (bn - ndirect))

-- The byte of a file at an offset.
abbrev pub byte_at : Inode → Store → ℕ → ℕ
byte_at ip s o = s.blocks (addr_of ip s (o / bsize)) (o % bsize)

-- The `n` bytes from offset `off` on.
unfoldable pub content : Inode → Store → ℕ → ℕ → List ℕ
content ip s off zero = []
content ip s off (suc n) = byte_at ip s off ∷ content ip s (off + 1) n

pub record Mapped (ip : Inode) (s : Store) (bn : ℕ) : Type 0 where
  pub small : bn < maxfile
  pub found : addr_of ip s bn ≢ 0
  pub indirect : ndirect ≤ bn → get_or ip.addrs ndirect 0 ≢ 0

-- Every block below the file's size has an address of its own, apart from the indirect block.
pub record HasBlocks (ip : Inode) (s : Store) : Type 0 where
  pub mapped : (bn : ℕ) → bn * bsize < ip.size → Mapped ip s bn
  pub distinct :
      (b c : ℕ)
      → b * bsize < ip.size
      → c * bsize < ip.size
      → addr_of ip s b ≡ addr_of ip s c
      → b ≡ c
  pub apart : (bn : ℕ) → bn * bsize < ip.size → addr_of ip s bn ≢ get_or ip.addrs ndirect 0

pub bmap-Mapped :
    (sb : SuperBlock) (bn : ℕ) (ip : Inode) (s : Store)
    → Mapped ip s bn
    → bmap sb bn ip s ≡ some (addr_of ip s bn, ip, s)
unfolding bmap map_slot map_entry
bmap-Mapped sb bn ip s m = elim (Bool-cases (ltb bn ndirect)) [
  | inl direct ↦
      let found : get_or ip.addrs bn 0 ≢ 0 = (λ e. m.found (rw direct e)) in
      rw (direct, ne→== _ _ found) refl
  | inr other ↦
      let found : get32 (s.blocks (get_or ip.addrs ndirect 0)) (4 * (bn - ndirect)) ≢ 0 =
        (λ e. m.found (rw other e)) in
      rw
        (
          other,
          lt→ltb (bn - ndirect) nindirect (omega (arith, m.small, ltb→le _ _ other)),
          ne→== _ _ (m.indirect (ltb→le _ _ other)),
          ne→== _ _ found,
        )
        refl
]

pub length-content : (ip : Inode) (s : Store) (off n : ℕ) → length (content ip s off n) ≡ n
unfolding content
length-content ip s off zero = refl
length-content ip s off (suc n) = ap suc (length-content ip s (off + 1) n)

content-append :
    (ip : Inode) (s : Store) (m n off : ℕ)
    → content ip s off m ++ content ip s (off + m) n ≡ content ip s off (m + n)
unfolding content
content-append ip s zero n off =
    let e : off + 0 ≡ off = omega arith in let z : 0 + n ≡ n = omega arith in rw (e, z) refl
content-append ip s (suc m) n off =
    let e : (off + 1) + m ≡ off + suc m = omega arith in
    let z : suc m + n ≡ suc (m + n) = omega arith in
    rw z (
      ap (◌∷◌ (byte_at ip s off)) (
        ap (λ o. content ip s (off + 1) m ++ content ip s o n) (sym e)
        ∙ content-append ip s m n (off + 1)))

-- Bytes of one block are bytes of the file.
slice-content :
    (ip : Inode) (s : Store) (m off b i : ℕ)
    → off / bsize ≡ b
    → off % bsize ≡ i
    → i + m ≤ bsize
    → slice m i (s.blocks (addr_of ip s b)) ≡ content ip s off m
unfolding slice content
slice-content ip s zero off b i q r fit = refl
slice-content ip s (suc zero) off b i q r fit = rw (← q, ← r) refl
slice-content ip s (suc (suc m)) off b i q r fit =
    rw (← slice-content ip s (suc m) (off + 1) b (i + 1) (omega arith) (omega arith) (omega arith))
      (rw (← q, ← r) refl)

pub read_loop-content :
    (fuel : ℕ) (sb : SuperBlock) (off n : ℕ) (ip : Inode) (s : Store)
    → n < fuel
    → off + n ≤ ip.size
    → HasBlocks ip s
    → read_loop fuel sb off n ip s ≡ some (content ip s off n, ip, s)
unfolding read_loop content
read_loop-content zero sb off n ip s enough fit h = absurd (omega arith)
read_loop-content (suc fuel) sb off zero ip s enough fit h = refl
read_loop-content (suc fuel) sb off (suc n) ip s enough fit h =
    let m = chunk off (suc n) in
    let pos : 1 ≤ m = ground arith in
    let most : m ≤ suc n = ground arith in
    let row : off % bsize + m ≤ bsize = ground arith in
    let all : m + (suc n - m) ≡ suc n = omega (arith, most) in
    rw
      (
        ne→== (suc n) 0 (omega arith),
        bmap-Mapped sb (off / bsize) ip s (h.mapped (off / bsize) (omega arith)),
      )
      (rw (read_loop-content fuel sb (off + m) (suc n - m) ip s (omega arith) (omega arith) h) (
        ap (λ xs. some (xs, ip, s))
          (ap (λ xs. xs ++ content ip s (off + m) (suc n - m))
              (slice-content ip s m off (off / bsize) (off % bsize) refl refl row)
            ∙ content-append ip s m (suc n - m) off
            ∙ ap (content ip s off) all)))

-- `readi` of a file with an address of its own for every block below the size returns the bytes
-- from the offset on, as many as asked for or as there are up to the size, and changes nothing:
-- for a file that is no device, an offset that is at most the size, and an end of the range below
-- 2 ^ 32.
pub readi-content :
    (devsw : ℕ → Bool) (sb : SuperBlock) (off n : ℕ) (ip : Inode) (s : Store)
    → ip.type ≢ t_dev
    → off ≤ ip.size
    → off + n < 2 ^ 32
    → HasBlocks ip s
    → readi devsw sb off n ip s
      ≡ copied (content ip s off (if ltb ip.size (off + n) then ip.size - off else n)) ip s
unfolding readi read_result
readi-content devsw sb off n ip s file inside fits h =
    let sum : add32 off n ≡ off + n = omega (arith, fits) in
    let short : off + (if ltb ip.size (off + n) then ip.size - off else n) ≤ ip.size =
      ground arith in
    rw (ne→== _ _ file, le→ltb ip.size off inside, sum, le→ltb (off + n) off (omega arith))
      (rw
        (read_loop-content (suc (if ltb ip.size (off + n) then ip.size - off else n)) sb off
          (if ltb ip.size (off + n) then ip.size - off else n) ip s (omega arith) short h)
        refl)
