-- ===== src/Icache/Load.antt =====
-- `iupdate` of xv6A1/fs.c against what `ilock` reads.
use native.Mathlib.Decide.{ℕ_discrete}
use operating_system_design.Prelude.{
  ℕ, suc, ◌+◌, ◌*◌, ◌/◌, ◌%◌, ◌^◌, ◌<◌, ◌≡◌, ◌≢◌, refl, sym, ap, ◌∙◌, true, List, arith, eq→==,
  ne→==, ==-refl, length, get_or, get32, get_words, AreWords, word, get_words-words, length-words,
  get_words_ext,
}
use operating_system_design.Fs.{SuperBlock, Store}
use operating_system_design.Inode.{Inode, ndirect, dinode_bytes, ipb, iblock, iupdate}
use operating_system_design.Inode.Splice.{splice_in, splice_out}
use operating_system_design.Icache.{get16, load}

-- The fields have the sizes that they have in the code.
pub record Sized (ip : Inode) : Type 0 where
  pub type : ip.type < 2 ^ 16
  pub major : ip.major < 2 ^ 16
  pub minor : ip.minor < 2 ^ 16
  pub nlink : ip.nlink < 2 ^ 16
  pub size : ip.size < 2 ^ 32
  pub entries : length ip.addrs ≡ ndirect + 1
  pub addrs : AreWords ip.addrs

half : (v : ℕ) → v < 2 ^ 16 → v % 256 + 2 ^ 8 * (v / 2 ^ 8 % 256) ≡ v
half v h = omega (arith, h)

length-dinode_bytes : (ip : Inode) → Sized ip → length (dinode_bytes ip) ≡ 64
unfolding dinode_bytes
length-dinode_bytes ip h = omega (arith, length-words ip.addrs, h.entries)

-- The byte at place `i` of the inode's part of the block.
read_back :
    (sb : SuperBlock) (ip : Inode) (s : Store) (i : ℕ)
    → Sized ip
    → i < 64
    → (iupdate sb ip s).blocks (iblock ip.inum sb) (ip.inum % ipb * 64 + i)
      ≡ get_or (dinode_bytes ip) i 0
unfolding iupdate
read_back sb ip s i h lt = rw (==-refl (iblock ip.inum sb)) (
    splice_in (dinode_bytes ip) (ip.inum % ipb * 64) (s.blocks (iblock ip.inum sb))
      (ip.inum % ipb * 64 + i) (omega arith) (omega (arith, length-dinode_bytes ip h))
    ∙ ap (λ k. get_or (dinode_bytes ip) k 0) (omega arith))

-- What `ilock` reads of an inode that `iupdate` has written.
abbrev pub reloaded : Inode → Inode → Inode
reloaded ip jp = record jp {
  type = ip.type;
  major = ip.major;
  minor = ip.minor;
  nlink = ip.nlink;
  size = ip.size;
  addrs = ip.addrs;
  valid = true;
}

-- Fields read from where the list `l` of bytes stands.
module _ (bytes : ℕ → ℕ) (o : ℕ) (l : List ℕ)
    (byte : (i : ℕ) → i < 64 → bytes (o + i) ≡ get_or l i 0) where
  get16_at :
      (v j : ℕ)
      → j + 1 < 64
      → get_or l j 0 ≡ v % 256
      → get_or l (j + 1) 0 ≡ v / 2 ^ 8 % 256
      → v < 2 ^ 16
      → get16 bytes (o + j) ≡ v
  get16_at v j lt b0 b1 small =
      let c0 : bytes (o + j) ≡ v % 256 = byte j (omega arith) ∙ b0 in
      let e : o + j + 1 ≡ o + (j + 1) = omega arith in
      let c1 : bytes (o + j + 1) ≡ v / 2 ^ 8 % 256 = ap bytes e ∙ byte (j + 1) lt ∙ b1 in
      rw (c0, c1) (half v small)

  get32_at :
      (v j : ℕ)
      → j + 3 < 64
      → get_or l j 0 ≡ v % 256
      → get_or l (j + 1) 0 ≡ v / 2 ^ 8 % 256
      → get_or l (j + 2) 0 ≡ v / 2 ^ 16 % 256
      → get_or l (j + 3) 0 ≡ v / 2 ^ 24 % 256
      → v < 2 ^ 32
      → get32 bytes (o + j) ≡ v
  get32_at v j lt b0 b1 b2 b3 small =
      let at : (k : ℕ) → j + k < 64 → bytes (o + j + k) ≡ get_or l (j + k) 0 =
        (λ k l'. let e : o + j + k ≡ o + (j + k) = omega arith in ap bytes e ∙ byte (j + k) l') in
      rw
        (
          byte j (omega arith) ∙ b0,
          at 1 (omega arith) ∙ b1,
          at 2 (omega arith) ∙ b2,
          at 3 (omega arith) ∙ b3,
        )
        (word v small)

load-iupdate_same :
    (sb : SuperBlock) (ip jp : Inode) (s : Store)
    → Sized ip
    → jp.inum ≡ ip.inum
    → load sb (iupdate sb ip s) jp ≡ reloaded ip jp
unfolding load dinode_bytes
load-iupdate_same sb ip jp s h same =
    let o = ip.inum % ipb * 64 in
    let bytes = (iupdate sb ip s).blocks (iblock ip.inum sb) in
    let byte : (i : ℕ) → i < 64 → bytes (o + i) ≡ get_or (dinode_bytes ip) i 0 =
      (λ i lt. read_back sb ip s i h lt) in
    let z : o ≡ o + 0 = omega arith in
    let type : get16 bytes o ≡ ip.type =
      ap (get16 bytes) z
      ∙ get16_at bytes o (dinode_bytes ip) byte ip.type 0 (omega arith) refl refl h.type in
    let major =
      get16_at bytes o (dinode_bytes ip) byte ip.major 2 (omega arith) refl refl h.major in
    let minor =
      get16_at bytes o (dinode_bytes ip) byte ip.minor 4 (omega arith) refl refl h.minor in
    let nlink =
      get16_at bytes o (dinode_bytes ip) byte ip.nlink 6 (omega arith) refl refl h.nlink in
    let size =
      get32_at bytes o (dinode_bytes ip) byte ip.size 8 (omega arith) refl refl refl refl h.size in
    let addrs : get_words (ndirect + 1) bytes (o + 12) ≡ ip.addrs =
      get_words-words ip.addrs (ndirect + 1) bytes (o + 12) h.entries h.addrs (λ i lt.
        let e : o + 12 + i ≡ o + (12 + i) = omega arith in
        let f : 12 + i ≡ suc (suc (suc (suc (suc (suc (suc (suc (suc (suc (suc (suc i))))))))))) =
          omega arith in
        ap bytes e
        ∙ byte (12 + i) (omega (arith, lt, h.entries))
        ∙ ap (λ k. get_or (dinode_bytes ip) k 0) f) in
    rw (same, type, major, minor, nlink, size, addrs) refl

load_ext :
    (sb : SuperBlock) (jp : Inode) (s s' : Store)
    → ((i : ℕ)
        → i < 64
        → s'.blocks (iblock jp.inum sb) (jp.inum % ipb * 64 + i)
          ≡ s.blocks (iblock jp.inum sb) (jp.inum % ipb * 64 + i))
    → load sb s' jp ≡ load sb s jp
unfolding load
load_ext sb jp s s' h =
    let o = jp.inum % ipb * 64 in
    let b = iblock jp.inum sb in
    let at : (j k : ℕ) → j + k < 64 → s'.blocks b (o + j + k) ≡ s.blocks b (o + j + k) = (λ j k lt.
      let e : o + j + k ≡ o + (j + k) = omega arith in
      ap (s'.blocks b) e ∙ h (j + k) lt ∙ ap (s.blocks b) (sym e)) in
    let z : o ≡ o + 0 = omega arith in
    let first : s'.blocks b o ≡ s.blocks b o =
      ap (s'.blocks b) z ∙ h 0 (omega arith) ∙ ap (s.blocks b) (sym z) in
    rw
      (
        first,
        h 1 (omega arith),
        h 2 (omega arith),
        at 2 1 (omega arith),
        h 4 (omega arith),
        at 4 1 (omega arith),
        h 6 (omega arith),
        at 6 1 (omega arith),
        h 8 (omega arith),
        at 8 1 (omega arith),
        at 8 2 (omega arith),
        at 8 3 (omega arith),
        get_words_ext (ndirect + 1) (s'.blocks b) (s.blocks b) (o + 12)
            (λ i lt. at 12 i (omega (arith, lt))),
      )
      refl

load-iupdate_other :
    (sb : SuperBlock) (ip jp : Inode) (s : Store)
    → Sized ip
    → jp.inum ≢ ip.inum
    → load sb (iupdate sb ip s) jp ≡ load sb s jp
unfolding iupdate
load-iupdate_other sb ip jp s h other = load_ext sb jp s (iupdate sb ip s) (λ i lt.
    elim (ℕ_discrete (iblock ip.inum sb) (iblock jp.inum sb)) [
      | no ne ↦ rw (ne→== _ _ ne) refl
      | yes e ↦ rw (eq→== _ _ e) (
          splice_out (dinode_bytes ip) (ip.inum % ipb * 64) (s.blocks (iblock ip.inum sb))
            (jp.inum % ipb * 64 + i) (search (arith, other, e, lt, length-dinode_bytes ip h))
          ∙ ap (λ b. s.blocks b (jp.inum % ipb * 64 + i)) e)
    ])

-- After `iupdate` of an inode, what `ilock` reads for the same number is every field as it was
-- written, and what it reads for another number is what it read before: where the fields have the
-- sizes that they have in the code.
pub load-iupdate :
    (sb : SuperBlock) (ip jp : Inode) (s : Store)
    → Sized ip
    → (jp.inum ≡ ip.inum → load sb (iupdate sb ip s) jp ≡ reloaded ip jp)
      × (jp.inum ≢ ip.inum → load sb (iupdate sb ip s) jp ≡ load sb s jp)
load-iupdate sb ip jp s h = (load-iupdate_same sb ip jp s h, load-iupdate_other sb ip jp s h)
