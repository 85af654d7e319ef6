-- ===== src/Icache/Trunc.antt =====
-- The blocks that `itrunc` of xv6A1/fs.c frees.
use native.Mathlib.Decide.{ℕ_discrete}
use mathlib.Core.Path.{subst}
use operating_system_design.Prelude.{
  get_words, ℕ, ◌<◌, ◌≡◌, ◌≢◌, refl, sym, ◌∙◌, false, not, ◌&&◌, some, List, [], ◌∷◌, ◌++◌, map,
  ◌==◌, if◌then◌else◌, eq→==, ne→==, get_or, take,
}
use operating_system_design.Fs.{SuperBlock, Store, bblock}
use operating_system_design.Fs.Bitmap.{used}
use operating_system_design.Fs.Release.{HasSuper, bfree-used}
use operating_system_design.Inode.{Inode, ndirect, nindirect, iblock, iupdate}
use operating_system_design.Icache.{free_all, free_indirect, itrunc}
use operating_system_design.Icache.Owned.{
  lists, IsBitmap, Owned, Freed, Owned-after, Owned-front, Owned-back, free_all-Freed,
  Freed-HasSuper, Freed-append, both,
}

-- The indirect block with the blocks that it lists.
abbrev pub far_blocks : ℕ → Store → List ℕ
far_blocks addr s = if addr == 0 then [] else get_words nindirect (s.blocks addr) 0 ++ (addr ∷ [])

-- All blocks of a file.
abbrev pub file_blocks : Inode → Store → List ℕ
file_blocks ip s = take ndirect ip.addrs ++ far_blocks (get_or ip.addrs ndirect 0) s

free_indirect-Freed :
    (sb : SuperBlock) (addr : ℕ) (s : Store)
    → ((x i : ℕ) → s.blocks x i < 256)
    → HasSuper sb s
    → Owned sb s (far_blocks addr s)
    → (s' : Store) × (free_indirect addr s ≡ some s') × Freed sb s (far_blocks addr s) s'
unfolding free_indirect
free_indirect-Freed sb addr s bytes super = elim (ℕ_discrete addr 0) [
  | yes z ↦
      rw (eq→== _ _ z)
        (λ o. (s, refl, record { marks = λ x. refl; others = λ x n. refl; bytes = bytes }))
  | no ne ↦ rw (ne→== _ _ ne) (λ o.
      let entries = get_words nindirect (s.blocks addr) 0 in
      let (later, clear) = Owned-back sb s entries (addr ∷ []) o in
      let (s1, e1, f1) =
        free_all-Freed sb entries s bytes super (Owned-front sb s entries (addr ∷ []) o) in
      let o1 : Owned sb s1 (addr ∷ []) =
        Owned-after sb s s1 (addr ∷ []) (λ x l u. f1.marks x ∙ rw (clear x l, u) refl) later in
      let (s2, e2, marks, others, bytes2) =
        bfree-used sb addr s1 f1.bytes (Freed-HasSuper sb s s1 entries super f1) (o1.0 ne).1 in
      (
        s2,
        rw e1 e2,
        Freed-append sb s s1 s2 entries (addr ∷ []) f1 (record {
          marks = λ x. marks x ∙ rw (ne→== _ _ ne) (both (addr == x) false (used sb s1 x));
          others = λ x n. others x (λ q. n (addr, (o1.0 ne).0, q));
          bytes = bytes2;
        }),
      ))
]

-- What `itrunc` returns for the inode and leaves in the blocks.
pub record Truncated (sb : SuperBlock) (ip : Inode) (s : Store) (ip' : Inode) (s' : Store)
    : Type 0 where
  pub inode : ip' ≡ record ip { addrs = map (λ a. 0) ip.addrs; size = 0 }
  pub marks :
      (x : ℕ) → x < sb.size → used sb s' x ≡ (not (lists x (file_blocks ip s)) && used sb s x)
  pub others : (x : ℕ) → ¬ IsBitmap sb x → x ≢ iblock ip.inum sb → s'.blocks x ≡ s.blocks x

far_blocks_same :
    (addr : ℕ) (s s' : Store)
    → s'.blocks addr ≡ s.blocks addr
    → far_blocks addr s' ≡ far_blocks addr s
far_blocks_same addr s s' e = rw e refl

itrunc_runs :
    (sb : SuperBlock) (ip : Inode) (s s' s'' : Store)
    → free_all (take ndirect ip.addrs) s ≡ some s'
    → free_indirect (get_or ip.addrs ndirect 0) s' ≡ some s''
    → itrunc sb ip s
      ≡ some (
        record ip { addrs = map (λ a. 0) ip.addrs; size = 0 },
        iupdate sb (record ip { addrs = map (λ a. 0) ip.addrs; size = 0 }) s'',
      )
unfolding itrunc
itrunc_runs sb ip s s' s'' e1 e2 = rw (itrunc, e1, e2) refl

-- `itrunc` does not panic. It frees the blocks in the file's direct addresses, those that its
-- indirect block lists and the indirect block, and changes no other mark and no block outside the
-- bitmap but the inode's, and it returns the inode with the size 0 and no address: where the
-- blocks of the file are blocks of the disk, in use and listed once, blocks consist of bytes,
-- block 1 holds the superblock, the bitmap lies behind it, and
-- neither the inode's block nor the indirect block belongs to the bitmap.
pub itrunc-Truncated :
    (sb : SuperBlock) (ip : Inode) (s : Store)
    → ((x i : ℕ) → s.blocks x i < 256)
    → HasSuper sb s
    → Owned sb s (file_blocks ip s)
    → ¬ IsBitmap sb (iblock ip.inum sb)
    → ¬ IsBitmap sb (get_or ip.addrs ndirect 0)
    → (ip' : Inode) × (s' : Store) × (itrunc sb ip s ≡ some (ip', s')) × Truncated sb ip s ip' s'
unfolding iupdate
itrunc-Truncated sb ip s bytes super o apart far =
    let near = take ndirect ip.addrs in
    let addr = get_or ip.addrs ndirect 0 in
    let (later, clear) = Owned-back sb s near (far_blocks addr s) o in
    let (s1, e1, f1) =
      free_all-Freed sb near s bytes super (Owned-front sb s near (far_blocks addr s) o) in
    let same = far_blocks_same addr s s1 (f1.others addr far) in
    let o1 : Owned sb s1 (far_blocks addr s1) = rw same (
      Owned-after sb s s1 (far_blocks addr s) (λ x l u. f1.marks x ∙ rw (clear x l, u) refl)
        later) in
    let (s2, e2, f2) =
      free_indirect-Freed sb addr s1 f1.bytes (Freed-HasSuper sb s s1 near super f1) o1 in
    let all : Freed sb s (file_blocks ip s) s2 =
      Freed-append sb s s1 s2 near (far_blocks addr s) f1 (subst (λ l. Freed sb s1 l s2) same f2) in
    let ip' = record ip { addrs = map (λ a. 0) ip.addrs; size = 0 } in
    (
      ip',
      iupdate sb ip' s2,
      itrunc_runs sb ip s s1 s2 e1 e2,
      record {
        inode = refl;
        marks = λ x lt.
            rw (ne→== (iblock ip.inum sb) (bblock x sb) (λ q. apart (x, lt, q))) (all.marks x);
        others = λ x n ne. rw (ne→== (iblock ip.inum sb) x (λ q. ne (sym q))) (all.others x n);
      },
    )
