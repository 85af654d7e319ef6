-- ===== src/Fs/Release.antt =====
-- `bfree` of xv6A1/fs.c, and the two functions one after the other.
use native.Mathlib.Decide.{ℕ_discrete}
use operating_system_design.Prelude.{
  ℕ, ◌%◌, ◌<◌, ◌≡◌, ◌≢◌, refl, sym, ap, ◌∙◌, true, false, ◌&&◌, not, some, ◌==◌, arith, eq→==,
  ne→==, ==-refl,
}
use operating_system_design.Fs.{
  SuperBlock, Store, bits_per_block, bblock, clear_bit, write_block, balloc, readsb, free_bit,
  bfree,
}
use operating_system_design.Fs.Bits.{clear_bit_lem, clear_bit-lt}
use operating_system_design.Fs.Bitmap.{used, HasBitmap, Allocated, balloc-Allocated}

-- Block 1 holds the superblock, and the bitmap lies behind it.
pub record HasSuper (sb : SuperBlock) (s : Store) : Type 0 where
  pub read : readsb s ≡ sb
  pub below : 1 < sb.bmapstart

pub HasSuper-same :
    (sb : SuperBlock) (s s' : Store) → HasSuper sb s → s'.blocks 1 ≡ s.blocks 1 → HasSuper sb s'
HasSuper-same sb s s' h e = record { read = rw e h.read; below = h.below }

bfree-free_bit : (sb : SuperBlock) (b : ℕ) (s : Store) → HasSuper sb s → bfree b s ≡ free_bit sb b s
unfolding bfree
bfree-free_bit sb b s h = ap (λ q. free_bit q b s) h.read

-- `bfree` of a block in use clears its mark and no other, and changes no block but one of the
-- bitmap, where blocks consist of bytes, as they do again.
pub bfree-used :
    (sb : SuperBlock) (b : ℕ) (s : Store)
    → ((x i : ℕ) → s.blocks x i < 256)
    → HasSuper sb s
    → used sb s b ≡ true
    → (s' : Store) × (bfree b s ≡ some s')
      × ((x : ℕ) → used sb s' x ≡ (not (b == x) && used sb s x))
      × ((x : ℕ) → x ≢ bblock b sb → s'.blocks x ≡ s.blocks x)
      × ((x i : ℕ) → s'.blocks x i < 256)
unfolding free_bit
bfree-used sb b s h super busy =
    let bno = bblock b sb in
    let bi = b % bits_per_block in
    (
      write_block bno (clear_bit (s.blocks bno) bi) s,
      bfree-free_bit sb b s super ∙ rw busy refl,
      λ x. elim (ℕ_discrete bno (bblock x sb)) [
        | yes e ↦
            let bit : (bi == x % bits_per_block) ≡ (b == x) = ground arith in
            rw (eq→== _ _ e)
              (clear_bit_lem (s.blocks bno) bi (x % bits_per_block) (h _ _) ∙ rw (bit, e) refl)
        | no ne ↦ let other : (b == x) ≡ false = ground arith in rw (ne→== _ _ ne, other) refl
      ],
      λ x ne. rw (ne→== bno x (λ e. ne (sym e))) refl,
      λ x i. elim (ℕ_discrete bno x) [
        | yes e ↦ rw (eq→== _ _ e) (clear_bit-lt (s.blocks bno) bi (h bno) i)
        | no ne ↦ rw (ne→== _ _ ne) (h x i)
      ],
    )

Allocated-HasBitmap :
    (sb : SuperBlock) (s s' : Store) (b : ℕ)
    → HasBitmap sb s
    → Allocated sb s b s'
    → HasBitmap sb s'
Allocated-HasBitmap sb s s' b h a = record {
  bytes = a.bytes;
  reserved = λ x lt low high. ground (arith, a.marks x lt, h.reserved x lt low high);
}

freed_again :
    (sb : SuperBlock) (s s' : Store) (b : ℕ)
    → HasBitmap sb s
    → HasSuper sb s
    → used sb s 1 ≡ true
    → Allocated sb s b s'
    → (s'' : Store) × (bfree b s' ≡ some s'')
      × ((x : ℕ) → x < sb.size → used sb s'' x ≡ used sb s x)
freed_again sb s s' b h super taken a =
    let busy : used sb s' b ≡ true = a.marks b a.inside ∙ rw (==-refl b) refl in
    let other : 1 ≢ b = (λ e. cc (ap (used sb s) e, a.fresh, taken)) in
    let super' : HasSuper sb s' =
      HasSuper-same sb s s' super (a.others 1 other (omega (arith, super.below))) in
    let (s'', freed, marks, _, _) =
      bfree-used sb b s' (Allocated-HasBitmap sb s s' b h a).bytes super' busy in
    (
      s'',
      freed,
      λ x lt.
          marks x
          ∙ rw (a.marks x lt) (elim (ℕ_discrete b x) [
            | yes e ↦ rw (eq→== _ _ e) (sym a.fresh ∙ ap (used sb s) e)
            | no ne ↦ rw (ne→== _ _ ne) refl
          ]),
    )

-- Freeing the block that `balloc` returned succeeds, and then the marks of all blocks are what they
-- were before: where the blocks consist of bytes, block 1 holds the superblock and is marked as in
-- use, the bitmap lies behind it, and the bitmap's own blocks are in use.
pub bfree-balloc :
    (sb : SuperBlock) (s s' : Store) (b : ℕ)
    → HasBitmap sb s
    → HasSuper sb s
    → used sb s 1 ≡ true
    → balloc sb s ≡ some (b, s')
    → (s'' : Store) × (bfree b s' ≡ some s'')
      × ((x : ℕ) → x < sb.size → used sb s'' x ≡ used sb s x)
bfree-balloc sb s s' b h super taken e =
    freed_again sb s s' b h super taken (balloc-Allocated sb s s' b h e)
