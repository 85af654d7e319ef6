-- ===== src/Fs/Bitmap.antt =====
-- The block bitmap of xv6A1/fs.c as a set of blocks in use.
use native.Mathlib.Decide.{ℕ_discrete, dec_lt}
use mathlib.Core.Path.{subst}
use operating_system_design.Prelude.{
  ℕ, zero, suc, ◌+◌, ◌*◌, ◌/◌, ◌%◌, ◌<◌, ◌≤◌, ◌≡◌, ◌≢◌, refl, sym, ap, ◌∙◌, Bool, true, false, ◌||◌,
  ◌∷◌, Option, none, some, ltb, ◌==◌, arith, Bool-cases, inl, inr, ◌⊎◌, ltb→lt, eq→==, ne→==,
}
use operating_system_design.Fs.{
  SuperBlock, Store, bits_per_block, bblock, bit_is_set, bzero, find_bit, take_bit, balloc_loop,
  balloc,
}
use operating_system_design.Fs.Bits.{set_bit_lem, set_bit-lt}

-- The bit of block `x`.
abbrev pub used : SuperBlock → Store → ℕ → Bool
used sb s x = bit_is_set (s.blocks (bblock x sb)) (x % bits_per_block)

-- Blocks consist of bytes, and the bitmap's own blocks are in use.
pub record HasBitmap (sb : SuperBlock) (s : Store) : Type 0 where
  pub bytes : (x i : ℕ) → s.blocks x i < 256
  pub reserved :
      (x : ℕ) → x < sb.size → sb.bmapstart ≤ x → x ≤ bblock sb.size sb → used sb s x ≡ true

-- What the inner loop finds.
abbrev Scanned : ℕ → ℕ → ℕ → ℕ → (ℕ → ℕ) → Option ℕ → Type 0
Scanned k b bi size bytes none =
    (j : ℕ) → bi ≤ j → j < bi + k → b + j < size → bit_is_set bytes j ≡ true
Scanned k b bi size bytes (some j) =
    (bi ≤ j) × (j < bi + k) × (b + j < size) × (bit_is_set bytes j ≡ false)

find_bit-Scanned :
    (k b bi size : ℕ) (bytes : ℕ → ℕ) → Scanned k b bi size bytes (find_bit k b bi size bytes)
unfolding find_bit
find_bit-Scanned zero b bi size bytes = λ j low high. absurd (omega arith)
find_bit-Scanned (suc k) b bi size bytes = elim (Bool-cases (ltb (b + bi) size)) [
  | inr past ↦ rw past (λ j low high lt. absurd (ground arith))
  | inl inside ↦ elim (Bool-cases (bit_is_set bytes bi)) [
    | inr free ↦ rw (inside, free) (omega arith, omega arith, ltb→lt _ _ inside, free)
    | inl busy ↦
        rw (inside, busy)
          (later k b bi size bytes busy (find_bit k b (bi + 1) size bytes)
            (find_bit-Scanned k b (bi + 1) size bytes))
  ]
]
  where
    later :
        (k b bi size : ℕ) (bytes : ℕ → ℕ)
        → bit_is_set bytes bi ≡ true
        → (o : Option ℕ) → Scanned k b (bi + 1) size bytes o
        → Scanned (suc k) b bi size bytes o
    later k b bi size bytes busy none h = λ j low high lt. elim (ℕ_discrete j bi) [
      | yes e ↦ rw e busy
      | no ne ↦ h j (omega arith) (omega arith) lt
    ]
    later k b bi size bytes busy (some j) h = (omega arith, omega arith, h.2, h.3)

-- What `balloc` does with the store for the block that it returns.
pub record Allocated (sb : SuperBlock) (s : Store) (b : ℕ) (s' : Store) : Type 0 where
  pub inside : b < sb.size
  pub fresh : used sb s b ≡ false
  pub marks : (x : ℕ) → x < sb.size → used sb s' x ≡ (b == x || used sb s x)
  pub zeroed : (i : ℕ) → s'.blocks b i ≡ 0
  pub others : (x : ℕ) → x ≢ b → x ≢ bblock b sb → s'.blocks x ≡ s.blocks x
  pub logs : s'.logged ≡ b ∷ (bblock b sb ∷ s.logged)
  pub bytes : (x i : ℕ) → s'.blocks x i < 256

take_bit-marks :
    (sb : SuperBlock) (b bi : ℕ) (s : Store)
    → HasBitmap sb s
    → b % bits_per_block ≡ 0
    → bi < bits_per_block
    → b + bi < sb.size
    → used sb s (b + bi) ≡ false
    → (x : ℕ) → x < sb.size
    → used sb (take_bit sb b bi s).1 x ≡ (b + bi == x || used sb s x)
unfolding take_bit bzero
take_bit-marks sb b bi s h al small inside fresh x lt =
    let apart : b + bi ≢ bblock x sb = (λ e.
      let r : used sb s (b + bi) ≡ true =
        h.reserved (b + bi) inside (omega (arith, e)) (omega (arith, e)) in
      cc (r, fresh)) in
    rw (ne→== _ _ apart) (elim (ℕ_discrete (bblock b sb) (bblock x sb)) [
      | yes e ↦
          let bit : (bi == x % bits_per_block) ≡ (b + bi == x) = ground arith in
          let law = set_bit_lem (s.blocks (bblock b sb)) bi (x % bits_per_block) (h.bytes _ _) in
          rw (eq→== _ _ e) (law ∙ rw (bit, e) refl)
      | no ne ↦ let other : (b + bi == x) ≡ false = ground arith in rw (ne→== _ _ ne, other) refl
    ])

take_bit-lt :
    (sb : SuperBlock) (b bi : ℕ) (s : Store)
    → HasBitmap sb s
    → (x i : ℕ) → (take_bit sb b bi s).1.blocks x i < 256
unfolding take_bit bzero
take_bit-lt sb b bi s h x i = elim (ℕ_discrete (b + bi) x) [
  | yes e ↦ rw (eq→== _ _ e) (omega arith)
  | no ne ↦ rw (ne→== _ _ ne) (elim (ℕ_discrete (bblock b sb) x) [
    | yes e ↦ rw (eq→== _ _ e) (set_bit-lt (s.blocks (bblock b sb)) bi (h.bytes (bblock b sb)) i)
    | no other ↦ rw (ne→== _ _ other) (h.bytes x i)
  ])
]

take_bit-Allocated :
    (sb : SuperBlock) (b bi : ℕ) (s : Store)
    → HasBitmap sb s
    → b % bits_per_block ≡ 0
    → bi < bits_per_block
    → b + bi < sb.size
    → bit_is_set (s.blocks (bblock b sb)) bi ≡ false
    → Allocated sb s (b + bi) (take_bit sb b bi s).1
unfolding take_bit bzero
take_bit-Allocated sb b bi s h al small inside free =
    let at : bblock (b + bi) sb ≡ bblock b sb = omega arith in
    let bit : (b + bi) % bits_per_block ≡ bi = omega arith in
    let fresh : used sb s (b + bi) ≡ false = rw (at, bit) free in
    record {
      inside = inside;
      fresh = fresh;
      marks = take_bit-marks sb b bi s h al small inside fresh;
      zeroed = λ i. ground arith;
      others = λ x ne nb.
          rw (ne→== (b + bi) x (λ e. ne (sym e)), ne→== (bblock b sb) x (λ e. nb (sym e ∙ sym at)))
            refl;
      logs = ap (λ n. (b + bi) ∷ (n ∷ s.logged)) (sym at);
      bytes = λ x i. take_bit-lt sb b bi s h x i;
    }

-- What `balloc` comes to, from block `b` on.
abbrev Looked : SuperBlock → Store → ℕ → Option (ℕ × Store) → Type 0
Looked sb s b none = (x : ℕ) → b ≤ x → x < sb.size → used sb s x ≡ true
Looked sb s b (some (c, s')) = Allocated sb s c s'

balloc_loop-Looked :
    (k : ℕ) (sb : SuperBlock) (b : ℕ) (s : Store)
    → HasBitmap sb s
    → b % bits_per_block ≡ 0
    → sb.size < b + k * bits_per_block
    → Looked sb s b (balloc_loop k sb b s)
unfolding balloc_loop take_bit
balloc_loop-Looked zero sb b s h al all = λ x low high. absurd (omega arith)
balloc_loop-Looked (suc k) sb b s h al all = elim (Bool-cases (ltb b sb.size)) [
  | inr past ↦ rw past (λ x low high. absurd (ground arith))
  | inl inside ↦ rw inside (
      from (find_bit bits_per_block b 0 sb.size (s.blocks (bblock b sb)))
        (find_bit-Scanned bits_per_block b 0 sb.size (s.blocks (bblock b sb)))
        (balloc_loop k sb (b + bits_per_block) s)
        (balloc_loop-Looked k sb (b + bits_per_block) s h (omega arith) (omega arith)))
]
  where
    from :
        (o : Option ℕ)
        → Scanned bits_per_block b 0 sb.size (s.blocks (bblock b sb)) o
        → (rest : Option (ℕ × Store)) → Looked sb s (b + bits_per_block) rest
        → Looked sb s b (elim o [ none ↦ rest | some bi ↦ some (take_bit sb b bi s) ])
    from (some bi) f rest r = take_bit-Allocated sb b bi s h al (omega arith) f.2 f.3
    from none f none r = λ x low high. elim (dec_lt x (b + bits_per_block)) [
      | yes here ↦
          let q : bblock x sb ≡ bblock b sb = omega arith in
          rw q (f (x % bits_per_block) (omega arith) (omega arith) (omega arith))
      | no later ↦ r x (omega arith) high
    ]
    from none f (some (c, s')) r = r

-- Where the blocks consist of bytes and the bitmap's own blocks are in use, `balloc` returns a
-- block that was free, zeroed and marked as in use. Of the others it changes no mark and no
-- content but that of one bitmap block, and it logs these two. It panics only if every block is in
-- use.
pub balloc_lem :
    (sb : SuperBlock) (s : Store)
    → HasBitmap sb s
    → ((b : ℕ) × (s' : Store) × (balloc sb s ≡ some (b, s')) × Allocated sb s b s')
      ⊎ ((balloc sb s ≡ none) × ((x : ℕ) → x < sb.size → used sb s x ≡ true))
unfolding balloc
balloc_lem sb s h =
    from (balloc_loop (sb.size / bits_per_block + 1) sb 0 s)
      (balloc_loop-Looked (sb.size / bits_per_block + 1) sb 0 s h (omega arith) (omega arith))
  where
    from :
        (o : Option (ℕ × Store))
        → Looked sb s 0 o
        → ((b : ℕ) × (s' : Store) × (o ≡ some (b, s')) × Allocated sb s b s')
          ⊎ ((o ≡ none) × ((x : ℕ) → x < sb.size → used sb s x ≡ true))
    from none l = inr (refl, λ x h. l x (omega arith) h)
    from (some (b, s')) l = inl (b, s', refl, l)

pub balloc-Allocated :
    (sb : SuperBlock) (s s' : Store) (b : ℕ)
    → HasBitmap sb s
    → balloc sb s ≡ some (b, s')
    → Allocated sb s b s'
unfolding balloc
balloc-Allocated sb s s' b h e =
    subst (Looked sb s 0) e
      (balloc_loop-Looked (sb.size / bits_per_block + 1) sb 0 s h (omega arith) (omega arith))
