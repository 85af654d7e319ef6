-- ===== src/Buffer/Refs.antt =====
-- The buffer cache of xv6A1/bio.c as counts of the references to blocks.
use operating_system_design.Prelude.{
  ℕ, ◌+◌, ◌^◌, ◌<◌, ◌≤◌, ◌≡◌, ◌≢◌, refl, ap, Bool, true, false, ◌&&◌, Option, none, some, List, [],
  ◌∷◌, map, ◌==◌, if◌then◌else◌, arith, Bool-cases, inl, inr, ne→==, ==-refl, Absent, Nodup,
}
use operating_system_design.Buffer.{
  Buf, is_block, find_cached, is_unused, recycle, bget, find_buf, null_buf,
}

-- The references to a block, and the buffers that have it.
abbrev pub refs : ℕ → ℕ → List Buf → ℕ
refs d k [] = 0
refs d k (b ∷ bs) = (if is_block d k b then b.refcnt else 0) + refs d k bs

abbrev pub copies : ℕ → ℕ → List Buf → ℕ
copies d k [] = 0
copies d k (b ∷ bs) = (if is_block d k b then 1 else 0) + copies d k bs

abbrev pub one : Bool → ℕ
one true = 1
one false = 0

abbrev pub same : ℕ → ℕ → ℕ → ℕ → Bool
same d k d' k' = d == d' && k == k'

abbrev pub ids : List Buf → List ℕ
ids bs = map (λ b. b.id) bs

-- A buffer with the block is at the address returned, the block has a reference more and no other
-- block has; the addresses are those before.
pub record Fetched (dev blockno : ℕ) (bs : List Buf) (id : ℕ) (bs' : List Buf) : Type 0 where
  pub block : is_block dev blockno (find_buf id bs' null_buf) ≡ true
  pub counts : (d k : ℕ) → refs d k bs' ≡ refs d k bs + one (same dev blockno d k)
  pub listed : (v : ℕ) → Absent v (ids bs) → v ≢ id
  pub order : ids bs' ≡ ids bs

-- No reference count is about to overflow.
abbrev pub Small : List Buf → Type 0
Small [] = Unit
Small (b ∷ bs) = (b.refcnt + 1 < 2 ^ 32) × Small bs

abbrev pub Busy : List Buf → Type 0
Busy [] = Unit
Busy (b ∷ bs) = (is_unused b ≡ false) × Busy bs

cons-Fetched :
    (dev blockno : ℕ) (b : Buf) (bs : List Buf) (id : ℕ) (bs' : List Buf)
    → Absent b.id (ids bs)
    → Fetched dev blockno bs id bs'
    → Fetched dev blockno (b ∷ bs) id (b ∷ bs')
unfolding find_buf
cons-Fetched dev blockno b bs id bs' a f = record {
  block = rw (ne→== b.id id (f.listed b.id a)) f.block;
  counts = λ d k. omega (arith, f.counts d k);
  listed = λ v ab. f.listed v ab.1;
  order = ap (◌∷◌ b.id) f.order;
}

abbrev Found : ℕ → ℕ → List Buf → Option (ℕ × List Buf) → Type 0
Found dev blockno bs none = copies dev blockno bs ≡ 0
Found dev blockno bs (some (id, bs')) =
    Fetched dev blockno bs id bs' × ((d k : ℕ) → copies d k bs' ≡ copies d k bs)

find_cached-Found :
    (dev blockno : ℕ) (bs : List Buf)
    → Small bs
    → Nodup (ids bs)
    → Found dev blockno bs (find_cached dev blockno bs)
unfolding find_cached find_buf
find_cached-Found dev blockno [] small n = refl
find_cached-Found dev blockno (b ∷ bs) small n = elim (Bool-cases (is_block dev blockno b)) [
  | inl found ↦ rw found (
    record {
      block = rw (==-refl b.id) found;
      counts = λ d k. ground (arith, found, small.0);
      listed = λ v ab. ab.0;
      order = refl;
    },
    λ d k. refl,
  )
  | inr other ↦
      rw other
        (from other (find_cached dev blockno bs) (find_cached-Found dev blockno bs small.1 n.1))
]
  where
    from :
        is_block dev blockno b ≡ false
        → (r : Option (ℕ × List Buf)) → Found dev blockno bs r
        → Found dev blockno (b ∷ bs) (elim r [ none ↦ none | some (id, bs') ↦ some (id, b ∷ bs') ])
    from other none f = rw other (omega (arith, f))
    from other (some (id, bs')) f =
        (cons-Fetched dev blockno b bs id bs' n.0 f.0, λ d k. omega (arith, f.1 d k))

abbrev Recycled : ℕ → ℕ → List Buf → Option (ℕ × List Buf) → Type 0
Recycled dev blockno bs none = Busy bs
Recycled dev blockno bs (some (id, bs')) =
    Fetched dev blockno bs id bs'
    × ((d k : ℕ) → copies d k bs' ≤ copies d k bs + one (same dev blockno d k))

recycle-Recycled :
    (dev blockno : ℕ) (bs : List Buf)
    → Nodup (ids bs)
    → Recycled dev blockno bs (recycle dev blockno bs)
unfolding recycle find_buf
recycle-Recycled dev blockno [] n = tt
recycle-Recycled dev blockno (b ∷ bs) n =
    from (recycle dev blockno bs) (recycle-Recycled dev blockno bs n.1)
  where
    from :
        (r : Option (ℕ × List Buf))
        → Recycled dev blockno bs r
        → Recycled dev blockno (b ∷ bs) (elim r [
          | some (id, bs') ↦ some (id, b ∷ bs')
          | none ↦
              if is_unused b
              then some
                  (b.id, record b { dev = dev; blockno = blockno; flags = 0; refcnt = 1 } ∷ bs)
              else none
        ])
    from none f = elim (Bool-cases (is_unused b)) [
      | inl free ↦
          let idle : b.refcnt ≡ 0 = ground (arith, free) in
          rw free (
            record {
              block = rw (==-refl b.id, ==-refl dev, ==-refl blockno) refl;
              counts = λ d k. ground (arith, idle);
              listed = λ v ab. ab.0;
              order = refl;
            },
            λ d k. ground arith,
          )
      | inr busy ↦ rw busy (busy, f)
    ]
    from (some (id, bs')) f =
        (cons-Fetched dev blockno b bs id bs' n.0 f.0, λ d k. omega (arith, f.1 d k))

-- At most one buffer has a block. (All of them start with block 0 of device 0, which no one asks
-- for.)
abbrev pub Unique : List Buf → Type 0
Unique bs = (d k : ℕ) → d ≢ 0 → copies d k bs ≤ 1

-- What `bget` leaves.
abbrev pub Got : ℕ → ℕ → List Buf → Option (ℕ × List Buf) → Type 0
Got dev blockno bs none = (copies dev blockno bs ≡ 0) × Busy bs
Got dev blockno bs (some (id, bs')) = Fetched dev blockno bs id bs' × Unique bs'

-- `bget` panics only when no buffer has the block and every buffer is in use. Else a buffer with
-- the block is at the address that it returns, the references to this block are one more and those
-- to every other block are what they were, and still no two buffers have the same block of a
-- device other than 0: where that held before, the addresses are distinct and no count is about to
-- overflow.
pub bget-Got :
    (dev blockno : ℕ) (bs : List Buf)
    → Small bs
    → Nodup (ids bs)
    → Unique bs
    → Got dev blockno bs (bget dev blockno bs)
unfolding bget
bget-Got dev blockno bs small n u =
    from (find_cached dev blockno bs) (find_cached-Found dev blockno bs small n)
  where
    again :
        copies dev blockno bs ≡ 0
        → (r : Option (ℕ × List Buf)) → Recycled dev blockno bs r
        → Got dev blockno bs r
    again z none f = (z, f)
    again z (some (id, bs')) f = (
      f.0,
      λ d k ne. elim (Bool-cases (same dev blockno d k)) [
        | inl e ↦
            let eqs : (dev ≡ d) × (blockno ≡ k) = (ground (arith, e), ground (arith, e)) in
            let old : copies d k bs ≡ 0 = rw (← eqs.0, ← eqs.1) z in
            omega (arith, f.1 d k, old, ap one e)
        | inr other ↦ omega (arith, f.1 d k, u d k ne, ap one other)
      ],
    )

    from :
        (r : Option (ℕ × List Buf))
        → Found dev blockno bs r
        → Got dev blockno bs (elim r [ some r ↦ some r | none ↦ recycle dev blockno bs ])
    from none z = again z (recycle dev blockno bs) (recycle-Recycled dev blockno bs n)
    from (some (id, bs')) f = (f.0, λ d k ne. omega (arith, f.1 d k, u d k ne))
