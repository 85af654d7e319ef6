-- ===== src/Buffer/Release.antt =====
-- `brelse` of xv6A1/bio.c: the references and the order of the list.
use operating_system_design.Prelude.{
  ℕ, ◌+◌, ◌-◌, ◌^◌, ◌<◌, ◌≤◌, ◌≡◌, ◌≢◌, refl, ap, ◌∙◌, List, [], ◌∷◌, ◌==◌, if◌then◌else◌, sub32,
  arith, Bool-cases, inl, inr,
}
use operating_system_design.Buffer.{Buf, is_block, unref, find_buf, unlink, null_buf, brelse}
use operating_system_design.Buffer.Refs.{refs, copies, one, Unique}

-- The references that one buffer counts.
abbrev pub share : ℕ → ℕ → Buf → ℕ
share d k b = if is_block d k b then b.refcnt else 0

refs-unref :
    (id : ℕ) (bs : List Buf) (d k : ℕ)
    → 1 ≤ (find_buf id bs null_buf).refcnt
    → (find_buf id bs null_buf).refcnt < 2 ^ 32
    → refs d k (unref id bs) + one (is_block d k (find_buf id bs null_buf)) ≡ refs d k bs
unfolding unref find_buf
refs-unref id [] d k = λ pos small. absurd (omega arith)
refs-unref id (b ∷ bs) d k = elim (Bool-cases (b.id == id)) [
  | inl here ↦ rw here (λ pos small. ground (arith, pos, small))
  | inr other ↦ rw other (λ pos small. omega (arith, refs-unref id bs d k pos small))
]

copies-unref : (id : ℕ) (bs : List Buf) (d k : ℕ) → copies d k (unref id bs) ≡ copies d k bs
unfolding unref
copies-unref id [] d k = refl
copies-unref id (b ∷ bs) d k = elim (Bool-cases (b.id == id)) [
  | inl here ↦ rw here refl
  | inr other ↦ rw other (omega (arith, copies-unref id bs d k))
]

find_buf-unref :
    (id : ℕ) (bs : List Buf)
    → 1 ≤ (find_buf id bs null_buf).refcnt
    → find_buf id (unref id bs) null_buf
      ≡ record (find_buf id bs null_buf) { refcnt = sub32 (find_buf id bs null_buf).refcnt 1 }
unfolding unref find_buf
find_buf-unref id [] = λ pos. absurd (omega arith)
find_buf-unref id (b ∷ bs) = elim (Bool-cases (b.id == id)) [
  | inl here ↦ rw here (λ pos. rw here refl)
  | inr other ↦ rw other (λ pos. rw other (find_buf-unref id bs pos))
]

-- Moving a buffer to the front changes no count.
refs-unlink :
    (id : ℕ) (bs : List Buf) (d k : ℕ)
    → refs d k (find_buf id bs null_buf ∷ unlink id bs) ≡ refs d k bs
unfolding unlink find_buf
refs-unlink id [] d k = ground arith
refs-unlink id (b ∷ bs) d k = elim (Bool-cases (b.id == id)) [
  | inl here ↦ rw here refl
  | inr other ↦ rw other (omega (arith, refs-unlink id bs d k))
]

copies-unlink :
    (id : ℕ) (bs : List Buf) (d k : ℕ)
    → d ≢ 0
    → copies d k (find_buf id bs null_buf ∷ unlink id bs) ≡ copies d k bs
unfolding unlink find_buf
copies-unlink id [] d k ne = ground arith
copies-unlink id (b ∷ bs) d k ne = elim (Bool-cases (b.id == id)) [
  | inl here ↦ rw here refl
  | inr other ↦ rw other (omega (arith, copies-unlink id bs d k ne))
]

-- What `brelse` leaves.
pub record Released (id : ℕ) (bs bs' : List Buf) : Type 0 where
  pub counts : (d k : ℕ) → refs d k bs' + one (is_block d k (find_buf id bs null_buf)) ≡ refs d k bs
  pub unique : Unique bs'
  pub front :
      (find_buf id bs null_buf).refcnt ≡ 1
      → (rest : List Buf) × (bs' ≡ record (find_buf id bs null_buf) { refcnt = 0 } ∷ rest)

-- `brelse` of a buffer with a reference takes one reference from the buffer's block and from no
-- other, leaves at most one buffer for every block of a device other than 0, and puts a buffer
-- that has lost its last reference in front of the list: where no two buffers had the same such
-- block before.
pub brelse-Released :
    (id : ℕ) (bs : List Buf)
    → 1 ≤ (find_buf id bs null_buf).refcnt
    → (find_buf id bs null_buf).refcnt < 2 ^ 32
    → Unique bs
    → Released id bs (brelse id bs)
unfolding brelse
brelse-Released id bs pos small u =
    let b = find_buf id (unref id bs) null_buf in
    let e = find_buf-unref id bs pos in
    let left : b.refcnt ≡ (find_buf id bs null_buf).refcnt - 1 =
      ap (λ x. x.refcnt) e ∙ omega (arith, pos, small) in
    elim (Bool-cases (b.refcnt == 0)) [
      | inl last ↦ rw last (record {
        counts =
            λ d k. omega (arith, refs-unlink id (unref id bs) d k, refs-unref id bs d k pos small);
        unique = λ d k ne.
            omega (arith, copies-unlink id (unref id bs) d k ne, copies-unref id bs d k, u d k ne);
        front = λ one. (
          unlink id (unref id bs),
          ap (λ x. x ∷ unlink id (unref id bs))
              (e ∙ ap (λ n. record (find_buf id bs null_buf) { refcnt = n }) (omega (arith, one))),
        );
      })
      | inr more ↦ rw more (record {
        counts = λ d k. refs-unref id bs d k pos small;
        unique = λ d k ne. omega (arith, copies-unref id bs d k, u d k ne);
        front = λ one. absurd (ground (arith, more, one, left));
      })
    ]
