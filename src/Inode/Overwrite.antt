-- ===== src/Inode/Overwrite.antt =====
-- `writei` of xv6A1/fs.c inside a file: what is read back.
use native.Mathlib.Decide.{ℕ_discrete}
use mathlib.Core.Path.{subst, ap₂}
use operating_system_design.Prelude.{
  ℕ, zero, suc, ◌+◌, ◌-◌, ◌*◌, ◌/◌, ◌%◌, ◌<◌, ◌≤◌, ◌≡◌, ◌≢◌, refl, sym, ap, ◌∙◌, Bool, List, [],
  ◌∷◌, some, length, get_or, take, drop, arith, ◌⊎◌, ne→==, eq→==, le→ltb, add32,
}
use operating_system_design.Fs.{SuperBlock, Store, bsize, write_block}
use operating_system_design.Inode.{
  maxfile, t_dev, Inode, splice, chunk, write_loop, written, grow, writei, copied, readi,
}
use operating_system_design.Inode.Content.{
  addr_of, byte_at, content, HasBlocks, bmap-Mapped, readi-content,
}
use operating_system_design.Inode.Splice.{
  length-take, length-drop, splice_in, splice_out, splice-splice, splice_shift, splice_ext,
}

-- `src` stands in the file from offset `off` on, and no other byte below the size has changed.
pub record Overwritten (ip : Inode) (s : Store) (off : ℕ) (src : List ℕ) (s' : Store) : Type 0 where
  pub addrs : (bn : ℕ) → addr_of ip s' bn ≡ addr_of ip s bn
  pub bytes : (o : ℕ) → o < ip.size → byte_at ip s' o ≡ splice src off (byte_at ip s) o

pub Overwritten-HasBlocks :
    (ip : Inode) (s : Store) (off : ℕ) (src : List ℕ) (s' : Store)
    → Overwritten ip s off src s'
    → HasBlocks ip s
    → HasBlocks ip s'
Overwritten-HasBlocks ip s off src s' w h = record {
  mapped = λ bn lt. record {
    small = (h.mapped bn lt).small;
    found = λ e. (h.mapped bn lt).found (sym (w.addrs bn) ∙ e);
    indirect = (h.mapped bn lt).indirect;
  };
  distinct = λ b c lb lc e. h.distinct b c lb lc (sym (w.addrs b) ∙ e ∙ w.addrs c);
  apart = λ bn lt e. h.apart bn lt (sym (w.addrs bn) ∙ e);
}

-- One round of the loop.
write_block-Overwritten :
    (ip : Inode) (s : Store) (off : ℕ) (src : List ℕ)
    → HasBlocks ip s
    → 1 ≤ length src
    → off % bsize + length src ≤ bsize
    → off + length src ≤ ip.size
    → let b = addr_of ip s (off / bsize) in
      Overwritten ip s off src (write_block b (splice src (off % bsize) (s.blocks b)) s)
write_block-Overwritten ip s off src h some_byte row inside =
    let here : off / bsize * bsize < ip.size = omega (arith, inside, some_byte) in
    let s' =
      write_block (addr_of ip s (off / bsize))
        (splice src (off % bsize) (s.blocks (addr_of ip s (off / bsize)))) s in
    let same : (bn : ℕ) → addr_of ip s' bn ≡ addr_of ip s bn =
      (λ bn. rw (ne→== _ _ (h.apart (off / bsize) here)) refl) in
    record {
      addrs = same;
      bytes = λ o lt.
          ap (λ a. s'.blocks a (o % bsize)) (same (o / bsize))
          ∙ elim (ℕ_discrete (off / bsize) (o / bsize)) [
            | yes e ↦
                let start : off / bsize * bsize + off % bsize ≡ off = omega arith in
                let place : off / bsize * bsize + o % bsize ≡ o = omega (arith, e) in
                rw (eq→== _ _ (ap (addr_of ip s) e)) (
                  subst
                    (λ x.
                      splice src (off % bsize) (s.blocks (addr_of ip s (off / bsize))) (o % bsize)
                      ≡ splice src x (byte_at ip s) o)
                    start
                    (subst
                      (λ x.
                        splice src (off % bsize) (s.blocks (addr_of ip s (off / bsize))) (o % bsize)
                        ≡ splice src (off / bsize * bsize + off % bsize) (byte_at ip s) x)
                      place
                      (splice_shift src (off / bsize * bsize) (off % bsize) (o % bsize)
                        (s.blocks (addr_of ip s (off / bsize))) (byte_at ip s)
                        (ap (λ b. s.blocks (addr_of ip s b) (o % bsize)) e
                          ∙ ap (byte_at ip s) (sym place)))))
            | no ne ↦
                let there : o / bsize * bsize < ip.size = omega (arith, lt) in
                let away : (o < off) ⊎ (off + length src ≤ o) = search (arith, ne, row) in
                rw (ne→== _ _ (λ e. ne (h.distinct _ _ here there e)))
                  (sym (splice_out src off (byte_at ip s) o away))
          ];
    }

Overwritten-trans :
    (ip : Inode) (s s' s'' : Store) (off m : ℕ) (src : List ℕ)
    → m ≤ length src
    → Overwritten ip s off (take m src) s'
    → Overwritten ip s' (off + m) (drop m src) s''
    → Overwritten ip s off src s''
Overwritten-trans ip s s' s'' off m src most w w' = record {
  addrs = λ bn. w'.addrs bn ∙ w.addrs bn;
  bytes = λ o lt.
      w'.bytes o lt
      ∙ splice_ext (drop m src) (off + m) o (byte_at ip s') (splice (take m src) off (byte_at ip s))
          (w.bytes o lt)
      ∙ splice-splice m src off (byte_at ip s) o most;
}

-- The loop, with more rounds than bytes.
write_loop-Overwritten :
    (fuel : ℕ) (sb : SuperBlock) (off : ℕ) (src : List ℕ) (ip : Inode) (s : Store)
    → length src < fuel
    → off + length src ≤ ip.size
    → HasBlocks ip s
    → (s' : Store) × (write_loop fuel sb off src ip s ≡ some (ip, s')) × Overwritten ip s off src s'
unfolding write_loop
write_loop-Overwritten zero sb off src ip s enough fit h = absurd (omega arith)
write_loop-Overwritten (suc fuel) sb off [] ip s enough fit h = (
  s,
  refl,
  record {
    addrs = λ bn. refl;
    bytes = λ o lt. sym (splice_out [] off (byte_at ip s) o (search arith));
  },
)
write_loop-Overwritten (suc fuel) sb off (c ∷ cs) ip s enough fit h =
    let m = chunk off (length (c ∷ cs)) in
    let b = addr_of ip s (off / bsize) in
    let s1 = write_block b (splice (take m (c ∷ cs)) (off % bsize) (s.blocks b)) s in
    let pos : 1 ≤ m = ground arith in
    let most : m ≤ length (c ∷ cs) = ground arith in
    let row : off % bsize + m ≤ bsize = ground arith in
    let front : length (take m (c ∷ cs)) ≡ m = length-take m (c ∷ cs) most in
    let back : length (drop m (c ∷ cs)) ≡ length (c ∷ cs) - m = length-drop m (c ∷ cs) in
    let w : Overwritten ip s off (take m (c ∷ cs)) s1 =
      write_block-Overwritten ip s off (take m (c ∷ cs)) h (omega arith) (omega arith)
        (omega arith) in
    let (s', e, w') =
      write_loop-Overwritten fuel sb (off + m) (drop m (c ∷ cs)) ip s1 (omega arith) (omega arith)
        (Overwritten-HasBlocks ip s off (take m (c ∷ cs)) s1 w h) in
    (
      s',
      rw
          (
            ne→== (length (c ∷ cs)) 0 (omega arith),
            bmap-Mapped sb (off / bsize) ip s (h.mapped (off / bsize) (omega arith)),
          )
          e,
      Overwritten-trans ip s s1 s' off m (c ∷ cs) most w w',
    )

pub content_ext :
    (n off : ℕ) (ip : Inode) (s s' : Store)
    → ((o : ℕ) → off ≤ o → o < off + n → byte_at ip s' o ≡ byte_at ip s o)
    → content ip s' off n ≡ content ip s off n
unfolding content
content_ext zero off ip s s' h = refl
content_ext (suc n) off ip s s' h =
    ap₂ ◌∷◌ (h off (omega arith) (omega arith))
      (content_ext n (off + 1) ip s s' (λ o low high. h o (omega arith) (omega arith)))

content_list :
    (src : List ℕ) (off : ℕ) (ip : Inode) (s : Store)
    → ((i : ℕ) → i < length src → byte_at ip s (off + i) ≡ get_or src i 0)
    → content ip s off (length src) ≡ src
unfolding content
content_list [] off ip s h = refl
content_list (c ∷ cs) off ip s h = ap₂ ◌∷◌ (ap (byte_at ip s) (omega arith) ∙ h 0 (omega arith)) (
    content_list cs (off + 1) ip s
      (λ i lt. ap (byte_at ip s) (omega arith) ∙ h (suc i) (omega arith)))

grow_inside :
    (sb : SuperBlock) (off n : ℕ) (ip : Inode) (s : Store)
    → off ≤ ip.size
    → grow sb off n (some (ip, s)) ≡ written ip s
unfolding grow
grow_inside sb off n ip s h = ground arith

writei_inside :
    (devsw : ℕ → Bool) (sb : SuperBlock) (off : ℕ) (src : List ℕ) (ip : Inode) (s s' : Store)
    → ip.type ≢ t_dev
    → ip.size ≤ maxfile * bsize
    → off + length src ≤ ip.size
    → write_loop (suc (length src)) sb off src ip s ≡ some (ip, s')
    → writei devsw sb off src ip s ≡ written ip s'
unfolding writei
writei_inside devsw sb off src ip s s' file limit inside e =
    let sum : add32 off (length src) ≡ off + length src = omega (arith, inside, limit) in
    rw
      (
        ne→== _ _ file,
        le→ltb ip.size off (omega arith),
        sum,
        le→ltb (off + length src) off (omega arith),
        le→ltb (maxfile * bsize) (off + length src) (omega arith),
        e,
      )
      (grow_inside sb (off + length src) (length src) ip s' inside)

-- `writei` inside a file whose blocks below the size all have an address of their own succeeds and
-- leaves the inode as it is. Then the bytes given stand in the file from the offset on and every
-- other byte below the size, and the address of every block, is what it was: for a file that is no
-- device and no longer than the code's limit.
pub writei-Overwritten :
    (devsw : ℕ → Bool) (sb : SuperBlock) (off : ℕ) (src : List ℕ) (ip : Inode) (s : Store)
    → ip.type ≢ t_dev
    → ip.size ≤ maxfile * bsize
    → off + length src ≤ ip.size
    → HasBlocks ip s
    → (s' : Store) × (writei devsw sb off src ip s ≡ written ip s') × Overwritten ip s off src s'
writei-Overwritten devsw sb off src ip s file limit inside h =
    let (s', e, w) =
      write_loop-Overwritten (suc (length src)) sb off src ip s (omega arith) inside h in
    (s', writei_inside devsw sb off src ip s s' file limit inside e, w)

-- What the file holds where the bytes were written.
pub Overwritten-content :
    (ip : Inode) (s : Store) (off : ℕ) (src : List ℕ) (s' : Store)
    → off + length src ≤ ip.size
    → Overwritten ip s off src s'
    → content ip s' off (length src) ≡ src
Overwritten-content ip s off src s' inside w = content_list src off ip s' (λ i lt.
    w.bytes (off + i) (omega arith)
    ∙ splice_in src off (byte_at ip s) (off + i) (omega arith) (omega arith)
    ∙ ap (λ k. get_or src k 0) (omega arith))

-- What `writei` has written inside a file, `readi` at the same offset and length returns: for a
-- file that is no device and no longer than the code's limit, with an address of its own for every
-- block below the size.
pub readi-writei :
    (devsw : ℕ → Bool) (sb : SuperBlock) (off : ℕ) (src : List ℕ) (ip : Inode) (s : Store)
    → ip.type ≢ t_dev
    → ip.size ≤ maxfile * bsize
    → off + length src ≤ ip.size
    → HasBlocks ip s
    → (s' : Store) × (writei devsw sb off src ip s ≡ written ip s')
      × (readi devsw sb off (length src) ip s' ≡ copied src ip s')
readi-writei devsw sb off src ip s file limit inside h =
    let (s', e, w) = writei-Overwritten devsw sb off src ip s file limit inside h in
    (
      s',
      e,
      readi-content devsw sb off (length src) ip s' file (omega arith) (omega (arith, limit))
            (Overwritten-HasBlocks ip s off src s' w h)
          ∙ ap (λ xs. copied xs ip s')
              (rw (le→ltb ip.size (off + length src) inside)
                (Overwritten-content ip s off src s' inside w)),
    )
