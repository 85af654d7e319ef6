-- ===== src/Directory/Link.antt =====
-- `dirlink` of xv6A1/fs.c in a directory with an unused entry.
use native.Mathlib.Decide.{ℕ_discrete, dec_lt}
use mathlib.Core.Path.{subst}
use operating_system_design.Prelude.{
  ℕ, zero, suc, ◌+◌, ◌-◌, ◌*◌, ◌/◌, ◌%◌, ◌^◌, ◌<◌, ◌≤◌, ◌≡◌, ◌≢◌, ◌⊎◌, refl, sym, ap, ◌∙◌, Bool,
  true, List, [], ◌∷◌, none, some, arith, inl, inr, eq→==, ne→==, length, get_or, lt→ltb,
}
use operating_system_design.Fs.{SuperBlock, Store, bsize}
use operating_system_design.Inode.{Inode, maxfile, written, writei}
use operating_system_design.Inode.Content.{byte_at, content, HasBlocks, length-content}
use operating_system_design.Inode.Splice.{splice_in, splice_out}
use operating_system_design.Inode.Overwrite.{
  Overwritten, Overwritten-HasBlocks, Overwritten-content, content_ext, writei-Overwritten,
}
use operating_system_design.Text.Compare.{Bytes, strncpy-Padded}
use operating_system_design.PathName.{dir_siz}
use operating_system_design.Directory.{
  t_dir, entry_size, entry_inum, Scan, find_entry, entry_loop, new_entry, add_entry, dirlookup,
  dirlink,
}
use operating_system_design.Directory.Lookup.{
  entry_at, Names, Result, find_entry-Result, readi-entry_at,
}

new_entry-inum :
    (name : List ℕ) (inum : ℕ) → inum < 2 ^ 16 → entry_inum (new_entry name inum) ≡ inum
new_entry-inum name inum small = omega (arith, small)

length-new_entry : (name : List ℕ) (inum : ℕ) → length (new_entry name inum) ≡ entry_size
length-new_entry name inum = omega (arith, (strncpy-Padded name dir_siz (omega arith)).size)

Bytes-new_entry : (name : List ℕ) (inum : ℕ) → Bytes name → Bytes (new_entry name inum)
Bytes-new_entry name inum b =
    (omega arith, (omega arith, (strncpy-Padded name dir_siz (omega arith)).bytes b))

get_or-Bytes : (xs : List ℕ) (i : ℕ) → Bytes xs → get_or xs i 0 < 256
get_or-Bytes [] i b = omega arith
get_or-Bytes (x ∷ xs) zero b = b.0
get_or-Bytes (x ∷ xs) (suc i) b = get_or-Bytes xs i b.1

new_entry-Names :
    (name : List ℕ) (inum : ℕ) → inum < 2 ^ 16 → inum ≢ 0 → Names name (new_entry name inum)
new_entry-Names name inum small ne = (
  λ e. ne (sym (new_entry-inum name inum small) ∙ e),
  sym (strncpy-Padded name dir_siz (omega arith)).text,
)

-- The entry written, and the others, after a write of one entry.
module _ (dp : Inode) (s s' : Store) (off : ℕ) (de : List ℕ) (size : length de ≡ entry_size)
    (al : off % entry_size ≡ 0) (whole : dp.size % entry_size ≡ 0)
    (w : Overwritten dp s off de s') where
  entry_at_other :
      (k : ℕ) → k % entry_size ≡ 0 → k < dp.size → k ≢ off → entry_at dp s' k ≡ entry_at dp s k
  entry_at_other k e lt ne = content_ext entry_size k dp s s' (λ o low high.
      let away : (o < off) ⊎ (off + length de ≤ o) = search (arith, ne, al, e, low, high, size) in
      w.bytes o (omega (arith, lt, e, whole, high)) ∙ splice_out de off (byte_at dp s) o away)

  kept_below :
      Bytes de
      → ((o : ℕ) → o < dp.size → byte_at dp s o < 256)
      → (o : ℕ) → o < dp.size
      → byte_at dp s' o < 256
  kept_below b old o lt = elim (dec_lt o off) [
    | yes below ↦ rw (w.bytes o lt ∙ splice_out de off (byte_at dp s) o (inl below)) (old o lt)
    | no low ↦ elim (dec_lt o (off + length de)) [
      | yes within ↦
          rw (w.bytes o lt ∙ splice_in de off (byte_at dp s) o (omega arith) within)
            (get_or-Bytes de (o - off) b)
      | no above ↦
          rw (w.bytes o lt ∙ splice_out de off (byte_at dp s) o (inr (omega arith))) (old o lt)
    ]
  ]

module _ (devsw : ℕ → Bool) (sb : SuperBlock) (name : List ℕ) (dp : Inode) (s : Store)
    (names : Bytes name) (bytes : (o : ℕ) → o < dp.size → byte_at dp s o < 256)
    (dir : dp.type ≡ t_dir) (limit : dp.size ≤ maxfile * bsize) (whole : dp.size % entry_size ≡ 0)
    (h : HasBlocks dp s) where
  entry_loop-finds :
      (fuel off k : ℕ)
      → off % entry_size ≡ 0
      → dp.size < off + entry_size * fuel
      → off ≤ k
      → k < dp.size
      → k % entry_size ≡ 0
      → entry_inum (entry_at dp s k) ≡ 0
      → (j : ℕ) × (entry_loop fuel devsw sb off dp s ≡ some (j, dp, s))
        × (j % entry_size ≡ 0)
        × (j < dp.size)
        × (entry_inum (entry_at dp s j) ≡ 0)
  unfolding entry_loop
  entry_loop-finds zero off k al enough low high e free = absurd (omega arith)
  entry_loop-finds (suc fuel) off k al enough low high e free =
      let read =
        readi-entry_at devsw sb name dp s names bytes (omega (arith, dir)) limit whole h off al
          (omega arith) in
      let size = eq→== _ _ (length-content dp s off entry_size) in
      elim (ℕ_discrete (entry_inum (entry_at dp s off)) 0) [
        | yes here ↦ (
          off,
          rw (lt→ltb off dp.size (omega arith), read, size, eq→== _ _ here) refl,
          al,
          omega arith,
          here,
        )
        | no live ↦
            let ne : k ≢ off =
              (λ q. live (ap (λ x. entry_inum (entry_at dp s x)) (sym q) ∙ free)) in
            let (j, run, aligned, inside, unused) =
              entry_loop-finds fuel (off + entry_size) k (omega (arith, al)) (omega (arith, enough))
                (omega (arith, low, ne, al, e)) high e free in
            (
              j,
              rw (lt→ltb off dp.size (omega arith), read, size, ne→== _ _ live) run,
              aligned,
              inside,
              unused,
            )
      ]

  -- A search after the write.
  found_again :
      (inum off : ℕ) (s' : Store)
      → inum < 2 ^ 16
      → inum ≢ 0
      → off % entry_size ≡ 0
      → off < dp.size
      → Overwritten dp s off (new_entry name inum) s'
      → ((k : ℕ) → k < dp.size → k % entry_size ≡ 0 → ¬ Names name (entry_at dp s k))
      → (r : Scan) → Result name 0 dp s' r
      → r ≡ some (some (off, inum), dp, s')
  found_again inum off s' small ne al lt w none_yet = from
    where
      here : entry_at dp s' off ≡ new_entry name inum
      here =
          let size = length-new_entry name inum in
          subst (λ n. content dp s' off n ≡ new_entry name inum) size
            (Overwritten-content dp s off (new_entry name inum) s'
              (omega (arith, size, al, lt, whole)) w)

      from : (r : Scan) → Result name 0 dp s' r → r ≡ some (some (off, inum), dp, s')
      from none x = absurd x
      from (some (none, dp', t)) x =
          absurd (x.2 off (omega arith) lt al (rw here (new_entry-Names name inum small ne)))
      from (some (some (j, i), dp', t)) x = elim (ℕ_discrete j off) [
        | yes e ↦
            let number : i ≡ inum =
              x.5
              ∙ ap (λ k. entry_inum (entry_at dp s' k)) e
              ∙ ap entry_inum here
              ∙ new_entry-inum name inum small in
            rw (x.0, x.1, e, number) refl
        | no other ↦ absurd (
            none_yet j x.3 x.4 (
              subst (Names name)
                (entry_at_other dp s s' off (new_entry name inum) (length-new_entry name inum) al
                  whole w j x.4 x.3 other)
                x.6))
      ]

dirlink_runs :
    (devsw : ℕ → Bool) (sb : SuperBlock) (name : List ℕ) (inum : ℕ) (dp : Inode) (s : Store)
    (c : List Inode) (off : ℕ) (s' : Store)
    → find_entry devsw sb name dp s ≡ some (none, dp, s)
    → entry_loop (dp.size / entry_size + 1) devsw sb 0 dp s ≡ some (off, dp, s)
    → writei devsw sb off (new_entry name inum) dp s ≡ written dp s'
    → dirlink devsw sb name inum dp s c ≡ some (true, c, dp, s')
unfolding dirlink dirlookup add_entry
dirlink_runs devsw sb name inum dp s c off s' absent free wrote =
    rw (dirlink, dirlookup, absent, add_entry, free, wrote) refl

-- `dirlink` of a name that the directory does not have, in a directory with an unused entry,
-- succeeds, and then a search for the name finds an entry with the number given, and every other
-- entry is what it was: for a number from 1 to 2 ^ 16 - 1, under the conditions of such a search,
-- which are a name and a content of bytes, a size that is a number of whole entries and at most
-- the code's limit, and an address of its own for every block below the size.
pub dirlink-find_entry :
    (devsw : ℕ → Bool) (sb : SuperBlock) (name : List ℕ) (inum : ℕ) (dp : Inode) (s : Store)
    (c : List Inode) (k : ℕ)
    → inum < 2 ^ 16
    → inum ≢ 0
    → Bytes name
    → ((o : ℕ) → o < dp.size → byte_at dp s o < 256)
    → dp.type ≡ t_dir
    → dp.size ≤ maxfile * bsize
    → dp.size % entry_size ≡ 0
    → HasBlocks dp s
    → find_entry devsw sb name dp s ≡ some (none, dp, s)
    → k < dp.size
    → k % entry_size ≡ 0
    → entry_inum (entry_at dp s k) ≡ 0
    → (off : ℕ) × (s' : Store) × (dirlink devsw sb name inum dp s c ≡ some (true, c, dp, s'))
      × (find_entry devsw sb name dp s' ≡ some (some (off, inum), dp, s'))
      × ((j : ℕ) → j < dp.size → j % entry_size ≡ 0 → j ≢ off → entry_at dp s' j ≡ entry_at dp s j)
dirlink-find_entry devsw sb name inum dp s c k small ne names bytes dir limit whole h absent high e
      free =
    let none_yet =
      (subst (Result name 0 dp s) absent
        (find_entry-Result devsw sb name dp s names bytes dir limit whole h)).2 in
    let (off, run, al, lt, _) =
      entry_loop-finds devsw sb name dp s names bytes dir limit whole h (dp.size / entry_size + 1) 0
        k refl (omega arith) (omega arith) high e free in
    let size = length-new_entry name inum in
    let (s', wrote, w) =
      writei-Overwritten devsw sb off (new_entry name inum) dp s (omega (arith, dir)) limit
        (omega (arith, size, al, lt, whole)) h in
    let bytes' =
      kept_below dp s s' off (new_entry name inum) size al whole w (Bytes-new_entry name inum names)
        bytes in
    let result =
      find_entry-Result devsw sb name dp s' names bytes' dir limit whole
        (Overwritten-HasBlocks dp s off (new_entry name inum) s' w h) in
    (
      off,
      s',
      dirlink_runs devsw sb name inum dp s c off s' absent run wrote,
      found_again devsw sb name dp s names bytes dir limit whole h inum off s' small ne al lt w
          (λ j l a. none_yet j (omega arith) l a) (find_entry devsw sb name dp s') result,
      λ j l a other. entry_at_other dp s s' off (new_entry name inum) size al whole w j a l other,
    )
