-- ===== src/Tests/FsRuns.antt =====
-- Runs of the file system's parts.
use operating_system_design.Prelude.{
  ◌%◌, ℕ, zero, suc, ◌<◌, ◌≡◌, ◌≢◌, refl, true, false, ◌⊎◌, List, [], ◌∷◌, none, some, ◌==◌,
  if◌then◌else◌, replicate, arith,
}
use operating_system_design.Fs.{SuperBlock, Store, balloc, balloc_loop, find_bit, take_bit, bfree}
use operating_system_design.Fs.Bitmap.{HasBitmap, Allocated, used, balloc_lem}
use operating_system_design.Fs.Release.{HasSuper, bfree-balloc}
use operating_system_design.Inode.{
  read_loop, read_result, bmap, map_slot, slice, Inode, copied, written, readi, writei, iupdate,
}
use operating_system_design.Inode.Content.{content, HasBlocks, addr_of, Mapped}
use operating_system_design.Inode.Overwrite.{readi-writei}
use operating_system_design.Icache.Owned.{Owned}
use operating_system_design.Icache.Trunc.{file_blocks, Truncated, itrunc-Truncated}
use operating_system_design.Icache.{itrunc, null_inode, iget, load}
use operating_system_design.Icache.Slots.{Small, Got, iget-Got}
use operating_system_design.Icache.Load.{Sized, reloaded, load-iupdate}
use operating_system_design.Directory.{find_entry, lookup_loop, dirlink, entry_inum}
use operating_system_design.Directory.Link.{dirlink-find_entry}
use operating_system_design.Text.{strncmp}
use operating_system_design.Directory.Lookup.{entry_at}

abbrev small_disk : SuperBlock
small_disk = record {
  size = 20;
  nblocks = 10;
  ninodes = 8;
  nlog = 0;
  logstart = 2;
  inodestart = 2;
  bmapstart = 3;
}

-- Block 1 with this superblock.
abbrev super_bytes : ℕ → ℕ
super_bytes i =
    if i == 0
    then 20
    else if i == 4
    then 10
    else if i == 8
    then 8
    else if i == 16
    then 2
    else if i == 20
    then 2
    else if i == 24
    then 3
    else 0

-- Blocks 0 to 3 are in use.
abbrev four_used : Store
four_used = record {
  blocks = λ x i. if x == 1 then super_bytes i else if x == 3 then if i == 0 then 15 else 0 else 0;
  logged = [];
}

four_used-HasSuper : HasSuper small_disk four_used
four_used-HasSuper = record { read = refl; below = omega arith }

four_used-HasBitmap : HasBitmap small_disk four_used
four_used-HasBitmap = record {
  bytes = λ x i. ground arith;
  reserved = λ x lt low high. reserved_block x (omega (arith, low, high));
}
  where
    reserved_block : (x : ℕ) → x ≡ 3 → used small_disk four_used x ≡ true
    reserved_block x e = rw e refl

abbrev five_used : Store
five_used = (take_bit small_disk 0 4 four_used).1

balloc-four_used : balloc small_disk four_used ≡ some (4, five_used)
unfolding balloc balloc_loop find_bit take_bit
balloc-four_used = refl

balloc_example :
    ((b : ℕ) × (s' : Store) × (balloc small_disk four_used ≡ some (b, s'))
      × Allocated small_disk four_used b s')
    ⊎ ((balloc small_disk four_used ≡ none)
        × ((x : ℕ) → x < 20 → used small_disk four_used x ≡ true))
balloc_example = balloc_lem small_disk four_used four_used-HasBitmap

bfree-balloc_example :
    (s'' : Store) × (bfree 4 five_used ≡ some s'')
    × ((x : ℕ) → x < 20 → used small_disk s'' x ≡ used small_disk four_used x)
bfree-balloc_example =
    bfree-balloc small_disk four_used five_used 4 four_used-HasBitmap four_used-HasSuper refl
      balloc-four_used

-- A file of 32 bytes in block 7.
abbrev short_file : Inode
short_file = record null_inode {
  dev = 1;
  inum = 5;
  ref = 1;
  valid = true;
  type = 1;
  nlink = 1;
  size = 32;
  addrs = 7 ∷ replicate 12 0;
}

-- In block 7, the entry of inode 1 with the name `.`, and an unused entry.
abbrev one_entry : Store
one_entry = record { blocks = λ x i. if i == 0 then 1 else if i == 2 then 46 else 0; logged = [] }

short_file-HasBlocks : HasBlocks short_file one_entry
short_file-HasBlocks = record {
  mapped = λ bn lt. only_block bn (omega arith);
  distinct = λ b c lb lc e. omega arith;
  apart = λ bn lt. rw (first_block bn (omega arith)) (λ e. absurd (omega (arith, e)));
}
  where
    first_block : (bn : ℕ) → bn ≡ 0 → addr_of short_file one_entry bn ≡ 7
    first_block bn e = rw e refl

    only_block : (bn : ℕ) → bn ≡ 0 → Mapped short_file one_entry bn
    only_block bn e = record {
      small = omega (arith, e);
      found = rw (first_block bn e) (λ f. absurd (omega (arith, f)));
      indirect = λ low. absurd (omega (arith, e));
    }

readi-writei_example :
    (s' : Store) × (writei (λ m. false) small_disk 3 (65 ∷ (66 ∷ [])) short_file one_entry
      ≡ written short_file s')
    × (readi (λ m. false) small_disk 3 2 short_file s' ≡ copied (65 ∷ (66 ∷ [])) short_file s')
readi-writei_example =
    readi-writei (λ m. false) small_disk 3 (65 ∷ (66 ∷ [])) short_file one_entry
      (λ e. absurd (omega (arith, e))) (omega arith) (omega arith) short_file-HasBlocks

short_file-Sized : Sized short_file
short_file-Sized = record {
  type = omega arith;
  major = omega arith;
  minor = omega arith;
  nlink = omega arith;
  size = omega arith;
  entries = refl;
  addrs = (
    omega arith,
    (
      omega arith,
      (
        omega arith,
        (
          omega arith,
          (
            omega arith,
            (
              omega arith,
              (
                omega arith,
                (
                  omega arith,
                  (omega arith, (omega arith, (omega arith, (omega arith, (omega arith, tt))))),
                ),
              ),
            ),
          ),
        ),
      ),
    ),
  );
}

load-iupdate_example :
    (short_file.inum ≡ short_file.inum
      → load small_disk (iupdate small_disk short_file one_entry) short_file
        ≡ reloaded short_file short_file)
    × (short_file.inum ≢ short_file.inum
        → load small_disk (iupdate small_disk short_file one_entry) short_file
          ≡ load small_disk one_entry short_file)
load-iupdate_example = load-iupdate small_disk short_file short_file one_entry short_file-Sized

-- One slot in use and one empty.
abbrev two_slots : List Inode
two_slots = short_file ∷ (null_inode ∷ [])

two_slots-Small : Small two_slots
two_slots-Small zero = omega arith
two_slots-Small (suc zero) = omega arith
two_slots-Small (suc (suc i)) = omega arith

iget-Got_example : Got 1 9 two_slots (iget 1 9 two_slots)
iget-Got_example = iget-Got 1 9 two_slots two_slots-Small (λ d k. ground arith)

-- Blocks 0 to 4 are in use, and block 4 is the file's.
abbrev fifth_used : Store
fifth_used = record {
  blocks = λ x i. if x == 1 then super_bytes i else if x == 3 then if i == 0 then 31 else 0 else 0;
  logged = [];
}

fifth_used-HasSuper : HasSuper small_disk fifth_used
fifth_used-HasSuper = record { read = refl; below = omega arith }

abbrev file_at_four : Inode
file_at_four = record short_file { addrs = 4 ∷ replicate 12 0 }

file_at_four-Owned : Owned small_disk fifth_used (file_blocks file_at_four fifth_used)
file_at_four-Owned = (
  (λ ne. (omega arith, refl, refl)),
  (
    (λ ne. absurd (ne refl)),
    (
      (λ ne. absurd (ne refl)),
      (
        (λ ne. absurd (ne refl)),
        (
          (λ ne. absurd (ne refl)),
          (
            (λ ne. absurd (ne refl)),
            (
              (λ ne. absurd (ne refl)),
              (
                (λ ne. absurd (ne refl)),
                (
                  (λ ne. absurd (ne refl)),
                  (
                    (λ ne. absurd (ne refl)),
                    ((λ ne. absurd (ne refl)), ((λ ne. absurd (ne refl)), tt)),
                  ),
                ),
              ),
            ),
          ),
        ),
      ),
    ),
  ),
)

itrunc-Truncated_example :
    (ip' : Inode) × (s' : Store) × (itrunc small_disk file_at_four fifth_used ≡ some (ip', s'))
    × Truncated small_disk file_at_four fifth_used ip' s'
itrunc-Truncated_example =
    itrunc-Truncated small_disk file_at_four fifth_used (λ x i. ground arith) fifth_used-HasSuper
      file_at_four-Owned (λ (b, lt, e). absurd (omega (arith, e)))
      (λ (b, lt, e). absurd (omega (arith, e)))

no_such_name :
    find_entry (λ m. false) small_disk (97 ∷ []) short_file one_entry
    ≡ some (none, short_file, one_entry)
unfolding find_entry lookup_loop readi read_loop read_result bmap map_slot slice strncmp
no_such_name = refl

unused_entry : entry_inum (entry_at short_file one_entry 16) ≡ 0
unfolding content
unused_entry = refl

dirlink-find_entry_example :
    (off : ℕ) × (s' : Store) × (dirlink
        (λ m. false)
        small_disk
        (97 ∷ [])
        6
        short_file
        one_entry
        two_slots
      ≡ some (true, two_slots, short_file, s'))
    × (find_entry (λ m. false) small_disk (97 ∷ []) short_file s'
        ≡ some (some (off, 6), short_file, s'))
    × ((j : ℕ)
        → j < 32
        → j % 16 ≡ 0
        → j ≢ off
        → entry_at short_file s' j ≡ entry_at short_file one_entry j)
dirlink-find_entry_example =
    dirlink-find_entry (λ m. false) small_disk (97 ∷ []) 6 short_file one_entry two_slots 16
      (omega arith) (λ e. absurd (omega (arith, e))) (omega arith, tt) (λ o lt. ground arith) refl
      (omega arith) refl short_file-HasBlocks no_such_name (omega arith) refl unused_entry
