-- ===== src/Directory.antt =====
-- xv6A1/fs.c: the entries of a directory, read with `readi`.
pub mod Link
pub mod Lookup
use operating_system_design.Prelude.{
  ℕ, zero, suc, ◌+◌, ◌*◌, ◌/◌, ◌^◌, Bool, true, false, not, ◌||◌, List, [], ◌∷◌, ◌++◌, Option, none,
  some, ltb, ◌==◌, if◌then◌else◌, length, get_or, drop,
}
use operating_system_design.Fs.{SuperBlock, Store}
use operating_system_design.Inode.{
  Inode, Read, copied, failed, device, panics, readi, Write, written, writei, bytes16,
}
use operating_system_design.Text.{strncmp, strncpy}
use operating_system_design.PathName.{dir_siz}
use operating_system_design.Icache.{iget, iput}

-- `T_DIR`
abbrev pub t_dir : ℕ
t_dir = 1

-- `sizeof(struct dirent)`
abbrev pub entry_size : ℕ
entry_size = 16

-- `de.inum`
abbrev pub entry_inum : List ℕ → ℕ
entry_inum de = get_or de 0 0 + 2 ^ 8 * get_or de 1 0

-- `de.name`
abbrev pub entry_name : List ℕ → List ℕ
entry_name de = drop 2 de

abbrev pub namecmp : List ℕ → List ℕ → ℕ
namecmp s t = strncmp s t dir_siz

-- How the loop ends: with the offset and the number of an entry, or without one, and the directory
-- and the blocks as `readi` leaves them. `none` is the panic.
abbrev pub Scan : Type 0
Scan = Option (Option (ℕ × ℕ) × Inode × Store)

-- The loop of `dirlookup` from offset `off` on, with at most `fuel` rounds.
unfoldable pub lookup_loop : ℕ → (ℕ → Bool) → SuperBlock → List ℕ → ℕ → Inode → Store → Scan
lookup_loop zero devsw sb name off dp s = none
lookup_loop (suc fuel) devsw sb name off dp s =
    if ltb off dp.size
    then elim (readi devsw sb off entry_size dp s) [
      | failed ↦ none
      | device major ↦ none
      | panics ↦ none
      | copied de dp' s' ↦
          let later = lookup_loop fuel devsw sb name (off + entry_size) dp' s' in
          if not (length de == entry_size)
          then none
          else if entry_inum de == 0
          then later
          else if namecmp name (entry_name de) == 0
          then some (some (off, entry_inum de), dp', s')
          else later
    ]
    else some (none, dp, s)

-- `dirlookup` without its call of `iget`.
unfoldable pub find_entry : (ℕ → Bool) → SuperBlock → List ℕ → Inode → Store → Scan
find_entry devsw sb name dp s =
    if dp.type == t_dir then lookup_loop (dp.size / entry_size + 1) devsw sb name 0 dp s else none

-- `dirlookup`: the offset of the entry and a slot of the cache for its inode, if there is one.
unfoldable pub dirlookup :
    (ℕ → Bool)
    → SuperBlock
    → List ℕ
    → Inode
    → Store
    → List Inode
    → Option (Option (ℕ × ℕ) × List Inode × Inode × Store)
dirlookup devsw sb name dp s c = elim (find_entry devsw sb name dp s) [
  | none ↦ none
  | some (none, dp', s') ↦ some (none, c, dp', s')
  | some (some (off, inum), dp', s') ↦ elim (iget dp.dev inum c) [
    | none ↦ none
    | some (i, c') ↦ some (some (off, i), c', dp', s')
  ]
]

-- The second loop of `dirlink`: the offset to write at, behind the last entry if all are in use.
unfoldable pub entry_loop :
    ℕ → (ℕ → Bool) → SuperBlock → ℕ → Inode → Store → Option (ℕ × Inode × Store)
entry_loop zero devsw sb off dp s = none
entry_loop (suc fuel) devsw sb off dp s =
    if ltb off dp.size
    then elim (readi devsw sb off entry_size dp s) [
      | failed ↦ none
      | device major ↦ none
      | panics ↦ none
      | copied de dp' s' ↦
          let later = entry_loop fuel devsw sb (off + entry_size) dp' s' in
          if not (length de == entry_size)
          then none
          else if entry_inum de == 0
          then some (off, dp', s')
          else later
    ]
    else some (off, dp, s)

-- What `writei` returns to `dirlink`, which panics unless the whole entry was written.
abbrev pub linked : List Inode → Write → Option (Bool × List Inode × Inode × Store)
linked c (written dp s) = some (true, c, dp, s)
linked c failed = none
linked c (device major) = none
linked c panics = none

-- The bytes of `struct dirent`.
abbrev pub new_entry : List ℕ → ℕ → List ℕ
new_entry name inum = bytes16 inum ++ strncpy name dir_siz

-- `dirlink` behind its first test.
unfoldable pub add_entry :
    (ℕ → Bool)
    → SuperBlock
    → List ℕ
    → ℕ
    → Inode
    → Store
    → List Inode
    → Option (Bool × List Inode × Inode × Store)
add_entry devsw sb name inum dp s c = elim (entry_loop (dp.size / entry_size + 1) devsw sb 0 dp s) [
  | none ↦ none
  | some (off, dp', s') ↦ linked c (writei devsw sb off (new_entry name inum) dp' s')
]

-- `dirlink`: false for -1. The directory's slot is kept apart from the cache.
unfoldable pub dirlink :
    (ℕ → Bool)
    → SuperBlock
    → List ℕ
    → ℕ
    → Inode
    → Store
    → List Inode
    → Option (Bool × List Inode × Inode × Store)
dirlink devsw sb name inum dp s c = elim (dirlookup devsw sb name dp s c) [
  | none ↦ none
  | some (none, c', dp', s') ↦ add_entry devsw sb name inum dp' s' c'
  | some (some (off, i), c', dp', s') ↦ elim (iput sb i c' s') [
    | none ↦ none
    | some (c'', s'') ↦ some (false, c'', dp', s'')
  ]
]
