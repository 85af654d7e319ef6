-- ===== src/Icache.antt =====
-- xv6A1/fs.c: the cache of inodes, as the list of its slots, and what frees an inode on the disk.
-- The locks are left out: each function runs whole. `none` is a panic.
pub mod Slots
pub mod Owned
pub mod Trunc
pub mod Load
use operating_system_design.Prelude.{
  ℕ, zero, suc, ◌+◌, ◌*◌, ◌/◌, ◌%◌, ◌^◌, Bool, true, false, not, ◌&&◌, ◌||◌, Option, none, some,
  ◌⊎◌, inl, inr, List, [], ◌∷◌, ◌==◌, get_or, set, take, map, if◌then◌else◌, add32, sub32,
  is_nonpos, get32, get_words,
}
use operating_system_design.Fs.{SuperBlock, Store, bfree}
use operating_system_design.Inode.{Inode, ndirect, nindirect, ipb, iblock, iupdate}

abbrev pub null_inode : Inode
null_inode = record {
  dev = 0;
  inum = 0;
  ref = 0;
  valid = false;
  type = 0;
  major = 0;
  minor = 0;
  nlink = 0;
  size = 0;
  addrs = [];
}

abbrev pub inode_at : List Inode → ℕ → Inode
inode_at c i = get_or c i null_inode

abbrev pub is_inode : ℕ → ℕ → Inode → Bool
is_inode dev inum ip = ip.dev == dev && ip.inum == inum

-- The empty slot remembered behind slot `i`.
abbrev pub remember : ℕ → Inode → Option ℕ → Option ℕ
remember i ip (some e) = some e
remember i ip none = if ip.ref == 0 then some i else none

-- The loop of `iget` from slot `i` on: the slot of the inode, or else the empty slot.
unfoldable pub iget_loop : ℕ → ℕ → ℕ → Option ℕ → List Inode → ℕ ⊎ Option ℕ
iget_loop dev inum i empty [] = inr empty
iget_loop dev inum i empty (ip ∷ c) =
    let rest = iget_loop dev inum (i + 1) (remember i ip empty) c in
    if not (is_nonpos ip.ref) && is_inode dev inum ip then inl i else rest

-- `iget` behind its loop.
abbrev pub iget_slot : ℕ → ℕ → List Inode → ℕ ⊎ Option ℕ → Option (ℕ × List Inode)
iget_slot dev inum c (inl i) =
    some (i, set c i (record (inode_at c i) { ref = add32 (inode_at c i).ref 1 }))
iget_slot dev inum c (inr none) = none
iget_slot dev inum c (inr (some i)) =
    some (i, set c i (record (inode_at c i) { dev = dev; inum = inum; ref = 1; valid = false }))

-- `iget`: a slot of the cache.
unfoldable pub iget : ℕ → ℕ → List Inode → Option (ℕ × List Inode)
iget dev inum c = iget_slot dev inum c (iget_loop dev inum 0 none c)

unfoldable pub idup : ℕ → List Inode → List Inode
idup i c = set c i (record (inode_at c i) { ref = add32 (inode_at c i).ref 1 })

-- Fields of `struct dinode`.
abbrev pub get16 : (ℕ → ℕ) → ℕ → ℕ
get16 bytes o = bytes o + 2 ^ 8 * bytes (o + 1)

-- What `ilock` reads from the disk.
unfoldable pub load : SuperBlock → Store → Inode → Inode
load sb s ip =
    let bytes = s.blocks (iblock ip.inum sb) in
    let o = ip.inum % ipb * 64 in
    record ip {
      type = get16 bytes o;
      major = get16 bytes (o + 2);
      minor = get16 bytes (o + 4);
      nlink = get16 bytes (o + 6);
      size = get32 bytes (o + 8);
      addrs = get_words (ndirect + 1) bytes (o + 12);
      valid = true;
    }

unfoldable pub ilock : SuperBlock → Store → ℕ → List Inode → Option (List Inode)
ilock sb s i c =
    let ip = inode_at c i in
    let ip' = load sb s ip in
    if is_nonpos ip.ref
    then none
    else if ip.valid
    then some c
    else if ip'.type == 0
    then none
    else some (set c i ip')

-- The loops of `itrunc` over the addresses and over the entries of the indirect block.
unfoldable pub free_all : List ℕ → Store → Option Store
free_all [] s = some s
free_all (a ∷ addrs) s =
    if a == 0
    then free_all addrs s
    else elim (bfree a s) [ none ↦ none | some s' ↦ free_all addrs s' ]

-- The indirect block, `addr`, with what it lists.
unfoldable pub free_indirect : ℕ → Store → Option Store
free_indirect addr s =
    if addr == 0 then some s else elim (free_all (get_words nindirect (s.blocks addr) 0) s) [
      | none ↦ none
      | some s' ↦ bfree addr s'
    ]

-- The variable `sb` is an argument. `bfree` reads the superblock into it again.
unfoldable pub itrunc : SuperBlock → Inode → Store → Option (Inode × Store)
itrunc sb ip s = elim (free_all (take ndirect ip.addrs) s) [
  | none ↦ none
  | some s' ↦ elim (free_indirect (get_or ip.addrs ndirect 0) s') [
    | none ↦ none
    | some s'' ↦
        let ip' = record ip { addrs = map (λ a. 0) ip.addrs; size = 0 } in
        some (ip', iupdate sb ip' s'')
  ]
]

-- What `iput` does with an inode without links and without other references.
unfoldable pub free_inode : SuperBlock → Inode → Store → Option (Inode × Store)
free_inode sb ip s = elim (itrunc sb ip s) [
  | none ↦ none
  | some (ip', s') ↦
      let ip'' = record ip' { type = 0 } in some (record ip'' { valid = false }, iupdate sb ip'' s')
]

unfoldable pub iput : SuperBlock → ℕ → List Inode → Store → Option (List Inode × Store)
iput sb i c s =
    let ip = inode_at c i in
    let last =
      if ip.valid && (ip.nlink == 0 && ip.ref == 1) then free_inode sb ip s else some (ip, s) in
    elim last [
      | none ↦ none
      | some (ip', s') ↦ some (set c i (record ip' { ref = sub32 ip'.ref 1 }), s')
    ]
