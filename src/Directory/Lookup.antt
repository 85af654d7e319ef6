-- ===== src/Directory/Lookup.antt =====
-- What `dirlookup` of xv6A1/fs.c finds.
use native.Mathlib.Decide.{ℕ_discrete}
use mathlib.Core.Logic.{◌↔◌}
use operating_system_design.Prelude.{
  ℕ, zero, suc, ◌+◌, ◌*◌, ◌/◌, ◌%◌, ◌<◌, ◌≤◌, ◌≡◌, ◌≢◌, refl, ◌∙◌, Bool, List, [], ◌∷◌, none, some,
  ltb, ◌==◌, arith, Bool-cases, inl, inr, eq→==, ==→eq, ==→ne, drop, le→ltb,
}
use operating_system_design.Fs.{SuperBlock, Store, bsize}
use operating_system_design.Inode.{Inode, maxfile, t_dev, copied, readi}
use operating_system_design.Inode.Content.{
  byte_at, content, HasBlocks, length-content, readi-content,
}
use operating_system_design.Text.Compare.{Bytes, prefix, strncmp_iff}
use operating_system_design.PathName.{dir_siz}
use operating_system_design.Directory.{
  t_dir, entry_size, entry_inum, entry_name, namecmp, Scan, lookup_loop, find_entry,
}

-- The bytes of the entry at an offset.
abbrev pub entry_at : Inode → Store → ℕ → List ℕ
entry_at dp s off = content dp s off entry_size

-- An entry in use whose name, up to 14 bytes or a NUL, is `name`.
abbrev pub Names : List ℕ → List ℕ → Type 0
Names name de = (entry_inum de ≢ 0) × (prefix name dir_siz ≡ prefix (entry_name de) dir_siz)

-- What a search from `off` on returns.
abbrev pub Result : List ℕ → ℕ → Inode → Store → Scan → Type 0
Result name off dp s none = ⊥
Result name off dp s (some (none, dp', s')) =
    (dp' ≡ dp)
    × (s' ≡ s)
    × ((k : ℕ) → off ≤ k → k < dp.size → k % entry_size ≡ 0 → ¬ Names name (entry_at dp s k))
Result name off dp s (some (some (j, inum), dp', s')) =
    (dp' ≡ dp)
    × (s' ≡ s)
    × (off ≤ j)
    × (j < dp.size)
    × (j % entry_size ≡ 0)
    × (inum ≡ entry_inum (entry_at dp s j))
    × Names name (entry_at dp s j)
    × ((k : ℕ) → off ≤ k → k < j → k % entry_size ≡ 0 → ¬ Names name (entry_at dp s k))

Bytes-content :
    (dp : Inode) (s : Store)
    → ((o : ℕ) → o < dp.size → byte_at dp s o < 256)
    → (n off : ℕ) → off + n ≤ dp.size
    → Bytes (content dp s off n)
unfolding content
Bytes-content dp s b zero off le = tt
Bytes-content dp s b (suc n) off le =
    (b off (omega (arith, le)), Bytes-content dp s b n (off + 1) (omega (arith, le)))

Bytes-drop : (n : ℕ) (xs : List ℕ) → Bytes xs → Bytes (drop n xs)
Bytes-drop zero xs h = h
Bytes-drop (suc n) [] h = tt
Bytes-drop (suc n) (x ∷ xs) h = Bytes-drop n xs h.1

-- An entry that does not match is passed.
pass :
    (name : List ℕ) (off : ℕ) (dp : Inode) (s : Store)
    → off % entry_size ≡ 0
    → ¬ Names name (entry_at dp s off)
    → (r : Scan) → Result name (off + entry_size) dp s r
    → Result name off dp s r
pass name off dp s al miss none h = absurd h
pass name off dp s al miss (some (none, dp', s')) h = (
  h.0,
  h.1,
  λ k low high e. elim (ℕ_discrete k off) [
    | yes q ↦ rw q miss
    | no ne ↦ h.2 k (omega (arith, al, e, ne, low)) high e
  ],
)
pass name off dp s al miss (some (some (j, inum), dp', s')) h = (
  h.0,
  h.1,
  omega (arith, h.2),
  h.3,
  h.4,
  h.5,
  h.6,
  λ k low high e. elim (ℕ_discrete k off) [
    | yes q ↦ rw q miss
    | no ne ↦ h.7 k (omega (arith, al, e, ne, low)) high e
  ],
)

module _ (devsw : ℕ → Bool) (sb : SuperBlock) (name : List ℕ) (dp : Inode) (s : Store)
    (names : Bytes name) (bytes : (o : ℕ) → o < dp.size → byte_at dp s o < 256)
    (file : dp.type ≢ t_dev) (limit : dp.size ≤ maxfile * bsize) (whole : dp.size % entry_size ≡ 0)
    (h : HasBlocks dp s) where
  pub readi-entry_at :
      (off : ℕ)
      → off % entry_size ≡ 0
      → off < dp.size
      → readi devsw sb off entry_size dp s ≡ copied (entry_at dp s off) dp s
  readi-entry_at off al lt =
      readi-content devsw sb off entry_size dp s file (omega arith) (omega (arith, limit)) h
      ∙ rw (le→ltb dp.size (off + entry_size) (omega (arith, al, whole))) refl

  compared :
      (off : ℕ)
      → off % entry_size ≡ 0
      → off < dp.size
      → (namecmp name (entry_name (entry_at dp s off)) ≡ 0)
        ↔ (prefix name dir_siz ≡ prefix (entry_name (entry_at dp s off)) dir_siz)
  compared off al lt = strncmp_iff name (entry_name (entry_at dp s off)) dir_siz names (
      Bytes-drop 2 (entry_at dp s off)
        (Bytes-content dp s bytes entry_size off (omega (arith, al, lt, whole))))

  lookup_loop-Result :
      (fuel off : ℕ)
      → off % entry_size ≡ 0
      → off ≤ dp.size
      → dp.size < off + entry_size * fuel
      → Result name off dp s (lookup_loop fuel devsw sb name off dp s)
  unfolding lookup_loop
  lookup_loop-Result zero off al low enough = absurd (omega arith)
  lookup_loop-Result (suc fuel) off al low enough = elim (Bool-cases (ltb off dp.size)) [
    | inr past ↦ rw past (refl, refl, λ k low high e. absurd (ground (arith, past)))
    | inl lt ↦
        let later =
          lookup_loop-Result fuel (off + entry_size) (omega (arith, al))
            (ground (arith, lt, al, whole)) (omega (arith, enough)) in
        rw
          (
            lt,
            readi-entry_at off al (ground (arith, lt)),
            eq→== _ _ (length-content dp s off entry_size),
          )
          (elim (Bool-cases (entry_inum (entry_at dp s off) == 0)) [
            | inl dead ↦ rw dead (
                pass name off dp s al (λ m. m.0 (==→eq _ _ dead))
                  (lookup_loop fuel devsw sb name (off + entry_size) dp s) later)
            | inr live ↦ elim (Bool-cases (namecmp name (entry_name (entry_at dp s off)) == 0)) [
              | inl hit ↦
                  rw (live, hit)
                    (
                      refl,
                      refl,
                      omega arith,
                      ground (arith, lt),
                      al,
                      refl,
                      (==→ne _ _ live, (compared off al (ground (arith, lt))).0 (==→eq _ _ hit)),
                      λ k above below. absurd (omega arith),
                    )
              | inr other ↦
                  rw (live, other)
                    (pass name off dp s al
                      (λ m. ==→ne _ _ other ((compared off al (ground (arith, lt))).1 m.1))
                      (lookup_loop fuel devsw sb name (off + entry_size) dp s) later)
            ]
          ])
  ]

pub find_entry-Result :
    (devsw : ℕ → Bool) (sb : SuperBlock) (name : List ℕ) (dp : Inode) (s : Store)
    → Bytes name
    → ((o : ℕ) → o < dp.size → byte_at dp s o < 256)
    → dp.type ≡ t_dir
    → dp.size ≤ maxfile * bsize
    → dp.size % entry_size ≡ 0
    → HasBlocks dp s
    → Result name 0 dp s (find_entry devsw sb name dp s)
unfolding find_entry
find_entry-Result devsw sb name dp s names bytes dir limit whole h = rw (eq→== _ _ dir) (
    lookup_loop-Result devsw sb name dp s names bytes (omega (arith, dir)) limit whole h
      (dp.size / entry_size + 1) 0 refl (omega arith) (omega arith))
