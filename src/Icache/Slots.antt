-- ===== src/Icache/Slots.antt =====
-- The references of xv6A1/fs.c's cache of inodes.
use mathlib.Core.Path.{subst}
use mathlib.Core.Option.{none-ne-some, some-injective}
use operating_system_design.Prelude.{
  ℕ, zero, suc, ◌+◌, ◌-◌, ◌^◌, ◌<◌, ◌≤◌, ◌≡◌, ◌≢◌, refl, sym, ap, ◌∙◌, true, false, not, ◌&&◌,
  Option, none, some, ◌⊎◌, List, [], ◌∷◌, ◌==◌, if◌then◌else◌, add32, arith, Bool-cases, inl, inr,
  ==→eq, eq→==, ==-refl, length, set, get_or-set_self, get_or-set_ne, total, total-set, is_nonpos,
}
use operating_system_design.Inode.{Inode}
use operating_system_design.Icache.{
  null_inode, inode_at, is_inode, remember, iget_loop, iget_slot, iget,
}

-- The references to an inode that a slot counts, and 1 for a slot in use for it.
abbrev pub share : ℕ → ℕ → Inode → ℕ
share d k ip = if is_inode d k ip then ip.ref else 0

abbrev pub entry : ℕ → ℕ → Inode → ℕ
entry d k ip = if is_inode d k ip then (if ip.ref == 0 then 0 else 1) else 0

abbrev pub same : ℕ → ℕ → ℕ → ℕ → ℕ
same d k d' k' = if d == d' && k == k' then 1 else 0

-- No count is negative or about to be.
abbrev pub Small : List Inode → Type 0
Small c = (i : ℕ) → (inode_at c i).ref + 1 < 2 ^ 31

-- What the loop finds from slot `i` on, having passed the slots before, `empty` among them.
abbrev Scanned : ℕ → ℕ → ℕ → Option ℕ → List Inode → ℕ ⊎ Option ℕ → Type 0
Scanned dev inum i empty c (inl j) =
    (i ≤ j)
    × (j < i + length c)
    × ((inode_at c (j - i)).ref ≢ 0)
    × (is_inode dev inum (inode_at c (j - i)) ≡ true)
Scanned dev inum i empty c (inr none) =
    (empty ≡ none)
    × (total (entry dev inum) c ≡ 0)
    × ((j : ℕ) → j < length c → (inode_at c j).ref ≢ 0)
Scanned dev inum i empty c (inr (some j)) =
    (total (entry dev inum) c ≡ 0)
    × ((empty ≡ some j) ⊎ ((i ≤ j) × (j < i + length c) × ((inode_at c (j - i)).ref ≡ 0)))

iget_loop-Scanned :
    (dev inum i : ℕ) (empty : Option ℕ) (c : List Inode)
    → ((j : ℕ) → (inode_at c j).ref < 2 ^ 31)
    → Scanned dev inum i empty c (iget_loop dev inum i empty c)
unfolding iget_loop
iget_loop-Scanned dev inum i none [] small = (refl, refl, λ j lt. absurd (omega arith))
iget_loop-Scanned dev inum i (some e) [] small = (refl, inl refl)
iget_loop-Scanned dev inum i empty (ip ∷ c) small =
    elim (Bool-cases (not (is_nonpos ip.ref) && is_inode dev inum ip)) [
      | inl found ↦
          let z : i - i ≡ 0 = omega arith in
          rw (found, z) (omega arith, omega arith, ground (arith, found), ground (arith, found))
      | inr other ↦ rw other (
          from empty (ground (arith, small 0, other))
            (iget_loop dev inum (i + 1) (remember i ip empty) c)
            (iget_loop-Scanned dev inum (i + 1) (remember i ip empty) c (λ j. small (suc j))))
    ]
  where
    all :
        ip.ref ≢ 0
        → ((j : ℕ) → j < length c → (inode_at c j).ref ≢ 0)
        → (j : ℕ) → j < suc (length c)
        → (inode_at (ip ∷ c) j).ref ≢ 0
    all busy rest zero lt = busy
    all busy rest (suc j) lt = rest j (omega arith)

    shift :
        (j : ℕ)
        → (i + 1 ≤ j) × (j < i + 1 + length c) × ((inode_at c (j - (i + 1))).ref ≡ 0)
        → (i ≤ j) × (j < i + suc (length c)) × ((inode_at (ip ∷ c) (j - i)).ref ≡ 0)
    shift j h =
        let z : j - i ≡ suc (j - (i + 1)) = omega (arith, h.0) in
        (omega (arith, h.0), omega (arith, h.1), rw z h.2)

    from :
        (empty : Option ℕ)
        → entry dev inum ip ≡ 0
        → (r : ℕ ⊎ Option ℕ) → Scanned dev inum (i + 1) (remember i ip empty) c r
        → Scanned dev inum i empty (ip ∷ c) r
    from empty miss (inl j) f =
        let z : j - i ≡ suc (j - (i + 1)) = omega (arith, f.0) in
        rw z (omega (arith, f.0), omega (arith, f.1), f.2, f.3)
    from none miss (inr none) f =
        let busy : ip.ref ≢ 0 = (λ e.
          let r : remember i ip none ≡ some i = rw (eq→== _ _ e) refl in
          none-ne-some i (sym f.0 ∙ r)) in
        (refl, omega (arith, miss, f.1), λ j lt. all busy f.2 j lt)
    from (some e) miss (inr none) f = absurd (none-ne-some e (sym f.0))
    from none miss (inr (some j)) f = (
      omega (arith, miss, f.0),
      elim f.1 [
        | inr later ↦ inr (shift j later)
        | inl q ↦ elim (Bool-cases (ip.ref == 0)) [
          | inl free ↦
              let r : remember i ip none ≡ some i = rw free refl in
              let here : i ≡ j = some-injective i j (sym r ∙ q) in
              let z : j - i ≡ 0 = omega (arith, here) in
              inr (omega (arith, here), omega (arith, here), rw z (==→eq _ _ free))
          | inr busy ↦
              let r : remember i ip none ≡ none = rw busy refl in
              absurd (none-ne-some j (sym r ∙ q))
        ]
      ],
    )
    from (some e) miss (inr (some j)) f =
        (omega (arith, miss, f.0), elim f.1 [ inl q ↦ inl q | inr later ↦ inr (shift j later) ])

-- A slot of the inode is returned, the inode has a reference more, and no inode two slots.
pub record Referenced (dev inum : ℕ) (c : List Inode) (i : ℕ) (c' : List Inode) : Type 0 where
  pub inside : i < length c
  pub slot : is_inode dev inum (inode_at c' i) ≡ true
  pub counts : (d k : ℕ) → total (share d k) c' ≡ total (share d k) c + same dev inum d k
  pub unique : (d k : ℕ) → total (entry d k) c' ≤ 1
  pub others : (j : ℕ) → j ≢ i → inode_at c' j ≡ inode_at c j

-- What `iget` leaves.
abbrev pub Got : ℕ → ℕ → List Inode → Option (ℕ × List Inode) → Type 0
Got dev inum c none =
    (total (entry dev inum) c ≡ 0) × ((j : ℕ) → j < length c → (inode_at c j).ref ≢ 0)
Got dev inum c (some (i, c')) = Referenced dev inum c i c'

-- A slot written.
set-Referenced :
    (dev inum : ℕ) (c : List Inode) (i : ℕ) (new : Inode)
    → i < length c
    → is_inode dev inum new ≡ true
    → ((d k : ℕ) → share d k new ≡ share d k (inode_at c i) + same dev inum d k)
    → ((d k : ℕ) → total (entry d k) c + entry d k new ≤ 1 + entry d k (inode_at c i))
    → Referenced dev inum c i (set c i new)
set-Referenced dev inum c i new lt is more most = record {
  inside = lt;
  slot = ap (is_inode dev inum) (get_or-set_self c i new null_inode lt) ∙ is;
  counts = λ d k. omega (arith, total-set (share d k) i c new null_inode lt, more d k);
  unique = λ d k. omega (arith, total-set (entry d k) i c new null_inode lt, most d k);
  others = λ j ne. get_or-set_ne c i j new null_inode (λ e. ne (sym e));
}

more_refs :
    (dev inum : ℕ) (ip : Inode) (n : ℕ)
    → is_inode dev inum ip ≡ true
    → n ≡ ip.ref + 1
    → (d k : ℕ) → share d k (record ip { ref = n }) ≡ share d k ip + same dev inum d k
more_refs dev inum ip n here e d k = ground (arith, here, e)

still_entry :
    (ip : Inode) (n : ℕ)
    → ip.ref ≢ 0
    → n ≡ ip.ref + 1
    → (d k : ℕ) → entry d k (record ip { ref = n }) ≡ entry d k ip
still_entry ip n live e d k = ground (arith, live, e)

first_entry :
    (dev inum : ℕ) (c : List Inode) (d k : ℕ)
    → total (entry dev inum) c ≡ 0
    → total (entry d k) c ≤ 1
    → total (entry d k) c + same dev inum d k ≤ 1
first_entry dev inum c d k none_yet u = elim (Bool-cases (dev == d && inum == k)) [
  | inl e ↦
      let eqs : (dev ≡ d) × (inum ≡ k) = (ground (arith, e), ground (arith, e)) in
      let old : total (entry d k) c ≡ 0 = rw (← eqs.0, ← eqs.1) none_yet in
      rw e (omega (arith, old))
  | inr other ↦ rw other (omega (arith, u))
]

iget_slot-Got :
    (dev inum : ℕ) (c : List Inode)
    → Small c
    → ((d k : ℕ) → total (entry d k) c ≤ 1)
    → (r : ℕ ⊎ Option ℕ) → Scanned dev inum 0 none c r
    → Got dev inum c (iget_slot dev inum c r)
iget_slot-Got dev inum c small u (inl i) s =
    let z : i - 0 ≡ i = omega arith in
    let ip = inode_at c i in
    let up : add32 ip.ref 1 ≡ ip.ref + 1 = omega (arith, small i) in
    let live : ip.ref ≢ 0 = subst (λ j. (inode_at c j).ref ≢ 0) z s.2 in
    let here : is_inode dev inum ip ≡ true =
      subst (λ j. is_inode dev inum (inode_at c j) ≡ true) z s.3 in
    set-Referenced dev inum c i (record ip { ref = add32 ip.ref 1 }) (omega (arith, s.1)) here
      (more_refs dev inum ip (add32 ip.ref 1) here up)
      (λ d k. omega (arith, still_entry ip (add32 ip.ref 1) live up d k, u d k))
iget_slot-Got dev inum c small u (inr none) s = (s.1, s.2)
iget_slot-Got dev inum c small u (inr (some i)) s = elim s.1 [
  | inl e ↦ absurd (none-ne-some i e)
  | inr h ↦
      let z : i - 0 ≡ i = omega arith in
      let free : (inode_at c i).ref ≡ 0 = subst (λ j. (inode_at c j).ref ≡ 0) z h.2 in
      set-Referenced dev inum c i
        (record (inode_at c i) { dev = dev; inum = inum; ref = 1; valid = false })
        (omega (arith, h.1)) (rw (==-refl dev, ==-refl inum) refl) (λ d k. ground (arith, free))
        (λ d k. omega (arith, first_entry dev inum c d k s.0 (u d k)))
]

-- `iget` panics only when no slot is in use for the inode and every slot is in use. Else it
-- returns a slot of the inode, with a reference more to this inode and none more to any other, the
-- other slots as they were, and no inode with two slots in use: where no inode had two before and
-- no count is negative or about to be.
pub iget-Got :
    (dev inum : ℕ) (c : List Inode)
    → Small c
    → ((d k : ℕ) → total (entry d k) c ≤ 1)
    → Got dev inum c (iget dev inum c)
unfolding iget
iget-Got dev inum c small u =
    iget_slot-Got dev inum c small u (iget_loop dev inum 0 none c)
      (iget_loop-Scanned dev inum 0 none c (λ j. omega (arith, small j)))
