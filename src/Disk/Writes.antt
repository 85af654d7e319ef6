-- ===== src/Disk/Writes.antt =====
-- What one `bwrite` does to the disk and to the cache.
use operating_system_design.Prelude.{ℕ, zero, suc, ◌-◌, ◌<◌, ◌≡◌, refl, ◌≢◌, arith, ==-refl, ne→==}
use operating_system_design.Disk.{Block, Dev, update, write_through, bwrite}

update_self : (f : ℕ → Block) (p : ℕ) (v : Block) → update f p v p ≡ v
update_self f p v = rw (==-refl p)

update_ne : (f : ℕ → Block) (p q : ℕ) (v : Block) → p ≢ q → update f p v q ≡ f q
update_ne f p q v h = rw (ne→== p q h)

write_through_ne :
    (k : ℕ) (f : ℕ → Block) (p q : ℕ) (v : Block) → p ≢ q → write_through k f p v q ≡ f q
write_through_ne zero f p q v h = refl
write_through_ne (suc k) f p q v h = update_ne f p q v h

write_through_live :
    (k : ℕ) (f : ℕ → Block) (p : ℕ) (v : Block) → 0 < k → write_through k f p v p ≡ v
write_through_live zero f p v h = absurd (omega arith)
write_through_live (suc k) f p v h = update_self f p v

write_through_dead :
    (k : ℕ) (f : ℕ → Block) (p q : ℕ) (v : Block) → k ≡ 0 → write_through k f p v q ≡ f q
write_through_dead zero f p q v h = refl
write_through_dead (suc k) f p q v h = absurd (omega arith)

module _ (p : ℕ) (v : Block) (d : Dev) where
  pub cache-bwrite_self : (bwrite p v d).cache p ≡ v
  unfolding bwrite
  cache-bwrite_self = update_self d.cache p v

  pub cache-bwrite_ne : (q : ℕ) → p ≢ q → (bwrite p v d).cache q ≡ d.cache q
  unfolding bwrite
  cache-bwrite_ne q h = update_ne d.cache p q v h

  pub disk-bwrite_ne : (q : ℕ) → p ≢ q → (bwrite p v d).disk q ≡ d.disk q
  unfolding bwrite
  disk-bwrite_ne q h = write_through_ne d.budget d.disk p q v h

  pub disk-bwrite_live : 0 < d.budget → (bwrite p v d).disk p ≡ v
  unfolding bwrite
  disk-bwrite_live h = write_through_live d.budget d.disk p v h

  pub disk-bwrite_dead : (q : ℕ) → d.budget ≡ 0 → (bwrite p v d).disk q ≡ d.disk q
  unfolding bwrite
  disk-bwrite_dead q h = write_through_dead d.budget d.disk p q v h

  pub budget-bwrite_live : 0 < (bwrite p v d).budget → 0 < d.budget
  unfolding bwrite
  budget-bwrite_live h = omega arith

  pub budget-bwrite_dead : d.budget ≡ 0 → (bwrite p v d).budget ≡ 0
  unfolding bwrite
  budget-bwrite_dead h = omega arith

  pub budget-bwrite : (bwrite p v d).budget ≡ d.budget - 1
  unfolding bwrite
  budget-bwrite = refl
