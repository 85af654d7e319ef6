-- ===== src/Disk.antt =====
-- The disk below the log, as xv6A1/bio.c offers it: `bread` gives the buffer of a block, and
-- `bwrite` puts a buffer on the disk at once. A block is its list of 32-bit words.
pub mod Writes
use operating_system_design.Prelude.{ℕ, zero, suc, ◌-◌, List, ◌==◌, if◌then◌else◌}

abbrev pub Block : Type 0
Block = List ℕ

abbrev pub update {ℓ} : {A : Type ℓ} → (ℕ → A) → ℕ → A → ℕ → A
update f p v q = if p == q then v else f q

-- `cache` is what `bread` returns: the buffer of a block, read from the disk if there is none.
-- The machine stops after `budget` more disk writes: later ones do not reach the disk.
pub record Dev : Type 0 where
  pub cache : ℕ → Block
  pub disk : ℕ → Block
  pub budget : ℕ

abbrev pub bread : ℕ → Dev → Block
bread b d = d.cache b

-- The disk after a write of `v` to `b`, with `k` writes left before the stop.
abbrev pub write_through : ℕ → (ℕ → Block) → ℕ → Block → ℕ → Block
write_through zero disk b v = disk
write_through (suc k) disk b v = update disk b v

unfoldable pub bwrite : ℕ → Block → Dev → Dev
bwrite b v d = record {
  cache = update d.cache b v;
  disk = write_through d.budget d.disk b v;
  budget = d.budget - 1;
}

-- After a crash the cache is empty, and reads see the disk.
abbrev pub reboot : ℕ → (ℕ → Block) → Dev
reboot k disk = record { cache = disk; disk = disk; budget = k }
