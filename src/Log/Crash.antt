-- ===== src/Log/Crash.antt =====
-- A machine that stops at any disk write of `commit` or of `recover_from_log` in xv6A1/log.c, and
-- the disk that the next `recover_from_log` finds.
pub mod Atomic
pub mod Commit
pub mod Finish
pub mod Head
pub mod Install
pub mod Recover
use operating_system_design.Prelude.{ℕ, ◌+◌, ◌≤◌, ◌<◌, ◌≡◌, ◌⊎◌, get_or}
use operating_system_design.Disk.{Block, Dev}
use operating_system_design.Log.{Log, log_size}

-- A block outside the header and the log blocks.
abbrev pub IsHome : ℕ → ℕ → Type 0
IsHome start b = (b < start) ⊎ (start + log_size < b)

abbrev pub Listed : Log → ℕ → Type 0
Listed lg b = (i : ℕ) × (i < lg.n) × (get_or lg.block i 0 ≡ b)

-- The in-memory header fits the log and names blocks outside it.
pub record IsLogged (lg : Log) : Type 0 where
  pub fits : lg.n ≤ log_size
  pub home : (i : ℕ) → i < lg.n → IsHome lg.start (get_or lg.block i 0)

-- No transaction stands in the log, and outside it the disk holds `target`.
pub record Clear (lg : Log) (target : ℕ → Block) (disk : ℕ → Block) : Type 0 where
  pub empty : get_or (disk lg.start) 0 0 ≡ 0
  pub homes : (b : ℕ) → IsHome lg.start b → disk b ≡ target b

-- The transaction of `lg` stands in the log whole, and what is not yet installed is listed.
pub record Pending (lg : Log) (new : ℕ → Block) (disk : ℕ → Block) : Type 0 where
  pub count : get_or (disk lg.start) 0 0 ≡ lg.n
  pub words : (i : ℕ) → i < lg.n → get_or (disk lg.start) (i + 1) 0 ≡ get_or lg.block i 0
  pub copies : (i : ℕ) → i < lg.n → disk (lg.start + i + 1) ≡ new (get_or lg.block i 0)
  pub homes : (b : ℕ) → IsHome lg.start b → (disk b ≡ new b) ⊎ Listed lg b

-- The state of `install_trans` before its round `t`.
pub record Installing (lg : Log) (new : ℕ → Block) (t : ℕ) (d : Dev) : Type 0 where
  pub pending : Pending lg new d.disk
  pub cached : (i : ℕ) → i < lg.n → d.cache (lg.start + i + 1) ≡ new (get_or lg.block i 0)
  pub done :
      0 < d.budget → (i : ℕ) → i < t → d.disk (get_or lg.block i 0) ≡ new (get_or lg.block i 0)
