-- ===== src/Log/Crash/Atomic.antt =====
-- Crash safety of xv6A1/log.c: `commit`, stopped at any disk write, then recoveries that stop at
-- any disk write, then one that runs to its end.
use operating_system_design.Prelude.{ℕ, ◌<◌, ◌≤◌, ◌≡◌, ◌⊎◌, inl, inr, List, [], ◌∷◌}
use operating_system_design.Disk.{Block, Dev, reboot}
use operating_system_design.Log.{Log, log_size, recover_from_log, commit}
use operating_system_design.Log.Crash.{IsHome, IsLogged, Clear, Pending}
use operating_system_design.Log.Crash.Recover.{
  IsBooting, recover-Pending, recover-Pending_full, recover-Clear,
}
use operating_system_design.Log.Crash.Commit.{IsReady, commit_before, commit_after}

-- The disk after recoveries that stop after `ks` writes, one after another.
unfoldable pub recoveries : Log → List ℕ → (ℕ → Block) → ℕ → Block
recoveries boot [] disk = disk
recoveries boot (k ∷ ks) disk = recoveries boot ks (recover_from_log boot (reboot k disk)).1.disk

module _ {lg boot : Log} {new : ℕ → Block} (bt : IsBooting lg boot) where
  recoveries-Clear :
      (ks : List ℕ) (disk : ℕ → Block) → Clear lg new disk → Clear lg new (recoveries boot ks disk)
  unfolding recoveries
  recoveries-Clear [] disk c = c
  recoveries-Clear (k ∷ ks) disk c = recoveries-Clear ks _ (recover-Clear bt k disk c)

  recoveries-Pending :
      IsLogged lg
      → (ks : List ℕ) (disk : ℕ → Block) → Pending lg new disk
      → (let disk' = recoveries boot ks disk in Clear lg new disk' ⊎ Pending lg new disk')
  unfolding recoveries
  recoveries-Pending ok [] disk p = inr p
  recoveries-Pending ok (k ∷ ks) disk p = elim (recover-Pending ok bt k disk p) [
    | inl c ↦ inl (recoveries-Clear ks _ c)
    | inr q ↦ recoveries-Pending ok ks _ q
  ]

  recovered :
      IsLogged lg
      → (ks : List ℕ) (k : ℕ) (disk : ℕ → Block) → log_size < k
      → Clear lg new disk ⊎ Pending lg new disk
      → Clear lg new (recover_from_log boot (reboot k (recoveries boot ks disk))).1.disk
  recovered ok ks k disk enough (inl c) = recover-Clear bt k _ (recoveries-Clear ks disk c)
  recovered ok ks k disk enough (inr p) = elim (recoveries-Pending ok ks disk p) [
    | inl c ↦ recover-Clear bt k _ c
    | inr q ↦ recover-Pending_full ok bt k _ enough q
  ]

-- The blocks that a crashed `commit` and the recoveries after it leave.
abbrev pub after_crash : Log → Log → Dev → List ℕ → ℕ → ℕ → Block
after_crash lg boot o ks k =
    (recover_from_log boot (reboot k (recoveries boot ks (commit lg o).1.disk))).1.disk

module _ (lg boot : Log) (o : Dev) (ks : List ℕ) (k b : ℕ) (r : IsReady lg o)
    (bt : IsBooting lg boot) (enough : log_size < k) (home : IsHome lg.start b) where
  -- Let the log be its header and LOGSIZE blocks, and let it be ready: no transaction on the disk,
  -- `n` at most LOGSIZE, logged blocks outside the log, every other buffer as on the disk, room in
  -- the header buffer. If the machine stops after `budget ≤ n` disk writes of `commit`, then during
  -- recoveries after `ks` writes, and a last recovery has more than LOGSIZE writes, a block outside
  -- the log holds what it held before.
  pub commit_lost : o.budget ≤ lg.n → after_crash lg boot o ks k b ≡ o.disk b
  commit_lost few = (recovered bt r.logged ks k _ enough (inl (commit_before r few))).homes b home

  -- Let the log be its header and LOGSIZE blocks, and let it be ready: no transaction on the disk,
  -- `n` at most LOGSIZE, logged blocks outside the log, every other buffer as on the disk, room in
  -- the header buffer. If more than `n` disk writes of `commit` are done before the machine stops,
  -- then, after recoveries that stop after `ks` writes and a last one with more than LOGSIZE writes,
  -- every block outside the log holds what its buffer held: the transaction is there as a whole.
  pub commit_kept : lg.n < o.budget → after_crash lg boot o ks k b ≡ o.cache b
  commit_kept more = (recovered bt r.logged ks k _ enough (commit_after r more)).homes b home
