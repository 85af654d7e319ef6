-- ===== src/Log/Crash/Recover.antt =====
-- `recover_from_log` of xv6A1/log.c on the disk of a stopped machine, itself stopped at any write.
use operating_system_design.Prelude.{ℕ, ◌<◌, ◌≡◌, refl, ◌∙◌, ◌⊎◌, inl, inr, arith, length, sym}
use operating_system_design.Disk.{Block, reboot}
use operating_system_design.Log.{
  Log, log_size, read_head, install_loop, install_trans, recover_from_log,
}
use operating_system_design.Log.Format.{read_loop_word}
use operating_system_design.Log.Crash.{IsLogged, Clear, Pending, Installing}
use operating_system_design.Log.Crash.Head.{
  SameHead, SameHead-sym, IsLogged-head, Clear-head, Pending-head,
}
use operating_system_design.Log.Crash.Install.{install_trans-Installing}
use operating_system_design.Log.Crash.Finish.{
  cleared, cleared-Clear, budget-install_loop, recleared,
}

-- The header that a booting kernel reads: `start` from the superblock, an array of `LOGSIZE`.
pub record IsBooting (lg boot : Log) : Type 0 where
  pub start : boot.start ≡ lg.start
  pub array : length boot.block ≡ log_size

module _ {lg boot : Log} {new : ℕ → Block} (ok : IsLogged lg) (bt : IsBooting lg boot) where
  -- `read_head` finds the header that was committed.
  read-SameHead :
      (k : ℕ) (disk : ℕ → Block)
      → Pending lg new disk
      → SameHead lg (read_head boot (reboot k disk))
  unfolding read_head
  read-SameHead k disk p = record {
    start = sym bt.start;
    n = rw (bt.start, p.count) refl;
    word = λ i h.
        rw (bt.start, p.count)
          (sym (
            read_loop_word lg.n 0 (disk lg.start) boot.block i (omega arith) (omega arith)
              (omega (arith, bt.array, ok.fits))
            ∙ p.words i h));
  }

  read-Installing :
      (k : ℕ) (disk : ℕ → Block)
      → Pending lg new disk
      → Installing (read_head boot (reboot k disk)) new 0 (reboot k disk)
  read-Installing k disk p =
      let p' = Pending-head (read-SameHead k disk p) p in
      record { pending = p'; cached = p'.copies; done = λ live i h. absurd (omega arith) }

  -- A recovery that stops anywhere leaves the transaction in the log, or has installed it.
  pub recover-Pending :
      (k : ℕ) (disk : ℕ → Block)
      → Pending lg new disk
      → (let disk' = (recover_from_log boot (reboot k disk)).1.disk in
          Clear lg new disk' ⊎ Pending lg new disk')
  unfolding recover_from_log
  recover-Pending k disk p =
      let d = reboot k disk in
      let same = read-SameHead k disk p in
      let s = install_trans-Installing (IsLogged-head same ok) d (read-Installing k disk p) in
      elim (cleared (install_trans (read_head boot d) d) s) [
        | inl c ↦ inl (Clear-head (SameHead-sym same) c)
        | inr q ↦ inr (Pending-head (SameHead-sym same) q)
      ]

  budget-install_trans :
      (k : ℕ) (disk : ℕ → Block)
      → log_size < k
      → Pending lg new disk
      → 0 < (install_trans (read_head boot (reboot k disk)) (reboot k disk)).budget
  unfolding install_trans
  budget-install_trans k disk enough p =
      let lg1 = read_head boot (reboot k disk) in
      let same = read-SameHead k disk p in
      omega (arith, budget-install_loop lg1.n 0 lg1 (reboot k disk), same.n, ok.fits)

  -- With more writes left than the log holds, it installs the transaction.
  pub recover-Pending_full :
      (k : ℕ) (disk : ℕ → Block)
      → log_size < k
      → Pending lg new disk
      → Clear lg new (recover_from_log boot (reboot k disk)).1.disk
  unfolding recover_from_log
  recover-Pending_full k disk enough p =
      let d = reboot k disk in
      let same = read-SameHead k disk p in
      let s = install_trans-Installing (IsLogged-head same ok) d (read-Installing k disk p) in
      Clear-head (SameHead-sym same) (
        cleared-Clear (install_trans (read_head boot d) d) s (budget-install_trans k disk enough p))

-- Where no transaction stands in the log, a recovery that stops anywhere changes no home block.
pub recover-Clear :
    {lg boot : Log} {target : ℕ → Block}
    → IsBooting lg boot
    → (k : ℕ) (disk : ℕ → Block) → Clear lg target disk
    → Clear lg target (recover_from_log boot (reboot k disk)).1.disk
unfolding recover_from_log read_head install_trans install_loop
recover-Clear bt k disk c = rw (bt.start, c.empty) (recleared _ (reboot k disk) refl refl c)
