-- ===== src/Log/Crash/Commit.antt =====
-- `commit` of xv6A1/log.c on a machine that stops at any write.
use native.Mathlib.Decide.{ℕ_discrete}
use operating_system_design.Prelude.{
  ℕ, zero, suc, ◌+◌, ◌-◌, ◌<◌, ◌≤◌, ◌≡◌, refl, ap, ◌∙◌, ◌⊎◌, inl, inr, arith, length, get_or, set,
  Bool-cases, ltb, ltb→le, length-set, get_or-set_self,
}
use mathlib.Core.Path.{subst}
use operating_system_design.Disk.{Dev, bwrite}
use operating_system_design.Disk.Writes.{
  cache-bwrite_self, cache-bwrite_ne, disk-bwrite_ne, disk-bwrite_live, budget-bwrite_live,
  budget-bwrite,
}
use operating_system_design.Log.{
  Log, copy_loop, write_log, fill_loop, write_head, install_trans, install_loop, commit_pending,
  commit,
}
use operating_system_design.Log.Format.{fill_loop_below, fill_loop_word}
use operating_system_design.Log.Crash.{IsHome, Listed, IsLogged, Clear, Pending, Installing}
use operating_system_design.Log.Crash.Install.{install_trans-Installing}
use operating_system_design.Log.Crash.Finish.{
  cleared, install_loop_dead, write_head_dead, write_head-budget_dead, recleared,
}

-- Before `commit`: no transaction in the log, buffers that differ from the disk are listed, and the
-- header buffer has room.
pub record IsReady (lg : Log) (d : Dev) : Type 0 where
  pub logged : IsLogged lg
  pub empty : get_or (d.disk lg.start) 0 0 ≡ 0
  pub dirty : (b : ℕ) → IsHome lg.start b → (d.disk b ≡ d.cache b) ⊎ Listed lg b
  pub room : lg.n < length (d.cache lg.start)

-- The state of `write_log` before its round `t`, for the device `o` at the start of `commit`.
record Copying (lg : Log) (o : Dev) (t : ℕ) (d : Dev) : Type 0 where
  header : d.cache lg.start ≡ o.cache lg.start
  buffers : (b : ℕ) → IsHome lg.start b → d.cache b ≡ o.cache b
  cached : (i : ℕ) → i < t → d.cache (lg.start + i + 1) ≡ o.cache (get_or lg.block i 0)
  disk_header : d.disk lg.start ≡ o.disk lg.start
  homes : (b : ℕ) → IsHome lg.start b → d.disk b ≡ o.disk b
  copied :
      0 < d.budget → (i : ℕ) → i < t → d.disk (lg.start + i + 1) ≡ o.cache (get_or lg.block i 0)

module _ {lg : Log} {o : Dev} (ok : IsLogged lg) where
  Copying-step :
      (t : ℕ) (d : Dev)
      → t < lg.n
      → Copying lg o t d
      → Copying lg o (t + 1) (bwrite (lg.start + t + 1) (d.cache (get_or lg.block t 0)) d)
  Copying-step t d lt s =
      let dst = lg.start + t + 1 in
      let v = d.cache (get_or lg.block t 0) in
      let fits = ok.fits in
      let from = s.buffers (get_or lg.block t 0) (ok.home t lt) in
      record {
        header = cache-bwrite_ne dst v d lg.start (omega arith) ∙ s.header;
        buffers = λ b h. cache-bwrite_ne dst v d b (omega arith) ∙ s.buffers b h;
        cached = λ i h. elim (ℕ_discrete i t) [
          | yes e ↦ rw e (cache-bwrite_self dst v d ∙ from)
          | no ne ↦
              cache-bwrite_ne dst v d (lg.start + i + 1) (omega arith) ∙ s.cached i (omega arith)
        ];
        disk_header = disk-bwrite_ne dst v d lg.start (omega arith) ∙ s.disk_header;
        homes = λ b h. disk-bwrite_ne dst v d b (omega arith) ∙ s.homes b h;
        copied = λ live i h. elim (ℕ_discrete i t) [
          | yes e ↦ rw e (disk-bwrite_live dst v d (budget-bwrite_live dst v d live) ∙ from)
          | no ne ↦
              disk-bwrite_ne dst v d (lg.start + i + 1) (omega arith)
              ∙ s.copied (budget-bwrite_live dst v d live) i (omega arith)
        ];
      }

  copy_loop-Copying :
      (k t : ℕ) (d : Dev) → t + k ≡ lg.n → Copying lg o t d → Copying lg o lg.n (copy_loop k t lg d)
  unfolding copy_loop
  copy_loop-Copying zero t d e s = subst (λ x. Copying lg o x d) (omega arith) s
  copy_loop-Copying (suc k) t d e s =
      copy_loop-Copying k (t + 1) _ (omega arith) (Copying-step t d (omega arith) s)

write_log-Copying : {lg : Log} {o : Dev} → IsLogged lg → Copying lg o lg.n (write_log lg o)
unfolding write_log
write_log-Copying {lg} {o} ok = copy_loop-Copying ok lg.n 0 o (omega arith) (record {
  header = refl;
  buffers = λ b h. refl;
  cached = λ i h. absurd (omega arith);
  disk_header = refl;
  homes = λ b h. refl;
  copied = λ live i h. absurd (omega arith);
})

module _ {lg : Log} {o : Dev} (r : IsReady lg o) (d : Dev) (s : Copying lg o lg.n d) where
  -- The write of the header is the commit point.
  committed-Installing : 0 < d.budget → Installing lg o.cache 0 (write_head lg d)
  unfolding write_head
  committed-Installing live =
      let hb = set (d.cache lg.start) 0 lg.n in
      let v = fill_loop lg.n 0 lg.block hb in
      let fits = r.logged.fits in
      let wide : lg.n < length hb =
        omega (arith, length-set (d.cache lg.start) 0 lg.n, ap length s.header, r.room) in
      let got = disk-bwrite_live lg.start v d live in
      record {
        pending = record {
          count = rw got (
              fill_loop_below lg.n 0 lg.block hb 0 (omega arith)
              ∙ get_or-set_self (d.cache lg.start) 0 lg.n 0
                  (omega (arith, length-set (d.cache lg.start) 0 lg.n)));
          words = λ i h.
              rw got
                (fill_loop_word lg.n 0 lg.block hb i (omega arith) (omega arith) (omega arith));
          copies = λ i h.
              disk-bwrite_ne lg.start v d (lg.start + i + 1) (omega arith) ∙ s.copied live i h;
          homes = λ b h. elim (r.dirty b h) [
            | inl e ↦ inl (disk-bwrite_ne lg.start v d b (omega arith) ∙ s.homes b h ∙ e)
            | inr listed ↦ inr listed
          ];
        };
        cached =
            λ i h. cache-bwrite_ne lg.start v d (lg.start + i + 1) (omega arith) ∙ s.cached i h;
        done = λ now i h. absurd (omega arith);
      }

budget-copy_loop : (k t : ℕ) (lg : Log) (d : Dev) → (copy_loop k t lg d).budget ≡ d.budget - k
unfolding copy_loop
budget-copy_loop zero t lg d = omega arith
budget-copy_loop (suc k) t lg d =
    let dst = lg.start + t + 1 in
    let v = d.cache (get_or lg.block t 0) in
    omega (arith, budget-copy_loop k (t + 1) lg (bwrite dst v d), budget-bwrite dst v d)

budget-write_log : (lg : Log) (d : Dev) → (write_log lg d).budget ≡ d.budget - lg.n
unfolding write_log
budget-write_log lg d = budget-copy_loop lg.n 0 lg d

-- Stopped before the header is written, `commit` leaves the home blocks as they were.
dead-Clear :
    {lg : Log} {o : Dev}
    → IsReady lg o
    → (write_log lg o).budget ≡ 0
    → Clear lg o.disk (commit_pending lg o).1.disk
unfolding commit_pending install_trans
dead-Clear {lg} {o} r e =
    let d = write_log lg o in
    let s = write_log-Copying r.logged in
    let h = write_head lg d in
    let eh : h.budget ≡ 0 = write_head-budget_dead lg d e in
    let g = install_loop lg.n 0 lg h in
    let same : (b : ℕ) → g.disk b ≡ d.disk b =
      λ b. install_loop_dead lg.n 0 lg h b eh ∙ write_head_dead lg d b e in
    recleared {lg = lg} (record lg { n = 0 }) g refl refl
      (record {
        empty = rw (same lg.start, s.disk_header) r.empty;
        homes = λ b hb. same b ∙ s.homes b hb;
      })

-- After the header is written, the transaction stands in the log or is installed.
live-outcome :
    {lg : Log} {o : Dev}
    → IsReady lg o
    → 0 < (write_log lg o).budget
    → (let disk = (commit_pending lg o).1.disk in Clear lg o.cache disk ⊎ Pending lg o.cache disk)
unfolding commit_pending
live-outcome {lg} {o} r live =
    let d = write_log lg o in
    let s = committed-Installing r d (write_log-Copying r.logged) live in
    cleared (install_trans lg (write_head lg d)) (install_trans-Installing r.logged _ s)

module _ {lg : Log} {o : Dev} (r : IsReady lg o) where
  -- `n` writes or fewer do not reach the header.
  pub commit_before : o.budget ≤ lg.n → Clear lg o.disk (commit lg o).1.disk
  unfolding commit
  commit_before h = elim (Bool-cases (ltb 0 lg.n)) [
    | inl some_blocks ↦ rw some_blocks (dead-Clear r (omega (arith, budget-write_log lg o)))
    | inr none_left ↦ rw none_left (record { empty = r.empty; homes = λ b hb. refl })
  ]

  unlisted : lg.n ≡ 0 → (b : ℕ) → IsHome lg.start b → o.disk b ≡ o.cache b
  unlisted e b hb = elim (r.dirty b hb) [ inl same ↦ same | inr (i, lt, at) ↦ absurd (omega arith) ]

  -- One more does.
  pub commit_after :
      lg.n < o.budget
      → (let disk = (commit lg o).1.disk in Clear lg o.cache disk ⊎ Pending lg o.cache disk)
  unfolding commit
  commit_after h = elim (Bool-cases (ltb 0 lg.n)) [
    | inl some_blocks ↦ rw some_blocks (live-outcome r (omega (arith, budget-write_log lg o)))
    | inr none_left ↦ rw none_left (
        inl (record { empty = r.empty; homes = unlisted (omega (arith, ltb→le 0 lg.n none_left)) }))
  ]
