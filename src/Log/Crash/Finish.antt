-- ===== src/Log/Crash/Finish.antt =====
-- The last write of a transaction, which clears the header, and a device that has stopped.
use mathlib.Core.Path.{fun_ext}
use native.Mathlib.Decide.{dec_lt}
use operating_system_design.Prelude.{
  ℕ, zero, suc, ◌+◌, ◌-◌, ◌<◌, ◌≡◌, refl, ◌∙◌, ◌⊎◌, inl, inr, arith, List, [], ◌∷◌, get_or, set,
}
use operating_system_design.Disk.{Block, Dev, bwrite}
use operating_system_design.Disk.Writes.{
  disk-bwrite_ne, disk-bwrite_live, disk-bwrite_dead, budget-bwrite_dead, budget-bwrite,
}
use operating_system_design.Log.{Log, install_loop, fill_loop, write_head}
use operating_system_design.Log.Crash.{Clear, Pending, Installing}

pub budget-install_loop :
    (k t : ℕ) (lg : Log) (d : Dev) → (install_loop k t lg d).budget ≡ d.budget - k
unfolding install_loop
budget-install_loop zero t lg d = omega arith
budget-install_loop (suc k) t lg d =
    let dst = get_or lg.block t 0 in
    let v = d.cache (lg.start + t + 1) in
    omega (arith, budget-install_loop k (t + 1) lg (bwrite dst v d), budget-bwrite dst v d)

-- Once the budget is spent, nothing more reaches the disk.
pub install_loop_dead :
    (k t : ℕ) (lg : Log) (d : Dev) (b : ℕ)
    → d.budget ≡ 0
    → (install_loop k t lg d).disk b ≡ d.disk b
unfolding install_loop
install_loop_dead zero t lg d b e = refl
install_loop_dead (suc k) t lg d b e =
    let dst = get_or lg.block t 0 in
    let v = d.cache (lg.start + t + 1) in
    install_loop_dead k (t + 1) lg (bwrite dst v d) b (budget-bwrite_dead dst v d e)
    ∙ disk-bwrite_dead dst v d b e

word_zero : (xs : List ℕ) → get_or (set xs 0 0) 0 0 ≡ 0
word_zero [] = refl
word_zero (x ∷ xs) = refl

pub write_head_dead :
    (lg : Log) (d : Dev) (b : ℕ) → d.budget ≡ 0 → (write_head lg d).disk b ≡ d.disk b
unfolding write_head
write_head_dead lg d b e = disk-bwrite_dead lg.start _ d b e

pub write_head-budget_dead : (lg : Log) (d : Dev) → d.budget ≡ 0 → (write_head lg d).budget ≡ 0
unfolding write_head
write_head-budget_dead lg d e = budget-bwrite_dead lg.start _ d e

pub Pending-same :
    {lg : Log} {new disk : ℕ → Block} (disk' : ℕ → Block)
    → ((b : ℕ) → disk' b ≡ disk b)
    → Pending lg new disk
    → Pending lg new disk'
Pending-same disk' same p = rw (fun_ext same) p

module _ {lg : Log} {new : ℕ → Block} (d : Dev) where
  -- Where the write of the cleared header reaches the disk, the transaction is installed.
  pub cleared-Clear :
      Installing lg new lg.n d
      → 0 < d.budget
      → Clear lg new (write_head (record lg { n = 0 }) d).disk
  unfolding write_head fill_loop
  cleared-Clear s live = record {
    empty =
        rw (disk-bwrite_live lg.start (set (d.cache lg.start) 0 0) d live)
          (word_zero (d.cache lg.start));
    homes = λ b h.
        disk-bwrite_ne lg.start (set (d.cache lg.start) 0 0) d b (omega arith)
        ∙ elim (s.pending.homes b h) [ inl e ↦ e | inr (i, lt, e) ↦ rw e at (s.done live i lt) ];
  }

  pub cleared :
      Installing lg new lg.n d
      → (let d' = write_head (record lg { n = 0 }) d in
          Clear lg new d'.disk ⊎ Pending lg new d'.disk)
  cleared s = elim (dec_lt 0 d.budget) [
    | yes live ↦ inl (cleared-Clear s live)
    | no dead ↦
        inr
          (Pending-same _ (λ b. write_head_dead (record lg { n = 0 }) d b (omega arith)) s.pending)
  ]

-- Clearing a header that is clear keeps the disk clear, whether or not the write gets through.
pub recleared :
    {lg : Log} {target : ℕ → Block} (lg' : Log) (d : Dev)
    → lg'.start ≡ lg.start
    → lg'.n ≡ 0
    → Clear lg target d.disk
    → Clear lg target (write_head lg' d).disk
unfolding write_head fill_loop
recleared {lg} lg' d es en c =
    let v = set (d.cache lg.start) 0 0 in
    rw (es, en)
      (record {
        empty = elim (dec_lt 0 d.budget) [
          | yes live ↦ rw (disk-bwrite_live lg.start v d live) (word_zero (d.cache lg.start))
          | no dead ↦ rw (disk-bwrite_dead lg.start v d lg.start (omega arith)) c.empty
        ];
        homes = λ b h. disk-bwrite_ne lg.start v d b (omega arith) ∙ c.homes b h;
      })
