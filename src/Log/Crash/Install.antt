-- ===== src/Log/Crash/Install.antt =====
-- `install_trans` keeps the transaction in the log until all of it is installed.
use native.Mathlib.Decide.{ℕ_discrete}
use mathlib.Core.Path.{subst}
use operating_system_design.Prelude.{
  ℕ, zero, suc, ◌+◌, ◌<◌, ◌≡◌, sym, ap, ◌∙◌, inl, inr, arith, get_or,
}
use operating_system_design.Disk.{Block, Dev, bwrite}
use operating_system_design.Disk.Writes.{
  cache-bwrite_ne, disk-bwrite_ne, disk-bwrite_live, budget-bwrite_live,
}
use operating_system_design.Log.{Log, install_loop, install_trans}
use operating_system_design.Log.Crash.{IsLogged, Pending, Installing}

module _ {lg : Log} {new : ℕ → Block} (ok : IsLogged lg) where
  -- A write of the right content to a listed block, or none at all.
  Pending-bwrite :
      (t : ℕ) (v : Block) (d : Dev)
      → t < lg.n
      → v ≡ new (get_or lg.block t 0)
      → Pending lg new d.disk
      → Pending lg new (bwrite (get_or lg.block t 0) v d).disk
  Pending-bwrite t v d lt e p =
      let dst = get_or lg.block t 0 in
      let away = ok.home t lt in
      let fits = ok.fits in
      record {
        count = ground (arith, p.count, disk-bwrite_ne dst v d lg.start);
        words = λ i h. ground (arith, p.words i h, disk-bwrite_ne dst v d lg.start);
        copies = λ i h. ground (arith, p.copies i h, disk-bwrite_ne dst v d (lg.start + i + 1));
        homes = λ b h. elim (ℕ_discrete dst b) [
          | yes same ↦ inr (t, lt, same)
          | no ne ↦ elim (p.homes b h) [
            | inl old ↦ inl (disk-bwrite_ne dst v d b ne ∙ old)
            | inr listed ↦ inr listed
          ]
        ];
      }

  Installed-step :
      (t i : ℕ) (d : Dev)
      → t < lg.n
      → Installing lg new t d
      → 0 < d.budget
      → i < t + 1
      → (bwrite (get_or lg.block t 0) (d.cache (lg.start + t + 1)) d).disk (get_or lg.block i 0)
        ≡ new (get_or lg.block i 0)
  Installed-step t i d lt s live h =
      let dst = get_or lg.block t 0 in
      let v = d.cache (lg.start + t + 1) in
      elim (ℕ_discrete dst (get_or lg.block i 0)) [
        | yes same ↦ ground (arith, disk-bwrite_live dst v d live, s.cached t lt)
        | no ne ↦
            disk-bwrite_ne dst v d _ ne
            ∙ s.done live i
                (grind (arith, λ (x : i ≡ t). ne (ap (λ j. get_or lg.block j 0) (sym x))))
      ]

  Installing-step :
      (t : ℕ) (d : Dev)
      → t < lg.n
      → Installing lg new t d
      → Installing lg new (t + 1) (bwrite (get_or lg.block t 0) (d.cache (lg.start + t + 1)) d)
  Installing-step t d lt s =
      let dst = get_or lg.block t 0 in
      let v = d.cache (lg.start + t + 1) in
      let away = ok.home t lt in
      let fits = ok.fits in
      let e = s.cached t lt in
      record {
        pending = Pending-bwrite t v d lt e s.pending;
        cached = λ i h. ground (arith, s.cached i h, cache-bwrite_ne dst v d (lg.start + i + 1));
        done = λ live i h. Installed-step t i d lt s (budget-bwrite_live dst v d live) h;
      }

  install_loop-Installing :
      (k t : ℕ) (d : Dev)
      → t + k ≡ lg.n
      → Installing lg new t d
      → Installing lg new lg.n (install_loop k t lg d)
  unfolding install_loop
  install_loop-Installing zero t d e s = subst (λ x. Installing lg new x d) (omega arith) s
  install_loop-Installing (suc k) t d e s =
      install_loop-Installing k (t + 1) _ (omega arith) (Installing-step t d (omega arith) s)

  pub install_trans-Installing :
      (d : Dev) → Installing lg new 0 d → Installing lg new lg.n (install_trans lg d)
  unfolding install_trans
  install_trans-Installing d s = install_loop-Installing lg.n 0 d (omega arith) s
