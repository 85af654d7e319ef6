-- ===== src/Log/Crash/Head.antt =====
-- Two in-memory headers of xv6A1/log.c that agree as far as `n` goes.
use operating_system_design.Prelude.{ℕ, ◌<◌, ◌≡◌, sym, ◌∙◌, inl, inr, arith, get_or}
use operating_system_design.Disk.{Block}
use operating_system_design.Log.{Log}
use operating_system_design.Log.Crash.{IsLogged, Clear, Pending}

pub record SameHead (a b : Log) : Type 0 where
  pub start : a.start ≡ b.start
  pub n : a.n ≡ b.n
  pub word : (i : ℕ) → i < a.n → get_or a.block i 0 ≡ get_or b.block i 0

pub SameHead-sym : {a b : Log} → SameHead a b → SameHead b a
SameHead-sym s = record {
  start = sym s.start;
  n = sym s.n;
  word = λ i h. sym (s.word i (omega (arith, s.n)));
}

module _ {a b : Log} (s : SameHead a b) where
  pub IsLogged-head : IsLogged a → IsLogged b
  IsLogged-head ok = record {
    fits = rw (← s.n) ok.fits;
    home = λ i h.
        let h' : i < a.n = omega (arith, s.n) in rw (← s.start, ← s.word i h') (ok.home i h');
  }

  pub Clear-head : {new disk : ℕ → Block} → Clear a new disk → Clear b new disk
  Clear-head c = record { empty = rw (← s.start) c.empty; homes = λ x h. c.homes x (rw s.start h) }

  pub Pending-head : {new disk : ℕ → Block} → Pending a new disk → Pending b new disk
  Pending-head p = record {
    count = rw (← s.start, ← s.n) p.count;
    words = λ i h.
        let h' : i < a.n = omega (arith, s.n) in rw (← s.start, ← s.word i h') (p.words i h');
    copies = λ i h.
        let h' : i < a.n = omega (arith, s.n) in rw (← s.start, ← s.word i h') (p.copies i h');
    homes = λ x h. elim (p.homes x (rw s.start h)) [
      | inl e ↦ inl e
      | inr (i, lt, e) ↦ inr (i, omega (arith, s.n), sym (s.word i lt) ∙ e)
    ];
  }
