-- ===== src/Log/Listing.antt =====
-- `log_write` of xv6A1/log.c against the set of logged blocks.
use native.Mathlib.Decide.{ℕ_discrete}
use mathlib.Core.Path.{subst}
use operating_system_design.Prelude.{
  ℕ, zero, suc, ◌+◌, ◌<◌, ◌≤◌, ◌≡◌, ◌≢◌, arith, List, some, length, get_or, set, ◌⊎◌, inl, inr,
  get_or-set_self, get_or-set_ne, get_or-set_same, ==→eq, ==→ne, Bool-cases, ◌==◌, if◌then◌else◌,
}
use operating_system_design.Log.{Log, log_size, absorb_loop, log_write}

-- The loop stops in range, at the block if it stops early, and past no occurrence of it.
record Absorbs (block : List ℕ) (blockno i n r : ℕ) : Type 0 where
  low : i ≤ r
  high : r ≤ n
  hit : r < n → get_or block r 0 ≡ blockno
  skipped : (j : ℕ) → i ≤ j → j < r → get_or block j 0 ≢ blockno

absorb_loop-Absorbs :
    (k i : ℕ) (block : List ℕ) (blockno n : ℕ)
    → i + k ≡ n
    → Absorbs block blockno i n (absorb_loop k i block blockno)
unfolding absorb_loop
absorb_loop-Absorbs zero i block blockno n e = record {
  low = omega arith;
  high = omega arith;
  hit = λ h. absurd (omega arith);
  skipped = λ j a b. absurd (omega arith);
}
absorb_loop-Absorbs (suc k) i block blockno n e = elim (Bool-cases (get_or block i 0 == blockno)) [
  | inl same ↦ rw same (record {
    low = omega arith;
    high = omega arith;
    hit = λ h. ==→eq _ _ same;
    skipped = λ j a b. absurd (omega arith);
  })
  | inr other ↦
      let s = absorb_loop-Absorbs k (i + 1) block blockno n (omega arith) in
      rw other (record {
        low = omega (arith, s.low);
        high = s.high;
        hit = s.hit;
        skipped = λ j a b. elim (ℕ_discrete i j) [
          | yes at ↦ rw (← at) (==→ne _ _ other)
          | no past ↦ s.skipped j (omega arith) b
        ];
      })
]

-- The logged blocks are distinct.
abbrev pub IsNodup : Log → Type 0
IsNodup lg = (i j : ℕ) → i < j → j < lg.n → get_or lg.block i 0 ≢ get_or lg.block j 0

pub record Wrote (lg lg' : Log) (blockno : ℕ) : Type 0 where
  pub grows : (lg'.n ≡ lg.n) ⊎ (lg'.n ≡ lg.n + 1)
  pub keeps : (i : ℕ) → i < lg.n → get_or lg'.block i 0 ≡ get_or lg.block i 0
  pub lists : (i : ℕ) × (i < lg'.n) × (get_or lg'.block i 0 ≡ blockno)
  pub distinct : IsNodup lg'

-- The header after `log_write`, for the index `r` at which its loop stops.
abbrev put_at : Log → ℕ → ℕ → Log
put_at lg blockno r = record lg {
  n = if r == lg.n then lg.n + 1 else lg.n;
  block = set lg.block r blockno;
}

log_write-eq :
    (lg : Log) {lg' : Log} (blockno : ℕ)
    → log_write lg blockno ≡ some lg'
    → (lg.n < log_size) × (put_at lg blockno (absorb_loop lg.n 0 lg.block blockno) ≡ lg')
unfolding log_write
log_write-eq lg blockno e = ground arith

put_at-Wrote :
    (lg : Log) (blockno r : ℕ)
    → length lg.block ≡ log_size
    → lg.n < log_size
    → IsNodup lg
    → Absorbs lg.block blockno 0 lg.n r
    → Wrote lg (put_at lg blockno r) blockno
put_at-Wrote lg blockno r array room distinct s = elim (ℕ_discrete r lg.n) [
  | yes end ↦ record {
    grows = inr (ground arith);
    keeps = λ i h. get_or-set_ne lg.block r i blockno 0 (omega arith);
    lists = (r, ground arith, get_or-set_self lg.block r blockno 0 (omega arith));
    distinct = λ i j a b.
        let j' : j < lg.n + 1 = ground arith in
        let low = get_or-set_ne lg.block r i blockno 0 (omega arith) in
        elim (ℕ_discrete j r) [
          | yes last ↦
              rw (last, get_or-set_self lg.block r blockno 0 (omega arith), low)
                (s.skipped i (omega arith) (omega arith))
          | no inner ↦
              rw (low, get_or-set_ne lg.block r j blockno 0 (omega arith))
                (distinct i j a (omega arith))
        ];
  }
  | no inside ↦
      let same = λ (i : ℕ).
        get_or-set_same lg.block r blockno 0 i (s.hit (omega (arith, s.high)))
          (omega (arith, s.high)) in
      record {
        grows = inl (ground arith);
        keeps = λ i h. same i;
        lists = (
          r,
          ground (arith, s.high),
          get_or-set_self lg.block r blockno 0 (omega (arith, s.high)),
        );
        distinct =
            λ i j a b. let j' : j < lg.n = ground arith in rw (same i, same j) (distinct i j a j');
      }
]

-- A `log_write` that does not panic keeps every logged block in its place, logs `blockno`, adds one
-- entry at most, and keeps the entries distinct, if the array has room for LOGSIZE entries.
pub log_write-Wrote :
    (lg lg' : Log) (blockno : ℕ)
    → length lg.block ≡ log_size
    → IsNodup lg
    → log_write lg blockno ≡ some lg'
    → Wrote lg lg' blockno
log_write-Wrote lg lg' blockno array distinct e =
    let (room, same) = log_write-eq lg blockno e in
    subst (λ x. Wrote lg x blockno) same
      (put_at-Wrote lg blockno (absorb_loop lg.n 0 lg.block blockno) array room distinct
        (absorb_loop-Absorbs lg.n 0 lg.block blockno lg.n (omega arith)))
