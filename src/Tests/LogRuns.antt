-- ===== src/Tests/LogRuns.antt =====
-- The log of xv6A1/log.c with one block logged.
use native.Mathlib.Decide.{ℕ_discrete}
use operating_system_design.Prelude.{
  ℕ, zero, suc, ◌<◌, ◌≡◌, ◌≢◌, refl, sym, inl, inr, ◌⊎◌, ◌++◌, true, false, some, none, [], ◌∷◌,
  get_or, set, replicate, arith, ◌==◌, if◌then◌else◌,
}
use operating_system_design.Disk.{Block, Dev}
use operating_system_design.Log.{Log, log_write, absorb_loop, end_op_enter}
use operating_system_design.Log.Crash.{IsHome}
use operating_system_design.Log.Crash.Recover.{IsBooting}
use operating_system_design.Log.Crash.Commit.{IsReady}
use operating_system_design.Log.Crash.Atomic.{after_crash, commit_lost, commit_kept}
use operating_system_design.Log.Space.{
  Calls, Reach, here, next, write, HasSpace, is_none, calls_total,
}

-- Block 40 is logged; the log starts at block 2.
abbrev one_block : Log
one_block = record {
  start = 2;
  size = 31;
  outstanding = 0;
  committing = true;
  n = 1;
  block = 40 ∷ replicate 29 0;
}

abbrev booting : Log
booting = record one_block { n = 0; block = replicate 30 0 }

abbrev old_disk : ℕ → Block
old_disk b = if b == 2 then replicate 31 0 else []

abbrev device : ℕ → Dev
device budget = record {
  cache = λ b. if b == 40 then 7 ∷ [] else old_disk b;
  disk = old_disk;
  budget = budget;
}

one_block-IsHome : (i : ℕ) → i < 1 → IsHome 2 (get_or one_block.block i 0)
one_block-IsHome zero h = inr (omega arith)
one_block-IsHome (suc i) h = absurd (omega arith)

device-IsReady : (k : ℕ) → IsReady one_block (device k)
device-IsReady k = record {
  logged = record { fits = omega arith; home = one_block-IsHome };
  empty = refl;
  dirty = λ b h. elim (ℕ_discrete b 40) [
    | yes e ↦ inr (0, omega arith, sym e)
    | no ne ↦ inl (ground arith)
  ];
  room = omega arith;
}

booting-IsBooting : IsBooting one_block booting
booting-IsBooting = record { start = refl; array = refl }

-- The machine stops after the header is written, and a first recovery after one write.
commit_kept_example : after_crash one_block booting (device 2) (1 ∷ []) 40 40 ≡ 7 ∷ []
commit_kept_example =
    commit_kept one_block booting (device 2) (1 ∷ []) 40 40 (device-IsReady 2) booting-IsBooting
      (omega arith) (inr (omega arith)) (omega arith)

-- The machine stops before the header is written.
commit_lost_example : after_crash one_block booting (device 1) (0 ∷ []) 40 40 ≡ []
commit_lost_example =
    commit_lost one_block booting (device 1) (0 ∷ []) 40 40 (device-IsReady 1) booting-IsBooting
      (omega arith) (inr (omega arith)) (omega arith)

abbrev open_log : Log
open_log = record one_block { size = 31; outstanding = 1; committing = false }

abbrev open_log_after : Log
open_log_after = record open_log { n = 2; block = set open_log.block 1 41 }

-- Block 41 is logged behind block 40.
open_log-log_write : log_write open_log 41 ≡ some open_log_after
unfolding log_write absorb_loop
open_log-log_write = refl

-- A log of 30 blocks, as `mkfs` makes it, with 28 blocks logged; the call in progress may write two
-- more. Then it writes block 41.
abbrev nearly_full : Calls
nearly_full = record {
  log = record {
    start = 2;
    size = 30;
    outstanding = 1;
    committing = false;
    n = 28;
    block = replicate 28 40 ++ (0 ∷ (0 ∷ []));
  };
  dev = device 9;
  credits = 2 ∷ [];
  commits = [];
}

abbrev full_log : Log
full_log = record (nearly_full.log) { n = 29; block = set nearly_full.log.block 28 41 }

abbrev one_more : Calls
one_more = record nearly_full { log = full_log; credits = 1 ∷ [] }

nearly_full-HasSpace : HasSpace nearly_full
nearly_full-HasSpace = record {
  fits = omega arith;
  within = omega arith;
  count = refl;
  few = omega arith;
  alone = refl;
  quiet = inl refl;
}

nearly_full-log_write : log_write nearly_full.log 41 ≡ some full_log
unfolding log_write absorb_loop
nearly_full-log_write = refl

nearly_full-Reach : Reach nearly_full one_more
nearly_full-Reach = next here (write [] [] 1 41 refl nearly_full-log_write)

-- The call may write one more block, but `log_write` panics.
calls_total_example :
    (one_more.commits ≡ [])
    × (end_op_enter full_log ≢ none)
    × ((◌≡◌ {A = ℕ} 1 0) ⊎ (is_none (log_write full_log 42) ≡ true))
calls_total_example =
    calls_total nearly_full one_more [] [] 1 42 nearly_full-HasSpace nearly_full-Reach refl
