-- ===== src/Tests/CallRuns.antt =====
-- Arguments of system calls and file descriptors.
use mathlib.Core.Logic.{◌↔◌}
use operating_system_design.Prelude.{
  ℕ, zero, suc, ◌+◌, ◌≡◌, refl, [], ◌∷◌, none, some, ◌==◌, if◌then◌else◌, replicate, arith,
}
use operating_system_design.Args.{UserSpace, argptr}
use operating_system_design.Args.Bounds.{Accepted, argptr_iff}
use operating_system_design.File.{file_at, zero_file, fd_inode}
use operating_system_design.Descriptor.{Open}
use operating_system_design.Descriptor.Refs.{Counted, count}
use operating_system_design.Descriptor.Count.{dup, close, run, run-Counted}

-- The stack pointer is 4000, and the word at 4004 is 1024.
abbrev small_process : UserSpace
small_process = record { sz = 4096; esp = 4000; bytes = λ a. if a == 4005 then 4 else 0 }

argptr_iff_example : (argptr small_process 0 512 ≡ some 1024) ↔ Accepted small_process 0 512 1024
argptr_iff_example = argptr_iff small_process 0 512 1024 (omega arith) (omega arith)

-- One file, open as descriptor 0.
abbrev one_open : Open
one_open = record {
  ofile = some 0 ∷ replicate 15 none;
  table = record zero_file { type = fd_inode; ref = 1; readable = 1; ip = 1 } ∷ [];
}

one_open-Counted : Counted (λ i. 0) one_open
one_open-Counted = record { slots = refl; refs = refs }
  where
    refs : (i : ℕ) → (file_at one_open.table i).ref ≡ count i one_open.ofile + 0
    refs zero = refl
    refs (suc i) = ground arith

-- Argument 0 is 0: descriptor 0 is duplicated, and then closed.
abbrev zero_argument : UserSpace
zero_argument = record { sz = 4096; esp = 4000; bytes = λ a. 0 }

run-Counted_example :
    (o' : Open) × (run (dup zero_argument ∷ (close zero_argument ∷ [])) one_open ≡ some o')
    × Counted (λ i. 0) o'
run-Counted_example =
    run-Counted (λ i. 0) (λ i. omega arith) (dup zero_argument ∷ (close zero_argument ∷ []))
      one_open one_open-Counted
