-- ===== src/Tests/ProcRuns.antt =====
-- A process table of xv6A1/proc.c with init, a shell and its child.
use operating_system_design.Prelude.{
  ℕ, zero, suc, ◌<◌, ◌≡◌, ◌≢◌, refl, true, some, List, [], ◌∷◌, replicate, arith, if◌then◌else◌,
  ltb, leb, ◌&&◌, ◌-◌, ◌+◌, get_or, words,
}
use operating_system_design.Proc.{
  ProcState, unused, sleeping, runnable, running, zombie, slot, Proc, zero_proc, zero_tf, Table, at,
  Call,
}
use operating_system_design.Proc.Sched.{wakeup, kill}
use operating_system_design.Proc.Life.{exit, exit_table, close_files, wait_round, returned}
use operating_system_design.Proc.Signal.{frame_words, takes_signal, check_traps}
use operating_system_design.Proc.Reap.{IsZombieChild, wait_round-reaps}
use operating_system_design.Proc.Exit.{exit_wakes_parent}
use operating_system_design.Proc.Trap.{frame_byte, check_traps_frame}
use operating_system_design.Proc.Pids.{Live, IsNumbered}
use operating_system_design.Proc.Pids.Reach.{here, next, wakes, kills, Reach-IsNumbered}

abbrev init : Proc
init = record zero_proc { pid = 1; state = sleeping; chan = slot 0 }

abbrev shell : Proc
shell = record zero_proc { pid = 2; state = sleeping; chan = slot 1; parent = some 0 }

abbrev child : ProcState → Proc
child s = record zero_proc { pid = 3; state = s; parent = some 1; cwd = 9 }

abbrev three : ProcState → Table
three s = record {
  procs = init ∷ (shell ∷ (child s ∷ (zero_proc ∷ [])));
  nextpid = 4;
  initproc = 0;
}

exit-three : exit 2 (three running) ≡ some (exit_table 2 (three running), Call.iput 9 ∷ [])
unfolding exit close_files
exit-three = refl

exit_wakes_parent_example :
    (let t' = exit_table 2 (three running) in
      ((at t' 1).state ≡ runnable) × IsZombieChild 1 (at t' 2))
exit_wakes_parent_example =
    exit_wakes_parent 1 2 (three running) (exit_table 2 (three running)) (Call.iput 9 ∷ [])
      (refl, refl) refl (omega arith) (omega arith) exit-three

wait_round-reaps_example :
    (i : ℕ) × (t' : Table) × (calls : List Call) × (wait_round 1 (three zombie)
      ≡ returned (at (three zombie) i).pid t' calls)
    × IsZombieChild 1 (at (three zombie) i)
    × ((at t' i).state ≡ unused)
    × ((j : ℕ) → i ≢ j → at t' j ≡ at (three zombie) j)
wait_round-reaps_example =
    wait_round-reaps 1 2 (three zombie) (record { child = refl; dead = refl })

three-below : (i : ℕ) → Live (at (three running) i) → (at (three running) i).pid < 4
three-below zero l = omega arith
three-below (suc zero) l = omega arith
three-below (suc (suc zero)) l = omega arith
three-below (suc (suc (suc zero))) l = omega arith
three-below (suc (suc (suc (suc i)))) l = omega arith

three-pid : (i : ℕ) → Live (at (three running) i) → (at (three running) i).pid ≡ suc i
three-pid zero l = refl
three-pid (suc zero) l = refl
three-pid (suc (suc zero)) l = refl
three-pid (suc (suc (suc zero))) l = cc
three-pid (suc (suc (suc (suc i)))) l = cc

three-IsNumbered : IsNumbered (three running)
three-IsNumbered = record {
  distinct = λ i j a b e. omega (arith, three-pid i a, three-pid j b, e);
  below = three-below;
}

-- A wakeup and a kill.
Reach-IsNumbered_example : IsNumbered (kill 3 (wakeup (slot 1) (three running))).1
Reach-IsNumbered_example =
    Reach-IsNumbered three-IsNumbered (next (next here (wakes (slot 1))) (kills 3))

-- A process in user mode with a handler and a message.
abbrev signalled : Proc
signalled = record zero_proc {
  tf = record zero_tf { eip = 100; cs = 27; esp = 12288 };
  handler = 64;
  dis_sig = 0;
  intr = 1;
  message = replicate 8 65;
}

abbrev trampoline : List ℕ
trampoline = 184 ∷ (31 ∷ (0 ∷ (0 ∷ (0 ∷ (205 ∷ (64 ∷ []))))))

abbrev blank_memory : ℕ → ℕ
blank_memory a = 0

signalled-takes_signal : takes_signal signalled ≡ true
unfolding takes_signal
signalled-takes_signal = refl

check_traps_frame_example :
    (let (p', mem') = check_traps trampoline signalled blank_memory in
      (p'.tf.esp ≡ 12273)
      × (p'.tf.eip ≡ 64)
      × (mem' 12277 ≡ (
          if leb 12273 12277 && ltb 12277 12288
          then frame_byte trampoline (replicate 8 65) 12281 4
          else if leb 0 12277 && ltb 12277 (0 + 76)
          then get_or (words (frame_words signalled.tf)) (12277 - 0) 0
          else 0)))
check_traps_frame_example =
    check_traps_frame trampoline signalled blank_memory 12277 signalled-takes_signal refl
      (omega arith) (omega arith) (omega arith) (omega arith)

-- A table of 64 slots that are not in use.
abbrev all_unused : Table
all_unused = record { procs = replicate 64 zero_proc; nextpid = 1; initproc = 0 }
