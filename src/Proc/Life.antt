-- ===== src/Proc/Life.antt =====
-- xv6A1/proc.c: `allocproc`, `growproc`, `fork`, `exit` and one round of `wait`. What `kalloc`,
-- `copyuvm`, `allocuvm` and `deallocuvm` return are arguments, 0 for a failure.
use operating_system_design.Prelude.{
  ℕ, ◌+◌, Bool, true, false, not, ◌&&◌, ◌||◌, Option, none, some, List, [], ◌∷◌, ◌++◌, ◌==◌, set,
  if◌then◌else◌, minus_one, is_neg, add32,
}
use operating_system_design.Proc.{
  unused, embryo, runnable, zombie, is_unused, is_zombie, is_slot, parent_chan, slot, Proc, Table,
  at, Call, kfree, freevm, switchuvm, filedup, fileclose, idup, iput,
}
use operating_system_design.Proc.Sched.{wakeup, sleep}

-- The loop of `allocproc`, from slot `i` on.
unfoldable pub find_unused : ℕ → List Proc → Option ℕ
find_unused i [] = none
find_unused i (p ∷ ps) = if is_unused p.state then some i else find_unused (i + 1) ps

abbrev put : Table → ℕ → Proc → Table
put t i p = record t { procs = set t.procs i p }

-- `found:` up to the release of the lock.
unfoldable pub claim : ℕ → Table → Table
claim i t = record t {
  procs = set t.procs i (record (at t i) { state = embryo; pid = t.nextpid });
  nextpid = add32 t.nextpid 1;
}

-- `allocproc` after the lock. What the new frame holds is undefined until `fork` fills it in.
unfoldable pub equip : ℕ → ℕ → Table → Option ℕ × Table
equip kstack i t =
    if kstack == 0
    then (none, put t i (record (at t i) { kstack = 0; state = unused }))
    else (some i, put t i (record (at t i) { kstack = kstack; dis_sig = 0; handler = minus_one }))

-- `allocproc` for the result of its loop.
unfoldable pub allocate : ℕ → Table → Option ℕ → Option ℕ × Table
allocate kstack t none = (none, t)
allocate kstack t (some i) = equip kstack i (claim i t)

unfoldable pub allocproc : ℕ → Table → Option ℕ × Table
allocproc kstack t = allocate kstack t (find_unused 0 t.procs)

-- `growproc` for the current process: `grown` and `shrunk` are what `allocuvm` and `deallocuvm`
-- return for the old and the new size.
unfoldable pub growproc : (n cur : ℕ) (grown shrunk : ℕ → ℕ → ℕ) → Table → ℕ × Table × List Call
growproc n cur grown shrunk t =
    let p = at t cur in
    let sz =
      if n == 0
      then p.sz
      else if is_neg n
      then shrunk p.sz (add32 p.sz n)
      else grown p.sz (add32 p.sz n) in
    if not (n == 0) && (sz == 0)
    then (minus_one, t, [])
    else (0, put t cur (record p { sz = sz }), switchuvm cur ∷ [])

-- The loop of `fork` over `ofile`: the child's new list and the files that gained a reference.
unfoldable pub dup_files : List ℕ → List ℕ → List ℕ × List Call
dup_files [] child = (child, [])
dup_files (f ∷ fs) [] = ([], [])
dup_files (f ∷ fs) (c ∷ cs) =
    let (rest, calls) = dup_files fs cs in
    if f == 0 then (c ∷ rest, calls) else (f ∷ rest, filedup f ∷ calls)

-- The child that `fork` fills in, in slot `np`, without its state. A name is a text up to its NUL.
unfoldable pub fill_child : Proc → ℕ → ℕ → Proc → Proc
fill_child p cur pgdir c = record c {
  pgdir = pgdir;
  sz = p.sz;
  parent = some cur;
  tf = record (p.tf) { eax = 0 };
  handler = p.handler;
  dis_sig = 0;
  intr = 0;
  message = set c.message 0 0xff;
  ofile = (dup_files p.ofile c.ofile).0;
  cwd = p.cwd;
  name = p.name;
}

unfoldable pub fork_into : ℕ → ℕ → ℕ → Table → ℕ × Table × List Call
fork_into pgdir cur np t =
    let p = at t cur in
    let c = at t np in
    if pgdir == 0
    then (
      minus_one,
      put t np (record c { pgdir = 0; kstack = 0; state = unused }),
      kfree c.kstack ∷ [],
    )
    else (
      c.pid,
      put t np (record (fill_child p cur pgdir c) { state = runnable }),
      (dup_files p.ofile c.ofile).1 ++ (idup p.cwd ∷ []),
    )

-- `fork` for the result of `allocproc`.
unfoldable pub fork_found : (pgdir cur : ℕ) → Option ℕ × Table → ℕ × Table × List Call
fork_found pgdir cur (none, t) = (minus_one, t, [])
fork_found pgdir cur (some np, t) = fork_into pgdir cur np t

unfoldable pub fork : (kstack pgdir cur : ℕ) → Table → ℕ × Table × List Call
fork kstack pgdir cur t = fork_found pgdir cur (allocproc kstack t)

-- The loop of `exit` over `ofile`.
unfoldable pub close_files : List ℕ → List ℕ × List Call
close_files [] = ([], [])
close_files (f ∷ fs) =
    let (rest, calls) = close_files fs in
    if f == 0 then (f ∷ rest, calls) else (0 ∷ rest, fileclose f ∷ calls)

-- The loop of `exit` that passes children to init: the slots, and whether init has to be woken.
unfoldable pub reparent : ℕ → ℕ → List Proc → List Proc × Bool
reparent cur init [] = ([], false)
reparent cur init (p ∷ ps) =
    let (rest, woken) = reparent cur init ps in
    if is_slot p.parent cur
    then (record p { parent = some init } ∷ rest, is_zombie p.state || woken)
    else (p ∷ rest, woken)

-- That loop on the table. `wakeup1(initproc)` in the loop and once behind it come to the same,
-- since the loop changes no state and no channel.
unfoldable pub pass_on : ℕ → Table → Table
pass_on cur t =
    let (procs, woken) = reparent cur t.initproc t.procs in
    let t' = record t { procs = procs } in if woken then wakeup (slot t.initproc) t' else t'

-- `exit` closes its files and gives up its directory.
unfoldable pub close_all : ℕ → Table → Table
close_all cur t =
    put t cur (record (at t cur) { ofile = (close_files (at t cur).ofile).0; cwd = 0 })

unfoldable pub mark_zombie : ℕ → Table → Table
mark_zombie cur t = put t cur (record (at t cur) { state = zombie })

-- The table after `exit`, up to `sched`.
unfoldable pub exit_table : ℕ → Table → Table
exit_table cur t =
    mark_zombie cur (pass_on cur (wakeup (parent_chan (at t cur).parent) (close_all cur t)))

-- `exit` up to `sched`: `none` where init exits, which is a panic.
unfoldable pub exit : ℕ → Table → Option (Table × List Call)
exit cur t =
    if cur == t.initproc
    then none
    else some (exit_table cur t, (close_files (at t cur).ofile).1 ++ (iput (at t cur).cwd ∷ []))

-- The scan of `wait`: `havekids`, and the slot where it finds a zombie child.
unfoldable pub wait_scan : ℕ → ℕ → Bool → List Proc → Bool × Option ℕ
wait_scan cur i havekids [] = (havekids, none)
wait_scan cur i havekids (p ∷ ps) =
    let next = wait_scan cur (i + 1) (is_slot p.parent cur || havekids) ps in
    if is_slot p.parent cur && is_zombie p.state then (true, some i) else next

-- The zombie's slot when `wait` has freed it.
unfoldable pub reap : Proc → Proc
reap p = record p {
  kstack = 0;
  pid = 0;
  parent = none;
  name = set p.name 0 0;
  killed = 0;
  state = unused;
}

-- One round of `wait`: it returns, or sleeps on the process's own slot and scans again when woken.
pub data Waited : Type 0 where
  returned : ℕ → Table → List Call → Waited
  asleep : Table → Waited

-- What the round does with the result of its scan.
unfoldable pub wait_answer : ℕ → Table → Bool × Option ℕ → Waited
wait_answer cur t (havekids, some i) =
    returned (at t i).pid (put t i (reap (at t i)))
      (kfree (at t i).kstack ∷ (freevm (at t i).pgdir ∷ []))
wait_answer cur t (havekids, none) =
    if not havekids || not ((at t cur).killed == 0)
    then returned minus_one t []
    else asleep (sleep cur (slot cur) t)

unfoldable pub wait_round : ℕ → Table → Waited
wait_round cur t = wait_answer cur t (wait_scan cur 0 false t.procs)
