-- ===== src/Proc.antt =====
-- xv6A1/proc.h and the process table of xv6A1/proc.c. A `struct proc *` is the index of its slot.
pub mod Exit
pub mod Life
pub mod Multi
pub mod Pids
pub mod Reap
pub mod Sched
pub mod Signal
pub mod Slots
pub mod Trap
pub mod Wake
use operating_system_design.Prelude.{
  ℕ, ◌+◌, ◌^◌, Bool, true, false, ◌&&◌, Option, none, some, List, [], ◌∷◌, get_or, ◌==◌, minus_one,
}

abbrev pub nproc : ℕ
nproc = 64

abbrev pub msg_size : ℕ
msg_size = 8

-- `enum procstate`
pub data ProcState : Type 0 where
  unused embryo sleeping runnable running zombie : ProcState

abbrev pub is_unused : ProcState → Bool
is_unused unused = true
is_unused _ = false

abbrev pub is_sleeping : ProcState → Bool
is_sleeping sleeping = true
is_sleeping _ = false

abbrev pub is_runnable : ProcState → Bool
is_runnable runnable = true
is_runnable _ = false

abbrev pub is_running : ProcState → Bool
is_running running = true
is_running _ = false

abbrev pub is_zombie : ProcState → Bool
is_zombie zombie = true
is_zombie _ = false

-- A sleep channel: null, the address of a slot of the table, or another address.
pub data Chan : Type 0 where
  null : Chan
  slot : ℕ → Chan
  addr : ℕ → Chan

abbrev pub chan_eq : Chan → Chan → Bool
chan_eq null null = true
chan_eq (slot i) (slot j) = i == j
chan_eq (addr a) (addr b) = a == b
chan_eq _ _ = false

-- The pointer `p->parent` as a channel, for `wakeup1(curproc->parent)`.
abbrev pub parent_chan : Option ℕ → Chan
parent_chan none = null
parent_chan (some i) = slot i

abbrev pub is_slot : Option ℕ → ℕ → Bool
is_slot none i = false
is_slot (some j) i = j == i

-- `struct trapframe`, word by word: a segment register and the padding behind it are one word.
pub record TrapFrame : Type 0 where
  pub edi : ℕ
  pub esi : ℕ
  pub ebp : ℕ
  pub oesp : ℕ
  pub ebx : ℕ
  pub edx : ℕ
  pub ecx : ℕ
  pub eax : ℕ
  pub gs : ℕ
  pub fs : ℕ
  pub es : ℕ
  pub ds : ℕ
  pub trapno : ℕ
  pub err : ℕ
  pub eip : ℕ
  pub cs : ℕ
  pub eflags : ℕ
  pub esp : ℕ
  pub ss : ℕ

-- `struct proc`. Pointers to pages, files and inodes are numbers, 0 for null, but
-- for `tf`, the frame on the kernel's stack.
pub record Proc : Type 0 where
  pub sz : ℕ
  pub pgdir : ℕ
  pub kstack : ℕ
  pub state : ProcState
  pub pid : ℕ
  pub parent : Option ℕ
  pub tf : TrapFrame
  pub chan : Chan
  pub killed : ℕ
  pub ofile : List ℕ
  pub cwd : ℕ
  pub name : List ℕ
  pub handler : ℕ
  pub dis_sig : ℕ
  pub prev_tf : ℕ
  pub intr : ℕ
  pub message : List ℕ

abbrev pub zero_tf : TrapFrame
zero_tf = record {
  edi = 0;
  esi = 0;
  ebp = 0;
  oesp = 0;
  ebx = 0;
  edx = 0;
  ecx = 0;
  eax = 0;
  gs = 0;
  fs = 0;
  es = 0;
  ds = 0;
  trapno = 0;
  err = 0;
  eip = 0;
  cs = 0;
  eflags = 0;
  esp = 0;
  ss = 0;
}

-- A slot of the zeroed table.
abbrev pub zero_proc : Proc
zero_proc = record {
  sz = 0;
  pgdir = 0;
  kstack = 0;
  state = unused;
  pid = 0;
  parent = none;
  tf = zero_tf;
  chan = null;
  killed = 0;
  ofile = [];
  cwd = 0;
  name = [];
  handler = 0;
  dis_sig = 0;
  prev_tf = 0;
  intr = 0;
  message = [];
}

-- `ptable.proc`, `nextpid` and `initproc`. The lock is left out: each function below runs its
-- critical section whole.
pub record Table : Type 0 where
  pub procs : List Proc
  pub nextpid : ℕ
  pub initproc : ℕ

abbrev pub at : Table → ℕ → Proc
at t i = get_or t.procs i zero_proc

-- What these functions ask of the other parts of the kernel, in order.
pub data Call : Type 0 where
  kfree : ℕ → Call
  freevm : ℕ → Call
  switchuvm : ℕ → Call
  filedup : ℕ → Call
  fileclose : ℕ → Call
  idup : ℕ → Call
  iput : ℕ → Call
