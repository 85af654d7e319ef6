-- ===== src/Proc/Signal.antt =====
-- xv6A1/proc.c: `proc_sigset`, `proc_sigsend`, `checkTraps` and `proc_sigret`, and the loop of
-- `sys_send_multi` in xv6A1/sysproc.c.
use operating_system_design.Prelude.{
  ℕ, ◌+◌, ◌-◌, ◌%◌, Bool, true, false, not, ◌&&◌, ◌||◌, Option, none, some, List, [], ◌∷◌, ◌==◌,
  ltb, leb, set, get_or, length, if◌then◌else◌, minus_one, sub32, is_neg, words, bytes32, get_words,
}
use operating_system_design.Proc.{TrapFrame, Proc, Table, at, nproc}

-- `proc_sigset` for the current process: the handler that was set before.
unfoldable pub proc_sigset : ℕ → ℕ → Table → ℕ × Table
proc_sigset cur sh t =
    ((at t cur).handler, record t { procs = set t.procs cur (record (at t cur) { handler = sh }) })

-- `proc_sigsend`. It takes `to_pid` for the index of a slot, and does not check it: `none` is the
-- access outside the table. `from_pid` is not used.
unfoldable pub proc_sigsend : ℕ → ℕ → List ℕ → Table → Option (ℕ × Table)
proc_sigsend from_pid to_pid msg t =
    if ltb to_pid nproc
    then some (
      0,
      record t { procs = set t.procs to_pid (record (at t to_pid) { intr = 1; message = msg }) },
    )
    else none

-- The words of a trap frame in the order of `struct trapframe`, and the frame of such words.
abbrev pub frame_words : TrapFrame → List ℕ
frame_words tf =
    tf.edi
    ∷ (tf.esi
        ∷ (tf.ebp
            ∷ (tf.oesp
                ∷ (tf.ebx
                    ∷ (tf.edx
                        ∷ (tf.ecx
                            ∷ (tf.eax
                                ∷ (tf.gs
                                    ∷ (tf.fs
                                        ∷ (tf.es
                                            ∷ (tf.ds
                                                ∷ (tf.trapno
                                                    ∷ (tf.err
                                                        ∷ (tf.eip
                                                            ∷ (tf.cs
                                                            ∷ (tf.eflags
                                                            ∷ (tf.esp
                                                            ∷ (tf.ss ∷ []))))))))))))))))))

abbrev pub trap_frame_of : List ℕ → TrapFrame
trap_frame_of ws = record {
  edi = get_or ws 0 0;
  esi = get_or ws 1 0;
  ebp = get_or ws 2 0;
  oesp = get_or ws 3 0;
  ebx = get_or ws 4 0;
  edx = get_or ws 5 0;
  ecx = get_or ws 6 0;
  eax = get_or ws 7 0;
  gs = get_or ws 8 0;
  fs = get_or ws 9 0;
  es = get_or ws 10 0;
  ds = get_or ws 11 0;
  trapno = get_or ws 12 0;
  err = get_or ws 13 0;
  eip = get_or ws 14 0;
  cs = get_or ws 15 0;
  eflags = get_or ws 16 0;
  esp = get_or ws 17 0;
  ss = get_or ws 18 0;
}

-- `memmove` of bytes to an address of memory, which is what the process's page table shows.
unfoldable pub copy_out : List ℕ → ℕ → (ℕ → ℕ) → ℕ → ℕ
copy_out bytes a mem x =
    if leb a x && ltb x (a + length bytes) then get_or bytes (x - a) 0 else mem x

-- `checkTraps` for the process of the trap frame, past its first test: whether a signal is taken.
-- `dis_sig`, `handler`, the first byte of the message, and `intr` are tested in this order.
unfoldable pub takes_signal : Proc → Bool
takes_signal p =
    if not (p.tf.cs % 4 == 3)
    then false
    else if (p.dis_sig == 1) || (p.handler == minus_one)
    then false
    else if (get_or p.message 0 0 == 0xff) || not (p.intr == 1)
    then false
    else true

-- The rest of `checkTraps`: `code` is the trampoline `invoke_sigret`, `mem` the memory. The trap
-- frame goes to the address in `prev_tf`, which nothing in the kernel sets: it is 0, and that is an
-- address of the user's memory.
unfoldable pub deliver : List ℕ → Proc → (ℕ → ℕ) → Proc × (ℕ → ℕ)
deliver code p mem =
    let esp1 = sub32 p.tf.esp (length code) in
    let mem0 = copy_out (words (frame_words p.tf)) p.prev_tf mem in
    let mem1 = copy_out code esp1 mem0 in
    let mem2 = copy_out p.message (sub32 esp1 4) mem1 in
    let mem3 = copy_out (bytes32 esp1) (sub32 esp1 8) mem2 in
    let tf' = record (p.tf) { esp = sub32 esp1 8; eip = p.handler } in
    (record p { dis_sig = 1; intr = 0; tf = tf'; message = set p.message 0 0xff }, mem3)

unfoldable pub check_traps : List ℕ → Proc → (ℕ → ℕ) → Proc × (ℕ → ℕ)
check_traps code p mem = if takes_signal p then deliver code p mem else (p, mem)

-- `proc_sigret`, with the frame read from the address in `prev_tf`.
unfoldable pub proc_sigret : Proc → (ℕ → ℕ) → Proc
proc_sigret p mem = record p { tf = trap_frame_of (get_words 19 mem p.prev_tf); dis_sig = 0 }

-- The loop of `sys_send_multi` in xv6A1/sysproc.c, over the pids that are left.
unfoldable pub send_multi : ℕ → List ℕ → List ℕ → Table → Option (ℕ × Table)
send_multi caller_pid [] msg t = some (0, t)
send_multi caller_pid (pid ∷ pids) msg t = elim (proc_sigsend caller_pid pid msg t) [
  | none ↦ none
  | some (retval, t') ↦
      let rest = send_multi caller_pid pids msg t' in
      if is_neg retval then some (minus_one, t') else rest
]
