-- ===== src/Ipc.antt =====
-- The message calls of xv6A1/sysproc.c: `sys_send` and `sys_recv` over the global `buf`. An `int`
-- is its bit pattern. The arguments are taken as fetched: the code ignores what `argint` and
-- `argptr` return.
pub mod Delivery
pub mod Lost
use operating_system_design.Prelude.{
  ℕ, zero, suc, ◌+◌, ◌<◌, Bool, true, false, not, ◌||◌, Option, none, some, List, [], ◌∷◌, ◌++◌,
  get_or, set, ltb, ◌==◌, if◌then◌else◌, is_nonpos, minus_one, length,
}
use operating_system_design.Proc.{nproc, msg_size}

-- `locs buf`: `locked` is `memLock`, `wait_msgs` an array of NPROC bytes.
pub record Mailbox : Type 0 where
  pub locked : Bool
  pub msgs : List (List ℕ)
  pub from : List ℕ
  pub dest : List ℕ
  pub waiting : List ℕ
  pub wait_msgs : List ℕ

-- How a call ends: it returns, it sleeps on the caller's pid, it finds the lock taken (and spins or
-- panics), or it leaves an array.
pub data Sent : Type 0 where
  returned : ℕ → Mailbox → Sent
  stuck : Sent
  fault : Sent

pub data Received : Type 0 where
  got : List ℕ → Mailbox → Received
  asleep : Mailbox → Received
  stuck : Received
  fault : Received

-- The loop of `sys_send`: the first slot from `i` on with `dest[i] <= 0`.
unfoldable pub free_slot : ℕ → List ℕ → Option ℕ
free_slot i [] = none
free_slot i (d ∷ ds) = if is_nonpos d then some i else free_slot (i + 1) ds

-- The loop of `sys_recv`: the first slot from `i` on for the caller.
unfoldable pub find_slot : ℕ → ℕ → List ℕ → Option ℕ
find_slot me i [] = none
find_slot me i (d ∷ ds) = if d == me then some i else find_slot me (i + 1) ds

-- `memmove` of bytes into an array from index `i` on.
unfoldable pub put_bytes : List ℕ → ℕ → List ℕ → List ℕ
put_bytes [] i xs = xs
put_bytes (b ∷ bs) i xs = put_bytes bs (i + 1) (set xs i b)

-- `sys_send` to a receiver that waits; the wakeup of `rec_pid` is the caller's business.
unfoldable pub send_waiting : ℕ → List ℕ → Mailbox → Sent
send_waiting rec_pid msg b =
    if ltb nproc (rec_pid + msg_size)
    then fault
    else returned 0 (record b {
      locked = false;
      wait_msgs = put_bytes msg rec_pid b.wait_msgs;
      waiting = set b.waiting rec_pid 0;
    })

-- `sys_send` for the slot that its loop finds. Where there is none it returns -1 with the lock
-- held.
unfoldable pub send_slot : ℕ → ℕ → List ℕ → Mailbox → Option ℕ → Sent
send_slot sender_pid rec_pid msg b none = returned minus_one (record b { locked = true })
send_slot sender_pid rec_pid msg b (some i) = returned 0 (record b {
  locked = false;
  msgs = set b.msgs i msg;
  from = set b.from i sender_pid;
  dest = set b.dest i rec_pid;
})

unfoldable pub sys_send : ℕ → ℕ → List ℕ → Mailbox → Sent
sys_send sender_pid rec_pid msg b =
    if b.locked
    then stuck
    else if not (ltb rec_pid nproc)
    then fault
    else if get_or b.waiting rec_pid 0 == 1
    then send_waiting rec_pid msg b
    else send_slot sender_pid rec_pid msg b (free_slot 0 b.dest)

-- `empty`: seven spaces and a NUL.
abbrev pub blank : List ℕ
blank = 32 ∷ (32 ∷ (32 ∷ (32 ∷ (32 ∷ (32 ∷ (32 ∷ (0 ∷ [])))))))

-- `sys_recv` where its loop finds nothing: `argptr` puts the four bytes of the user's pointer into
-- `wait_msgs`, and the sleep releases the lock.
unfoldable pub recv_wait : ℕ → List ℕ → Mailbox → Received
recv_wait me ptr b =
    if ltb nproc (me + 4)
    then fault
    else asleep (record b {
      locked = false;
      waiting = set b.waiting me 1;
      wait_msgs = put_bytes ptr me b.wait_msgs;
    })

unfoldable pub recv_slot : ℕ → List ℕ → Mailbox → Option ℕ → Received
recv_slot me ptr b none = recv_wait me ptr b
recv_slot me ptr b (some i) =
    got (get_or b.msgs i [])
      (record b { locked = false; dest = set b.dest i minus_one; msgs = set b.msgs i blank })

-- `sys_recv` by process `me`, up to its return or its sleep.
unfoldable pub sys_recv : ℕ → List ℕ → Mailbox → Received
sys_recv me ptr b = if b.locked then stuck else recv_slot me ptr b (find_slot me 0 b.dest)

-- `sys_recv` from its wakeup on, for the bytes at the user's pointer: it returns 0, and copies
-- nothing.
unfoldable pub recv_woken : List ℕ → Mailbox → Received
recv_woken user b = if b.locked then stuck else got user b
