-- ===== src/Mail.antt =====
-- a2/sysproc.c: the message calls of the second kernel, with a ring of buffer indices for each pid.
-- The two locks are left out: each function runs its critical section whole, and releases both on
-- every path. The arguments are taken as fetched.
pub mod Ring
pub mod Owned
pub mod Sound
pub mod Order
use operating_system_design.Prelude.{
  ℕ, ◌+◌, ◌%◌, Bool, true, false, not, Option, none, some, List, [], ◌∷◌, get_or, set, ltb, ◌==◌,
  if◌then◌else◌, is_nonpos, minus_one,
}
use operating_system_design.Proc.{nproc}

abbrev pub max_queue_elements : ℕ
max_queue_elements = 500

-- `kernel_buffers`
pub record Kern : Type 0 where
  pub buffers : List (List ℕ)
  pub from_pids : List ℕ
  pub to_pids : List ℕ
  pub queue : List (List ℕ)
  pub head : List ℕ
  pub tail : List ℕ
  pub wait_queue : List ℕ

unfoldable pub enque : ℕ → ℕ → Kern → Kern
enque pid index k = record k {
  queue = set k.queue pid (set (get_or k.queue pid []) (get_or k.tail pid 0) index);
  tail = set k.tail pid ((get_or k.tail pid 0 + 1) % max_queue_elements);
}

-- `deque`: `none` is the -1 of an empty queue.
unfoldable pub deque : ℕ → Kern → Option ℕ × Kern
deque pid k = if get_or k.head pid 0 == get_or k.tail pid 0 then (none, k) else (
  some (get_or (get_or k.queue pid []) (get_or k.head pid 0) 0),
  record k { head = set k.head pid ((get_or k.head pid 0 + 1) % max_queue_elements) },
)

-- How `sys_send` ends: with a value and whether it wakes the receiver, or outside an array.
pub data Sent : Type 0 where
  returned : ℕ → Bool → Kern → Sent
  fault : Sent

-- How a round of the loop of `sys_recv` ends: with a message, asleep, or outside an array.
pub data Received : Type 0 where
  got : List ℕ → Kern → Received
  asleep : Kern → Received
  fault : Received

-- The loop of `sys_send`: the first buffer from `i` on with `to_pids[i] <= 0`.
unfoldable pub free_buffer : ℕ → List ℕ → Option ℕ
free_buffer i [] = none
free_buffer i (p ∷ ps) = if is_nonpos p then some i else free_buffer (i + 1) ps

-- The message goes into buffer `i`, and `i` into the receiver's queue.
unfoldable pub store : ℕ → ℕ → List ℕ → ℕ → Kern → Kern
store sender_pid rec_pid msg i k = enque rec_pid i (record k {
  buffers = set k.buffers i msg;
  from_pids = set k.from_pids i sender_pid;
  to_pids = set k.to_pids i rec_pid;
})

-- The receiver leaves the wait queue.
unfoldable pub rouse : ℕ → Kern → Kern
rouse pid k =
    if get_or k.wait_queue pid 0 == 1 then record k { wait_queue = set k.wait_queue pid 0 } else k

unfoldable pub send_found : ℕ → ℕ → List ℕ → Kern → Option ℕ → Sent
send_found sender_pid rec_pid msg k none = returned minus_one false k
send_found sender_pid rec_pid msg k (some i) =
    if ltb rec_pid nproc
    then returned 0 (get_or k.wait_queue rec_pid 0 == 1)
        (rouse rec_pid (store sender_pid rec_pid msg i k))
    else fault

unfoldable pub sys_send : ℕ → ℕ → List ℕ → Kern → Sent
sys_send sender_pid rec_pid msg k = send_found sender_pid rec_pid msg k (free_buffer 0 k.to_pids)

-- What `sys_recv` does with buffer `i` once it has copied it: the buffer is free again.
unfoldable pub release_buffer : ℕ → Kern → Kern
release_buffer i k = record k {
  to_pids = set k.to_pids i minus_one;
  buffers = set k.buffers i (set (get_or k.buffers i []) 0 32);
}

unfoldable pub recv_found : ℕ → Option ℕ × Kern → Received
recv_found me (none, k) = asleep (record k { wait_queue = set k.wait_queue me 1 })
recv_found me (some i, k) = got (get_or k.buffers i []) (release_buffer i k)

-- One round of `sys_recv` by process `me`.
unfoldable pub sys_recv : ℕ → Kern → Received
sys_recv me k = if ltb me nproc then recv_found me (deque me k) else fault
