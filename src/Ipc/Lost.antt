-- ===== src/Ipc/Lost.antt =====
-- Two ways in which `sys_send` and `sys_recv` of xv6A1/sysproc.c fail.
use operating_system_design.Prelude.{
  ℕ, ◌+◌, ◌<◌, ◌≤◌, ◌≡◌, ◌≢◌, refl, ◌∙◌, true, false, Option, none, some, List, get_or, set,
  is_nonpos, minus_one, length, arith, lt→ltb, ne→==, eq→==, get_or-set_self,
}
use operating_system_design.Proc.{nproc, msg_size}
use operating_system_design.Ipc.{
  Mailbox, Sent, Received, returned, got, asleep, free_slot, find_slot, send_slot, send_waiting,
  sys_send, recv_slot, recv_wait, sys_recv, recv_woken, put_bytes,
}
use operating_system_design.Ipc.Delivery.{inbox, Free, free_slot-Free}

full-none :
    (ds : List ℕ) (o : Option ℕ)
    → ((i : ℕ) → i < length ds → is_nonpos (get_or ds i 0) ≡ false)
    → Free 0 ds o
    → o ≡ none
full-none ds none full f = refl
full-none ds (some i) full (j, e, lt, free) = cc (full j lt, free)

-- With the lock free, no slot free, and the receiver not waiting, with a pid below NPROC, `sys_send`
-- returns -1 and keeps the lock: after it no process can send or receive anything.
pub sys_send_full :
    (s r : ℕ) (m : List ℕ) (b : Mailbox) (s' r' me : ℕ) (m' ptr : List ℕ)
    → b.locked ≡ false
    → r < nproc
    → get_or b.waiting r 0 ≢ 1
    → ((i : ℕ) → i < length b.dest → is_nonpos (get_or b.dest i 0) ≡ false)
    → (b' : Mailbox) × (sys_send s r m b ≡ returned minus_one b')
      × (sys_send s' r' m' b' ≡ Sent.stuck)
      × (sys_recv me ptr b' ≡ Received.stuck)
unfolding sys_send sys_recv send_slot
sys_send_full s r m b s' r' me m' ptr open_lock small awake full = (
  record b { locked = true },
  simp
      (
        open_lock,
        lt→ltb r nproc small,
        ne→== _ _ awake,
        full-none b.dest (free_slot 0 b.dest) full (free_slot-Free 0 b.dest),
      )
      refl,
  refl,
  refl,
)

-- What `sys_recv` leaves where it sleeps.
recv_wait-asleep :
    (me : ℕ) (ptr : List ℕ) (b b' : Mailbox)
    → me < length b.waiting
    → recv_wait me ptr b ≡ asleep b'
    → (b'.locked ≡ false) × (get_or b'.waiting me 0 ≡ 1)
unfolding recv_wait
recv_wait-asleep me ptr b b' waits e = ground (arith, get_or-set_self b.waiting me 1 0 waits)

recv_slot-asleep :
    (me : ℕ) (ptr : List ℕ) (b b' : Mailbox) (o : Option ℕ)
    → me < length b.waiting
    → recv_slot me ptr b o ≡ asleep b'
    → (b'.locked ≡ false) × (get_or b'.waiting me 0 ≡ 1)
unfolding recv_slot
recv_slot-asleep me ptr b b' none waits e = recv_wait-asleep me ptr b b' waits e
recv_slot-asleep me ptr b b' (some i) waits e = cc e

sys_recv-asleep :
    (me : ℕ) (ptr : List ℕ) (b b' : Mailbox)
    → me < length b.waiting
    → sys_recv me ptr b ≡ asleep b'
    → (b'.locked ≡ false) × (get_or b'.waiting me 0 ≡ 1)
unfolding sys_recv
sys_recv-asleep me ptr b b' waits e =
    recv_slot-asleep me ptr b b' (find_slot me 0 b.dest) waits (ground arith)

send_to_sleeper :
    (s me : ℕ) (m : List ℕ) (b : Mailbox)
    → me + msg_size ≤ nproc
    → b.locked ≡ false
    → get_or b.waiting me 0 ≡ 1
    → sys_send s me m b ≡ send_waiting me m b
unfolding sys_send
send_to_sleeper s me m b room e w = simp (e, lt→ltb me nproc (omega arith), eq→== _ _ w) refl

send_waiting-room :
    (me : ℕ) (m : List ℕ) (b : Mailbox)
    → me + msg_size ≤ nproc
    → send_waiting me m b
      ≡ returned 0 (record b {
        locked = false;
        wait_msgs = put_bytes m me b.wait_msgs;
        waiting = set b.waiting me 0;
      })
unfolding send_waiting
send_waiting-room me m b room = ground arith

-- If `sys_recv` has put its caller to sleep, the next `sys_send` to it returns 0, but queues its
-- message for nobody, and the woken `sys_recv` returns with the user's bytes as they were: for a
-- pid at which the arrays of NPROC entries have room for a message.
pub sys_send_late :
    (s me : ℕ) (m ptr user : List ℕ) (b b' : Mailbox)
    → me + msg_size ≤ nproc
    → me < length b.waiting
    → sys_recv me ptr b ≡ asleep b'
    → (b'' : Mailbox) × (sys_send s me m b' ≡ returned 0 b'')
      × ((p : ℕ) → inbox p b'' ≡ inbox p b')
      × (recv_woken user b'' ≡ got user b'')
unfolding recv_woken
sys_send_late s me m ptr user b b' room waits e =
    let facts = sys_recv-asleep me ptr b b' waits e in
    (
      record b' {
        locked = false;
        wait_msgs = put_bytes m me b'.wait_msgs;
        waiting = set b'.waiting me 0;
      },
      send_to_sleeper s me m b' room facts.0 facts.1 ∙ send_waiting-room me m b' room,
      λ p. refl,
      refl,
    )
