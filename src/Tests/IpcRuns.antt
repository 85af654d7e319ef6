-- ===== src/Tests/IpcRuns.antt =====
-- Messages of xv6A1/sysproc.c between processes 3 and 5, in a buffer of two slots.
use operating_system_design.Prelude.{
  ℕ, zero, suc, ◌<◌, ◌≡◌, refl, false, List, [], ◌∷◌, get_or, set, replicate, arith, is_nonpos,
  minus_one,
}
use operating_system_design.Ipc.{
  Mailbox, Sent, Received, returned, got, asleep, sys_send, sys_recv, recv_slot, recv_wait,
  find_slot, recv_woken, put_bytes,
}
use operating_system_design.Ipc.Delivery.{
  inbox, inbox_of, IsIdle, Delivered, Fetched, sys_send-Delivered, sys_recv-Fetched,
}
use operating_system_design.Ipc.Lost.{sys_send_full, sys_send_late}

abbrev hello : List ℕ
hello = replicate 8 72

abbrev two_slots : ℕ → ℕ → Mailbox
two_slots first second = record {
  locked = false;
  msgs = hello ∷ (hello ∷ []);
  from = 3 ∷ (3 ∷ []);
  dest = first ∷ (second ∷ []);
  waiting = replicate 64 0;
  wait_msgs = replicate 64 0;
}

two_slots-IsIdle : (a b : ℕ) → IsIdle (two_slots a b)
two_slots-IsIdle a b = record { unlocked = refl; slots = refl }

sys_send-Delivered_example :
    (b' : Mailbox) × (sys_send 3 5 hello (two_slots 5 0) ≡ returned 0 b')
    × Delivered 5 hello (two_slots 5 0) b'
sys_send-Delivered_example =
    sys_send-Delivered 3 5 hello (two_slots 5 0) (two_slots-IsIdle 5 0) refl (omega arith)
      (omega arith) (1, omega arith, refl)

two_slots-inbox : inbox 5 (two_slots 4 5) ≡ hello ∷ []
unfolding inbox_of
two_slots-inbox = refl

sys_recv-Fetched_example :
    (b' : Mailbox) × (sys_recv 5 [] (two_slots 4 5) ≡ got hello b')
    × Fetched 5 [] (two_slots 4 5) b'
sys_recv-Fetched_example =
    sys_recv-Fetched 5 [] hello [] (two_slots 4 5) (two_slots-IsIdle 4 5) refl two_slots-inbox

all_taken : (i : ℕ) → i < 2 → is_nonpos (get_or (4 ∷ (5 ∷ [])) i 0) ≡ false
all_taken zero h = refl
all_taken (suc zero) h = refl
all_taken (suc (suc i)) h = absurd (omega arith)

sys_send_full_example :
    (b' : Mailbox) × (sys_send 3 5 hello (two_slots 4 5) ≡ returned minus_one b')
    × (sys_send 5 3 hello b' ≡ Sent.stuck)
    × (sys_recv 5 [] b' ≡ Received.stuck)
sys_send_full_example =
    sys_send_full 3 5 hello (two_slots 4 5) 5 3 5 hello [] refl (omega arith) (omega arith)
      all_taken

-- Process 5 waits; its pointer is 0x2ffc.
abbrev pointer : List ℕ
pointer = 252 ∷ (47 ∷ (0 ∷ (0 ∷ [])))

abbrev waits_5 : Mailbox
waits_5 = record (two_slots 4 0) {
  waiting = set (replicate 64 0) 5 1;
  wait_msgs = put_bytes pointer 5 (replicate 64 0);
}

waits_5-asleep : sys_recv 5 pointer (two_slots 4 0) ≡ asleep waits_5
unfolding sys_recv recv_slot recv_wait find_slot
waits_5-asleep = refl

sys_send_late_example :
    (b' : Mailbox) × (sys_send 3 5 hello waits_5 ≡ returned 0 b')
    × ((p : ℕ) → inbox p b' ≡ inbox p waits_5)
    × (recv_woken [] b' ≡ got [] b')
sys_send_late_example =
    sys_send_late 3 5 hello pointer [] (two_slots 4 0) waits_5 (omega arith) (omega arith)
      waits_5-asleep
