-- ===== src/Mail/Order.antt =====
-- The messages of a2/sysproc.c arrive in the order in which they were sent.
use mathlib.Core.Path.{subst, ap₂}
use operating_system_design.Prelude.{
  ℕ, zero, suc, ◌+◌, ◌<◌, ◌≡◌, ◌≢◌, refl, sym, ap, ◌∙◌, Bool, true, false, Option, none, some, List,
  [], ◌∷◌, ◌++◌, arith, length, get_or, set, get_or-set_self, get_or-set_ne, length-set, is_nonpos,
  minus_one, ◌==◌, lt→ltb, ne→==, Bool-cases, inl, inr,
}
use operating_system_design.Proc.{nproc}
use operating_system_design.Ipc.{free_slot}
use operating_system_design.Ipc.Delivery.{Free, free_slot-Free}
use operating_system_design.Mail.{
  Kern, max_queue_elements, enque, deque, returned, got, free_buffer, store, rouse, send_found,
  sys_send, release_buffer, recv_found, sys_recv,
}
use operating_system_design.Mail.Ring.{count, items, items_empty}
use operating_system_design.Mail.Owned.{messages, messages-set, messages-append}
use operating_system_design.Mail.Sound.{
  IsSound, IsPid, box, mailbox, popped, first, box-popped, box-popped_other, popped-IsSound,
  first-Absent, Own-first, box-enque_self, box-enque_full, box-enque_other, enque-IsSound,
  free-Absent, written-IsSound,
}

free_slot-free_buffer : (i : ℕ) (ps : List ℕ) → free_slot i ps ≡ free_buffer i ps
unfolding free_slot free_buffer
free_slot-free_buffer i [] = refl
free_slot-free_buffer i (p ∷ ps) = rw (free_slot-free_buffer (i + 1) ps) refl

free_buffer-Free : (i : ℕ) (ps : List ℕ) → Free i ps (free_buffer i ps)
free_buffer-Free i ps = subst (Free i ps) (free_slot-free_buffer i ps) (free_slot-Free i ps)

-- `k'` has one message more than `k`, the last of `r`'s.
pub record Queued (r : ℕ) (m : List ℕ) (k k' : Kern) : Type 0 where
  pub sound : IsSound k'
  pub mine : mailbox r k' ≡ mailbox r k ++ (m ∷ [])
  pub others : (p : ℕ) → IsPid p → p ≢ r → mailbox p k' ≡ mailbox p k

-- Buffer `i` was in use and is free, and every other is in use or free as before.
pub record Freed (i : ℕ) (ps ps' : List ℕ) : Type 0 where
  pub was : is_nonpos (get_or ps i 0) ≡ false
  pub now : is_nonpos (get_or ps' i 0) ≡ true
  pub others : (j : ℕ) → j ≢ i → get_or ps' j 0 ≡ get_or ps j 0
  pub size : length ps' ≡ length ps

-- `k'` has one message less than `k`, the first of `me`'s.
pub record Taken (me : ℕ) (rest : List (List ℕ)) (k k' : Kern) : Type 0 where
  pub sound : IsSound k'
  pub mine : mailbox me k' ≡ rest
  pub freed : (i : ℕ) × (box me k ≡ i ∷ box me k') × Freed i k.to_pids k'.to_pids
  pub others : (p : ℕ) → IsPid p → p ≢ me → mailbox p k' ≡ mailbox p k

-- How many messages wait for a pid.
abbrev pub queued : ℕ → Kern → ℕ
queued r k = count (get_or k.head r 0) (get_or k.tail r 0)

wake-IsSound : (k : Kern) (ws : List ℕ) → IsSound k → IsSound (record k { wait_queue = ws })
wake-IsSound k ws s = record {
  queues = s.queues;
  heads = s.heads;
  tails = s.tails;
  sizes = s.sizes;
  rows = s.rows;
  head_in = s.head_in;
  tail_in = s.tail_in;
  own = s.own;
  nodup = s.nodup;
}

rouse-Queued : (r : ℕ) (m : List ℕ) (k k' : Kern) → Queued r m k k' → Queued r m k (rouse r k')
unfolding rouse
rouse-Queued r m k k' q = elim (Bool-cases (get_or k'.wait_queue r 0 == 1)) [
  | inl e ↦ rw e (record {
    sound = wake-IsSound k' (set k'.wait_queue r 0) q.sound;
    mine = q.mine;
    others = q.others;
  })
  | inr e ↦ rw e q
]

module _ (s r : ℕ) (m : List ℕ) (i : ℕ) (k : Kern) (sound : IsSound k) (pid : IsPid r)
    (free : is_nonpos (get_or k.to_pids i 0) ≡ true) (inside : i < length k.to_pids) where
  -- Buffer `i` written, and not yet queued.
  abbrev filled : Kern
  filled = record k {
    buffers = set k.buffers i m;
    from_pids = set k.from_pids i s;
    to_pids = set k.to_pids i r;
  }

  filled-IsSound : IsSound filled
  filled-IsSound =
      written-IsSound k i r m (set k.from_pids i s) sound (λ p h. free-Absent k p i sound h free)

  pub store-Queued : queued r k + 1 < max_queue_elements → Queued r m k (store s r m i k)
  unfolding store enque
  store-Queued room =
      let away = free-Absent k r i sound pid free in
      record {
        sound =
            enque-IsSound filled filled-IsSound r i pid (get_or-set_self k.to_pids i r 0 inside)
              away room;
        mine =
            ap (messages (set k.buffers i m)) (box-enque_self filled filled-IsSound r i pid room)
            ∙ messages-append (set k.buffers i m) (box r k) i
            ∙ ap₂ (λ xs x. xs ++ (x ∷ [])) (messages-set k.buffers i m (box r k) away)
                (get_or-set_self k.buffers i m [] (omega (arith, sound.sizes)));
        others = λ p h ne.
            ap (messages (set k.buffers i m)) (box-enque_other filled filled-IsSound r i pid p ne)
            ∙ messages-set k.buffers i m (box p k) (free-Absent k p i sound h free);
      }

  store_full : queued r k + 1 ≡ max_queue_elements → mailbox r (store s r m i k) ≡ []
  unfolding store enque
  store_full last =
      ap (messages (set k.buffers i m)) (box-enque_full filled filled-IsSound r i pid last)

-- How `sys_send` ends for the buffer that its loop finds.
send_found-lem :
    (s r : ℕ) (m : List ℕ) (k : Kern) (o : Option ℕ)
    → IsSound k
    → IsPid r
    → Free 0 k.to_pids o
    → ((i : ℕ) × (i < length k.to_pids) × (is_nonpos (get_or k.to_pids i 0) ≡ true))
    → queued r k + 1 < max_queue_elements
    → (k' : Kern) × (send_found s r m k o ≡ returned 0 (get_or k.wait_queue r 0 == 1) k')
      × Queued r m k k'
unfolding send_found
send_found-lem s r m k none sound pid full (i, lt, free) room = cc (full i lt, free)
send_found-lem s r m k (some i) sound pid (j, e, lt, free) exists room =
    let same : j ≡ i = omega arith in
    let at : is_nonpos (get_or k.to_pids i 0) ≡ true = rw (← same) free in
    (
      rouse r (store s r m i k),
      rw (lt→ltb r nproc pid.1) refl,
      rouse-Queued r m k (store s r m i k) (store-Queued s r m i k sound pid at (omega arith) room),
    )

-- In a sound state with a buffer free and fewer than 499 messages waiting for the receiver, whose
-- pid is from 1 to NPROC - 1, `sys_send` returns 0 and wakes the receiver exactly when it is in the
-- wait queue. The message is then the last of the receiver's, no messages change that wait for
-- another pid from 1 to NPROC - 1, and the state is sound.
pub sys_send-Queued :
    (s r : ℕ) (m : List ℕ) (k : Kern)
    → IsSound k
    → IsPid r
    → ((i : ℕ) × (i < length k.to_pids) × (is_nonpos (get_or k.to_pids i 0) ≡ true))
    → queued r k + 1 < max_queue_elements
    → (k' : Kern) × (sys_send s r m k ≡ returned 0 (get_or k.wait_queue r 0 == 1) k')
      × Queued r m k k'
unfolding sys_send
sys_send-Queued s r m k sound pid free room =
    send_found-lem s r m k (free_buffer 0 k.to_pids) sound pid (free_buffer-Free 0 k.to_pids) free
      room

rouse-mailbox : (r p : ℕ) (k : Kern) → mailbox p (rouse r k) ≡ mailbox p k
unfolding rouse
rouse-mailbox r p k = elim (Bool-cases (get_or k.wait_queue r 0 == 1)) [
  | inl e ↦ rw e refl
  | inr e ↦ rw e refl
]

send_found_full :
    (s r : ℕ) (m : List ℕ) (k : Kern) (o : Option ℕ)
    → IsSound k
    → IsPid r
    → Free 0 k.to_pids o
    → ((i : ℕ) × (i < length k.to_pids) × (is_nonpos (get_or k.to_pids i 0) ≡ true))
    → queued r k + 1 ≡ max_queue_elements
    → (w : Bool) × (k' : Kern) × (send_found s r m k o ≡ returned 0 w k') × (mailbox r k' ≡ [])
unfolding send_found
send_found_full s r m k none sound pid full (i, lt, free) last = cc (full i lt, free)
send_found_full s r m k (some i) sound pid (j, e, lt, free) exists last =
    let same : j ≡ i = omega arith in
    let at : is_nonpos (get_or k.to_pids i 0) ≡ true = rw (← same) free in
    (
      get_or k.wait_queue r 0 == 1,
      rouse r (store s r m i k),
      rw (lt→ltb r nproc pid.1) refl,
      rouse-mailbox r r (store s r m i k) ∙ store_full s r m i k sound pid at (omega arith) last,
    )

-- In a sound state with a buffer free and 499 messages waiting for the receiver, whose pid is from 1
-- to NPROC - 1, `sys_send` returns 0, and then no message waits for the receiver: all 500 are lost
-- to it.
pub sys_send_overflow :
    (s r : ℕ) (m : List ℕ) (k : Kern)
    → IsSound k
    → IsPid r
    → ((i : ℕ) × (i < length k.to_pids) × (is_nonpos (get_or k.to_pids i 0) ≡ true))
    → queued r k + 1 ≡ max_queue_elements
    → (w : Bool) × (k' : Kern) × (sys_send s r m k ≡ returned 0 w k') × (mailbox r k' ≡ [])
unfolding sys_send
sys_send_overflow s r m k sound pid free last =
    send_found_full s r m k (free_buffer 0 k.to_pids) sound pid (free_buffer-Free 0 k.to_pids) free
      last

mailbox-ne :
    (me : ℕ) (k : Kern) (m : List ℕ) (rest : List (List ℕ))
    → IsSound k
    → IsPid me
    → mailbox me k ≡ m ∷ rest
    → get_or k.head me 0 ≢ get_or k.tail me 0
mailbox-ne me k m rest s pid e same =
    let row = get_or k.queue me [] in
    let nothing : box me k ≡ [] =
      ap (items row (get_or k.head me 0)) (sym same)
      ∙ items_empty row (get_or k.head me 0) (s.head_in me pid) in
    cc (e, ap (messages k.buffers) nothing)

release-Freed :
    (i me : ℕ) (ps : List ℕ) → IsPid me → get_or ps i 0 ≡ me → Freed i ps (set ps i minus_one)
release-Freed i me ps pid mine = record {
  was = rw mine (ground (arith, pid));
  now = rw (get_or-set_self ps i minus_one 0 (inside i ps (omega (arith, mine, pid)))) refl;
  others = λ j ne. get_or-set_ne ps i j minus_one 0 (λ e. ne (sym e));
  size = length-set ps i minus_one;
}
  where
    inside : (i : ℕ) (ps : List ℕ) → 0 < get_or ps i 0 → i < length ps
    inside i [] pos = absurd (omega (arith, pos))
    inside zero (p ∷ ps) pos = omega arith
    inside (suc i) (p ∷ ps) pos = omega (arith, inside i ps pos)

release_buffer-Taken :
    (me : ℕ) (k : Kern) (m : List ℕ) (rest : List (List ℕ)) (s : IsSound k) (pid : IsPid me)
    (ne : get_or k.head me 0 ≢ get_or k.tail me 0)
    → mailbox me k ≡ m ∷ rest
    → (get_or k.buffers (first k s me pid ne) [] ≡ m)
      × Taken me rest k (release_buffer (first k s me pid ne) (popped k s me pid ne))
unfolding release_buffer
release_buffer-Taken me k m rest s pid ne e =
    let i = first k s me pid ne in
    let k' = popped k s me pid ne in
    let blanked = set (get_or k.buffers i []) 0 32 in
    let away = first-Absent k s me pid ne in
    let split : get_or k.buffers i [] ∷ messages k.buffers (box me k') ≡ m ∷ rest =
      sym (ap (messages k.buffers) (box-popped k s me pid ne)) ∙ e in
    (
      cc split,
      record {
        sound =
            written-IsSound k' i minus_one blanked k.from_pids (popped-IsSound k s me pid ne) away;
        mine = messages-set k.buffers i blanked (box me k') (away me pid) ∙ cc split;
        freed = (
          i,
          box-popped k s me pid ne,
          release-Freed i me k.to_pids pid (Own-first k s me pid ne).0,
        );
        others = λ p h other.
            messages-set k.buffers i blanked (box p k') (away p h)
            ∙ ap (messages k.buffers) (box-popped_other k s me pid ne p other);
      },
    )

-- In a sound state with a message waiting for the caller, whose pid is from 1 to NPROC - 1, a round
-- of `sys_recv` takes the first one and frees the buffer at the head of the caller's queue and no
-- other: the buffer was in use, and `sys_send` takes it for free now. The caller's other messages
-- stay in order, no messages change that wait for another pid from 1 to NPROC - 1, and the state is
-- sound.
pub sys_recv-Taken :
    (me : ℕ) (m : List ℕ) (rest : List (List ℕ)) (k : Kern)
    → IsSound k
    → IsPid me
    → mailbox me k ≡ m ∷ rest
    → (k' : Kern) × (sys_recv me k ≡ got m k') × Taken me rest k k'
unfolding sys_recv deque recv_found
sys_recv-Taken me m rest k s pid e =
    let ne = mailbox-ne me k m rest s pid e in
    let (found, taken) = release_buffer-Taken me k m rest s pid ne e in
    (
      release_buffer (first k s me pid ne) (popped k s me pid ne),
      rw (lt→ltb me nproc pid.1, ne→== _ _ ne)
          (ap (λ x. got x (release_buffer (first k s me pid ne) (popped k s me pid ne))) found),
      taken,
    )
