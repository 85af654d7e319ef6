-- ===== src/Tests/MailRuns.antt =====
-- Messages of a2/sysproc.c to process 5, in a kernel of 500 buffers.
use operating_system_design.Prelude.{
  ℕ, zero, suc, ◌+◌, ◌%◌, ◌<◌, ◌≤◌, ◌≡◌, refl, sym, ap, ◌∙◌, Bool, false, List, [], ◌∷◌, ◌++◌,
  get_or, replicate, length, arith, length-replicate, length-set, get_or-set_self, get_or-set_ne,
}
use operating_system_design.Proc.{nproc}
use operating_system_design.Mail.{Kern, returned, got, sys_send, sys_recv, store, enque}
use operating_system_design.Mail.Ring.{items_empty}
use operating_system_design.Mail.Owned.{messages}
use operating_system_design.Mail.Sound.{IsSound, IsPid, box, mailbox}
use operating_system_design.Mail.Order.{
  Queued, Taken, queued, store-Queued, sys_send-Queued, sys_send_overflow, sys_recv-Taken,
}

get_or-replicate {ℓ} :
    {A : Type ℓ} (n : ℕ) (a d : A) (i : ℕ) → i < n → get_or (replicate n a) i d ≡ a
get_or-replicate zero a d i h = absurd (omega arith)
get_or-replicate (suc n) a d zero h = refl
get_or-replicate (suc n) a d (suc i) h = get_or-replicate n a d i (omega arith)

get_or-zeros : (n i : ℕ) → get_or (replicate n 0) i 0 ≡ zero
get_or-zeros zero i = refl
get_or-zeros (suc n) zero = refl
get_or-zeros (suc n) (suc i) = get_or-zeros n i

abbrev hello : List ℕ
hello = replicate 8 72

-- A kernel of `n` free buffers.
abbrev empty : ℕ → Kern
empty n = record {
  buffers = replicate n [];
  from_pids = replicate n 0;
  to_pids = replicate n 0;
  queue = replicate nproc (replicate 500 0);
  head = replicate nproc 0;
  tail = replicate nproc 0;
  wait_queue = replicate nproc 0;
}

empty-box : (n p : ℕ) → box p (empty n) ≡ []
empty-box n p =
    rw (get_or-zeros nproc p) (items_empty (get_or (empty n).queue p []) 0 (omega arith))

empty-IsSound : (n : ℕ) → IsSound (empty n)
empty-IsSound n = record {
  queues = length-replicate nproc (replicate {A = ℕ} 500 0);
  heads = length-replicate {A = ℕ} nproc 0;
  tails = length-replicate {A = ℕ} nproc 0;
  sizes = length-replicate {A = List ℕ} n [] ∙ sym (length-replicate {A = ℕ} n 0);
  rows = λ p h.
      ap length (get_or-replicate nproc (replicate {A = ℕ} 500 0) [] p h.1)
      ∙ length-replicate {A = ℕ} 500 0;
  head_in = λ p h. rw (get_or-zeros nproc p) (omega arith);
  tail_in = λ p h. rw (get_or-zeros nproc p) (omega arith);
  own = λ p h. rw (empty-box n p) tt;
  nodup = λ p h. rw (empty-box n p) tt;
}

sys_send-Queued_example :
    (k' : Kern) × (sys_send 3 5 hello (empty 2) ≡ returned 0 false k') × Queued 5 hello (empty 2) k'
sys_send-Queued_example =
    sys_send-Queued 3 5 hello (empty 2) (empty-IsSound 2) (omega arith) (0, omega arith, refl)
      (omega arith)

-- After one message.
abbrev one : Kern
one = store 3 5 hello 0 (empty 2)

one-Queued : Queued 5 hello (empty 2) one
one-Queued =
    store-Queued 3 5 hello 0 (empty 2) (empty-IsSound 2) (omega arith) refl (omega arith)
      (omega arith)

one-mailbox : mailbox 5 one ≡ hello ∷ []
one-mailbox =
    one-Queued.mine ∙ ap (λ xs. messages (replicate 2 []) xs ++ (hello ∷ [])) (empty-box 2 5)

sys_recv-Taken_example : (k' : Kern) × (sys_recv 5 one ≡ got hello k') × Taken 5 [] one k'
sys_recv-Taken_example = sys_recv-Taken 5 hello [] one one-Queued.sound (omega arith) one-mailbox

-- The kernel of 500 buffers after `n` messages to process 5.
fill : ℕ → Kern
fill zero = empty 500
fill (suc n) = store 3 5 hello n (fill n)

record Filled (n : ℕ) : Type 0 where
  sound : IsSound (fill n)
  many : queued 5 (fill n) ≡ n
  size : length (fill n).to_pids ≡ 500
  free : (i : ℕ) → n ≤ i → get_or (fill n).to_pids i 0 ≡ 0

fill-Filled : (n : ℕ) → n < 500 → Filled n
unfolding fill store enque
fill-Filled zero h = record {
  sound = empty-IsSound 500;
  many = omega arith;
  size = length-replicate {A = ℕ} 500 0;
  free = λ i lt. get_or-zeros 500 i;
}
fill-Filled (suc n) h =
    let f = fill-Filled n (omega arith) in
    let k = fill n in
    let pid : IsPid 5 = omega arith in
    record {
      sound =
          (store-Queued 3 5 hello n k f.sound pid (rw (f.free n (omega arith)) refl)
            (omega (arith, f.size)) (omega (arith, f.many))).sound;
      many =
          rw
            (get_or-set_self k.tail 5 ((get_or k.tail 5 0 + 1) % 500) 0
              (omega (arith, f.sound.tails)))
            (omega (arith, f.many, f.sound.head_in 5 pid, f.sound.tail_in 5 pid));
      size = length-set k.to_pids n 5 ∙ f.size;
      free = λ i lt. get_or-set_ne k.to_pids n i 5 0 (omega arith) ∙ f.free i (omega arith);
    }

-- 499 messages wait.
sys_send_overflow_example :
    (w : Bool) × (k' : Kern) × (sys_send 3 5 hello (fill 499) ≡ returned 0 w k')
    × (mailbox 5 k' ≡ [])
sys_send_overflow_example =
    sys_send_overflow 3 5 hello (fill 499) (fill-Filled 499 (omega arith)).sound (omega arith)
      (
        499,
        omega (arith, (fill-Filled 499 (omega arith)).size),
        rw ((fill-Filled 499 (omega arith)).free 499 (omega arith)) refl,
      )
      (omega (arith, (fill-Filled 499 (omega arith)).many))
