-- ===== src/Mail/Sound.antt =====
-- What holds of the queues of a2/sysproc.c at all times, and `enque` on them.
use native.Mathlib.Decide.{ℕ_discrete}
use mathlib.Core.Path.{subst}
use operating_system_design.Prelude.{
  ℕ, ◌+◌, ◌<◌, ◌%◌, ◌≡◌, ◌≢◌, refl, sym, ◌∙◌, true, List, [], ◌∷◌, ◌++◌, arith, length, get_or, set,
  length-set, get_or-set_self, get_or-set_ne, is_nonpos, Absent, Nodup, Nodup-append,
}
use operating_system_design.Proc.{nproc}
use operating_system_design.Mail.{Kern, max_queue_elements, enque}
use operating_system_design.Mail.Ring.{count, items, items-push, items-pop, items_overflow}
use operating_system_design.Mail.Owned.{Own, messages, Own-Absent, Own-set, Own-append}

-- The buffers queued for a pid, and the messages in them.
abbrev pub box : ℕ → Kern → List ℕ
box p k = items (get_or k.queue p []) (get_or k.head p 0) (get_or k.tail p 0)

abbrev pub mailbox : ℕ → Kern → List (List ℕ)
mailbox p k = messages k.buffers (box p k)

abbrev pub IsPid : ℕ → Type 0
IsPid p = (0 < p) × (p < nproc)

-- The arrays have their sizes, heads and tails are in range, and every queued buffer is addressed
-- to the pid of its queue and queued once.
pub record IsSound (k : Kern) : Type 0 where
  pub queues : length k.queue ≡ nproc
  pub heads : length k.head ≡ nproc
  pub tails : length k.tail ≡ nproc
  pub sizes : length k.buffers ≡ length k.to_pids
  pub rows : (p : ℕ) → IsPid p → length (get_or k.queue p []) ≡ max_queue_elements
  pub head_in : (p : ℕ) → IsPid p → get_or k.head p 0 < max_queue_elements
  pub tail_in : (p : ℕ) → IsPid p → get_or k.tail p 0 < max_queue_elements
  pub own : (p : ℕ) → IsPid p → Own k.to_pids p (box p k)
  pub nodup : (p : ℕ) → IsPid p → Nodup (box p k)

module _ (k : Kern) (s : IsSound k) (r v : ℕ) (pid : IsPid r) where
  abbrev row : List ℕ
  row = get_or k.queue r []

  abbrev head : ℕ
  head = get_or k.head r 0

  abbrev tail : ℕ
  tail = get_or k.tail r 0

  row-enque : get_or (enque r v k).queue r [] ≡ set row tail v
  unfolding enque
  row-enque = get_or-set_self k.queue r _ [] (omega (arith, s.queues, pid))

  tail-enque : get_or (enque r v k).tail r 0 ≡ (tail + 1) % max_queue_elements
  unfolding enque
  tail-enque = get_or-set_self k.tail r _ 0 (omega (arith, s.tails, pid))

  pub box-enque_self :
      count head tail + 1 < max_queue_elements → box r (enque r v k) ≡ box r k ++ (v ∷ [])
  unfolding enque
  box-enque_self room =
      rw (row-enque, tail-enque)
        (items-push row head tail v (s.rows r pid) (s.head_in r pid) (s.tail_in r pid) room)

  -- One message more than a ring can hold makes it look empty.
  pub box-enque_full : count head tail + 1 ≡ max_queue_elements → box r (enque r v k) ≡ []
  unfolding enque
  box-enque_full last =
      rw (row-enque, tail-enque)
        (items_overflow (set row tail v) head tail (s.head_in r pid) (s.tail_in r pid) last)

  pub box-enque_other : (p : ℕ) → p ≢ r → box p (enque r v k) ≡ box p k
  unfolding enque
  box-enque_other p ne =
      rw
        (
          get_or-set_ne k.queue r p (set row tail v) [] (λ e. ne (sym e)),
          get_or-set_ne k.tail r p ((tail + 1) % max_queue_elements) 0 (λ e. ne (sym e)),
        )
        refl

  -- `enque` of a buffer that is addressed to the pid and not queued, where a ring has room.
  pub enque-IsSound :
      get_or k.to_pids v 0 ≡ r
      → Absent v (box r k)
      → count head tail + 1 < max_queue_elements
      → IsSound (enque r v k)
  enque-IsSound mine new room = record {
    queues = unfold enque in (length-set k.queue r (set row tail v) ∙ s.queues);
    heads = unfold enque in s.heads;
    tails = unfold enque in (length-set k.tail r ((tail + 1) % max_queue_elements) ∙ s.tails);
    sizes = unfold enque in s.sizes;
    rows = λ p h. elim (ℕ_discrete p r) [
      | yes e ↦ rw (e, row-enque) (length-set row tail v ∙ s.rows r pid)
      | no ne ↦
          unfold enque in
          rw (get_or-set_ne k.queue r p (set row tail v) [] (λ e. ne (sym e))) (s.rows p h)
    ];
    head_in = unfold enque in s.head_in;
    tail_in = λ p h. elim (ℕ_discrete p r) [
      | yes e ↦ rw (e, tail-enque) (omega arith)
      | no ne ↦
          unfold enque in
          rw (get_or-set_ne k.tail r p ((tail + 1) % max_queue_elements) 0 (λ e. ne (sym e)))
            (s.tail_in p h)
    ];
    own = λ p h. elim (ℕ_discrete p r) [
      | yes e ↦
          rw (e, box-enque_self room)
            (unfold enque in Own-append k.to_pids r (box r k) v (s.own r pid) mine)
      | no ne ↦ rw (box-enque_other p ne) (unfold enque in s.own p h)
    ];
    nodup = λ p h. elim (ℕ_discrete p r) [
      | yes e ↦ rw (e, box-enque_self room) (Nodup-append v (box r k) new (s.nodup r pid))
      | no ne ↦ rw (box-enque_other p ne) (s.nodup p h)
    ];
  }

-- A free buffer stands in no queue.
pub free-Absent :
    (k : Kern) (p v : ℕ)
    → IsSound k
    → IsPid p
    → is_nonpos (get_or k.to_pids v 0) ≡ true
    → Absent v (box p k)
free-Absent k p v s pid free = Own-Absent k.to_pids p v (box p k) (λ e. ground arith) (s.own p pid)

-- A buffer that stands in no queue is written.
pub written-IsSound :
    (k : Kern) (v a : ℕ) (m : List ℕ) (from : List ℕ)
    → IsSound k
    → ((p : ℕ) → IsPid p → Absent v (box p k))
    → IsSound
        (record k { buffers = set k.buffers v m; from_pids = from; to_pids = set k.to_pids v a })
written-IsSound k v a m from s away = record {
  queues = s.queues;
  heads = s.heads;
  tails = s.tails;
  sizes = length-set k.buffers v m ∙ s.sizes ∙ sym (length-set k.to_pids v a);
  rows = s.rows;
  head_in = s.head_in;
  tail_in = s.tail_in;
  own = λ p h. Own-set k.to_pids p v a (box p k) (away p h) (s.own p h);
  nodup = s.nodup;
}

-- The queue of `me` without its first index.
module _ (k : Kern) (s : IsSound k) (me : ℕ) (pid : IsPid me)
    (ne : get_or k.head me 0 ≢ get_or k.tail me 0) where
  abbrev pub first : ℕ
  first = get_or (get_or k.queue me []) (get_or k.head me 0) 0

  abbrev pub popped : Kern
  popped = record k { head = set k.head me ((get_or k.head me 0 + 1) % max_queue_elements) }

  head-popped : get_or popped.head me 0 ≡ (get_or k.head me 0 + 1) % max_queue_elements
  head-popped = get_or-set_self k.head me _ 0 (omega (arith, s.heads, pid))

  pub box-popped : box me k ≡ first ∷ box me popped
  box-popped = rw head-popped (
      items-pop (get_or k.queue me []) (get_or k.head me 0) (get_or k.tail me 0) (s.head_in me pid)
        (s.tail_in me pid) ne)

  pub box-popped_other : (p : ℕ) → p ≢ me → box p popped ≡ box p k
  box-popped_other p other =
      rw
        (get_or-set_ne k.head me p ((get_or k.head me 0 + 1) % max_queue_elements) 0
          (λ e. other (sym e)))
        refl

  pub Own-first : Own k.to_pids me (first ∷ box me popped)
  Own-first = subst (Own k.to_pids me) box-popped (s.own me pid)

  Nodup-first : Nodup (first ∷ box me popped)
  Nodup-first = subst Nodup box-popped (s.nodup me pid)

  pub popped-IsSound : IsSound popped
  popped-IsSound = record {
    queues = s.queues;
    heads = length-set k.head me ((get_or k.head me 0 + 1) % max_queue_elements) ∙ s.heads;
    tails = s.tails;
    sizes = s.sizes;
    rows = s.rows;
    head_in = λ p h. elim (ℕ_discrete p me) [
      | yes e ↦ rw (e, head-popped) (omega arith)
      | no other ↦
          rw
            (get_or-set_ne k.head me p ((get_or k.head me 0 + 1) % max_queue_elements) 0
              (λ e. other (sym e)))
            (s.head_in p h)
    ];
    tail_in = s.tail_in;
    own = λ p h. elim (ℕ_discrete p me) [
      | yes e ↦ rw e Own-first.1
      | no other ↦ rw (box-popped_other p other) (s.own p h)
    ];
    nodup = λ p h. elim (ℕ_discrete p me) [
      | yes e ↦ rw e Nodup-first.1
      | no other ↦ rw (box-popped_other p other) (s.nodup p h)
    ];
  }

  -- The index taken out stands in no queue any more.
  pub first-Absent : (p : ℕ) → IsPid p → Absent first (box p popped)
  first-Absent p h = elim (ℕ_discrete p me) [
    | yes e ↦ rw e Nodup-first.0
    | no other ↦
        Own-Absent k.to_pids p first (box p popped) (λ e. other (sym e ∙ Own-first.0))
          (popped-IsSound.own p h)
  ]
