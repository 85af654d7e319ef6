-- ===== src/Ipc/Delivery.antt =====
-- The mailbox of xv6A1/sysproc.c as one box of messages for each pid.
use operating_system_design.Prelude.{
  ℕ, zero, suc, ◌+◌, ◌<◌, ◌≡◌, ◌≢◌, refl, sym, ap, ◌∙◌, true, false, Option, none, some, List, [],
  ◌∷◌, ◌++◌, get_or, set, ◌==◌, if◌then◌else◌, is_nonpos, minus_one, length, arith, length-set,
  lt→ltb, Bool-cases, inl, inr, ==→eq, ne→==, ==-refl,
}
use operating_system_design.Proc.{nproc}
use operating_system_design.Ipc.{
  Mailbox, returned, got, free_slot, find_slot, send_slot, sys_send, recv_slot, sys_recv, blank,
}

-- The messages in the slots for `pid`, in the order of the slots.
unfoldable pub inbox_of : ℕ → List ℕ → List (List ℕ) → List (List ℕ)
inbox_of pid [] ms = []
inbox_of pid (d ∷ ds) [] = []
inbox_of pid (d ∷ ds) (m ∷ ms) = if d == pid then m ∷ inbox_of pid ds ms else inbox_of pid ds ms

abbrev pub inbox : ℕ → Mailbox → List (List ℕ)
inbox pid b = inbox_of pid b.dest b.msgs

-- What `free_slot` says of the slots.
abbrev pub Free : ℕ → List ℕ → Option ℕ → Type 0
Free k ds none = (i : ℕ) → i < length ds → is_nonpos (get_or ds i 0) ≡ false
Free k ds (some i) = (j : ℕ) × (i ≡ k + j) × (j < length ds) × (is_nonpos (get_or ds j 0) ≡ true)

-- A message put into a free slot stands somewhere in its receiver's box, and in no other box.
pub record Inserted {ℓ} {A : Type ℓ} (m : A) (xs ys : List A) : Type ℓ where
  pub before : List A
  pub after : List A
  pub old : xs ≡ before ++ after
  pub new : ys ≡ before ++ (m ∷ after)

inbox-put_self :
    (pid : ℕ) (m : List ℕ) (ds : List ℕ) (ms : List (List ℕ)) (i : ℕ)
    → i < length ds
    → length ms ≡ length ds
    → get_or ds i 0 ≢ pid
    → Inserted m (inbox_of pid ds ms) (inbox_of pid (set ds i pid) (set ms i m))
unfolding inbox_of
inbox-put_self pid m [] ms i h len ne = absurd (omega arith)
inbox-put_self pid m (d ∷ ds) [] i h len ne = absurd (omega arith)
inbox-put_self pid m (d ∷ ds) (x ∷ ms) zero h len ne =
    rw (ne→== d pid ne, ==-refl pid)
      (record { before = []; after = inbox_of pid ds ms; old = refl; new = refl })
inbox-put_self pid m (d ∷ ds) (x ∷ ms) (suc i) h len ne =
    let r = inbox-put_self pid m ds ms i (omega arith) (omega arith) ne in
    elim (Bool-cases (d == pid)) [
      | inl mine ↦ rw mine (record {
        before = x ∷ r.before;
        after = r.after;
        old = ap (◌∷◌ x) r.old;
        new = ap (◌∷◌ x) r.new;
      })
      | inr other ↦ rw other r
    ]

inbox-put_other :
    (p q : ℕ) (m : List ℕ) (ds : List ℕ) (ms : List (List ℕ)) (i : ℕ)
    → get_or ds i 0 ≢ p
    → q ≢ p
    → length ms ≡ length ds
    → inbox_of p (set ds i q) (set ms i m) ≡ inbox_of p ds ms
unfolding inbox_of
inbox-put_other p q m [] ms i ne nq len = refl
inbox-put_other p q m (d ∷ ds) [] i ne nq len = absurd (omega arith)
inbox-put_other p q m (d ∷ ds) (x ∷ ms) zero ne nq len = rw (ne→== d p ne, ne→== q p nq)
inbox-put_other p q m (d ∷ ds) (x ∷ ms) (suc i) ne nq len =
    let ih = inbox-put_other p q m ds ms i ne nq (omega arith) in
    elim (Bool-cases (d == p)) [ inl mine ↦ rw (mine, ih) | inr other ↦ rw (other, ih) ]

positive-ne : (d p : ℕ) → is_nonpos d ≡ true → is_nonpos p ≡ false → d ≢ p
positive-ne d p a b e = cc (a, b, e)

positive-ne_minus_one : (p : ℕ) → is_nonpos p ≡ false → p ≢ minus_one
positive-ne_minus_one p h = ground arith

nil-inbox : (me : ℕ) (ms : List (List ℕ)) → inbox_of me [] ms ≡ []
unfolding inbox_of
nil-inbox me ms = refl

cons-inbox :
    (me d : ℕ) (x : List ℕ) (ds : List ℕ) (ms : List (List ℕ))
    → (d == me) ≡ true
    → me ≢ minus_one
    → inbox_of me (d ∷ ds) (x ∷ ms) ≡ x ∷ inbox_of me (minus_one ∷ ds) (blank ∷ ms)
unfolding inbox_of
cons-inbox me d x ds ms mine ne = rw (mine, ne→== minus_one me (λ e. ne (sym e))) refl

Free-suc :
    (k d : ℕ) (ds : List ℕ) (o : Option ℕ)
    → is_nonpos d ≡ false
    → Free (k + 1) ds o
    → Free k (d ∷ ds) o
Free-suc k d ds none taken h = at_each
  where
    at_each : (i : ℕ) → i < length (d ∷ ds) → is_nonpos (get_or (d ∷ ds) i 0) ≡ false
    at_each zero lt = taken
    at_each (suc i) lt = h i (omega arith)
Free-suc k d ds (some i) taken (j, e, lt, free) = (suc j, omega arith, omega arith, free)

pub free_slot-Free : (k : ℕ) (ds : List ℕ) → Free k ds (free_slot k ds)
unfolding free_slot
free_slot-Free k [] = λ i lt. absurd (omega arith)
free_slot-Free k (d ∷ ds) = elim (Bool-cases (is_nonpos d)) [
  | inl free ↦ rw free (0, omega arith, omega arith, free)
  | inr taken ↦ rw taken (Free-suc k d ds (free_slot (k + 1) ds) taken (free_slot-Free (k + 1) ds))
]

-- What `find_slot` says of the caller's box.
abbrev Found : ℕ → ℕ → List ℕ → List (List ℕ) → Option ℕ → Type 0
Found me k ds ms none = inbox_of me ds ms ≡ []
Found me k ds ms (some i) =
    (j : ℕ) × (i ≡ k + j)
    × (get_or ds j 0 ≡ me)
    × (inbox_of me ds ms ≡ get_or ms j [] ∷ inbox_of me (set ds j minus_one) (set ms j blank))

Found-suc :
    (me k d : ℕ) (x : List ℕ) (ds : List ℕ) (ms : List (List ℕ)) (o : Option ℕ)
    → (d == me) ≡ false
    → Found me (k + 1) ds ms o
    → Found me k (d ∷ ds) (x ∷ ms) o
unfolding inbox_of
Found-suc me k d x ds ms none other f = rw other f
Found-suc me k d x ds ms (some i) other (j, e, mine, box) = (suc j, omega arith, mine, rw other box)

find_slot-Found :
    (me k : ℕ) (ds : List ℕ) (ms : List (List ℕ))
    → me ≢ minus_one
    → length ms ≡ length ds
    → Found me k ds ms (find_slot me k ds)
unfolding find_slot
find_slot-Found me k [] ms ne len = nil-inbox me ms
find_slot-Found me k (d ∷ ds) [] ne len = absurd (omega arith)
find_slot-Found me k (d ∷ ds) (x ∷ ms) ne len = elim (Bool-cases (d == me)) [
  | inl mine ↦ rw mine (0, omega arith, ==→eq d me mine, cons-inbox me d x ds ms mine ne)
  | inr other ↦ rw other (
      Found-suc me k d x ds ms (find_slot me (k + 1) ds) other
        (find_slot-Found me (k + 1) ds ms ne (omega arith)))
]

-- As many messages as slots, and nobody inside.
pub record IsIdle (b : Mailbox) : Type 0 where
  pub unlocked : b.locked ≡ false
  pub slots : length b.msgs ≡ length b.dest

pub record Delivered (r : ℕ) (m : List ℕ) (b b' : Mailbox) : Type 0 where
  pub idle : IsIdle b'
  pub mine : Inserted m (inbox r b) (inbox r b')
  pub others : (p : ℕ) → is_nonpos p ≡ false → p ≢ r → inbox p b' ≡ inbox p b

send_slot-Delivered :
    (s r : ℕ) (m : List ℕ) (b : Mailbox) (o : Option ℕ)
    → IsIdle b
    → is_nonpos r ≡ false
    → Free 0 b.dest o
    → ((i : ℕ) × (i < length b.dest) × (is_nonpos (get_or b.dest i 0) ≡ true))
    → (b' : Mailbox) × (send_slot s r m b o ≡ returned 0 b') × Delivered r m b b'
unfolding send_slot
send_slot-Delivered s r m b none idle pos full (i, lt, free) = cc (full i lt, free)
send_slot-Delivered s r m b (some i) idle pos (j, e, lt, free) exists =
    let i' : j ≡ i = omega arith in
    (
      _,
      refl,
      rw (← i') (record {
        idle = record {
          unlocked = refl;
          slots = length-set b.msgs j m ∙ idle.slots ∙ sym (length-set b.dest j r);
        };
        mine = inbox-put_self r m b.dest b.msgs j lt idle.slots (positive-ne _ r free pos);
        others = λ p pp ne.
            inbox-put_other p r m b.dest b.msgs j (positive-ne _ p free pp) (λ x. ne (sym x))
              idle.slots;
      }),
    )

-- With the lock free, a slot free, and the receiver not waiting, with a pid from 1 to NPROC - 1,
-- `sys_send` returns 0 and leaves the lock free. The message stands in the receiver's box, whose
-- other messages keep their order, and no other process's box changes.
pub sys_send-Delivered :
    (s r : ℕ) (m : List ℕ) (b : Mailbox)
    → IsIdle b
    → is_nonpos r ≡ false
    → r < nproc
    → get_or b.waiting r 0 ≢ 1
    → ((i : ℕ) × (i < length b.dest) × (is_nonpos (get_or b.dest i 0) ≡ true))
    → (b' : Mailbox) × (sys_send s r m b ≡ returned 0 b') × Delivered r m b b'
unfolding sys_send
sys_send-Delivered s r m b idle pos small awake free =
    let (b', e, d) =
      send_slot-Delivered s r m b (free_slot 0 b.dest) idle pos (free_slot-Free 0 b.dest) free in
    (b', simp (idle.unlocked, lt→ltb r nproc small, ne→== _ _ awake) e, d)

pub record Fetched (me : ℕ) (rest : List (List ℕ)) (b b' : Mailbox) : Type 0 where
  pub idle : IsIdle b'
  pub mine : inbox me b' ≡ rest
  pub others : (p : ℕ) → is_nonpos p ≡ false → p ≢ me → inbox p b' ≡ inbox p b

recv_slot-Fetched :
    (me : ℕ) (ptr m : List ℕ) (rest : List (List ℕ)) (b : Mailbox) (o : Option ℕ)
    → IsIdle b
    → is_nonpos me ≡ false
    → inbox me b ≡ m ∷ rest
    → Found me 0 b.dest b.msgs o
    → (b' : Mailbox) × (recv_slot me ptr b o ≡ got m b') × Fetched me rest b b'
unfolding recv_slot
recv_slot-Fetched me ptr m rest b none idle pos box nothing = cc
recv_slot-Fetched me ptr m rest b (some i) idle pos box (j, e, mine, first) =
    let i' : j ≡ i = omega arith in
    let both = sym first ∙ box in
    let head : get_or b.msgs j [] ≡ m = cc both in
    let tail_box : inbox_of me (set b.dest j minus_one) (set b.msgs j blank) ≡ rest = cc both in
    let b' = record b {
      locked = false;
      dest = set b.dest j minus_one;
      msgs = set b.msgs j blank;
    } in
    (
      b',
      rw (← i') (ap (λ x. got x b') head),
      record {
        idle = record {
          unlocked = refl;
          slots = length-set b.msgs j blank ∙ idle.slots ∙ sym (length-set b.dest j minus_one);
        };
        mine = tail_box;
        others = λ p pp ne.
            inbox-put_other p minus_one blank b.dest b.msgs j (λ x. ne (sym x ∙ mine))
              (λ x. positive-ne_minus_one p pp (sym x)) idle.slots;
      },
    )

-- With the lock free and a message in the caller's box, `sys_recv` returns the first one and leaves
-- the lock free, the rest of the box in order, and every other process's box as it was.
pub sys_recv-Fetched :
    (me : ℕ) (ptr m : List ℕ) (rest : List (List ℕ)) (b : Mailbox)
    → IsIdle b
    → is_nonpos me ≡ false
    → inbox me b ≡ m ∷ rest
    → (b' : Mailbox) × (sys_recv me ptr b ≡ got m b') × Fetched me rest b b'
unfolding sys_recv
sys_recv-Fetched me ptr m rest b idle pos box =
    let (b', e, f) =
      recv_slot-Fetched me ptr m rest b (find_slot me 0 b.dest) idle pos box
        (find_slot-Found me 0 b.dest b.msgs (positive-ne_minus_one me pos) idle.slots) in
    (b', simp idle.unlocked e, f)
