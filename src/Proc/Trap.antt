-- ===== src/Proc/Trap.antt =====
-- Signals of xv6A1/proc.c: what `checkTraps` does to the process and to the user's stack.
use operating_system_design.Prelude.{
  ℕ, ◌+◌, ◌-◌, ◌<◌, ◌≤◌, ◌^◌, ◌≡◌, refl, true, false, List, length, get_or, arith, ltb, leb, ◌&&◌,
  ◌∙◌, ap, sub32, words, bytes32, AreWords, get_words-words, length-words, if◌then◌else◌, ◌⊎◌,
}
use operating_system_design.Proc.{Proc}
use operating_system_design.Proc.Signal.{
  frame_words, copy_out, takes_signal, deliver, check_traps, proc_sigret,
}

copy_out_in :
    (bytes : List ℕ) (a : ℕ) (mem : ℕ → ℕ) (x : ℕ)
    → a ≤ x
    → x < a + length bytes
    → copy_out bytes a mem x ≡ get_or bytes (x - a) 0
unfolding copy_out
copy_out_in bytes a mem x low high = ground arith

copy_out_off :
    (bytes : List ℕ) (a : ℕ) (mem : ℕ → ℕ) (x : ℕ)
    → (x < a) ⊎ (a + length bytes ≤ x)
    → copy_out bytes a mem x ≡ mem x
unfolding copy_out
copy_out_off bytes a mem x off = ground arith

deliver-takes_signal :
    (code : List ℕ) (p : Proc) (mem : ℕ → ℕ) → takes_signal (deliver code p mem).0 ≡ false
unfolding deliver takes_signal
deliver-takes_signal code p mem = ground arith

-- While a handler runs no second signal is taken, whatever `proc_sigsend` has put in the process.
pub check_traps_once :
    (code msg : List ℕ) (p : Proc) (mem mem' : ℕ → ℕ)
    → takes_signal p ≡ true
    → (let p' = record ((check_traps code p mem).0) { intr = 1; message = msg } in
        check_traps code p' mem' ≡ (p', mem'))
unfolding check_traps
check_traps_once code msg p mem mem' h = rw h (rw (again code msg p mem) refl)
  where
    again :
        (code msg : List ℕ) (p : Proc) (mem : ℕ → ℕ)
        → takes_signal (record ((deliver code p mem).0) { intr = 1; message = msg }) ≡ false
    again code msg p mem = unfold deliver takes_signal in ground arith

-- A byte of the frame that a signal builds, counted from the new stack pointer: the return address
-- to the trampoline at `ret`, the message, and what the message leaves of the trampoline.
abbrev pub frame_byte : List ℕ → List ℕ → ℕ → ℕ → ℕ
frame_byte code message ret x =
    if ltb x 4
    then get_or (bytes32 ret) x 0
    else if ltb x 12
    then get_or message (x - 4) 0
    else get_or code (x - 8) 0

-- The three overlapping copies, read at any address.
copy_out_frame :
    (word code message : List ℕ) (mem : ℕ → ℕ) (r e a : ℕ)
    → length word ≡ 4
    → length message ≡ 8
    → 4 ≤ length code
    → 8 ≤ r
    → e ≡ r + length code
    → copy_out word (r - 8) (copy_out message (r - 4) (copy_out code r mem)) a ≡ (
        if ltb a (r - 8)
        then mem a
        else if ltb a e
        then (if ltb (a - (r - 8)) 4
            then get_or word (a - (r - 8)) 0
            else if ltb (a - (r - 8)) 12
            then get_or message (a - (r - 8) - 4) 0
            else get_or code (a - (r - 8) - 8) 0)
        else mem a)
unfolding copy_out
copy_out_frame word code message mem r e a four eight long room end = ground arith

-- The first steps of a signal's frame below the stack pointer, on a stack with room.
record Pushed (code : List ℕ) (p : Proc) : Type 0 where
  pub ret : sub32 p.tf.esp (length code) ≡ p.tf.esp - length code
  pub low : sub32 (p.tf.esp - length code) 4 ≡ p.tf.esp - length code - 4
  pub top : sub32 (p.tf.esp - length code) 8 ≡ p.tf.esp - length code - 8

room-Pushed :
    (code : List ℕ) (p : Proc) → length code + 8 ≤ p.tf.esp → p.tf.esp < 2 ^ 32 → Pushed code p
room-Pushed code p room small = record { ret = omega arith; low = omega arith; top = omega arith }

between :
    (low high a v w : ℕ)
    → (if ltb a low then w else if ltb a high then v else w)
      ≡ (if leb low a && ltb a high then v else w)
between low high a v w = ground arith

-- The memory with the trap frame at the address in `prev_tf`.
saved_byte :
    (p : Proc) (mem : ℕ → ℕ) (a : ℕ)
    → copy_out (words (frame_words p.tf)) p.prev_tf mem a ≡ (
        if leb p.prev_tf a && ltb a (p.prev_tf + 76)
        then get_or (words (frame_words p.tf)) (a - p.prev_tf) 0
        else mem a)
unfolding copy_out
saved_byte p mem a = rw (length-words (frame_words p.tf)) refl

prev_tf-check_traps :
    (code : List ℕ) (p : Proc) (mem : ℕ → ℕ)
    → takes_signal p ≡ true
    → (check_traps code p mem).0.prev_tf ≡ p.prev_tf
unfolding check_traps deliver
prev_tf-check_traps code p mem h = rw h refl

outside :
    (low high a b v w x : ℕ)
    → (b + 76 ≤ low) ⊎ (high ≤ b)
    → b ≤ a
    → a < b + 76
    → (if leb low a && ltb a high then v else if leb b a && ltb a (b + 76) then w else x) ≡ w
outside low high a b v w x apart from to = ground arith

-- Taking a signal saves the 76 bytes of the trap frame at the address in `prev_tf`, over whatever
-- stands there, then pushes 8 bytes and the trampoline on the user's stack, and jumps to the
-- handler. It changes memory nowhere else: for a trampoline of 4 bytes or more, a message of 8, room
-- on the stack, and an address from which 76 bytes do not wrap around. The message lies over the
-- first 4 bytes of the trampoline.
pub check_traps_frame :
    (code : List ℕ) (p : Proc) (mem : ℕ → ℕ) (a : ℕ)
    → takes_signal p ≡ true
    → length p.message ≡ 8
    → 4 ≤ length code
    → length code + 8 ≤ p.tf.esp
    → p.tf.esp < 2 ^ 32
    → p.prev_tf + 76 ≤ 2 ^ 32
    → (let (p', mem') = check_traps code p mem in
        let ret = p.tf.esp - length code in
        let esp = ret - 8 in
        (p'.tf.esp ≡ esp)
        × (p'.tf.eip ≡ p.handler)
        × (mem' a ≡ (
            if leb esp a && ltb a p.tf.esp
            then frame_byte code p.message ret (a - esp)
            else if leb p.prev_tf a && ltb a (p.prev_tf + 76)
            then get_or (words (frame_words p.tf)) (a - p.prev_tf) 0
            else mem a)))
unfolding check_traps deliver
check_traps_frame code p mem a h eight four room small fits =
    let e = room-Pushed code p room small in
    let saved = copy_out (words (frame_words p.tf)) p.prev_tf mem in
    rw (h, e.ret, e.low, e.top)
      (
        refl,
        refl,
        copy_out_frame (bytes32 (p.tf.esp - length code)) code p.message saved
              (p.tf.esp - length code) p.tf.esp a refl eight four (omega arith) (omega arith)
            ∙ between (p.tf.esp - length code - 8) p.tf.esp a _ (saved a)
            ∙ ap
                (λ v.
                  if leb (p.tf.esp - length code - 8) a && ltb a p.tf.esp
                  then frame_byte code p.message (p.tf.esp - length code)
                      (a - (p.tf.esp - length code - 8))
                  else v)
                (saved_byte p mem a),
      )

-- `proc_sigret` gives the process the registers back that it had when it took the signal, with
-- signals on, if the 76 bytes at `prev_tf` lie outside what the signal has pushed and the handler
-- leaves them alone.
pub sigret-check_traps :
    (code : List ℕ) (p : Proc) (mem mem' : ℕ → ℕ)
    → takes_signal p ≡ true
    → AreWords (frame_words p.tf)
    → length p.message ≡ 8
    → 4 ≤ length code
    → length code + 8 ≤ p.tf.esp
    → p.tf.esp < 2 ^ 32
    → p.prev_tf + 76 ≤ 2 ^ 32
    → (p.prev_tf + 76 ≤ p.tf.esp - length code - 8) ⊎ (p.tf.esp ≤ p.prev_tf)
    → ((a : ℕ) → p.prev_tf ≤ a → a < p.prev_tf + 76 → mem' a ≡ (check_traps code p mem).1 a)
    → (let p' = proc_sigret (check_traps code p mem).0 mem' in (p'.tf ≡ p.tf) × (p'.dis_sig ≡ 0))
unfolding proc_sigret
sigret-check_traps code p mem mem' h sized eight four room small fits apart kept =
    let byte : (i : ℕ) → i < 76 → mem' (p.prev_tf + i) ≡ get_or (words (frame_words p.tf)) i 0 =
      (λ i lt.
        let a = p.prev_tf + i in
        let at : a - p.prev_tf ≡ i = omega arith in
        kept a (omega arith) (omega arith)
        ∙ (check_traps_frame code p mem a h eight four room small fits).2
        ∙ outside _ _ a p.prev_tf _ _ _ apart (omega arith) (omega arith)
        ∙ ap (λ j. get_or (words (frame_words p.tf)) j 0) at) in
    let read = get_words-words (frame_words p.tf) 19 mem' p.prev_tf refl sized byte in
    (rw (prev_tf-check_traps code p mem h, read) refl, refl)
