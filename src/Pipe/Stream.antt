-- ===== src/Pipe/Stream.antt =====
-- A pipe of xv6A1/pipe.c is a bounded first-in-first-out queue of bytes, also where its counters
-- wrap.
use mathlib.Core.Path.{ap₂}
use mathlib.Core.List.{append-nil, append_assoc}
use mathlib.Core.Bool.{not, ◌||◌}
use operating_system_design.Prelude.{
  ℕ, zero, suc, ◌+◌, ◌%◌, ◌^◌, ◌<◌, ◌≤◌, ◌≡◌, refl, ap, ◌∙◌, inl, inr, ◌≢◌, Bool, List, [], ◌∷◌,
  ◌++◌, length, get_or, set, length-set, get_or-set_self, ◌==◌, Bool-cases, arith, add32, window,
  window_snoc, window-set, window_ext, take, sym, drop,
}
use operating_system_design.Pipe.{
  Pipe, pipe_size, is_full, is_empty, put, Written, complete, failed, asleep, pipewrite, read_loop,
  count, contents,
}

pub record IsValid (p : Pipe) : Type 0 where
  pub page : length p.bytes ≡ pipe_size
  pub read_word : p.nread < 2 ^ 32
  pub write_word : p.nwrite < 2 ^ 32
  pub bounded : count p ≤ pipe_size

is_full-count : (p : Pipe) → IsValid p → is_full p ≡ (count p == pipe_size)
unfolding is_full
is_full-count p v = ground arith

is_empty-count : (p : Pipe) → IsValid p → is_empty p ≡ (count p == 0)
unfolding is_empty
is_empty-count p v = ground arith

count-put : (b : ℕ) (p : Pipe) → IsValid p → count p < pipe_size → count (put b p) ≡ count p + 1
unfolding put
count-put b p v h = omega (arith, v.read_word, v.write_word)

pub put-IsValid : (b : ℕ) (p : Pipe) → IsValid p → count p < pipe_size → IsValid (put b p)
unfolding put
put-IsValid b p v h = record {
  page = length-set p.bytes (p.nwrite % pipe_size) b ∙ v.page;
  read_word = v.read_word;
  write_word = omega arith;
  bounded = omega (arith, v.read_word, v.write_word);
}

apart :
    (p : Pipe) (k : ℕ)
    → IsValid p
    → count p < pipe_size
    → k < count p
    → p.nwrite % pipe_size ≢ (p.nread + k) % pipe_size
apart p k v h lt = omega (arith, v.read_word, v.write_word)

shift :
    (p : Pipe) (k : ℕ)
    → IsValid p
    → (p.nread + (k + 1)) % pipe_size ≡ (add32 p.nread 1 + k) % pipe_size
shift p k v = omega (arith, v.read_word)

contents-put :
    (b : ℕ) (p : Pipe)
    → IsValid p
    → count p < pipe_size
    → contents (put b p) ≡ contents p ++ (b ∷ [])
unfolding put
contents-put b p v h =
    let n = count p in
    let idx = λ (k : ℕ). (p.nread + k) % pipe_size in
    let i = p.nwrite % pipe_size in
    let more : count (put b p) ≡ suc n = omega (arith, count-put b p v h) in
    let spot : i ≡ idx n = omega (arith, v.read_word, v.write_word) in
    let inside : i < length p.bytes = omega (arith, v.page) in
    let away = λ (k : ℕ) (lt : k < n). apart p k v h lt in
    ap (λ m. window idx m (set p.bytes i b)) more
    ∙ window_snoc idx n (set p.bytes i b)
    ∙ ap₂ (λ xs x. xs ++ (x ∷ [])) (window-set idx n p.bytes i b away)
        (ap (λ j. get_or (set p.bytes i b) j 0) (sym spot) ∙ get_or-set_self p.bytes i b 0 inside)

-- Taking one byte from a pipe that is not empty.
abbrev advance : Pipe → Pipe
advance p = record p { nread = add32 p.nread 1 }

advance-IsValid : (p : Pipe) → IsValid p → 0 < count p → IsValid (advance p)
advance-IsValid p v h = record {
  page = v.page;
  read_word = omega arith;
  write_word = v.write_word;
  bounded = omega (arith, v.read_word, v.write_word, v.bounded);
}

contents-advance :
    (p : Pipe)
    → IsValid p
    → 0 < count p
    → contents p ≡ get_or p.bytes (p.nread % pipe_size) 0 ∷ contents (advance p)
contents-advance p v h =
    let idx = λ (k : ℕ). (p.nread + k) % pipe_size in
    let m = count (advance p) in
    let more : count p ≡ suc m = omega (arith, v.read_word, v.write_word) in
    let first : (p.nread + 0) % pipe_size ≡ p.nread % pipe_size = omega arith in
    ap (λ k. window idx k p.bytes) more
    ∙ ap₂ (λ i xs. get_or p.bytes i 0 ∷ xs) first
        (window_ext (λ k. idx (k + 1)) (λ k. (add32 p.nread 1 + k) % pipe_size) m p.bytes
          (λ k lt. shift p k v))

-- What a read of up to `n` bytes takes, and what it leaves.
pub record Taken (n : ℕ) (p : Pipe) (r : List ℕ × Pipe) : Type 0 where
  pub valid : IsValid r.1
  pub bytes : r.0 ≡ take n (contents p)
  pub rest : contents r.1 ≡ drop n (contents p)

pub read_loop-Taken : (n : ℕ) (p : Pipe) → IsValid p → Taken n p (read_loop n p)
unfolding read_loop
read_loop-Taken zero p v = record { valid = v; bytes = refl; rest = refl }
read_loop-Taken (suc n) p v = elim (Bool-cases (is_empty p)) [
  | inl none_left ↦
      let zero_count : count p ≡ 0 = ground (arith, is_empty-count p v) in
      let nothing : contents p ≡ [] =
        ap (λ k. window (λ j. (p.nread + j) % pipe_size) k p.bytes) zero_count in
      rw none_left (record { valid = v; bytes = rw nothing refl; rest = rw nothing refl })
  | inr some_left ↦
      let pos : 0 < count p = ground (arith, is_empty-count p v) in
      let v' = advance-IsValid p v pos in
      let t = read_loop-Taken n (advance p) v' in
      let split = contents-advance p v pos in
      rw some_left (record {
        valid = t.valid;
        bytes = rw split (ap (◌∷◌ (get_or p.bytes (p.nread % pipe_size) 0)) t.bytes);
        rest = rw split t.rest;
      })
]

abbrev pub pipe_of : Written → Pipe
pipe_of (complete p) = p
pipe_of (failed p rest) = p
pipe_of (asleep p rest) = p

abbrev pub left_of : Written → List ℕ
left_of (complete p) = []
left_of (failed p rest) = rest
left_of (asleep p rest) = rest

-- A turn of `pipewrite` appends a first part of the bytes, and leaves the others.
pub record Appended (bs : List ℕ) (p : Pipe) (w : Written) : Type 0 where
  pub valid : IsValid (pipe_of w)
  pub put_in : List ℕ
  pub parts : bs ≡ put_in ++ left_of w
  pub stored : contents (pipe_of w) ≡ contents p ++ put_in

pub pipewrite-Appended :
    (killed : Bool) (bs : List ℕ) (p : Pipe) → IsValid p → Appended bs p (pipewrite killed bs p)
unfolding pipewrite
pipewrite-Appended killed [] p v = record {
  valid = v;
  put_in = [];
  parts = refl;
  stored = sym (append-nil (contents p));
}
pipewrite-Appended killed (b ∷ bs) p v = elim (Bool-cases (is_full p)) [
  | inl full ↦ elim (Bool-cases (not p.readopen || killed)) [
    | inl bad ↦
        rw (full, bad)
          (record { valid = v; put_in = []; parts = refl; stored = sym (append-nil (contents p)) })
    | inr good ↦
        rw (full, good)
          (record { valid = v; put_in = []; parts = refl; stored = sym (append-nil (contents p)) })
  ]
  | inr space ↦
      let room : count p < pipe_size = ground (arith, is_full-count p v, v.bounded) in
      let r = pipewrite-Appended killed bs (put b p) (put-IsValid b p v room) in
      rw space (record {
        valid = r.valid;
        put_in = b ∷ r.put_in;
        parts = ap (◌∷◌ b) r.parts;
        stored =
            r.stored
            ∙ ap (λ xs. xs ++ r.put_in) (contents-put b p v room)
            ∙ append_assoc (contents p) (b ∷ []) r.put_in;
      })
]
