-- ===== src/Pipe/Traffic.antt =====
-- Turns of writers and readers on one pipe of xv6A1/pipe.c, in any order.
use mathlib.Core.Path.{subst}
use mathlib.Core.List.{append_assoc}
use operating_system_design.Prelude.{
  ℕ, zero, suc, ◌-◌, ◌≡◌, refl, ap, sym, ◌∙◌, Bool, true, false, List, [], ◌∷◌, ◌++◌, arith, take,
  drop, length, length-append, take-append,
}
use operating_system_design.Pipe.{Pipe, pipewrite, piperead, read, pipeclose, contents, read_loop}
use operating_system_design.Pipe.Stream.{
  IsValid, Appended, pipewrite-Appended, pipe_of, left_of, read_loop-Taken,
}

-- A pipe with all bytes written to it and all bytes read from it so far.
pub record Traffic : Type 0 where
  pub pipe : Pipe
  pub sent : List ℕ
  pub got : List ℕ

-- What a turn of `pipewrite` has written.
abbrev pub written : Bool → List ℕ → Pipe → List ℕ
written killed bs p = take (length bs - length (left_of (pipewrite killed bs p))) bs

pub data Step (s : Traffic) : Traffic → Type 0 where
  writes :
      (killed : Bool) (bs : List ℕ)
      → Step s (record s {
        pipe = pipe_of (pipewrite killed bs s.pipe);
        sent = s.sent ++ written killed bs s.pipe;
      })
  reads :
      {bs : List ℕ} {p : Pipe} (killed : Bool) (n : ℕ)
      → piperead killed n s.pipe ≡ read bs p
      → Step s (record s { pipe = p; got = s.got ++ bs })
  closes : (writable : Bool) → Step s (record s { pipe = (pipeclose s.pipe writable).0 })

pub data Reach (s : Traffic) : Traffic → Type 0 where
  here : Reach s s
  next : {t u : Traffic} → Reach s t → Step t u → Reach s u

-- What was sent is what was got, followed by what is in the pipe.
pub record IsFaithful (s : Traffic) : Type 0 where
  pub valid : IsValid s.pipe
  pub order : s.sent ≡ s.got ++ contents s.pipe

written-put_in :
    (killed : Bool) (bs : List ℕ) (p : Pipe) (a : Appended bs p (pipewrite killed bs p))
    → written killed bs p ≡ a.put_in
written-put_in killed bs p a =
    let rest = left_of (pipewrite killed bs p) in
    let n : length bs - length rest ≡ length a.put_in =
      omega (arith, ap length a.parts, length-append a.put_in rest) in
    ap (λ k. take k bs) n ∙ ap (take (length a.put_in)) a.parts ∙ take-append a.put_in rest

take-append-drop : (n : ℕ) (xs : List ℕ) → take n xs ++ drop n xs ≡ xs
take-append-drop zero xs = refl
take-append-drop (suc n) [] = refl
take-append-drop (suc n) (x ∷ xs) = ap (◌∷◌ x) (take-append-drop n xs)

piperead_read :
    (killed : Bool) (n : ℕ) (p : Pipe) {bs : List ℕ} {p' : Pipe}
    → piperead killed n p ≡ read bs p'
    → (read_loop n p).0 ≡ bs × (read_loop n p).1 ≡ p'
unfolding piperead
piperead_read killed n p e = ground arith

-- `IsValid` does not look at the open ends.
same : {p : Pipe} {r w : Bool} → IsValid p → IsValid (record p { readopen = r; writeopen = w })
same v = record {
  page = v.page;
  read_word = v.read_word;
  write_word = v.write_word;
  bounded = v.bounded;
}

Step-IsFaithful : {s t : Traffic} → Step s t → IsFaithful s → IsFaithful t
unfolding pipeclose
Step-IsFaithful {s} (writes killed bs) f =
    let a = pipewrite-Appended killed bs s.pipe f.valid in
    record {
      valid = a.valid;
      order =
          ap (λ xs. s.sent ++ xs) (written-put_in killed bs s.pipe a)
          ∙ ap (λ xs. xs ++ a.put_in) f.order
          ∙ append_assoc s.got (contents s.pipe) a.put_in
          ∙ ap (λ xs. s.got ++ xs) (sym a.stored);
    }
Step-IsFaithful {s} (reads {bs} {p} killed n e) f =
    let t = read_loop-Taken n s.pipe f.valid in
    let (eb, ep) = piperead_read killed n s.pipe e in
    record {
      valid = subst IsValid ep t.valid;
      order =
          f.order
          ∙ ap (λ xs. s.got ++ xs) (sym (take-append-drop n (contents s.pipe)))
          ∙ sym (append_assoc s.got (take n (contents s.pipe)) (drop n (contents s.pipe)))
          ∙ ap (λ xs. (s.got ++ xs) ++ drop n (contents s.pipe)) (sym t.bytes ∙ eb)
          ∙ ap (λ xs. (s.got ++ bs) ++ xs) (sym t.rest ∙ ap contents ep);
    }
Step-IsFaithful (closes true) f = record { valid = same f.valid; order = f.order }
Step-IsFaithful (closes false) f = record { valid = same f.valid; order = f.order }

-- From a valid pipe whose bytes written are those read and then those in it, whatever turns
-- writers and readers take and whenever ends close, in any order and number, this stays so: no
-- byte is lost, repeated, changed or put out of order.
pub Reach-IsFaithful : {s t : Traffic} → IsFaithful s → Reach s t → IsFaithful t
Reach-IsFaithful f here = f
Reach-IsFaithful f (next r s) = Step-IsFaithful s (Reach-IsFaithful f r)
