-- ===== src/Numeral/RoundTrip.antt =====
-- `atoi` of xv6A1/ulib.c reads back what `printint` of xv6A1/printf.c writes.
use operating_system_design.Prelude.{
  ℕ, zero, suc, ◌+◌, ◌*◌, ◌/◌, ◌%◌, ◌<◌, ◌^◌, ◌≡◌, refl, sym, ap, ◌∙◌, true, false, List, [], ◌∷◌,
  ◌++◌, ◌==◌, is_neg, arith, Bool-cases, inl, inr,
}
use mathlib.Core.List.{reverse, append_assoc, append-nil, reverse-append}
use operating_system_design.Numeral.{digit, digit_loop, digit_buf, printint, atoi_loop, atoi}

-- `atoi` on a digit and what follows.
atoi_loop-digit :
    (n d : ℕ) (cs : List ℕ)
    → d < 10
    → n * 10 + d < 2 ^ 32
    → atoi_loop n (digit d ∷ cs) ≡ atoi_loop (n * 10 + d) cs
unfolding atoi_loop
atoi_loop-digit n d cs small fits = ground arith

atoi_loop-digit_loop :
    (fuel x : ℕ) (cs : List ℕ)
    → x < fuel
    → x < 2 ^ 32
    → atoi_loop 0 (reverse (digit_loop fuel 10 x) ++ cs) ≡ atoi_loop x cs
unfolding digit_loop
atoi_loop-digit_loop zero x cs h fits = absurd (omega arith)
atoi_loop-digit_loop (suc fuel) x cs h fits = elim (Bool-cases (x / 10 == 0)) [
  | inl last ↦ rw last (
      atoi_loop-digit 0 (x % 10) cs (omega arith) (omega arith)
      ∙ ap (λ n. atoi_loop n cs) (ground arith))
  | inr more ↦
      let ds = digit_loop fuel 10 (x / 10) in
      let d = digit (x % 10) in
      let smaller : x / 10 < fuel = ground arith in
      let whole : x / 10 * 10 + x % 10 ≡ x = omega arith in
      rw more (
        ap (λ xs. atoi_loop 0 (xs ++ cs)) (reverse-append (d ∷ []) ds)
        ∙ ap (atoi_loop 0) (append_assoc (reverse ds) (d ∷ []) cs)
        ∙ atoi_loop-digit_loop fuel (x / 10) (d ∷ cs) smaller (omega arith)
        ∙ atoi_loop-digit (x / 10) (x % 10) cs (omega arith) (omega arith)
        ∙ ap (λ n. atoi_loop n cs) whole)
]

-- A number that is not negative, written in decimal by `printint`, is read back by `atoi`.
pub atoi-printint : (x : ℕ) → is_neg x ≡ false → atoi (printint x 10 true) ≡ x
unfolding atoi printint digit_buf
atoi-printint x pos =
    let ds = digit_loop (suc x) 10 x in
    rw pos (
      ap (λ xs. atoi_loop 0 (reverse xs)) (append-nil ds)
      ∙ ap (atoi_loop 0) (sym (append-nil (reverse ds)))
      ∙ atoi_loop-digit_loop (suc x) x [] (omega arith) (ground arith)
      ∙ (unfold atoi_loop in refl))
