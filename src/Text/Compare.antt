-- ===== src/Text/Compare.antt =====
-- `strncmp` and `strncpy` of xv6A1/string.c, as xv6A1/fs.c uses them on names.
use mathlib.Core.Logic.{◌↔◌}
use operating_system_design.Prelude.{
  ℕ, zero, suc, ◌+◌, ◌^◌, ◌<◌, ◌≡◌, refl, sym, ap, true, false, not, ◌&&◌, List, [], ◌∷◌, ◌++◌,
  ◌==◌, if◌then◌else◌, replicate, is_nonpos, arith, Bool-cases, inl, inr, eq→==, ==→eq, ==→ne,
  length, length-append, length-replicate,
}
use operating_system_design.Text.{first, rest, strncmp, copy_text, strncpy}

abbrev pub Bytes : List ℕ → Type 0
Bytes [] = Unit
Bytes (c ∷ cs) = (c < 256) × Bytes cs

-- The first `n` bytes of a string, or all of it.
abbrev pub prefix : List ℕ → ℕ → List ℕ
prefix p zero = []
prefix p (suc n) = if first p == 0 then [] else first p ∷ prefix (rest p) n

first-lt : (p : List ℕ) → Bytes p → first p < 256
first-lt [] h = omega arith
first-lt (c ∷ cs) h = h.0

Bytes-rest : (p : List ℕ) → Bytes p → Bytes (rest p)
Bytes-rest [] h = tt
Bytes-rest (c ∷ cs) h = h.1

strncmp_only :
    (n : ℕ) (p q : List ℕ) → Bytes p → Bytes q → strncmp p q n ≡ 0 → prefix p n ≡ prefix q n
unfolding strncmp
strncmp_only zero p q bp bq = λ e. refl
strncmp_only (suc n) p q bp bq = elim (Bool-cases (not (first p == 0) && first p == first q)) [
  | inl go ↦ rw go (λ e.
      let same : first p ≡ first q = ground (arith, go) in
      let live : (first p == 0) ≡ false = ground (arith, go) in
      rw (← same, live)
        (ap (◌∷◌ (first p))
          (strncmp_only n (rest p) (rest q) (Bytes-rest p bp) (Bytes-rest q bq) e)))
  | inr stop ↦ rw stop (λ e.
      let same : first p ≡ first q = omega (arith, e, first-lt p bp, first-lt q bq) in
      let ended : (first p == 0) ≡ true = ground (arith, stop, same) in rw (← same, ended) refl)
]

strncmp_equal : (n : ℕ) (p q : List ℕ) → prefix p n ≡ prefix q n → strncmp p q n ≡ 0
unfolding strncmp
strncmp_equal zero p q = λ e. refl
strncmp_equal (suc n) p q = elim (Bool-cases (first p == 0)) [
  | inl ended ↦ elim (Bool-cases (first q == 0)) [
    | inl too ↦ rw (ended, ==→eq _ _ ended, ==→eq _ _ too) (λ e. refl)
    | inr live ↦ rw (ended, live) (λ e. absurd (==→ne _ _ live (sym (ap first e))))
  ]
  | inr live ↦ elim (Bool-cases (first q == 0)) [
    | inl ended ↦ rw (live, ended) (λ e. absurd (==→ne _ _ live (ap first e)))
    | inr too ↦
        rw (live, too)
          (λ e. rw (eq→== _ _ (ap first e)) (strncmp_equal n (rest p) (rest q) (ap rest e)))
  ]
]

-- `strncmp` returns 0 if and only if the two strings, cut at their first NUL and to `n` bytes,
-- are the same: for strings of bytes.
pub strncmp_iff :
    (p q : List ℕ) (n : ℕ) → Bytes p → Bytes q → (strncmp p q n ≡ 0) ↔ (prefix p n ≡ prefix q n)
strncmp_iff p q n bp bq = (strncmp_only n p q bp bq, strncmp_equal n p q)

length-copy_text : (n : ℕ) (t : List ℕ) → length (copy_text n t).0 + (copy_text n t).1 ≡ n
unfolding copy_text
length-copy_text zero t = refl
length-copy_text (suc n) t = elim (Bool-cases (first t == 0)) [
  | inl ended ↦ rw ended (omega arith)
  | inr live ↦ rw live (omega (arith, length-copy_text n (rest t)))
]

prefix-copy_text :
    (n : ℕ) (t zeros : List ℕ)
    → (copy_text n t).1 ≡ length zeros
    → prefix ((copy_text n t).0 ++ zeros) n ≡ prefix t n
unfolding copy_text
prefix-copy_text zero t zeros = λ h. refl
prefix-copy_text (suc n) t zeros = elim (Bool-cases (first t == 0)) [
  | inl ended ↦ rw ended (λ h. refl)
  | inr live ↦ rw (live, live) (λ h. ap (◌∷◌ (first t)) (prefix-copy_text n (rest t) zeros h))
]

-- What `strncpy` writes: `n` bytes, the string cut to them, and bytes only if the string has only
-- such.
pub record Padded (t : List ℕ) (n : ℕ) (xs : List ℕ) : Type 0 where
  pub size : length xs ≡ n
  pub text : prefix xs n ≡ prefix t n
  pub bytes : Bytes t → Bytes xs

pub Bytes-append : (xs ys : List ℕ) → Bytes xs → Bytes ys → Bytes (xs ++ ys)
Bytes-append [] ys b c = c
Bytes-append (x ∷ xs) ys b c = (b.0, Bytes-append xs ys b.1 c)

Bytes-zeros : (n : ℕ) → Bytes (replicate n 0)
Bytes-zeros zero = tt
Bytes-zeros (suc n) = (omega arith, Bytes-zeros n)

Bytes-copy_text : (n : ℕ) (t : List ℕ) → Bytes t → Bytes (copy_text n t).0
unfolding copy_text
Bytes-copy_text zero t b = tt
Bytes-copy_text (suc n) t b = elim (Bool-cases (first t == 0)) [
  | inl ended ↦ rw ended (omega arith, tt)
  | inr live ↦ rw live (first-lt t b, Bytes-copy_text n (rest t) (Bytes-rest t b))
]

pub strncpy-Padded : (t : List ℕ) (n : ℕ) → n < 2 ^ 31 → Padded t n (strncpy t n)
unfolding strncpy
strncpy-Padded t n small = elim (Bool-cases (is_nonpos n)) [
  | inl none_left ↦
      let z : n ≡ 0 = ground (arith, none_left, small) in
      rw z (record { size = refl; text = refl; bytes = λ b. tt })
  | inr some_left ↦
      let len = length-copy_text n t in
      let pad = length-replicate {A = ℕ} (copy_text n t).1 0 in
      rw some_left (record {
        size =
            omega
              (arith, length-append (copy_text n t).0 (replicate (copy_text n t).1 0), len, pad);
        text = prefix-copy_text n t (replicate (copy_text n t).1 0) (sym pad);
        bytes = λ b.
            Bytes-append (copy_text n t).0 (replicate (copy_text n t).1 0) (Bytes-copy_text n t b)
              (Bytes-zeros (copy_text n t).1);
      })
]

-- `strncpy` writes exactly `n` bytes, and `strncmp` of the string against what it wrote, to the
-- same length, returns 0: for a count that is not negative.
pub strncmp-strncpy :
    (t : List ℕ) (n : ℕ) → n < 2 ^ 31 → (length (strncpy t n) ≡ n) × (strncmp t (strncpy t n) n ≡ 0)
strncmp-strncpy t n small =
    let p = strncpy-Padded t n small in (p.size, strncmp_equal n t (strncpy t n) (sym p.text))
