-- ===== src/Vm/Flags.antt =====
-- The flags that xv6A1/vm.c puts into the entries of its page tables, bit by bit.
use Prim.Native.Nat.{max, bit_or, bit_or-bitwise, digits}
use native.Mathlib.Decide.{ℕ_discrete}
use operating_system_design.Prelude.{
  ℕ, zero, suc, ◌+◌, ◌*◌, ◌/◌, ◌%◌, ◌<◌, ◌≤◌, ◌≡◌, refl, ◌∙◌, arith,
}

-- The digits of `a | b`, with `n` to go.
abbrev or_digits : ℕ → ℕ → ℕ → ℕ
or_digits n a b = digits (λ c. c) max n a b

max_zero : (x : ℕ) → max x 0 ≡ x
max_zero zero = refl
max_zero (suc x) = omega arith

or_digits_zero : (n a : ℕ) → a ≤ n → or_digits n a 0 ≡ a
or_digits_zero zero a le = omega arith
or_digits_zero (suc n) zero le = refl
or_digits_zero (suc n) (suc a) le =
    omega (arith, or_digits_zero n (suc a / 2) (omega arith), max_zero (suc a % 2))

or_digits_step :
    (n a b : ℕ)
    → 0 < a
    → or_digits (suc n) a b ≡ or_digits n (a / 2) (b / 2) * 2 + max (a % 2) (b % 2)
or_digits_step n zero b pos = absurd (omega arith)
or_digits_step n (suc a) b pos = refl

or_digits_even :
    (n a b : ℕ)
    → 0 < a
    → a % 2 ≡ 0
    → b % 2 ≡ 1
    → or_digits (suc n) a b ≡ or_digits n (a / 2) (b / 2) * 2 + 1
or_digits_even n a b pos even odd = or_digits_step n a b pos ∙ rw (even, odd) refl

max_odd : (d : ℕ) → d < 2 → max d 1 ≡ 1
max_odd zero lt = refl
max_odd (suc zero) lt = refl
max_odd (suc (suc d)) lt = absurd (omega arith)

pub bit_or_odd : (x : ℕ) → bit_or x 1 % 2 ≡ 1
bit_or_odd zero = refl
bit_or_odd (suc x) =
    let digit = max_odd (suc x % 2) (omega arith) in
    omega (arith, bit_or-bitwise (suc x) 1, or_digits_step x (suc x) 1 (omega arith), digit)

-- A multiple of 8 with the flags of a table's entry.
pub bit_or_seven : (a : ℕ) → a % 8 ≡ 0 → bit_or a 7 ≡ a + 7
bit_or_seven a al = elim (ℕ_discrete a 0) [
  | yes e ↦ rw e refl
  | no ne ↦ at a al (omega (arith, ne))
]
  where
    at : (n : ℕ) → n % 8 ≡ 0 → 8 ≤ n → bit_or n 7 ≡ n + 7
    at (suc (suc (suc n))) al big =
        let a = suc (suc (suc n)) in
        let one = or_digits_even (suc (suc n)) a 7 (omega arith) (omega arith) refl in
        let two = or_digits_even (suc n) (a / 2) 3 (omega arith) (omega arith) refl in
        let three = or_digits_even n (a / 2 / 2) 1 (omega arith) (omega arith) refl in
        omega (
          arith,
          bit_or-bitwise a 7,
          one,
          two,
          three,
          or_digits_zero n (a / 2 / 2 / 2) (omega arith),
        )
    at (suc (suc zero)) al big = absurd (omega arith)
    at (suc zero) al big = absurd (omega arith)
    at zero al big = absurd (omega arith)
