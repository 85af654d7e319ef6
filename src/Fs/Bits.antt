-- ===== src/Fs/Bits.antt =====
-- Bits of a bitmap block of xv6A1/fs.c under the masks of `balloc` and `bfree`.
use Prim.Native.Nat.{bit_and, bit_or}
use native.Mathlib.Decide.{ℕ_discrete}
use operating_system_design.Prelude.{
  ℕ, zero, suc, ◌-◌, ◌/◌, ◌%◌, ◌<◌, ◌^◌, ◌≡◌, refl, sym, ◌∙◌, Bool, true, false, ◌&&◌, ◌||◌, not,
  ltb, ◌==◌, if◌then◌else◌, arith, ltb→lt, eq→==, ne→==, Bool-cases, inl, inr,
}
use operating_system_design.Fs.{bit_is_set, set_bit, clear_bit}

-- A test that all numbers under a bound pass.
unfoldable pub passes : (ℕ → Bool) → ℕ → Bool
passes t zero = true
passes t (suc top) = if t top then passes t top else false

pub at_each : (t : ℕ → Bool) (top k : ℕ) → passes t top ≡ true → k < top → t k ≡ true
unfolding passes
at_each t zero k ok under = absurd (omega (arith, under))
at_each t (suc top) k ok under = elim (Bool-cases (t top)) [
  | inl yes_top ↦ elim (ℕ_discrete k top) [
    | yes last ↦ rw last yes_top
    | no earlier ↦ at_each t top k (ground (arith, ok, yes_top)) (omega (arith, under, earlier))
  ]
  | inr fails ↦ absurd (ground (arith, ok, fails))
]

abbrev test : ℕ → ℕ → Bool
test x i = if bit_and x (2 ^ i) == 0 then false else true

abbrev same : Bool → Bool → Bool
same true b = b
same false b = not b

-- Setting and clearing bit `i` of a byte, seen at bit `j`.
abbrev row : ℕ → ℕ → ℕ → Bool
row x i j =
    same (test (bit_or x (2 ^ i)) j) (i == j || test x j)
    && (same (test (bit_and x (255 - 2 ^ i)) j) (not (i == j) && test x j)
        && (ltb (bit_or x (2 ^ i)) 256 && ltb (bit_and x (255 - 2 ^ i)) 256))

bit_table : passes (λ x. passes (λ i. passes (λ j. row x i j) 8) 8) 256 ≡ true
unfolding passes
bit_table = refl

same→eq : (a b : Bool) → same a b ≡ true → a ≡ b
same→eq true b h = sym h
same→eq false true h = cc
same→eq false false h = refl

row-true : (x i j : ℕ) → x < 256 → i < 8 → j < 8 → row x i j ≡ true
row-true x i j a b c =
    at_each (row x i) 8 j
      (at_each (λ u. passes (row x u) 8) 8 i
        (at_each (λ y. passes (λ u. passes (row y u) 8) 8) 256 x bit_table a) b)
      c

and_true : (a b : Bool) → (a && b) ≡ true → (a ≡ true) × (b ≡ true)
and_true true b h = (refl, h)
and_true false b h = cc

-- One bit of a byte with another one set or cleared.
test_laws :
    (x i j : ℕ)
    → x < 256
    → i < 8
    → j < 8
    → (test (bit_or x (2 ^ i)) j ≡ (i == j || test x j))
      × (test (bit_and x (255 - 2 ^ i)) j ≡ (not (i == j) && test x j))
      × (bit_or x (2 ^ i) < 256)
      × (bit_and x (255 - 2 ^ i) < 256)
test_laws x i j a b c =
    let (p, rest) = and_true _ _ (row-true x i j a b c) in
    let (q, sizes) = and_true _ _ rest in
    let (l, r) = and_true _ _ sizes in (same→eq _ _ p, same→eq _ _ q, ltb→lt _ _ l, ltb→lt _ _ r)

-- One bit of a bitmap block.
pub set_bit_lem :
    (bytes : ℕ → ℕ) (bi bj : ℕ)
    → bytes (bi / 8) < 256
    → bit_is_set (set_bit bytes bi) bj ≡ (bi == bj || bit_is_set bytes bj)
set_bit_lem bytes bi bj small = elim (ℕ_discrete (bi / 8) (bj / 8)) [
  | yes e ↦
      let t = (test_laws (bytes (bi / 8)) (bi % 8) (bj % 8) small (omega arith) (omega arith)).0 in
      let b : (bi % 8 == bj % 8) ≡ (bi == bj) = ground arith in
      rw (eq→== _ _ e) (t ∙ rw (b, e) refl)
  | no ne ↦ let f : (bi == bj) ≡ false = ground arith in rw (ne→== _ _ ne, f) refl
]

pub clear_bit_lem :
    (bytes : ℕ → ℕ) (bi bj : ℕ)
    → bytes (bi / 8) < 256
    → bit_is_set (clear_bit bytes bi) bj ≡ (not (bi == bj) && bit_is_set bytes bj)
clear_bit_lem bytes bi bj small = elim (ℕ_discrete (bi / 8) (bj / 8)) [
  | yes e ↦
      let t = (test_laws (bytes (bi / 8)) (bi % 8) (bj % 8) small (omega arith) (omega arith)).1 in
      let b : (bi % 8 == bj % 8) ≡ (bi == bj) = ground arith in
      rw (eq→== _ _ e) (t ∙ rw (b, e) refl)
  | no ne ↦ let f : (bi == bj) ≡ false = ground arith in rw (ne→== _ _ ne, f) refl
]

pub set_bit-lt :
    (bytes : ℕ → ℕ) (bi : ℕ) → ((i : ℕ) → bytes i < 256) → (i : ℕ) → set_bit bytes bi i < 256
set_bit-lt bytes bi all i = elim (ℕ_discrete (bi / 8) i) [
  | yes e ↦
      rw (eq→== _ _ e)
        (test_laws (bytes (bi / 8)) (bi % 8) 0 (all (bi / 8)) (omega arith) (omega arith)).2
  | no ne ↦ rw (ne→== _ _ ne) (all i)
]

pub clear_bit-lt :
    (bytes : ℕ → ℕ) (bi : ℕ) → ((i : ℕ) → bytes i < 256) → (i : ℕ) → clear_bit bytes bi i < 256
clear_bit-lt bytes bi all i = elim (ℕ_discrete (bi / 8) i) [
  | yes e ↦
      rw (eq→== _ _ e)
        (test_laws (bytes (bi / 8)) (bi % 8) 0 (all (bi / 8)) (omega arith) (omega arith)).3
  | no ne ↦ rw (ne→== _ _ ne) (all i)
]
