-- ===== src/Bytes/Compare.antt =====
-- What `memcmp` of xv6A1/string.c returns.
use operating_system_design.Prelude.{
  ℕ, zero, suc, ◌+◌, ◌<◌, ◌≡◌, ◌≢◌, refl, ◌⊎◌, inl, inr, arith, ◌==◌, sub32, Bool-cases, ==→eq,
  ==→ne,
}
use operating_system_design.Bytes.{memcmp}

abbrev pub Agree : ℕ → ℕ → ℕ → (ℕ → ℕ) → Type 0
Agree n p q mem = (i : ℕ) → i < n → mem (p + i) ≡ mem (q + i)

Agree-cons :
    (n p q : ℕ) (mem : ℕ → ℕ) → mem p ≡ mem q → Agree n (p + 1) (q + 1) mem → Agree (suc n) p q mem
Agree-cons n p q mem e g zero h = ground arith
Agree-cons n p q mem e g (suc i) h =
    let a : p + 1 + i ≡ p + suc i = omega arith in
    let b : q + 1 + i ≡ q + suc i = omega arith in rw (a, b) at (g i (omega arith))

-- `memcmp` returns 0 and the `n` bytes agree, or it returns the difference, as an `int`, of the
-- first two bytes that differ.
pub memcmp_lem :
    (n p q : ℕ) (mem : ℕ → ℕ)
    → ((memcmp n p q mem ≡ 0) × Agree n p q mem)
      ⊎ ((i : ℕ) × (i < n)
          × Agree i p q mem
          × (mem (p + i) ≢ mem (q + i))
          × (memcmp n p q mem ≡ sub32 (mem (p + i)) (mem (q + i))))
unfolding memcmp
memcmp_lem zero p q mem = inl (refl, λ i h. absurd (omega arith))
memcmp_lem (suc n) p q mem = elim (Bool-cases (mem p == mem q)) [
  | inl same ↦ elim (memcmp_lem n (p + 1) (q + 1) mem) [
    | inl (z, g) ↦ rw same (inl (z, Agree-cons n p q mem (==→eq _ _ same) g))
    | inr (i, lt, g, ne, d) ↦
        let a : p + 1 + i ≡ p + suc i = omega arith in
        let b : q + 1 + i ≡ q + suc i = omega arith in
        rw same (
          inr (
            suc i,
            omega arith,
            Agree-cons i p q mem (==→eq _ _ same) g,
            rw (a, b) at ne,
            rw (a, b) at d,
          ))
  ]
  | inr other ↦
      let a : p + 0 ≡ p = omega arith in
      let b : q + 0 ≡ q = omega arith in
      rw other (
        inr (
          0,
          omega arith,
          λ i h. absurd (omega arith),
          rw (a, b) (==→ne _ _ other),
          rw (a, b) refl,
        ))
]
