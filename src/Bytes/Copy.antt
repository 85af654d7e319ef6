-- ===== src/Bytes/Copy.antt =====
-- What `memmove` and `safestrcpy` of xv6A1/string.c leave in memory.
use operating_system_design.Prelude.{
  ℕ, zero, suc, ◌+◌, ◌-◌, ◌<◌, ◌≤◌, ◌≡◌, ◌∙◌, ◌⊎◌, inl, inr, false, arith, ltb, leb, ◌==◌, ◌&&◌,
  if◌then◌else◌, is_nonpos, Bool-cases,
}
use operating_system_design.Bytes.{poke, copy_up, copy_down, memmove, safe_loop, safestrcpy}

-- The memory in which `n` bytes from `s` on stand at `d` at once.
abbrev pub moved : ℕ → ℕ → ℕ → (ℕ → ℕ) → ℕ → ℕ
moved n s d mem a = if leb d a && ltb a (d + n) then mem (s + (a - d)) else mem a

moved-up :
    (n s d : ℕ) (mem : ℕ → ℕ) (a : ℕ)
    → (d ≤ s) ⊎ (s + suc n ≤ d)
    → moved n (s + 1) (d + 1) (poke d (mem s) mem) a ≡ moved (suc n) s d mem a
moved-up n s d mem a apart = ground arith

copy_up-moved :
    (n s d : ℕ) (mem : ℕ → ℕ) (a : ℕ)
    → (d ≤ s) ⊎ (s + n ≤ d)
    → copy_up n s d mem a ≡ moved n s d mem a
unfolding copy_up
copy_up-moved zero s d mem a apart = ground arith
copy_up-moved (suc n) s d mem a apart =
    copy_up-moved n (s + 1) (d + 1) (poke d (mem s) mem) a (ground arith)
    ∙ moved-up n s d mem a apart

moved-down :
    (n s d : ℕ) (mem : ℕ → ℕ) (a : ℕ)
    → s < d
    → moved n s d (poke (d + n) (mem (s + n)) mem) a ≡ moved (suc n) s d mem a
moved-down n s d mem a lt = ground arith

copy_down-moved :
    (n s d : ℕ) (mem : ℕ → ℕ) (a : ℕ)
    → s < d
    → copy_down n (s + n) (d + n) mem a ≡ moved n s d mem a
unfolding copy_down
copy_down-moved zero s d mem a lt = ground arith
copy_down-moved (suc n) s d mem a lt =
    let es : s + suc n - 1 ≡ s + n = omega arith in
    let ed : d + suc n - 1 ≡ d + n = omega arith in
    rw (es, ed)
      (copy_down-moved n s d (poke (d + n) (mem (s + n)) mem) a lt ∙ moved-down n s d mem a lt)

-- `memmove` copies `n` bytes as if at once, however source and destination overlap, and changes
-- nothing outside the destination.
pub memmove_lem :
    (dst src n : ℕ) (mem : ℕ → ℕ) (a : ℕ)
    → memmove dst src n mem a
      ≡ (if leb dst a && ltb a (dst + n) then mem (src + (a - dst)) else mem a)
unfolding memmove
memmove_lem dst src n mem a = elim (Bool-cases (ltb src dst && ltb dst (src + n))) [
  | inl over ↦ rw over (copy_down-moved n src dst mem a (ground arith))
  | inr clear ↦ rw clear (copy_up-moved n src dst mem a (ground arith))
]

safe_loop_lem :
    (n s t : ℕ) (mem : ℕ → ℕ)
    → ((k : ℕ) × (k ≤ n) × (safe_loop n s t mem (s + k) ≡ 0))
      × ((a : ℕ) → (a < s) ⊎ (s + n < a) → safe_loop n s t mem a ≡ mem a)
unfolding safe_loop
safe_loop_lem zero s t mem = ((0, omega arith, ground arith), λ a off. ground arith)
safe_loop_lem (suc n) s t mem = elim (Bool-cases (mem t == 0)) [
  | inl stop ↦ rw stop ((1, omega arith, ground arith), λ a off. ground arith)
  | inr more ↦
      let mem' = poke s (mem t) mem in
      let ((k, le, z), off') = safe_loop_lem n (s + 1) (t + 1) mem' in
      let e : s + 1 + k ≡ s + suc k = omega arith in
      rw more ((suc k, omega arith, rw e at z), λ a off. off' a (ground arith) ∙ ground arith)
]

-- With room for `n` bytes, `safestrcpy` leaves a NUL among them and writes nowhere else.
pub safestrcpy_lem :
    (s t n : ℕ) (mem : ℕ → ℕ)
    → is_nonpos n ≡ false
    → ((k : ℕ) × (k < n) × (safestrcpy s t n mem (s + k) ≡ 0))
      × ((a : ℕ) → (a < s) ⊎ (s + n ≤ a) → safestrcpy s t n mem a ≡ mem a)
unfolding safestrcpy
safestrcpy_lem s t n mem pos =
    let ((k, le, z), off) = safe_loop_lem (n - 1) s t mem in
    let some_room : 0 < n = ground arith in
    rw pos ((k, omega arith, z), λ a out. off a (ground arith))
