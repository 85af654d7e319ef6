-- ===== src/Args/Bounds.antt =====
-- The checks of xv6A1/syscall.c against the bounds of the process's memory.
use native.Mathlib.Decide.{ℕ_discrete, dec_lt}
use mathlib.Core.Path.{subst}
use mathlib.Core.Logic.{◌↔◌}
use mathlib.Core.Option.{none-ne-some}
use operating_system_design.Prelude.{
  ℕ, zero, suc, ◌+◌, ◌*◌, ◌-◌, ◌^◌, ◌<◌, ◌≤◌, ◌≡◌, ◌≢◌, refl, sym, ap, ◌∙◌, false, Option, none,
  some, ltb, leb, ◌==◌, arith, add32, is_neg, Bool-cases, inl, inr, ==→eq, ==→ne, ne→==, eq→==,
  gt→leb,
}
use operating_system_design.Args.{
  UserSpace, int_at, fetchint, scan_string, fetchstr, argint, argptr,
}

-- The block of `size` bytes that `argptr` accepts as argument `n`.
pub record Accepted (p : UserSpace) (n size a : ℕ) : Type 0 where
  pub argument : p.esp + 4 + 4 * n + 4 ≤ p.sz
  pub value : int_at p (p.esp + 4 + 4 * n) ≡ a
  pub size_nonneg : size < 2 ^ 31
  pub inside : a < p.sz
  pub fits : a + size ≤ p.sz

fetchint_inside :
    (p : UserSpace) (a : ℕ) → p.sz ≤ 2 ^ 31 → a + 4 ≤ p.sz → fetchint p a ≡ some (int_at p a)
unfolding fetchint
fetchint_inside p a high h = ground arith

fetchint_outside : (p : UserSpace) (a : ℕ) → p.sz ≤ 2 ^ 31 → p.sz < a + 4 → fetchint p a ≡ none
unfolding fetchint
fetchint_outside p a high h = ground arith

argint_lem :
    (p : UserSpace) (n : ℕ)
    → p.sz ≤ 2 ^ 31
    → p.esp + 4 + 4 * n < 2 ^ 32
    → argint p n ≡ fetchint p (p.esp + 4 + 4 * n)
unfolding argint
argint_lem p n high stack = ap (fetchint p) (omega (arith, stack))

argptr-some :
    (p : UserSpace) (n size a : ℕ)
    → p.sz ≤ 2 ^ 31
    → p.esp + 4 + 4 * n < 2 ^ 32
    → Accepted p n size a
    → argptr p n size ≡ some a
unfolding argptr
argptr-some p n size a high stack h =
    let e : argint p n ≡ some a =
      argint_lem p n high stack
      ∙ fetchint_inside p (p.esp + 4 + 4 * n) high h.argument
      ∙ ap some h.value in
    rw (argptr, e) (ground (arith, h.size_nonneg, h.inside, h.fits))

argptr_only :
    (p : UserSpace) (n size a : ℕ)
    → p.sz ≤ 2 ^ 31
    → p.esp + 4 + 4 * n < 2 ^ 32
    → argptr p n size ≡ some a
    → Accepted p n size a
unfolding argptr
argptr_only p n size a high stack = elim (dec_lt p.sz (p.esp + 4 + 4 * n + 4)) [
  | yes out ↦
      rw (argptr, argint_lem p n high stack ∙ fetchint_outside p (p.esp + 4 + 4 * n) high out)
        (λ e. absurd (none-ne-some a e))
  | no within ↦
      let v = int_at p (p.esp + 4 + 4 * n) in
      rw
        (
          argptr,
          argint_lem p n high stack ∙ fetchint_inside p (p.esp + 4 + 4 * n) high (omega arith),
        )
        (λ e.
          let ok : (is_neg size ≡ false)
              × (leb p.sz v ≡ false)
              × (ltb p.sz (add32 v size) ≡ false) =
            ground (arith, e) in
          let same : v ≡ a = ground (arith, e) in
          record {
            argument = omega arith;
            value = same;
            size_nonneg = ground (arith, ok.0);
            inside = ground (arith, ok.1, same);
            fits = ground (arith, ok.0, ok.1, ok.2, same);
          })
]

-- `argptr` accepts argument `n` with a pointer if and only if the argument's word lies in the
-- process's memory, the pointer is the word that stands there, the size is not negative, and the
-- whole block of that size from the pointer on lies in the memory, with its first byte even for
-- size 0: for a process of at most 2 ^ 31 bytes and an argument's address that does not wrap
-- around.
pub argptr_iff :
    (p : UserSpace) (n size a : ℕ)
    → p.sz ≤ 2 ^ 31
    → p.esp + 4 + 4 * n < 2 ^ 32
    → (argptr p n size ≡ some a) ↔ Accepted p n size a
argptr_iff p n size a high stack =
    (argptr_only p n size a high stack, argptr-some p n size a high stack)

-- A string of `n` bytes and its NUL, inside the memory.
pub record StringAt (p : UserSpace) (addr n : ℕ) : Type 0 where
  pub inside : addr + n < p.sz
  pub ends : p.bytes (addr + n) ≡ 0
  pub text : (i : ℕ) → i < n → p.bytes (addr + i) ≢ 0

scan_string_found :
    (k : ℕ) (p : UserSpace) (addr n d : ℕ)
    → d < k
    → p.bytes (addr + (n + d)) ≡ 0
    → ((i : ℕ) → i < d → p.bytes (addr + (n + i)) ≢ 0)
    → scan_string k p addr n ≡ some (n + d)
unfolding scan_string
scan_string_found zero p addr n d lt ends text = absurd (omega arith)
scan_string_found (suc k) p addr n zero lt ends text =
    let e : n + 0 ≡ n = omega arith in
    rw e (rw (eq→== (p.bytes (addr + n)) 0 (ap (λ j. p.bytes (addr + j)) (sym e) ∙ ends)) refl)
scan_string_found (suc k) p addr n (suc d) lt ends text =
    let step : (i : ℕ) → n + 1 + i ≡ n + suc i = (λ i. omega arith) in
    let first : p.bytes (addr + n) ≢ 0 =
      (λ e. text 0 (omega arith) (ap (λ j. p.bytes (addr + j)) (omega arith) ∙ e)) in
    rw (ne→== _ _ first, ← step d)
      (scan_string_found k p addr (n + 1) d (omega arith)
        (ap (λ j. p.bytes (addr + j)) (step d) ∙ ends)
        (λ i l e. text (suc i) (omega arith) (ap (λ j. p.bytes (addr + j)) (sym (step i)) ∙ e)))

-- What a scan that has found nothing in the first `n` bytes returns.
abbrev Scan : UserSpace → ℕ → ℕ → Option ℕ → Type 0
Scan p addr end none = Unit
Scan p addr end (some n) =
    (n < end) × (p.bytes (addr + n) ≡ 0) × ((i : ℕ) → i < n → p.bytes (addr + i) ≢ 0)

scan_string-Scan :
    (k : ℕ) (p : UserSpace) (addr n : ℕ)
    → ((i : ℕ) → i < n → p.bytes (addr + i) ≢ 0)
    → Scan p addr (n + k) (scan_string k p addr n)
unfolding scan_string
scan_string-Scan zero p addr n text = tt
scan_string-Scan (suc k) p addr n text = elim (Bool-cases (p.bytes (addr + n) == 0)) [
  | inl nul ↦ rw nul (omega arith, ==→eq _ _ nul, text)
  | inr other ↦
      let e : n + 1 + k ≡ n + suc k = omega arith in
      rw (other, ← e)
        (scan_string-Scan k p addr (n + 1) (λ i lt. elim (ℕ_discrete i n) [
          | yes last ↦ rw last (==→ne _ _ other)
          | no ne ↦ text i (omega arith)
        ]))
]

fetchstr_only : (p : UserSpace) (addr n : ℕ) → fetchstr p addr ≡ some n → StringAt p addr n
unfolding fetchstr
fetchstr_only p addr n = elim (Bool-cases (leb p.sz addr)) [
  | inl past ↦ rw (fetchstr, past) (λ e. absurd (none-ne-some n e))
  | inr below ↦
      rw (fetchstr, below)
        (λ e.
          let r =
            subst (Scan p addr (0 + (p.sz - addr))) e
              (scan_string-Scan (p.sz - addr) p addr 0 (λ i lt. absurd (omega arith))) in
          record { inside = omega (arith, r.0); ends = r.1; text = r.2 })
]

fetchstr-some : (p : UserSpace) (addr n : ℕ) → StringAt p addr n → fetchstr p addr ≡ some n
unfolding fetchstr
fetchstr-some p addr n h =
    let z : (i : ℕ) → 0 + i ≡ i = (λ i. omega arith) in
    rw (gt→leb p.sz addr (omega (arith, h.inside))) (
      scan_string_found (p.sz - addr) p addr 0 n (omega (arith, h.inside))
        (ap (λ j. p.bytes (addr + j)) (z n) ∙ h.ends)
        (λ i lt e. h.text i lt (ap (λ j. p.bytes (addr + j)) (sym (z i)) ∙ e))
      ∙ ap some (z n))

-- `fetchstr` returns a length if and only if a text of that length without a NUL, and a NUL behind
-- it, stand at the address inside the process's memory.
pub fetchstr_iff : (p : UserSpace) (addr n : ℕ) → (fetchstr p addr ≡ some n) ↔ StringAt p addr n
fetchstr_iff p addr n = (fetchstr_only p addr n, fetchstr-some p addr n)
