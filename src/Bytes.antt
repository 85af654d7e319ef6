-- ===== src/Bytes.antt =====
-- xv6A1/string.c: `memcmp`, `memmove` and `safestrcpy`, on a memory with a byte for each address.
-- Pointers do not wrap.
pub mod Copy
pub mod Compare
use operating_system_design.Prelude.{
  ℕ, zero, suc, ◌+◌, ◌-◌, ◌&&◌, not, ltb, ◌==◌, if◌then◌else◌, sub32, is_nonpos,
}

-- `*p = b`
abbrev pub poke : ℕ → ℕ → (ℕ → ℕ) → ℕ → ℕ
poke p b mem a = if a == p then b else mem a

-- `memcmp`
unfoldable pub memcmp : ℕ → ℕ → ℕ → (ℕ → ℕ) → ℕ
memcmp zero p q mem = 0
memcmp (suc n) p q mem =
    let rest = memcmp n (p + 1) (q + 1) mem in
    if not (mem p == mem q) then sub32 (mem p) (mem q) else rest

-- The second loop of `memmove`, for the pointers `s` and `d`.
unfoldable pub copy_up : ℕ → ℕ → ℕ → (ℕ → ℕ) → ℕ → ℕ
copy_up zero s d mem = mem
copy_up (suc n) s d mem = copy_up n (s + 1) (d + 1) (poke d (mem s) mem)

-- The first loop of `memmove`, for pointers behind the last byte.
unfoldable pub copy_down : ℕ → ℕ → ℕ → (ℕ → ℕ) → ℕ → ℕ
copy_down zero s d mem = mem
copy_down (suc n) s d mem = copy_down n (s - 1) (d - 1) (poke (d - 1) (mem (s - 1)) mem)

unfoldable pub memmove : ℕ → ℕ → ℕ → (ℕ → ℕ) → ℕ → ℕ
memmove dst src n mem =
    if ltb src dst && ltb dst (src + n)
    then copy_down n (src + n) (dst + n) mem
    else copy_up n src dst mem

-- The loop of `safestrcpy` with the bytes left, and the write behind it.
unfoldable pub safe_loop : ℕ → ℕ → ℕ → (ℕ → ℕ) → ℕ → ℕ
safe_loop zero s t mem = poke s 0 mem
safe_loop (suc n) s t mem =
    let mem' = poke s (mem t) mem in
    let rest = safe_loop n (s + 1) (t + 1) mem' in if mem t == 0 then poke (s + 1) 0 mem' else rest

unfoldable pub safestrcpy : ℕ → ℕ → ℕ → (ℕ → ℕ) → ℕ → ℕ
safestrcpy s t n mem = if is_nonpos n then mem else safe_loop (n - 1) s t mem
