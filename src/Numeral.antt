-- ===== src/Numeral.antt =====
-- xv6A1/printf.c: `printint`, and xv6A1/ulib.c: `atoi`. An `int` is its bit pattern, a text its
-- list of bytes without the NUL.
pub mod RoundTrip
use operating_system_design.Prelude.{
  ℕ, zero, suc, ◌+◌, ◌-◌, ◌*◌, ◌/◌, ◌%◌, ◌^◌, Bool, true, false, ◌&&◌, List, [], ◌∷◌, ◌++◌, leb,
  ltb, ◌==◌, if◌then◌else◌, sub32, is_neg, u32_mod,
}
use mathlib.Core.List.{reverse}

-- `digits[d]`
abbrev pub digit : ℕ → ℕ
digit d = if ltb d 10 then d + b'0' else d - 10 + b'A'

-- The `do` loop: the digits of `x`, the last one first. A round at least halves `x`.
unfoldable pub digit_loop : ℕ → ℕ → ℕ → List ℕ
digit_loop zero base x = []
digit_loop (suc fuel) base x =
    let rest = digit_loop fuel base (x / base) in
    digit (x % base) ∷ (if x / base == 0 then [] else rest)

-- The array `buf` when it is full.
unfoldable pub digit_buf : ℕ → ℕ → Bool → List ℕ
digit_buf xx base sgn =
    let neg = sgn && is_neg xx in
    let x = if neg then sub32 0 xx else xx in
    digit_loop (suc x) base x ++ (if neg then b'-' ∷ [] else [])

-- The bytes that `printint` writes.
unfoldable pub printint : ℕ → ℕ → Bool → List ℕ
printint xx base sgn = reverse (digit_buf xx base sgn)

-- The loop of `atoi`.
unfoldable pub atoi_loop : ℕ → List ℕ → ℕ
atoi_loop n [] = n
atoi_loop n (c ∷ cs) =
    if leb b'0' c && leb c b'9' then atoi_loop ((n * 10 + c + u32_mod - b'0') % u32_mod) cs else n

unfoldable pub atoi : List ℕ → ℕ
atoi s = atoi_loop 0 s
