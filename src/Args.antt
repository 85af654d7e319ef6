-- ===== src/Args.antt =====
-- xv6A1/syscall.c: the arguments of a system call, read from the memory of the process.
pub mod Bounds
use operating_system_design.Prelude.{
  ℕ, zero, suc, ◌+◌, ◌*◌, ◌^◌, Bool, true, false, ◌||◌, Option, none, some, ltb, leb, ◌==◌,
  if◌then◌else◌, add32, is_neg, ◌-◌,
}

-- What the functions read of the current process: its size, its `tf->esp` and its bytes.
pub record UserSpace : Type 0 where
  pub sz : ℕ
  pub esp : ℕ
  pub bytes : ℕ → ℕ

-- The `int` at an address.
abbrev pub int_at : UserSpace → ℕ → ℕ
int_at p a =
    p.bytes a + 2 ^ 8 * p.bytes (a + 1) + 2 ^ 16 * p.bytes (a + 2) + 2 ^ 24 * p.bytes (a + 3)

-- `fetchint`: `none` is -1.
unfoldable pub fetchint : UserSpace → ℕ → Option ℕ
fetchint p addr = if leb p.sz addr || ltb p.sz (add32 addr 4) then none else some (int_at p addr)

-- The loop of `fetchstr` for the bytes left before the end, with those passed.
unfoldable pub scan_string : ℕ → UserSpace → ℕ → ℕ → Option ℕ
scan_string zero p addr n = none
scan_string (suc k) p addr n =
    let rest = scan_string k p addr (n + 1) in if p.bytes (addr + n) == 0 then some n else rest

-- `fetchstr`: the length of the string at `addr`, or `none` for -1.
unfoldable pub fetchstr : UserSpace → ℕ → Option ℕ
fetchstr p addr = if leb p.sz addr then none else scan_string (p.sz - addr) p addr 0

unfoldable pub argint : UserSpace → ℕ → Option ℕ
argint p n = fetchint p (add32 (add32 p.esp 4) (4 * n))

-- `argptr`: the pointer, or `none` for -1.
unfoldable pub argptr : UserSpace → ℕ → ℕ → Option ℕ
argptr p n size = elim (argint p n) [
  | none ↦ none
  | some i ↦ if is_neg size || (leb p.sz i || ltb p.sz (add32 i size)) then none else some i
]

-- `argstr`: the pointer and the string's length, or `none` for -1.
unfoldable pub argstr : UserSpace → ℕ → Option (ℕ × ℕ)
argstr p n = elim (argint p n) [
  | none ↦ none
  | some addr ↦ elim (fetchstr p addr) [ none ↦ none | some len ↦ some (addr, len) ]
]
