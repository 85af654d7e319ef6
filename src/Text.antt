-- ===== src/Text.antt =====
-- The strings of xv6A1/string.c. A string is the list of its bytes: behind its end, as at its
-- first NUL, stands a NUL. The copies return the bytes written, from the target's start on.
pub mod Compare
use operating_system_design.Prelude.{
  ℕ, zero, suc, Bool, true, false, not, ◌&&◌, List, [], ◌∷◌, ◌++◌, ◌==◌, if◌then◌else◌, replicate,
  sub32, is_nonpos,
}

-- The byte that a pointer points at, and the string behind it.
abbrev pub first : List ℕ → ℕ
first [] = 0
first (c ∷ cs) = c

abbrev pub rest : List ℕ → List ℕ
rest [] = []
rest (c ∷ cs) = cs

-- `strncmp`, with the `int` it returns as a bit pattern.
unfoldable pub strncmp : List ℕ → List ℕ → ℕ → ℕ
strncmp p q zero = 0
strncmp p q (suc n) =
    let later = strncmp (rest p) (rest q) n in
    if not (first p == 0) && first p == first q then later else sub32 (first p) (first q)

-- The first loop of `strncpy`: the bytes written, and the count left.
unfoldable pub copy_text : ℕ → List ℕ → List ℕ × ℕ
copy_text zero t = ([], 0)
copy_text (suc n) t =
    let (xs, left) = copy_text n (rest t) in
    if first t == 0 then (0 ∷ [], n) else (first t ∷ xs, left)

unfoldable pub strncpy : List ℕ → ℕ → List ℕ
strncpy t n = if is_nonpos n then [] else let (xs, left) = copy_text n t in xs ++ replicate left 0

unfoldable pub strlen : List ℕ → ℕ
strlen [] = 0
strlen (c ∷ cs) = let later = strlen cs in if c == 0 then 0 else suc later
