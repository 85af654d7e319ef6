-- ===== src/Grep.antt =====
-- xv6A1/grep.c: the matcher of regular expressions. A C string is its list of bytes without the
-- NUL.
pub mod Language
use operating_system_design.Prelude.{
  ℕ, Bool, true, false, ◌&&◌, ◌||◌, List, [], ◌∷◌, ◌==◌, if◌then◌else◌,
}

abbrev pub is_end : List ℕ → Bool
is_end [] = true
is_end (t ∷ ts) = false

-- `matchstar(c, re, text)`, for `here` what `matchhere(re, ·)` answers.
unfoldable pub matchstar : ℕ → (List ℕ → Bool) → List ℕ → Bool
matchstar c here [] = here []
matchstar c here (t ∷ ts) = here (t ∷ ts) || ((t == c || c == b'.') && matchstar c here ts)

-- The last test of `matchhere`: one byte, and then what `here` answers.
unfoldable pub match_byte : ℕ → (List ℕ → Bool) → List ℕ → Bool
match_byte r here [] = false
match_byte r here (t ∷ ts) = (r == b'.' || r == t) && here ts

unfoldable pub matchhere : List ℕ → List ℕ → Bool
matchhere [] text = true
matchhere (r ∷ []) text = if r == b'$' then is_end text else match_byte r (matchhere []) text
matchhere (r ∷ s ∷ re) text =
    let star = matchstar r (matchhere re) text in
    let byte = match_byte r (matchhere (s ∷ re)) text in if s == b'*' then star else byte

-- The loop of `match`: `here` at every position, the end included.
unfoldable pub match_anywhere : (List ℕ → Bool) → List ℕ → Bool
match_anywhere here [] = here []
match_anywhere here (t ∷ ts) = here (t ∷ ts) || match_anywhere here ts

unfoldable pub match : List ℕ → List ℕ → Bool
match [] text = match_anywhere (matchhere []) text
match (r ∷ re) text =
    if r == b'^' then matchhere re text else match_anywhere (matchhere (r ∷ re)) text
