-- ===== src/PathName.antt =====
-- xv6A1/fs.c: path names. A path is its list of bytes without the NUL, and a name is an array of
-- DIRSIZ bytes.
pub mod Components
use operating_system_design.Prelude.{
  ℕ, zero, suc, ◌+◌, List, [], ◌∷◌, ◌++◌, Option, none, some, length, set, take, drop, leb, ◌==◌,
  if◌then◌else◌,
}

abbrev pub dir_siz : ℕ
dir_siz = 14

-- `while(*path == '/') path++;`
unfoldable pub skip_slashes : List ℕ → List ℕ
skip_slashes [] = []
skip_slashes (c ∷ cs) = if c == b'/' then skip_slashes cs else c ∷ cs

-- The bytes that `while(*path != '/' && *path != 0) path++;` passes, and those that it leaves.
unfoldable pub span_elem : List ℕ → List ℕ × List ℕ
span_elem [] = ([], [])
span_elem (c ∷ cs) =
    let (elem, rest) = span_elem cs in if c == b'/' then ([], c ∷ cs) else (c ∷ elem, rest)

-- `memmove(name, s, len)` for the `len` bytes at `s`.
abbrev pub overwrite : List ℕ → List ℕ → List ℕ
overwrite bytes name = bytes ++ drop (length bytes) name

unfoldable pub copy_elem : List ℕ → List ℕ → List ℕ
copy_elem elem name =
    if leb dir_siz (length elem)
    then overwrite (take dir_siz elem) name
    else set (overwrite elem name) (length elem) 0

-- `skipelem` from the first byte on that is no slash.
unfoldable pub next_elem : List ℕ → List ℕ → Option (List ℕ × List ℕ)
next_elem [] name = none
next_elem (c ∷ cs) name =
    let (elem, rest) = span_elem (c ∷ cs) in some (skip_slashes rest, copy_elem elem name)

unfoldable pub skipelem : List ℕ → List ℕ → Option (List ℕ × List ℕ)
skipelem path name = next_elem (skip_slashes path) name
