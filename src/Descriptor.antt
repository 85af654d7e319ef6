-- ===== src/Descriptor.antt =====
-- xv6A1/sysfile.c: a process's table of file descriptors, `ofile`, as a list of slots of the table
-- of open files, `none` for the null pointer.
pub mod Count
pub mod Refs
use operating_system_design.Prelude.{
  ℕ, ◌+◌, Bool, true, false, ◌||◌, Option, none, some, List, [], ◌∷◌, ◌==◌, leb, get_or, set,
  if◌then◌else◌, is_neg,
}
use operating_system_design.Args.{UserSpace, argint}
use operating_system_design.File.{File, FileCall, filedup, fileclose}

abbrev pub nofile : ℕ
nofile = 16

-- `argfd`: the descriptor and its file, or `none` for -1.
unfoldable pub argfd : UserSpace → List (Option ℕ) → ℕ → Option (ℕ × ℕ)
argfd p ofile n = elim (argint p n) [
  | none ↦ none
  | some fd ↦
      if is_neg fd || leb nofile fd
      then none
      else elim (get_or ofile fd none) [ none ↦ none | some f ↦ some (fd, f) ]
]

-- The loop of `fdalloc`, from descriptor `fd` on.
unfoldable pub find_null : ℕ → List (Option ℕ) → Option ℕ
find_null fd [] = none
find_null fd (none ∷ slots) = some fd
find_null fd (some f ∷ slots) = find_null (fd + 1) slots

-- `fdalloc` behind its loop.
abbrev pub placed : ℕ → List (Option ℕ) → Option ℕ → Option (ℕ × List (Option ℕ))
placed f ofile none = none
placed f ofile (some fd) = some (fd, set ofile fd (some f))

-- `fdalloc`: the descriptor, or `none` for -1, and the table.
unfoldable pub fdalloc : ℕ → List (Option ℕ) → Option (ℕ × List (Option ℕ))
fdalloc f ofile = placed f ofile (find_null 0 ofile)

-- A process's descriptors and the table of open files.
pub record Open : Type 0 where
  pub ofile : List (Option ℕ)
  pub table : List File

-- The result of `filedup` or `fileclose` on the table, with what the call returns: `none` is the
-- panic.
abbrev pub returning : Option ℕ → List (Option ℕ) → Option (List File) → Option (Option ℕ × Open)
returning ret ofile none = none
returning ret ofile (some t) = some (ret, record { ofile = ofile; table = t })

-- `sys_dup`: it returns a descriptor, or `none` for -1. The outer `none` is a panic.
unfoldable pub sys_dup : UserSpace → Open → Option (Option ℕ × Open)
sys_dup p o = elim (argfd p o.ofile 0) [
  | none ↦ some (none, o)
  | some (_, f) ↦ elim (fdalloc f o.ofile) [
    | none ↦ some (none, o)
    | some (fd, ofile) ↦ returning (some fd) ofile (filedup f o.table)
  ]
]

-- `fileclose` without the calls that it makes.
abbrev pub closed : Option (List File × List FileCall) → Option (List File)
closed none = none
closed (some (t, calls)) = some t

-- `sys_close`: it returns 0, or `none` for -1. The outer `none` is a panic.
unfoldable pub sys_close : UserSpace → Open → Option (Option ℕ × Open)
sys_close p o = elim (argfd p o.ofile 0) [
  | none ↦ some (none, o)
  | some (fd, f) ↦ returning (some 0) (set o.ofile fd none) (closed (fileclose f o.table))
]
