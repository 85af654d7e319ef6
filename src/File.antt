-- ===== src/File.antt =====
-- xv6A1/file.c: the table of open files. A `struct file *` is the index of its slot. The lock is
-- left out: each function runs its critical section whole.
pub mod Count
pub mod Slots
use operating_system_design.Prelude.{
  ℕ, ◌+◌, Bool, true, false, not, Option, none, some, List, [], ◌∷◌, ◌==◌, get_or, set,
  if◌then◌else◌, add32, sub32, is_nonpos,
}

pub data FileType : Type 0 where
  fd_none fd_pipe fd_inode : FileType

-- `struct file`: a pipe and an inode are numbers, 0 for null.
pub record File : Type 0 where
  pub type : FileType
  pub ref : ℕ
  pub readable : ℕ
  pub writable : ℕ
  pub pipe : ℕ
  pub ip : ℕ
  pub off : ℕ

abbrev pub zero_file : File
zero_file = record {
  type = fd_none;
  ref = 0;
  readable = 0;
  writable = 0;
  pipe = 0;
  ip = 0;
  off = 0;
}

abbrev pub file_at : List File → ℕ → File
file_at t i = get_or t i zero_file

-- The loop of `filealloc`, from slot `i` on.
unfoldable pub find_free : ℕ → List File → Option ℕ
find_free i [] = none
find_free i (f ∷ fs) = if f.ref == 0 then some i else find_free (i + 1) fs

unfoldable pub take_free : List File → Option ℕ → Option ℕ × List File
take_free t none = (none, t)
take_free t (some i) = (some i, set t i (record (file_at t i) { ref = 1 }))

-- `filealloc`: `none` is the null pointer.
unfoldable pub filealloc : List File → Option ℕ × List File
filealloc t = take_free t (find_free 0 t)

-- `filedup`: `none` is the panic.
unfoldable pub filedup : ℕ → List File → Option (List File)
filedup i t =
    let f = file_at t i in
    if is_nonpos f.ref then none else some (set t i (record f { ref = add32 f.ref 1 }))

-- What `fileclose` calls.
pub data FileCall : Type 0 where
  pipeclose : ℕ → ℕ → FileCall
  begin_op : FileCall
  iput : ℕ → FileCall
  end_op : FileCall

unfoldable pub close_calls : File → List FileCall
close_calls f = elim f.type [
  | fd_none ↦ []
  | fd_pipe ↦ pipeclose f.pipe f.writable ∷ []
  | fd_inode ↦ begin_op ∷ (iput f.ip ∷ (end_op ∷ []))
]

-- `fileclose`: `none` is the panic.
unfoldable pub fileclose : ℕ → List File → Option (List File × List FileCall)
fileclose i t =
    let f = file_at t i in
    let n = sub32 f.ref 1 in
    if is_nonpos f.ref
    then none
    else if not (is_nonpos n)
    then some (set t i (record f { ref = n }), [])
    else some (set t i (record f { ref = 0; type = fd_none }), close_calls f)
