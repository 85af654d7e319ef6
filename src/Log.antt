-- ===== src/Log.antt =====
-- xv6A1/log.c: the redo log. The functions take the `struct log` and the device, and return them.
pub mod Crash
pub mod Format
pub mod Listing
pub mod Space
use operating_system_design.Prelude.{
  ℕ, zero, suc, ◌+◌, ◌*◌, Bool, List, get_or, set, ltb, leb, ◌==◌, if◌then◌else◌, ◌-◌, ◌||◌, true,
  false, Option, none, some, sub32, add32,
}
use operating_system_design.Disk.{Block, Dev, bread, bwrite}

abbrev pub max_op_blocks : ℕ
max_op_blocks = 10

abbrev pub log_size : ℕ
log_size = max_op_blocks * 3

-- `struct log` with its `struct logheader`: `n` and the array `block`. The spin lock and `dev` are
-- left out: every function below runs with the lock or by the only committer, on one device.
pub record Log : Type 0 where
  pub start : ℕ
  pub size : ℕ
  pub outstanding : ℕ
  pub committing : Bool
  pub n : ℕ
  pub block : List ℕ

-- The loop of `install_trans`, with the rounds left and `tail`.
unfoldable pub install_loop : ℕ → ℕ → Log → Dev → Dev
install_loop zero tail lg d = d
install_loop (suc k) tail lg d =
    install_loop k (tail + 1) lg (bwrite (get_or lg.block tail 0) (bread (lg.start + tail + 1) d) d)

unfoldable pub install_trans : Log → Dev → Dev
install_trans lg d = install_loop lg.n 0 lg d

-- The loop of `read_head`: `log.lh.block[i] = lh->block[i]`. Word 0 of the block is `n`.
unfoldable pub read_loop : ℕ → ℕ → Block → List ℕ → List ℕ
read_loop zero i lh block = block
read_loop (suc k) i lh block = read_loop k (i + 1) lh (set block i (get_or lh (i + 1) 0))

unfoldable pub read_head : Log → Dev → Log
read_head lg d =
    let lh = bread lg.start d in
    let n = get_or lh 0 0 in record lg { n = n; block = read_loop n 0 lh lg.block }

-- The loop of `write_head`: `hb->block[i] = log.lh.block[i]`.
unfoldable pub fill_loop : ℕ → ℕ → List ℕ → Block → Block
fill_loop zero i block hb = hb
fill_loop (suc k) i block hb = fill_loop k (i + 1) block (set hb (i + 1) (get_or block i 0))

unfoldable pub write_head : Log → Dev → Dev
write_head lg d = bwrite lg.start (fill_loop lg.n 0 lg.block (set (bread lg.start d) 0 lg.n)) d

unfoldable pub recover_from_log : Log → Dev → Log × Dev
recover_from_log lg d =
    let lg1 = read_head lg d in
    let d1 = install_trans lg1 d in let lg2 = record lg1 { n = 0 } in (lg2, write_head lg2 d1)

-- The loop of `write_log`, with the rounds left and `tail`.
unfoldable pub copy_loop : ℕ → ℕ → Log → Dev → Dev
copy_loop zero tail lg d = d
copy_loop (suc k) tail lg d =
    copy_loop k (tail + 1) lg (bwrite (lg.start + tail + 1) (bread (get_or lg.block tail 0) d) d)

unfoldable pub write_log : Log → Dev → Dev
write_log lg d = copy_loop lg.n 0 lg d

-- The body of `commit` under `log.lh.n > 0`.
unfoldable pub commit_pending : Log → Dev → Log × Dev
commit_pending lg d =
    let d1 = write_log lg d in
    let d2 = write_head lg d1 in
    let d3 = install_trans lg d2 in let lg2 = record lg { n = 0 } in (lg2, write_head lg2 d3)

unfoldable pub commit : Log → Dev → Log × Dev
commit lg d = if ltb 0 lg.n then commit_pending lg d else (lg, d)

-- `initlog`, for the fields of the superblock that it reads.
unfoldable pub initlog : ℕ → ℕ → Log → Dev → Log × Dev
initlog logstart nlog lg d = recover_from_log (record lg { start = logstart; size = nlog }) d

-- One round of `begin_op` under the lock: `none` where it sleeps on the log.
unfoldable pub begin_op : Log → Option Log
begin_op lg =
    if lg.committing
    then none
    else if ltb log_size (lg.n + (lg.outstanding + 1) * max_op_blocks)
    then none
    else some (record lg { outstanding = lg.outstanding + 1 })

-- `end_op` up to its first `release`, without the wakeup: `none` is the panic, and the flag is
-- `do_commit`. Then a call with `do_commit` runs `commit` without the lock, and `end_op_leave`.
unfoldable pub end_op_enter : Log → Option (Bool × Log)
end_op_enter lg =
    let lg1 = record lg { outstanding = sub32 lg.outstanding 1 } in
    if lg1.committing
    then none
    else if lg1.outstanding == 0
    then some (true, record lg1 { committing = true })
    else some (false, lg1)

-- The last critical section of `end_op`, without the wakeup.
unfoldable pub end_op_leave : Log → Log
end_op_leave lg = record lg { committing = false }

-- The loop of `log_write`: the first index from `i` on with `blockno`, or `n`.
unfoldable pub absorb_loop : ℕ → ℕ → List ℕ → ℕ → ℕ
absorb_loop zero i block blockno = i
absorb_loop (suc k) i block blockno =
    let rest = absorb_loop k (i + 1) block blockno in
    if get_or block i 0 == blockno then i else rest

-- `log_write` on the header; that the buffer turns dirty keeps it in `cache`. `none` is a panic.
unfoldable pub log_write : Log → ℕ → Option Log
log_write lg blockno =
    if leb log_size lg.n || leb (lg.size - 1) lg.n
    then none
    else if ltb lg.outstanding 1
    then none
    else (let i = absorb_loop lg.n 0 lg.block blockno in
        some
          (record lg { n = if i == lg.n then lg.n + 1 else lg.n; block = set lg.block i blockno }))
