-- ===== src/Lib.antt =====
-- A model of the kernel in xv6A1/ of this repository, an xv6 with messages and signals, and
-- proofs about it.
--
-- Disk        xv6A1/bio.c: `bread` and `bwrite` as the log uses them. The machine stops after
--             `budget` more writes, so that a theorem over all budgets speaks of every crash.
-- Log         xv6A1/log.c: each function of the file takes the `struct log` and the device, and
--             returns them. Log/Crash is about a stop at any write of `commit` or of a recovery,
--             Log/Space about calls that reserve room by `begin_op`, Log/Listing about
--             `log_write`, Log/Format about the header block.
-- Proc        xv6A1/proc.h and xv6A1/proc.c. A process is the index of its slot. Proc/Sched has
--             `sleep`, `wakeup1`, `kill`, `yield`, `sched` and the scan of `scheduler`;
--             Proc/Life `allocproc`, `growproc`, `fork`, `exit` and `wait`; Proc/Signal the
--             signal functions and the loop of `sys_send_multi` of xv6A1/sysproc.c. Proc/Wake,
--             Proc/Exit, Proc/Multi, Proc/Reap, Proc/Trap and Proc/Pids hold the theorems.
-- Pipe        xv6A1/pipe.c: turns of `pipewrite` and `piperead`, each up to its end or its
--             sleep. Pipe/Stream is about one turn, Pipe/Traffic about any sequence of turns.
-- Ipc         xv6A1/sysproc.c: `sys_send` and `sys_recv`. Ipc/Delivery says what they do with a
--             message, Ipc/Lost how they fail.
-- Mail        a2/sysproc.c: `enque`, `deque`, `sys_send` and `sys_recv` of the second kernel.
--             Mail/Ring is about one ring of buffer indices, Mail/Sound about all of them,
--             Mail/Order about the order of messages.
-- Buffer      xv6A1/bio.c: the list of buffers in `binit`, `bget` and `brelse`. Buffer/Refs is
--             about `bget`, Buffer/Release about `brelse`.
-- Fs          xv6A1/fs.c: `readsb`, `balloc` and `bfree` over the blocks as bytes. Fs/Bits is
--             about the bits of a byte, Fs/Bitmap about the blocks that `balloc` takes,
--             Fs/Release about `bfree`.
-- Inode       xv6A1/fs.c: `bmap`, `readi`, `writei` and `iupdate`. Inode/Content is about reads,
--             Inode/Overwrite about writes inside a file, Inode/Splice about bytes written into
--             a block.
-- Icache      xv6A1/fs.c: `iget`, `idup`, `ilock`, `itrunc` and `iput`. Icache/Slots is about
--             the slots that `iget` takes, Icache/Load about what `ilock` reads after `iupdate`,
--             Icache/Trunc about what `itrunc` frees.
-- Directory   xv6A1/fs.c: `dirlookup` and `dirlink`. Directory/Lookup is about the first,
--             Directory/Link about the second.
-- PathName    xv6A1/fs.c: `skipelem`. PathName/Components has a path's list of components.
-- Text        xv6A1/string.c: `strncmp`, `strncpy` and `strlen`.
-- Descriptor  xv6A1/sysfile.c: `argfd`, `fdalloc`, `sys_dup` and `sys_close`, over File.
--             Descriptor/Refs is about one call, Descriptor/Count about any sequence.
-- Args        xv6A1/syscall.c: `fetchint`, `fetchstr`, `argint`, `argptr` and `argstr`.
-- Numeral     xv6A1/printf.c: `printint`, and xv6A1/ulib.c: `atoi`.
-- Grep        xv6A1/grep.c: `match`, `matchhere` and `matchstar`.
-- Kalloc      xv6A1/kalloc.c: the free list, threaded through the memory that it hands out.
-- File        xv6A1/file.c: `filealloc`, `filedup` and `fileclose`. File/Slots is about one
--             call, File/Count about any sequence of calls.
-- Sleeplock   xv6A1/sleeplock.c over Proc. Sleeplock/Turns is about any sequence of turns.
-- Spinlock    xv6A1/spinlock.c: `acquire` and `release` with the nesting of `pushcli`.
-- Bytes       xv6A1/string.c: `memcmp`, `memmove` and `safestrcpy`.
-- Vm          xv6A1/vm.c: `walkpgdir`, `mappages`, `deallocuvm`, `freevm`, `clearpteu` and
--             `uva2ka`, over Kalloc. Vm/Space is about a write to a table, Vm/Grow, Vm/Walk,
--             Vm/Round, Vm/Mapped and Vm/Map about `mappages`, Vm/Frames, Vm/Unmap, Vm/Step and
--             Vm/Dealloc about `deallocuvm`, Vm/Free about `freevm`, Vm/Access about `clearpteu`
--             and `uva2ka`.
-- Shell       xv6A1/sh.c: the parser. Shell/Tokens is about `gettoken` and `peek`, Shell/Loops
--             and Shell/Total about every line, Shell/Printer, Shell/Steps, Shell/Blocks and
--             Shell/RoundTrip about printed commands.
-- Barrier     a2/sysproc.c: `sys_barrier_init` and `sys_barrier`.
-- Prelude     lists, Boolean tests and 32-bit words over the native numbers. Prelude/Layout has
--             the bytes of words.
-- Tests       the theorems at concrete inputs.
--
-- The parts meet as in the code: `pipewrite`, `sys_recv` and `wait` sleep on a channel that
-- `wakeup` of Proc wakes; Directory reads by Inode, Inode takes blocks by Fs, and Icache writes
-- inodes by Inode and frees blocks by Fs. Vm allocates and frees pages by Kalloc, and Sleeplock
-- sleeps and wakes by Proc. `bfree` reads the superblock from block 1 again, and the other
-- functions of fs.c take it as an argument. What Fs gives to `log_write` is kept in a list,
-- apart from Log, whose blocks are single values. Numbers of type `uint` are numbers below 2 ^
-- 32 that wrap in each addition (`add32`, `sub32`), and an `int` is its bit pattern. A panic is
-- `none` or a constructor of the result. A critical section under a lock runs as one step.
-- `end_op` is two of them with `commit`, which runs without the lock, as a step between them.
-- Loops over arrays recur on the array or on the rounds left. These have fuel: `freerange`, one
-- round for each page that fits below its end and one for the last test; `balloc`, one for each
-- block of the bitmap; `readi` and `writei`, one for each byte and one for the last test;
-- `dirlookup` and `dirlink`, one for each entry and one for the last test; the parser of the
-- shell, three for each byte of the line and three more; `mappages`, one for each page;
-- `deallocuvm`, one for each page below the old size and two more; `printint`, one more than the
-- number, which each round makes smaller.
--
-- Not modelled: devices, boot code, the copying and growing of address spaces, what the shell
-- runs, most user programs, the making of inodes, the walk along a path, and the calls on paths.
-- Nothing is proved of a write that makes a file longer. What `kalloc`, `copyuvm`, `allocuvm`
-- and `deallocuvm` return is an argument of the functions of Proc and Pipe that call them, the
-- devices that `devsw` lists are a parameter, and calls of memory management are recorded in a
-- list.
mod Prelude
mod Tests
pub mod Args
pub mod Barrier
pub mod Buffer
pub mod Bytes
pub mod Descriptor
pub mod Directory
pub mod Disk
pub mod File
pub mod Fs
pub mod Grep
pub mod Icache
pub mod Inode
pub mod Ipc
pub mod Kalloc
pub mod Log
pub mod Mail
pub mod Numeral
pub mod PathName
pub mod Pipe
pub mod Proc
pub mod Shell
pub mod Sleeplock
pub mod Spinlock
pub mod Text
pub mod Vm
