-- ===== src/Lib.antt =====
-- The kernel of OSHard, an xv6 for RISC-V whose memory is managed by a buddy allocator, as models
-- that run and theorems about them.
--
-- The program. Machine-level parts (kernel/start.c, trap.c, plic.c) bring cpus into C code. Every
-- shared structure of the kernel is under a spin lock (kernel/spinlock.c), and a cpu that holds one
-- has its interrupts off, to the depth that it counts. Memory for pages, pipes and open files comes
-- from `bd_malloc` of kernel/buddy.c (kernel/kalloc.c asks it for pages); the allocator keeps, for
-- each power of two from 16 bytes up, a circular free list (kernel/list.c) and two bit arrays. The
-- routines of kernel/string.c move and compare memory for all of them. Above these stand virtual
-- memory, processes, the buffer cache, the log, files and the system calls.
--
-- The models, by file:
-- - `Common`: the shared names; Boolean tests and lists over the native numbers, and `Result`: a
--   value, a `panic` with its message, or a loop that does not end.
-- - `LinkedList` (kernel/list.c, list.h): the `next` and `prev` fields of every node address, and
--   one function per C function. `LinkedList/Ring`: the circular lists in such a memory.
-- - `Spinlock` (kernel/spinlock.c, spinlock.h, `struct cpu` of proc.h): `push_off`, `pop_off`,
--   `acquire`, `release`, `holding` as one cpu runs them. `Spinlock/Nesting`: nested sections.
--   `Spinlock/Held`: several cpus that take locks and give them back.
-- - `Strings` (kernel/string.c): a memory gives the byte at every address. `Strings/Copy`: the
--   routines on regions. `Strings/Text`: those on 0-terminated strings.
-- - `Pipe` (kernel/pipe.c): the ring of bytes between a writer and a reader, with the rounds of
--   their loops. `Pipe/Queue`: the ring as a queue.
-- - `SleepLock` (kernel/sleeplock.c): the locks that are waited for asleep.
-- - `Bio` (kernel/bio.c, buf.h): the buffer cache, its buffers on a ring. `Bio/Search`: the
--   searches of `bget`. `Bio/Correct`: `bget` and `brelse`. `Bio/Init`: `binit`.
-- - `Log` (kernel/log.c): the log in memory, with `begin_op`, `log_write` and `end_op`.
--   `Log/Reserve`: the steps of the operations that run, each with the number of blocks that it
--   may still log. `Log/Disk`: `commit` and the recovery on a disk, with the power failing after
--   a number of writes. `Log/Disk/Writes` and `Log/Disk/Crash`: what a crash leaves.
-- - `Fs` (kernel/fs.c, fs.h, file.h): the blocks, with `balloc` and `bfree`. `Fs/Bytes`: numbers
--   in the bytes of a block. `Fs/Inode`: an inode on the disk, `bmap`, `itrunc`;
--   `Fs/Inode/Transfer`: `readi` and `writei`. `Fs/Table`: the inodes in memory. `Fs/Path`:
--   directories and path elements; `Fs/Name`: `namex`, `fsinit`. For the proofs, `Fs/Bitmap`,
--   `Fs/Scan`, `Fs/Alloc`: the free bit map; `Fs/Inode/Stored`: inodes stored and loaded;
--   `Fs/Table/Unique`: `iget`; `Fs/Path/Split`: the elements of a path.
-- - `File` (kernel/file.c, file.h): open files, over an interface of the operations that they call.
--   `File/Write`: `filewrite` in its transactions.
-- - `Console` (kernel/console.c): the editing of a line and the reader. `Console/View`: what a
--   terminal promises. `Console/Edit`: the ring as two queues. `Console/Typing`,
--   `Console/Reading`: the handler and the reader against the promise. `Console/Kill`,
--   `Console/Typed`: a line killed, a line typed. `Console/Line`: lines typed and read.
-- - `Uart` (kernel/uart.c): the transmit buffer and the interrupt handler, which hands what is
--   received to the console. `Uart/Fifo`: the buffer as a queue. `Uart/Intr`: the handler.
-- - `Vm` (kernel/vm.c, the entries of constants.h): page tables, `walk`, `mappages`, `uvmunmap`.
--   `Vm/User`: the memory of a process. `Vm/Copy`: `copyin`, `copyout`, `copyinstr`. `Vm/Kernel`:
--   the kernel's table, and `proc_pagetable` of proc.c. For the proofs `Vm/Path` says what a
--   table maps and when it is well-formed, `Vm/Bits` what `|` makes of an entry, `Vm/Grow` and
--   `Vm/Leaf` take a new table and a written entry; `Vm/Walk`, `Vm/Map`, `Vm/Unmap`, `Vm/Chunk`,
--   `Vm/Read` are about the functions.
-- - `Proc` (kernel/proc.c, proc.h): the process table. `Proc/Table`: its entries, `allocproc` and
--   `freeproc`. `Proc/Sleep`: `sleep`, `wakeup`, `kill`, `sched`, `scheduler`. `Proc/Life`:
--   `fork`, `exit`, `wait`. `Proc/Tree`, `Proc/Exit`, `Proc/Born`, `Proc/Fork`, `Proc/Wait`,
--   `Proc/Steps`: the tree of processes and the calls as steps. `Proc/Killed`: `kill` of pid 0.
-- - `Grep` (user/grep.c): the matcher and the reading of lines. `Grep/Pattern`: what a pattern
--   means. `Grep/Correct`: the matcher against it.
-- - `Buddy` (kernel/buddy.c, kalloc.c): `Buddy/Bits` is the bit arrays, `Buddy/Blocks` the
--   arithmetic of sizes and addresses, `Buddy/Heap` the state (`bd_sizes`, `bd_base`, `nsizes`,
--   the memory of the free lists, the lock), `Buddy/Malloc` the functions `bd_malloc` and
--   `kalloc`, and `Buddy/Free` the functions `size`, `bd_free` and `kfree`. For the proofs
--   `Buddy/View` sees the state as one free list of block numbers and two bit functions for each
--   level, `Buddy/Lists` relates those lists to memory, `Buddy/Whole` says which blocks cover
--   which leaves, `Buddy/Paired` relates the alloc bits to the free lists, and `Buddy/Invariant`
--   joins these; `Buddy/Invariant/Steps`, `Buddy/Malloc/Serve`, `Buddy/Free/Leaves` and
--   `Buddy/Free/Merge` take the steps of a call, `Buddy/Malloc/Call` and `Buddy/Free/Call` the
--   calls. `Buddy/Init` is the start of the allocator, with `bd_mark` in `Buddy/Init/Mark` on one
--   level, in `Buddy/Init/Levels` on all, and the start's two calls in `Buddy/Init/InUse`.
--
-- The allocator does not record which blocks its clients hold. In the proofs a block of the managed
-- memory is held when no free block overlaps it and the split bits take it for one block; the
-- memory that is handed out starts at leaf `lo`, above the allocator's own data.
--
-- Numbers. A `uint64` or a pointer wraps at 2 ^ 64, a `uint` at 2 ^ 32, and an `int` is its
-- 32-bit pattern, whose upper half is below 0. Blocks are numbered with an `int`, so the managed
-- memory has fewer than 2 ^ 31 leaves. A `char` is unsigned, as on RISC-V.
--
-- Fuel. `firstk` has 64 rounds: `size` starts at 16 and doubles, so after 60 it is 0 and no later
-- round can end. `log2` has 65, one more than the bits of its argument. `strlen` takes its fuel
-- as an argument, and any number above the length of the string is enough. The other loops count.
--
-- Not modelled: traps, the system calls, the disk and the interrupt controller, and the user
-- programs but grep. Of a process the model has the table entry: page tables, the context switch,
-- and the contents of files and inodes are arguments or no part of the state. In `Fs` a block is
-- what the buffer cache and the log give for it. The locks of pipes, of the console, of the
-- serial port, of the log, of the process table and of the buffer cache are not in their state:
-- each function runs from where it takes its lock to where it gives it up. `bd_print`,
-- `lst_print` and `procdump` only print. Another cpu shows only as the holder of a lock, except in
-- `Spinlock/Held`. In kernel/string.c a pointer that runs over a region does not wrap.
pub mod Common
pub mod LinkedList
pub mod Spinlock
pub mod SleepLock
pub mod Strings
pub mod Pipe
pub mod Bio
pub mod Log
pub mod Fs
pub mod File
pub mod Console
pub mod Uart
pub mod Vm
pub mod Proc
pub mod Grep
pub mod Buddy
