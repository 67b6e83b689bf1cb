-- ===== src/Lib.antt =====
-- The kernel of xv6-public, and parts of its user library and of one program: xv6 for the x86 with a
-- multilevel feedback queue scheduler, with calls for priorities, an administrator mode and memory
-- limits, and with users who log in. These files translate parts of the C sources into functions and
-- prove theorems about them.
--
-- The parts, and how they interact
--   Common     the types and lemmas that all parts share. `Common.Panic` has the result of code
--              that may fail: `done`, `panicked` for a call of `panic`, and `faulted` for a null
--              pointer that is followed or a store past the end of an object. `Common.Words` has
--              32-bit words: an int or a uint is its bit pattern, and `slt`, `add32`, `sub32` and
--              `minus` are the operations on it.
--   CString    the strings of xv6-public/string.c, `strcmp` of xv6-public/proc.c and `strcpy` of
--              xv6-public/PRJ03_syscall.c, on memory as a list of bytes. The user table,
--              `fork2` and `getadmin` call them. `fork2` copies a name into 16 bytes without a
--              test, and a longer one makes it `faulted`.
--   Mem        `memmove` and `memcmp` of xv6-public/string.c, on memory as a function from
--              addresses to bytes.
--   Proc       `struct proc` and `ptable` of xv6-public/proc.h and proc.c. `Proc.Lock` is
--              `ptable.lock` (xv6-public/spinlock.c), `Proc.Signal` has `wakeup1`, `wakeup` and
--              `kill`, and `Proc.Admin` has `getlev`, `setpriority`, `getadmin`,
--              `setmemorylimit` and `isalive`. A pointer to a slot is the slot's index.
--              `Proc.Life` has `allocproc`, `userinit` and `growproc`, `Proc.Family` has `fork`,
--              `fork2`, `exit` and `wait`, and `Proc.Sched` has `sched`, `yield`, `yield2` and
--              `sleep`. What these call below the table (memory, files, inodes) is the interface
--              `Proc.Life.Kernel` over a state of the rest of the kernel. `Proc.Pids` has the
--              invariant that pids are unique, and `Proc.Forking` and `Proc.Copying`,
--              `Proc.Children`, `Proc.Orphans`, `Proc.Woken`, `Proc.Exiting`, `Proc.Reaping` and
--              `Proc.Growth` say what the calls do to the table.
--   Mlfq       `scheduler` of xv6-public/proc.c in the build with MLFQ_SCHED, loop by loop, on the
--              slots of Proc: `boost`, `age` (with `demote` and `promote`), `lowest`, `pick`,
--              `pass` and one iteration, `schedule`. What a process does between the two context
--              switches of its turn is the parameter `run`.
--   Log        xv6-public/log.c, with `bwrite` of xv6-public/bio.c. `cache` is what `bread`
--              returns and `disk` what the disk holds; `power` counts the disk writes that are
--              still to come before the power fails. `Log.Loops`, `Log.Head` and `Log.Recover`
--              say what its loops and recovery do, `Log.Crash` puts `commit`, a power failure and
--              `initlog` together, `Log.Space` has `log_write` on a log that is not full, and
--              `Log.Absorb` what it adds. A log of `size` blocks has a header and size - 1 entries.
--   Pipe       xv6-public/pipe.c. `Pipe.Window` is the ring buffer as a queue of bytes, and
--              `Pipe.Fifo` has the calls.
--   File       the file table and the reading and writing of xv6-public/file.c. `File.Backend` is
--              the interface of the pipe, log and inode calls that these make; `File.Refs` has
--              the reference counts, and `File.Write` the loop of `filewrite`, with the order of
--              the calls in one of its transactions as `Phase`.
--   Fs         the blocks of the disk, as the buffer cache gives them, and the block bitmap of
--              xv6-public/fs.c: `balloc` and `bfree`, with `Fs.Bits` for the bits of a byte.
--   Inode      the contents of files in xv6-public/fs.c, on the blocks of Fs: `bmap`, `itrunc`,
--              `readi` and `writei`. `Inode.Places` says where the blocks of a file are, and
--              `Inode.Blocks` and `Inode.Mapping` what `bmap` does to them. `iupdate` and the
--              devices are parameters.
--   Icache     the inode cache of xv6-public/fs.c and the inodes on the disk: `iget`, `idup`, `ilock`,
--              `iunlock`, `iput`, `iupdate` and `ialloc`, on Inode. `Icache.Unique` has the invariant
--              that no inode has two slots, `Icache.Layout` the fields of a dinode, and
--              `Icache.Dinode` what `iupdate` saves. A sleep lock is the pid that holds it, and a
--              call that has to wait for one says so by `none`.
--   Path       directories and paths in xv6-public/fs.c, on Inode: `dirlookup`, the search for an
--              empty entry and the write of a new one in `dirlink`, `skipelem`, and `namex` with its
--              permission check over the interface `Path.Names` of the inode cache. `Path.Elements`
--              says what the elements of a path are, and `Path.Walk` what `namex` does with them.
--   Kalloc     xv6-public/kalloc.c. `Kalloc.Chain` is the free list as a list of pages, and
--              `Kalloc.Init` has `freerange`. The linker's symbol `end` is the parameter `kend`.
--   Bcache     the buffer cache of xv6-public/bio.c, with its doubly linked list: `binit`, `bget`,
--              `bread`, `bwrite` and `brelse`. `Bcache.Ring` is the list as a ring of buffers,
--              `Bcache.Recent` its order of use, and `Bcache.Scan`, `Bcache.Found`,
--              `Bcache.Unique` and `Bcache.Get` are about `bget`. `iderw` of the disk driver is a
--              parameter. Log, Fs and Inode have their
--              own view of the blocks that the cache gives.
--   Vm         page tables, of xv6-public/vm.c with the macros of mmu.h and memlayout.h: `walkpgdir`,
--              `mappages` and what is built on them, on the words of memory and the free list of
--              Kalloc. `Vm.Bits` is about entries as words, `Vm.Walk` and `Vm.Entries` are about
--              what a walk and a store do to the entries, and `Vm.Mapping` is `mappages`. The
--              linker's symbol `data` and, for `loaduvm`, `readi` are parameters.
--   Users      `utable` of xv6-public/PRJ03_syscall.c as its 360 bytes of memory, with
--              `init_utable`, `usercheck`, and what `useradd` and `userdel` do with the table
--              before they turn to the file system (`Verdict`).
--   Sysargs    the arguments of system calls, of xv6-public/syscall.c: `fetchint`, `fetchstr`,
--              `argint`, `argptr` and `argstr`, on the memory of the process. `Sysargs.Bounds` says
--              where what they accept lies.
--   Syscall    the calls of xv6-public/sysfile.c, and `sys_chmod` of PRJ03_syscall.c, over the
--              interface `Syscall.Calls` of file.c, fs.c, log.c and pipe.c: those on descriptors,
--              `Syscall.Links` (`sys_link`, `sys_unlink`), `Syscall.Open` (`create` and its
--              callers) and `Syscall.Exec`. `Syscall.Ends` says what holds whenever a call
--              returns, since it may panic, and `Syscall.Counts` counts what is held: operations of
--              the log, locked inodes and references, with what the interface says about them. `Syscall.Linking`,
--              `Syscall.Unlinking`, `Syscall.Opening`, `Syscall.Opened` and `Syscall.Paths`
--              follow the counts through the calls, and `Syscall.Denied` is about the log where
--              an operation is ended twice.
--   Ulib       a part of the user library, of xv6-public/ulib.c and printf.c: `strchr`, `gets`,
--              `atoi`, `printint` and `printf`. `Ulib.Numbers` is about numbers as text.
--   Grep       the pattern matcher of xv6-public/grep.c, with the meaning of its patterns in
--              `Grep.Language`.
--   Spinlock   one lock of xv6-public/spinlock.c that several CPUs contend for. `acquire` and
--              `release` are the atomic steps of `step`, which `run` takes in any order.
-- Each part has its tests and examples in its module Tests, Proc also in LifeTests.
--
-- Bounds and fuel
--   `pass` runs on fuel, since its loop may jump back to an earlier slot; (quanta left + 1) *
--   (slots + 1) rounds are enough. `free_pages` runs on fuel that `freerange` computes from the
--   size of the range, one round for each page and one more. The loop of `filewrite` has n + 1
--   rounds for n bytes, since each writes at least one. The loops of `readi` and `writei` have one
--   round more than there are bytes, `copyout` too, those over a directory one more than its size, the outer
--   loop of `balloc` one more than there are blocks, and that of `namex` one more than the path is long,
--   since each round takes at least one off. `digit_loop`
--   has one round more than its number, which each round divides. Those of `bget` have one round
--   for each of the 30 buffers. The loops of vm.c over pages have
--   one round more than the size has pages, and that of `mappages` exactly one for each page. All
--   other loops are structural.
--   Sums and differences of words wrap around where the source's operands may be large; sizes of
--   tables (NPROC) are the length of the list of slots.
--
-- Locks
--   In all parts but Spinlock there is one CPU: `acquire` of a lock that is held panics, as the
--   check `holding` has it, and `release` of a free one does. A critical section is one step. In
--   Log and Pipe, whose locks only make their sections atomic, the locks and the wakeups are left
--   out, and a call that has to sleep ends in a value that says so.
--
-- What is not modelled
--   Of proc.c: the other two schedulers, `forkret` and the printing of the table; `exit` stops at
--   its call of `sched`, and `wait` and `sleep` at the switch to the scheduler. Of fs.c: the reading of
--   the superblock and `stati`. Of PRJ03_syscall.c: `load_shadow`, `chmod` and what is written to the
--   file /shadow and to the directory of a new user. Of vm.c: `seginit`, `kvmalloc`, `switchuvm` and
--   `switchkvm`, which load registers, and the test of constants in `setupkvm`. Of syscall.c: the
--   dispatch. Programs and their loading, drivers, traps and the other user
--   programs. Messages to the console.
pub mod Common
pub mod CString
pub mod Mem
pub mod Proc
pub mod Mlfq
pub mod Log
pub mod Pipe
pub mod File
pub mod Fs
pub mod Inode
pub mod Icache
pub mod Path
pub mod Kalloc
pub mod Bcache
pub mod Users
pub mod Ulib
pub mod Grep
pub mod Spinlock
pub mod Sysargs
pub mod Syscall
pub mod Vm
