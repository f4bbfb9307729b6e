-- ===== src/Lib.antt =====
-- MiniOS, an xv6-style kernel for RISC-V with contiguous physical allocation, copy-on-write counts,
-- a priority scheduler, in-memory files with a collector, and a logged file system. The development
-- models the parts below, each in the module of its name; paths are from the root of the
-- repository.
-- Common: names shared by all modules, lists and integers over the native numbers, kernel functions
-- that may panic (Fallible), passes over C arrays (Table, Get), and the constants of
-- kernel/memlayout.h and kernel/riscv.h (Machine).
-- Kalloc: kernel/kalloc.c. The state is the record Kmem (free list, ref_count, reverse_map,
-- memory); kalloc_contig, kfree_contig, kinit and the others keep their names. Kalloc/Blocks holds
-- the free list: its walk (insert), its search (best_fit) and its split (take_fit). Physical memory
-- is 128 MB from KERNBASE, so no address overflows a machine word; a count has at most as many
-- references as there are page-table entries, and is kept without a bound.
-- Vm: kernel/vm.c and the page-table macros of kernel/riscv.h, in the memory of Kalloc. walk is a
-- recursion on the level (walk_from), and the loops over pages run on their number of pages; those
-- of copyout, copyin and copyinstr run on the number of bytes, each turn of which copies at least
-- one. vmfault gets the size of the process as an argument. Vm/Fault is vmfault, Vm/Fork is
-- uvmcopy, Vm/Copy is the copying between kernel and user.
-- Proc, ProcTable, Sched: kernel/proc.c with kernel/proc.h and kernel/sched.h. A process is an
-- index of the table. Each function runs under its locks and is one step; scheduler is cut at swtch
-- into dispatch and account, and a sleeping function at its call of sched. Table lengths are not
-- fixed to NPROC. nextpid is kept as its 32-bit word.
-- Files: kernel/file.c, kernel/gc.c and the in-memory file calls of kernel/sysfile.c, over the
-- allocator of Kalloc. The closing of a pipe or an inode that fileclose ends with is a value
-- (Closing). Files/Content is fileread and filewrite of an in-memory file (fileread_mem,
-- filewrite_mem); Files/Calls is the system calls on descriptors and pipealloc of kernel/pipe.c.
-- Pipe: kernel/pipe.c. The two counters are 32-bit words that wrap around. A call that sleeps ends
-- with its offset, and is called again there; copyin, copyout and killed are arguments of the
-- calls.
-- Console: kernel/console.c. consoleintr handles one key and returns what it sends to the terminal;
-- the loop of its kill-line key runs on INPUT_BUF_SIZE turns, which are enough since the line being
-- edited fits in the ring. consoleread sleeps as the calls of Pipe do.
-- Strings: kernel/string.c over a memory of bytes. strlen runs on a number of bytes to read, and
-- answers none where there is no terminator among them.
-- Locks: kernel/spinlock.c and kernel/sleeplock.c. A lock that is taken makes acquire spin and
-- acquiresleep sleep: the answer is none, and the call is tried again; the spinning itself, with
-- interrupts off, is not a state of the model.
-- Bcache: kernel/bio.c. The linked list of buffers is a list, the most recently used first; bget
-- ends before its acquiresleep, and bread goes on with bread_locked once the buffer is locked.
-- Log: kernel/log.c, over the view of the buffer cache of kernel/bio.c that Log/Store describes (a
-- read returns the cached copy or the disk block, a write goes through). A counter of disk writes
-- that still succeed stands for a crash at any point; recovery is run by boot. Log/Space follows
-- any interleaving of file-system calls as steps.
-- Fs: the block allocator of kernel/fs.c (balloc, bfree), over the bytes of the blocks that the
-- buffer cache shows, its bmap (Fs/Bmap, where addrs is an argument and a result), its table of
-- inodes (Fs/Itable), the inodes on disk (Fs/Dinode: iupdate, and ilock once it has the lock),
-- readi and writei (Fs/Transfer, where either_copyout and either_copyin are arguments that tell how
-- many bytes they move), itrunc (Fs/Trunc), the directories and iput (Fs/Dirs: find_name is
-- dirlookup up to its iget, add_entry is dirlink from its second loop on), ialloc
-- (Fs/Dinode/Ialloc), and its path names: Fs/Names is skipelem and the names that the loop of namex
-- meets.
-- A file is seen as 269 slots (Fs/Slots): its direct blocks, its indirect block and the entries of
-- that one. The loops of readi and writei have as many turns as there are bytes to move, and each
-- turn moves at least one.
-- Grep: the matcher of user/grep.c (match is match_line here).
-- Print: printint of user/printf.c, whose answer is the bytes it prints, and atoi of user/ulib.c.
-- The 20 turns of its loop are the size of buf, and enough for every number of 64 bits in base 10.
-- All other loops are structural recursions on a list or on the number of turns that the C code
-- makes. Not modelled: the kernel page table and the freeing of page tables, the walk along a path
-- and the calls of kernel/sysfile.c on paths, ireclaim, exec, devices, traps and start-up, the
-- shell and its allocator, the rest of the user library, and the other user programs. What
-- compact_memory of kernel/kalloc.c does once it has found a page to move, which it never does, and
-- the branches of fileread and filewrite in kernel/file.c for pipes, devices and inodes, are not
-- modelled either.
pub mod Common
pub mod Kalloc
pub mod Vm
pub mod Proc
pub mod Sched
pub mod ProcTable
pub mod Files
pub mod Pipe
pub mod Console
pub mod Strings
pub mod Locks
pub mod Bcache
pub mod Log
pub mod Fs
pub mod Grep
pub mod Print
