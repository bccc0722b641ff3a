-- ===== src/Lib.antt =====
-- A model of the core of the xv6 kernel in xv6-riscv/kernel, with the threads that this repository
-- adds to it, and of its file system, and what is proved of them.
--
-- The parts, and how they meet:
-- * Spinlock is spinlock.c. `Machine` is what code on one hart sees: all locks and its own struct
--   cpu. `acquire` answers `spins` where C would wait. Spinlock/Harts puts harts side by side: a
--   `System` has all locks and the struct cpu of each hart, and a `Step` is one call by one hart.
-- * Memory is the memory layout (memlayout.h, riscv.h) and physical memory by 8-byte words, which is
--   what page-table entries, free pages and trapframes are made of. Bytes are parts of words. Memory
--   is total: an access outside RAM, to which only a wrong page table leads, does not fault.
-- * Kalloc is kalloc.c: the free list lives in the first words of the free pages, as in C, and the
--   reference counts beside it. Each function is one step, so kmem.lock is no lock of the model.
-- * Vm is vm.c up to uvmcreate: walk, walkaddr, mappages and uvmunmap on tables in memory. Uvm is
--   vm.c from uvmfirst to uvmclear: growing, freeing, copying and sharing user memory. Copy is
--   copyout, copyin and copyinstr, with Copy/Fetch about copyin and Copy/Text about copyinstr.
-- * Kernel is proc.h: the process table beside the machine, memory and the files. A struct proc is
--   named by its slot from 1 to NPROC, 0 is null, and the lock of slot p is the lock p.
-- * Sched is scheduler, sched, yield, sleep, wakeup and kill; Proc is procinit to freeproc; Life is
--   reparent and wait; Group is growproc; Fork is userinit, fork, exit and thread_exit; Thread is
--   getfamily, getstatus, thread_create and thread_join, with Thread/Family, Tables and Link about the
--   ring of a group. All are proc.c.
-- * Files is the interface through which proc.c reaches the file system: the operations that it
--   calls, over a state that the interface leaves open.
-- * Sleeplock is sleeplock.c. Cache is bio.c: Cache/Ring, Moves and Release are about the ring of
--   buffers, Cache/Taken and Unique about bget, Cache/Boot about binit. Pipe is pipe.c, and
--   Pipe/Queue the bytes of a pipe.
-- * Buffers is what the layers above rely on of the cache: one buffer for a block, named by the
--   block's number, that is held, pinned, written and forgotten. It has the disk and, in `past`, the
--   disk before each write: the disks that a crash can leave.
-- * Log is log.c over Buffers. Log/Rounds, Install, Head and Writing are about its loops, Log/Recover
--   about a boot, Log/Commit about a transaction, Log/Track and Log/Space about log_write.
-- * Blocks, Inodes, Content and Dirs are fs.c over Log: the bitmap; the inode table, inodes on disk
--   and bmap; readi and writei; directories and paths, with Dirs/Paths.
--   Inodes/Table is about iget. Strings is string.c, Strings/Compare about strncmp and strncpy.
-- * Os is the kernel as a system call sees it, with open files, pipes and the file system, and the
--   first part of syscall.c, which fetches arguments. Ftable is file.c. Sysfile is sysfile.c: the calls
--   on descriptors and sys_link; Sysfile/Names has unlink, create, mkdir, mknod and chdir, and
--   Sysfile/Opens open, pipe and pipealloc. Sysfile/Counts, Dup and Close are about dup and close.
-- * Exec is exec.c up to the program in memory, Exec/Image the stack of the new program and sys_exec,
--   with Exec/Image/Stack about the argument strings. Syscall is the table of calls, and sysproc.c.
-- * Terminal is the state of console.c, uart.c and printf.c, and the functions that send;
--   Terminal/Sending is about uartstart. Printf is printf.c, with Printf/Numbers about printint. Console
--   is consoleintr, with procdump of proc.c and uartintr; Console/Devices is consoleread and
--   consolewrite. Console/Ring, Echo, Typing and Interrupt are about consoleintr.
-- * Base and Run are shared: tests, lists and counters, and commands over a state with the ways in
--   which the kernel stops: panic, a fault, a lock that another hart holds, and rounds used up.
-- * Tests holds concrete kernels and an example of each result at one of them.
--
-- Switches: swtch ends the run of the code that calls it, so sleep, yield and scheduler are each two
-- functions, before the switch and after it; a pass of scheduler over the table begins with
-- begin_pass. wait and thread_join run until they answer
-- or go to sleep, and wait_on and join_on take them up again. exit and thread_exit end in their switch.
--
-- Numbers: addresses and sizes are native numbers with the wrap-around of uint64 where C adds them;
-- an int counter is its 32-bit pattern.
--
-- Disks: there is one device above the cache. A block is its 4-byte words, and bytes are parts of
-- them. A sleep lock that is not free answers `spins`, as a buffer does that somebody holds. The
-- struct log keeps no list of those who wait: begin_op answers `waits`, and is called again.
--
-- Fuel: a loop over virtual addresses has `va_rounds` rounds, one more than there are pages below
-- MAXVA, where walk panics; a walk round a ring of slots has one round more than there are slots;
-- freerange has one round for each page below its end; freewalk has one for each of the three
-- levels; the copying loops have one for each byte, also those of readi and writei; a scan of a
-- directory has one for each entry below its size, and two more; namex has one for each byte of the
-- path, and one more; the kill line has one for each byte of the ring, and one more; printint has one
-- for each bit; loadseg has one for each page of the segment, and two more.
--
-- Parameters: `devsw`, the drivers' functions that file.c calls, for which Syscall has the console; the
-- bytes `pad` that a struct stat leaves unset; how many bytes the UART takes at a time. A call that
-- waits in begin_op, as one that waits for a sleep lock, ends as `spins`.
--
-- Not modelled: the functions of vm.c and trap.c that write hardware registers; forkret and threadret,
-- which go on in assembly; the fences, since a call is one step; disk and boot code; fsinit and iinit;
-- trap.c. fork, exit, thread_create and thread_exit stand in the table of system calls as a parameter,
-- since the interface Files, through which they reach open files, keeps those apart from the process
-- table. That Cache does what Buffers promises is not proved.
pub mod Base
pub mod Run
pub mod Spinlock
pub mod Memory
pub mod Kalloc
pub mod Vm
pub mod Uvm
pub mod Copy
pub mod Kernel
pub mod Sched
pub mod Files
pub mod Proc
pub mod Life
pub mod Group
pub mod Fork
pub mod Thread
pub mod Sleeplock
pub mod Cache
pub mod Pipe
pub mod Buffers
pub mod Log
pub mod Strings
pub mod Blocks
pub mod Inodes
pub mod Content
pub mod Dirs
pub mod Os
pub mod Ftable
pub mod Sysfile
pub mod Exec
pub mod Terminal
pub mod Printf
pub mod Console
pub mod Syscall
pub mod Tests
