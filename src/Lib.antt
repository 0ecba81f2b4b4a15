-- ===== src/Lib.antt =====
-- A verification of the kernel in kernel/ (xv6 for RISC-V with signals), of the string functions of
-- user/ulib.c, and of the pattern matcher of user/grep.c.
--
-- The parts and how they meet. A file is blocks that the file system allocates, maps and reads; the
-- system calls on it run between begin_op and end_op of the log, write blocks through the buffer
-- cache, and the last end_op commits. Descriptors of processes, which fork shares, count references
-- to open files, and these hold inodes and pipes. Pipes, wait and the console sleep on channels, which
-- wakeup of the process table ends. The scheduler raises alarms and runs handle_signals on the
-- signals that send_signal queued. User memory is reached through page tables. All of them hold
-- spinlocks, take pages from the page allocator, and copy with the string functions.
--
-- The files, one module for each part, with its state and operations under the source's names:
--   Base      the shared vocabulary: tests, lists, arrays, words, and outcomes (returns, panics,
--             spins on a lock, reads outside an array)
--   Window    the items of a circular buffer
--   Log       kernel/log.c: struct log as a record; write_log, write_head, install_trans, commit,
--             begin_op, log_write, end_op, recover_from_log, initlog. The buffer cache and the disk
--             are what the log sees of them: cached blocks, pins, and a list of disk writes.
--   Pipe      kernel/pipe.c: struct pipe; pipewrite, piperead and pipeclose
--   Proc      kernel/proc.c: struct proc; allocproc, freeproc, exit, wait, kill, wakeup, sleep,
--             yield, sched, reparent, fork. The table is a list.
--   Signals   kernel/signal.h and the signal functions of kernel/proc.c: send_signal, alarm, the
--             scheduler's test of alarms, and handle_signals
--   Buffers   kernel/bio.c: the buffers in order of use; binit, bget, bread, bwrite
--   Pages     kernel/kalloc.c: the free list through the pages; kinit, freerange, kfree, kalloc
--   Locks     kernel/spinlock.c and kernel/sleeplock.c
--   FileSystem  kernel/fs.c and kernel/fs.h: Blocks (balloc, bfree), Inodes (the inodes on disk), Content
--             (bmap, itrunc, readi, writei), Table (iget, ilock, iput and so on), Directory (dirlookup,
--             dirlink), Paths (skipelem, namex). The disk is what bread finds, with the list of blocks
--             given to log_write.
--   Files     kernel/file.c: the table of files (filealloc, filedup, fileclose, fileread, filewrite)
--   SysFile   kernel/sysfile.c: Descriptors (argfd, fdalloc, sys_dup, sys_close and so on), Names
--             (sys_link, sys_unlink, create), Opening (sys_open, sys_mkdir, sys_mknod, sys_chdir)
--   Paging    kernel/vm.c: Walk (walk, walkaddr, mappages, uvmunmap), User (the address spaces), Copy
--             (copyout, copyin, copyinstr), Spaces (proc_pagetable, growproc, either_copyin and so on of
--             kernel/proc.c). Page tables are pages of words, apart from the memory.
--   Console   kernel/console.c: the input buffer; consoleintr, consoleread, consolewrite
--   Uart      kernel/uart.c: the transmit buffer; uartputc and uartstart
--   Strings   kernel/string.c and user/ulib.c over a memory of bytes
--   Grep      user/grep.c: match, matchhere and matchstar
-- The child modules hold the theorems and are named for what they prove; the modules Tests hold
-- concrete runs.
--
-- Conventions. Numbers are natural numbers; the wrap-around of a machine word is written out
-- (u32, u64, sub32, sub64), and an int result is its bit pattern. A function of the source that
-- changes memory takes the state and returns it. Code that runs under one lock is one step; where
-- it sleeps, the step ends and another begins on wakeup. A power failure is a prefix of the
-- list of disk writes. The disk, device registers and what a user handler does are
-- parameters; so is user memory where a part does not look at page tables: copyin and copyout of
-- the pipe and the console, and either_copyin and either_copyout of readi and writei, which may fail
-- at any address, with the law that they change no memory but their range. Paging models them.
--
-- Bounds. Loops over a count or an array are structural recursions on what is left of it. The loop
-- of handle_signals runs on fuel of the caller, of which one round more than there are queued
-- signals is enough where every one is harmless. strlen, strchr, strcmp, strcpy and atoi run on
-- fuel of the caller, a round for each byte up to the NUL. uartstart runs as many rounds as
-- characters wait, and the line kill of the console as many as the line has. The loops of readi,
-- writei, filewrite, copyin, copyout and copyinstr have fuel of one more than the bytes to move,
-- since a round moves a byte or stops; the scans of a directory of one more than its size, and namex
-- of one more than the bytes of the path. freewalk goes down three levels of tables.
--
-- Not modelled: brelse of kernel/bio.c, whose work is on the links of the list; readsb and fsinit of
-- kernel/fs.c; kvmmake and kvminithart of kernel/vm.c, which lay out the machine and switch to it;
-- other processes between the steps of one call of the file system; sys_exec and sys_pipe of
-- kernel/sysfile.c; kernel/exec.c, the traps and the dispatch of system calls, the scheduler's loop,
-- user/sh.c and user/umalloc.c, which are components of their own; kernel/virtio_disk.c,
-- kernel/plic.c, kernel/start.c, kernel/main.c and the assembly, which act on hardware; printf, mkfs,
-- and the other user programs, which are I/O.
pub mod Base
pub mod Window
pub mod Pipe
pub mod Proc
pub mod Signals
pub mod Strings
pub mod SysFile
pub mod Locks
pub mod Pages
pub mod Grep
pub mod Uart
pub mod Console
pub mod Buffers
pub mod FileSystem
pub mod Files
pub mod Paging
pub mod Log
