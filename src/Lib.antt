-- ===== src/Lib.antt =====
-- Verification of the xv6 kernel for RISC-V of this repository, and of some of its user programs.
--
-- Each part of the program has a module with its state and its operations, translated function by
-- function, and child modules with the proofs, named for what they prove. `Base` holds what they
-- share. The tests and the instances of the theorems stand in the modules named `Tests`.
--
-- - Kalloc: kernel/kalloc.c. `Kmem` is `kmem` with the words of memory in which the free list is
--   linked; `kfree`, `freerange`, `kinit` and `kalloc` are the functions of these names.
-- - Log: kernel/log.c. `Log` is `struct log`; the disk and the buffers below it are a `Store`
--   (Log/Blocks), the interface of kernel/bio.c that the log relies on, with a disk that loses
--   power after a given number of writes. A block is written whole or not at all. The functions
--   have the names of the source; `leave_op` is the part of `end_op` under the lock, `begin_op`
--   one round of its loop.
-- - Pipe: kernel/pipe.c. `Pipe` is `struct pipe` with the number of threads asleep on each of its
--   channels; `write_section` and `read_section` are `pipewrite` and `piperead` from one taking of
--   the lock to the next release or sleep, `pipeclose` is the function of this name.
-- - Proc: kernel/proc.c. `Proc` is `struct proc`, `System` is the table with `nextpid` and the
--   index of init; the functions have the names of the source. `sleep_enter` and `sleep_leave`
--   are `sleep` before and behind `sched`, `schedule` is what the loop of `scheduler` does with an
--   entry, `wait_round` a round of the loop of `wait`, and `fork_alloc`, `fork_parent` and
--   `fork_ready` are the parts of `fork` between which no lock is held. Proc/Life has all of them
--   as steps.
-- - Console: kernel/console.c. `Cons` is `cons` with its sleeping readers; `consoleintr` gives the
--   state and the echo (`kill_line` and `store` are two of its cases), `read_section` is
--   `consoleread` from one taking of the lock to the next release or sleep. Console/Line says
--   what a line is for those who type and read.
-- - Interrupts: `push_off` and `pop_off` of kernel/spinlock.c on one CPU.
-- - Fs: kernel/fs.c above the log. `Fs` has the blocks as the buffers show them, the superblock and
--   the table of inodes. Fs/Bitmap is the map of the blocks, Fs/Inodes the table and the inodes on
--   the disk, Fs/Content what an inode holds, Fs/Dirs the directories and Fs/Paths the path names;
--   the functions have the names of the source. One system call runs at a time, and a wait for a
--   sleep lock that is held counts as a panic.
-- - Bcache: kernel/bio.c. `Bcache` is `bcache` with the links of its buffers, and the disk; the
--   functions have the names of the source. `lock_buf` is what follows `bget` once the lock of the
--   buffer is free, and `put_ref` what `brelse` does under the lock of the cache. Bcache/Steps has
--   the calls of all processes as steps.
-- - Files: kernel/file.c. `Ftable` is `ftable`, `File` is `struct file`; the functions have the
--   names of the source. What `fileclose` does behind the lock is the value `Closing`. Files/Data
--   has `filestat`, `fileread` and `filewrite`, over the record `Calls` of what they call in the
--   rest of the kernel; `write_chunk` is one transaction of `filewrite`.
-- - Grep: the matcher of user/grep.c, on lists of bytes.
-- - Vm: the tables of kernel/vm.c. `Vm` is the memory of the tables, by words, and the allocator
--   of pages, whose calls are parameters; `walk_level` is the loop of `walk`, the functions have
--   the names of the source. Vm/Copy has `copyin`, and Vm/Allocator fills the laws
--   of the allocator with Kalloc.
-- - Sh: the tokens and the parser of user/sh.c. `Cmd` has the constructors of the source as
--   constructors, and the functions have its names; `parseargs` and `parsebacks` are loops of
--   `parseexec` and `parseline`, and `Redir` is a redirection before it stands round its command.
--   Sh/Print writes a command as text.
-- - Sysfile: the calls of kernel/sysfile.c on paths, descriptors and pipes, and `pipealloc`. `Sys`
--   has the file system, the open files, the pipes and the allocator, as the modules above model
--   them, and the descriptors of a process. `inside` runs code of kernel/fs.c; the log is only
--   whether a transaction is open. Sysfile/Tree has what is done inside a transaction, and
--   Sysfile/Calls and Sysfile/Pipes have the calls; Sysfile/Rules composes what holds before and
--   behind code. `make` is `sys_mkdir` and `sys_mknod`; `open_inode` to `with_descriptor` are
--   the parts of `sys_open`, `first_file` to `with_files` those of `pipealloc`, and `with_ends` to
--   `second_descriptor` those of `sys_pipe`. One call runs at a time. Sysfile/Filewrite fills
--   the laws of `filewrite` (Files/Data/Writing) with Fs and these transactions.
-- - Strings: kernel/string.c, and `memmove` of user/ulib.c, on bytes by address.
--
-- What a thread does while it holds the spin lock of a structure is one step; the steps of all
-- threads are interleaved. Numbers are natural numbers, with the wrap-around of a machine word
-- written out where the code can reach it. A panic is `none`, and `panics` in Sysfile.
--
-- Loops are recursions on the rounds left. That of `freerange` has one round more than memory has
-- pages, which is enough (Kalloc/Chain), and that of `strlen` any number above the length of the
-- string (Strings/Compare). The loops over the process table are recursions on the entries left,
-- and that of ^U has a round for each byte of the line. `readi` and `writei` have a round for each
-- byte to go, of which one takes at least one, and `namex` one round more than the path has bytes
-- (Fs/Paths/Elements). `isdirempty` has one for each entry of the directory. The loop of
-- `filewrite` has a round for each byte (Files/Data/Writing), that of `mappages` one for each page
-- of the range, and the searches of `bget` one more than there are buffers (Bcache/Search). The
-- parser of the shell has four rounds for each byte, and four (Sh/Rounds). Pids are counted in 32
-- bits, and the source does not look for the end of them: what is shown of them is for the runs
-- that give fewer.
--
-- Not modelled: the assembly, the device drivers, and the locks themselves; the copies to user
-- memory, the release of whole page tables, the other system calls, what the shell does with a
-- command, and most of the other user programs.
pub mod Base
pub mod Bcache
pub mod Files
pub mod Console
pub mod Fs
pub mod Grep
pub mod Interrupts
pub mod Kalloc
pub mod Log
pub mod Pipe
pub mod Proc
pub mod Sh
pub mod Strings
pub mod Sysfile
pub mod Vm
