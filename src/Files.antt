-- ===== src/Files.antt =====
-- kernel/file.c: the table of the open files. What is done under `ftable.lock` is one step. A
-- file is its index in `ftable.file`.
pub mod Refs
pub mod Sharing
pub mod Data
mod Tests
use csse332lab.Base.{
  ℕ, zero, suc, ◌+◌, ◌-◌, Bool, Option, none, some, ltb, ◌==◌, if◌then◌else◌, update,
}

abbrev pub nfile : ℕ
nfile = 100

pub data FileType : Type 0 where
  fd_none fd_pipe fd_inode fd_device : FileType

-- `struct file`. The pipe and the inode are numbers for the pointers. A `major` that is negative
-- as a short is one of 2^15 or more here.
pub record File : Type 0 where
  pub type : FileType
  pub ref : ℕ
  pub readable : Bool
  pub writable : Bool
  pub pipe : ℕ
  pub ip : ℕ
  pub off : ℕ
  pub major : ℕ

abbrev pub Ftable : Type 0
Ftable = ℕ → File

-- The loop of `filealloc`, with `k` entries from `f` on left; `none` is the null pointer.
unfoldable pub filealloc_loop : ℕ → ℕ → Ftable → Option ℕ × Ftable
filealloc_loop zero f t = (none, t)
filealloc_loop (suc k) f t =
    let rest = filealloc_loop k (f + 1) t in
    if (t f).ref == 0 then (some f, update t f (record (t f) { ref = 1 })) else rest

unfoldable pub filealloc : Ftable → Option ℕ × Ftable
filealloc t = filealloc_loop nfile 0 t

pub filedup : ℕ → Ftable → Option Ftable
filedup f t =
    if ltb (t f).ref 1 then none else some (update t f (record (t f) { ref = (t f).ref + 1 }))

-- What `fileclose` does when it has given up the lock: nothing, because there are other
-- references; nothing, because there is nothing behind the file; `pipeclose`; `iput`.
pub data Closing : Type 0 where
  in_use : Closing
  no_resource : Closing
  closes_pipe : (pipe : ℕ) → (writable : Bool) → Closing
  puts_inode : (ip : ℕ) → Closing

pub closing : File → Closing
closing ff = elim ff.type [
  | fd_none ↦ no_resource
  | fd_pipe ↦ closes_pipe ff.pipe ff.writable
  | fd_inode ↦ puts_inode ff.ip
  | fd_device ↦ puts_inode ff.ip
]

pub fileclose : ℕ → Ftable → Option (Closing × Ftable)
fileclose f t =
    if ltb (t f).ref 1
    then none
    else if ltb 0 ((t f).ref - 1)
    then some (in_use, update t f (record (t f) { ref = (t f).ref - 1 }))
    else some (closing (t f), update t f (record (t f) { ref = 0; type = fd_none }))
