-- ===== src/Sysfile.antt =====
-- kernel/sysfile.c: the system calls on files, over kernel/fs.c, kernel/file.c, kernel/pipe.c and
-- kernel/kalloc.c as they are modelled in `Fs`, `Files`, `Pipe` and `Kalloc`, for the process that
-- runs. A path argument is its bytes, or `none` where `argstr` fails; an int argument is a number
-- below 2^32. -1 is the result `none`.
pub mod Tree
pub mod Calls
pub mod Pipes
pub mod Held
pub mod Rules
pub mod Triples
pub mod Placing
pub mod Filing
pub mod GivingUp
pub mod Descriptors
pub mod Transactions
pub mod Opening
pub mod Ends
pub mod Piping
pub mod Steps
pub mod Filewrite
mod Tests
use csse332lab.Base.{
  ℕ, zero, suc, ◌+◌, Bool, true, false, Option, none, some, List, ltb, if◌then◌else◌, update,
}
use csse332lab.Fs.{Fs, M}
use csse332lab.Fs.Content.{iput}
use csse332lab.Files.{
  Ftable, Closing, in_use, no_resource, closes_pipe, puts_inode, filedup, fileclose,
}
use csse332lab.Kalloc.{Kmem, kfree}
use csse332lab.Pipe.{Pipe, pipeclose}

abbrev pub nofile : ℕ
nofile = 16

-- The file system, the open files, the pipes by the page that they are in, the allocator, the
-- descriptors of the process, and whether it is between `begin_op` and `end_op`.
pub record Sys : Type 0 where
  pub fs : Fs
  pub files : Ftable
  pub pipes : ℕ → Pipe
  pub kmem : Kmem
  pub ofile : ℕ → Option ℕ
  pub op : Bool

-- How code ends: with a value; with a panic of kernel/fs.c or of `kfree`; or with what it must
-- never do: call kernel/fs.c outside of a transaction, begin a transaction in one, end one outside,
-- or duplicate or close a file to which there is no reference.
pub data Outcome (A : Type 0) : Type 0 where
  gives : A → Sys → Outcome A
  panics : Outcome A
  misuse : Outcome A

abbrev pub S : Type 0 → Type 0
S A = Sys → Outcome A

pub ret : {A : Type 0} → A → S A
ret a s = gives a s

pub continue : {A B : Type 0} → Outcome A → (A → S B) → Outcome B
continue (gives a s) k = k a s
continue panics k = panics
continue misuse k = misuse

infixl 5 ◌>>=◌ ◌>>◌
pub ◌>>=◌ : {A B : Type 0} → S A → (A → S B) → S B
unfolding continue
◌>>=◌ m k s = continue (m s) k

abbrev pub ◌>>◌ : {B : Type 0} → S (Unit {0}) → S B → S B
m >> k = m >>= λ _. k

pub begin_op : S (Unit {0})
begin_op s = if s.op then misuse else gives tt (record s { op = true })

pub end_op : S (Unit {0})
end_op s = if s.op then gives tt (record s { op = false }) else misuse

-- Code of kernel/fs.c.
pub inside : {A : Type 0} → M A → S A
inside m s =
    if s.op
    then elim (m s.fs) [ none ↦ panics | some (a, fs) ↦ gives a (record s { fs = fs }) ]
    else misuse

-- The file of a descriptor.
pub argfd : ℕ → Sys → Option ℕ
argfd fd s = if ltb fd nofile then s.ofile fd else none

-- The search of `fdalloc`, with `k` descriptors from `fd` on left.
pub free_descriptor : (ℕ → Option ℕ) → ℕ → ℕ → Option ℕ
free_descriptor ofile zero fd = none
free_descriptor ofile (suc k) fd =
    let rest = free_descriptor ofile k (fd + 1) in
    elim (ofile fd) [ none ↦ some fd | some f ↦ rest ]

abbrev pub set_descriptor : ℕ → Option ℕ → Sys → Sys
set_descriptor fd f s = record s { ofile = update s.ofile fd f }

pub fdalloc : ℕ → S (Option ℕ)
unfolding free_descriptor
fdalloc f s = elim (free_descriptor s.ofile nofile 0) [
  | none ↦ gives none s
  | some fd ↦ gives (some fd) (set_descriptor fd (some f) s)
]

-- p->ofile[fd] = 0
pub clear : ℕ → S (Unit {0})
clear fd s = gives tt (set_descriptor fd none s)

pub dup_file : ℕ → S (Unit {0})
dup_file f s = elim (filedup f s.files) [
  | none ↦ misuse
  | some files ↦ gives tt (record s { files = files })
]

pub sys_dup : ℕ → S (Option ℕ)
sys_dup fd s = elim (argfd fd s) [
  | none ↦ gives none s
  | some f ↦
      (do r ← fdalloc f; elim r [ none ↦ ret none | some fd ↦ dup_file f >> ret (some fd) ]) s
]

module _ (end : ℕ) where
  -- `pipeclose`, with its `kfree`.
  pub close_pipe : (pi : ℕ) → (writable : Bool) → S (Unit {0})
  close_pipe pi writable s =
      let (p, freed) = pipeclose writable (s.pipes pi) in
      let t = record s { pipes = update s.pipes pi p } in
      if freed
      then elim (kfree end pi s.kmem) [
        | none ↦ panics
        | some kmem ↦ gives tt (record t { kmem = kmem })
      ]
      else gives tt t

  -- What `fileclose` does behind the lock of the table.
  pub close_behind : Closing → S (Unit {0})
  close_behind in_use = ret tt
  close_behind no_resource = ret tt
  close_behind (closes_pipe pi writable) = close_pipe pi writable
  close_behind (puts_inode i) = begin_op >> inside (iput i) >> end_op

  pub close_file : ℕ → S (Unit {0})
  close_file f s = elim (fileclose f s.files) [
    | none ↦ misuse
    | some (c, files) ↦ close_behind c (record s { files = files })
  ]

  pub sys_close : ℕ → S (Option ℕ)
  sys_close fd s = elim (argfd fd s) [
    | none ↦ gives none s
    | some f ↦ (clear fd >> close_file f >> ret (some 0)) s
  ]
