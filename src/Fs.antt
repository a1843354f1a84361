-- ===== src/Fs.antt =====
-- kernel/fs.c: the state of the file system. A block is its bytes as a `bread` gives them; a block
-- that has been changed in its buffer and handed to `log_write` is changed here at once. One
-- system call runs at a time: a wait for a sleep lock that is held never ends, and is a fault, as
-- a panic is.
pub mod Bytes
pub mod Bitmap
pub mod Inodes
pub mod Content
pub mod Dirs
pub mod Paths
mod Tests
use csse332lab.Base.{ℕ, ◌+◌, ◌*◌, ◌/◌, ◌^◌, Bool, Option, none, some, update}

abbrev pub bsize : ℕ
bsize = 1024

abbrev pub ndirect : ℕ
ndirect = 12

abbrev pub nindirect : ℕ
nindirect = 256

abbrev pub maxfile : ℕ
maxfile = ndirect + nindirect

abbrev pub ninode : ℕ
ninode = 50

abbrev pub rootdev : ℕ
rootdev = 1

abbrev pub rootino : ℕ
rootino = 1

abbrev pub t_dir : ℕ
t_dir = 1

abbrev pub Block : Type 0
Block = ℕ → ℕ

pub record Superblock : Type 0 where
  pub magic : ℕ
  pub size : ℕ
  pub nblocks : ℕ
  pub ninodes : ℕ
  pub nlog : ℕ
  pub logstart : ℕ
  pub inodestart : ℕ
  pub bmapstart : ℕ

-- `struct inode`. `locked` says whether its sleep lock is held.
pub record Inode : Type 0 where
  pub dev : ℕ
  pub inum : ℕ
  pub ref : ℕ
  pub locked : Bool
  pub valid : Bool
  pub type : ℕ
  pub major : ℕ
  pub minor : ℕ
  pub nlink : ℕ
  pub size : ℕ
  pub addrs : ℕ → ℕ

-- The disk, `sb`, `itable`, and the inode of the directory of the process that runs.
pub record Fs : Type 0 where
  pub blocks : ℕ → Block
  pub sb : Superblock
  pub itable : ℕ → Inode
  pub cwd : ℕ

-- `none` is a panic, or a wait that does not end.
abbrev pub M : Type 0 → Type 0
M A = Fs → Option (A × Fs)

abbrev pub ret : {A : Type 0} → A → M A
ret a fs = some (a, fs)

abbrev pub panic : {A : Type 0} → M A
panic fs = none

infixl 5 ◌>>=◌ ◌>>◌
abbrev pub ◌>>=◌ : {A B : Type 0} → M A → (A → M B) → M B
◌>>=◌ m f fs = elim (m fs) [ none ↦ none | some (a, fs') ↦ f a fs' ]

abbrev pub ◌>>◌ : {B : Type 0} → M (Unit {0}) → M B → M B
m >> k = m >>= λ _. k

abbrev pub inode : ℕ → M Inode
inode i fs = some (fs.itable i, fs)

abbrev pub set_inode : ℕ → Inode → M (Unit {0})
set_inode i ip fs = some (tt, record fs { itable = update fs.itable i ip })

abbrev pub bread : ℕ → M Block
bread b fs = some (fs.blocks b, fs)

-- A block with its new bytes, behind `log_write`.
abbrev pub log_write : ℕ → Block → M (Unit {0})
log_write b data_of fs = some (tt, record fs { blocks = update fs.blocks b data_of })

abbrev pub superblock : M Superblock
superblock fs = some (fs.sb, fs)
