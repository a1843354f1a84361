-- ===== src/Sysfile/Tree.antt =====
-- The parts of the system calls that change the tree of the directories, inside a transaction:
-- `isdirempty`, `create`, and what `sys_link` and `sys_unlink` do with locked inodes.
use csse332lab.Base.{
  ℕ, zero, suc, ◌+◌, ◌-◌, ◌/◌, ◌%◌, ◌^◌, Bool, true, false, not, ◌&&◌, ◌||◌, Option, none, some,
  List, [], ◌∷◌, ltb, leb, ◌==◌, if◌then◌else◌,
}
use csse332lab.Fs.{M, ret, panic, ◌>>=◌, ◌>>◌, inode, set_inode, t_dir}
use csse332lab.Fs.Inodes.{ialloc, iupdate, ilock}
use csse332lab.Fs.Content.{iunlockput, writei}
use csse332lab.Fs.Dirs.{dirent_size, read_dirent, dirlookup, dirlink, namecmp}
use csse332lab.Fs.Paths.{nameiparent}

abbrev pub t_file : ℕ
t_file = 2

abbrev pub t_device : ℕ
t_device = 3

abbrev dot : List ℕ
dot = b'.' ∷ []

abbrev dots : List ℕ
dots = b'.' ∷ b'.' ∷ []

abbrev set_nlink : ℕ → ℕ → M (Unit {0})
set_nlink i n fs = set_inode i (record (fs.itable i) { nlink = n }) fs

-- ip->nlink++, --, as a short
pub nlink_up : ℕ → M (Unit {0})
nlink_up i = do ip ← inode i; set_nlink i ((ip.nlink + 1) % 2 ^ 16)

pub nlink_down : ℕ → M (Unit {0})
nlink_down i = do ip ← inode i; set_nlink i ((ip.nlink + 2 ^ 16 - 1) % 2 ^ 16)

-- The loop of `isdirempty`, with at most `k` rounds.
pub isdirempty_loop : (dp : ℕ) → ℕ → (off : ℕ) → M Bool
isdirempty_loop dp zero off fs = some (true, fs)
isdirempty_loop dp (suc k) off fs =
    if not (ltb off (fs.itable dp).size)
    then some (true, fs)
    else (do
      de ← read_dirent dp off
      if de.inum == 0 then isdirempty_loop dp k (off + dirent_size) else ret false)
        fs

pub isdirempty : (dp : ℕ) → M Bool
isdirempty dp fs =
    isdirempty_loop dp ((fs.itable dp).size / dirent_size) (dirent_size + dirent_size) fs

-- `create` from the inode `i` that `ialloc` gave on.
pub create_new : (dp : ℕ) (name : List ℕ) (i type major minor : ℕ) → M (Option ℕ)
create_new dp name i type major minor = do
  ilock i
  now ← inode i
  set_inode i (record now { major = major; minor = minor; nlink = 1 })
  iupdate i
  ip ← inode i
  d ← inode dp
  has_dots ←
      (if type == t_dir
        then (do
          entered ← dirlink i dot ip.inum
          if entered then dirlink i dots d.inum else ret false)
        else ret true)
  entered ← (if has_dots then dirlink dp name ip.inum else ret false)
  if entered
      then (do
        if type == t_dir then nlink_up dp >> iupdate dp else ret tt
        iunlockput dp
        ret (some i))
      else (do set_nlink i 0; iupdate i; iunlockput i; iunlockput dp; ret none)

pub create : (path : List ℕ) (type major minor : ℕ) → M (Option ℕ)
create path type major minor = do
  parent ← nameiparent path
  elim parent [
    | none ↦ ret none
    | some (dp, name) ↦ (do
      ilock dp
      hit ← dirlookup dp name
      elim hit [
        | some (i, _) ↦ (do
          iunlockput dp
          ilock i
          ip ← inode i
          if type == t_file && (ip.type == t_file || ip.type == t_device)
              then ret (some i)
              else iunlockput i >> ret none)
        | none ↦ (do
          d ← inode dp
          got ← ialloc d.dev type
          elim got [
            | none ↦ iunlockput dp >> ret none
            | some i ↦ create_new dp name i type major minor
          ])
      ])
  ]

-- `sys_link` at the directory of the new name: whether the entry for the inode `i` is made.
pub link_entry : (dp : ℕ) (name : List ℕ) (i : ℕ) → M Bool
link_entry dp name i = do
  ilock dp
  d ← inode dp
  ip ← inode i
  linked ← (if not (d.dev == ip.dev) then ret false else dirlink dp name ip.inum)
  iunlockput dp
  ret linked

-- `bad:` of `sys_link`
pub unlink_inode : ℕ → M (Unit {0})
unlink_inode i = do ilock i; nlink_down i; iupdate i; iunlockput i

-- `sys_unlink` from the locked inode `i` on, whose entry in the directory is at `off`; false for
-- `goto bad`.
pub unlink_entry : (dp i off : ℕ) → M Bool
unlink_entry dp i off = do
  ip ← inode i
  empty ← (if ip.type == t_dir then isdirempty i else ret true)
  if not empty then iunlockput i >> ret false else (do
    written ← writei (λ j. 0) (λ tot m. m) dp off dirent_size
    elim written [ none ↦ panic | some n ↦ if n == dirent_size then ret tt else panic ]
    if ip.type == t_dir then nlink_down dp >> iupdate dp else ret tt
    iunlockput dp
    nlink_down i
    iupdate i
    iunlockput i
    ret true)

-- `sys_unlink` at the locked directory.
pub unlink_name : (dp : ℕ) (name : List ℕ) → M Bool
unlink_name dp name = if namecmp name dot || namecmp name dots then ret false else (do
  hit ← dirlookup dp name
  elim hit [
    | none ↦ ret false
    | some (i, off) ↦ (do
      ilock i
      ip ← inode i
      if ltb ip.nlink 1 || leb (2 ^ 15) ip.nlink then panic else unlink_entry dp i off)
  ])
