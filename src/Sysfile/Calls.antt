-- ===== src/Sysfile/Calls.antt =====
-- The system calls that take paths.
use csse332lab.Base.{
  ℕ, ◌/◌, ◌%◌, ◌^◌, Bool, not, ◌&&◌, ◌||◌, Option, none, some, List, ltb, ◌==◌, if◌then◌else◌,
  update,
}
use csse332lab.Fs.{Inode, inode, t_dir}
use csse332lab.Fs.Inodes.{iupdate, ilock, iunlock}
use csse332lab.Fs.Content.{iput, iunlockput, itrunc}
use csse332lab.Fs.Paths.{namei, nameiparent}
use csse332lab.Files.{File, fd_inode, fd_device, filealloc}
use csse332lab.Files.Data.{ndev}
use csse332lab.Sysfile.{gives, S, ret, ◌>>=◌, ◌>>◌, begin_op, end_op, inside, fdalloc, close_file}
use csse332lab.Sysfile.Tree.{
  t_file, t_device, nlink_up, create, link_entry, unlink_inode, unlink_name,
}

unfoldable pub sys_link : (old new : Option (List ℕ)) → S (Option ℕ)
sys_link none new = ret none
sys_link (some old) none = ret none
sys_link (some old) (some new) = do
  begin_op
  found ← inside (namei old)
  elim found [
    | none ↦ end_op >> ret none
    | some i ↦ (do
      inside (ilock i)
      ip ← inside (inode i)
      if ip.type == t_dir then inside (iunlockput i) >> end_op >> ret none else (do
        inside (nlink_up i)
        inside (iupdate i)
        inside (iunlock i)
        parent ← inside (nameiparent new)
        elim parent [
          | none ↦ inside (unlink_inode i) >> end_op >> ret none
          | some (dp, name) ↦ (do
            linked ← inside (link_entry dp name i)
            if linked
                then inside (iput i) >> end_op >> ret (some 0)
                else inside (unlink_inode i) >> end_op >> ret none)
        ]))
  ]

unfoldable pub sys_unlink : (path : Option (List ℕ)) → S (Option ℕ)
sys_unlink none = ret none
sys_unlink (some path) = do
  begin_op
  parent ← inside (nameiparent path)
  elim parent [
    | none ↦ end_op >> ret none
    | some (dp, name) ↦ (do
      inside (ilock dp)
      removed ← inside (unlink_name dp name)
      if removed then end_op >> ret (some 0) else inside (iunlockput dp) >> end_op >> ret none)
  ]

-- iunlockput(ip); end_op(); return -1;
abbrev pub give_up : ℕ → S (Option ℕ)
give_up i = inside (iunlockput i) >> end_op >> ret none

-- `omode & 2^b`
abbrev pub flag : (omode b : ℕ) → Bool
flag omode b = omode / 2 ^ b % 2 == 1

abbrev pub o_wronly : ℕ → Bool
o_wronly omode = flag omode 0

abbrev pub o_rdwr : ℕ → Bool
o_rdwr omode = flag omode 1

abbrev pub o_create : ℕ → Bool
o_create omode = flag omode 9

abbrev pub o_trunc : ℕ → Bool
o_trunc omode = flag omode 10

-- The file that `sys_open` makes of a fresh one.
unfoldable pub opened : (i : ℕ) → Inode → (omode : ℕ) → File → File
opened i ip omode f =
    let g =
      if ip.type == t_device
      then record f { type = fd_device; major = ip.major }
      else record f { type = fd_inode; off = 0 } in
    record g { ip = i; readable = not (o_wronly omode); writable = o_wronly omode || o_rdwr omode }

unfoldable pub set_file : ℕ → (File → File) → S (Unit {0})
set_file f g s = gives tt (record s { files = update s.files f (g (s.files f)) })

unfoldable pub alloc_file : S (Option ℕ)
alloc_file s = let (r, files) = filealloc s.files in gives r (record s { files = files })

-- The inode that `sys_open` opens, locked.
unfoldable pub open_inode : (path : List ℕ) (omode : ℕ) → S (Option ℕ)
open_inode path omode = if o_create omode then inside (create path t_file 0 0) else (do
  found ← inside (namei path)
  elim found [
    | none ↦ ret none
    | some i ↦ (do
      inside (ilock i)
      ip ← inside (inode i)
      if ip.type == t_dir && not (omode == 0)
          then inside (iunlockput i) >> ret none
          else ret (some i))
  ])

module _ (end : ℕ) where
  -- `sys_open` of the locked inode `i`, whose fields are `ip`, with a file and a descriptor.
  unfoldable pub with_descriptor : (i omode : ℕ) → Inode → (f fd : ℕ) → S (Option ℕ)
  with_descriptor i omode ip f fd = do
    set_file f (opened i ip omode)
    if o_trunc omode && ip.type == t_file then inside (itrunc i) else ret tt
    inside (iunlock i)
    end_op
    ret (some fd)

  -- Behind `fdalloc`.
  unfoldable pub open_descriptor : (i omode : ℕ) → Inode → (f : ℕ) → Option ℕ → S (Option ℕ)
  open_descriptor i omode ip f none = close_file end f >> give_up i
  open_descriptor i omode ip f (some fd) = with_descriptor i omode ip f fd

  -- Behind `filealloc`.
  unfoldable pub with_file : (i omode : ℕ) → Inode → Option ℕ → S (Option ℕ)
  with_file i omode ip none = give_up i
  with_file i omode ip (some f) = fdalloc f >>= open_descriptor i omode ip f

  -- From the locked inode on.
  unfoldable pub open_file : (i omode : ℕ) → S (Option ℕ)
  open_file i omode = do
    ip ← inside (inode i)
    if ip.type == t_device && not (ltb ip.major ndev)
        then give_up i
        else alloc_file >>= with_file i omode ip

  unfoldable pub sys_open : (path : Option (List ℕ)) (omode : ℕ) → S (Option ℕ)
  sys_open none omode = ret none
  sys_open (some path) omode = do
    begin_op
    found ← open_inode path omode
    elim found [ none ↦ end_op >> ret none | some i ↦ open_file i omode ]

-- sys_mkdir, sys_mknod
unfoldable pub make : (path : Option (List ℕ)) (type major minor : ℕ) → S (Option ℕ)
make none type major minor = begin_op >> end_op >> ret none
make (some path) type major minor = do
  begin_op
  made ← inside (create path type major minor)
  elim made [ none ↦ end_op >> ret none | some i ↦ inside (iunlockput i) >> end_op >> ret (some 0) ]

unfoldable pub sys_mkdir : (path : Option (List ℕ)) → S (Option ℕ)
sys_mkdir path = make path t_dir 0 0

-- The numbers are ints, and passed as shorts.
unfoldable pub sys_mknod : (path : Option (List ℕ)) (major minor : ℕ) → S (Option ℕ)
sys_mknod path major minor = make path t_device (major % 2 ^ 16) (minor % 2 ^ 16)

-- p->cwd = ip
unfoldable pub set_cwd : ℕ → S (Unit {0})
set_cwd i s = gives tt (record s { fs = record s.fs { cwd = i } })

unfoldable pub sys_chdir : (path : Option (List ℕ)) → S (Option ℕ)
sys_chdir none = begin_op >> end_op >> ret none
sys_chdir (some path) = do
  begin_op
  found ← inside (namei path)
  elim found [
    | none ↦ end_op >> ret none
    | some i ↦ (do
      inside (ilock i)
      ip ← inside (inode i)
      if not (ip.type == t_dir) then give_up i else (do
        inside (iunlock i)
        inside (λ fs. iput fs.cwd fs)
        end_op
        set_cwd i
        ret (some 0)))
  ]
