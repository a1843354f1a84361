-- ===== src/Sysfile/Tests.antt =====
-- System calls on a small file system, and the theorems at them.
use csse332lab.Base.{ℕ, ◌≡◌, refl, true, false, none, some, List, [], ◌∷◌, ◌==◌, if◌then◌else◌}
use csse332lab.Fs.{Inode, Block}
use csse332lab.Fs.Bytes.{read_dinode}
use csse332lab.Fs.Inodes.{iget, iget_loop, idup, ilock, iunlock, Stat, stati}
use csse332lab.Fs.Content.{readi, readi_loop, bmap, direct, bytes, iput, iunlockput}
use csse332lab.Fs.Dirs.{dirlookup, dirlookup_loop, read_dirent, dirent, cstring, namecmp, same_name}
use csse332lab.Fs.Paths.{namei, namex, namex_loop, namex_elem, skipelem, skip_slashes, split_elem}
use csse332lab.Files.Data.{Calls}
use csse332lab.Sysfile.Filewrite.{kernel_calls}
use csse332lab.Files.{fd_none, fd_inode, File, filealloc, filealloc_loop}
use csse332lab.Sysfile.{
  Sys, gives, begin_op, end_op, inside, fdalloc, free_descriptor, ret, continue, ◌>>=◌,
}
use csse332lab.Sysfile.Calls.{
  with_descriptor, open_descriptor, with_file, sys_open, open_inode, open_file, alloc_file,
  set_file, opened,
}
use csse332lab.Sysfile.Pipes.{sys_pipe}
use csse332lab.Sysfile.Rules.{Yields}
use csse332lab.Sysfile.Steps.{
  Call, dup, close, open_path, pipe, Settled, Settled-Sound, perform, perform_all,
  perform_all-Settled, Unchanged, perform-Unchanged,
}
use csse332lab.Sysfile.Opening.{Opened, sys_open-Opened}
use csse332lab.Sysfile.Piping.{Piped, sys_pipe-Piped}

-- The block 10 is that of the root directory, with the entries "." and "a"; the block 2 has the
-- inode 2, an empty file.
abbrev entries : Block
entries i =
    if i == 0
    then 1
    else if i == 2
    then b'.'
    else if i == 16
    then 2
    else if i == 18
    then b'a'
    else 0

abbrev inodes : Block
inodes i = if i == 128 then 2 else if i == 134 then 1 else 0

abbrev unused : Inode
unused = record {
  dev = 0;
  inum = 0;
  ref = 0;
  locked = false;
  valid = false;
  type = 0;
  major = 0;
  minor = 0;
  nlink = 0;
  size = 0;
  addrs = λ i. 0;
}

abbrev root : Inode
root = record unused {
  dev = 1;
  inum = 1;
  ref = 1;
  valid = true;
  type = 1;
  nlink = 1;
  size = 32;
  addrs = λ i. if i == 0 then 10 else 0;
}

abbrev start : Sys
start = record {
  fs = record {
    blocks = λ b. if b == 2 then inodes else if b == 10 then entries else λ i. 0;
    sb = record {
      magic = 0x10203040;
      size = 20;
      nblocks = 9;
      ninodes = 32;
      nlog = 0;
      logstart = 2;
      inodestart = 2;
      bmapstart = 5;
    };
    itable = λ i. if i == 0 then root else unused;
    cwd = 0;
  };
  files = λ f. record {
    type = fd_none;
    ref = 0;
    readable = false;
    writable = false;
    pipe = 0;
    ip = 0;
    off = 0;
    major = 0;
  };
  pipes = λ p. record {
    buf = λ i. 0;
    nread = 0;
    nwrite = 0;
    readopen = false;
    writeopen = false;
    read_sleepers = 0;
    write_sleepers = 0;
  };
  kmem = record { word = λ a. 0; freelist = 0x80030000 };
  ofile = λ fd. none;
  op = false;
}

abbrev end_of_kernel : ℕ
end_of_kernel = 0x80022000

start-Settled : Settled [] start
start-Settled = (refl, record { counted = λ f lt. refl; unused = λ f lt z. refl; range = tt })

-- `a`, for reading and writing
opens_a : (t : Sys) × (sys_open end_of_kernel (some (b'a' ∷ [])) 2 start ≡ gives (some 0) t)
unfolding with_descriptor open_descriptor with_file sys_open open_inode open_file alloc_file
    set_file opened begin_op end_op inside fdalloc free_descriptor ret continue ◌>>=◌ filealloc
    filealloc_loop namei namex namex_loop namex_elem skipelem skip_slashes split_elem iget iget_loop
    idup ilock iunlock dirlookup dirlookup_loop read_dirent dirent cstring namecmp same_name readi
    readi_loop bmap direct bytes iput iunlockput read_dinode
opens_a = (_, refl)

abbrev calls : List Call
calls = open_path (some (b'a' ∷ [])) 2 ∷ dup 0 ∷ pipe (λ addr fd. true) 0x4000 ∷ close 0 ∷ []

perform_all-Settled_example : Yields (λ _. Settled []) (perform_all end_of_kernel calls start)
perform_all-Settled_example = perform_all-Settled end_of_kernel [] calls start start-Settled

perform-Unchanged_example :
    Yields (Unchanged start.ofile) (perform end_of_kernel (pipe (λ addr fd. fd == 0) 0x4000) start)
perform-Unchanged_example =
    perform-Unchanged end_of_kernel [] (pipe (λ addr fd. fd == 0) 0x4000) start start-Settled

sys_open-Opened_example :
    Yields (Opened [] start.ofile 2) (sys_open end_of_kernel (some (b'a' ∷ [])) 2 start)
sys_open-Opened_example =
    sys_open-Opened end_of_kernel [] (some (b'a' ∷ [])) 2 start
      (Settled-Sound [] start start-Settled)

sys_pipe-Piped_example :
    Yields (Piped [] start.ofile) (sys_pipe end_of_kernel (λ addr fd. true) 0x4000 start)
sys_pipe-Piped_example =
    sys_pipe-Piped end_of_kernel [] (λ addr fd. true) 0x4000 start
      (Settled-Sound [] start start-Settled)

-- The file `a` in the entry 1 of the table of inodes.
abbrev with_a : Sys
with_a = record start {
  fs = record start.fs {
    itable = λ i.
        if i == 0
        then root
        else if i == 1
        then record unused { dev = 1; inum = 2; ref = 1; valid = true; type = 2; nlink = 1 }
        else unused;
  };
}

abbrev no_devices : Calls Sys Stat
no_devices = record {
  piperead = λ p a n s. none;
  pipewrite = λ p a n s. none;
  read = λ d. none;
  write = λ d. none;
  begin_op = λ s. none;
  end_op = λ s. none;
  ilock = λ i s. none;
  iunlock = λ i s. none;
  stati = λ i s. stati (s.fs.itable i);
  copyout = λ a st s. (false, s);
  readi = λ i a off n s. none;
  writei = λ i a off n s. none;
}

abbrev calls_with : Calls Sys Stat
calls_with = kernel_calls (λ a. a) (λ a tot m. m) no_devices

abbrev file_a : File
file_a = record {
  type = fd_inode;
  ref = 1;
  readable = true;
  writable = true;
  pipe = 0;
  ip = 1;
  off = 0;
  major = 0;
}
