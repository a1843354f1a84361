-- ===== src/Fs/Inodes.antt =====
-- The table of inodes in memory, and the inodes on the disk.
pub mod Table
pub mod Disk
use csse332lab.Base.{
  ℕ, zero, suc, ◌+◌, ◌-◌, ◌*◌, ◌/◌, ◌%◌, Bool, true, false, not, ◌&&◌, ◌||◌, Option, none, some,
  ltb, ◌==◌, if◌then◌else◌, update,
}
use csse332lab.Fs.{
  Fs, Inode, Superblock, M, ret, panic, ◌>>=◌, ◌>>◌, inode, set_inode, bread, log_write, superblock,
  Block, ninode,
}
use csse332lab.Fs.Bytes.{
  Dinode, dinode_size, read_dinode, write_dinode, get16, put16, read_superblock,
}

abbrev pub ipb : ℕ
ipb = 16

-- IBLOCK(i, sb), and the offset of the inode in its block
abbrev pub iblock : ℕ → Fs → ℕ
iblock inum fs = inum / ipb + fs.sb.inodestart

abbrev pub ioffset : ℕ → ℕ
ioffset inum = inum % ipb * dinode_size

-- `fsinit` before it calls `initlog`; the block 1 is the superblock.
pub fsinit : M (Unit {0})
fsinit fs =
    let sb = read_superblock (fs.blocks 1) in
    if sb.magic == 0x10203040 then some (tt, record fs { sb = sb }) else none

-- The loop of `iget` over the table, with `k` entries from `i` on left: an entry of the inode, or
-- the first empty one.
pub data Entry : Type 0 where
  present : ℕ → Entry
  empty : ℕ → Entry
  full : Entry

-- if(empty == 0 && ip->ref == 0) empty = ip;
abbrev pub remember : (i ref : ℕ) → Entry → Entry
remember i ref full = if ref == 0 then empty i else full
remember i ref (empty e) = empty e
remember i ref (present e) = present e

unfoldable pub iget_loop : (dev inum : ℕ) → (ℕ → Inode) → ℕ → ℕ → Entry → Entry
iget_loop dev inum t zero i seen = seen
iget_loop dev inum t (suc k) i seen =
    let rest = iget_loop dev inum t k (i + 1) (remember i (t i).ref seen) in
    if ltb 0 (t i).ref && (t i).dev == dev && (t i).inum == inum then present i else rest

unfoldable pub iget : (dev inum : ℕ) → M ℕ
iget dev inum fs = elim (iget_loop dev inum fs.itable ninode 0 full) [
  | present i ↦
      let ip = record (fs.itable i) { ref = (fs.itable i).ref + 1 } in
      some (i, record fs { itable = update fs.itable i ip })
  | empty i ↦
      let ip = record (fs.itable i) { dev = dev; inum = inum; ref = 1; valid = false } in
      some (i, record fs { itable = update fs.itable i ip })
  | full ↦ none
]

unfoldable pub idup : ℕ → M ℕ
idup i fs =
    let ip = record (fs.itable i) { ref = (fs.itable i).ref + 1 } in
    some (i, record fs { itable = update fs.itable i ip })

-- The loop of `ialloc`, with `k` inodes from `inum` on left; `none` for no inode.
pub ialloc_loop : (dev type : ℕ) → ℕ → ℕ → M (Option ℕ)
ialloc_loop dev type zero inum fs = some (none, fs)
ialloc_loop dev type (suc k) inum fs =
    let rest = ialloc_loop dev type k (inum + 1) fs in
    let data_of = fs.blocks (iblock inum fs) in
    let zeroed =
      write_dinode (record { type = 0; major = 0; minor = 0; nlink = 0; size = 0; addrs = λ i. 0 })
        (ioffset inum) data_of in
    let taken = put16 (ioffset inum) type zeroed in
    if get16 data_of (ioffset inum) == 0
    then elim (iget dev inum (record fs { blocks = update fs.blocks (iblock inum fs) taken })) [
      | none ↦ none
      | some (i, fs') ↦ some (some i, fs')
    ]
    else rest

pub ialloc : (dev type : ℕ) → M (Option ℕ)
ialloc dev type fs = ialloc_loop dev type (fs.sb.ninodes - 1) 1 fs

-- What an inode in memory stores on the disk.
abbrev pub stored : Inode → Dinode
stored ip = record {
  type = ip.type;
  major = ip.major;
  minor = ip.minor;
  nlink = ip.nlink;
  size = ip.size;
  addrs = ip.addrs;
}

unfoldable pub iupdate : ℕ → M (Unit {0})
iupdate i fs =
    let ip = fs.itable i in
    let b = iblock ip.inum fs in
    let data_of = write_dinode (stored ip) (ioffset ip.inum) (fs.blocks b) in
    some (tt, record fs { blocks = update fs.blocks b data_of })

-- The inode with what the disk has of it.
abbrev pub loaded : Inode → Dinode → Inode
loaded ip d = record ip {
  valid = true;
  type = d.type;
  major = d.major;
  minor = d.minor;
  nlink = d.nlink;
  size = d.size;
  addrs = d.addrs;
}

unfoldable pub ilock : ℕ → M (Unit {0})
ilock i fs =
    let ip = fs.itable i in
    let held = record ip { locked = true } in
    let d = read_dinode (fs.blocks (iblock ip.inum fs)) (ioffset ip.inum) in
    if ltb ip.ref 1
    then none
    else if ip.locked
    then none
    else if ip.valid
    then some (tt, record fs { itable = update fs.itable i held })
    else if d.type == 0
    then none
    else some (tt, record fs { itable = update fs.itable i (loaded held d) })

unfoldable pub iunlock : ℕ → M (Unit {0})
iunlock i fs =
    let ip = fs.itable i in
    if not ip.locked || ltb ip.ref 1
    then none
    else some (tt, record fs { itable = update fs.itable i (record ip { locked = false }) })

pub record Stat : Type 0 where
  pub dev : ℕ
  pub ino : ℕ
  pub type : ℕ
  pub nlink : ℕ
  pub size : ℕ

pub stati : Inode → Stat
stati ip = record { dev = ip.dev; ino = ip.inum; type = ip.type; nlink = ip.nlink; size = ip.size }
