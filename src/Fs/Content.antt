-- ===== src/Fs/Content.antt =====
-- What an inode holds: `bmap`, `itrunc`, `iput`, `readi` and `writei`.
pub mod Mapping
pub mod Reading
pub mod Writing
use csse332lab.Base.{
  ℕ, zero, suc, ◌+◌, ◌-◌, ◌*◌, ◌/◌, ◌%◌, ◌^◌, Bool, true, false, not, ◌&&◌, ◌||◌, Option, none,
  some, List, [], ◌∷◌, ◌++◌, ltb, leb, ◌==◌, if◌then◌else◌, update,
}
use csse332lab.Fs.{
  Fs, Inode, M, ret, panic, ◌>>=◌, ◌>>◌, inode, set_inode, bread, log_write, Block, ndirect,
  nindirect, maxfile, bsize,
}
use csse332lab.Fs.Bytes.{get32, put32}
use csse332lab.Fs.Bitmap.{balloc, bfree}
use csse332lab.Fs.Inodes.{iupdate, iunlock}

-- `ip->addrs[n] = addr`
abbrev pub set_addr : ℕ → ℕ → ℕ → M (Unit {0})
set_addr i n addr fs =
    let ip = fs.itable i in set_inode i (record ip { addrs = update ip.addrs n addr }) fs

-- The address in `ip->addrs[n]`, of a new block if there is none; 0 if the disk is full.
unfoldable pub direct : ℕ → ℕ → M ℕ
direct i n fs =
    let addr = (fs.itable i).addrs n in
    if addr == 0
    then (do new ← balloc; if new == 0 then ret 0 else set_addr i n new >> ret new) fs
    else some (addr, fs)

-- The same for the entry `bn` of the indirect block `addr`.
pub indirect : ℕ → ℕ → M ℕ
indirect addr bn fs =
    let a = fs.blocks addr in
    if get32 a (4 * bn) == 0
    then (do
      new ← balloc
      if new == 0
          then ret 0
          else (do now ← bread addr; log_write addr (put32 (4 * bn) new now); ret new))
        fs
    else some (get32 a (4 * bn), fs)

unfoldable pub bmap : ℕ → ℕ → M ℕ
bmap i bn =
    if ltb bn ndirect
    then direct i bn
    else if ltb (bn - ndirect) nindirect
    then (do addr ← direct i ndirect; if addr == 0 then ret 0 else indirect addr (bn - ndirect))
    else panic

-- The first loop of `itrunc`, with `k` addresses from `n` on left.
pub trunc_direct : ℕ → ℕ → ℕ → M (Unit {0})
trunc_direct i zero n fs = some (tt, fs)
trunc_direct i (suc k) n fs =
    let addr = (fs.itable i).addrs n in
    (if addr == 0
        then trunc_direct i k (n + 1)
        else (do bfree addr; set_addr i n 0; trunc_direct i k (n + 1)))
      fs

-- The second, over the entries of the indirect block.
pub trunc_indirect : Block → ℕ → ℕ → M (Unit {0})
trunc_indirect a zero j fs = some (tt, fs)
trunc_indirect a (suc k) j fs =
    (if get32 a (4 * j) == 0
        then trunc_indirect a k (j + 1)
        else (do bfree (get32 a (4 * j)); trunc_indirect a k (j + 1)))
      fs

abbrev pub set_size : ℕ → ℕ → M (Unit {0})
set_size i size fs = set_inode i (record (fs.itable i) { size = size }) fs

pub itrunc : ℕ → M (Unit {0})
itrunc i = do
  trunc_direct i ndirect 0
  ip ← inode i
  a ← bread (ip.addrs ndirect)
  if ip.addrs ndirect == 0
      then ret tt
      else (do trunc_indirect a nindirect 0; bfree (ip.addrs ndirect); set_addr i ndirect 0)
  set_size i 0
  iupdate i

unfoldable pub iput : ℕ → M (Unit {0})
iput i = do
  ip ← inode i
  if ip.ref == 1 && ip.valid && ip.nlink == 0
      then if ip.locked then panic else (do
        itrunc i
        now ← inode i
        set_inode i (record now { type = 0 })
        iupdate i
        now ← inode i
        set_inode i (record now { valid = false }))
      else ret tt
  now ← inode i
  set_inode i (record now { ref = now.ref - 1 })

unfoldable pub iunlockput : ℕ → M (Unit {0})
iunlockput i = do iunlock i; iput i

abbrev pub add_uint : ℕ → ℕ → ℕ
add_uint a b = (a + b) % 2 ^ 32

abbrev pub min : ℕ → ℕ → ℕ
min a b = if ltb a b then a else b

-- The `m` bytes of a block from `o` on.
unfoldable pub bytes : Block → ℕ → ℕ → List ℕ
bytes b o zero = []
bytes b o (suc m) = b o ∷ bytes b (o + 1) m

-- The loop of `readi`, with `left` bytes to go and at most `k` rounds: the bytes, and the count,
-- where `none` is -1. `copyout tot m` says whether `m` bytes could be stored at `dst + tot`.
unfoldable pub readi_loop :
    (copyout : ℕ → ℕ → Bool) (i : ℕ) → ℕ → (tot off left : ℕ) → M (List ℕ × Option ℕ)
readi_loop copyout i zero tot off left fs = some (([], some tot), fs)
readi_loop copyout i (suc k) tot off left fs =
    if left == 0
    then some (([], some tot), fs)
    else (do
      addr ← bmap i (off / bsize)
      data_of ← bread addr
      let m = min left (bsize - off % bsize)
      if addr == 0 then ret ([], some tot) else if not (copyout tot m) then ret ([], none) else (do
        (more, end) ← readi_loop copyout i k (tot + m) (off + m) (left - m)
        ret (bytes data_of (off % bsize) m ++ more, end)))
        fs

unfoldable pub readi : (copyout : ℕ → ℕ → Bool) (i off n : ℕ) → M (List ℕ × Option ℕ)
readi copyout i off n fs =
    let size = (fs.itable i).size in
    if ltb size off || ltb (add_uint off n) off
    then some (([], some 0), fs)
    else let n = (if ltb size (add_uint off n) then size - off else n) in
      readi_loop copyout i n 0 off n fs

-- The block with `m` bytes of the caller, from `src` on, at `o`.
abbrev pub written : Block → (ℕ → ℕ) → (src o m : ℕ) → Block
written b memory src o m = λ j. if leb o j && ltb j (o + m) then memory (src + (j - o)) else b j

-- The loop of `writei`, as that of `readi`: the count, and the offset behind it. `memory` are the
-- bytes of the caller, and `copyin tot m` is the number of those at `src + tot` that can be read,
-- at most `m`. What a failing copy has put into the buffer stays there.
pub writei_loop : (memory : ℕ → ℕ) (copyin : ℕ → ℕ → ℕ) (i : ℕ) → ℕ → (tot off left : ℕ) → M (ℕ × ℕ)
writei_loop memory copyin i zero tot off left fs = some ((tot, off), fs)
writei_loop memory copyin i (suc k) tot off left fs =
    if left == 0
    then some ((tot, off), fs)
    else (do
      addr ← bmap i (off / bsize)
      data_of ← bread addr
      let m = min left (bsize - off % bsize)
      if addr == 0
          then ret (tot, off)
          else if ltb (copyin tot m) m
          then log_write addr (written data_of memory tot (off % bsize) (copyin tot m))
            >> ret (tot, off)
          else (do
            log_write addr (written data_of memory tot (off % bsize) m)
            writei_loop memory copyin i k (tot + m) (off + m) (left - m)))
        fs

-- `none` is -1.
pub writei : (memory : ℕ → ℕ) (copyin : ℕ → ℕ → ℕ) (i off n : ℕ) → M (Option ℕ)
writei memory copyin i off n fs =
    let size = (fs.itable i).size in
    if ltb size off || ltb (add_uint off n) off
    then some (none, fs)
    else if ltb (maxfile * bsize) (add_uint off n)
    then some (none, fs)
    else (do
      (tot, end) ← writei_loop memory copyin i n 0 off n
      ip ← inode i
      if ltb ip.size end then set_size i end else ret tt
      iupdate i
      ret (some tot))
        fs
