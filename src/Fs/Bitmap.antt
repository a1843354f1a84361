-- ===== src/Fs/Bitmap.antt =====
-- `bzero`, `balloc` and `bfree`: blocks, and the map of those in use.
pub mod Bits
pub mod Alloc
pub mod Free
use Prim.Native.Nat.{bit_and, bit_or}
use csse332lab.Base.{
  ℕ, zero, suc, ◌+◌, ◌-◌, ◌*◌, ◌/◌, ◌%◌, ◌^◌, Bool, true, false, Option, none, some, ltb, ◌==◌,
  if◌then◌else◌, update,
}
use csse332lab.Fs.{Block, Fs, M, ret, panic, ◌>>=◌, ◌>>◌, bread, log_write, superblock, bsize}

abbrev pub bpb : ℕ
bpb = bsize * 8

-- BBLOCK(b, sb)
abbrev pub bblock : ℕ → Fs → ℕ
bblock b fs = b / bpb + fs.sb.bmapstart

-- (bp->data[bi/8] & m) == 0
unfoldable pub is_clear : Block → ℕ → Bool
is_clear map bi = bit_and (map (bi / 8)) (2 ^ (bi % 8)) == 0

unfoldable pub mark : Block → ℕ → Block
mark map bi = update map (bi / 8) (bit_or (map (bi / 8)) (2 ^ (bi % 8)))

-- `~m` of a byte is 255 - m.
pub unmark : Block → ℕ → Block
unmark map bi = update map (bi / 8) (bit_and (map (bi / 8)) (255 - 2 ^ (bi % 8)))

abbrev pub bzero : ℕ → M (Unit {0})
bzero b = log_write b (λ i. 0)

-- The inner loop of `balloc`: the first clear bit, with `k` bits from `bi` on to look at.
unfoldable pub free_bit : Block → (size b : ℕ) → ℕ → ℕ → Option ℕ
free_bit map size b zero bi = none
free_bit map size b (suc k) bi =
    let rest = free_bit map size b k (bi + 1) in
    if ltb (b + bi) size then if is_clear map bi then some bi else rest else none

-- The outer loop, with `k` rounds at most. 0 stands for no block.
unfoldable pub balloc_loop : ℕ → ℕ → Fs → ℕ × Fs
balloc_loop zero b fs = (0, fs)
balloc_loop (suc k) b fs =
    let rest = balloc_loop k (b + bpb) fs in
    let map = fs.blocks (bblock b fs) in
    if ltb b fs.sb.size
    then elim (free_bit map fs.sb.size b bpb 0) [
      | some bi ↦
          let marked = update fs.blocks (bblock b fs) (mark map bi) in
          (b + bi, record fs { blocks = update marked (b + bi) (λ i. 0) })
      | none ↦ rest
    ]
    else (0, fs)

unfoldable pub balloc : M ℕ
balloc fs = some (balloc_loop (fs.sb.size / bpb + 1) 0 fs)

pub bfree : ℕ → M (Unit {0})
bfree b fs =
    let map = fs.blocks (bblock b fs) in
    if is_clear map (b % bpb)
    then none
    else some (tt, record fs { blocks = update fs.blocks (bblock b fs) (unmark map (b % bpb)) })
