-- ===== src/Fs/Content/Mapping.antt =====
-- `bmap` against the blocks that an inode has.
use csse332lab.Base.{
  ℕ, ◌-◌, ◌*◌, ◌<◌, ◌≡◌, ◌≢◌, refl, inl, inr, true, some, arith, ltb, ◌==◌, if◌then◌else◌,
  Bool-cases, ==_ne,
}
use csse332lab.Fs.{Fs, ◌>>=◌, ndirect, nindirect, maxfile}
use csse332lab.Fs.Bytes.{get32}
use csse332lab.Fs.Content.{direct, indirect, bmap}

-- The block that the inode `i` has for its block `bn`, 0 for none.
abbrev pub block_of : (i bn : ℕ) → Fs → ℕ
block_of i bn fs =
    if ltb bn ndirect
    then (fs.itable i).addrs bn
    else if (fs.itable i).addrs ndirect == 0
    then 0
    else get32 (fs.blocks ((fs.itable i).addrs ndirect)) (4 * (bn - ndirect))

direct_there :
    (i n : ℕ) (fs : Fs)
    → (fs.itable i).addrs n ≢ 0
    → direct i n fs ≡ some ((fs.itable i).addrs n, fs)
unfolding direct
direct_there i n fs ne = rw (==_ne _ 0 ne) refl

indirect_there :
    (addr bn : ℕ) (fs : Fs)
    → get32 (fs.blocks addr) (4 * bn) ≢ 0
    → indirect addr bn fs ≡ some (get32 (fs.blocks addr) (4 * bn), fs)
unfolding indirect
indirect_there addr bn fs ne = rw (==_ne _ 0 ne) refl

-- A block that the inode has is found, and nothing is changed.
pub bmap_there :
    (i bn : ℕ) (fs : Fs)
    → bn < maxfile
    → block_of i bn fs ≢ 0
    → bmap i bn fs ≡ some (block_of i bn fs, fs)
unfolding bmap
bmap_there i bn fs h ne = elim (Bool-cases (ltb bn ndirect)) [
  | inl low ↦ rw low (direct_there i bn fs (rw low at ne))
  | inr high ↦ elim (Bool-cases ((fs.itable i).addrs ndirect == 0)) [
    | inl no_block ↦ absurd (rw (high, no_block) at ne refl)
    | inr has ↦
        let in_range : ltb (bn - ndirect) nindirect ≡ true = ground arith in
        let first = direct_there i ndirect fs (ground arith) in
        rw (high, in_range, has)
          (rw (first, ◌>>=◌)
            (rw has (
              indirect_there ((fs.itable i).addrs ndirect) (bn - ndirect) fs
                (rw (high, has) at ne))))
  ]
]
