-- ===== src/Fs/Tests.antt =====
-- A small file system, runs on it, and the theorems at it.
use csse332lab.Base.{
  ℕ, ◌-◌, ◌/◌, ◌≡◌, ◌≢◌, refl, subst, ◌∙◌, true, false, some, List, [], ◌∷◌, map, arith, ◌==◌,
  if◌then◌else◌,
}
use csse332lab.Fs.{Fs, Inode, Block}
use csse332lab.Fs.Bytes.Fields.{FitsDisk, SameDinode}
use csse332lab.Fs.Bitmap.{balloc, balloc_loop, free_bit, is_clear, mark, bblock}
use csse332lab.Fs.Bitmap.Alloc.{in_use, MapValid, Balloc, balloc-Balloc}
use csse332lab.Fs.Inodes.{iget, iupdate, stored, iblock}
use csse332lab.Fs.Inodes.Table.{IsUnique, Iget, iget-Iget}
use csse332lab.Fs.Inodes.Disk.{on_disk, iupdate-on_disk}
use csse332lab.Fs.Content.{min, readi}
use csse332lab.Fs.Content.Reading.{contents, readi-contents}
use csse332lab.Fs.Dirs.{dirlookup}
use csse332lab.Fs.Dirs.Entries.{IsDirectory, Looked, dirlookup-Looked}
use csse332lab.Fs.Paths.{take, skipelem, skip_slashes, split_elem}
use csse332lab.Fs.Paths.Elements.{elements, walk, walk-elements}

-- The blocks 0 to 10 are in use; the block 10 is that of the root directory, with the entries "."
-- and "a".
abbrev bitmap : Block
bitmap i = if i == 0 then 255 else if i == 1 then 7 else 0

abbrev entries : Block
entries i =
    if i == 0
    then 1
    else if i == 2
    then b'.'
    else if i == 16
    then 2
    else if i == 18
    then b'a'
    else 0

abbrev unused : Inode
unused = record {
  dev = 0;
  inum = 0;
  ref = 0;
  locked = false;
  valid = false;
  type = 0;
  major = 0;
  minor = 0;
  nlink = 0;
  size = 0;
  addrs = λ i. 0;
}

abbrev root : Inode
root = record unused {
  dev = 1;
  inum = 1;
  ref = 1;
  valid = true;
  type = 1;
  nlink = 1;
  size = 32;
  addrs = λ i. if i == 0 then 10 else 0;
}

abbrev small : Fs
small = record {
  blocks = λ b. if b == 5 then bitmap else if b == 10 then entries else λ i. 0;
  sb = record {
    magic = 0x10203040;
    size = 20;
    nblocks = 9;
    ninodes = 32;
    nlog = 0;
    logstart = 2;
    inodestart = 2;
    bmapstart = 5;
  };
  itable = λ i. if i == 0 then root else unused;
  cwd = 0;
}

first_free : (r : Fs) × (balloc small ≡ some (11, r))
unfolding balloc balloc_loop free_bit is_clear mark
first_free = (_, refl)

small-MapValid : MapValid small
unfolding is_clear
small-MapValid = record {
  bytes =
      λ c hc. let map_block : bblock c small ≡ 5 = omega arith in rw map_block (λ i. ground arith);
  apart = λ b c hb hc free e.
      let map_block : bblock c small ≡ 5 = omega arith in
      let at_map : b ≡ 5 = e ∙ map_block in
      true_not_false (subst (λ b. in_use b small ≡ false) at_map free);
}
  where
    true_not_false : true ≢ false
    true_not_false e = cc

small-IsUnique : IsUnique small.itable
small-IsUnique dev inum i j hi hj p q = ground arith

small-IsDirectory : IsDirectory 0 small
small-IsDirectory = record {
  type = refl;
  size = omega arith;
  whole = refl;
  mapped = λ p hp. let first : p / 1024 ≡ 0 = omega arith in rw first (omega arith);
}

balloc-Balloc_example : (r : ℕ × Fs) × (balloc small ≡ some r) × Balloc small r
balloc-Balloc_example = balloc-Balloc small small-MapValid

iget-Iget_example : Iget 1 2 small (iget 1 2 small)
iget-Iget_example = iget-Iget 1 2 small small-IsUnique

root-FitsDisk : FitsDisk (stored root)
root-FitsDisk = record {
  type = omega arith;
  major = omega arith;
  minor = omega arith;
  nlink = omega arith;
  size = omega arith;
  addrs = λ i hi. ground arith;
}

iupdate-on_disk_example :
    (fs' : Fs) × (iupdate 0 small ≡ some (tt, fs'))
    × SameDinode (on_disk 1 fs') (stored root)
    × ((inum : ℕ) → inum ≢ 1 → SameDinode (on_disk inum fs') (on_disk inum small))
    × ((b : ℕ) → b ≢ iblock 1 small → fs'.blocks b ≡ small.blocks b)
iupdate-on_disk_example = iupdate-on_disk 0 small root-FitsDisk

readi-contents_example :
    readi (λ t m. true) 0 16 4 small
    ≡ some ((contents 0 16 (min 4 (32 - 16)) small, some (min 4 (32 - 16))), small)
readi-contents_example =
    readi-contents 0 small 16 4 (omega arith) small-IsDirectory.size small-IsDirectory.mapped

dirlookup-Looked_example : Looked 0 (b'a' ∷ []) small (dirlookup 0 (b'a' ∷ []) small)
dirlookup-Looked_example = dirlookup-Looked 0 small small-IsDirectory (b'a' ∷ [])

-- "/a//b"
abbrev path : List ℕ
path = b'/' ∷ b'a' ∷ b'/' ∷ b'/' ∷ b'b' ∷ []

two_elements : walk 6 path ≡ (b'a' ∷ []) ∷ (b'b' ∷ []) ∷ []
unfolding walk skipelem skip_slashes split_elem
two_elements = refl

walk-elements_example : walk 6 path ≡ map (take 14) (elements path)
walk-elements_example = walk-elements 6 path (omega arith)
