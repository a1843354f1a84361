-- ===== src/Files/Data/Writing.antt =====
-- `filewrite` of a file of the file system: what it asks of the log and of the inodes, and what it
-- has written when it returns.
use csse332lab.Base.{ℕ, ◌+◌, ◌-◌, ◌/◌, ◌%◌, ◌^◌, ◌≤◌, ◌<◌, ◌≡◌, ◌⊎◌, Option, none, some}
use csse332lab.Files.{File}
use csse332lab.Files.Data.{Calls, maxopblocks}

-- The blocks of 1024 bytes into which the `m` bytes from `off` on reach.
abbrev pub reached : (off m : ℕ) → ℕ
reached off m = (off + m - 1) / 1024 + 1 - off / 1024

-- A transaction may write each of these blocks, a block of the bitmap for each of them, the inode
-- and the indirect block.
abbrev pub Fits : (off m : ℕ) → Type 0
Fits off m = reached off m + reached off m + 2 ≤ maxopblocks

-- No more than were asked for.
abbrev pub Bounded : Option ℕ → ℕ → Type 0
Bounded none m = Unit
Bounded (some r) m = r ≤ m

-- What `filewrite` may rely on: a transaction begins and ends, in it an inode is locked and
-- unlocked, and what fits in a transaction can be written to it.
pub record Laws {W Stat : Type 0} (calls : Calls W Stat) (ip : ℕ) : Type 1 where
  pub Out : W → Type 0
  pub In : W → Type 0
  pub Held : W → Type 0
  pub begins : (w : W) → Out w → (v : W) × (calls.begin_op w ≡ some v) × In v
  pub locks : (w : W) → In w → (v : W) × (calls.ilock ip w ≡ some v) × Held v
  pub writes :
      (addr off m : ℕ) (w : W)
      → 0 < m
      → Fits off m
      → Held w
      → (r : Option ℕ) × (v : W) × (calls.writei ip addr off m w ≡ some (r, v))
        × Held v
        × Bounded r m
  pub unlocks : (w : W) → Held w → (v : W) × (calls.iunlock ip w ≡ some v) × In v
  pub ends : (w : W) → In w → (v : W) × (calls.end_op w ≡ some v) × Out v

-- The bytes that a call of `writei` has written.
abbrev pub bytes_of : Option ℕ → ℕ
bytes_of none = 0
bytes_of (some r) = r

module _ {W Stat : Type 0} (calls : Calls W Stat) where
  -- Behind the loop: `m` bytes are written, all that were to go, or fewer.
  pub record Looped (f : File) (laws : Laws calls f.ip) (i n : ℕ) (out : Option (ℕ × File × W))
      : Type 0 where
    pub at : ℕ
    pub file : File
    pub world : W
    pub m : ℕ
    pub result : out ≡ some (at, file, world)
    pub outside : laws.Out world
    pub offset : file.off ≡ (f.off + m) % 2 ^ 32
    pub whole : ((at ≡ n) × (i + m ≡ n)) ⊎ ((at < n) × (i + m < n))

  -- A call of `filewrite` for `n` bytes gives `n` when it has written them all, and -1 when it has
  -- written fewer; the offset has moved by the bytes written.
  pub record Wrote (f : File) (laws : Laws calls f.ip) (n : ℕ) (out : Option (Option ℕ × File × W))
      : Type 0 where
    pub count : Option ℕ
    pub file : File
    pub world : W
    pub m : ℕ
    pub result : out ≡ some (count, file, world)
    pub outside : laws.Out world
    pub offset : file.off ≡ (f.off + m) % 2 ^ 32
    pub whole : ((count ≡ some n) × (m ≡ n)) ⊎ ((count ≡ none) × (m < n))
