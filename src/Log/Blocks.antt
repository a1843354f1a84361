-- ===== src/Log/Blocks.antt =====
-- What the log relies on below it: blocks of words on a disk, each with at most one copy in memory,
-- as kernel/bio.c keeps them, and a disk that may lose power between any two writes of a block.
use csse332lab.Base.{ℕ, ◌+◌, ◌-◌, Option, none, some, ◌==◌, if◌then◌else◌, update}

-- A block of 1024 bytes as its 32-bit words.
abbrev pub Block : Type 0
Block = ℕ → ℕ

-- `cache b` is the buffered copy of the block `b`, `pins b` the references that `bpin` took to it.
-- The disk does `power` more writes and then none.
pub record Store : Type 0 where
  pub disk : ℕ → Block
  pub cache : ℕ → Option Block
  pub pins : ℕ → ℕ
  pub power : ℕ

abbrev pub buffered : Option Block → Block → Block
buffered none d = d
buffered (some c) d = c

-- `b->data` of the buffer that `bread` returns for a block.
abbrev pub content : Store → ℕ → Block
content s b = buffered (s.cache b) (s.disk b)

abbrev pub bread : ℕ → Store → Store
bread b s = record s { cache = update s.cache b (some (content s b)) }

-- The buffer's data are set to `c` and written to the disk.
abbrev pub bwrite : ℕ → Block → Store → Store
bwrite b c s = record s {
  disk = if s.power == 0 then s.disk else update s.disk b c;
  cache = update s.cache b (some c);
  power = s.power - 1;
}

abbrev pub bpin : ℕ → Store → Store
bpin b s = record s { pins = update s.pins b (s.pins b + 1) }

abbrev pub bunpin : ℕ → Store → Store
bunpin b s = record s { pins = update s.pins b (s.pins b - 1) }

-- The machine after a loss of power: what is on the disk, and nothing else.
abbrev pub reboot : ℕ → Store → Store
reboot power s = record { disk = s.disk; cache = λ b. none; pins = λ b. 0; power = power }
