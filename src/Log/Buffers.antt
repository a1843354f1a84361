-- ===== src/Log/Buffers.antt =====
-- What reads and writes of blocks do to the buffered data and to the disk.
use native.Mathlib.Decide.{ℕ_discrete}
use csse332lab.Base.{ℕ, ◌<◌, ◌≡◌, ◌≢◌, inl, inr, arith, ◌==◌, ==_refl, ==_ne, Bool-cases, update}
use csse332lab.Log.Blocks.{Block, Store, content, bread, bwrite}

-- Reading a block into its buffer changes no data.
pub content-bread : (a b : ℕ) (s : Store) → content (bread a s) b ≡ content s b
content-bread a b s = elim (ℕ_discrete b a) [ yes e ↦ rw (e, ==_refl) | no ne ↦ rw (==_ne b a ne) ]

pub content-bwrite_self : (b : ℕ) (c : Block) (s : Store) → content (bwrite b c s) b ≡ c
content-bwrite_self b c s = rw (==_refl b)

pub content-bwrite_ne :
    (a b : ℕ) (c : Block) (s : Store) → b ≢ a → content (bwrite a c s) b ≡ content s b
content-bwrite_ne a b c s ne = elim (Bool-cases (s.power == 0)) [
  | inl off ↦ rw (==_ne b a ne, off)
  | inr on ↦ rw (==_ne b a ne, on, ==_ne b a ne)
]

-- Without power a write is lost, with it the disk is changed at that block.
pub disk-bwrite_off : (b : ℕ) (c : Block) (s : Store) → s.power ≡ 0 → (bwrite b c s).disk ≡ s.disk
disk-bwrite_off b c s off = rw off

pub disk-bwrite_on :
    (b : ℕ) (c : Block) (s : Store) → 0 < s.power → (bwrite b c s).disk ≡ update s.disk b c
disk-bwrite_on b c s on = rw (==_ne s.power 0 (omega arith))
