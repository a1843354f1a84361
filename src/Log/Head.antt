-- ===== src/Log/Head.antt =====
-- The header block: the count in its first word, an entry in each word behind it.
use native.Mathlib.Decide.{ℕ_discrete}
use csse332lab.Base.{
  ℕ, zero, suc, ◌+◌, ◌≤◌, ◌<◌, ◌≡◌, ◌≢◌, refl, ◌∙◌, arith, update, update_self, update_ne,
}
use csse332lab.Log.Blocks.{Block, Store, content, bread}
use csse332lab.Log.Buffers.{content-bread, content-bwrite_ne, disk-bwrite_off, disk-bwrite_on}
use csse332lab.Log.{Log, write_head, read_entries, write_entries}

read_entries_before :
    (lh : Block) (k i : ℕ) (block : ℕ → ℕ) (j : ℕ) → j < i → read_entries lh k i block j ≡ block j
unfolding read_entries
read_entries_before lh zero i block j h = refl
read_entries_before lh (suc k) i block j h =
    read_entries_before lh k (i + 1) _ j (omega arith) ∙ update_ne block i j _ (omega arith)

pub read_entries_lem :
    (lh : Block) (k i : ℕ) (block : ℕ → ℕ) (j : ℕ)
    → i ≤ j
    → j < i + k
    → read_entries lh k i block j ≡ lh (j + 1)
unfolding read_entries
read_entries_lem lh zero i block j lo hi = absurd (omega arith)
read_entries_lem lh (suc k) i block j lo hi = elim (ℕ_discrete j i) [
  | yes e ↦ rw e (read_entries_before lh k (i + 1) _ i (omega arith) ∙ update_self block i _)
  | no ne ↦ read_entries_lem lh k (i + 1) _ j (omega arith) (omega arith)
]

pub write_entries_before :
    (block : ℕ → ℕ) (k i : ℕ) (hb : Block) (j : ℕ) → j ≤ i → write_entries block k i hb j ≡ hb j
unfolding write_entries
write_entries_before block zero i hb j h = refl
write_entries_before block (suc k) i hb j h =
    write_entries_before block k (i + 1) _ j (omega arith) ∙ update_ne hb (i + 1) j _ (omega arith)

pub write_entries_lem :
    (block : ℕ → ℕ) (k i : ℕ) (hb : Block) (j : ℕ)
    → i ≤ j
    → j < i + k
    → write_entries block k i hb (j + 1) ≡ block j
unfolding write_entries
write_entries_lem block zero i hb j lo hi = absurd (omega arith)
write_entries_lem block (suc k) i hb j lo hi = elim (ℕ_discrete j i) [
  | yes e ↦
      rw e (write_entries_before block k (i + 1) _ (i + 1) (omega arith) ∙ update_self hb (i + 1) _)
  | no ne ↦ write_entries_lem block k (i + 1) _ j (omega arith) (omega arith)
]

-- The block that `write_head` writes.
abbrev pub head_block : Log → Store → Block
head_block log s =
    write_entries log.block log.n 0 (update (content (bread log.start s) log.start) 0 log.n)

pub head_block_count : (log : Log) (s : Store) → head_block log s 0 ≡ log.n
head_block_count log s =
    write_entries_before log.block log.n 0 _ 0 (omega arith)
    ∙ update_self (content (bread log.start s) log.start) 0 log.n

pub head_block_entry :
    (log : Log) (s : Store) (i : ℕ) → i < log.n → head_block log s (i + 1) ≡ log.block i
head_block_entry log s i h = write_entries_lem log.block log.n 0 _ i (omega arith) (omega arith)

pub write_head_on :
    (log : Log) (s : Store)
    → 0 < s.power
    → (write_head log s).disk ≡ update s.disk log.start (head_block log s)
unfolding write_head
write_head_on log s on = disk-bwrite_on log.start _ (bread log.start s) on

pub write_head_off :
    (log : Log) (s : Store)
    → s.power ≡ 0
    → ((write_head log s).disk ≡ s.disk) × ((write_head log s).power ≡ 0)
unfolding write_head
write_head_off log s off = (disk-bwrite_off log.start _ (bread log.start s) off, omega arith)

pub write_head-content :
    (log : Log) (s : Store) (b : ℕ) → b ≢ log.start → content (write_head log s) b ≡ content s b
unfolding write_head
write_head-content log s b ne =
    content-bwrite_ne log.start b _ (bread log.start s) ne ∙ content-bread log.start b s
