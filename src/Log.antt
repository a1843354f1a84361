-- ===== src/Log.antt =====
-- kernel/log.c: the redo log. The parts of `struct log` are a `Log`; the disk and the buffers are a
-- `Store`. There is one device, so `dev` is left out.
pub mod Blocks
pub mod Replay
pub mod Buffers
pub mod Install
pub mod Head
pub mod Recovery
pub mod Commit
pub mod Absorb
pub mod Space
mod Tests
use csse332lab.Base.{
  ℕ, zero, suc, ◌+◌, ◌-◌, ◌*◌, Bool, true, false, not, ◌||◌, Option, none, some, ltb, leb, ◌==◌,
  if◌then◌else◌, update,
}
use Blocks.{Block, Store, content, bread, bwrite, bpin, bunpin}

abbrev pub maxopblocks : ℕ
maxopblocks = 10

abbrev pub logsize : ℕ
logsize = maxopblocks * 3

-- `struct log`, with the `n` and `block` of its `lh`.
pub record Log : Type 0 where
  pub start : ℕ
  pub size : ℕ
  pub outstanding : ℕ
  pub committing : Bool
  pub n : ℕ
  pub block : ℕ → ℕ

-- if(recovering == 0) bunpin(dbuf)
abbrev pub unpin_after : Bool → ℕ → Store → Store
unpin_after recovering b s = record s { pins = if recovering then s.pins else (bunpin b s).pins }

-- The loop of `install_trans`, with `k` rounds left.
pub install_loop : Bool → Log → ℕ → ℕ → Store → Store
install_loop recovering log zero tail s = s
install_loop recovering log (suc k) tail s =
    let lbuf = log.start + tail + 1 in
    let dbuf = log.block tail in
    let read = bread dbuf (bread lbuf s) in
    let wrote = bwrite dbuf (content read lbuf) read in
    install_loop recovering log k (tail + 1) (unpin_after recovering dbuf wrote)

pub install_trans : Bool → Log → Store → Store
install_trans recovering log s = install_loop recovering log log.n 0 s

-- log.lh.block[i] = lh->block[i], for the `k` entries from `i` on
pub read_entries : Block → ℕ → ℕ → (ℕ → ℕ) → ℕ → ℕ
read_entries lh zero i block = block
read_entries lh (suc k) i block = read_entries lh k (i + 1) (update block i (lh (i + 1)))

pub read_head : Log → Store → Log × Store
read_head log s =
    let lh = content s log.start in
    (record log { n = lh 0; block = read_entries lh (lh 0) 0 log.block }, bread log.start s)

-- hb->block[i] = log.lh.block[i], for the `k` entries from `i` on
pub write_entries : (ℕ → ℕ) → ℕ → ℕ → Block → Block
write_entries block zero i hb = hb
write_entries block (suc k) i hb = write_entries block k (i + 1) (update hb (i + 1) (block i))

pub write_head : Log → Store → Store
write_head log s =
    let read = bread log.start s in
    let hb = update (content read log.start) 0 log.n in
    bwrite log.start (write_entries log.block log.n 0 hb) read

pub recover_from_log : Log → Store → Log × Store
recover_from_log log s =
    let (log, s) = read_head log s in
    let s = install_trans true log s in let log = record log { n = 0 } in (log, write_head log s)

-- `sb->logstart` and `sb->nlog` are the arguments.
pub initlog : ℕ → ℕ → Log → Store → Log × Store
initlog logstart nlog log s = recover_from_log (record log { start = logstart; size = nlog }) s

-- The loop of `write_log`, with `k` rounds left.
pub write_log_loop : Log → ℕ → ℕ → Store → Store
write_log_loop log zero tail s = s
write_log_loop log (suc k) tail s =
    let to = log.start + tail + 1 in
    let from = log.block tail in
    let read = bread from (bread to s) in
    write_log_loop log k (tail + 1) (bwrite to (content read from) read)

pub write_log : Log → Store → Store
write_log log s = write_log_loop log log.n 0 s

pub commit : Log → Store → Log × Store
commit log s =
    if ltb 0 log.n
    then (let s = install_trans false log (write_head log (write_log log s)) in
        let log = record log { n = 0 } in (log, write_head log s))
    else (log, s)

-- One round of the loop of `begin_op`: true if the operation was let in, false if it sleeps.
pub begin_op : Log → Bool × Log
begin_op log =
    if log.committing
    then (false, log)
    else if ltb logsize (log.n + (log.outstanding + 1) * maxopblocks)
    then (false, log)
    else (true, record log { outstanding = log.outstanding + 1 })

-- The part of `end_op` under `log.lock`, for a log with an outstanding operation: `none` is the
-- panic, the Boolean is `do_commit`.
pub leave_op : Log → Option (Bool × Log)
leave_op log =
    let log = record log { outstanding = log.outstanding - 1 } in
    if log.committing
    then none
    else if log.outstanding == 0
    then some (true, record log { committing = true })
    else some (false, log)

pub end_op : Log → Store → Option (Log × Store)
end_op log s = elim (leave_op log) [
  | none ↦ none
  | some (false, log) ↦ some (log, s)
  | some (true, log) ↦ let (log, s) = commit log s in some (record log { committing = false }, s)
]

-- The slot of the block `b` among the entries, or the first one behind them.
pub find_slot : (ℕ → ℕ) → ℕ → ℕ → ℕ → ℕ
find_slot block b zero i = i
find_slot block b (suc k) i =
    let rest = find_slot block b k (i + 1) in if block i == b then i else rest

-- `none` is a panic.
pub log_write : ℕ → Log → Store → Option (Log × Store)
log_write b log s =
    if leb logsize log.n || leb (log.size - 1) log.n
    then none
    else if ltb log.outstanding 1
    then none
    else let i = find_slot log.block b log.n 0 in
      let noted = record log { block = update log.block i b } in
      if i == log.n then some (record noted { n = log.n + 1 }, bpin b s) else some (noted, s)
