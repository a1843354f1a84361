-- ===== src/Bcache.antt =====
-- kernel/bio.c: the buffers, in a list through `prev` and `next` from the last used to the least
-- recently used. A buffer is its index in `bcache.buf`, and the head of the list has the index
-- behind them. What is done under `bcache.lock` is one step, as is what a holder of the sleep lock
-- of a buffer does to that buffer.
pub mod Links
pub mod Order
pub mod Search
pub mod Steps
pub mod Invariant
pub mod Calls
pub mod Holding
mod Tests
use csse332lab.Base.{
  ℕ, zero, suc, ◌+◌, ◌%◌, ◌^◌, Bool, true, false, not, ◌&&◌, Option, none, some, ◌==◌,
  if◌then◌else◌, update,
}

-- MAXOPBLOCKS*3
abbrev pub nbuf : ℕ
nbuf = 30

abbrev pub head : ℕ
head = nbuf

abbrev pub Block : Type 0
Block = ℕ → ℕ

-- `struct buf` without its links and the flag of the disk driver. Of the sleep lock it has whether
-- it is held; those who call `bwrite` and `brelse` are the holders, if there is one.
pub record Buf : Type 0 where
  pub valid : Bool
  pub dev : ℕ
  pub blockno : ℕ
  pub locked : Bool
  pub refcnt : ℕ
  pub bytes : Block

-- `bcache`, and the disk below it.
pub record Bcache : Type 0 where
  pub buf : ℕ → Buf
  pub next : ℕ → ℕ
  pub prev : ℕ → ℕ
  pub disk : ℕ → Block

abbrev pub set_buf : ℕ → Buf → Bcache → Bcache
set_buf b x s = record s { buf = update s.buf b x }

-- `acquiresleep(&b->lock)`, when the lock is free.
abbrev pub lock_buf : ℕ → Bcache → Bcache
lock_buf b s = set_buf b (record (s.buf b) { locked = true }) s

-- `initsleeplock(&b->lock)` and `releasesleep(&b->lock)`.
abbrev pub unlock_buf : ℕ → Bcache → Bcache
unlock_buf b s = set_buf b (record (s.buf b) { locked = false }) s

-- The counter of references is a `uint`.
abbrev pub incr : ℕ → ℕ
incr n = (n + 1) % 2 ^ 32

abbrev pub decr : ℕ → ℕ
decr n = (n + 4294967295) % 2 ^ 32

-- Puts `b` behind the head.
pub to_front : ℕ → Bcache → Bcache
to_front b s =
    let s = record s { next = update s.next b (s.next head) } in
    let s = record s { prev = update s.prev b head } in
    let s = record s { prev = update s.prev (s.next head) b } in
    record s { next = update s.next head b }

-- b->next->prev = b->prev; b->prev->next = b->next;
pub unlink : ℕ → Bcache → Bcache
unlink b s =
    let s = record s { prev = update s.prev (s.next b) (s.prev b) } in
    record s { next = update s.next (s.prev b) (s.next b) }

-- The loop of `binit`, with `k` buffers from `b` on left.
pub binit_loop : ℕ → ℕ → Bcache → Bcache
binit_loop zero b s = s
binit_loop (suc k) b s = binit_loop k (b + 1) (to_front b (unlock_buf b s))

pub binit : Bcache → Bcache
binit s =
    let s = record s { prev = update s.prev head head } in
    let s = record s { next = update s.next head head } in binit_loop nbuf 0 s

-- The first loop of `bget`, from `b` on, with `k` rounds at most: the buffer of the block.
pub find_cached : (dev blockno : ℕ) → Bcache → ℕ → ℕ → Option ℕ
find_cached dev blockno s zero b = none
find_cached dev blockno s (suc k) b =
    let rest = find_cached dev blockno s k (s.next b) in
    if b == head
    then none
    else if (s.buf b).dev == dev && (s.buf b).blockno == blockno
    then some b
    else rest

-- The second: the least recently used buffer without a reference.
pub find_unused : Bcache → ℕ → ℕ → Option ℕ
find_unused s zero b = none
find_unused s (suc k) b =
    let rest = find_unused s k (s.prev b) in
    if b == head then none else if (s.buf b).refcnt == 0 then some b else rest

-- `bget` up to `acquiresleep`: `none` is a panic.
pub bget : (dev blockno : ℕ) → Bcache → Option (ℕ × Bcache)
bget dev blockno s = elim (find_cached dev blockno s (nbuf + 1) (s.next head)) [
  | some b ↦ some (b, set_buf b (record (s.buf b) { refcnt = incr (s.buf b).refcnt }) s)
  | none ↦ elim (find_unused s (nbuf + 1) (s.prev head)) [
    | some b ↦ some (
      b,
      set_buf b (record (s.buf b) { dev = dev; blockno = blockno; valid = false; refcnt = 1 }) s,
    )
    | none ↦ none
  ]
]

-- `bread` when it has the buffer.
pub fill : ℕ → Bcache → Bcache
fill b s =
    if not (s.buf b).valid
    then set_buf b (record (s.buf b) { bytes = s.disk (s.buf b).blockno; valid = true }) s
    else s

-- When the lock of the buffer is free, so that `bget` does not wait for it.
pub bread : (dev blockno : ℕ) → Bcache → Option (ℕ × Bcache)
bread dev blockno s = elim (bget dev blockno s) [
  | some (b, s) ↦ some (b, fill b (lock_buf b s))
  | none ↦ none
]

pub bwrite : ℕ → Bcache → Option Bcache
bwrite b s =
    if not (s.buf b).locked
    then none
    else some (record s { disk = update s.disk (s.buf b).blockno (s.buf b).bytes })

-- What `brelse` does under `bcache.lock`.
pub put_ref : ℕ → Bcache → Bcache
put_ref b s =
    let s = set_buf b (record (s.buf b) { refcnt = decr (s.buf b).refcnt }) s in
    if (s.buf b).refcnt == 0 then to_front b (unlink b s) else s

pub brelse : ℕ → Bcache → Option Bcache
brelse b s = if not (s.buf b).locked then none else some (put_ref b (unlock_buf b s))

pub bpin : ℕ → Bcache → Bcache
bpin b s = set_buf b (record (s.buf b) { refcnt = incr (s.buf b).refcnt }) s

pub bunpin : ℕ → Bcache → Bcache
bunpin b s = set_buf b (record (s.buf b) { refcnt = decr (s.buf b).refcnt }) s
