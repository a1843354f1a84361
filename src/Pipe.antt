-- ===== src/Pipe.antt =====
-- kernel/pipe.c: a ring of 512 bytes between the threads that write and those that read. What a
-- thread does between taking `pi->lock` and giving it up, by `release` or inside `sleep`, is one
-- section here: a function from the pipe to the pipe. A thread that slept starts over with
-- `write_section` or `read_section`, as the loops of the source do.
pub mod Ring
pub mod Sections
pub mod History
pub mod Wakeup
mod Tests
use csse332lab.Base.{
  ℕ, zero, suc, ◌+◌, ◌%◌, ◌^◌, Bool, true, false, not, ◌&&◌, ◌||◌, Option, none, some, List, [],
  ◌∷◌, ◌==◌, if◌then◌else◌, update,
}

abbrev pub pipesize : ℕ
pipesize = 512

-- `unsigned int` addition
abbrev pub add_uint : ℕ → ℕ → ℕ
add_uint a b = (a + b) % 2 ^ 32

-- `struct pipe`, and the threads asleep on each of its two channels that no `wakeup` has reached:
-- `read_sleepers` on `&nread`, `write_sleepers` on `&nwrite`.
pub record Pipe : Type 0 where
  pub buf : ℕ → ℕ
  pub nread : ℕ
  pub nwrite : ℕ
  pub readopen : Bool
  pub writeopen : Bool
  pub read_sleepers : ℕ
  pub write_sleepers : ℕ

-- What `pipealloc` makes of a fresh page.
pub pipe_init : (ℕ → ℕ) → Pipe
pipe_init page = record {
  buf = page;
  nread = 0;
  nwrite = 0;
  readopen = true;
  writeopen = true;
  read_sleepers = 0;
  write_sleepers = 0;
}

abbrev pub wakeup_readers : Pipe → Pipe
wakeup_readers p = record p { read_sleepers = 0 }

abbrev pub wakeup_writers : Pipe → Pipe
wakeup_writers p = record p { write_sleepers = 0 }

-- The pipe, and whether its page was given to `kfree`.
pub pipeclose : Bool → Pipe → Pipe × Bool
pipeclose writable p =
    let q =
      if writable
      then wakeup_readers (record p { writeopen = false })
      else wakeup_writers (record p { readopen = false }) in
    (q, not q.readopen && not q.writeopen)

abbrev pub is_full : Pipe → Bool
is_full p = p.nwrite == add_uint p.nread pipesize

abbrev pub is_empty : Pipe → Bool
is_empty p = p.nread == p.nwrite

-- pi->data[pi->nwrite++ % PIPESIZE] = ch
pub put : ℕ → Pipe → Pipe
put ch p = record p { buf = update p.buf (p.nwrite % pipesize) ch; nwrite = add_uint p.nwrite 1 }

-- ch = pi->data[pi->nread++ % PIPESIZE]
abbrev pub front : Pipe → ℕ
front p = p.buf (p.nread % pipesize)

pub skip : Pipe → Pipe
skip p = record p { nread = add_uint p.nread 1 }

-- How a section of `pipewrite` ends: by returning (`none` is -1), or asleep at the byte `i`.
pub data WriteEnd : Type 0 where
  returned : Option ℕ → WriteEnd
  sleeping : ℕ → WriteEnd

-- `killed i` is what `killed(pr)` returns before the byte `i`; `copyin i` is the byte at `addr + i`
-- of the caller's memory, `none` if it cannot be read.
module _ (killed : ℕ → Bool) (copyin : ℕ → Option ℕ) where
  -- The loop from the byte `i`, with `k` bytes left: the bytes that it puts, the end and the pipe.
  pub write_section : ℕ → ℕ → Pipe → List ℕ × WriteEnd × Pipe
  write_section zero i p = ([], returned (some i), wakeup_readers p)
  write_section (suc k) i p =
      if not p.readopen || killed i
      then ([], returned none, p)
      else if is_full p
      then ([], sleeping i, record (wakeup_readers p) { write_sleepers = p.write_sleepers + 1 })
      else elim (copyin i) [
        | none ↦ ([], returned (some i), wakeup_readers p)
        | some ch ↦ let (chs, end, q) = write_section k (i + 1) (put ch p) in (ch ∷ chs, end, q)
      ]

-- How a section of `piperead` ends.
pub data ReadEnd : Type 0 where
  returned : Option ℕ → ReadEnd
  sleeping : ReadEnd

-- The copying loop: the bytes taken out of the pipe, the number copied, and the pipe. `copyout i`
-- says whether the byte at `addr + i` of the caller's memory could be written.
pub read_loop : (copyout : ℕ → Bool) → ℕ → ℕ → Pipe → List ℕ × ℕ × Pipe
read_loop copyout zero i p = ([], i, p)
read_loop copyout (suc k) i p =
    if is_empty p
    then ([], i, p)
    else let (chs, n, q) = read_loop copyout k (i + 1) (skip p) in
      if copyout i then (front p ∷ chs, n, q) else (front p ∷ [], i, skip p)

pub read_section : (killed : Bool) (copyout : ℕ → Bool) → ℕ → Pipe → List ℕ × ReadEnd × Pipe
unfolding read_loop
read_section killed copyout n p =
    if is_empty p && p.writeopen
    then if killed
      then ([], returned none, p)
      else ([], sleeping, record p { read_sleepers = p.read_sleepers + 1 })
    else let (chs, i, q) = read_loop copyout n 0 p in (chs, returned (some i), wakeup_writers q)
