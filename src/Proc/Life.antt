-- ===== src/Proc/Life.antt =====
-- The steps of the processes, interleaved, and their pids.
pub mod Pids
mod Operations
pub mod Invariant
use csse332lab.Base.{ℕ, ◌+◌, ◌<◌, ◌≡◌, Bool, false, Option, none, some, ℤ, pos}
use csse332lab.Proc.{
  Proc, Table, System, ProcState, unused, used, running, nproc, freeproc, allocproc, wakeup, kill,
  setkilled, sleep_enter, sleep_leave, yield, schedule, exit, wait_round, fork_alloc, fork_parent,
  fork_ready,
}

-- The table and `nextpid` as the kernel starts.
abbrev pub empty_proc : Proc
empty_proc = record {
  state = unused;
  chan = 0;
  killed = false;
  xstate = pos 0;
  pid = 0;
  parent = none;
  sz = 0;
  pagetable = 0;
  trapframe = 0;
}

abbrev pub starting : (init : ℕ) → System
starting init = record { procs = λ _. empty_proc; nextpid = 1; initproc = init }

abbrev pub with_procs : System → Table → System
with_procs s t = record s { procs = t }

-- What a process, the scheduler or an interrupt may do to the table. The process that runs the
-- code is `running`, and the one that `fork` makes ready is still `used`.
pub data Step (chan_of : ℕ → ℕ) (s : System) : System → Type 0 where
  allocates : (trapframe pagetable : ℕ) → Step chan_of s (allocproc trapframe pagetable s).1
  forks :
      (me trapframe pagetable : ℕ) (copied : Bool)
      → Step chan_of s (fork_alloc me trapframe pagetable copied s).1
  adopts : (me np : ℕ) → Step chan_of s (with_procs s (fork_parent me np s.procs))
  readies :
      (np : ℕ) → (s.procs np).state ≡ used → Step chan_of s (with_procs s (fork_ready np s.procs))
  wakes : (me chan : ℕ) → Step chan_of s (with_procs s (wakeup me chan s.procs))
  kills : (pid : ℕ) → Step chan_of s (with_procs s (kill pid s.procs).1)
  marks : (i : ℕ) → Step chan_of s (with_procs s (setkilled i s.procs))
  sleeps :
      (me chan : ℕ)
      → (s.procs me).state ≡ running
      → Step chan_of s (with_procs s (sleep_enter me chan s.procs))
  leaves : (me : ℕ) → Step chan_of s (with_procs s (sleep_leave me s.procs))
  yields :
      (me : ℕ) → (s.procs me).state ≡ running → Step chan_of s (with_procs s (yield me s.procs))
  runs : (i : ℕ) → Step chan_of s (with_procs s (schedule i s.procs))
  exits :
      {s' : System} (me : ℕ) (status : ℤ)
      → (s.procs me).state ≡ running
      → me < nproc
      → exit chan_of me status s ≡ some s'
      → Step chan_of s s'
  waits :
      (me chan : ℕ) (copied : Bool)
      → (s.procs me).state ≡ running
      → Step chan_of s (with_procs s (wait_round me chan copied s.procs).1)

pub data Reach (chan_of : ℕ → ℕ) (init : ℕ) : System → Type 0 where
  start : Reach chan_of init (starting init)
  step : {s s' : System} → Reach chan_of init s → Step chan_of s s' → Reach chan_of init s'

-- How many pids a step takes, at most, and a run.
abbrev pub takes_pid : {chan_of : ℕ → ℕ} {s s' : System} → Step chan_of s s' → ℕ
takes_pid (allocates _ _) = 1
takes_pid (forks _ _ _ _) = 1
takes_pid _ = 0

abbrev pub pids_taken : {chan_of : ℕ → ℕ} {init : ℕ} {s : System} → Reach chan_of init s → ℕ
pids_taken start = 0
pids_taken (step r st) = pids_taken r + takes_pid st
