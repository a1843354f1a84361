-- ===== src/Proc.antt =====
-- kernel/proc.c: the process table and the life of its processes. What is done under `p->lock`, or
-- under `wait_lock`, is one step; `me` is the index of the process that runs the code. Of a
-- process the open files, the directory, the name and the saved registers are left out.
pub mod Table
pub mod Family
pub mod Exiting
pub mod Waiting
pub mod Life
mod Tests
use csse332lab.Base.{
  ◌%◌, ◌^◌, ℕ, zero, suc, ◌+◌, Bool, true, false, not, ◌&&◌, ◌||◌, Option, none, some, ◌==◌,
  if◌then◌else◌, update, ℤ, pos, negsuc,
}

abbrev pub nproc : ℕ
nproc = 64

-- `enum procstate`
pub data ProcState : Type 0 where
  unused used sleeping runnable running zombie : ProcState

abbrev pub is_unused : ProcState → Bool
is_unused unused = true
is_unused _ = false

abbrev pub is_sleeping : ProcState → Bool
is_sleeping sleeping = true
is_sleeping _ = false

abbrev pub is_runnable : ProcState → Bool
is_runnable runnable = true
is_runnable _ = false

abbrev pub is_zombie : ProcState → Bool
is_zombie zombie = true
is_zombie _ = false

-- `struct proc`. Pointers into memory are addresses, 0 for none; `parent` is an index of the table.
pub record Proc : Type 0 where
  pub state : ProcState
  pub chan : ℕ
  pub killed : Bool
  pub xstate : ℤ
  pub pid : ℕ
  pub parent : Option ℕ
  pub sz : ℕ
  pub pagetable : ℕ
  pub trapframe : ℕ

abbrev pub Table : Type 0
Table = ℕ → Proc

-- `proc[]`, `nextpid` and the index of `initproc`.
pub record System : Type 0 where
  pub procs : Table
  pub nextpid : ℕ
  pub initproc : ℕ

-- The pages that hang from the process are given back by its caller.
pub freeproc : Proc → Proc
freeproc p = record {
  state = unused;
  chan = 0;
  killed = false;
  xstate = pos 0;
  pid = 0;
  parent = none;
  sz = 0;
  pagetable = 0;
  trapframe = 0;
}

-- `nextpid` is an int of 32 bits, as the number below 2^32 that it is modulo 2^32.
pub allocpid : System → ℕ × System
allocpid s = (s.nextpid, record s { nextpid = (s.nextpid + 1) % 2 ^ 32 })

-- The first unused entry, with `k` entries from `i` on to look at.
pub find_unused : Table → ℕ → ℕ → Option ℕ
find_unused t zero i = none
find_unused t (suc k) i =
    let rest = find_unused t k (i + 1) in if is_unused (t i).state then some i else rest

-- `trapframe` and `pagetable` are what `kalloc` and `proc_pagetable` return, 0 on failure.
pub allocproc : (trapframe pagetable : ℕ) → System → Option ℕ × System
allocproc trapframe pagetable s = elim (find_unused s.procs nproc 0) [
  | none ↦ (none, s)
  | some i ↦
      let (pid, s') = allocpid s in
      let begun = record (s'.procs i) { pid = pid; state = used; trapframe = trapframe } in
      if trapframe == 0
      then (none, record s' { procs = update s'.procs i (freeproc begun) })
      else if pagetable == 0
      then (none, record s' { procs = update s'.procs i (freeproc begun) })
      else (
        some i,
        record s' { procs = update s'.procs i (record begun { pagetable = pagetable }) },
      )
]

-- if(p->state == SLEEPING && p->chan == chan) p->state = RUNNABLE
abbrev pub rouse : ℕ → Proc → Proc
rouse chan p = if is_sleeping p.state && p.chan == chan then record p { state = runnable } else p

-- The loop of `wakeup`, with `k` entries from `i` on left.
pub wakeup_loop : (me chan : ℕ) → ℕ → ℕ → Table → Table
wakeup_loop me chan zero i t = t
wakeup_loop me chan (suc k) i t =
    wakeup_loop me chan k (i + 1) (if i == me then t else update t i (rouse chan (t i)))

pub wakeup : (me chan : ℕ) → Table → Table
wakeup me chan t = wakeup_loop me chan nproc 0 t

-- `parent == p`
abbrev pub points_to : ℕ → Option ℕ → Bool
points_to p none = false
points_to p (some i) = i == p

abbrev pub is_child_of : ℕ → Proc → Bool
is_child_of p q = points_to p q.parent

-- The loop of `kill`: the table, and whether a process with this pid was found.
pub kill_loop : (pid : ℕ) → ℕ → ℕ → Table → Bool × Table
kill_loop pid zero i t = (false, t)
kill_loop pid (suc k) i t =
    let rest = kill_loop pid k (i + 1) t in
    if (t i).pid == pid
    then (
      true,
      update t i (record (t i) {
        killed = true;
        state = if is_sleeping (t i).state then runnable else (t i).state;
      }),
    )
    else rest

-- 0 and -1 as true and false
pub kill : (pid : ℕ) → Table → Bool × Table
kill pid t = kill_loop pid nproc 0 t

pub setkilled : ℕ → Table → Table
setkilled i t = update t i (record (t i) { killed = true })

-- `sleep` up to `sched`, and behind it.
pub sleep_enter : (me chan : ℕ) → Table → Table
sleep_enter me chan t = update t me (record (t me) { chan = chan; state = sleeping })

pub sleep_leave : (me : ℕ) → Table → Table
sleep_leave me t = update t me (record (t me) { chan = 0 })

pub yield : (me : ℕ) → Table → Table
yield me t = update t me (record (t me) { state = runnable })

-- What the loop of `scheduler` does with the entry `i` of the table.
pub schedule : ℕ → Table → Table
schedule i t = if is_runnable (t i).state then update t i (record (t i) { state = running }) else t

-- `chan_of i` is the address of the entry `i` of the table, on which its process waits.
module _ (chan_of : ℕ → ℕ) where
  -- The loop of `reparent`, with `k` entries from `i` on left.
  pub reparent_loop : (me p init : ℕ) → ℕ → ℕ → Table → Table
  reparent_loop me p init zero i t = t
  reparent_loop me p init (suc k) i t = reparent_loop me p init k (i + 1) (
      if is_child_of p (t i)
      then wakeup me (chan_of init) (update t i (record (t i) { parent = some init }))
      else t)

  pub reparent : (me p init : ℕ) → Table → Table
  reparent me p init t = reparent_loop me p init nproc 0 t

  abbrev pub wakeup_parent : ℕ → Option ℕ → Table → Table
  wakeup_parent me none t = wakeup me 0 t
  wakeup_parent me (some i) t = wakeup me (chan_of i) t

  -- The part of `exit` behind the closing of the files: `none` is panic("init exiting").
  pub exit : (me : ℕ) → (status : ℤ) → System → Option System
  exit me status s =
      if me == s.initproc
      then none
      else let t = reparent me me s.initproc s.procs in
        let t = wakeup_parent me (t me).parent t in
        some (record s { procs = update t me (record (t me) { xstate = status; state = zombie }) })

-- What the scan of `wait` comes to.
pub data Scan : Type 0 where
  found : ℕ → Scan
  nothing : (havekids : Bool) → Scan

pub wait_scan : (me : ℕ) → Table → ℕ → ℕ → Bool → Scan
wait_scan me t zero i havekids = nothing havekids
wait_scan me t (suc k) i havekids =
    let past = wait_scan me t k (i + 1) havekids in
    let past_child = wait_scan me t k (i + 1) true in
    if is_child_of me (t i) then if is_zombie (t i).state then found i else past_child else past

-- How a round of `wait` ends.
pub data WaitEnd : Type 0 where
  reaped : (pid : ℕ) → WaitEnd
  failed : WaitEnd
  asleep : WaitEnd

-- A round of `wait`, up to its sleep; `copied` says whether the status could be stored.
pub wait_round : (me chan : ℕ) (copied : Bool) → Table → WaitEnd × Table
wait_round me chan copied t = elim (wait_scan me t nproc 0 false) [
  | found i ↦ if not copied then (failed, t) else (reaped (t i).pid, update t i (freeproc (t i)))
  | nothing havekids ↦
      if not havekids || (t me).killed then (failed, t) else (asleep, sleep_enter me chan t)
]

-- `fork` in the three parts between which it holds no lock. `copied` says whether `uvmcopy` could
-- copy the memory.
pub fork_alloc : (me trapframe pagetable : ℕ) (copied : Bool) → System → Option ℕ × System
fork_alloc me trapframe pagetable copied s =
    let (np, s') = allocproc trapframe pagetable s in
    elim np [
      | none ↦ (none, s')
      | some i ↦
          let p = s'.procs i in
          if copied
          then (
            some i,
            record s' { procs = update s'.procs i (record p { sz = (s'.procs me).sz }) },
          )
          else (none, record s' { procs = update s'.procs i (freeproc p) })
    ]

pub fork_parent : (me np : ℕ) → Table → Table
fork_parent me np t = update t np (record (t np) { parent = some me })

pub fork_ready : (np : ℕ) → Table → Table
fork_ready np t = update t np (record (t np) { state = runnable })
