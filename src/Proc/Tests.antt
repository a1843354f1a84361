-- ===== src/Proc/Tests.antt =====
-- Runs of the process table, and the theorems on them at concrete tables.
use csse332lab.Base.{ℕ, ◌+◌, ◌<◌, ◌≡◌, refl, true, some, arith, ◌==◌, if◌then◌else◌, pos}
use csse332lab.Proc.{
  Table, System, sleeping, runnable, running, zombie, nproc, is_child_of, exit, find_unused,
  allocproc, allocpid, wait_round, wait_scan, WaitEnd, fork_alloc,
}
use csse332lab.Proc.Family.{exit-orphans}
use csse332lab.Proc.Exiting.{exit-wakes}
use csse332lab.Proc.Waiting.{Waited, wait_round-Waited}
use csse332lab.Proc.Life.{starting, empty_proc, allocates, forks, Reach, start, step}
use csse332lab.Proc.Life.Pids.{Pids}
use csse332lab.Proc.Life.Invariant.{Reach-Pids}

-- init, its child 1, which sleeps in `wait`, and the child 2 of that.
abbrev family : Table
family i =
    if i == 0
    then record empty_proc { state = runnable; pid = 1 }
    else if i == 1
    then record empty_proc { state = sleeping; chan = 1001; pid = 2; parent = some 0 }
    else if i == 2
    then record empty_proc { state = running; pid = 3; parent = some 1 }
    else empty_proc

abbrev system : System
system = record { procs = family; nextpid = 4; initproc = 0 }

abbrev chan_of : ℕ → ℕ
chan_of i = 1000 + i

waits_for_child : (wait_round 1 1001 true family).0 ≡ WaitEnd.asleep
unfolding wait_round wait_scan
waits_for_child = refl

allocated : (allocproc 4096 8192 system).0 ≡ some 3
unfolding allocproc find_unused allocpid
allocated = refl

exit-orphans_example :
    (s' : System) × (exit chan_of 1 (pos 7) system ≡ some s')
    × ((s'.procs 1).state ≡ zombie)
    × ((s'.procs 1).xstate ≡ pos 7)
    × ((j : ℕ)
        → j < nproc
        → (s'.procs j).parent ≡ (if is_child_of 1 (family j) then some 0 else (family j).parent))
exit-orphans_example = exit-orphans chan_of 1 (pos 7) system (omega arith)

exit-wakes_example :
    (s' : System) × (exit chan_of 2 (pos 7) system ≡ some s')
    × ((s'.procs 1).state ≡ runnable)
    × ((s'.procs 2).state ≡ zombie)
exit-wakes_example =
    exit-wakes chan_of 2 1 (pos 7) system (omega arith) (omega arith) (omega arith) (omega arith)
      refl refl refl

wait_round-Waited_example : Waited 1 1001 true family (wait_round 1 1001 true family)
wait_round-Waited_example = wait_round-Waited 1 1001 true family

abbrev two_allocated :
    Reach chan_of 0 (fork_alloc 0 4096 8192 true (allocproc 4096 8192 (starting 0)).1).1
two_allocated = step (step start (allocates 4096 8192)) (forks 0 4096 8192 true)

Reach-Pids_example : Pids (fork_alloc 0 4096 8192 true (allocproc 4096 8192 (starting 0)).1).1
Reach-Pids_example = Reach-Pids chan_of 0 _ two_allocated (omega arith)
