-- ===== src/Proc/Life/Invariant.antt =====
-- No two processes have the same pid.
use csse332lab.Base.{
  ◌+◌, ◌^◌, ℕ, ◌<◌, ◌≡◌, ◌≢◌, refl, ap, sym, subst, inl, inr, true, false, arith, Bool-cases,
}
use csse332lab.Proc.{
  System, ProcState, unused, is_unused, is_runnable, nproc, kill, setkilled, sleep_enter,
  sleep_leave, yield, schedule, fork_parent, fork_ready,
}
use csse332lab.Proc.Life.{
  Step, allocates, forks, adopts, readies, wakes, kills, marks, sleeps, leaves, yields, runs, exits,
  waits, Reach, start, step, takes_pid, pids_taken,
}
use csse332lab.Proc.Life.Pids.{Pids, PidsTo, AllSame, Same-update, Kept-Pids, Same-Pids}
use csse332lab.Proc.Life.Operations.{
  AllSame-wakeup, AllSame-kill_loop, exit-AllSame, wait_round-AllKept, allocproc-Pids,
  fork_alloc-Pids,
}

Pids-moved : (s t : System) → t.nextpid ≡ s.nextpid → AllSame s.procs t.procs → Pids s → Pids t
Pids-moved s t e same p =
    let q = Same-Pids s t.procs same p in
    record {
      next = subst (λ n. 0 < n) (sym e) q.next;
      given = λ j hj u.
          ((q.given j hj u).0, subst (λ n. (t.procs j).pid < n) (sym e) (q.given j hj u).1);
      distinct = q.distinct;
    }

Step-Pids :
    (chan_of : ℕ → ℕ) (s s' : System) (st : Step chan_of s s')
    → s.nextpid + takes_pid st < 2 ^ 31
    → Pids s
    → PidsTo (s.nextpid + takes_pid st) s'
unfolding fork_parent fork_ready kill setkilled sleep_enter sleep_leave yield schedule
Step-Pids chan_of s _ (allocates trapframe pagetable) lt p =
    allocproc-Pids trapframe pagetable s lt p
Step-Pids chan_of s _ (forks me trapframe pagetable copied) lt p =
    fork_alloc-Pids me trapframe pagetable copied s lt p
Step-Pids chan_of s _ (adopts me np) lt p =
    (Same-Pids s _ (Same-update s.procs np _ (refl, refl)) p, omega arith)
Step-Pids chan_of s _ (readies np on) lt p =
    (Same-Pids s _ (Same-update s.procs np _ (sym (ap is_unused on), refl)) p, omega arith)
Step-Pids chan_of s _ (wakes me chan) lt p =
    (Same-Pids s _ (AllSame-wakeup me chan s.procs) p, omega arith)
Step-Pids chan_of s _ (kills pid) lt p =
    (Same-Pids s _ (AllSame-kill_loop pid nproc 0 s.procs) p, omega arith)
Step-Pids chan_of s _ (marks i) lt p =
    (Same-Pids s _ (Same-update s.procs i _ (refl, refl)) p, omega arith)
Step-Pids chan_of s _ (sleeps me chan on) lt p =
    (Same-Pids s _ (Same-update s.procs me _ (sym (ap is_unused on), refl)) p, omega arith)
Step-Pids chan_of s _ (leaves me) lt p =
    (Same-Pids s _ (Same-update s.procs me _ (refl, refl)) p, omega arith)
Step-Pids chan_of s _ (yields me on) lt p =
    (Same-Pids s _ (Same-update s.procs me _ (sym (ap is_unused on), refl)) p, omega arith)
Step-Pids chan_of s _ (runs i) lt p = elim (Bool-cases (is_runnable (s.procs i).state)) [
  | inl c ↦ rw c (
      (
        Same-Pids s _ (Same-update s.procs i _ (sym (in_use (s.procs i).state c), refl)) p,
        omega arith,
      ))
  | inr c ↦ rw c (p, omega arith)
]
  where
    in_use : (x : ProcState) → is_runnable x ≡ true → is_unused x ≡ false
    in_use unused h = sym h
    in_use _ h = refl
Step-Pids chan_of s s' (exits me status on hme e) lt p =
    let (next_pid, same) = exit-AllSame chan_of me status s s' on hme e in
    (Pids-moved s s' next_pid same p, omega (arith, next_pid))
Step-Pids chan_of s _ (waits me chan copied on) lt p =
    (Kept-Pids s _ (wait_round-AllKept me chan copied s.procs on) p, omega arith)

Reach-PidsTo :
    (chan_of : ℕ → ℕ) (init : ℕ) (s : System) (r : Reach chan_of init s)
    → pids_taken r + 1 < 2 ^ 31
    → PidsTo (pids_taken r + 1) s
Reach-PidsTo chan_of init _ start lt = (
  record {
    next = omega arith;
    given = λ j hj u. absurd (true_not_false u);
    distinct = λ i j hi hj u v e. absurd (true_not_false u);
  },
  omega arith,
)
  where
    true_not_false : true ≢ false
    true_not_false = ground arith
Reach-PidsTo chan_of init s' (step {s} r st) lt =
    let (pids, to) = Reach-PidsTo chan_of init s r (omega (arith, lt)) in
    let (pids', to') = Step-Pids chan_of s s' st (omega (arith, lt, to)) pids in
    (pids', omega (arith, to, to'))

-- Over every interleaving of the steps in which fewer than 2^31 - 1 pids are given, the processes
-- in the table have positive pids, which are distinct, and which are all below the next one.
pub Reach-Pids :
    (chan_of : ℕ → ℕ) (init : ℕ) (s : System) (r : Reach chan_of init s)
    → pids_taken r + 1 < 2 ^ 31
    → Pids s
Reach-Pids chan_of init s r lt = (Reach-PidsTo chan_of init s r lt).0
