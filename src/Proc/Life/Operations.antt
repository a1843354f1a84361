-- ===== src/Proc/Life/Operations.antt =====
-- What each operation does to the pids.
use mathlib.Core.Option.{some-injective}
use csse332lab.Base.{
  ◌%◌, ◌^◌, ℕ, zero, suc, ◌+◌, ◌<◌, ◌≡◌, ◌≢◌, refl, ◌∙◌, ap, sym, subst, inl, inr, Bool, true,
  false, not, ◌||◌, Option, none, some, arith, ◌==◌, if◌then◌else◌, Bool-cases, update, ℤ,
}
use csse332lab.Proc.{
  Proc, Table, System, ProcState, used, sleeping, runnable, running, zombie, is_unused, is_sleeping,
  nproc, freeproc, allocpid, find_unused, allocproc, is_child_of, rouse, wakeup, kill_loop,
  sleep_enter, reparent_loop, reparent, wakeup_parent, exit, Scan, found, nothing, wait_scan,
  wait_round, WaitEnd, reaped, failed, asleep, fork_alloc,
}
use csse332lab.Proc.Table.{wakeup-rouse}
use csse332lab.Proc.Life.{with_procs}
use csse332lab.Proc.Life.Pids.{
  PidsTo, Pids, Same, Kept, AllSame, AllKept, Same_trans, Same-update, Kept-update, Kept-Pids,
  Same-Pids, Pids-new, Same-rouse,
}

pub AllSame-wakeup : (me chan : ℕ) (t : Table) → AllSame t (wakeup me chan t)
AllSame-wakeup me chan t j h =
    subst (Same (t j)) (sym (wakeup-rouse me chan t j h)) (elim (Bool-cases (j == me)) [
      | inl e ↦ subst (λ b. Same (t j) (if b then t j else rouse chan (t j))) (sym e) (refl, refl)
      | inr e ↦
          subst (λ b. Same (t j) (if b then t j else rouse chan (t j))) (sym e)
            (Same-rouse chan (t j))
    ])

AllSame-reparent_loop :
    (chan_of : ℕ → ℕ) (me p init k i : ℕ) (t : Table)
    → AllSame t (reparent_loop chan_of me p init k i t)
unfolding reparent_loop
AllSame-reparent_loop chan_of me p init zero i t = λ j h. (refl, refl)
AllSame-reparent_loop chan_of me p init (suc k) i t =
    Same_trans t next (reparent_loop chan_of me p init k (i + 1) next)
      (elim (Bool-cases (is_child_of p (t i))) [
        | inl c ↦
            subst (λ b. AllSame t (if b then changed else t)) (sym c)
              (Same_trans t given changed (Same-update t i _ (refl, refl))
                (AllSame-wakeup me (chan_of init) given))
        | inr c ↦ subst (λ b. AllSame t (if b then changed else t)) (sym c) (λ j h. (refl, refl))
      ])
      (AllSame-reparent_loop chan_of me p init k (i + 1) next)
  where
    given : Table
    given = update t i (record (t i) { parent = some init })

    changed : Table
    changed = wakeup me (chan_of init) given

    next : Table
    next = if is_child_of p (t i) then changed else t

AllSame-wakeup_parent :
    (chan_of : ℕ → ℕ) (me : ℕ) (o : Option ℕ) (t : Table) → AllSame t (wakeup_parent chan_of me o t)
AllSame-wakeup_parent chan_of me none t = AllSame-wakeup me 0 t
AllSame-wakeup_parent chan_of me (some i) t = AllSame-wakeup me (chan_of i) t

pub AllSame-kill_loop : (pid k i : ℕ) (t : Table) → AllSame t (kill_loop pid k i t).1
unfolding kill_loop
AllSame-kill_loop pid zero i t = λ j h. (refl, refl)
AllSame-kill_loop pid (suc k) i t = elim (Bool-cases ((t i).pid == pid)) [
  | inl e ↦ rw e (Same-update t i _ (woken (t i).state, refl))
  | inr e ↦ rw e (AllSame-kill_loop pid k (i + 1) t)
]
  where
    woken : (x : ProcState) → is_unused (if is_sleeping x then runnable else x) ≡ is_unused x
    woken sleeping = refl
    woken _ = refl

-- `exit` changes no pid and frees no entry.
pub exit-AllSame :
    (chan_of : ℕ → ℕ) (me : ℕ) (status : ℤ) (s s' : System)
    → (s.procs me).state ≡ running
    → me < nproc
    → exit chan_of me status s ≡ some s'
    → (s'.nextpid ≡ s.nextpid) × AllSame s.procs s'.procs
unfolding exit reparent
exit-AllSame chan_of me status s s' on hme e = elim (Bool-cases (me == s.initproc)) [
  | inl b ↦ absurd (none_not_some (ap (λ c. if c then none else some ended) (sym b) ∙ e))
  | inr b ↦
      subst (λ (x : System). (x.nextpid ≡ s.nextpid) × AllSame s.procs x.procs)
        (some-injective ended s' (ap (λ c. if c then none else some ended) (sym b) ∙ e))
        (refl, Same_trans s.procs woken ended.procs kept last)
]
  where
    none_not_some : none ≢ some s'
    none_not_some = ground arith

    moved : Table
    moved = reparent_loop chan_of me me s.initproc nproc 0 s.procs

    woken : Table
    woken = wakeup_parent chan_of me (moved me).parent moved

    ended : System
    ended = with_procs s (update woken me (record (woken me) { xstate = status; state = zombie }))

    kept : AllSame s.procs woken
    kept =
        Same_trans s.procs moved woken
          (AllSame-reparent_loop chan_of me me s.initproc nproc 0 s.procs)
          (AllSame-wakeup_parent chan_of me (moved me).parent moved)

    last : AllSame woken ended.procs
    last = Same-update woken me _ (sym ((kept me hme).0 ∙ ap is_unused on), refl)

freeproc-Kept : (p : Proc) → Kept p (freeproc p)
unfolding freeproc
freeproc-Kept p u = absurd (true_not_false u)
  where
    true_not_false : true ≢ false
    true_not_false = ground arith

pub wait_round-AllKept :
    (me chan : ℕ) (copied : Bool) (t : Table)
    → (t me).state ≡ running
    → AllKept t (wait_round me chan copied t).1
unfolding wait_round sleep_enter
wait_round-AllKept me chan copied t on = decided (wait_scan me t nproc 0 false)
  where
    ended : Scan → WaitEnd × Table
    ended found_by = elim found_by [
      | found i ↦
          if not copied then (failed, t) else (reaped (t i).pid, update t i (freeproc (t i)))
      | nothing havekids ↦
          if not havekids || (t me).killed then (failed, t) else (asleep, sleep_enter me chan t)
    ]

    decided : (found_by : Scan) → AllKept t (ended found_by).1
    decided (found i) = elim (Bool-cases copied) [
      | inl c ↦ rw c (Kept-update t i _ (freeproc-Kept (t i)))
      | inr c ↦ rw c (λ j h u. (u, refl))
    ]
    decided (nothing havekids) = elim (Bool-cases (not havekids || (t me).killed)) [
      | inl c ↦ rw c (λ j h u. (u, refl))
      | inr c ↦ rw c (Kept-update t me _ (λ u. (ap is_unused on, refl)))
    ]

Pids-more :
    (s : System)
    → s.nextpid + 1 < 2 ^ 31
    → Pids s
    → Pids (record s { nextpid = (s.nextpid + 1) % 2 ^ 32 })
Pids-more s lt p = record {
  next = omega arith;
  given = λ j hj u. let old = p.given j hj u in (old.0, omega arith);
  distinct = p.distinct;
}

-- The pid that `allocproc` hands out is new, also where it fails behind that.
pub allocproc-Pids :
    (trapframe pagetable : ℕ) (s : System)
    → s.nextpid + 1 < 2 ^ 31
    → Pids s
    → PidsTo (s.nextpid + 1) (allocproc trapframe pagetable s).1
unfolding allocproc allocpid freeproc
allocproc-Pids trapframe pagetable s lt p = decided (find_unused s.procs nproc 0)
  where
    begun : ℕ → Proc
    begun i = record (s.procs i) { pid = s.nextpid; state = used; trapframe = trapframe }

    outcome : Option ℕ → Option ℕ × System
    outcome o = elim o [
      | none ↦ (none, s)
      | some i ↦
          if trapframe == 0
          then (
            none,
            record s {
              nextpid = (s.nextpid + 1) % 2 ^ 32;
              procs = update s.procs i (freeproc (begun i));
            },
          )
          else if pagetable == 0
          then (
            none,
            record s {
              nextpid = (s.nextpid + 1) % 2 ^ 32;
              procs = update s.procs i (freeproc (begun i));
            },
          )
          else (
            some i,
            record s {
              nextpid = (s.nextpid + 1) % 2 ^ 32;
              procs = update s.procs i (record (begun i) { pagetable = pagetable });
            },
          )
    ]

    undone :
        (i : ℕ)
        → PidsTo (s.nextpid + 1) (record s {
          nextpid = (s.nextpid + 1) % 2 ^ 32;
          procs = update s.procs i (freeproc (begun i));
        })
    undone i = (
      Kept-Pids (record s { nextpid = (s.nextpid + 1) % 2 ^ 32 }) _
          (Kept-update s.procs i _ (λ u. freeproc-Kept (s.procs i) u)) (Pids-more s lt p),
      omega arith,
    )

    decided : (o : Option ℕ) → PidsTo (s.nextpid + 1) (outcome o).1
    decided none = (p, omega arith)
    decided (some i) = elim (Bool-cases (trapframe == 0)) [
      | inl c ↦ rw c (undone i)
      | inr c ↦ elim (Bool-cases (pagetable == 0)) [
        | inl d ↦ rw (c, d) (undone i)
        | inr d ↦ rw (c, d) (Pids-new s i _ refl lt p, omega arith)
      ]
    ]

pub fork_alloc-Pids :
    (me trapframe pagetable : ℕ) (copied : Bool) (s : System)
    → s.nextpid + 1 < 2 ^ 31
    → Pids s
    → PidsTo (s.nextpid + 1) (fork_alloc me trapframe pagetable copied s).1
unfolding fork_alloc
fork_alloc-Pids me trapframe pagetable copied s lt p =
    decided (allocproc trapframe pagetable s).0 (allocproc trapframe pagetable s).1
      (allocproc-Pids trapframe pagetable s lt p)
  where
    outcome : Option ℕ → System → Option ℕ × System
    outcome np s' = elim np [
      | none ↦ (none, s')
      | some i ↦
          if copied
          then (
            some i,
            with_procs s' (update s'.procs i (record (s'.procs i) { sz = (s'.procs me).sz })),
          )
          else (none, with_procs s' (update s'.procs i (freeproc (s'.procs i))))
    ]

    decided :
        (np : Option ℕ) (s' : System)
        → PidsTo (s.nextpid + 1) s'
        → PidsTo (s.nextpid + 1) (outcome np s').1
    decided none s' q = q
    decided (some i) s' q = elim (Bool-cases copied) [
      | inl c ↦ rw c (Same-Pids s' _ (Same-update s'.procs i _ (refl, refl)) q.0, q.1)
      | inr c ↦
          rw c (Kept-Pids s' _ (Kept-update s'.procs i _ (freeproc-Kept (s'.procs i))) q.0, q.1)
    ]
