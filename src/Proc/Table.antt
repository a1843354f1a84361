-- ===== src/Proc/Table.antt =====
-- What the loops over the process table do to each entry.
use native.Mathlib.Decide.{ℕ_discrete}
use csse332lab.Base.{
  ℕ, zero, suc, ◌+◌, ◌≤◌, ◌<◌, ◌≡◌, ◌≢◌, refl, ◌∙◌, ap, Bool, true, false, arith, ◌==◌,
  if◌then◌else◌, ==_refl, ==_ne, update_self, update_ne,
}
use csse332lab.Proc.{
  Proc, Table, ProcState, sleeping, runnable, is_sleeping, nproc, rouse, wakeup_loop, wakeup,
  kill_loop, kill,
}

-- Outside the entries that are left the loop of `wakeup` changes nothing.
wakeup_loop_before :
    (me chan k i : ℕ) (t : Table) (j : ℕ) → j < i → wakeup_loop me chan k i t j ≡ t j
unfolding wakeup_loop
wakeup_loop_before me chan zero i t j h = refl
wakeup_loop_before me chan (suc k) i t j h =
    wakeup_loop_before me chan k (i + 1) _ j (omega arith) ∙ ground arith

wakeup_loop-rouse :
    (me chan k i : ℕ) (t : Table) (j : ℕ)
    → i ≤ j
    → j < i + k
    → wakeup_loop me chan k i t j ≡ (if j == me then t j else rouse chan (t j))
unfolding wakeup_loop
wakeup_loop-rouse me chan zero i t j lo hi = absurd (omega arith)
wakeup_loop-rouse me chan (suc k) i t j lo hi = elim (ℕ_discrete j i) [
  | yes e ↦ rw e (wakeup_loop_before me chan k (i + 1) _ i (omega arith) ∙ ground arith)
  | no ne ↦ wakeup_loop-rouse me chan k (i + 1) _ j (omega arith) (omega arith) ∙ ground arith
]

-- `wakeup` rouses every process but the caller's that sleeps on the channel, and changes no other.
pub wakeup-rouse :
    (me chan : ℕ) (t : Table) (j : ℕ)
    → j < nproc
    → wakeup me chan t j ≡ (if j == me then t j else rouse chan (t j))
unfolding wakeup
wakeup-rouse me chan t j h = wakeup_loop-rouse me chan nproc 0 t j (omega arith) (omega arith)

-- What `kill` comes to: the first entry with the pid, or none.
pub data Killed (pid : ℕ) (t : Table) (r : Bool × Table) : Type 0 where
  hit :
      (i : ℕ)
      → i < nproc
      → (t i).pid ≡ pid
      → r.0 ≡ true
      → (r.1 i).killed ≡ true
      → is_sleeping (r.1 i).state ≡ false
      → ((j : ℕ) → j ≢ i → r.1 j ≡ t j)
      → Killed pid t r
  miss : r.0 ≡ false → r.1 ≡ t → ((j : ℕ) → j < nproc → (t j).pid ≢ pid) → Killed pid t r

not_sleeping : (s : ProcState) → is_sleeping (if is_sleeping s then runnable else s) ≡ false
not_sleeping sleeping = refl
not_sleeping _ = refl

kill_loop-Killed :
    (pid k i : ℕ) (t : Table)
    → i + k ≡ nproc
    → ((j : ℕ) → j < i → (t j).pid ≢ pid)
    → Killed pid t (kill_loop pid k i t)
unfolding kill_loop
kill_loop-Killed pid zero i t e before = miss refl refl (λ j hj. before j (omega arith))
kill_loop-Killed pid (suc k) i t e before = elim (ℕ_discrete (t i).pid pid) [
  | yes same ↦
      rw (same, ==_refl)
        (hit i (omega arith) same refl (ap (λ (p : Proc). p.killed) (update_self t i _))
          (ap (λ (p : Proc). is_sleeping p.state) (update_self t i _) ∙ not_sleeping (t i).state)
          (λ j ne. update_ne t i j _ ne))
  | no differ ↦ rw (==_ne _ _ differ) (
      kill_loop-Killed pid k (i + 1) t (omega arith)
        (λ j hj. elim (ℕ_discrete j i) [ yes q ↦ rw q differ | no ne ↦ before j (omega arith) ]))
]

-- `kill` finds a process with the pid if there is one: that process is marked and does not go on
-- sleeping, and no other is changed; otherwise it fails and changes nothing.
pub kill-Killed : (pid : ℕ) (t : Table) → Killed pid t (kill pid t)
unfolding kill
kill-Killed pid t = kill_loop-Killed pid nproc 0 t (omega arith) (λ j h. absurd (omega arith))
