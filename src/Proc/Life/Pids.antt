-- ===== src/Proc/Life/Pids.antt =====
-- The invariant on the pids, and changes of the table that keep it.
use native.Mathlib.Decide.{ℕ_discrete}
use csse332lab.Base.{
  ℕ, ◌+◌, ◌%◌, ◌^◌, ◌≤◌, ◌<◌, ◌≡◌, ◌≢◌, refl, ◌∙◌, ap, sym, subst, inl, inr, true, false, arith,
  ◌==◌, Bool-cases, update, update_self, update_ne,
}
use csse332lab.Proc.{Proc, Table, System, ProcState, unused, is_unused, is_sleeping, nproc, rouse}
use csse332lab.Proc.Life.{with_procs}

-- The pids of the processes are positive, below `nextpid` and distinct.
pub record Pids (s : System) : Type 0 where
  pub next : 0 < s.nextpid
  pub given :
      (j : ℕ)
      → j < nproc
      → is_unused (s.procs j).state ≡ false
      → (0 < (s.procs j).pid) × ((s.procs j).pid < s.nextpid)
  pub distinct :
      (i j : ℕ)
      → i < nproc
      → j < nproc
      → is_unused (s.procs i).state ≡ false
      → is_unused (s.procs j).state ≡ false
      → (s.procs i).pid ≡ (s.procs j).pid
      → i ≡ j

-- With the next pid at most `n`.
abbrev pub PidsTo : ℕ → System → Type 0
PidsTo n s = Pids s × (s.nextpid ≤ n)

-- The entry is in use as before, with its pid.
abbrev pub Same : Proc → Proc → Type 0
Same p q = (is_unused q.state ≡ is_unused p.state) × (q.pid ≡ p.pid)

-- The entry is free now, or it is in use as before.
abbrev pub Kept : Proc → Proc → Type 0
Kept p q = is_unused q.state ≡ false → (is_unused p.state ≡ false) × (q.pid ≡ p.pid)

abbrev pub AllSame : Table → Table → Type 0
AllSame t t' = (j : ℕ) → j < nproc → Same (t j) (t' j)

abbrev pub AllKept : Table → Table → Type 0
AllKept t t' = (j : ℕ) → j < nproc → Kept (t j) (t' j)

pub Same_trans : (t t' t'' : Table) → AllSame t t' → AllSame t' t'' → AllSame t t''
Same_trans t t' t'' a b j h = ((b j h).0 ∙ (a j h).0, (b j h).1 ∙ (a j h).1)

Same-Kept : (t t' : Table) → AllSame t t' → AllKept t t'
Same-Kept t t' a j h u = (sym (a j h).0 ∙ u, (a j h).1)

pub Same-update : (t : Table) (i : ℕ) (q : Proc) → Same (t i) q → AllSame t (update t i q)
Same-update t i q h j hj = elim (ℕ_discrete j i) [
  | yes e ↦
      subst (λ j. Same (t j) (update t i q j)) (sym e)
        (subst (Same (t i)) (sym (update_self t i q)) h)
  | no ne ↦ subst (Same (t j)) (sym (update_ne t i j q ne)) (refl, refl)
]

pub Kept-update : (t : Table) (i : ℕ) (q : Proc) → Kept (t i) q → AllKept t (update t i q)
Kept-update t i q h j hj = elim (ℕ_discrete j i) [
  | yes e ↦
      subst (λ j. Kept (t j) (update t i q j)) (sym e)
        (subst (Kept (t i)) (sym (update_self t i q)) h)
  | no ne ↦ subst (Kept (t j)) (sym (update_ne t i j q ne)) (λ u. (u, refl))
]

pub Kept-Pids : (s : System) (t : Table) → AllKept s.procs t → Pids s → Pids (with_procs s t)
Kept-Pids s t k p = record {
  next = p.next;
  given = λ j hj u.
      subst (λ n. (0 < n) × (n < s.nextpid)) (sym (k j hj u).1) (p.given j hj (k j hj u).0);
  distinct = λ i j hi hj u v e.
      p.distinct i j hi hj (k i hi u).0 (k j hj v).0 (sym (k i hi u).1 ∙ e ∙ (k j hj v).1);
}

pub Same-Pids : (s : System) (t : Table) → AllSame s.procs t → Pids s → Pids (with_procs s t)
Same-Pids s t a = Kept-Pids s t (Same-Kept s.procs t a)

-- A new process gets `nextpid`, which no other has.
pub Pids-new :
    (s : System) (i : ℕ) (q : Proc)
    → q.pid ≡ s.nextpid
    → s.nextpid + 1 < 2 ^ 31
    → Pids s
    → Pids (record s { nextpid = (s.nextpid + 1) % 2 ^ 32; procs = update s.procs i q })
Pids-new s i q e lt p = record {
  next = omega arith;
  given = λ j hj u. elim (ℕ_discrete j i) [
    | yes same ↦
        subst (λ n. (0 < n) × (n < (s.nextpid + 1) % 2 ^ 32)) (sym (new_pid j same))
          (p.next, omega arith)
    | no ne ↦
        let old = p.given j hj (sym (kept_used j ne) ∙ u) in
        subst (λ n. (0 < n) × (n < (s.nextpid + 1) % 2 ^ 32)) (sym (kept_pid j ne))
          (old.0, omega arith)
  ];
  distinct = λ a b ha hb u v same. elim (ℕ_discrete a i) [
    | yes x ↦ elim (ℕ_discrete b i) [
      | yes y ↦ x ∙ sym y
      | no y ↦
          let old = p.given b hb (sym (kept_used b y) ∙ v) in
          let clash = sym (new_pid a x) ∙ same ∙ kept_pid b y in absurd (omega arith)
    ]
    | no x ↦ elim (ℕ_discrete b i) [
      | yes y ↦
          let old = p.given a ha (sym (kept_used a x) ∙ u) in
          let clash = sym (new_pid b y) ∙ sym same ∙ kept_pid a x in absurd (omega arith)
      | no y ↦
          p.distinct a b ha hb (sym (kept_used a x) ∙ u) (sym (kept_used b y) ∙ v)
            (sym (kept_pid a x) ∙ same ∙ kept_pid b y)
    ]
  ];
}
  where
    new_pid : (j : ℕ) → j ≡ i → (update s.procs i q j).pid ≡ s.nextpid
    new_pid j same =
        ap (λ j. (update s.procs i q j).pid) same
        ∙ ap (λ (p : Proc). p.pid) (update_self s.procs i q)
        ∙ e

    kept_pid : (j : ℕ) → j ≢ i → (update s.procs i q j).pid ≡ (s.procs j).pid
    kept_pid j ne = ap (λ (p : Proc). p.pid) (update_ne s.procs i j q ne)

    kept_used :
        (j : ℕ) → j ≢ i → is_unused (update s.procs i q j).state ≡ is_unused (s.procs j).state
    kept_used j ne = ap (λ (p : Proc). is_unused p.state) (update_ne s.procs i j q ne)

pub Same-rouse : (c : ℕ) (p : Proc) → Same p (rouse c p)
Same-rouse c p = elim (Bool-cases (is_sleeping p.state)) [
  | inl s ↦ elim (Bool-cases (p.chan == c)) [
    | inl e ↦ rw (s, e) (sym (sleeps_in_use p.state s), refl)
    | inr e ↦ rw (s, e) (refl, refl)
  ]
  | inr s ↦ rw s (refl, refl)
]
  where
    sleeps_in_use : (x : ProcState) → is_sleeping x ≡ true → is_unused x ≡ false
    sleeps_in_use unused h = sym h
    sleeps_in_use _ h = refl
