-- ===== src/Proc/Exiting.antt =====
-- The end of a process is not missed by a parent that waits for it.
use native.Mathlib.Decide.{ℕ_discrete}
use csse332lab.Base.{
  ℕ, zero, suc, ◌+◌, ◌<◌, ◌≡◌, ◌≢◌, ◌∙◌, ap, sym, subst, ◌⊎◌, inl, inr, some, ◌==◌, if◌then◌else◌,
  Bool-cases, ==_refl, ==_ne, update, update_self, update_ne, ℤ,
}
use csse332lab.Proc.{
  Proc, Table, System, sleeping, runnable, zombie, nproc, is_child_of, rouse, wakeup, reparent_loop,
  reparent, wakeup_parent, exit,
}
use csse332lab.Proc.Table.{wakeup-rouse}
use csse332lab.Proc.Family.{reparent-parent}

-- The process is runnable, or sleeps on `chan`.
abbrev Rousable : (chan : ℕ) → Proc → Type 0
Rousable chan p = (p.state ≡ runnable) ⊎ ((p.state ≡ sleeping) × (p.chan ≡ chan))

rouse-Rousable : (chan c : ℕ) (p : Proc) → Rousable chan p → Rousable chan (rouse c p)
rouse-Rousable chan c p (inl e) = inl (rw e)
rouse-Rousable chan c p (inr (e, f)) = elim (ℕ_discrete p.chan c) [
  | yes q ↦ inl (rw (e, q, ==_refl))
  | no ne ↦ inr (rw (e, ==_ne _ _ ne), rw (e, ==_ne _ _ ne) f)
]

rouse_runnable : (chan : ℕ) (p : Proc) → Rousable chan p → (rouse chan p).state ≡ runnable
rouse_runnable chan p (inl e) = rw e
rouse_runnable chan p (inr (e, f)) = rw (e, f, ==_refl)

module _ (chan me j : ℕ) (in_table : j < nproc) where
  wakeup-Rousable : (c : ℕ) (t : Table) → Rousable chan (t j) → Rousable chan (wakeup me c t j)
  wakeup-Rousable c t h =
      subst (Rousable chan) (sym (wakeup-rouse me c t j in_table)) (elim (Bool-cases (j == me)) [
        | inl e ↦ subst (λ b. Rousable chan (if b then t j else rouse c (t j))) (sym e) h
        | inr e ↦
            subst (λ b. Rousable chan (if b then t j else rouse c (t j))) (sym e)
              (rouse-Rousable chan c (t j) h)
      ])

  parent_set :
      (init i : ℕ) (t : Table)
      → Rousable chan (t j)
      → Rousable chan (update t i (record (t i) { parent = some init }) j)
  parent_set init i t h = elim (ℕ_discrete j i) [
    | yes e ↦
        subst (λ i. Rousable chan (update t i (record (t i) { parent = some init }) j)) e
          (subst (Rousable chan) (sym (update_self t j _)) h)
    | no ne ↦ subst (Rousable chan) (sym (update_ne t i j _ ne)) h
  ]

  reparent_loop-Rousable :
      (chan_of : ℕ → ℕ) (p init k i : ℕ) (t : Table)
      → Rousable chan (t j)
      → Rousable chan (reparent_loop chan_of me p init k i t j)
  unfolding reparent_loop
  reparent_loop-Rousable chan_of p init zero i t h = h
  reparent_loop-Rousable chan_of p init (suc k) i t h =
      reparent_loop-Rousable chan_of p init k (i + 1) _ (elim (Bool-cases (is_child_of p (t i))) [
        | inl c ↦
            subst (λ b. Rousable chan ((if b then changed else t) j)) (sym c)
              (wakeup-Rousable (chan_of init) _ (parent_set init i t h))
        | inr c ↦ subst (λ b. Rousable chan ((if b then changed else t) j)) (sym c) h
      ])
    where
      changed : Table
      changed = wakeup me (chan_of init) (update t i (record (t i) { parent = some init }))

-- When a process other than init exits, another one that is its parent and sleeps in `wait`, on the
-- channel of its own entry, is made runnable, and the process is a zombie.
pub exit-wakes :
    (chan_of : ℕ → ℕ) (me p : ℕ) (status : ℤ) (s : System)
    → me ≢ s.initproc
    → me < nproc
    → p < nproc
    → p ≢ me
    → (s.procs me).parent ≡ some p
    → (s.procs p).state ≡ sleeping
    → (s.procs p).chan ≡ chan_of p
    → (s' : System) × (exit chan_of me status s ≡ some s')
      × ((s'.procs p).state ≡ runnable)
      × ((s'.procs me).state ≡ zombie)
unfolding exit reparent
exit-wakes chan_of me p status s not_init hme hp ne parent sleeps on =
    let t = reparent chan_of me me s.initproc s.procs in
    let t' = wakeup_parent chan_of me (t me).parent t in
    (
      record s { procs = update t' me (record (t' me) { xstate = status; state = zombie }) },
      rw (==_ne me s.initproc not_init),
      ap (λ (q : Proc). q.state) (update_ne t' me p _ ne) ∙ roused,
      ap (λ (q : Proc). q.state) (update_self t' me _),
    )
  where
    after : Table
    after = reparent chan_of me me s.initproc s.procs

    kept : (after me).parent ≡ some p
    kept = reparent-parent chan_of me me s.initproc s.procs me hme ∙ rw (parent, ==_ne p me ne)

    roused : (wakeup_parent chan_of me (after me).parent after p).state ≡ runnable
    roused =
        ap (λ o. (wakeup_parent chan_of me o after p).state) kept
        ∙ ap (λ (q : Proc). q.state) (wakeup-rouse me (chan_of p) after p hp)
        ∙ ap (λ b. (if b then after p else rouse (chan_of p) (after p)).state) (==_ne p me ne)
        ∙ rouse_runnable (chan_of p) (after p) (
            reparent_loop-Rousable (chan_of p) me p hp chan_of me s.initproc nproc 0 s.procs
              (inr (sleeps, on)))
