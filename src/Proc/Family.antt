-- ===== src/Proc/Family.antt =====
-- Parents and children: what `exit` leaves behind.
use native.Mathlib.Decide.{ℕ_discrete}
use csse332lab.Base.{
  ℕ, zero, suc, ◌+◌, ◌≤◌, ◌<◌, ◌≡◌, ◌≢◌, refl, ◌∙◌, ap, inl, inr, true, ◌&&◌, Option, none, some,
  arith, ◌==◌, if◌then◌else◌, Bool-cases, ==_refl, ==_ne, update, update_self, ℤ,
}
use csse332lab.Proc.{
  Proc, Table, System, zombie, nproc, points_to, is_child_of, wakeup_loop, wakeup, reparent_loop,
  reparent, wakeup_parent, exit,
}

wakeup_loop_parent :
    (me chan k i : ℕ) (t : Table) (j : ℕ) → (wakeup_loop me chan k i t j).parent ≡ (t j).parent
unfolding wakeup_loop
wakeup_loop_parent me chan zero i t j = refl
wakeup_loop_parent me chan (suc k) i t j = wakeup_loop_parent me chan k (i + 1) _ j ∙ ground arith

wakeup_keeps_parent : (me chan : ℕ) (t : Table) (j : ℕ) → (wakeup me chan t j).parent ≡ (t j).parent
unfolding wakeup
wakeup_keeps_parent me chan t j = wakeup_loop_parent me chan nproc 0 t j

module _ (chan_of : ℕ → ℕ) (me p init : ℕ) where
  reparent_round_parent :
      (i : ℕ) (t : Table) (j : ℕ)
      → ((if is_child_of p (t i)
            then wakeup me (chan_of init) (update t i (record (t i) { parent = some init }))
            else t)
          j).parent
        ≡ (if j == i && is_child_of p (t j) then some init else (t j).parent)
  reparent_round_parent i t j = elim (Bool-cases (is_child_of p (t i))) [
    | inl child ↦ rw child (wakeup_keeps_parent me (chan_of init) _ j ∙ update_parent i t j child)
    | inr other ↦
        rw other
          (elim (ℕ_discrete j i) [ yes e ↦ rw (e, other, ==_refl) | no ne ↦ rw (==_ne j i ne) ])
  ]
    where
      update_parent :
          (i : ℕ) (t : Table) (j : ℕ)
          → is_child_of p (t i) ≡ true
          → (update t i (record (t i) { parent = some init }) j).parent
            ≡ (if j == i && is_child_of p (t j) then some init else (t j).parent)
      update_parent i t j child = elim (ℕ_discrete j i) [
        | yes e ↦ rw (e, child, ==_refl)
        | no ne ↦ rw (==_ne j i ne)
      ]

  reparent_loop_before :
      (k i : ℕ) (t : Table) (j : ℕ)
      → j < i
      → (reparent_loop chan_of me p init k i t j).parent ≡ (t j).parent
  unfolding reparent_loop
  reparent_loop_before zero i t j h = refl
  reparent_loop_before (suc k) i t j h =
      reparent_loop_before k (i + 1) _ j (omega arith)
      ∙ reparent_round_parent i t j
      ∙ rw (==_ne j i (omega arith))

  reparent_loop_parent :
      (k i : ℕ) (t : Table) (j : ℕ)
      → i ≤ j
      → j < i + k
      → (reparent_loop chan_of me p init k i t j).parent
        ≡ (if is_child_of p (t j) then some init else (t j).parent)
  unfolding reparent_loop
  reparent_loop_parent zero i t j lo hi = absurd (omega arith)
  reparent_loop_parent (suc k) i t j lo hi = elim (ℕ_discrete j i) [
    | yes e ↦ rw e (
        reparent_loop_before k (i + 1) _ i (omega arith)
        ∙ reparent_round_parent i t i
        ∙ rw (==_refl i))
    | no ne ↦
        let kept = ◌∙◌ {c = (t j).parent} (reparent_round_parent i t j) (rw (==_ne j i ne)) in
        reparent_loop_parent k (i + 1) _ j (omega arith) (omega arith)
        ∙ ap (λ o. if points_to p o then some init else o) kept
  ]

  -- `reparent` gives every child of `p` to init, and changes no other parent.
  pub reparent-parent :
      (t : Table) (j : ℕ)
      → j < nproc
      → (reparent chan_of me p init t j).parent
        ≡ (if is_child_of p (t j) then some init else (t j).parent)
  unfolding reparent
  reparent-parent t j h = reparent_loop_parent nproc 0 t j (omega arith) (omega arith)

wakeup_parent_keeps :
    (chan_of : ℕ → ℕ) (me : ℕ) (o : Option ℕ) (t : Table) (j : ℕ)
    → (wakeup_parent chan_of me o t j).parent ≡ (t j).parent
wakeup_parent_keeps chan_of me none t j = wakeup_keeps_parent me 0 t j
wakeup_parent_keeps chan_of me (some i) t j = wakeup_keeps_parent me (chan_of i) t j

-- A process other than init that exits becomes a zombie with its status, and its children, and
-- they alone, get a new parent, init.
pub exit-orphans :
    (chan_of : ℕ → ℕ) (me : ℕ) (status : ℤ) (s : System)
    → me ≢ s.initproc
    → (s' : System) × (exit chan_of me status s ≡ some s')
      × ((s'.procs me).state ≡ zombie)
      × ((s'.procs me).xstate ≡ status)
      × ((j : ℕ)
          → j < nproc
          → (s'.procs j).parent
            ≡ (if is_child_of me (s.procs j) then some s.initproc else (s.procs j).parent))
unfolding exit
exit-orphans chan_of me status s ne =
    let t = reparent chan_of me me s.initproc s.procs in
    let t' = wakeup_parent chan_of me (t me).parent t in
    let after = update t' me (record (t' me) { xstate = status; state = zombie }) in
    (
      record s { procs = after },
      rw (==_ne me s.initproc ne),
      ap (λ (p : Proc). p.state) (update_self t' me _),
      ap (λ (p : Proc). p.xstate) (update_self t' me _),
      λ j hj.
          zombie_parent t' me status j
          ∙ wakeup_parent_keeps chan_of me (t me).parent t j
          ∙ reparent-parent chan_of me me s.initproc s.procs j hj,
    )
  where
    zombie_parent :
        (t : Table) (me : ℕ) (status : ℤ) (j : ℕ)
        → (update t me (record (t me) { xstate = status; state = zombie }) j).parent ≡ (t j).parent
    zombie_parent t me status j = elim (ℕ_discrete j me) [
      | yes e ↦ rw (e, ==_refl)
      | no ne ↦ rw (==_ne j me ne)
    ]
