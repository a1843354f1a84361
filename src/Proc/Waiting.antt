-- ===== src/Proc/Waiting.antt =====
-- What a round of `wait` finds and does.
use native.Mathlib.Decide.{ℕ_discrete}
use csse332lab.Base.{
  ℕ, zero, suc, ◌+◌, ◌<◌, ◌≡◌, ◌≢◌, refl, ◌∙◌, sym, subst, inl, inr, Bool, true, false, not, ◌||◌,
  arith, if◌then◌else◌, Bool-cases, update, update_self, update_ne,
}
use csse332lab.Proc.{
  Table, is_zombie, nproc, freeproc, is_child_of, Scan, found, nothing, wait_scan, wait_round,
  WaitEnd, reaped, failed, asleep, sleep_enter,
}

-- No child among the first `n` entries is a zombie.
abbrev NoZombie : (me : ℕ) → Table → ℕ → Type 0
NoZombie me t n = (j : ℕ) → j < n → is_child_of me (t j) ≡ true → is_zombie (t j).state ≡ false

abbrev NoChild : (me : ℕ) → Table → ℕ → Type 0
NoChild me t n = (j : ℕ) → j < n → is_child_of me (t j) ≡ false

-- What the scan knows of the first `n` entries: that there is a child or none.
data Passed (me : ℕ) (t : Table) (n : ℕ) : Bool → Type 0 where
  with_child : (i : ℕ) → i < n → is_child_of me (t i) ≡ true → NoZombie me t n → Passed me t n true
  without : NoChild me t n → Passed me t n false

-- What a scan of the whole table says.
data Scanned (me : ℕ) (t : Table) : Scan → Type 0 where
  at_zombie :
      (i : ℕ)
      → i < nproc
      → is_child_of me (t i) ≡ true
      → is_zombie (t i).state ≡ true
      → Scanned me t (found i)
  at_end : (havekids : Bool) → Passed me t nproc havekids → Scanned me t (nothing havekids)

module _ (me : ℕ) (t : Table) where
  NoZombie-suc :
      (i : ℕ)
      → NoZombie me t i
      → (is_child_of me (t i) ≡ true → is_zombie (t i).state ≡ false)
      → NoZombie me t (i + 1)
  NoZombie-suc i h last j hj c = elim (ℕ_discrete j i) [
    | yes e ↦ rw e (last (rw (sym e) c))
    | no ne ↦ h j (omega arith) c
  ]

  NoChild-suc : (i : ℕ) → NoChild me t i → is_child_of me (t i) ≡ false → NoChild me t (i + 1)
  NoChild-suc i h last j hj = elim (ℕ_discrete j i) [
    | yes e ↦ rw e last
    | no ne ↦ h j (omega arith)
  ]

  -- Past a child that is no zombie, and past another process.
  Passed-child :
      (i : ℕ) (b : Bool)
      → Passed me t i b
      → is_child_of me (t i) ≡ true
      → is_zombie (t i).state ≡ false
      → Passed me t (i + 1) true
  Passed-child i _ (with_child c hc isc h) child z =
      with_child i (omega arith) child (NoZombie-suc i h (λ _. z))
  Passed-child i _ (without h) child z =
      with_child i (omega arith) child
        (NoZombie-suc i (λ j hj c. absurd (true_not_false (sym c ∙ h j hj))) (λ _. z))
    where
      true_not_false : true ≢ false
      true_not_false = ground arith

  Passed-other :
      (i : ℕ) (b : Bool) → Passed me t i b → is_child_of me (t i) ≡ false → Passed me t (i + 1) b
  Passed-other i _ (with_child c hc isc h) other =
      with_child c (omega arith) isc (NoZombie-suc i h (λ child. ground arith))
  Passed-other i _ (without h) other = without (NoChild-suc i h other)

  wait_scan-Scanned :
      (k i : ℕ) (b : Bool) → i + k ≡ nproc → Passed me t i b → Scanned me t (wait_scan me t k i b)
  unfolding wait_scan
  wait_scan-Scanned zero i b e h = at_end b (subst (λ n. Passed me t n b) (omega arith) h)
  wait_scan-Scanned (suc k) i b e h = elim (Bool-cases (is_child_of me (t i))) [
    | inl child ↦ elim (Bool-cases (is_zombie (t i).state)) [
      | inl z ↦ rw (child, z) (at_zombie i (omega arith) child z)
      | inr z ↦
          rw (child, z)
            (wait_scan-Scanned k (i + 1) true (omega arith) (Passed-child i b h child z))
    ]
    | inr other ↦ rw other (wait_scan-Scanned k (i + 1) b (omega arith) (Passed-other i b h other))
  ]

-- How a round of `wait` may end, with the table behind it.
pub data Waited (me chan : ℕ) (copied : Bool) (t : Table) (r : WaitEnd × Table) : Type 0 where
  reaps :
      (i : ℕ)
      → i < nproc
      → is_child_of me (t i) ≡ true
      → is_zombie (t i).state ≡ true
      → copied ≡ true
      → r.0 ≡ reaped (t i).pid
      → r.1 i ≡ freeproc (t i)
      → ((j : ℕ) → j ≢ i → r.1 j ≡ t j)
      → Waited me chan copied t r
  uncopied :
      (i : ℕ)
      → i < nproc
      → is_child_of me (t i) ≡ true
      → is_zombie (t i).state ≡ true
      → copied ≡ false
      → r ≡ (failed, t)
      → Waited me chan copied t r
  in_vain : NoChild me t nproc → r ≡ (failed, t) → Waited me chan copied t r
  gives_up :
      NoZombie me t nproc → (t me).killed ≡ true → r ≡ (failed, t) → Waited me chan copied t r
  sleeps :
      (i : ℕ)
      → i < nproc
      → is_child_of me (t i) ≡ true
      → NoZombie me t nproc
      → (t me).killed ≡ false
      → r ≡ (asleep, sleep_enter me chan t)
      → Waited me chan copied t r

-- A round of `wait` reaps a child that is a zombie if there is one: it returns its pid and frees
-- its entry alone, or fails without a change where the status cannot be copied out. It fails for a
-- process without a child and for one that is killed, and sleeps otherwise.
pub wait_round-Waited :
    (me chan : ℕ) (copied : Bool) (t : Table)
    → Waited me chan copied t (wait_round me chan copied t)
unfolding wait_round
wait_round-Waited me chan copied t =
    decided (wait_scan me t nproc 0 false)
      (wait_scan-Scanned me t nproc 0 false (omega arith) (without (λ j h. absurd (omega arith))))
  where
    decided :
        (found_by : Scan)
        → Scanned me t found_by
        → Waited me chan copied t (elim found_by [
          | found i ↦
              if not copied then (failed, t) else (reaped (t i).pid, update t i (freeproc (t i)))
          | nothing havekids ↦
              if not havekids || (t me).killed then (failed, t) else (asleep, sleep_enter me chan t)
        ])
    decided _ (at_zombie i hi child z) = elim (Bool-cases copied) [
      | inl c ↦
          rw c (reaps i hi child z refl refl (update_self t i _) (λ j ne. update_ne t i j _ ne))
      | inr c ↦ rw c (uncopied i hi child z refl refl)
    ]
    decided _ (at_end _ (without none_of)) = in_vain none_of refl
    decided _ (at_end _ (with_child i hi child h)) = elim (Bool-cases (t me).killed) [
      | inl k ↦ gives_up h k (rw k)
      | inr k ↦ sleeps i hi child h k (rw k)
    ]
