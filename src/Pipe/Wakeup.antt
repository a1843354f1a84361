-- ===== src/Pipe/Wakeup.antt =====
-- Which threads may be asleep on the channels of a pipe.
use mathlib.Core.Bool.{false≢true}
use native.Mathlib.Decide.{ℕ_discrete}
use csse332lab.Base.{
  ℕ, zero, suc, ◌+◌, ◌<◌, ◌≡◌, refl, sym, ◌∙◌, inl, inr, Bool, true, false, not, ◌&&◌, ◌||◌, Option,
  none, some, arith, Bool-cases, Option-cases,
}
use csse332lab.Pipe.{
  Pipe, put, skip, is_full, is_empty, WriteEnd, write_section, read_loop, read_section, pipeclose,
}
use csse332lab.Pipe.Ring.{IsValid}

-- A reader sleeps only at an empty pipe that may still be written, a writer only at a full one that
-- may still be read.
pub record Awake (p : Pipe) : Type 0 where
  pub readers : 0 < p.read_sleepers → (is_empty p ≡ true) × (p.writeopen ≡ true)
  pub writers : 0 < p.write_sleepers → (is_full p ≡ true) × (p.readopen ≡ true)

not_stopped : (up dead : Bool) → up ≡ true → dead ≡ false → (not up || dead) ≡ false
not_stopped up dead e f = ground arith

put_keeps : (ch : ℕ) (p : Pipe) → p.readopen ≡ true → (put ch p).readopen ≡ true
unfolding put
put_keeps ch p h = h

put_keeps_writers : (ch : ℕ) (p : Pipe) → (put ch p).write_sleepers ≡ p.write_sleepers
unfolding put
put_keeps_writers ch p = refl

module _ (killed : ℕ → Bool) (copyin : ℕ → Option ℕ) where
  -- The loop of a writer that is not killed, with nothing known of the readers.
  write_section-Awake_alive :
      (k i : ℕ) (p : Pipe)
      → ((j : ℕ) → i < suc j → killed j ≡ false)
      → p.readopen ≡ true
      → (0 < p.write_sleepers → (is_full p ≡ true) × (p.readopen ≡ true))
      → Awake (write_section killed copyin k i p).2
  unfolding write_section
  write_section-Awake_alive zero i p alive up w = record {
    readers = λ h. absurd (omega arith);
    writers = w;
  }
  write_section-Awake_alive (suc k) i p alive up w =
      let on = not_stopped p.readopen (killed i) up (alive i (omega arith)) in
      elim (Bool-cases (is_full p)) [
        | inl full ↦
            rw (on, full)
              (record { readers = λ h. absurd (omega arith); writers = λ h. (full, up) })
        | inr room ↦
            rw (on, room)
              (elim (Option-cases (copyin i)) [
                | inl bad ↦ rw bad (record { readers = λ h. absurd (omega arith); writers = w })
                | inr (ch, e) ↦ rw e (
                    write_section-Awake_alive k (i + 1) (put ch p) (λ j h. alive j (omega arith))
                      (put_keeps ch p up)
                      (λ h.
                        absurd
                          (false≢true (sym room ∙ (w (omega (arith, put_keeps_writers ch p))).0))))
              ])
      ]

  alive_from :
      (i : ℕ) (up : Bool)
      → ((j : ℕ) → i < j → killed j ≡ false)
      → (not up || killed i) ≡ false
      → (j : ℕ) → i < suc j
      → killed j ≡ false
  alive_from i up alive on j h = elim (ℕ_discrete j i) [
    | yes e ↦ rw e (ground arith)
    | no ne ↦ alive j (omega arith)
  ]

  -- At a pipe where no reader sleeps unless it is empty and open for writing, and no writer unless
  -- it is full and open for reading, a section of `pipewrite` that finds its thread killed, if at
  -- all, before the first byte leaves it so.
  pub write_section-Awake :
      (k i : ℕ) (p : Pipe)
      → ((j : ℕ) → i < j → killed j ≡ false)
      → Awake p
      → Awake (write_section killed copyin k i p).2
  unfolding write_section
  write_section-Awake zero i p alive a = record {
    readers = λ h. absurd (omega arith);
    writers = a.writers;
  }
  write_section-Awake (suc k) i p alive a = elim (Bool-cases (not p.readopen || killed i)) [
    | inl stop ↦ rw stop a
    | inr on ↦
        write_section-Awake_alive (suc k) i p (alive_from i p.readopen alive on) (ground arith)
          a.writers
  ]

read_loop_keeps :
    (copyout : ℕ → Bool) (k i : ℕ) (p : Pipe)
    → (read_loop copyout k i p).2.read_sleepers ≡ p.read_sleepers
unfolding read_loop skip
read_loop_keeps copyout zero i p = refl
read_loop_keeps copyout (suc k) i p = ground (arith, read_loop_keeps copyout k (i + 1) (skip p))

-- A section of `piperead` leaves nobody asleep in vain where nobody was.
pub read_section-Awake :
    (killed : Bool) (copyout : ℕ → Bool) (n : ℕ) (p : Pipe)
    → Awake p
    → Awake (read_section killed copyout n p).2
unfolding read_section
read_section-Awake killed copyout n p a = elim (Bool-cases (is_empty p && p.writeopen)) [
  | inl wait ↦ rw wait (elim (Bool-cases killed) [
    | inl dead ↦ rw dead a
    | inr alive ↦ rw alive (record { readers = λ h. ground arith; writers = a.writers })
  ])
  | inr busy ↦ rw busy (record {
    readers = λ h. absurd (ground (arith, a.readers, read_loop_keeps copyout n 0 p));
    writers = λ h. absurd (omega arith);
  })
]

-- So does a close.
pub pipeclose-Awake : (writable : Bool) (p : Pipe) → Awake p → Awake (pipeclose writable p).0
unfolding pipeclose
pipeclose-Awake true p a = record { readers = λ h. absurd (omega arith); writers = a.writers }
pipeclose-Awake false p a = record { readers = a.readers; writers = λ h. absurd (omega arith) }

-- Where a writer has put a byte into an empty pipe and then finds itself killed, it returns -1
-- with the readers still asleep at a pipe that is not empty.
pub write_section_killed :
    (killed : ℕ → Bool) (copyin : ℕ → Option ℕ) (k i ch : ℕ) (p : Pipe)
    → IsValid p
    → p.readopen ≡ true
    → is_empty p ≡ true
    → killed i ≡ false
    → copyin i ≡ some ch
    → killed (i + 1) ≡ true
    → let (chs, end, q) = write_section killed copyin (suc (suc k)) i p in
      (end ≡ WriteEnd.returned none) × (q.read_sleepers ≡ p.read_sleepers) × (is_empty q ≡ false)
unfolding write_section put
write_section_killed killed copyin k i ch p v up empty alive e dead = ground arith
