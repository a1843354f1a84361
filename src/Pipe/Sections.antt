-- ===== src/Pipe/Sections.antt =====
-- What one section does to the bytes in the pipe.
use mathlib.Core.List.{append-nil, append_assoc}
use csse332lab.Base.{
  ℕ, zero, suc, ◌+◌, ◌≤◌, ◌<◌, ◌≡◌, refl, sym, ◌∙◌, ap, inl, inr, Bool, not, ◌&&◌, ◌||◌, Option,
  none, some, List, [], ◌∷◌, ◌++◌, Bool-cases, Option-cases, length,
}
use csse332lab.Pipe.{
  Pipe, put, skip, is_full, is_empty, front, WriteEnd, write_section, read_loop, read_section,
}
use csse332lab.Pipe.Ring.{IsValid, queue, put-IsValid, skip-IsValid, queue-put, queue-skip}

-- The threads that sleep are no part of validity.
kept :
    {p : Pipe} {r w : ℕ} → IsValid p → IsValid (record p { read_sleepers = r; write_sleepers = w })
kept v = record { read_word = v.read_word; write_word = v.write_word; bounded = v.bounded }

module _ (killed : ℕ → Bool) (copyin : ℕ → Option ℕ) where
  -- A section of `pipewrite` keeps the ring valid, and adds the bytes that it puts at the end.
  pub write_section-queue :
      (k i : ℕ) (p : Pipe)
      → IsValid p
      → let (chs, end, q) = write_section killed copyin k i p in
        IsValid q × (queue q ≡ queue p ++ chs)
  unfolding write_section
  write_section-queue zero i p v = (kept v, sym (append-nil (queue p)))
  write_section-queue (suc k) i p v = elim (Bool-cases (not p.readopen || killed i)) [
    | inl stop ↦ rw stop (v, sym (append-nil (queue p)))
    | inr on ↦ rw on (elim (Bool-cases (is_full p)) [
      | inl full ↦ rw full (kept v, sym (append-nil (queue p)))
      | inr room ↦ rw room (elim (Option-cases (copyin i)) [
        | inl bad ↦ rw bad (kept v, sym (append-nil (queue p)))
        | inr (ch, e) ↦
            let ih = write_section-queue k (i + 1) (put ch p) (put-IsValid ch p v room) in
            rw e (ih.0, ih.1 ∙ rw (queue-put ch p v room, append_assoc))
      ])
    ])
  ]

-- The copying loop takes bytes off the front.
pub read_loop-queue :
    (copyout : ℕ → Bool) (k i : ℕ) (p : Pipe)
    → IsValid p
    → let (chs, n, q) = read_loop copyout k i p in IsValid q × (queue p ≡ chs ++ queue q)
unfolding read_loop
read_loop-queue copyout zero i p v = (v, refl)
read_loop-queue copyout (suc k) i p v = elim (Bool-cases (is_empty p)) [
  | inl empty ↦ rw empty (v, refl)
  | inr more ↦
      let w = skip-IsValid p v more in
      let ih = read_loop-queue copyout k (i + 1) (skip p) w in
      rw more (elim (Bool-cases (copyout i)) [
        | inl good ↦ rw good (ih.0, queue-skip p v more ∙ ap (λ l. front p ∷ l) ih.1)
        | inr bad ↦ rw bad (w, queue-skip p v more)
      ])
]

-- A section of `piperead` keeps the ring valid, and takes its bytes off the front.
pub read_section-queue :
    (killed : Bool) (copyout : ℕ → Bool) (n : ℕ) (p : Pipe)
    → IsValid p
    → let (chs, end, q) = read_section killed copyout n p in IsValid q × (queue p ≡ chs ++ queue q)
unfolding read_section
read_section-queue killed copyout n p v = elim (Bool-cases (is_empty p && p.writeopen)) [
  | inl wait ↦ rw wait (elim (Bool-cases killed) [
    | inl dead ↦ rw dead (v, refl)
    | inr alive ↦ rw alive (kept v, refl)
  ])
  | inr go ↦ let ran = read_loop-queue copyout n 0 p v in rw go (kept ran.0, ran.1)
]

-- `chs` are the bytes of the caller's memory from the offset `i` on.
abbrev pub CopiedFrom : (ℕ → Option ℕ) → ℕ → List ℕ → Type 0
CopiedFrom copyin i [] = Unit
CopiedFrom copyin i (ch ∷ chs) = (copyin i ≡ some ch) × CopiedFrom copyin (i + 1) chs

-- What an end says of the number of bytes that were put since the offset `i`.
abbrev pub Counted : ℕ → ℕ → List ℕ → WriteEnd → Type 0
Counted i k chs (WriteEnd.returned none) = Unit
Counted i k chs (WriteEnd.returned (some j)) = (j ≡ i + length chs) × (j ≤ i + k)
Counted i k chs (WriteEnd.sleeping j) = (j ≡ i + length chs) × (j < i + k)
