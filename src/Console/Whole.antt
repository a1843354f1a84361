-- ===== src/Console/Whole.antt =====
-- What a reader gets from one section: no more than a line.
use csse332lab.Base.{
  ℕ, zero, suc, ◌+◌, ◌-◌, ◌%◌, ◌≤◌, ◌≡◌, ◌≢◌, refl, inl, inr, Bool, none, some, List, [], ◌∷◌, ◌==◌,
  Bool-cases, arith, length,
}
use csse332lab.Console.{
  Cons, input_buf_size, newline, ctrl_d, add_uint, ReadEnd, returned, sleeping, read_section,
}

-- A newline is the last of the bytes, and ^D is none of them.
abbrev pub AtMostOneLine : List ℕ → Type 0
AtMostOneLine [] = Unit
AtMostOneLine (c ∷ cs) = (c ≢ ctrl_d) × (c ≡ newline → cs ≡ []) × AtMostOneLine cs

-- The count that is returned, or is still to come, agrees with the number of bytes.
abbrev pub CountedBy : (target n got : ℕ) → ReadEnd → Type 0
CountedBy target n got (returned (some total)) = total + n ≡ target + got
CountedBy target n got (returned _) = Unit
CountedBy target n got (sleeping left) = left + got ≡ n

module _ (killed : Bool) (copyout : ℕ → Bool) (target : ℕ) where
  -- A section of `consoleread` with `n` of `target` bytes to go copies out at most one line and no
  -- ^D; the count that it returns, or goes on from, is that of the bytes copied so far.
  pub read_section-AtMostOneLine :
      (n : ℕ) (s : Cons)
      → n ≤ target
      → let (chs, end, after) = read_section killed copyout target n s in
        AtMostOneLine chs × CountedBy target n (length chs) end
  unfolding read_section
  read_section-AtMostOneLine zero s h = (tt, omega arith)
  read_section-AtMostOneLine (suc k) s h = elim (Bool-cases (s.r == s.w)) [
    | inl empty ↦ rw empty (elim (Bool-cases killed) [
      | inl dead ↦ rw dead (tt, tt)
      | inr alive ↦ rw alive (tt, omega arith)
    ])
    | inr more ↦ rw more (elim (Bool-cases (s.buf (s.r % input_buf_size) == ctrl_d)) [
      | inl d ↦ rw d (tt, omega arith)
      | inr d ↦ rw d (elim (Bool-cases (copyout (target - suc k))) [
        | inr bad ↦ rw bad (tt, omega arith)
        | inl good ↦ rw good (elim (Bool-cases (s.buf (s.r % input_buf_size) == newline)) [
          | inl nl ↦ rw nl ((ground arith, (λ e. refl), tt), omega arith)
          | inr other ↦
              let ih =
                read_section-AtMostOneLine k (record s { r = add_uint s.r 1 }) (omega arith) in
              rw other (
                (ground arith, (λ e. ground arith), ih.0),
                counted _ (read_section killed copyout target k (record s { r = add_uint s.r 1 })).1
                    ih.1,
              )
        ])
      ])
    ])
  ]
    where
      counted :
          (m : ℕ) (end : ReadEnd) → CountedBy target k m end → CountedBy target (suc k) (suc m) end
      counted m (returned (some total)) e = omega arith
      counted m (returned none) e = tt
      counted m (sleeping left) e = omega arith
