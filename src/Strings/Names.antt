-- ===== src/Strings/Names.antt =====
-- Fixed-size names: what `strncpy` and `safestrcpy` leave, and what `strncmp` makes of it.
use native.Mathlib.Nat.{add-zero}
use csse332lab.Base.{
  ℕ, zero, suc, ◌+◌, ◌≤◌, ◌<◌, ◌≡◌, refl, ◌∙◌, ap, ◌⊎◌, inl, inr, arith, ◌==◌, Bool-cases, ==_refl,
  update, update_self, update_ne, pos,
}
use csse332lab.Strings.{Bytes, strncmp, zero_fill, strncpy, safestrcpy_loop, safestrcpy}

-- Two ranges of `n` bytes that do not meet.
abbrev pub Apart : ℕ → ℕ → ℕ → Type 0
Apart s t n = (s + n ≤ t) ⊎ (t + n ≤ s)

zero_fill_others :
    (s n : ℕ) (mem : Bytes) (b : ℕ) → (b < s) ⊎ (s + n ≤ b) → zero_fill s n mem b ≡ mem b
unfolding zero_fill
zero_fill_others s zero mem b out = refl
zero_fill_others s (suc n) mem b out =
    zero_fill_others (s + 1) n (update mem s 0) b (ground arith)
    ∙ update_ne mem s b 0 (ground arith)

-- `strncpy` writes nowhere but in its `n` bytes.
pub strncpy_others :
    (s t n : ℕ) (mem : Bytes) (b : ℕ) → (b < s) ⊎ (s + n ≤ b) → strncpy s t n mem b ≡ mem b
unfolding strncpy
strncpy_others s t zero mem b out = refl
strncpy_others s t (suc n) mem b out =
    let here_same = update_ne mem s b (mem t) (ground arith) in
    elim (Bool-cases (mem t == 0)) [
      | inl nul ↦ rw nul (zero_fill_others (s + 1) n _ b (ground arith) ∙ here_same)
      | inr more ↦ rw more (strncpy_others (s + 1) (t + 1) n _ b (ground arith) ∙ here_same)
    ]

-- A name that `strncpy` has put into a field of `n` bytes apart from it compares equal to what it
-- was copied from, whether or not it fills the field.
pub strncmp-strncpy :
    (s t n : ℕ) (mem : Bytes) → Apart s t n → strncmp t s n (strncpy s t n mem) ≡ pos 0
unfolding strncmp strncpy
strncmp-strncpy s t zero mem apart = refl
strncmp-strncpy s t (suc n) mem apart =
    let wrote = update mem s (mem t) in
    let source : wrote t ≡ mem t = update_ne mem s t (mem t) (ground arith) in
    elim (Bool-cases (mem t == 0)) [
      | inl nul ↦
          let zero_t : zero_fill (s + 1) n wrote t ≡ 0 =
            zero_fill_others (s + 1) n wrote t (ground arith) ∙ source ∙ ground arith in
          let zero_s : zero_fill (s + 1) n wrote s ≡ 0 =
            zero_fill_others (s + 1) n wrote s (inl (omega arith))
            ∙ update_self mem s (mem t)
            ∙ ground arith in
          rw (nul, zero_t, zero_s) refl
      | inr more ↦
          let rest = strncpy (s + 1) (t + 1) n wrote in
          let same_t : rest t ≡ mem t =
            strncpy_others (s + 1) (t + 1) n wrote t (ground arith) ∙ source in
          let same_s : rest s ≡ mem t =
            strncpy_others (s + 1) (t + 1) n wrote s (inl (omega arith))
            ∙ update_self mem s (mem t) in
          rw (more, same_t, same_s, more, ==_refl)
            (strncmp-strncpy (s + 1) (t + 1) n wrote (ground arith))
    ]

safestrcpy_loop-ends :
    (s t n : ℕ) (mem : Bytes) → (m : ℕ) × (m ≤ n) × (safestrcpy_loop s t n mem (s + m) ≡ 0)
unfolding safestrcpy_loop
safestrcpy_loop-ends s t zero mem = (0, omega arith, rw add-zero (update_self mem s 0))
safestrcpy_loop-ends s t (suc n) mem = elim (Bool-cases (mem t == 0)) [
  | inl nul ↦ (1, omega arith, rw nul (update_self (update mem s (mem t)) (s + 1) 0))
  | inr more ↦
      let (m, le, e) = safestrcpy_loop-ends (s + 1) (t + 1) n (update mem s (mem t)) in
      (
        m + 1,
        omega arith,
        rw more (
            ap (safestrcpy_loop (s + 1) (t + 1) n (update mem s (mem t))) {x = s + (m + 1)}
              {y = s + 1 + m} (omega arith)
            ∙ e),
      )
]

-- The copy that `safestrcpy` leaves in a field of `n` bytes ends in a zero byte in that field.
pub safestrcpy-ends :
    (s t n : ℕ) (mem : Bytes) → 0 < n → (m : ℕ) × (m < n) × (safestrcpy s t n mem (s + m) ≡ 0)
unfolding safestrcpy
safestrcpy-ends s t zero mem h = absurd (omega arith)
safestrcpy-ends s t (suc n) mem h =
    let (m, le, e) = safestrcpy_loop-ends s t n mem in (m, omega arith, e)
