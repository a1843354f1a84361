-- ===== src/Console/Reading.antt =====
-- A section of `consoleread` is a read of the line.
use native.Mathlib.Decide.{ℕ_discrete}
use csse332lab.Base.{
  ℕ, zero, suc, ◌+◌, ◌-◌, ◌%◌, ◌≡◌, ◌≢◌, refl, ap, sym, subst, inl, inr, Bool, true, none, List, [],
  ◌∷◌, ltb, ◌==◌, ==_refl, ==_ne, Bool-cases, arith,
}
use csse332lab.Console.{
  Cons, input_buf_size, newline, ctrl_d, add_uint, sub_uint, ReadEnd, returned, sleeping,
  read_section,
}
use csse332lab.Console.Line.{take_line}
use csse332lab.Console.Ring.{segment, view, IsValid}

taken-IsValid : (s : Cons) → IsValid s → s.r ≢ s.w → IsValid (record s { r = add_uint s.r 1 })
taken-IsValid s v ne = record {
  r_word = omega arith;
  w_word = v.w_word;
  e_word = v.e_word;
  in_order = omega arith;
  bounded = omega arith;
  one_line = v.one_line;
}

ready_none : (s : Cons) → IsValid s → s.r ≡ s.w → (view s).ready ≡ []
ready_none s v e =
    let none_left : sub_uint s.w s.r ≡ 0 = omega arith in ap (segment s.buf s.r) none_left

ready_some :
    (s : Cons)
    → IsValid s
    → s.r ≢ s.w
    → (view s).ready ≡ s.buf (s.r % input_buf_size) ∷ (view (record s { r = add_uint s.r 1 })).ready
ready_some s v ne =
    let more : sub_uint s.w s.r ≡ suc (sub_uint s.w (add_uint s.r 1)) = omega arith in
    ap (segment s.buf s.r) more

asleep-IsValid : (s : Cons) (n : ℕ) → IsValid s → IsValid (record s { sleepers = n })
asleep-IsValid s n v = record {
  r_word = v.r_word;
  w_word = v.w_word;
  e_word = v.e_word;
  in_order = v.in_order;
  bounded = v.bounded;
  one_line = v.one_line;
}

put_back : (s : Cons) → IsValid s → record s { r = sub_uint (add_uint s.r 1) 1 } ≡ s
put_back s v =
    ap (λ r. record s { r = r }) {x = sub_uint (add_uint s.r 1) 1} {y = s.r} (omega arith)

-- A section that started at `s` ends as the read `l` of the line; the line that is edited stays.
pub record ReadsAs (s : Cons) (got : List ℕ × ReadEnd × Cons) (l : List ℕ × ReadEnd × List ℕ)
    : Type 0 where
  pub valid : IsValid got.2
  pub typed : (view got.2).typed ≡ (view s).typed
  pub same : (got.0, got.1, (view got.2).ready) ≡ l

put_back-ReadsAs :
    (s : Cons) (end : ReadEnd)
    → IsValid s
    → s.r ≢ s.w
    → ReadsAs s
        ([], end, record s { r = sub_uint (add_uint s.r 1) 1 })
        ([], end, s.buf (s.r % input_buf_size) ∷ (view (record s { r = add_uint s.r 1 })).ready)
put_back-ReadsAs s end v ne =
    subst
      (λ t.
        ReadsAs s ([], end, t)
          ([], end, s.buf (s.r % input_buf_size) ∷ (view (record s { r = add_uint s.r 1 })).ready))
      (sym (put_back s v))
      (record { valid = v; typed = refl; same = ap (λ l. ([], end, l)) (ready_some s v ne) })

module _ (killed : Bool) (copyout : ℕ → Bool) (target : ℕ) where
  -- A section of `consoleread` on a valid ring takes what `take_line` takes off the ready bytes,
  -- ends in the same way, and leaves a valid ring and the line that is edited.
  pub read_section-ReadsAs :
      (n : ℕ) (s : Cons)
      → IsValid s
      → ReadsAs s
          (read_section killed copyout target n s)
          (take_line killed copyout target n (view s).ready)
  unfolding read_section take_line
  read_section-ReadsAs zero s v = record { valid = v; typed = refl; same = refl }
  read_section-ReadsAs (suc k) s v = elim (ℕ_discrete s.r s.w) [
    | yes e ↦
        let test : (s.r == s.w) ≡ true = rw e (==_refl s.w) in
        rw (ready_none s v e, test)
          (elim (Bool-cases killed) [
            | inl h ↦ rw h (record {
              valid = v;
              typed = refl;
              same = ap (λ l. ([], returned none, l)) (ready_none s v e);
            })
            | inr h ↦ rw h (record {
              valid = asleep-IsValid s (s.sleepers + 1) v;
              typed = refl;
              same = ap (λ l. ([], sleeping (suc k), l)) (ready_none s v e);
            })
          ])
    | no ne ↦
        let w = taken-IsValid s v ne in
        let ih = read_section-ReadsAs k (record s { r = add_uint s.r 1 }) w in
        rw (==_ne s.r s.w ne, ready_some s v ne)
          (elim (Bool-cases (s.buf (s.r % input_buf_size) == ctrl_d)) [
            | inl d ↦ rw d (elim (Bool-cases (ltb (suc k) target)) [
              | inl more ↦ rw more (put_back-ReadsAs s _ v ne)
              | inr no_bytes ↦ rw no_bytes (record { valid = w; typed = refl; same = refl })
            ])
            | inr d ↦ rw d (elim (Bool-cases (copyout (target - suc k))) [
              | inr bad ↦ rw bad (record { valid = w; typed = refl; same = refl })
              | inl good ↦ rw good (elim (Bool-cases (s.buf (s.r % input_buf_size) == newline)) [
                | inl nl ↦ rw nl (record { valid = w; typed = refl; same = refl })
                | inr other ↦ rw other (record {
                  valid = ih.valid;
                  typed = ih.typed;
                  same =
                      ap
                        (λ (r : List ℕ × ReadEnd × List ℕ).
                          (s.buf (s.r % input_buf_size) ∷ r.0, r.1, r.2))
                        ih.same;
                })
              ])
            ])
          ])
  ]
