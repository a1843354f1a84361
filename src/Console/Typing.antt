-- ===== src/Console/Typing.antt =====
-- `consoleintr` edits the line.
use native.Mathlib.Decide.{ℕ_discrete}
use csse332lab.Base.{
  ℕ, zero, suc, ◌+◌, ◌%◌, ◌^◌, ◌≤◌, ◌<◌, ◌≡◌, ◌≢◌, refl, ◌∙◌, ap, ap₂, sym, subst, inl, inr, true,
  not, ◌&&◌, ◌||◌, List, [], ◌∷◌, ◌++◌, ltb, ◌==◌, if◌then◌else◌, ==_refl, ==_ne, Bool-cases, arith,
  length, update, All, All-append, All-append_left,
}
use csse332lab.Console.{
  Cons, input_buf_size, newline, ctrl_d, ctrl_h, ctrl_p, ctrl_u, add_uint, sub_uint, kill_line,
  store, consoleintr,
}
use csse332lab.Console.Line.{Line, accept, append, drop_last, drop_last-append}
use csse332lab.Console.Ring.{
  segment, view, IsValid, length-segment, segment-outside, segment-store, segment-append,
  segment-last,
}

-- The state of the console after a character shows the line `l`.
pub record Shows (s : Cons) (l : Line) : Type 0 where
  pub valid : IsValid s
  pub same : view s ≡ l

-- One byte back: the last byte of the line is gone.
abbrev erased : (s : Cons) → Cons
erased s = record s { e = sub_uint s.e 1 }

typed_last :
    (s : Cons)
    → IsValid s
    → s.e ≢ s.w
    → (view s).typed
      ≡ segment s.buf s.w (sub_uint (sub_uint s.e 1) s.w)
        ++ s.buf (sub_uint s.e 1 % input_buf_size) ∷ []
typed_last s v ne =
    let more : sub_uint s.e s.w ≡ suc (sub_uint (sub_uint s.e 1) s.w) = omega arith in
    ap (segment s.buf s.w) more
    ∙ segment-last s.buf s.w (sub_uint (sub_uint s.e 1) s.w) (sub_uint s.e 1) v.w_word (omega arith)

erased-Shows :
    (s : Cons)
    → IsValid s
    → s.e ≢ s.w
    → Shows (erased s) (record { ready = (view s).ready; typed = drop_last (view s).typed })
erased-Shows s v ne = record {
  valid = record {
    r_word = v.r_word;
    w_word = v.w_word;
    e_word = omega arith;
    in_order = omega arith;
    bounded = omega arith;
    one_line =
        All-append_left (λ c. c ≢ newline) (segment s.buf s.w (sub_uint (sub_uint s.e 1) s.w))
          (s.buf (sub_uint s.e 1 % input_buf_size) ∷ [])
          (subst (All (λ c. c ≢ newline)) (typed_last s v ne) v.one_line);
  };
  same =
      ap (λ t. record { ready = (view s).ready; typed = t })
        (sym (
          ap drop_last (typed_last s v ne)
          ∙ drop_last-append (segment s.buf s.w (sub_uint (sub_uint s.e 1) s.w))
              (s.buf (sub_uint s.e 1 % input_buf_size))));
}

typed_none : (s : Cons) → IsValid s → s.e ≡ s.w → (view s).typed ≡ []
typed_none s v e =
    let none_left : sub_uint s.e s.w ≡ 0 = omega arith in ap (segment s.buf s.w) none_left

-- The byte before the end of the line is no newline.
last_ne : (s : Cons) → IsValid s → s.e ≢ s.w → s.buf (sub_uint s.e 1 % input_buf_size) ≢ newline
last_ne s v ne =
    All_last (segment s.buf s.w (sub_uint (sub_uint s.e 1) s.w))
      (s.buf (sub_uint s.e 1 % input_buf_size))
      (subst (All (λ c. c ≢ newline)) (typed_last s v ne) v.one_line)
  where
    All_last : (cs : List ℕ) (c : ℕ) → All (λ c. c ≢ newline) (cs ++ c ∷ []) → c ≢ newline
    All_last [] c h = h.0
    All_last (a ∷ cs) c h = All_last cs c h.1

-- ^U, with a round for each byte of the line, takes the whole line back.
kill_line-Shows :
    (k : ℕ) (s : Cons)
    → IsValid s
    → sub_uint s.e s.w ≤ k
    → Shows (kill_line k s).0 (record { ready = (view s).ready; typed = [] })
unfolding kill_line
kill_line-Shows zero s v le =
    let e : s.e ≡ s.w = omega arith in
    record {
      valid = v;
      same = ap (λ t. record { ready = (view s).ready; typed = t }) (typed_none s v e);
    }
kill_line-Shows (suc k) s v le = elim (ℕ_discrete s.e s.w) [
  | yes e ↦
      let test : (s.e == s.w) ≡ true = rw e (==_refl s.w) in
      rw test (record {
        valid = v;
        same = ap (λ t. record { ready = (view s).ready; typed = t }) (typed_none s v e);
      })
  | no ne ↦
      rw (==_ne s.e s.w ne, ==_ne _ newline (last_ne s v ne))
        (kill_line-Shows k (record s { e = sub_uint s.e 1 }) (erased-Shows s v ne).valid
          (omega arith))
]

-- The state with the character stored, before it is handed over.
typed_on : ℕ → Cons → Cons
typed_on c s = record s { buf = update s.buf (s.e % input_buf_size) c; e = add_uint s.e 1 }

module _ (c : ℕ) (s : Cons) (v : IsValid s) (room : sub_uint s.e s.r < input_buf_size) where
  ready_kept :
      segment (update s.buf (s.e % input_buf_size) c) s.r (sub_uint s.w s.r) ≡ (view s).ready
  ready_kept =
      segment-outside s.buf s.r (sub_uint s.w s.r) (sub_uint s.e s.r) s.e c v.r_word (omega arith)
        room (omega arith)

  typed_longer :
      segment (update s.buf (s.e % input_buf_size) c) s.w (suc (sub_uint s.e s.w))
      ≡ (view s).typed ++ c ∷ []
  typed_longer =
      segment-store s.buf s.w (sub_uint s.e s.w) s.e c v.w_word (omega arith) (omega arith)

  one_more : sub_uint (add_uint s.e 1) s.w ≡ suc (sub_uint s.e s.w)
  one_more = omega arith

  store_kept :
      c ≢ newline
      → Shows (typed_on c s) (record { ready = (view s).ready; typed = (view s).typed ++ c ∷ [] })
  unfolding typed_on
  store_kept ne =
      let typed =
        ap (segment (update s.buf (s.e % input_buf_size) c) s.w) one_more ∙ typed_longer in
      record {
        valid = record {
          r_word = v.r_word;
          w_word = v.w_word;
          e_word = omega arith;
          in_order = omega arith;
          bounded = omega arith;
          one_line =
              subst (All (λ c. c ≢ newline)) (sym typed)
                (All-append (λ c. c ≢ newline) (view s).typed (c ∷ []) v.one_line (ne, tt));
        };
        same = ap₂ (λ r t. record { ready = r; typed = t }) ready_kept typed;
      }

  store_over :
      (n : ℕ)
      → Shows
          (record (typed_on c s) { w = add_uint s.e 1; sleepers = n })
          (record { ready = (view s).ready ++ ((view s).typed ++ c ∷ []); typed = [] })
  unfolding typed_on
  store_over n =
      let e' = add_uint s.e 1 in
      let buf = update s.buf (s.e % input_buf_size) c in
      let all : sub_uint (add_uint s.e 1) s.r ≡ sub_uint s.w s.r + suc (sub_uint s.e s.w) =
        omega arith in
      let none_left : sub_uint (add_uint s.e 1) (add_uint s.e 1) ≡ 0 = omega arith in
      let typed : segment (update s.buf (s.e % input_buf_size) c) (add_uint s.e 1)
            (sub_uint (add_uint s.e 1) (add_uint s.e 1))
          ≡ [] =
        ap (segment (update s.buf (s.e % input_buf_size) c) (add_uint s.e 1)) none_left in
      record {
        valid = record {
          r_word = v.r_word;
          w_word = omega arith;
          e_word = omega arith;
          in_order = omega arith;
          bounded = omega arith;
          one_line = subst (All (λ c. c ≢ newline)) (sym typed) tt;
        };
        same =
            ap₂ (λ r t. record { ready = r; typed = t })
              (ap (segment buf s.r) all
                ∙ segment-append buf s.r (sub_uint s.w s.r) (suc (sub_uint s.e s.w)) s.w v.r_word
                    (omega arith)
                ∙ ap₂ ◌++◌ ready_kept typed_longer)
              typed;
      }

full_iff :
    (s : Cons)
    → IsValid s
    → sub_uint s.e s.r < input_buf_size
    → length (view s).ready + (length (view s).typed + 1) ≡ sub_uint (add_uint s.e 1) s.r
full_iff s v room =
    rw (length-segment s.buf s.r (sub_uint s.w s.r), length-segment s.buf s.w (sub_uint s.e s.w))
      (omega arith)

store-Shows :
    (c : ℕ) (s : Cons)
    → c < 2 ^ 8
    → IsValid s
    → sub_uint s.e s.r < input_buf_size
    → Shows (store c s).0 (append (if c == 13 then newline else c) (view s))
unfolding store typed_on
store-Shows c s small v room =
    let c' = if c == 13 then newline else c in
    let byte : (if c == 13 then newline else c) % 2 ^ 8 ≡ (if c == 13 then newline else c) =
      ground (arith, small) in
    rw (byte, full_iff s v room)
      (elim (Bool-cases
        (c' == newline || c' == ctrl_d || sub_uint (add_uint s.e 1) s.r == input_buf_size)) [
          | inl over ↦ rw over (store_over c' s v room 0)
          | inr on ↦ rw on (store_kept c' s v room (ground arith))
        ])

room_iff : (s : Cons) → IsValid s → length (view s).ready + length (view s).typed ≡ sub_uint s.e s.r
room_iff s v =
    rw (length-segment s.buf s.r (sub_uint s.w s.r), length-segment s.buf s.w (sub_uint s.e s.w))
      v.in_order

-- On a valid ring a typed byte leaves a valid ring, which shows the line that `accept` makes
-- of the one before.
pub consoleintr-accept :
    (c : ℕ) (s : Cons) → c < 2 ^ 8 → IsValid s → Shows (consoleintr c s).0 (accept c (view s))
unfolding consoleintr accept
consoleintr-accept c s small v = elim (Bool-cases (c == ctrl_p)) [
  | inl p ↦ rw p (record { valid = v; same = refl })
  | inr p ↦ rw p (elim (Bool-cases (c == ctrl_u)) [
    | inl u ↦ rw u (kill_line-Shows (sub_uint s.e s.w) s v (omega arith))
    | inr u ↦ rw u (elim (Bool-cases (c == ctrl_h || c == 127)) [
      | inl h ↦ rw h (elim (ℕ_discrete s.e s.w) [
        | yes e ↦
            let test : (s.e == s.w) ≡ true = rw e (==_refl s.w) in
            rw (test, typed_none s v e)
              (record {
                valid = v;
                same = ap (λ t. record { ready = (view s).ready; typed = t }) (typed_none s v e);
              })
        | no ne ↦ rw (==_ne s.e s.w ne) (erased-Shows s v ne)
      ])
      | inr h ↦
          rw (h, room_iff s v)
            (elim (Bool-cases (not (c == 0) && ltb (sub_uint s.e s.r) input_buf_size)) [
              | inl room ↦ rw room (store-Shows c s small v (ground arith))
              | inr full ↦ rw full (record { valid = v; same = refl })
            ])
    ])
  ])
]
