-- ===== src/Console/Ring.antt =====
-- The ring of the console as the two lists of its line.
use csse332lab.Base.{
  ℕ, zero, suc, ◌+◌, ◌-◌, ◌%◌, ◌^◌, ◌≤◌, ◌<◌, ◌≡◌, ◌≢◌, refl, ◌∙◌, ap, sym, List, [], ◌∷◌, ◌++◌,
  arith, ap₂, update, update_self, update_ne, length, All,
}
use csse332lab.Console.{Cons, input_buf_size, newline, add_uint, sub_uint}
use csse332lab.Console.Line.{Line}

-- The `n` bytes from the index `i` on.
abbrev pub segment : (ℕ → ℕ) → ℕ → ℕ → List ℕ
segment buf i zero = []
segment buf i (suc n) = buf (i % input_buf_size) ∷ segment buf (add_uint i 1) n

abbrev pub view : Cons → Line
view s = record {
  ready = segment s.buf s.r (sub_uint s.w s.r);
  typed = segment s.buf s.w (sub_uint s.e s.w);
}

-- The indices are in order in a window of the ring, and the line that is edited has no newline.
pub record IsValid (s : Cons) : Type 0 where
  pub r_word : s.r < 2 ^ 32
  pub w_word : s.w < 2 ^ 32
  pub e_word : s.e < 2 ^ 32
  pub in_order : sub_uint s.w s.r + sub_uint s.e s.w ≡ sub_uint s.e s.r
  pub bounded : sub_uint s.e s.r ≤ input_buf_size
  pub one_line : All (λ c. c ≢ newline) (view s).typed

pub length-segment : (buf : ℕ → ℕ) (i n : ℕ) → length (segment buf i n) ≡ n
length-segment buf i zero = refl
length-segment buf i (suc n) = ap suc (length-segment buf (add_uint i 1) n)

-- A byte that is stored at an index outside the segment does not change it.
pub segment-outside :
    (buf : ℕ → ℕ) (i n d e c : ℕ)
    → i < 2 ^ 32
    → n ≤ d
    → d < input_buf_size
    → e ≡ (i + d) % 2 ^ 32
    → segment (update buf (e % input_buf_size) c) i n ≡ segment buf i n
segment-outside buf i zero d e c hi hn hd he = refl
segment-outside buf i (suc n) d e c hi hn hd he =
    ap₂ ◌∷◌ (update_ne buf (e % input_buf_size) (i % input_buf_size) c (omega arith)) (
      segment-outside buf (add_uint i 1) n (d - 1) e c (omega arith) (omega arith) (omega arith)
        (omega arith))

-- A byte that is stored right behind the segment makes it longer.
pub segment-store :
    (buf : ℕ → ℕ) (i n e c : ℕ)
    → i < 2 ^ 32
    → n < input_buf_size
    → e ≡ (i + n) % 2 ^ 32
    → segment (update buf (e % input_buf_size) c) i (suc n) ≡ segment buf i n ++ c ∷ []
segment-store buf i zero e c hi hn he =
    let same : i % input_buf_size ≡ e % input_buf_size = omega arith in
    rw same (ap (λ c. c ∷ []) (update_self buf (e % input_buf_size) c))
segment-store buf i (suc n) e c hi hn he =
    ap₂ ◌∷◌ (update_ne buf (e % input_buf_size) (i % input_buf_size) c (omega arith))
      (segment-store buf (add_uint i 1) n e c (omega arith) (omega arith) (omega arith))

pub segment-append :
    (buf : ℕ → ℕ) (i m n j : ℕ)
    → i < 2 ^ 32
    → j ≡ (i + m) % 2 ^ 32
    → segment buf i (m + n) ≡ segment buf i m ++ segment buf j n
segment-append buf i zero n j hi hj =
    let same : i ≡ j = omega arith in
    let none_more : 0 + n ≡ n = omega arith in rw (none_more, same)
segment-append buf i (suc m) n j hi hj =
    let more : suc m + n ≡ suc (m + n) = omega arith in
    rw more (
      ap (λ l. buf (i % input_buf_size) ∷ l)
        (segment-append buf (add_uint i 1) m n j (omega arith) (omega arith)))

-- The last byte of a segment.
pub segment-last :
    (buf : ℕ → ℕ) (i n j : ℕ)
    → i < 2 ^ 32
    → j ≡ (i + n) % 2 ^ 32
    → segment buf i (suc n) ≡ segment buf i n ++ buf (j % input_buf_size) ∷ []
segment-last buf i n j hi hj =
    let more : n + 1 ≡ suc n = omega arith in
    ap (segment buf i) (sym more) ∙ segment-append buf i n 1 j hi hj
