-- ===== src/Pipe/Ring.antt =====
-- The bytes in the pipe, oldest first, and what `put` and `skip` do to them.
use csse332lab.Base.{
  ℕ, zero, suc, ◌+◌, ◌-◌, ◌%◌, ◌^◌, ◌≤◌, ◌<◌, ◌≡◌, refl, ap, true, false, List, [], ◌∷◌, ◌++◌,
  arith, ap₂, update, update_self, update_ne, length,
}
use csse332lab.Pipe.{Pipe, pipesize, add_uint, put, skip, front, is_full, is_empty}

-- The number of bytes in the pipe.
abbrev pub used : Pipe → ℕ
used p = (p.nwrite + 2 ^ 32 - p.nread) % 2 ^ 32

-- The `n` bytes from the counter `r` on.
abbrev pub window : (ℕ → ℕ) → ℕ → ℕ → List ℕ
window buf r zero = []
window buf r (suc n) = buf (r % pipesize) ∷ window buf (add_uint r 1) n

abbrev pub queue : Pipe → List ℕ
queue p = window p.buf p.nread (used p)

pub record IsValid (p : Pipe) : Type 0 where
  pub read_word : p.nread < 2 ^ 32
  pub write_word : p.nwrite < 2 ^ 32
  pub bounded : used p ≤ pipesize

pub put-IsValid : (ch : ℕ) (p : Pipe) → IsValid p → is_full p ≡ false → IsValid (put ch p)
unfolding put
put-IsValid ch p v h = ground arith

pub skip-IsValid : (p : Pipe) → IsValid p → is_empty p ≡ false → IsValid (skip p)
unfolding skip
skip-IsValid p v h = ground arith

length-window : (buf : ℕ → ℕ) (r n : ℕ) → length (window buf r n) ≡ n
length-window buf r zero = refl
length-window buf r (suc n) = ap suc (length-window buf (add_uint r 1) n)

window-update :
    (buf : ℕ → ℕ) (r n w ch : ℕ)
    → r < 2 ^ 32
    → n < pipesize
    → w ≡ (r + n) % 2 ^ 32
    → window (update buf (w % pipesize) ch) r (suc n) ≡ window buf r n ++ ch ∷ []
window-update buf r zero w ch hr hn e =
    let same : r % pipesize ≡ w % pipesize = omega arith in
    rw same (ap (λ c. c ∷ []) (update_self buf (w % pipesize) ch))
window-update buf r (suc n) w ch hr hn e =
    ap₂ ◌∷◌ (update_ne buf (w % pipesize) (r % pipesize) ch (omega arith))
      (window-update buf (add_uint r 1) n w ch (omega arith) (omega arith) (omega arith))

-- `put` adds a byte at the end.
pub queue-put :
    (ch : ℕ) (p : Pipe) → IsValid p → is_full p ≡ false → queue (put ch p) ≡ queue p ++ ch ∷ []
unfolding put
queue-put ch p v h =
    let grown : used (put ch p) ≡ suc (used p) = ground arith in
    rw grown
      (window-update p.buf p.nread (used p) p.nwrite ch v.read_word (ground arith) (omega arith))

window-pos :
    (buf : ℕ → ℕ) (r n : ℕ)
    → 0 < n
    → window buf r n ≡ buf (r % pipesize) ∷ window buf (add_uint r 1) (n - 1)
window-pos buf r zero h = absurd (omega arith)
window-pos buf r (suc n) h =
    ap (λ k. buf (r % pipesize) ∷ window buf (add_uint r 1) k) (omega arith)

-- `skip` takes off the byte that `front` reads.
pub queue-skip : (p : Pipe) → IsValid p → is_empty p ≡ false → queue p ≡ front p ∷ queue (skip p)
unfolding skip
queue-skip p v h =
    let shrunk : used (skip p) ≡ used p - 1 = ground arith in
    rw shrunk (window-pos p.buf p.nread (used p) (ground arith))

pub queue-empty : (p : Pipe) → IsValid p → is_empty p ≡ true → queue p ≡ []
queue-empty p v h = let none_left : used p ≡ 0 = ground arith in rw none_left refl
