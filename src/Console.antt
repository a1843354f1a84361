-- ===== src/Console.antt =====
-- kernel/console.c: the line discipline. The interrupt handler runs whole under `cons.lock`; what
-- a reader does between taking the lock and giving it up, by `release` or inside `sleep`, is one
-- section.
pub mod Line
pub mod Ring
pub mod Typing
pub mod Reading
pub mod Whole
mod Tests
use csse332lab.Base.{
  ℕ, zero, suc, ◌+◌, ◌-◌, ◌%◌, ◌^◌, Bool, true, false, not, ◌&&◌, ◌||◌, Option, none, some, List,
  [], ◌∷◌, ◌++◌, ltb, ◌==◌, if◌then◌else◌, update,
}

abbrev pub input_buf_size : ℕ
input_buf_size = 128

-- C(x)
abbrev pub ctrl_d : ℕ
ctrl_d = 4

abbrev pub ctrl_h : ℕ
ctrl_h = 8

abbrev pub ctrl_p : ℕ
ctrl_p = 16

abbrev pub ctrl_u : ℕ
ctrl_u = 21

abbrev pub newline : ℕ
newline = 10

abbrev pub backspace : ℕ
backspace = 256

-- `unsigned int` addition and subtraction
abbrev pub add_uint : ℕ → ℕ → ℕ
add_uint a b = (a + b) % 2 ^ 32

abbrev pub sub_uint : ℕ → ℕ → ℕ
sub_uint a b = (a + 2 ^ 32 - b) % 2 ^ 32

-- `cons`, and the readers asleep on `&cons.r` that no `wakeup` has reached.
pub record Cons : Type 0 where
  pub buf : ℕ → ℕ
  pub r : ℕ
  pub w : ℕ
  pub e : ℕ
  pub sleepers : ℕ

-- What goes to `uartputc_sync`.
pub consputc : ℕ → List ℕ
consputc c = if c == backspace then 8 ∷ 32 ∷ 8 ∷ [] else c ∷ []

-- The loop of ^U, with `k` rounds at most.
pub kill_line : ℕ → Cons → Cons × List ℕ
kill_line zero s = (s, [])
kill_line (suc k) s =
    let (rest, echo) = kill_line k (record s { e = sub_uint s.e 1 }) in
    if not (s.e == s.w) && not (s.buf (sub_uint s.e 1 % input_buf_size) == newline)
    then (rest, consputc backspace ++ echo)
    else (s, [])

-- The branch of `consoleintr` for a character that is stored, in a buffer with room for it. It is
-- an int, of which the ring keeps a byte.
pub store : ℕ → Cons → Cons × List ℕ
store c s =
    let c' = if c == 13 then newline else c in
    let stored = record s {
      buf = update s.buf (s.e % input_buf_size) (c' % 2 ^ 8);
      e = add_uint s.e 1;
    } in
    if c' == newline || c' == ctrl_d || sub_uint stored.e stored.r == input_buf_size
    then (record stored { w = stored.e; sleepers = 0 }, consputc c')
    else (stored, consputc c')

-- The state, and the echo. `procdump`, for ^P, only prints.
pub consoleintr : ℕ → Cons → Cons × List ℕ
consoleintr c s =
    if c == ctrl_p
    then (s, [])
    else if c == ctrl_u
    then kill_line (sub_uint s.e s.w) s
    else if c == ctrl_h || c == 127
    then if not (s.e == s.w) then (record s { e = sub_uint s.e 1 }, consputc backspace) else (s, [])
    else if not (c == 0) && ltb (sub_uint s.e s.r) input_buf_size
    then store c s
    else (s, [])

-- How a section of `consoleread` ends: by returning (`none` is -1), or asleep with `n` bytes to go.
pub data ReadEnd : Type 0 where
  returned : Option ℕ → ReadEnd
  sleeping : ℕ → ReadEnd

-- `copyout i` says whether the byte at `dst + i` of the caller's memory could be written.
module _ (killed : Bool) (copyout : ℕ → Bool) (target : ℕ) where
  -- The loop with `n` bytes to go: the bytes copied out, the end and the state.
  pub read_section : ℕ → Cons → List ℕ × ReadEnd × Cons
  read_section zero s = ([], returned (some target), s)
  read_section (suc k) s =
      let c = s.buf (s.r % input_buf_size) in
      let taken = record s { r = add_uint s.r 1 } in
      let (chs, end, after) = read_section k taken in
      if s.r == s.w
      then if killed
        then ([], returned none, s)
        else ([], sleeping (suc k), record s { sleepers = s.sleepers + 1 })
      else if c == ctrl_d
      then (
        [],
        returned (some (target - suc k)),
        if ltb (suc k) target then record taken { r = sub_uint taken.r 1 } else taken,
      )
      else if not (copyout (target - suc k))
      then ([], returned (some (target - suc k)), taken)
      else if c == newline
      then (c ∷ [], returned (some (target - k)), taken)
      else (c ∷ chs, end, after)

-- The loop of `consolewrite` from the byte `i`, with `k` to go: what goes to `uartputc`, and the
-- count. `copyin i` is the byte at `src + i`, `none` if it cannot be read.
pub consolewrite_loop : (copyin : ℕ → Option ℕ) → ℕ → ℕ → List ℕ × ℕ
consolewrite_loop copyin zero i = ([], i)
consolewrite_loop copyin (suc k) i = elim (copyin i) [
  | none ↦ ([], i)
  | some c ↦ let (chs, n) = consolewrite_loop copyin k (i + 1) in (c ∷ chs, n)
]

pub consolewrite : (copyin : ℕ → Option ℕ) → ℕ → List ℕ × ℕ
consolewrite copyin n = consolewrite_loop copyin n 0
