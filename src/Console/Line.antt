-- ===== src/Console/Line.antt =====
-- What the console is for those who type and read: a line that is still edited, and the bytes that
-- are ready for a reader.
use csse332lab.Base.{
  ℕ, zero, suc, ◌+◌, ◌-◌, ◌≡◌, refl, ap, Bool, not, ◌&&◌, ◌||◌, none, some, List, [], ◌∷◌, ◌++◌,
  ltb, ◌==◌, if◌then◌else◌, length,
}
use csse332lab.Console.{
  input_buf_size, ctrl_d, ctrl_h, ctrl_p, ctrl_u, newline, ReadEnd, returned, sleeping,
}

pub record Line : Type 0 where
  pub ready : List ℕ
  pub typed : List ℕ

abbrev pub drop_last : List ℕ → List ℕ
drop_last [] = []
drop_last (c ∷ []) = []
drop_last (c ∷ d ∷ cs) = c ∷ drop_last (d ∷ cs)

pub drop_last-append : (cs : List ℕ) (c : ℕ) → drop_last (cs ++ c ∷ []) ≡ cs
drop_last-append [] c = refl
drop_last-append (a ∷ []) c = refl
drop_last-append (a ∷ b ∷ cs) c = ap (λ l. a ∷ l) (drop_last-append (b ∷ cs) c)

abbrev pub append : ℕ → Line → Line
append c l =
    if c == newline || c == ctrl_d || length l.ready + (length l.typed + 1) == input_buf_size
    then record { ready = l.ready ++ (l.typed ++ c ∷ []); typed = [] }
    else record l { typed = l.typed ++ c ∷ [] }

-- A character is typed: ^U takes the line back, ^H and delete its last byte; others are added
-- while there is room, and a newline, ^D or the last byte of room hands the line over.
unfoldable pub accept : ℕ → Line → Line
accept c l =
    if c == ctrl_p
    then l
    else if c == ctrl_u
    then record l { typed = [] }
    else if c == ctrl_h || c == 127
    then record l { typed = drop_last l.typed }
    else if not (c == 0) && ltb (length l.ready + length l.typed) input_buf_size
    then append (if c == 13 then newline else c) l
    else l

-- A reader with `n` bytes to go takes ready bytes up to a newline. ^D ends the read, and stays for
-- the next one if this one has bytes.
module _ (killed : Bool) (copyout : ℕ → Bool) (target : ℕ) where
  unfoldable pub take_line : ℕ → List ℕ → List ℕ × ReadEnd × List ℕ
  take_line zero cs = ([], returned (some target), cs)
  take_line (suc k) [] = ([], (if killed then returned none else sleeping (suc k)), [])
  take_line (suc k) (c ∷ cs) =
      let (chs, end, after) = take_line k cs in
      if c == ctrl_d
      then ([], returned (some (target - suc k)), if ltb (suc k) target then c ∷ cs else cs)
      else if not (copyout (target - suc k))
      then ([], returned (some (target - suc k)), cs)
      else if c == newline
      then (c ∷ [], returned (some (target - k)), cs)
      else (c ∷ chs, end, after)
