-- ===== src/Console/Tests.antt =====
-- Runs of the console, and the theorems on them at a concrete state.
use csse332lab.Base.{◌≡◌, refl, true, false, [], ◌∷◌, some, arith}
use csse332lab.Console.{
  Cons, consputc, kill_line, store, consoleintr, read_section, consolewrite, consolewrite_loop,
}
use csse332lab.Console.Line.{accept, take_line}
use csse332lab.Console.Ring.{IsValid, view}
use csse332lab.Console.Typing.{Shows, consoleintr-accept}
use csse332lab.Console.Reading.{ReadsAs, read_section-ReadsAs}

-- The indices stand at the end of their range.
abbrev fresh : Cons
fresh = record { buf = λ i. 0; r = 4294967295; w = 4294967295; e = 4294967295; sleepers = 1 }

fresh-IsValid : IsValid fresh
fresh-IsValid = record {
  r_word = omega arith;
  w_word = omega arith;
  e_word = omega arith;
  in_order = refl;
  bounded = omega arith;
  one_line = tt;
}

abbrev one_line : Cons
one_line = (consoleintr 13 (consoleintr 98 (consoleintr 8 (consoleintr 97 fresh).0).0).0).0

-- An a, backspace, a b and a carriage return are the line "b".
read_of_line : (read_section false (λ i. true) 10 10 one_line).0 ≡ 98 ∷ 10 ∷ []
unfolding consoleintr consputc kill_line store read_section
read_of_line = refl

written : consolewrite (λ i. some i) 2 ≡ (0 ∷ 1 ∷ [], 2)
unfolding consolewrite consolewrite_loop
written = refl

consoleintr-accept_example : Shows (consoleintr 97 fresh).0 (accept 97 (view fresh))
consoleintr-accept_example = consoleintr-accept 97 fresh (omega arith) fresh-IsValid

read_section-ReadsAs_example :
    ReadsAs fresh
      (read_section false (λ i. true) 10 10 fresh)
      (take_line false (λ i. true) 10 10 (view fresh).ready)
read_section-ReadsAs_example = read_section-ReadsAs false (λ i. true) 10 10 fresh fresh-IsValid
