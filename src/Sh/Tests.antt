-- ===== src/Sh/Tests.antt =====
-- The parser of the shell on command lines.
use csse332lab.Base.{◌≡◌, ◌≢◌, refl, inl, inr, [], ◌∷◌, arith}
use csse332lab.Sh.{
  Bytes, Cmd, execcmd, redircmd, pipecmd, listcmd, backcmd, ok, panics, out_of_fuel, parsecmd,
  parseline, parseredirs, parseargs, parsebacks, peek, gettoken, token, after_gt, span_word,
  skip_white, o_write,
}
use csse332lab.Sh.Print.{print, print_words, print_redir, in_parens, IsCommand}
use csse332lab.Sh.RoundTrip.{parsecmd-print}
use csse332lab.Sh.Rounds.{parsecmd_enough}

-- a;b|c>d &
abbrev line : Bytes
line = b'a' ∷ b';' ∷ b'b' ∷ b'|' ∷ b'c' ∷ b'>' ∷ b'd' ∷ b' ' ∷ b'&' ∷ []

parsed_line :
    parsecmd 60 line
    ≡ ok (
        listcmd (execcmd ((b'a' ∷ []) ∷ [])) (
          backcmd (
            pipecmd
              (execcmd ((b'b' ∷ []) ∷ []))
              (redircmd (execcmd ((b'c' ∷ []) ∷ [])) (b'd' ∷ []) o_write 1))))
unfolding parsecmd parseline parseredirs parseargs parsebacks peek gettoken token after_gt span_word
    skip_white
parsed_line = refl

-- (a
unclosed : parsecmd 60 (b'(' ∷ b'a' ∷ []) ≡ panics
unfolding parsecmd parseline parseredirs parseargs parsebacks peek gettoken token after_gt span_word
    skip_white
unclosed = refl

abbrev nested : Cmd
nested =
    pipecmd (listcmd (execcmd ((b'a' ∷ []) ∷ (b'x' ∷ []) ∷ [])) (execcmd []))
      (redircmd (execcmd ((b'c' ∷ []) ∷ [])) (b'd' ∷ []) o_write 1)

nested-IsCommand : IsCommand nested
nested-IsCommand = (
  ((((refl, (refl, tt)), ((refl, (refl, tt)), tt)), omega arith), (tt, omega arith)),
  (
    (((refl, (refl, tt)), tt), omega arith),
    record { word = (refl, (refl, tt)); kind = inr (inl (refl, refl)) },
  ),
)

parsecmd-print_example : parsecmd 90 (print 0 nested) ≡ ok nested
parsecmd-print_example =
    parsecmd-print nested 90 nested-IsCommand
      (unfold print print_words print_redir in_parens in omega arith)

parsecmd_enough_example : parsecmd 40 line ≢ out_of_fuel
parsecmd_enough_example = parsecmd_enough 40 line (omega arith)
