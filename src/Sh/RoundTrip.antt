-- ===== src/Sh/RoundTrip.antt =====
-- A printed command is parsed as it was.
use mathlib.Core.List.{append_assoc, append-nil}
use csse332lab.Base.{
  ℕ, zero, suc, ◌+◌, ◌*◌, ◌≤◌, ◌<◌, ◌≡◌, refl, sym, ◌∙◌, ap, inl, inr, false, List, [], ◌∷◌, ◌++◌,
  arith, All, length, length-append,
}
use csse332lab.Sh.{
  Bytes, peek, Cmd, execcmd, redircmd, pipecmd, listcmd, backcmd, Redir, ok, maxargs, parseredirs,
  parseargs, parseexec, parsecmd,
}
use csse332lab.Sh.Print.{
  in_parens, print, print_words, print_redir, print_redirs, IsWord, IsRedir, IsCommand,
}
use csse332lab.Sh.Tokens.{
  Next, after_exec, Next-skip_white, Next-Apart, gettoken-symbol, peek-byte, peek-Next,
}
use csse332lab.Sh.Words.{
  peek_rest, parseredirs-skip_white, parseredirs-print, parseredirs_none, parseargs-skip_white,
  parseargs_end, parseargs-print, no_redir, no_redir_word, peek-word,
}
use csse332lab.Sh.Levels.{
  ReadsExec, ReadsPipe, ReadsBack, ReadsLine, length_behind, parseline-skip_white, lift_pipe,
  lift_back, lift_line, line_list, pipe_pipe, back_back,
}

length-print_redirs : (rs : List Redir) → length rs ≤ length (print_redirs rs)
unfolding print_redirs print_redir
length-print_redirs [] = omega arith
length-print_redirs (r ∷ rs) =
    let ih = length-print_redirs rs in
    let sum = length-append (print_redir r) (print_redirs rs) in ground arith

length-print_words : (ws : List Bytes) → length ws ≤ length (print_words ws)
unfolding print_words
length-print_words [] = omega arith
length-print_words (w ∷ ws) =
    omega (arith, length-print_words ws, length-append {0} w (print_words ws))

length-redirs : (rs : List Redir) (s : Bytes) → length rs ≤ length (print_redirs rs ++ s)
length-redirs rs s = omega (arith, length-print_redirs rs, length-append {0} (print_redirs rs) s)

redirs-read :
    (f : ℕ) (rs : List Redir) (s : Bytes)
    → All IsRedir rs
    → Next after_exec s
    → length rs < f
    → parseredirs f (print_redirs rs ++ s) ≡ ok (rs, s)
redirs-read f rs s h n lt =
    parseredirs-print f rs s h (Next-Apart s n) (no_redir s n) lt
    ∙ ap (λ t. ok (rs, t)) (Next-skip_white s n)

-- No parenthesis comes next.
no_block :
    (rs : List Redir) (s : Bytes)
    → All IsRedir rs
    → Next after_exec s
    → (peek (b'(' ∷ []) (print_redirs rs ++ s)).0 ≡ false
unfolding print_redirs print_redir
no_block [] [] h n = ap (λ r. r.0) (peek-Next (b'(' ∷ []) [] refl)
no_block [] (c ∷ s) h n = ap (λ r. r.0) (peek-Next (b'(' ∷ []) (c ∷ s) n) ∙ ground (arith, n)
no_block (r ∷ rs) s h n = elim h.0.kind [
  | inl (m, f) ↦ rw (f, peek-byte (b'(' ∷ []) b'<' ((r.file ++ print_redirs rs) ++ s) refl) refl
  | inr (inl (m, f)) ↦
      rw (f, m, peek-byte (b'(' ∷ []) b'>' ((r.file ++ print_redirs rs) ++ s) refl) refl
  | inr (inr (m, f)) ↦
      rw (f, m, peek-byte (b'(' ∷ []) b'>' (b'>' ∷ ((r.file ++ print_redirs rs) ++ s)) refl) refl
]

-- A command in parentheses.
lift_block : (c : Cmd) → print 3 c ≡ b'(' ∷ (print 0 c ++ b')' ∷ []) → ReadsLine c → ReadsExec c
unfolding parseexec
lift_block c e reads zero rs s t is h n le = absurd (omega (arith, le))
lift_block c e reads (suc zero) rs s t is h n le = absurd (omega (arith, le))
lift_block c e reads (suc (suc f)) rs s t is h n le =
    let behind = b')' ∷ (print_redirs rs ++ s) in
    let is' : t ≡ b'(' ∷ (print 0 c ++ behind) =
      is
      ∙ ap (λ p. p ++ (print_redirs rs ++ s)) e
      ∙ ap (λ u. b'(' ∷ u) (append_assoc (print 0 c) (b')' ∷ []) (print_redirs rs ++ s)) in
    let bound : 4 * length (b'(' ∷ (print 0 c ++ behind)) + 2 ≤ suc (suc f) = rw is' at le in
    let shorter = length_behind (print 0 c) behind (print 0 c ++ behind) refl in
    rw
      (
        is',
        peek-byte (b'(' ∷ []) b'(' (print 0 c ++ behind) refl,
        peek-byte (b'(' ∷ []) b'(' (print 0 c ++ behind) refl,
        gettoken-symbol b'(' (print 0 c ++ behind) refl,
        parseline-skip_white f (print 0 c ++ behind),
        reads f behind (print 0 c ++ behind) refl refl (omega (arith, bound)),
        peek-byte (b')' ∷ []) b')' (print_redirs rs ++ s) refl,
        gettoken-symbol b')' (print_redirs rs ++ s) refl,
        parseredirs-skip_white f (print_redirs rs ++ s),
        redirs-read f rs s h n (omega (arith, bound, length-redirs rs s)),
      )
      refl

exec_exec :
    (argv : List Bytes) → All IsWord argv → suc (length argv) ≤ maxargs → ReadsExec (execcmd argv)
unfolding parseexec print print_words
exec_exec argv hw few zero rs s t is h n le = absurd (omega (arith, le))
exec_exec argv hw few (suc zero) rs s t is h n le = absurd (omega (arith, le))
exec_exec [] hw few (suc (suc f)) rs s t is h n le =
    let behind = print_redirs rs ++ s in
    let is' : t ≡ behind = is in
    let bound : 4 * length behind + 2 ≤ suc (suc f) = rw is' at le in
    rw
      (
        is',
        no_block rs s h n,
        peek_rest (b'(' ∷ []) behind,
        parseredirs-skip_white (suc f) behind,
        redirs-read (suc f) rs s h n (omega (arith, bound, length-redirs rs s)),
        parseargs_end f 0 s n,
        append-nil rs,
      )
      refl
exec_exec (w ∷ ws) hw few (suc (suc f)) rs s t is h n le =
    let behind = print_redirs rs ++ s in
    let words = print_words ws ++ behind in
    let assoc : (w ++ print_words ws) ++ behind ≡ w ++ words =
      append_assoc w (print_words ws) behind in
    let is' : t ≡ b' ' ∷ (w ++ words) = is ∙ ap (λ u. b' ' ∷ u) assoc in
    let bound : 4 * length (print_words (w ∷ ws) ++ behind) + 2 ≤ suc (suc f) = rw is at le in
    let first : (peek (b'(' ∷ []) (b' ' ∷ (w ++ words))).0 ≡ false =
      ap (λ r. r.0) (peek-word (b'(' ∷ []) w words hw.0 (λ c p. ground (arith, p))) in
    let args : parseargs (suc f) 0 (b' ' ∷ (w ++ words)) ≡ ok (w ∷ ws, rs, s) =
      ap (λ u. parseargs (suc f) 0 (b' ' ∷ u)) (sym assoc)
      ∙ parseargs-print (suc f) 0 w ws rs s hw h n (omega (arith, few)) (
          omega (
            arith,
            bound,
            length-print_words (w ∷ ws),
            length-redirs rs s,
            length-append {0} (print_words (w ∷ ws)) behind,
          )) in
    rw
      (
        is',
        first,
        peek_rest (b'(' ∷ []) (b' ' ∷ (w ++ words)),
        parseredirs-skip_white (suc f) (b' ' ∷ (w ++ words)),
        parseredirs_none f (b' ' ∷ (w ++ words)) (no_redir_word w words hw.0),
        parseargs-skip_white (suc f) 0 (b' ' ∷ (w ++ words)),
        args,
      )
      refl

exec_redir :
    (c : Cmd) (file : Bytes) (mode fd : ℕ)
    → IsRedir (record { file = file; mode = mode; fd = fd })
    → ReadsExec c
    → ReadsExec (redircmd c file mode fd)
unfolding print print_redirs
exec_redir c file mode fd hr reads f rs s t is h n le =
    let r : Redir = record { file = file; mode = mode; fd = fd } in
    reads f (r ∷ rs) s t
      (is
        ∙ append_assoc (print 3 c) (print_redir r) (print_redirs rs ++ s)
        ∙ ap (λ u. print 3 c ++ u) (sym (append_assoc (print_redir r) (print_redirs rs) s)))
      (hr, h) n le

-- What is read at every level.
record Reads (c : Cmd) : Type 0 where
  exec : ReadsExec c
  piped : ReadsPipe c
  back : ReadsBack c
  line : ReadsLine c

from_exec :
    (c : Cmd)
    → print 2 c ≡ print 3 c
    → print 1 c ≡ print 2 c
    → print 0 c ≡ print 1 c
    → ReadsExec c
    → Reads c
from_exec c e2 e1 e0 reads =
    let piped = lift_pipe c e2 reads in
    let back = lift_back c e1 piped in
    record { exec = reads; piped = piped; back = back; line = lift_line c e0 back }

command-Reads : (c : Cmd) → IsCommand c → Reads c
unfolding print in_parens
command-Reads (execcmd argv) h = from_exec (execcmd argv) refl refl refl (exec_exec argv h.0 h.1)
command-Reads (redircmd c file mode fd) h =
    from_exec (redircmd c file mode fd) refl refl refl
      (exec_redir c file mode fd h.1 (command-Reads c h.0).exec)
command-Reads (pipecmd left right) h =
    let c = pipecmd left right in
    let piped =
      pipe_pipe left right (command-Reads left h.0).exec (command-Reads right h.1).piped in
    let back = lift_back c refl piped in
    let line = lift_line c refl back in
    record { exec = lift_block c refl line; piped = piped; back = back; line = line }
command-Reads (listcmd left right) h =
    let c = listcmd left right in
    let line = line_list left right (command-Reads left h.0).back (command-Reads right h.1).line in
    let exec = lift_block c refl line in
    let piped = lift_pipe c refl exec in
    record { exec = exec; piped = piped; back = lift_back c refl piped; line = line }
command-Reads (backcmd a) h =
    let c = backcmd a in
    let back = back_back a (command-Reads a h).back in
    let line = lift_line c refl back in
    let exec = lift_block c refl line in
    record { exec = exec; piped = lift_pipe c refl exec; back = back; line = line }

-- A command whose words are not empty and have no white space and no symbols, with at most nine
-- arguments to a program and the redirections of the shell, is parsed from its text as it was,
-- however it is nested; four rounds for each byte of the text, and four, are enough.
pub parsecmd-print :
    (c : Cmd) (f : ℕ) → IsCommand c → 4 * length (print 0 c) + 4 ≤ f → parsecmd f (print 0 c) ≡ ok c
unfolding parsecmd
parsecmd-print c f h le =
    rw
      (
        (command-Reads c h).line f [] (print 0 c) (sym (append-nil (print 0 c))) refl le,
        peek-Next [] [] refl,
      )
      refl
