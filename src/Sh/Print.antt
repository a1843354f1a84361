-- ===== src/Sh/Print.antt =====
-- A command written as text, with parentheses where the parser needs them.
use csse332lab.Base.{
  ℕ, suc, ◌≤◌, ◌≡◌, Bool, true, false, not, ◌&&◌, ◌⊎◌, List, [], ◌∷◌, ◌++◌, ltb, ◌==◌,
  if◌then◌else◌, All, length,
}
use csse332lab.Sh.{
  Bytes, strchr, whitespace, symbols, Cmd, execcmd, redircmd, pipecmd, listcmd, backcmd, Redir,
  o_rdonly, o_write, o_append, maxargs, is_empty,
}

unfoldable pub print_words : List Bytes → Bytes
print_words [] = []
print_words (w ∷ ws) = b' ' ∷ (w ++ print_words ws)

unfoldable pub print_redir : Redir → Bytes
print_redir r =
    if r.fd == 0
    then b'<' ∷ r.file
    else if r.mode == o_write
    then b'>' ∷ r.file
    else b'>' ∷ b'>' ∷ r.file

unfoldable pub print_redirs : List Redir → Bytes
print_redirs [] = []
print_redirs (r ∷ rs) = print_redir r ++ print_redirs rs

unfoldable pub in_parens : Bool → Bytes → Bytes
in_parens nested s = if nested then b'(' ∷ (s ++ b')' ∷ []) else s

-- Where a command stands: 0 a line, 1 before `;` or `&`, 2 in a pipe, 3 before `|`.
unfoldable pub print : (level : ℕ) → Cmd → Bytes
print level (execcmd argv) = print_words argv
print level (redircmd cmd file mode fd) =
    print 3 cmd ++ print_redir (record { file = file; mode = mode; fd = fd })
print level (pipecmd left right) = in_parens (ltb 2 level) (print 3 left ++ b'|' ∷ print 2 right)
print level (backcmd cmd) = in_parens (ltb 1 level) (print 1 cmd ++ b'&' ∷ [])
print level (listcmd left right) = in_parens (ltb 0 level) (print 1 left ++ b';' ∷ print 0 right)

abbrev pub is_word_byte : ℕ → Bool
is_word_byte c = not (strchr whitespace c) && not (strchr symbols c)

-- Words are not empty, and have no white space and no symbols.
abbrev pub IsWord : Bytes → Type 0
IsWord w = (is_empty w ≡ false) × All (λ c. is_word_byte c ≡ true) w

-- The three kinds of redirections.
pub record IsRedir (r : Redir) : Type 0 where
  pub word : IsWord r.file
  pub kind :
      ((r.mode ≡ o_rdonly) × (r.fd ≡ 0))
      ⊎ (((r.mode ≡ o_write) × (r.fd ≡ 1)) ⊎ ((r.mode ≡ o_append) × (r.fd ≡ 1)))

-- What the parser can give.
abbrev pub IsCommand : Cmd → Type 0
IsCommand (execcmd argv) = All IsWord argv × (suc (length argv) ≤ maxargs)
IsCommand (redircmd cmd file mode fd) =
    IsCommand cmd × IsRedir (record { file = file; mode = mode; fd = fd })
IsCommand (pipecmd left right) = IsCommand left × IsCommand right
IsCommand (listcmd left right) = IsCommand left × IsCommand right
IsCommand (backcmd cmd) = IsCommand cmd
