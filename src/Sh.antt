-- ===== src/Sh.antt =====
-- user/sh.c: the parser of the shell. A string is the list of its bytes before the zero byte; the
-- text between `q` and `eq` is copied, where the source ends it with a zero byte later on, in
-- `nulterminate`. `malloc` is taken to give memory.
pub mod Parse
pub mod Rounds
pub mod Print
pub mod Tokens
pub mod Words
pub mod Levels
pub mod RoundTrip
mod Tests
use csse332lab.Base.{
  ℕ, zero, suc, ◌+◌, Bool, true, false, not, ◌&&◌, ◌||◌, List, [], ◌∷◌, ◌==◌, if◌then◌else◌, ltb,
  ◌++◌,
}

abbrev pub Bytes : Type 0
Bytes = List ℕ

-- Whether the byte is in the string.
abbrev pub strchr : Bytes → ℕ → Bool
strchr [] c = false
strchr (t ∷ toks) c = t == c || strchr toks c

abbrev pub whitespace : Bytes
whitespace = b' ' ∷ b'\t' ∷ b'\r' ∷ b'\n' ∷ 11 ∷ []

abbrev pub symbols : Bytes
symbols = b'<' ∷ b'|' ∷ b'>' ∷ b'&' ∷ b';' ∷ b'(' ∷ b')' ∷ []

-- while(s < es && strchr(whitespace, *s)) s++;
pub skip_white : Bytes → Bytes
skip_white [] = []
skip_white (c ∷ s) = if strchr whitespace c then skip_white s else c ∷ s

-- The bytes up to white space or a symbol, and those from there on.
pub span_word : Bytes → Bytes × Bytes
span_word [] = ([], [])
span_word (c ∷ s) =
    let (word, rest) = span_word s in
    if not (strchr whitespace c) && not (strchr symbols c) then (c ∷ word, rest) else ([], c ∷ s)

-- `>` or `>>`, with what is behind the first byte.
pub after_gt : Bytes → ℕ × Bytes × Bytes
after_gt [] = (b'>', b'>' ∷ [], [])
after_gt (d ∷ s) =
    if d == b'>'
    then (b'+', b'>' ∷ b'>' ∷ [], skip_white s)
    else (b'>', b'>' ∷ [], skip_white (d ∷ s))

-- The switch of `gettoken`.
pub token : Bytes → ℕ × Bytes × Bytes
token [] = (0, [], [])
token (c ∷ s) =
    if strchr (b'|' ∷ b'(' ∷ b')' ∷ b';' ∷ b'&' ∷ b'<' ∷ []) c
    then (c, c ∷ [], skip_white s)
    else if c == b'>'
    then after_gt s
    else let (word, rest) = span_word (c ∷ s) in (b'a', word, skip_white rest)

-- The kind of the token, its text, and what is left in `*ps`.
pub gettoken : Bytes → ℕ × Bytes × Bytes
gettoken s = token (skip_white s)

abbrev pub starts : (toks s : Bytes) → Bool
starts toks [] = false
starts toks (c ∷ s) = strchr toks c

pub peek : (toks s : Bytes) → Bool × Bytes
peek toks s = let s = skip_white s in (starts toks s, s)

pub data Cmd : Type 0 where
  execcmd : (argv : List Bytes) → Cmd
  redircmd : (cmd : Cmd) → (file : Bytes) → (mode fd : ℕ) → Cmd
  pipecmd : (left right : Cmd) → Cmd
  listcmd : (left right : Cmd) → Cmd
  backcmd : (cmd : Cmd) → Cmd

-- A redirection that `parseredirs` reads, before it stands round a command.
pub record Redir : Type 0 where
  pub file : Bytes
  pub mode : ℕ
  pub fd : ℕ

abbrev pub wrap : Cmd → List Redir → Cmd
wrap cmd [] = cmd
wrap cmd (r ∷ rs) = wrap (redircmd cmd r.file r.mode r.fd) rs

abbrev pub o_rdonly : ℕ
o_rdonly = 0

-- O_WRONLY|O_CREATE|O_TRUNC
abbrev pub o_write : ℕ
o_write = 0x601

-- O_WRONLY|O_CREATE
abbrev pub o_append : ℕ
o_append = 0x201

-- The redirection of the token `tok`.
abbrev pub redir_of : ℕ → Bytes → Redir
redir_of tok file =
    if tok == b'<'
    then record { file = file; mode = o_rdonly; fd = 0 }
    else if tok == b'>'
    then record { file = file; mode = o_write; fd = 1 }
    else record { file = file; mode = o_append; fd = 1 }

-- `panics` is a call of `panic`, which ends the process.
pub data Result (A : Type 0) : Type 0 where
  ok : A → Result A
  panics : Result A
  out_of_fuel : Result A

infixl 5 ◌>>=◌
abbrev pub ◌>>=◌ : {A B : Type 0} → Result A → (A → Result B) → Result B
ok a >>= k = k a
panics >>= k = panics
out_of_fuel >>= k = out_of_fuel

-- The loop of `parseredirs`: the redirections in order, and what is left.
pub parseredirs : ℕ → Bytes → Result (List Redir × Bytes)
parseredirs zero s = out_of_fuel
parseredirs (suc k) s =
    let (more, s) = peek (b'<' ∷ b'>' ∷ []) s in
    let (tok, _, s1) = gettoken s in
    let (a, file, s2) = gettoken s1 in
    let rest = parseredirs k s2 >>= λ (rs, s). ok (redir_of tok file ∷ rs, s) in
    if not more then ok ([], s) else if not (a == b'a') then panics else rest

abbrev pub maxargs : ℕ
maxargs = 10

-- The loop of `parseexec`: the arguments and the redirections that it reads.
pub parseargs : ℕ → (argc : ℕ) → Bytes → Result (List Bytes × List Redir × Bytes)
parseargs zero argc s = out_of_fuel
parseargs (suc k) argc s =
    let (stop, s) = peek (b'|' ∷ b')' ∷ b'&' ∷ b';' ∷ []) s in
    let (tok, arg, s1) = gettoken s in
    let rest = parseredirs (suc k) s1 >>= λ (rs, s2).
    parseargs k (argc + 1) s2 >>= λ (argv, rs', s). ok (arg ∷ argv, rs ++ rs', s) in
    if stop
    then ok ([], [], s)
    else if tok == 0
    then ok ([], [], s1)
    else if not (tok == b'a')
    then panics
    else if not (ltb (argc + 1) maxargs)
    then panics
    else rest

-- while(peek(ps, es, "&")) of `parseline`
pub parsebacks : ℕ → Cmd → Bytes → Result (Cmd × Bytes)
parsebacks zero cmd s = out_of_fuel
parsebacks (suc k) cmd s =
    let (more, s) = peek (b'&' ∷ []) s in
    let (_, _, s1) = gettoken s in
    let rest = parsebacks k (backcmd cmd) s1 in if more then rest else ok (cmd, s)

mutual
  pub parseline : ℕ → Bytes → Result (Cmd × Bytes)
  parseline zero s = out_of_fuel
  parseline (suc f) s = parsepipe f s >>= λ (cmd, s). parsebacks f cmd s >>= λ (cmd, s).
      let (more, s) = peek (b';' ∷ []) s in
      let (_, _, s1) = gettoken s in
      let rest = parseline f s1 >>= λ (right, s). ok (listcmd cmd right, s) in
      if more then rest else ok (cmd, s)

  pub parsepipe : ℕ → Bytes → Result (Cmd × Bytes)
  parsepipe zero s = out_of_fuel
  parsepipe (suc f) s = parseexec f s >>= λ (cmd, s).
      let (more, s) = peek (b'|' ∷ []) s in
      let (_, _, s1) = gettoken s in
      let rest = parsepipe f s1 >>= λ (right, s). ok (pipecmd cmd right, s) in
      if more then rest else ok (cmd, s)

  pub parseexec : ℕ → Bytes → Result (Cmd × Bytes)
  parseexec zero s = out_of_fuel
  parseexec (suc f) s =
      let (block, s) = peek (b'(' ∷ []) s in
      let nested = parseblock f s in
      let simple = parseredirs f s >>= λ (rs, s).
      parseargs f 0 s >>= λ (argv, rs', s). ok (wrap (execcmd argv) (rs ++ rs'), s) in
      if block then nested else simple

  -- `peek(ps, es, "(")` holds where it is called.
  pub parseblock : ℕ → Bytes → Result (Cmd × Bytes)
  parseblock zero s = out_of_fuel
  parseblock (suc f) s =
      let (open_, s) = peek (b'(' ∷ []) s in
      let (_, _, s1) = gettoken s in
      let nested = parseline f s1 >>= λ (cmd, s2).
      let (close, s2) = peek (b')' ∷ []) s2 in
      let (_, _, s3) = gettoken s2 in
      let rest = parseredirs f s3 >>= λ (rs, s). ok (wrap cmd rs, s) in
      if not close then panics else rest in
      if not open_ then panics else nested

abbrev pub is_empty : Bytes → Bool
is_empty [] = true
is_empty (c ∷ s) = false

-- With `f` rounds: the command, or a panic.
pub parsecmd : ℕ → Bytes → Result Cmd
parsecmd f s = parseline f s >>= λ (cmd, s). if not (is_empty (peek [] s).1) then panics else ok cmd
