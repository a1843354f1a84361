-- ===== src/Sh/Levels.antt =====
-- The parsers of the four levels on printed commands: from one level to the next.
use mathlib.Core.List.{append_assoc}
use native.Mathlib.Decide.{ℕ_discrete}
use csse332lab.Base.{
  ℕ, zero, suc, ◌+◌, ◌*◌, ◌≤◌, ◌<◌, ◌≡◌, refl, sym, ◌∙◌, ap, false, List, [], ◌∷◌, ◌++◌, arith,
  if◌then◌else◌, All, length, length-append,
}
use csse332lab.Sh.{
  Bytes, strchr, skip_white, gettoken, starts, peek, Cmd, pipecmd, listcmd, backcmd, Redir, wrap,
  Result, ok, panics, out_of_fuel, ◌>>=◌, parsebacks, parseline, parsepipe, parseexec,
}
use csse332lab.Sh.Print.{print, in_parens, print_redirs, IsRedir}
use csse332lab.Sh.Tokens.{
  Next, after_exec, after_pipe, after_line, Next-skip_white, gettoken-symbol, peek-byte, peek-Next,
}
use csse332lab.Sh.Words.{peek_twice}

-- White space at the front does not matter.
parseexec-skip_white : (f : ℕ) (s : Bytes) → parseexec f (skip_white s) ≡ parseexec f s
unfolding parseexec
parseexec-skip_white zero s = refl
parseexec-skip_white (suc f) s = rw (peek_twice (b'(' ∷ []) s) refl

parsepipe-skip_white : (f : ℕ) (s : Bytes) → parsepipe f (skip_white s) ≡ parsepipe f s
unfolding parsepipe
parsepipe-skip_white zero s = refl
parsepipe-skip_white (suc f) s = rw (parseexec-skip_white f s) refl

pub parseline-skip_white : (f : ℕ) (s : Bytes) → parseline f (skip_white s) ≡ parseline f s
unfolding parseline
parseline-skip_white zero s = refl
parseline-skip_white (suc f) s = rw (parsepipe-skip_white f s) refl

bind_assoc :
    {A B C : Type 0} (m : Result A) (j : A → Result B) (k : B → Result C)
    → ((m >>= j) >>= k) ≡ (m >>= λ a. j a >>= k)
bind_assoc (ok a) j k = refl
bind_assoc panics j k = refl
bind_assoc out_of_fuel j k = refl

-- `c` is read at each level, with what follows left as it is.
abbrev pub ReadsExec : Cmd → Type 0
ReadsExec c =
    (f : ℕ) (rs : List Redir) (s t : Bytes)
    → t ≡ print 3 c ++ (print_redirs rs ++ s)
    → All IsRedir rs
    → Next after_exec s
    → 4 * length t + 2 ≤ f
    → parseexec f t ≡ ok (wrap c rs, s)

abbrev pub ReadsPipe : Cmd → Type 0
ReadsPipe c =
    (f : ℕ) (s t : Bytes)
    → t ≡ print 2 c ++ s
    → Next after_pipe s
    → 4 * length t + 3 ≤ f
    → parsepipe f t ≡ ok (c, s)

abbrev pub pipe_backs : (f k : ℕ) → Bytes → Result (Cmd × Bytes)
pipe_backs f k t = parsepipe f t >>= λ (cmd, s). parsebacks k cmd s

abbrev pub ReadsBack : Cmd → Type 0
ReadsBack c =
    (f k : ℕ) (s t : Bytes)
    → t ≡ print 1 c ++ s
    → Next after_pipe s
    → 4 * length t + 3 ≤ f
    → length t < k
    → (k' : ℕ) × (length s < k') × (pipe_backs f k t ≡ parsebacks k' c s)

abbrev pub ReadsLine : Cmd → Type 0
ReadsLine c =
    (f : ℕ) (s t : Bytes)
    → t ≡ print 0 c ++ s
    → Next after_line s
    → 4 * length t + 4 ≤ f
    → parseline f t ≡ ok (c, s)

Next-exec : (s : Bytes) → Next after_pipe s → Next after_exec s
Next-exec [] h = refl
Next-exec (c ∷ s) h = ground (arith, h)

pub Next-pipe : (s : Bytes) → Next after_line s → Next after_pipe s
Next-pipe [] h = refl
Next-pipe (c ∷ s) h = ground (arith, h)

pub length_behind : (p s t : Bytes) → t ≡ p ++ s → length s ≤ length t
length_behind p s t is = rw is (omega (arith, length-append {0} p s))

-- No byte of `toks` comes next.
peek_not :
    (c : ℕ) (toks s : Bytes)
    → Next toks s
    → Next after_exec s
    → strchr toks c ≡ false
    → peek (c ∷ []) s ≡ (false, s)
peek_not c toks [] h e n = peek-Next (c ∷ []) [] refl
peek_not c toks (d ∷ s) h e n =
    let other : strchr (c ∷ []) d ≡ false = elim (ℕ_discrete c d) [
      | yes q ↦ absurd (ground (arith, h, n, ap (strchr toks) q))
      | no ne ↦ ground arith
    ] in
    peek-Next (c ∷ []) (d ∷ s) e ∙ ap (λ b. (b, d ∷ s)) other

pub lift_pipe : (c : Cmd) → print 2 c ≡ print 3 c → ReadsExec c → ReadsPipe c
unfolding parsepipe print_redirs
lift_pipe c e reads zero s t is h le = absurd (omega (arith, le))
lift_pipe c e reads (suc f) s t is h le =
    rw
      (
        reads f [] s t (is ∙ ap (λ p. p ++ s) e) tt (Next-exec s h) (omega arith),
        peek_not b'|' after_pipe s h (Next-exec s h) refl,
      )
      refl

pub lift_back : (c : Cmd) → print 1 c ≡ print 2 c → ReadsPipe c → ReadsBack c
lift_back c e reads f k s t is h le lt = (
  k,
  omega (arith, length_behind (print 1 c) s t is),
  rw (reads f s t (is ∙ ap (λ p. p ++ s) e) h le) refl,
)

-- `parsebacks` at the end of the commands before it.
parsebacks_end :
    (k : ℕ) (c : Cmd) (s : Bytes)
    → length s < k
    → Next after_exec s
    → starts (b'&' ∷ []) s ≡ false
    → parsebacks k c s ≡ ok (c, s)
unfolding parsebacks
parsebacks_end zero c s lt h n = absurd (omega (arith, lt))
parsebacks_end (suc k) c s lt h n = rw (peek-Next (b'&' ∷ []) s h, n) refl

-- The end of `parseline`.
abbrev line_rest : ℕ → Cmd × Bytes → Result (Cmd × Bytes)
line_rest f (c, s) =
    let (more, s) = peek (b';' ∷ []) s in
    let (_, _, s1) = gettoken s in
    let rest = parseline f s1 >>= λ (right, s). ok (listcmd c right, s) in
    if more then rest else ok (c, s)

parseline-pipe_backs :
    (f : ℕ) (s t : Bytes) (c : Cmd)
    → pipe_backs f f t ≡ ok (c, s)
    → parseline (suc f) t ≡ line_rest f (c, s)
unfolding parseline
parseline-pipe_backs f s t c e =
    sym (bind_assoc (parsepipe f t) (λ (cmd, s). parsebacks f cmd s) (line_rest f))
    ∙ ap (λ m. m >>= line_rest f) e

-- `pipe_backs` up to what is neither `&` nor a pipe.
pipe_backs_end :
    (f : ℕ) (s t : Bytes) (c : Cmd)
    → ReadsBack c
    → t ≡ print 1 c ++ s
    → Next after_pipe s
    → starts (b'&' ∷ []) s ≡ false
    → 4 * length t + 3 ≤ f
    → pipe_backs f f t ≡ ok (c, s)
pipe_backs_end f s t c reads is h n le =
    let (k, lt, e) = reads f f s t is h le (omega arith) in
    e ∙ parsebacks_end k c s lt (Next-exec s h) n

pub lift_line : (c : Cmd) → print 0 c ≡ print 1 c → ReadsBack c → ReadsLine c
lift_line c e reads zero s t is h le = absurd (omega (arith, le))
lift_line c e reads (suc f) s t is h le =
    parseline-pipe_backs f s t c (
      pipe_backs_end f s t c reads (is ∙ ap (λ p. p ++ s) e) (Next-pipe s h) (no_and s h)
        (omega arith))
    ∙ rw (peek_not b';' after_line s h (Next-exec s (Next-pipe s h)) refl) refl
  where
    no_and : (s : Bytes) → Next after_line s → starts (b'&' ∷ []) s ≡ false
    no_and [] h = refl
    no_and (c ∷ s) h = ground (arith, h)

-- `left ; right`
pub line_list :
    (left right : Cmd) → ReadsBack left → ReadsLine right → ReadsLine (listcmd left right)
unfolding print in_parens
line_list left right l r zero s t is h le = absurd (omega (arith, le))
line_list left right l r (suc f) s t is h le =
    let behind = b';' ∷ (print 0 right ++ s) in
    let is' : t ≡ print 1 left ++ behind =
      is ∙ append_assoc (print 1 left) (b';' ∷ print 0 right) s in
    let shorter = length_behind (print 1 left) behind t is' in
    parseline-pipe_backs f behind t left
      (pipe_backs_end f behind t left l is' refl refl (omega arith))
    ∙ rw
        (
          peek-byte (b';' ∷ []) b';' (print 0 right ++ s) refl,
          gettoken-symbol b';' (print 0 right ++ s) refl,
          parseline-skip_white f (print 0 right ++ s),
          r f s (print 0 right ++ s) refl h (omega arith),
        )
        refl

-- `left | right`
pub pipe_pipe :
    (left right : Cmd) → ReadsExec left → ReadsPipe right → ReadsPipe (pipecmd left right)
unfolding print in_parens parsepipe print_redirs
pipe_pipe left right l r zero s t is h le = absurd (omega (arith, le))
pipe_pipe left right l r (suc f) s t is h le =
    let behind = b'|' ∷ (print 2 right ++ s) in
    let is' : t ≡ print 3 left ++ behind =
      is ∙ append_assoc (print 3 left) (b'|' ∷ print 2 right) s in
    let shorter = length_behind (print 3 left) behind t is' in
    rw
      (
        l f [] behind t is' tt refl (omega arith),
        peek-byte (b'|' ∷ []) b'|' (print 2 right ++ s) refl,
        gettoken-symbol b'|' (print 2 right ++ s) refl,
        parsepipe-skip_white f (print 2 right ++ s),
        r f s (print 2 right ++ s) refl h (omega arith),
      )
      refl

-- `cmd &`
pub back_back : (c : Cmd) → ReadsBack c → ReadsBack (backcmd c)
unfolding print in_parens parsebacks
back_back c reads f k s t is h le lt =
    let behind = b'&' ∷ s in
    let is' : t ≡ print 1 c ++ behind = is ∙ append_assoc (print 1 c) (b'&' ∷ []) s in
    let (k', lt', e) = reads f k behind t is' refl le lt in step k' lt' e
  where
    step :
        (k' : ℕ)
        → length (b'&' ∷ s) < k'
        → pipe_backs f k t ≡ parsebacks k' c (b'&' ∷ s)
        → (k'' : ℕ) × (length s < k'') × (pipe_backs f k t ≡ parsebacks k'' (backcmd c) s)
    step zero lt' e = absurd (omega (arith, lt'))
    step (suc k') lt' e = (
      k',
      omega arith,
      e
          ∙ rw
              (
                peek-byte (b'&' ∷ []) b'&' s refl,
                gettoken-symbol b'&' s refl,
                Next-skip_white s (Next-exec s h),
              )
              refl,
    )
