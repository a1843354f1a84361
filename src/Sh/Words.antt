-- ===== src/Sh/Words.antt =====
-- `parseredirs` and `parseargs` on what is printed.
use mathlib.Core.List.{append_assoc, append-nil}
use csse332lab.Base.{
  ℕ, zero, suc, ◌+◌, ◌<◌, ◌≡◌, refl, sym, subst, ◌∙◌, ap, inl, inr, true, false, List, [], ◌∷◌,
  ◌++◌, arith, ltb, ◌==◌, All, length,
}
use csse332lab.Sh.{
  Bytes, strchr, whitespace, skip_white, token, after_gt, gettoken, starts, peek, Redir, redir_of,
  ok, ◌>>=◌, maxargs, parseredirs, parseargs,
}
use csse332lab.Sh.Parse.{skip_white_twice}
use csse332lab.Sh.Print.{print_words, print_redir, print_redirs, IsWord, is_word_byte, IsRedir}
use csse332lab.Sh.Tokens.{
  Next, Apart, after_exec, Next-skip_white, Next-Apart, gettoken-word, gettoken-symbol, peek-byte,
  peek-Next, peek_white,
}

pub peek_twice : (toks s : Bytes) → peek toks (skip_white s) ≡ peek toks s
unfolding peek
peek_twice toks s = rw (skip_white_twice s) refl

pub peek_rest : (toks s : Bytes) → (peek toks s).1 ≡ skip_white s
unfolding peek
peek_rest toks s = refl

pub parseredirs-skip_white : (k : ℕ) (s : Bytes) → parseredirs k (skip_white s) ≡ parseredirs k s
unfolding parseredirs
parseredirs-skip_white zero s = refl
parseredirs-skip_white (suc k) s = rw (peek_twice (b'<' ∷ b'>' ∷ []) s) refl

pub parseargs-skip_white :
    (k argc : ℕ) (s : Bytes) → parseargs k argc (skip_white s) ≡ parseargs k argc s
unfolding parseargs
parseargs-skip_white zero argc s = refl
parseargs-skip_white (suc k) argc s = rw (peek_twice (b'|' ∷ b')' ∷ b'&' ∷ b';' ∷ []) s) refl

word_first : (w s : Bytes) → IsWord w → skip_white (w ++ s) ≡ w ++ s
unfolding skip_white
word_first [] s h = absurd (ground (arith, h.0))
word_first (c ∷ w) s h = let e : strchr whitespace c ≡ false = ground (arith, h.1.0) in rw e refl

-- The tokens of a printed redirection.
record Redirects (r : Redir) (s : Bytes) : Type 0 where
  tok : ℕ
  text : Bytes
  there : peek (b'<' ∷ b'>' ∷ []) (print_redir r ++ s) ≡ (true, print_redir r ++ s)
  first : gettoken (print_redir r ++ s) ≡ (tok, text, r.file ++ s)
  is : redir_of tok r.file ≡ r

gt_word : (w s : Bytes) → IsWord w → gettoken (b'>' ∷ (w ++ s)) ≡ (b'>', b'>' ∷ [], w ++ s)
unfolding gettoken token after_gt skip_white
gt_word [] s h = absurd (ground (arith, h.0))
gt_word (c ∷ w) s h =
    let no_gt : (c == b'>') ≡ false = ground (arith, h.1.0) in
    let e : strchr whitespace c ≡ false = ground (arith, h.1.0) in rw (no_gt, e) refl

gt_gt_word :
    (w s : Bytes) → IsWord w → gettoken (b'>' ∷ b'>' ∷ (w ++ s)) ≡ (b'+', b'>' ∷ b'>' ∷ [], w ++ s)
unfolding gettoken token after_gt skip_white
gt_gt_word w s h = ap (λ t. (b'+', b'>' ∷ b'>' ∷ [], t)) (word_first w s h)

print_redir-Redirects : (r : Redir) (s : Bytes) → IsRedir r → Redirects r s
unfolding print_redir
print_redir-Redirects r s h = elim h.kind [
  | inl (m, f) ↦ record {
    tok = b'<';
    text = b'<' ∷ [];
    there = rw f (peek-byte (b'<' ∷ b'>' ∷ []) b'<' (r.file ++ s) refl);
    first = rw f (
        gettoken-symbol b'<' (r.file ++ s) refl
        ∙ ap (λ t. (b'<', b'<' ∷ [], t)) (word_first r.file s h.word));
    is = rw (m, f) refl;
  }
  | inr (inl (m, f)) ↦ record {
    tok = b'>';
    text = b'>' ∷ [];
    there = rw (f, m) (peek-byte (b'<' ∷ b'>' ∷ []) b'>' (r.file ++ s) refl);
    first = rw (f, m) (gt_word r.file s h.word);
    is = rw (m, f) refl;
  }
  | inr (inr (m, f)) ↦ record {
    tok = b'+';
    text = b'>' ∷ b'>' ∷ [];
    there = rw (f, m) (peek-byte (b'<' ∷ b'>' ∷ []) b'>' (b'>' ∷ (r.file ++ s)) refl);
    first = rw (f, m) (gt_gt_word r.file s h.word);
    is = rw (m, f) refl;
  }
]

-- What is printed of redirections begins with a symbol.
pub Apart-redirs :
    (rs : List Redir) (s : Bytes) → All IsRedir rs → Apart s → Apart (print_redirs rs ++ s)
unfolding print_redirs print_redir
Apart-redirs [] s h a = a
Apart-redirs (r ∷ rs) s h a = elim h.0.kind [
  | inl (m, f) ↦ rw f refl
  | inr (inl (m, f)) ↦ rw (f, m) refl
  | inr (inr (m, f)) ↦ rw (f, m) refl
]

-- `parseredirs` reads what is printed of redirections, up to what is none.
pub parseredirs-print :
    (k : ℕ) (rs : List Redir) (s : Bytes)
    → All IsRedir rs
    → Apart s
    → (peek (b'<' ∷ b'>' ∷ []) s).0 ≡ false
    → length rs < k
    → parseredirs k (print_redirs rs ++ s) ≡ ok (rs, skip_white s)
unfolding parseredirs print_redirs
parseredirs-print zero rs s h a stop lt = absurd (omega (arith, lt))
parseredirs-print (suc k) [] s h a stop lt = rw (stop, peek_rest (b'<' ∷ b'>' ∷ []) s) refl
parseredirs-print (suc k) (r ∷ rs) s h a stop lt =
    let more = print_redirs rs ++ s in
    let t = print_redir-Redirects r more h.0 in
    let whole : (print_redir r ++ print_redirs rs) ++ s ≡ print_redir r ++ more =
      append_assoc (print_redir r) (print_redirs rs) s in
    let ih = parseredirs-skip_white k more ∙ parseredirs-print k rs s h.1 a stop (omega arith) in
    rw
      (
        whole,
        t.there,
        t.first,
        gettoken-word r.file more h.0.word (Apart-redirs rs s h.1 a),
        ih,
        t.is,
      )
      refl

pub parseredirs_none :
    (k : ℕ) (s : Bytes)
    → (peek (b'<' ∷ b'>' ∷ []) s).0 ≡ false
    → parseredirs (suc k) s ≡ ok ([], skip_white s)
unfolding parseredirs
parseredirs_none k s stop = rw (stop, peek_rest (b'<' ∷ b'>' ∷ []) s) refl

-- No redirection comes next.
pub no_redir : (s : Bytes) → Next after_exec s → (peek (b'<' ∷ b'>' ∷ []) s).0 ≡ false
no_redir s h = ap (λ r. r.0) (peek-Next (b'<' ∷ b'>' ∷ []) s h) ∙ go s h
  where
    go : (s : Bytes) → Next after_exec s → starts (b'<' ∷ b'>' ∷ []) s ≡ false
    go [] h = refl
    go (c ∷ s) h = ground (arith, h)

pub no_redir_word : (w s : Bytes) → IsWord w → (peek (b'<' ∷ b'>' ∷ []) (b' ' ∷ (w ++ s))).0 ≡ false
no_redir_word [] s h = absurd (ground (arith, h.0))
no_redir_word (c ∷ w) s h =
    let e : strchr whitespace c ≡ false = ground (arith, h.1.0) in
    let e' : strchr (b'<' ∷ b'>' ∷ []) c ≡ false = ground (arith, h.1.0) in
    ap (λ r. r.0)
      (peek_white (b'<' ∷ b'>' ∷ []) (c ∷ (w ++ s)) ∙ peek-byte (b'<' ∷ b'>' ∷ []) c (w ++ s) e)
    ∙ e'

-- `parseargs` at the end of a command.
pub parseargs_end :
    (k argc : ℕ) (s : Bytes) → Next after_exec s → parseargs (suc k) argc s ≡ ok ([], [], s)
unfolding parseargs peek skip_white gettoken token
parseargs_end k argc [] h = refl
parseargs_end k argc (c ∷ s) h =
    let e : strchr whitespace c ≡ false = ground (arith, h) in rw (e, h) refl

pub peek-word :
    (toks w s : Bytes)
    → IsWord w
    → ((c : ℕ) → is_word_byte c ≡ true → strchr toks c ≡ false)
    → peek toks (b' ' ∷ (w ++ s)) ≡ (false, w ++ s)
peek-word toks [] s h out = absurd (ground (arith, h.0))
peek-word toks (c ∷ w) s h out =
    let e : strchr whitespace c ≡ false = ground (arith, h.1.0) in
    peek_white toks (c ∷ (w ++ s))
    ∙ peek-byte toks c (w ++ s) e
    ∙ ap (λ b. (b, c ∷ (w ++ s))) (out c h.1.0)

parseargs-word :
    (k argc : ℕ) (w s : Bytes)
    → IsWord w
    → Apart s
    → argc + 1 < maxargs
    → parseargs (suc k) argc (b' ' ∷ (w ++ s)) ≡ (
        parseredirs (suc k) s >>= λ (rs, s2).
        parseargs k (argc + 1) s2 >>= λ (argv, rs', s3). ok (w ∷ argv, rs ++ rs', s3))
unfolding parseargs
parseargs-word k argc w s h a few =
    let e : ltb (argc + 1) maxargs ≡ true = ground arith in
    rw
      (
        peek-word (b'|' ∷ b')' ∷ b'&' ∷ b';' ∷ []) w s h (λ c p. ground (arith, p)),
        gettoken-word w s h a,
        e,
        parseredirs-skip_white (suc k) s,
      )
      refl

-- `parseargs` reads printed words, and the redirections behind them.
pub parseargs-print :
    (k argc : ℕ) (w : Bytes) (ws : List Bytes) (rs : List Redir) (s : Bytes)
    → All IsWord (w ∷ ws)
    → All IsRedir rs
    → Next after_exec s
    → argc + length (w ∷ ws) < maxargs
    → length (w ∷ ws) + length rs < k
    → parseargs k argc (print_words (w ∷ ws) ++ (print_redirs rs ++ s)) ≡ ok (w ∷ ws, rs, s)
unfolding print_words
parseargs-print zero argc w ws rs s hw hr hs few lt = absurd (omega (arith, lt))
parseargs-print (suc zero) argc w ws rs s hw hr hs few lt = absurd (omega (arith, lt))
parseargs-print (suc (suc k)) argc w [] rs s hw hr hs few lt =
    rw
      (
        append-nil w,
        parseargs-word (suc k) argc w (print_redirs rs ++ s) hw.0
            (Apart-redirs rs s hr (Next-Apart s hs)) (omega arith),
        parseredirs-print (suc (suc k)) rs s hr (Next-Apart s hs) (no_redir s hs) (omega arith),
        Next-skip_white s hs,
        parseargs_end k (argc + 1) s hs,
        append-nil rs,
      )
      refl
parseargs-print (suc (suc k)) argc w (x ∷ xs) rs s hw hr hs few lt =
    let behind = print_redirs rs ++ s in
    let more = b' ' ∷ ((x ++ print_words xs) ++ behind) in
    let none_next =
      subst (λ t. (peek (b'<' ∷ b'>' ∷ []) (b' ' ∷ t)).0 ≡ false)
        (sym (append_assoc x (print_words xs) behind))
        (no_redir_word x (print_words xs ++ behind) hw.1.0) in
    let ih = parseargs-print (suc k) (argc + 1) x xs rs s hw.1 hr hs (omega arith) (omega arith) in
    rw
      (
        append_assoc w (b' ' ∷ (x ++ print_words xs)) behind,
        parseargs-word (suc k) argc w more hw.0 refl (omega arith),
        parseredirs_none (suc k) more none_next,
        parseargs-skip_white (suc k) (argc + 1) more,
        ih,
      )
      refl
