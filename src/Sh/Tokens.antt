-- ===== src/Sh/Tokens.antt =====
-- The tokens of a printed command.
use csse332lab.Base.{ℕ, ◌≡◌, refl, true, false, ◌||◌, [], ◌∷◌, ◌++◌, arith, ◌==◌, All}
use csse332lab.Sh.{
  Bytes, strchr, whitespace, skip_white, span_word, token, gettoken, starts, peek, is_empty,
}
use csse332lab.Sh.Print.{IsWord, is_word_byte}

-- The text has ended, or goes on with one of the bytes.
abbrev pub Next : (toks s : Bytes) → Type 0
Next toks s = (is_empty s || starts toks s) ≡ true

-- What ends a command in a pipe, in a line, and a line.
abbrev pub after_exec : Bytes
after_exec = b'|' ∷ b')' ∷ b'&' ∷ b';' ∷ []

abbrev pub after_pipe : Bytes
after_pipe = b')' ∷ b'&' ∷ b';' ∷ []

abbrev pub after_line : Bytes
after_line = b')' ∷ []

-- No byte of a word comes next.
abbrev pub Apart : Bytes → Type 0
Apart [] = Unit
Apart (c ∷ s) = is_word_byte c ≡ false

pub Next-skip_white : (s : Bytes) → Next after_exec s → skip_white s ≡ s
unfolding skip_white
Next-skip_white [] h = refl
Next-skip_white (c ∷ s) h = let e : strchr whitespace c ≡ false = ground (arith, h) in rw e refl

pub Next-Apart : (s : Bytes) → Next after_exec s → Apart s
Next-Apart [] h = tt
Next-Apart (c ∷ s) h = ground (arith, h)

pub span_word-word :
    (w s : Bytes) → All (λ c. is_word_byte c ≡ true) w → Apart s → span_word (w ++ s) ≡ (w, s)
unfolding span_word
span_word-word [] [] h a = refl
span_word-word [] (c ∷ s) h a = rw a refl
span_word-word (c ∷ w) s h a = rw (span_word-word w s h.1 a, h.0) refl

-- `gettoken` of a word.
pub gettoken-word : (w s : Bytes) → IsWord w → Apart s → gettoken (w ++ s) ≡ (b'a', w, skip_white s)
unfolding gettoken token skip_white
gettoken-word [] s h a = absurd (ground (arith, h.0))
gettoken-word (c ∷ w) s h a =
    let white : strchr whitespace c ≡ false = ground (arith, h.1.0) in
    let plain : strchr (b'|' ∷ b'(' ∷ b')' ∷ b';' ∷ b'&' ∷ b'<' ∷ []) c ≡ false =
      ground (arith, h.1.0) in
    let no_gt : (c == b'>') ≡ false = ground (arith, h.1.0) in
    rw (white, plain, no_gt, span_word-word (c ∷ w) s h.1 a) refl

pub peek_white : (toks s : Bytes) → peek toks (b' ' ∷ s) ≡ peek toks s
unfolding peek skip_white
peek_white toks s = refl

pub gettoken_white : (s : Bytes) → gettoken (b' ' ∷ s) ≡ gettoken s
unfolding gettoken skip_white
gettoken_white s = refl

-- `gettoken` of a byte that is a token by itself.
pub gettoken-symbol :
    (c : ℕ) (s : Bytes)
    → strchr (b'|' ∷ b'(' ∷ b')' ∷ b';' ∷ b'&' ∷ b'<' ∷ []) c ≡ true
    → gettoken (c ∷ s) ≡ (c, c ∷ [], skip_white s)
unfolding gettoken skip_white token
gettoken-symbol c s h =
    let white : strchr whitespace c ≡ false = ground (arith, h) in rw (white, h) refl

pub peek-byte :
    (toks : Bytes) (c : ℕ) (s : Bytes)
    → strchr whitespace c ≡ false
    → peek toks (c ∷ s) ≡ (strchr toks c, c ∷ s)
unfolding peek skip_white
peek-byte toks c s h = rw h refl

pub peek-Next : (toks s : Bytes) → Next after_exec s → peek toks s ≡ (starts toks s, s)
unfolding peek
peek-Next toks s h = rw (Next-skip_white s h) refl
