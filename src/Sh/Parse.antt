-- ===== src/Sh/Parse.antt =====
-- Reading tokens makes the text shorter; `parseredirs` ends.
use csse332lab.Base.{
  ℕ, zero, suc, ◌≤◌, ◌<◌, ◌≡◌, refl, ◌∙◌, ap, inl, inr, true, false, not, ◌&&◌, [], ◌∷◌, arith,
  ◌==◌, Bool-cases, length,
}
use csse332lab.Sh.{
  Bytes, strchr, whitespace, symbols, skip_white, span_word, after_gt, token, gettoken, starts,
  peek, Result, ok, panics, out_of_fuel, ◌>>=◌, parseredirs, is_empty,
}

pub length-skip_white : (s : Bytes) → length (skip_white s) ≤ length s
unfolding skip_white
length-skip_white [] = omega arith
length-skip_white (c ∷ s) =
    let ih = length-skip_white s in
    elim (Bool-cases (strchr whitespace c)) [
      | inl e ↦ rw e (omega arith)
      | inr e ↦ rw e (omega arith)
    ]

length-span_word : (s : Bytes) → length (span_word s).1 ≤ length s
unfolding span_word
length-span_word [] = omega arith
length-span_word (c ∷ s) =
    let ih = length-span_word s in
    elim (Bool-cases (not (strchr whitespace c) && not (strchr symbols c))) [
      | inl e ↦ rw e (omega arith)
      | inr e ↦ rw e (omega arith)
    ]

length-after_gt : (s : Bytes) → length (after_gt s).2 ≤ length s
unfolding after_gt
length-after_gt [] = omega arith
length-after_gt (d ∷ s) =
    let a = length-skip_white s in
    let b = length-skip_white (d ∷ s) in
    elim (Bool-cases (d == b'>')) [ inl e ↦ rw e (omega arith) | inr e ↦ rw e (omega arith) ]

-- A byte that no case of `gettoken` names is in a word, or is white space.
word_or_white :
    (c : ℕ)
    → strchr (b'|' ∷ b'(' ∷ b')' ∷ b';' ∷ b'&' ∷ b'<' ∷ []) c ≡ false
    → (c == b'>') ≡ false
    → strchr whitespace c ≡ false
    → (not (strchr whitespace c) && not (strchr symbols c)) ≡ true
word_or_white c a b w = ground arith

length-rest :
    (c : ℕ) (s : Bytes)
    → strchr (b'|' ∷ b'(' ∷ b')' ∷ b';' ∷ b'&' ∷ b'<' ∷ []) c ≡ false
    → (c == b'>') ≡ false
    → length (skip_white (span_word (c ∷ s)).1) ≤ length s
unfolding span_word skip_white
length-rest c s a b = elim (Bool-cases (strchr whitespace c)) [
  | inl w ↦ let le = length-skip_white s in rw (w, w) le
  | inr w ↦
      let le = length-skip_white (span_word s).1 in
      let le' = length-span_word s in rw (word_or_white c a b w) (omega arith)
]

length-token : (c : ℕ) (s : Bytes) → length (token (c ∷ s)).2 < suc (length s)
unfolding token
length-token c s = elim (Bool-cases (strchr (b'|' ∷ b'(' ∷ b')' ∷ b';' ∷ b'&' ∷ b'<' ∷ []) c)) [
  | inl e ↦ let le = length-skip_white s in rw e (omega arith)
  | inr e ↦ elim (Bool-cases (c == b'>')) [
    | inl g ↦ let le = length-after_gt s in rw (e, g) (omega arith)
    | inr g ↦ rw (e, g) (let le = length-rest c s e g in omega arith)
  ]
]

-- Reading a token where the text has not ended makes it shorter.
pub length-gettoken :
    (s : Bytes) → is_empty (skip_white s) ≡ false → length (gettoken s).2 < length s
unfolding gettoken
length-gettoken s e = go (skip_white s) e (length-skip_white s)
  where
    go : (t : Bytes) → is_empty t ≡ false → length t ≤ length s → length (token t).2 < length s
    go [] e le = absurd (ground (arith, e))
    go (c ∷ t) e le = let lt = length-token c t in omega arith

pub length-gettoken_le : (s : Bytes) → length (gettoken s).2 ≤ length s
unfolding gettoken token
length-gettoken_le s = go (skip_white s) (length-skip_white s)
  where
    go : (t : Bytes) → length t ≤ length s → length (token t).2 ≤ length s
    go [] le = omega arith
    go (c ∷ t) le = let lt = length-token c t in omega arith

pub skip_white_twice : (s : Bytes) → skip_white (skip_white s) ≡ skip_white s
unfolding skip_white
skip_white_twice [] = refl
skip_white_twice (c ∷ s) = elim (Bool-cases (strchr whitespace c)) [
  | inl e ↦ rw e (skip_white_twice s)
  | inr e ↦ rw (e, e) refl
]

-- A byte that is looked for is there.
starts-not_empty : (toks s : Bytes) → starts toks s ≡ true → is_empty s ≡ false
starts-not_empty toks [] e = ground (arith, e)
starts-not_empty toks (c ∷ s) e = refl

-- Behind `peek` and `gettoken` of one of the bytes there is less.
pub length-peek-gettoken :
    (toks s : Bytes) → (peek toks s).0 ≡ true → length (gettoken (peek toks s).1).2 < length s
unfolding peek
length-peek-gettoken toks s e =
    let lt =
      length-gettoken (skip_white s)
        (ap is_empty (skip_white_twice s) ∙ starts-not_empty toks (skip_white s) e) in
    let le = length-skip_white s in omega arith

pub length-peek : (toks s : Bytes) → length (peek toks s).1 ≤ length s
unfolding peek
length-peek toks s = length-skip_white s

-- The result is not for want of rounds, and what is read has `P`.
abbrev pub Ends : {A : Type 0} → (A → Type 0) → Result A → Type 0
Ends P (ok a) = P a
Ends P panics = Unit
Ends P out_of_fuel = ⊥

pub Ends-bind :
    {A B : Type 0} (P : A → Type 0) (Q : B → Type 0) (m : Result A) (k : A → Result B)
    → Ends P m
    → ((a : A) → P a → Ends Q (k a))
    → Ends Q (m >>= k)
Ends-bind P Q (ok a) k h f = f a h
Ends-bind P Q panics k h f = tt
Ends-bind P Q out_of_fuel k h f = h

pub parseredirs-Ends :
    (k : ℕ) (s : Bytes) → length s < k → Ends (λ r. length r.1 ≤ length s) (parseredirs k s)
unfolding parseredirs
parseredirs-Ends zero s lt = absurd (omega (arith, lt))
parseredirs-Ends (suc k) s lt =
    let toks : Bytes = b'<' ∷ b'>' ∷ [] in
    let le = length-peek toks s in
    elim (Bool-cases (peek toks s).0) [
      | inr e ↦ rw e le
      | inl e ↦
          let s1 = (gettoken (peek toks s).1).2 in
          let less = length-peek-gettoken toks s e in
          elim (Bool-cases ((gettoken s1).0 == b'a')) [
            | inr a ↦ rw (e, a) tt
            | inl a ↦
                let le' = length-gettoken_le s1 in
                rw (e, a)
                  (Ends-bind (λ r. length r.1 ≤ length (gettoken s1).2) (λ r. length r.1 ≤ length s)
                    (parseredirs k (gettoken s1).2) _
                    (parseredirs-Ends k (gettoken s1).2 (omega arith)) (λ r h. omega arith))
          ]
    ]
