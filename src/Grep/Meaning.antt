-- ===== src/Grep/Meaning.antt =====
-- What a pattern means, and that the matcher finds it.
use native.Mathlib.Decide.{ℕ_discrete}
use csse332lab.Base.{
  ℕ, ◌≡◌, ◌≢◌, ◌↔◌, refl, sym, ap, subst, ◌⊎◌, inl, inr, Bool, true, false, ◌||◌, List, [], ◌∷◌,
  ◌++◌, arith, All, ◌==◌, if◌then◌else◌, ==_ne, Bool-cases,
}
use csse332lab.Grep.{
  star, dot, dollar, caret, is_end, matchstar, match_one, matchhere, match_from, match,
}

-- The pattern byte `a` stands for the byte `c`.
abbrev pub FitsByte : ℕ → ℕ → Type 0
FitsByte a c = (a ≡ dot) ⊎ (a ≡ c)

-- `a`, with the pattern `re` behind it, stands for a single byte.
abbrev pub IsPlain : ℕ → List ℕ → Type 0
IsPlain a [] = a ≢ dollar
IsPlain a (b ∷ re) = b ≢ star

-- The pattern stands for a beginning of the text.
pub data Here : List ℕ → List ℕ → Type 0 where
  nothing : {text : List ℕ} → Here [] text
  at_end : {a : ℕ} → a ≡ dollar → Here (a ∷ []) []
  one :
      {a c : ℕ} {re text : List ℕ}
      → IsPlain a re
      → FitsByte a c
      → Here re text
      → Here (a ∷ re) (c ∷ text)
  many :
      {a b : ℕ} {re text : List ℕ} (xs rest : List ℕ)
      → b ≡ star
      → All (FitsByte a) xs
      → text ≡ xs ++ rest
      → Here re rest
      → Here (a ∷ b ∷ re) text

-- Behind some bytes of the text the pattern stands for what follows.
abbrev pub Within : List ℕ → List ℕ → Type 0
Within re text = (xs : List ℕ) × (rest : List ℕ) × (text ≡ xs ++ rest) × Here re rest

abbrev pub Matches : List ℕ → List ℕ → Type 0
Matches [] text = Within [] text
Matches (a ∷ re) text = ((a ≡ caret) × Here re text) ⊎ ((a ≢ caret) × Within (a ∷ re) text)

fits_iff : (a c : ℕ) → ((a == dot || a == c) ≡ true) ↔ FitsByte a c
fits_iff a c = ground arith

-- A beginning of bytes that `a` stands for, and then what `P` says.
abbrev Repeats : ℕ → (List ℕ → Type 0) → List ℕ → Type 0
Repeats a P text =
    (xs : List ℕ) × (rest : List ℕ) × All (FitsByte a) xs × (text ≡ xs ++ rest) × P rest

no_byte : (c : ℕ) (xs : List ℕ) → ◌≢◌ {A = List ℕ} [] (c ∷ xs)
no_byte c xs e = cc

module _ (here : List ℕ → Bool) (P : List ℕ → Type 0) where
  matchstar-Repeats :
      ((t : List ℕ) → here t ≡ true → P t)
      → (c : ℕ) (text : List ℕ) → matchstar c here text ≡ true
      → Repeats c P text
  unfolding matchstar
  matchstar-Repeats sound c [] h = ([], [], tt, refl, sound [] h)
  matchstar-Repeats sound c (d ∷ text) h = elim (Bool-cases (here (d ∷ text))) [
    | inl now ↦ ([], d ∷ text, tt, refl, sound (d ∷ text) now)
    | inr later ↦ elim (Bool-cases (d == c || c == dot)) [
      | inl fits ↦
          let (xs, rest, all, e, p) = matchstar-Repeats sound c text (rw (later, fits) at h) in
          (d ∷ xs, rest, (ground arith, all), ap (λ l. d ∷ l) e, p)
      | inr not_fits ↦ absurd (false_not_true (rw (later, not_fits) at h))
    ]
  ]
    where
      false_not_true : false ≢ true
      false_not_true e = cc

  Repeats-matchstar :
      ((t : List ℕ) → P t → here t ≡ true)
      → (c : ℕ) (text xs rest : List ℕ) → All (FitsByte c) xs
      → text ≡ xs ++ rest
      → P rest
      → matchstar c here text ≡ true
  unfolding matchstar
  Repeats-matchstar complete c [] [] rest all e p = complete [] (subst P (sym e) p)
  Repeats-matchstar complete c [] (x ∷ xs) rest all e p = absurd (no_byte x (xs ++ rest) e)
  Repeats-matchstar complete c (d ∷ text) [] rest all e p =
      rw (complete (d ∷ text) (subst P (sym e) p)) refl
  Repeats-matchstar complete c (d ∷ text) (x ∷ xs) rest all e p =
      let same : d ≡ x = cc e in
      let tail : text ≡ xs ++ rest = cc e in
      let fits : (d == c || c == dot) ≡ true = ground arith in
      let more = Repeats-matchstar complete c text xs rest all.1 tail p in
      rw (fits, more) (either (here (d ∷ text)))
    where
      either : (b : Bool) → (if b then true else true) ≡ true
      either true = refl
      either false = refl

  match_one_sound :
      ((t : List ℕ) → here t ≡ true → P t)
      → (a : ℕ) (text : List ℕ) → match_one a here text ≡ true
      → (c : ℕ) × (rest : List ℕ) × (text ≡ c ∷ rest) × FitsByte a c × P rest
  unfolding match_one
  match_one_sound sound a [] h = absurd (false_not_true h)
    where
      false_not_true : false ≢ true
      false_not_true e = cc
  match_one_sound sound a (c ∷ text) h = elim (Bool-cases (a == dot || a == c)) [
    | inl fits ↦ (c, text, refl, ground arith, sound text (rw fits at h))
    | inr not_fits ↦ absurd (false_not_true (rw not_fits at h))
  ]
    where
      false_not_true : false ≢ true
      false_not_true e = cc

matchhere-Here : (re text : List ℕ) → matchhere re text ≡ true → Here re text
unfolding matchhere
matchhere-Here [] text h = nothing
matchhere-Here (a ∷ []) text h = elim (ℕ_discrete a dollar) [
  | yes e ↦ ended e text (rw e at h)
  | no ne ↦
      let (c, rest, e, fits, p) =
        match_one_sound (λ t. true) (λ t. Here [] t) (λ t k. nothing) a text
          (rw (==_ne a dollar ne) at h) in
      subst (Here (a ∷ [])) (sym e) (one ne fits p)
]
  where
    ended : a ≡ dollar → (text : List ℕ) → is_end text ≡ true → Here (a ∷ []) text
    ended e [] h = at_end e
    ended e (c ∷ text) h = cc
matchhere-Here (a ∷ b ∷ re) text h = elim (ℕ_discrete b star) [
  | yes e ↦
      let (xs, rest, all, eq, p) =
        matchstar-Repeats (λ t. matchhere re t) (Here re) (λ t k. matchhere-Here re t k) a text
          (rw e at h) in
      many xs rest e all eq p
  | no ne ↦
      let (c, rest, e, fits, p) =
        match_one_sound (λ t. matchhere (b ∷ re) t) (Here (b ∷ re))
          (λ t k. matchhere-Here (b ∷ re) t k) a text (rw (==_ne b star ne) at h) in
      subst (Here (a ∷ b ∷ re)) (sym e) (one ne fits p)
]

Here-matchhere : (re text : List ℕ) → Here re text → matchhere re text ≡ true
unfolding matchhere match_one
Here-matchhere [] text h = refl
Here-matchhere (a ∷ []) _ (at_end e) = rw e refl
Here-matchhere (a ∷ []) _ (one {c = c} plain fits p) =
    let byte : (a == dot || a == c) ≡ true = ground arith in rw (==_ne a dollar plain, byte) refl
Here-matchhere (a ∷ b ∷ re) _ (one {c = c} {text = text} plain fits p) =
    let byte : (a == dot || a == c) ≡ true = ground arith in
    rw (==_ne b star plain, byte) (Here-matchhere (b ∷ re) text p)
Here-matchhere (a ∷ b ∷ re) text (many xs rest e all eq p) = rw e (
    Repeats-matchstar (λ t. matchhere re t) (Here re) (λ t k. Here-matchhere re t k) a text xs rest
      all eq p)

match_from-Within : (re text : List ℕ) → match_from re text ≡ true → Within re text
unfolding match_from
match_from-Within re [] h = ([], [], refl, matchhere-Here re [] h)
match_from-Within re (c ∷ text) h = elim (Bool-cases (matchhere re (c ∷ text))) [
  | inl now ↦ ([], c ∷ text, refl, matchhere-Here re (c ∷ text) now)
  | inr later ↦
      let (xs, rest, e, p) = match_from-Within re text (rw later at h) in
      (c ∷ xs, rest, ap (λ l. c ∷ l) e, p)
]

Within-match_from :
    (re text xs rest : List ℕ) → text ≡ xs ++ rest → Here re rest → match_from re text ≡ true
unfolding match_from
Within-match_from re [] [] rest e p = Here-matchhere re [] (subst (Here re) (sym e) p)
Within-match_from re [] (x ∷ xs) rest e p = absurd (no_byte x (xs ++ rest) e)
Within-match_from re (c ∷ text) [] rest e p =
    rw (Here-matchhere re (c ∷ text) (subst (Here re) (sym e) p)) refl
Within-match_from re (c ∷ text) (x ∷ xs) rest e p =
    let tail : text ≡ xs ++ rest = cc e in
    rw (Within-match_from re text xs rest tail p) (either (matchhere re (c ∷ text)))
  where
    either : (b : Bool) → (if b then true else true) ≡ true
    either true = refl
    either false = refl

-- `match` finds the pattern in the text exactly where its meaning says that it is there.
pub match-Matches : (re text : List ℕ) → (match re text ≡ true) ↔ Matches re text
unfolding match
match-Matches [] text =
    (match_from-Within [] text, λ (xs, rest, e, p). Within-match_from [] text xs rest e p)
match-Matches (a ∷ re) text = elim (ℕ_discrete a caret) [
  | yes e ↦ rw e (
    λ h. inl (refl, matchhere-Here re text h),
    λ w. elim w [ inl (same, p) ↦ Here-matchhere re text p | inr (ne, p) ↦ absurd (ne refl) ],
  )
  | no ne ↦ rw (==_ne a caret ne) (
    λ h. inr (ne, match_from-Within (a ∷ re) text h),
    λ w. elim w [
      | inl (e, p) ↦ absurd (ne e)
      | inr (_, (xs, rest, e, p)) ↦ Within-match_from (a ∷ re) text xs rest e p
    ],
  )
]
