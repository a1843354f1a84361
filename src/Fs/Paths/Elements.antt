-- ===== src/Fs/Paths/Elements.antt =====
-- `skipelem` against the elements of a path, which are what stands between its slashes.
use csse332lab.Base.{
  ℕ, zero, suc, ◌+◌, ◌≤◌, ◌<◌, ◌≡◌, ◌≢◌, refl, ap, sym, ◌∙◌, inl, inr, Bool, false, Option, none,
  some, List, [], ◌∷◌, map, arith, ◌==◌, if◌then◌else◌, Bool-cases, ==_ne, length,
}
use csse332lab.Fs.Dirs.{dirsiz}
use mathlib.Core.Path.{fun_ext}
use csse332lab.Fs.{M, ret, ◌>>◌}
use csse332lab.Fs.Content.{iput}
use csse332lab.Fs.Paths.{namex_elem, namex_loop, slash, skip_slashes, split_elem, take, skipelem}

-- The byte `c` before the first of the segments.
abbrev before_first : ℕ → List (List ℕ) → List (List ℕ)
before_first c [] = (c ∷ []) ∷ []
before_first c (s ∷ ss) = (c ∷ s) ∷ ss

-- The path, cut at every slash.
pub segments : List ℕ → List (List ℕ)
segments [] = [] ∷ []
segments (c ∷ path) = if c == slash then [] ∷ segments path else before_first c (segments path)

abbrev pub not_empty : List (List ℕ) → List (List ℕ)
not_empty [] = []
not_empty ([] ∷ ss) = not_empty ss
not_empty ((c ∷ s) ∷ ss) = (c ∷ s) ∷ not_empty ss

abbrev pub elements : List ℕ → List (List ℕ)
elements path = not_empty (segments path)

-- The names that repeated calls of `skipelem` give, with `k` calls at most.
unfoldable pub walk : ℕ → List ℕ → List (List ℕ)
walk zero path = []
walk (suc k) path = elim (skipelem path) [ none ↦ [] | some (name, rest) ↦ name ∷ walk k rest ]

elements-skip_slashes : (path : List ℕ) → elements (skip_slashes path) ≡ elements path
unfolding skip_slashes segments
elements-skip_slashes [] = refl
elements-skip_slashes (c ∷ path) = elim (Bool-cases (c == slash)) [
  | inl s ↦ rw s (elements-skip_slashes path)
  | inr n ↦ rw n (rw n refl)
]

length-skip_slashes : (path : List ℕ) → length (skip_slashes path) ≤ length path
unfolding skip_slashes
length-skip_slashes [] = omega arith
length-skip_slashes (c ∷ path) = ground (arith, length-skip_slashes path)

-- What follows an element: nothing, or a slash and the other segments.
abbrev after : List ℕ → List (List ℕ)
after [] = []
after (c ∷ path) = segments path

abbrev AtSlash : List ℕ → Type 0
AtSlash [] = Unit
AtSlash (c ∷ path) = c ≡ slash

record Split (path elem rest : List ℕ) : Type 0 where
  pub cut : segments path ≡ elem ∷ after rest
  pub at_slash : AtSlash rest
  pub lengths : length elem + length rest ≡ length path

split_elem-Split : (path : List ℕ) → Split path (split_elem path).0 (split_elem path).1
unfolding split_elem segments
split_elem-Split [] = record { cut = refl; at_slash = tt; lengths = omega arith }
split_elem-Split (c ∷ path) = elim (Bool-cases (c == slash)) [
  | inl s ↦ rw s (record { cut = rw s refl; at_slash = ground arith; lengths = omega arith })
  | inr n ↦
      let ih = split_elem-Split path in
      rw n (record {
        cut = rw n (ap (before_first c) ih.cut);
        at_slash = ih.at_slash;
        lengths = omega (arith, ih.lengths);
      })
]

after-elements : (rest : List ℕ) → AtSlash rest → not_empty (after rest) ≡ elements rest
unfolding segments
after-elements [] h = refl
after-elements (c ∷ path) h = rw h refl

-- What `skipelem` does: the first element of the path, cut to the length of a name, and a shorter
-- path of the others.
pub data Skipped (path : List ℕ) : Option (List ℕ × List ℕ) → Type 0 where
  no_more : elements path ≡ [] → Skipped path none
  next :
      (elem rest : List ℕ)
      → elements path ≡ elem ∷ elements rest
      → length rest < length path
      → Skipped path (some (take dirsiz elem, rest))

first_not_slash : (path : List ℕ) (c : ℕ) (rest : List ℕ) → skip_slashes path ≡ c ∷ rest → c ≢ slash
unfolding skip_slashes
first_not_slash [] c rest h = cc
first_not_slash (d ∷ path) c rest h = elim (Bool-cases (d == slash)) [
  | inl s ↦ first_not_slash path c rest (rw s at h)
  | inr n ↦ let e : d ∷ path ≡ c ∷ rest = rw n at h in let same : d ≡ c = cc e in ground arith
]

pub skipelem-Skipped : (path : List ℕ) → Skipped path (skipelem path)
unfolding skipelem split_elem segments
skipelem-Skipped path =
    decided (skip_slashes path) (elements-skip_slashes path) (length-skip_slashes path)
      (first_not_slash path)
  where
    ended : List ℕ → Option (List ℕ × List ℕ)
    ended q = elim q [
      | [] ↦ none
      | c ∷ rest ↦
          let (s, behind) = split_elem (c ∷ rest) in some (take dirsiz s, skip_slashes behind)
    ]

    decided :
        (q : List ℕ)
        → elements q ≡ elements path
        → length q ≤ length path
        → ((c : ℕ) (rest : List ℕ) → q ≡ c ∷ rest → c ≢ slash)
        → Skipped path (ended q)
    decided [] e le ne = no_more (sym e)
    decided (c ∷ rest) e le ne =
        let other : (c == slash) ≡ false = ==_ne c slash (ne c rest refl) in
        let s = split_elem-Split rest in
        let elem = c ∷ (split_elem rest).0 in
        let cut : segments (c ∷ rest) ≡ elem ∷ after (split_elem rest).1 =
          rw other (ap (before_first c) s.cut) in
        rw other (
          next elem (skip_slashes (split_elem rest).1)
            (sym e
              ∙ ap not_empty cut
              ∙ ap (λ l. elem ∷ l)
                  (after-elements (split_elem rest).1 s.at_slash
                    ∙ sym (elements-skip_slashes (split_elem rest).1)))
            (omega (arith, s.lengths, length-skip_slashes (split_elem rest).1)))

-- Repeated calls of `skipelem`, more than the path has bytes, give what stands between the slashes
-- of the path, cut to the length of a name.
pub walk-elements :
    (k : ℕ) (path : List ℕ) → length path < k → walk k path ≡ map (take dirsiz) (elements path)
unfolding walk
walk-elements zero path h = absurd (omega arith)
walk-elements (suc k) path h = decided (skipelem path) (skipelem-Skipped path) (walk-elements k)
  where
    walked : Option (List ℕ × List ℕ) → List (List ℕ)
    walked o = elim o [ none ↦ [] | some (name, rest) ↦ name ∷ walk k rest ]

    decided :
        (o : Option (List ℕ × List ℕ))
        → Skipped path o
        → ((rest : List ℕ) → length rest < k → walk k rest ≡ map (take dirsiz) (elements rest))
        → walked o ≡ map (take dirsiz) (elements path)
    decided _ (no_more e) ih = sym (ap (map (take dirsiz)) e)
    decided _ (next elem rest e le) ih =
        ap (λ l. take dirsiz elem ∷ l) (ih rest (omega arith)) ∙ sym (ap (map (take dirsiz)) e)

-- The loop of `namex` ends by itself: with a round more than the path has bytes, more rounds make
-- no difference.
pub namex_loop_enough :
    (parent : Bool) (k m i : ℕ) (path name : List ℕ)
    → length path < k
    → length path < m
    → namex_loop parent k i path name ≡ namex_loop parent m i path name
unfolding namex_loop
namex_loop_enough parent zero m i path name h h' = absurd (omega arith)
namex_loop_enough parent (suc k) zero i path name h h' = absurd (omega arith)
namex_loop_enough parent (suc k) (suc m) i path name h h' =
    decided (skipelem path) (skipelem-Skipped path) (namex_loop_enough parent k m)
  where
    went : ℕ → Option (List ℕ × List ℕ) → M (Option (ℕ × List ℕ))
    went k o = elim o [
      | none ↦ if parent then iput i >> ret none else ret (some (i, name))
      | some (name, path) ↦
          namex_elem parent i name path (λ next. namex_loop parent k next path name)
    ]

    decided :
        (o : Option (List ℕ × List ℕ))
        → Skipped path o
        → ((i : ℕ) (path name : List ℕ)
            → length path < k
            → length path < m
            → namex_loop parent k i path name ≡ namex_loop parent m i path name)
        → went k o ≡ went m o
    decided _ (no_more e) ih = refl
    decided _ (next elem rest e le) ih =
        ap (namex_elem parent i (take dirsiz elem) rest)
          (fun_ext (λ next. ih next rest (take dirsiz elem) (omega arith) (omega arith)))
