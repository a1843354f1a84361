-- ===== src/Base/Repetition.antt =====
-- Lists of numbers without repetition, by recursion.
use Prim.Native.Nat.{ℕ}
use mathlib.Core.Path.{sym}
use mathlib.Core.Logic.{◌≢◌}
use mathlib.Core.List.{List, [], ◌∷◌, ◌++◌}
use csse332lab.Base.Lists.{All}

-- `a` is not an element.
abbrev pub Avoids : ℕ → List ℕ → Type 0
Avoids a = All (λ x. a ≢ x)

abbrev pub Distinct : List ℕ → Type 0
Distinct [] = Unit
Distinct (x ∷ xs) = Avoids x xs × Distinct xs

module _ {ℓ} (P : ℕ → Type ℓ) where
  -- An element may be moved to the front, and back.
  pub All-front : (a : ℕ) (xs ys : List ℕ) → All P (xs ++ a ∷ ys) → P a × All P (xs ++ ys)
  All-front a [] ys h = h
  All-front a (x ∷ xs) ys h = let rest = All-front a xs ys h.1 in (rest.0, (h.0, rest.1))

  pub All-middle : (a : ℕ) (xs ys : List ℕ) → P a → All P (xs ++ ys) → All P (xs ++ a ∷ ys)
  All-middle a [] ys p h = (p, h)
  All-middle a (x ∷ xs) ys p h = (h.0, All-middle a xs ys p h.1)

pub Distinct-front :
    (a : ℕ) (xs ys : List ℕ) → Distinct (xs ++ a ∷ ys) → Avoids a (xs ++ ys) × Distinct (xs ++ ys)
Distinct-front a [] ys h = h
Distinct-front a (x ∷ xs) ys h =
    let rest = Distinct-front a xs ys h.1 in
    let apart = All-front (λ y. x ≢ y) a xs ys h.0 in
    (((λ e. apart.0 (sym e)), rest.0), (apart.1, rest.1))

pub Distinct-middle :
    (a : ℕ) (xs ys : List ℕ) → Avoids a (xs ++ ys) → Distinct (xs ++ ys) → Distinct (xs ++ a ∷ ys)
Distinct-middle a [] ys out h = (out, h)
Distinct-middle a (x ∷ xs) ys out h =
    (All-middle (λ y. x ≢ y) a xs ys (λ e. out.0 (sym e)) h.0, Distinct-middle a xs ys out.1 h.1)
