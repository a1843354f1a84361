-- ===== src/Base/Members.antt =====
-- Members of lists of numbers, and how often they occur.
use Prim.Native.Nat.{ℕ, ◌+◌, ◌≤◌}
use mathlib.Core.Path.{◌≡◌, sym, ap, subst}
use mathlib.Core.Logic.{◌≢◌, ◌⊎◌, inl, inr}
use mathlib.Core.List.{List, [], ◌∷◌, ◌++◌}
use native.Mathlib.Omega.{arith}
use csse332lab.Base.Tests.{◌==◌, if◌then◌else◌}
use csse332lab.Base.Lists.{All, length}

-- `c` is an element.
abbrev pub In : ℕ → List ℕ → Type 0
In c [] = ⊥
In c (x ∷ xs) = (c ≡ x) ⊎ In c xs

pub In-split : (c : ℕ) (xs : List ℕ) → In c xs → (ys : List ℕ) × (zs : List ℕ) × (xs ≡ ys ++ c ∷ zs)
In-split c [] h = elim h [ ]
In-split c (x ∷ xs) (inl e) = ([], xs, ap (λ y. y ∷ xs) (sym e))
In-split c (x ∷ xs) (inr h) = let (ys, zs, e) = In-split c xs h in (x ∷ ys, zs, ap (λ l. x ∷ l) e)

pub All-In : (P : ℕ → Type 0) (xs : List ℕ) (b : ℕ) → All P xs → In b xs → P b
All-In P [] b h i = elim i [ ]
All-In P (x ∷ xs) b h (inl e) = subst P (sym e) h.0
All-In P (x ∷ xs) b h (inr i) = All-In P xs b h.1 i

abbrev pub count : ℕ → List ℕ → ℕ
count b [] = 0
count b (x ∷ xs) = (if x == b then 1 else 0) + count b xs

pub count-front : (b : ℕ) (xs ys : List ℕ) → count b (xs ++ b ∷ ys) ≡ count b (xs ++ ys) + 1
count-front b [] ys = ground arith
count-front b (x ∷ xs) ys = omega (arith, count-front b xs ys)

pub count-other : (c b : ℕ) (xs ys : List ℕ) → c ≢ b → count c (xs ++ b ∷ ys) ≡ count c (xs ++ ys)
count-other c b [] ys ne = ground arith
count-other c b (x ∷ xs) ys ne = omega (arith, count-other c b xs ys ne)

pub count_le : (b : ℕ) (xs : List ℕ) → count b xs ≤ length xs
count_le b [] = omega arith
count_le b (x ∷ xs) = let rest = count_le b xs in ground arith

pub In-count : (b : ℕ) (xs : List ℕ) → In b xs → count b xs ≢ 0
In-count b [] i = elim i [ ]
In-count b (x ∷ xs) (inl e) = ground arith
In-count b (x ∷ xs) (inr i) = let rest = In-count b xs i in ground arith
