-- ===== src/Grep.antt =====
-- user/grep.c: the matcher. A string is the list of its bytes before the zero byte.
pub mod Meaning
mod Tests
use csse332lab.Base.{ℕ, Bool, true, false, ◌&&◌, ◌||◌, List, [], ◌∷◌, ◌==◌, if◌then◌else◌}

abbrev pub star : ℕ
star = b'*'

abbrev pub dot : ℕ
dot = b'.'

abbrev pub dollar : ℕ
dollar = b'$'

abbrev pub caret : ℕ
caret = b'^'

abbrev pub is_end : List ℕ → Bool
is_end [] = true
is_end (c ∷ text) = false

-- `matchstar`, with `here` for the calls of `matchhere` on `re`.
pub matchstar : ℕ → (here : List ℕ → Bool) → List ℕ → Bool
matchstar c here [] = here []
matchstar c here (d ∷ text) =
    let rest = matchstar c here text in
    if here (d ∷ text) then true else if d == c || c == dot then rest else false

-- The last test of `matchhere`, with `here` for its call on the rest of the pattern.
pub match_one : ℕ → (here : List ℕ → Bool) → List ℕ → Bool
match_one a here [] = false
match_one a here (c ∷ text) = if a == dot || a == c then here text else false

pub matchhere : List ℕ → List ℕ → Bool
matchhere [] text = true
matchhere (a ∷ []) text =
    if a == dollar then is_end text else match_one a (λ t. matchhere [] t) text
matchhere (a ∷ b ∷ re) text =
    if b == star
    then matchstar a (λ t. matchhere re t) text
    else match_one a (λ t. matchhere (b ∷ re) t) text

-- The loop of `match`.
pub match_from : List ℕ → List ℕ → Bool
match_from re [] = matchhere re []
match_from re (c ∷ text) =
    let rest = match_from re text in if matchhere re (c ∷ text) then true else rest

pub match : List ℕ → List ℕ → Bool
match [] text = match_from [] text
match (a ∷ re) text = if a == caret then matchhere re text else match_from (a ∷ re) text
