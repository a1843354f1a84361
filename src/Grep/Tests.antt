-- ===== src/Grep/Tests.antt =====
-- Runs of the matcher, and the theorem at a pattern and a text.
use csse332lab.Base.{ℕ, ◌≡◌, ◌↔◌, refl, true, false, List, [], ◌∷◌}
use csse332lab.Grep.{match, match_from, matchhere, matchstar, match_one}
use csse332lab.Grep.Meaning.{Matches, match-Matches}

-- "b.*d$" and "abccd"
abbrev pattern_of : List ℕ
pattern_of = b'b' ∷ b'.' ∷ b'*' ∷ b'd' ∷ b'$' ∷ []

abbrev text_of : List ℕ
text_of = b'a' ∷ b'b' ∷ b'c' ∷ b'c' ∷ b'd' ∷ []

found : match pattern_of text_of ≡ true
unfolding match match_from matchhere matchstar match_one
found = refl

anchored : match (b'^' ∷ pattern_of) text_of ≡ false
unfolding match match_from matchhere matchstar match_one
anchored = refl

match-Matches_example : (match pattern_of text_of ≡ true) ↔ Matches pattern_of text_of
match-Matches_example = match-Matches pattern_of text_of
