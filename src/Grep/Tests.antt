-- ===== src/Grep/Tests.antt =====
-- The matcher at small inputs.
use ele3021_spring.Common.{◌↔◌, ◌≡◌, [], ◌∷◌, true, refl, List, ℕ}
use ele3021_spring.Grep.{matches}
use ele3021_spring.Grep.Language.{Occurs, matches_iff}

-- `^a*b$` and `aab`
abbrev pattern_ : List ℕ
pattern_ = b'^' ∷ b'a' ∷ b'*' ∷ b'b' ∷ b'$' ∷ []

abbrev line : List ℕ
line = b'a' ∷ b'a' ∷ b'b' ∷ []

matches_iff_example : (matches pattern_ line ≡ true) ↔ Occurs pattern_ line
matches_iff_example = matches_iff pattern_ line

accepted : matches pattern_ line ≡ true
unfolding matches
accepted = refl
