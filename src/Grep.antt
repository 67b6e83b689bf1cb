-- ===== src/Grep.antt =====
-- The pattern matcher of xv6-public/grep.c. A string is the list of its characters, without its
-- NUL: a read at the end gives 0.
pub mod Language
mod Tests
use ele3021_spring.Common.{
  ℕ, Bool, true, false, ◌&&◌, ◌||◌, not, ◌==◌, if◌then◌else◌, List, [], ◌∷◌,
}

-- `.`, `*`, `^` and `$`
abbrev pub dot : ℕ
dot = b'.'

abbrev pub asterisk : ℕ
asterisk = b'*'

abbrev pub caret : ℕ
caret = b'^'

abbrev pub dollar : ℕ
dollar = b'$'

-- `c == '.' || c == x` for a character `x` of the text
unfoldable pub fits : ℕ → ℕ → Bool
fits c x = c == dot || c == x

-- `matchstar(c, re, text)`, where `here` is `matchhere(re, text)` as a function of `text`.
unfoldable pub matchstar : ℕ → (List ℕ → Bool) → List ℕ → Bool
unfolding fits
matchstar c here [] = here []
matchstar c here (x ∷ text) = here (x ∷ text) || (fits c x && matchstar c here text)

-- The last two tests of `matchhere`, where `rest` is `matchhere(re+1, text)`.
unfoldable pub matchchar : ℕ → (List ℕ → Bool) → List ℕ → Bool
unfolding fits
matchchar c rest [] = false
matchchar c rest (x ∷ text) = fits c x && rest text

abbrev pub is_end : List ℕ → Bool
is_end [] = true
is_end (x ∷ text) = false

unfoldable pub matchhere : List ℕ → List ℕ → Bool
unfolding matchstar matchchar
matchhere [] text = true
matchhere (c ∷ []) text = if c == dollar then is_end text else matchchar c (matchhere []) text
matchhere (c ∷ d ∷ re) text =
    if d == asterisk then matchstar c (matchhere re) text else matchchar c (matchhere (d ∷ re)) text

-- The loop of `match`.
unfoldable pub match_from : List ℕ → List ℕ → Bool
unfolding matchhere
match_from re [] = matchhere re []
match_from re (x ∷ text) = matchhere re (x ∷ text) || match_from re text

unfoldable pub matches : List ℕ → List ℕ → Bool
unfolding match_from
matches [] text = match_from [] text
matches (c ∷ re) text = if c == caret then matchhere re text else match_from (c ∷ re) text
