-- ===== src/CString/Tests.antt =====
-- Small strings.
use ele3021_spring.Common.{ℕ, List, ◌∷◌, [], ◌≡◌, refl}
use ele3021_spring.CString.{strcmp}

abbrev hi : List ℕ
hi = 104 ∷ 105 ∷ 0 ∷ 9 ∷ []

-- What follows the NUL does not count.
hi_same : strcmp hi (104 ∷ 105 ∷ []) ≡ 0
unfolding strcmp
hi_same = refl
