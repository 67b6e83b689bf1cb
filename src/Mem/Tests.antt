-- ===== src/Mem/Tests.antt =====
-- `memmove` at a small input.
use ele3021_spring.Common.{ℕ, ◌≡◌, ◌<◌, ◌≤◌, ◌⊎◌, ◌+◌, refl, ◌%◌}
use ele3021_spring.Mem.{memmove, memcmp}
use ele3021_spring.Mem.Copy.{memmove-copies}

-- Four bytes move up by two, over themselves.
memmove-copies_example :
    ((i : ℕ) → i < 4 → memmove 12 10 4 (λ a. a) (12 + i) ≡ 10 + i)
    × ((a : ℕ) → (a < 12) ⊎ (12 + 4 ≤ a) → memmove 12 10 4 (λ a. a) a ≡ a)
memmove-copies_example = memmove-copies 12 10 4 (λ a. a)

third : memmove 12 10 4 (λ a. a) 14 ≡ 12
unfolding memmove
third = refl

-- Every second address holds the same byte.
abbrev stripes : ℕ → ℕ
stripes a = a % 2

stripes_same : memcmp 5 stripes 3 7 ≡ 0
unfolding memcmp
stripes_same = refl
