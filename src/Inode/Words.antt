-- ===== src/Inode/Words.antt =====
-- The uints that xv6-public/fs.c keeps in blocks.
use ele3021_spring.Common.{ℕ, ◌≡◌, ◌⊎◌, ◌+◌, ◌*◌, ◌/◌, ◌%◌, ◌≤◌, ◌<◌, arith, word}
use ele3021_spring.Inode.{get32, put32}

put32_bytes :
    (o v : ℕ) (g : ℕ → ℕ)
    → (put32 o v g o ≡ v % 256)
      × (put32 o v g (o + 1) ≡ v / 256 % 256)
      × (put32 o v g (o + 2) ≡ v / 65536 % 256)
      × (put32 o v g (o + 3) ≡ v / 16777216 % 256)
unfolding put32
put32_bytes o v g = (ground arith, ground arith, ground arith, ground arith)

pub put32_other : (o v : ℕ) (g : ℕ → ℕ) (j : ℕ) → (j < o) ⊎ (o + 4 ≤ j) → put32 o v g j ≡ g j
unfolding put32
put32_other o v g j out = ground (arith, out)

digits :
    (v a b c d : ℕ)
    → v < word
    → a ≡ v % 256
    → b ≡ v / 256 % 256
    → c ≡ v / 65536 % 256
    → d ≡ v / 16777216 % 256
    → a + 256 * b + 65536 * c + 16777216 * d ≡ v
digits v a b c d small ea eb ec ed = omega (arith, small, ea, eb, ec, ed)

pub get-put32 : (o v : ℕ) (g : ℕ → ℕ) → v < word → get32 (put32 o v g) o ≡ v
unfolding get32
get-put32 o v g small = let p = put32_bytes o v g in digits v _ _ _ _ small p.0 p.1 p.2 p.3

pub get-put32_other :
    (o v : ℕ) (g : ℕ → ℕ) (k : ℕ) → (k + 4 ≤ o) ⊎ (o + 4 ≤ k) → get32 (put32 o v g) k ≡ get32 g k
unfolding get32
get-put32_other o v g k out =
    ap4 (put32_other o v g k (omega arith)) (put32_other o v g (k + 1) (omega arith))
      (put32_other o v g (k + 2) (omega arith)) (put32_other o v g (k + 3) (omega arith))
  where
    ap4 :
        {a a' b b' c c' d d' : ℕ}
        → a ≡ a'
        → b ≡ b'
        → c ≡ c'
        → d ≡ d'
        → a + 256 * b + 65536 * c + 16777216 * d ≡ a' + 256 * b' + 65536 * c' + 16777216 * d'
    ap4 ea eb ec ed = omega (arith, ea, eb, ec, ed)
