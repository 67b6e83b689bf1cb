-- ===== src/Bcache/Unique.antt =====
-- No two buffers of xv6-public/bio.c hold one block.
use ele3021_spring.Bcache.Found.{NonePass}
use ele3021_spring.Bcache.{Buf, store, has_block}
use ele3021_spring.Common.{ℕ, ◌≢◌, List, ◌≡◌, ◌∷◌, All, [], false, arith, sym}
use ele3021_spring.Kalloc.Chain.{Absent, Distinct}

-- Two buffers do not hold one block; a buffer of device 0 holds none.
abbrev pub Apart : Buf → Buf → Type 0
Apart a b = a.dev ≢ 0 → a.dev ≡ b.dev → a.blockno ≢ b.blockno

abbrev pub UniqueBlocks : (ℕ → Buf) → List ℕ → Type 0
UniqueBlocks buf [] = Unit
UniqueBlocks buf (x ∷ xs) = All (λ j. Apart (buf x) (buf j)) xs × UniqueBlocks buf xs

-- A buffer that is given a block that none has.
given-Apart :
    (buf : ℕ → Buf) (i : ℕ) (b : Buf) (x j : ℕ)
    → x ≢ j
    → has_block b.dev b.blockno (buf x) ≡ false
    → has_block b.dev b.blockno (buf j) ≡ false
    → Apart (buf x) (buf j)
    → Apart (store buf i b x) (store buf i b j)
given-Apart buf i b x j ne hx hj a d e n = ground (arith, ne, hx, hj, a, d, e, n)

pub given-UniqueBlocks :
    (buf : ℕ → Buf) (i : ℕ) (b : Buf) (ring : List ℕ)
    → Distinct ring
    → NonePass (has_block b.dev b.blockno) buf ring
    → UniqueBlocks buf ring
    → UniqueBlocks (store buf i b) ring
given-UniqueBlocks buf i b [] d a u = tt
given-UniqueBlocks buf i b (x ∷ xs) d a u =
    (behind xs d.0 a.1 u.0, given-UniqueBlocks buf i b xs d.1 a.1 u.1)
  where
    behind :
        (ys : List ℕ)
        → Absent x ys
        → NonePass (has_block b.dev b.blockno) buf ys
        → All (λ j. Apart (buf x) (buf j)) ys
        → All (λ j. Apart (store buf i b x) (store buf i b j)) ys
    behind [] o n p = tt
    behind (y ∷ ys) o n p =
        (given-Apart buf i b x y (λ e. o.0 (sym e)) a.0 n.0 p.0, behind ys o.1 n.1 p.1)

-- A buffer whose references change.
counted-Apart :
    (buf : ℕ → Buf) (i n x j : ℕ)
    → Apart (buf x) (buf j)
    → Apart
        (store buf i (record (buf i) { refcnt = n }) x)
        (store buf i (record (buf i) { refcnt = n }) j)
counted-Apart buf i n x j a d e q = ground (arith, a, d, e, q)

pub counted-UniqueBlocks :
    (buf : ℕ → Buf) (i n : ℕ) (ring : List ℕ)
    → UniqueBlocks buf ring
    → UniqueBlocks (store buf i (record (buf i) { refcnt = n })) ring
counted-UniqueBlocks buf i n [] u = tt
counted-UniqueBlocks buf i n (x ∷ xs) u = (behind xs u.0, counted-UniqueBlocks buf i n xs u.1)
  where
    behind :
        (ys : List ℕ)
        → All (λ j. Apart (buf x) (buf j)) ys
        → All
            (λ j.
              Apart
                (store buf i (record (buf i) { refcnt = n }) x)
                (store buf i (record (buf i) { refcnt = n }) j))
            ys
    behind [] p = tt
    behind (y ∷ ys) p = (counted-Apart buf i n x y p.0, behind ys p.1)
