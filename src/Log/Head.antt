-- ===== src/Log/Head.antt =====
-- The header block of xv6-public/log.c: what `write_head` stores and `read_head` takes back.
use ele3021_spring.Common.{ℕ, ◌≡◌, ◌<◌, ◌≤◌, arith, suc, ◌+◌, ◌-◌, ◌∙◌, zero, ℕ_discrete, ◌≢◌, refl}
use ele3021_spring.Log.{Log, Block, update, read_blocks, store_blocks, read_head, write_head}

store_blocks-zero : (r i : ℕ) (block : ℕ → ℕ) (hb : Block) → store_blocks r i block hb 0 ≡ hb 0
unfolding store_blocks
store_blocks-zero zero i block hb = refl
store_blocks-zero (suc r) i block hb =
    store_blocks-zero r (suc i) block (update hb (suc i) (block i)) ∙ ground arith

store_blocks-below :
    (r i : ℕ) (block : ℕ → ℕ) (hb : Block) (j : ℕ)
    → j < i
    → store_blocks r i block hb (suc j) ≡ hb (suc j)
unfolding store_blocks
store_blocks-below zero i block hb j h = refl
store_blocks-below (suc r) i block hb j h =
    store_blocks-below r (suc i) block (update hb (suc i) (block i)) j (omega arith) ∙ ground arith

store_blocks-suc :
    (r i : ℕ) (block : ℕ → ℕ) (hb : Block) (j : ℕ)
    → i ≤ j
    → j < i + r
    → store_blocks r i block hb (suc j) ≡ block j
unfolding store_blocks
store_blocks-suc zero i block hb j lo hi = absurd (omega arith)
store_blocks-suc (suc r) i block hb j lo hi = elim (ℕ_discrete i j) [
  | yes e ↦
      store_blocks-below r (suc i) block (update hb (suc i) (block i)) j (omega arith)
      ∙ ground (arith, e)
  | no ne ↦
      store_blocks-suc r (suc i) block (update hb (suc i) (block i)) j (omega arith) (omega arith)
]

read_blocks-below :
    (r i : ℕ) (hb : Block) (block : ℕ → ℕ) (j : ℕ) → j < i → read_blocks r i hb block j ≡ block j
unfolding read_blocks
read_blocks-below zero i hb block j h = refl
read_blocks-below (suc r) i hb block j h =
    read_blocks-below r (suc i) hb (update block i (hb (suc i))) j (omega arith) ∙ ground arith

read_blocks-copy :
    (r i : ℕ) (hb : Block) (block : ℕ → ℕ) (j : ℕ)
    → i ≤ j
    → j < i + r
    → read_blocks r i hb block j ≡ hb (suc j)
unfolding read_blocks
read_blocks-copy zero i hb block j lo hi = absurd (omega arith)
read_blocks-copy (suc r) i hb block j lo hi = elim (ℕ_discrete i j) [
  | yes e ↦
      read_blocks-below r (suc i) hb (update block i (hb (suc i))) j (omega arith)
      ∙ ground (arith, e)
  | no ne ↦
      read_blocks-copy r (suc i) hb (update block i (hb (suc i))) j (omega arith) (omega arith)
]

-- The block holds the header `n`, `block`.
pub record IsHeader (hb : Block) (n : ℕ) (block : ℕ → ℕ) : Type 0 where
  pub count : hb 0 ≡ n
  pub entry : (j : ℕ) → j < n → hb (suc j) ≡ block j

-- What `write_head` does: the header on the disk, if there is power, and nothing else.
pub record WritesHead (w w' : Log) : Type 0 where
  pub start : w'.start ≡ w.start
  pub n : w'.n ≡ w.n
  pub block : w'.block ≡ w.block
  pub power : w'.power ≡ w.power - 1
  pub outstanding : w'.outstanding ≡ w.outstanding
  pub size : w'.size ≡ w.size
  pub disk : (b : ℕ) → b ≢ w.start → w'.disk b ≡ w.disk b
  pub cache : (b : ℕ) → b ≢ w.start → w'.cache b ≡ w.cache b
  pub header : 0 < w.power → IsHeader (w'.disk w.start) w.n w.block
  pub lost : w.power ≡ 0 → w'.disk ≡ w.disk

pub write_head-WritesHead : (w : Log) → WritesHead w (write_head w)
unfolding write_head
write_head-WritesHead w = record {
  start = refl;
  n = refl;
  block = refl;
  power = refl;
  outstanding = refl;
  size = refl;
  disk = λ b ne. ground arith;
  cache = λ b ne. ground arith;
  header = λ p. record {
    count = ground (arith, store_blocks-zero w.n 0 w.block (update (w.cache w.start) 0 w.n));
    entry =
        λ j lt. ground (arith, store_blocks-suc w.n 0 w.block (update (w.cache w.start) 0 w.n) j);
  };
  lost = λ p. rw p;
}

-- What `read_head` takes from a cached header.
pub read_head-IsHeader :
    (w : Log) (n : ℕ) (block : ℕ → ℕ)
    → IsHeader (w.cache w.start) n block
    → ((read_head w).n ≡ n) × ((j : ℕ) → j < n → (read_head w).block j ≡ block j)
unfolding read_head
read_head-IsHeader w n block h = (
  h.count,
  λ j lt.
      read_blocks-copy (w.cache w.start 0) 0 (w.cache w.start) w.block j (omega arith)
        (omega (arith, h.count))
      ∙ h.entry j lt,
)
