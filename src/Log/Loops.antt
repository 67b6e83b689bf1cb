-- ===== src/Log/Loops.antt =====
-- The copying loops of xv6-public/log.c: what they write, to the cache and to the disk.
use ele3021_spring.Common.{
  ℕ, ◌≡◌, arith, ◌≤◌, ◌-◌, suc, ◌+◌, ◌<◌, zero, ◌⊎◌, ◌≢◌, refl, ℕ_discrete, ◌∙◌,
}
use ele3021_spring.Log.{Log, bwrite, install_loop, write_loop}

-- The parts of the state that the loops leave alone, and the power that they use.
pub record SameLog (w w' : Log) (r : ℕ) : Type 0 where
  pub start : w'.start ≡ w.start
  pub n : w'.n ≡ w.n
  pub block : w'.block ≡ w.block
  pub power : w'.power ≡ w.power - r
  pub outstanding : w'.outstanding ≡ w.outstanding
  pub size : w'.size ≡ w.size

pub write_loop-SameLog : (r tail : ℕ) (w : Log) → SameLog w (write_loop r tail w) r
unfolding write_loop
write_loop-SameLog zero tail w = record {
  start = refl;
  n = refl;
  block = refl;
  power = omega arith;
  outstanding = refl;
  size = refl;
}
write_loop-SameLog (suc r) tail w = same (write_loop-SameLog r (suc tail) _)
  where
    same :
        SameLog
          (bwrite (w.start + tail + 1) (w.cache (w.block tail)) w)
          (write_loop r (suc tail) (bwrite (w.start + tail + 1) (w.cache (w.block tail)) w))
          r
        → SameLog w (write_loop (suc r) tail w) (suc r)
    same s = record {
      start = s.start;
      n = s.n;
      block = s.block;
      power = omega (arith, s.power);
      outstanding = s.outstanding;
      size = s.size;
    }

pub install_loop-SameLog : (r tail : ℕ) (w : Log) → SameLog w (install_loop r tail w) r
unfolding install_loop
install_loop-SameLog zero tail w = record {
  start = refl;
  n = refl;
  block = refl;
  power = omega arith;
  outstanding = refl;
  size = refl;
}
install_loop-SameLog (suc r) tail w = same (install_loop-SameLog r (suc tail) _)
  where
    same :
        SameLog
          (bwrite (w.block tail) (w.cache (w.start + tail + 1)) w)
          (install_loop r (suc tail) (bwrite (w.block tail) (w.cache (w.start + tail + 1)) w))
          r
        → SameLog w (install_loop (suc r) tail w) (suc r)
    same s = record {
      start = s.start;
      n = s.n;
      block = s.block;
      power = omega (arith, s.power);
      outstanding = s.outstanding;
      size = s.size;
    }

-- `write_log` touches only the log blocks of its rounds.
pub write_loop-frame :
    (r tail : ℕ) (w : Log) (b : ℕ)
    → (b ≤ w.start + tail) ⊎ (w.start + tail + r < b)
    → ((write_loop r tail w).disk b ≡ w.disk b) × ((write_loop r tail w).cache b ≡ w.cache b)
unfolding write_loop
write_loop-frame zero tail w b o = (refl, refl)
write_loop-frame (suc r) tail w b o = ground (
  arith,
  write_loop-frame r (suc tail) (bwrite (w.start + tail + 1) (w.cache (w.block tail)) w) b,
)

-- `install_trans` touches only the home blocks of its rounds.
pub install_loop-frame :
    (r tail : ℕ) (w : Log) (b : ℕ)
    → ((i : ℕ) → tail ≤ i → i < tail + r → w.block i ≢ b)
    → ((install_loop r tail w).disk b ≡ w.disk b) × ((install_loop r tail w).cache b ≡ w.cache b)
unfolding install_loop
install_loop-frame zero tail w b o = (refl, refl)
install_loop-frame (suc r) tail w b o = ground (
  arith,
  o tail (omega arith) (omega arith),
  install_loop-frame r (suc tail) (bwrite (w.block tail) (w.cache (w.start + tail + 1)) w) b
      (λ i lo hi. o i (omega arith) (omega arith)),
)

-- The home blocks of the rounds lie outside the log blocks of the rounds.
abbrev Apart : ℕ → ℕ → Log → Type 0
Apart r tail w =
    (j : ℕ)
    → tail ≤ j
    → j < tail + r
    → (w.block j ≤ w.start + tail) ⊎ (w.start + tail + r < w.block j)

-- `write_log` copies the cached home block of each round to its log block; with enough power the
-- disk has the copy too.
pub write_loop-copy :
    (r tail : ℕ) (w : Log) (i : ℕ)
    → tail ≤ i
    → i < tail + r
    → Apart r tail w
    → ((write_loop r tail w).cache (w.start + i + 1) ≡ w.cache (w.block i))
      × (r ≤ w.power → (write_loop r tail w).disk (w.start + i + 1) ≡ w.cache (w.block i))
unfolding write_loop
write_loop-copy zero tail w i lo hi apart = absurd (omega arith)
write_loop-copy (suc r) tail w i lo hi apart = elim (ℕ_discrete tail i) [
  | yes e ↦
      let f = write_loop-frame r (suc tail) (round tail) (w.start + i + 1) (omega arith) in
      (f.1 ∙ ground (arith, e), λ p. f.0 ∙ ground (arith, e))
  | no ne ↦
      let ih =
        write_loop-copy r (suc tail) (round tail) i (omega arith) (omega arith)
          (λ j a b. omega (arith, apart j (omega arith) (omega arith))) in
      (ih.0 ∙ kept ne, λ p. ih.1 (omega arith) ∙ kept ne)
]
  where
    round : ℕ → Log
    round t = bwrite (w.start + t + 1) (w.cache (w.block t)) w

    kept : tail ≢ i → (round tail).cache (w.block i) ≡ w.cache (w.block i)
    kept ne = ground (arith, apart i lo hi)

-- No home block of the rounds is a log block of the rounds, and no two are the same.
abbrev Scattered : ℕ → ℕ → Log → Type 0
Scattered r tail w =
    ((i j : ℕ) → tail ≤ i → i < tail + r → tail ≤ j → j < tail + r → w.block i ≢ w.start + j + 1)
    × ((i j : ℕ)
        → tail ≤ i
        → i < tail + r
        → tail ≤ j
        → j < tail + r
        → w.block i ≡ w.block j
        → i ≡ j)

-- `install_trans` copies the cached log block of each round to its home block; with enough power
-- the disk has the copy too.
pub install_loop-copy :
    (r tail : ℕ) (w : Log) (i : ℕ)
    → tail ≤ i
    → i < tail + r
    → Scattered r tail w
    → ((install_loop r tail w).cache (w.block i) ≡ w.cache (w.start + i + 1))
      × (r ≤ w.power → (install_loop r tail w).disk (w.block i) ≡ w.cache (w.start + i + 1))
unfolding install_loop
install_loop-copy zero tail w i lo hi sc = absurd (omega arith)
install_loop-copy (suc r) tail w i lo hi sc = elim (ℕ_discrete tail i) [
  | yes e ↦
      let f = install_loop-frame r (suc tail) (round tail) (w.block i) (other e) in
      (f.1 ∙ ground (arith, e), λ p. f.0 ∙ ground (arith, e))
  | no ne ↦
      let ih = install_loop-copy r (suc tail) (round tail) i (omega arith) (omega arith) (
        λ a b c d k l. sc.0 a b (omega arith) (omega arith) (omega arith) (omega arith),
        λ a b c d k l m. sc.1 a b (omega arith) (omega arith) (omega arith) (omega arith) m,
      ) in
      (ih.0 ∙ kept, λ p. ih.1 (omega arith) ∙ kept)
]
  where
    round : ℕ → Log
    round t = bwrite (w.block t) (w.cache (w.start + t + 1)) w

    other : tail ≡ i → (j : ℕ) → suc tail ≤ j → j < suc tail + r → w.block j ≢ w.block i
    other e j a b h = absurd (omega (arith, sc.1 j i (omega arith) (omega arith) lo hi h))

    kept : (round tail).cache (w.start + i + 1) ≡ w.cache (w.start + i + 1)
    kept = ground (arith, sc.0 tail i (omega arith) (omega arith) lo hi)

-- With no power left `install_trans` changes nothing on the disk.
pub install_loop-lost : (r tail : ℕ) (w : Log) → w.power ≡ 0 → (install_loop r tail w).disk ≡ w.disk
unfolding install_loop
install_loop-lost zero tail w p = refl
install_loop-lost (suc r) tail w p =
    install_loop-lost r (suc tail) (bwrite (w.block tail) (w.cache (w.start + tail + 1)) w)
      (omega arith)
    ∙ rw p
