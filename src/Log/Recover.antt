-- ===== src/Log/Recover.antt =====
-- What installing a transaction and recovering from the log of xv6-public/log.c do to the disk.
use ele3021_spring.Common.{
  ℕ, ◌≤◌, ◌<◌, ◌≡◌, ◌⊎◌, ◌+◌, ◌≢◌, arith, inr, ◌∙◌, suc, ℕ_discrete, inl, zero, ◌-◌, sym, ap, subst,
}
use ele3021_spring.Log.{
  Log, Block, logsize, install_loop, install_trans, read_head, write_head, recover_from_log,
}
use ele3021_spring.Log.Loops.{install_loop-SameLog, install_loop-frame, install_loop-copy}
use ele3021_spring.Log.Head.{IsHeader, write_head-WritesHead, read_head-IsHeader}

-- The logged block numbers: few enough, none in the log itself, each once.
pub record IsPlaced (n start : ℕ) (block : ℕ → ℕ) : Type 0 where
  pub few : n < logsize
  pub away : (i : ℕ) → i < n → (block i < start) ⊎ (start + logsize ≤ block i)
  pub distinct : (i j : ℕ) → i < n → j < n → block i ≡ block j → i ≡ j

-- A block outside the log: the home of file system data.
abbrev pub IsHome : ℕ → ℕ → Type 0
IsHome start b = (b < start) ⊎ (start + logsize ≤ b)

-- Whether a block is among the first `n` of the list.
pub member :
    (n : ℕ) (block : ℕ → ℕ) (b : ℕ)
    → ((i : ℕ) × (i < n) × (block i ≡ b)) ⊎ ((i : ℕ) → i < n → block i ≢ b)
member zero block b = inr (λ i lt e. absurd (omega arith))
member (suc n) block b = elim (ℕ_discrete (block n) b) [
  | yes e ↦ inl (n, omega arith, e)
  | no ne ↦ elim (member n block b) [
    | inl m ↦ inl (m.0, omega (arith, m.1), m.2)
    | inr none_ ↦
        inr (λ i lt. elim (ℕ_discrete i n) [ yes s ↦ rw s ne | no s ↦ none_ i (omega arith) ])
  ]
]

-- What `install_trans` does for the blocks `block`, of which there are `n`.
pub record Installs (n : ℕ) (block : ℕ → ℕ) (w w' : Log) : Type 0 where
  pub start : w'.start ≡ w.start
  pub power : w'.power ≡ w.power - n
  pub home : n ≤ w.power → (i : ℕ) → i < n → w'.disk (block i) ≡ w.cache (w.start + i + 1)
  pub frame : (b : ℕ) → ((i : ℕ) → i < n → block i ≢ b) → w'.disk b ≡ w.disk b

module _ (n : ℕ) (block : ℕ → ℕ) (w : Log) (placed : IsPlaced n w.start block) (count : w.n ≡ n)
    (same : (j : ℕ) → j < n → w.block j ≡ block j) where
  scattered :
      ((i j : ℕ) → 0 ≤ i → i < 0 + w.n → 0 ≤ j → j < 0 + w.n → w.block i ≢ w.start + j + 1)
      × ((i j : ℕ) → 0 ≤ i → i < 0 + w.n → 0 ≤ j → j < 0 + w.n → w.block i ≡ w.block j → i ≡ j)
  scattered = (
    λ i j a b c d e. absurd (
        omega (
          arith,
          count,
          same i (omega (arith, count)),
          placed.away i (omega (arith, count)),
          placed.few,
        )),
    λ i j a b c d e.
        placed.distinct i j (omega (arith, count)) (omega (arith, count))
          (sym (same i (omega (arith, count))) ∙ e ∙ same j (omega (arith, count))),
  )

  pub install_trans-Installs : Installs n block w (install_trans w)
  unfolding install_trans
  install_trans-Installs = record {
    start = (install_loop-SameLog w.n 0 w).start;
    power = (install_loop-SameLog w.n 0 w).power ∙ ap (λ (m : ℕ). w.power - m) count;
    home = λ p i lt.
        subst (λ (b : ℕ). (install_loop w.n 0 w).disk b ≡ w.cache (w.start + i + 1)) (same i lt)
          ((install_loop-copy w.n 0 w i (omega arith) (omega (arith, count)) scattered).1
            (omega (arith, count)));
    frame = λ b ne.
        (install_loop-frame w.n 0 w b
          (λ i lo hi e. ne i (omega (arith, count)) (sym (same i (omega (arith, count))) ∙ e))).0;
  }

-- What recovery does to the disk of a machine whose cache is as the disk and whose header names
-- the first `n` of `block`.
pub record Recovers (n : ℕ) (block : ℕ → ℕ) (w w' : Log) : Type 0 where
  pub installed : (i : ℕ) → i < n → w'.disk (block i) ≡ w.disk (w.start + i + 1)
  pub kept : (b : ℕ) → b ≢ w.start → ((i : ℕ) → i < n → block i ≢ b) → w'.disk b ≡ w.disk b

pub cleared_head :
    (w : Log) (b : ℕ) → b ≢ w.start → (write_head (record w { n = 0 })).disk b ≡ w.disk b
cleared_head w b ne = (write_head-WritesHead (record w { n = 0 })).disk b ne

module _ (n : ℕ) (block : ℕ → ℕ) (w : Log) (placed : IsPlaced n w.start block)
    (clean : w.cache ≡ w.disk) (header : IsHeader (w.disk w.start) n block)
    (power : n ≤ w.power) where
  read : ((read_head w).n ≡ n) × ((j : ℕ) → j < n → (read_head w).block j ≡ block j)
  read = read_head-IsHeader w n block (rw clean header)

  recover-Recovers_of :
      Installs n block (read_head w) (install_trans (read_head w))
      → Recovers n block w (recover_from_log w)
  unfolding recover_from_log read_head
  recover-Recovers_of ins = record {
    installed = λ i lt.
        cleared_head (install_trans (read_head w)) (block i)
          (λ e. absurd (omega (arith, placed.away i lt, ins.start)))
        ∙ ins.home power i lt
        ∙ ap (λ (c : ℕ → Block). c (w.start + i + 1)) clean;
    kept = λ b ne out.
        cleared_head (install_trans (read_head w)) b (λ e. ne (e ∙ ins.start)) ∙ ins.frame b out;
  }

  pub recover-Recovers : Recovers n block w (recover_from_log w)
  unfolding read_head
  recover-Recovers =
      recover-Recovers_of (install_trans-Installs n block (read_head w) placed read.0 read.1)
