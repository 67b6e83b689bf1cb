-- ===== src/Log/Restart.antt =====
-- Restarting xv6-public/log.c on a disk with an empty log, and on one with a whole transaction.
use ele3021_spring.Common.{ℕ, ◌<◌, ◌≡◌, ◌≤◌, ◌≢◌, ◌+◌, arith, inl, ◌∙◌, subst, inr, sym, refl}
use ele3021_spring.Log.{Log, Block, recover_from_log, initlog, reboot}
use ele3021_spring.Log.Head.{IsHeader}
use ele3021_spring.Log.Recover.{IsPlaced, IsHome, member, Recovers, recover-Recovers}

-- A transaction that is about to be committed: its blocks are well placed, the cache differs from
-- the disk only there, and the log on the disk is empty.
pub record IsTransaction (w : Log) : Type 0 where
  pub placed : IsPlaced w.n w.start w.block
  pub clean : (b : ℕ) → ((i : ℕ) → i < w.n → w.block i ≢ b) → w.cache b ≡ w.disk b
  pub idle : w.disk w.start 0 ≡ 0

-- The machine that starts again on the disk that a power failure left, with power `p`.
abbrev pub restart : ℕ → Log → Log
restart p w = record (reboot w) { power = p }

-- A disk on which the log is empty, and home blocks are as `f` says.
pub record Settled (w d : Log) (f : ℕ → Block) : Type 0 where
  pub idle : d.disk w.start 0 ≡ 0
  pub home : (b : ℕ) → IsHome w.start b → d.disk b ≡ f b

-- A disk with the whole transaction in the log and all other blocks as before.
pub record Committed (w d : Log) : Type 0 where
  pub header : IsHeader (d.disk w.start) w.n w.block
  pub logged : (i : ℕ) → i < w.n → d.disk (w.start + i + 1) ≡ w.cache (w.block i)
  pub others :
      (b : ℕ) → IsHome w.start b → ((i : ℕ) → i < w.n → w.block i ≢ b) → d.disk b ≡ w.disk b

module _ (w : Log) (t : IsTransaction w) (p : ℕ) (d : Log) where
  pub recover-Settled :
      (f : ℕ → Block)
      → Settled w d f
      → (b : ℕ) → IsHome w.start b
      → (initlog w.start w.size (restart p d)).disk b ≡ f b
  unfolding initlog reboot
  recover-Settled f s b h =
      (recover-Recovers 0 w.block (record (restart p d) { start = w.start; size = w.size })
          (record {
            few = omega arith;
            away = λ i lt. absurd (omega arith);
            distinct = λ i j lt. absurd (omega arith);
          })
          refl (record { count = s.idle; entry = λ j lt. absurd (omega arith) }) (omega arith)).kept
        b (omega arith) (λ i lt. absurd (omega arith))
      ∙ s.home b h

  pub recover-Committed :
      Committed w d
      → w.n ≤ p
      → (b : ℕ) → IsHome w.start b
      → (initlog w.start w.size (restart p d)).disk b ≡ w.cache b
  unfolding initlog reboot
  recover-Committed c enough b h = elim (member w.n w.block b) [
    | inl m ↦
        subst (λ (a : ℕ). (recover_from_log r).disk a ≡ w.cache a) m.2
          (rec.installed m.0 m.1 ∙ c.logged m.0 m.1)
    | inr out ↦ rec.kept b (omega arith) out ∙ c.others b h out ∙ sym (t.clean b out)
  ]
    where
      r : Log
      r = record (restart p d) { start = w.start; size = w.size }

      rec : Recovers w.n w.block r (recover_from_log r)
      rec = recover-Recovers w.n w.block r t.placed refl c.header enough
