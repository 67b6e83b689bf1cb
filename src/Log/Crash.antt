-- ===== src/Log/Crash.antt =====
-- Crash safety of xv6-public/log.c: whenever the power fails during `commit`, recovery leaves
-- either all home blocks as they were or all of them as the transaction has them.
use ele3021_spring.Common.{
  ℕ, ◌≡◌, ◌<◌, ◌∙◌, ◌-◌, ◌+◌, ap, arith, ◌≤◌, ◌⊎◌, ◌≢◌, subst, inl, sym, inr, dec_lt,
}
use ele3021_spring.Log.{
  Log, logsize, write_loop, install_trans, write_log, write_head, commit, Block, initlog,
}
use ele3021_spring.Log.Loops.{
  SameLog, write_loop-SameLog, write_loop-frame, write_loop-copy, install_loop-lost,
}
use ele3021_spring.Log.Head.{WritesHead, write_head-WritesHead, IsHeader}
use ele3021_spring.Log.Recover.{Installs, install_trans-Installs, IsHome, member}
use ele3021_spring.Log.Restart.{
  IsTransaction, Settled, Committed, restart, recover-Settled, recover-Committed,
}

-- What `write_log` does: the log blocks, on the disk if there is power, and nothing else.
record Logs (w w' : Log) : Type 0 where
  start : w'.start ≡ w.start
  n : w'.n ≡ w.n
  block : w'.block ≡ w.block
  power : w'.power ≡ w.power - w.n
  cached : (i : ℕ) → i < w.n → w'.cache (w.start + i + 1) ≡ w.cache (w.block i)
  logged : w.n ≤ w.power → (i : ℕ) → i < w.n → w'.disk (w.start + i + 1) ≡ w.cache (w.block i)
  disk : (b : ℕ) → (b ≤ w.start) ⊎ (w.start + logsize ≤ b) → w'.disk b ≡ w.disk b

write_log-Logs : (w : Log) → IsTransaction w → Logs w (write_log w)
unfolding write_log
write_log-Logs w t = record {
  start = same.start;
  n = same.n;
  block = same.block;
  power = same.power;
  cached = λ i lt. (copy i lt).0;
  logged = λ p i lt. (copy i lt).1 p;
  disk = λ b o. (write_loop-frame w.n 0 w b (omega (arith, t.placed.few))).0;
}
  where
    same : SameLog w (write_loop w.n 0 w) w.n
    same = write_loop-SameLog w.n 0 w

    copy :
        (i : ℕ)
        → i < w.n
        → ((write_loop w.n 0 w).cache (w.start + i + 1) ≡ w.cache (w.block i))
          × (w.n ≤ w.power → (write_loop w.n 0 w).disk (w.start + i + 1) ≡ w.cache (w.block i))
    copy i lt =
        write_loop-copy w.n 0 w i (omega arith) (omega arith)
          (λ j a b. omega (arith, t.placed.away j (omega arith), t.placed.few))

-- The four phases of `commit`.
module _ (w : Log) (t : IsTransaction w) where
  w1 : Log
  w1 = write_log w

  w2 : Log
  unfolding w1
  w2 = write_head w1

  w3 : Log
  unfolding w2
  w3 = install_trans w2

  w4 : Log
  unfolding w3
  w4 = write_head (record w3 { n = 0 })

  p1 : Logs w w1
  unfolding w1
  p1 = write_log-Logs w t

  p2 : WritesHead w1 w2
  unfolding w2
  p2 = write_head-WritesHead w1

  w2-start : w2.start ≡ w.start
  w2-start = p2.start ∙ p1.start

  p3 : Installs w.n w.block w2 w3
  unfolding w3
  p3 =
      install_trans-Installs w.n w.block w2 (rw w2-start t.placed) (p2.n ∙ p1.n)
        (λ j lt. ap (λ (b : ℕ → ℕ). b j) (p2.block ∙ p1.block))

  p4 : WritesHead (record w3 { n = 0 }) w4
  unfolding w4
  p4 = write_head-WritesHead (record w3 { n = 0 })

  w3-start : w3.start ≡ w.start
  w3-start = p3.start ∙ w2-start

  commit-w4 : 0 < w.n → commit w ≡ w4
  unfolding commit w4
  commit-w4 h = ground arith

  powers :
      (w1.power ≡ w.power - w.n)
      × (w2.power ≡ w.power - w.n - 1)
      × (w3.power ≡ w.power - w.n - 1 - w.n)
  powers = omega (arith, p1.power, p2.power, p3.power)

  away_start : (i : ℕ) → i < w.n → w.block i ≢ w.start
  away_start i lt = omega (arith, t.placed.away i lt)

  -- No power for the header: the disk keeps the old home blocks and an empty log.
  early : w.power ≤ w.n → Settled w w4 w.disk
  unfolding w3 install_trans
  early h = record {
    idle =
        ap (λ (f : ℕ → Block). f w.start 0) disk
        ∙ ap (λ (f : Block). f 0) (p1.disk w.start (omega arith))
        ∙ t.idle;
    home = λ b o. ap (λ (f : ℕ → Block). f b) disk ∙ p1.disk b (omega arith);
  }
    where
      disk : w4.disk ≡ w1.disk
      disk =
          p4.lost (omega (arith, powers))
          ∙ install_loop-lost w2.n 0 w2 (omega (arith, powers))
          ∙ p2.lost (omega (arith, powers))

  header2 : w.n < w.power → IsHeader (w2.disk w.start) w.n w.block
  header2 h =
      subst (λ (s : ℕ). IsHeader (w2.disk s) w.n w.block) p1.start
        (subst (λ (f : ℕ → ℕ). IsHeader (w2.disk w1.start) w.n f) p1.block
          (subst (λ (m : ℕ). IsHeader (w2.disk w1.start) m w1.block) p1.n
            (p2.header (omega (arith, powers)))))

  ne-start1 : (b : ℕ) → b ≢ w.start → b ≢ w1.start
  ne-start1 b ne e = ne (e ∙ p1.start)

  -- Until the header is cleared the log holds the transaction.
  middle : w.n < w.power → w3.power ≡ 0 → Committed w w4
  middle h out = record {
    header =
        subst (λ (x : Block). IsHeader x w.n w.block)
          (sym (p3.frame w.start away_start)
            ∙ sym (ap (λ (f : ℕ → Block). f w.start) (p4.lost out)))
          (header2 h);
    logged = λ i lt.
        ap (λ (f : ℕ → Block). f (w.start + i + 1)) (p4.lost out)
        ∙ p3.frame (w.start + i + 1) (λ j lj. omega (arith, t.placed.away j lj, t.placed.few))
        ∙ p2.disk (w.start + i + 1) (ne-start1 _ (omega arith))
        ∙ p1.logged (omega arith) i lt;
    others = λ b o ne.
        ap (λ (f : ℕ → Block). f b) (p4.lost out)
        ∙ p3.frame b ne
        ∙ p2.disk b (ne-start1 b (omega arith))
        ∙ p1.disk b (omega arith);
  }

  -- Once the header is cleared the home blocks hold the transaction.
  late : 0 < w3.power → Settled w w4 w.cache
  late h = record {
    idle = subst (λ (s : ℕ). w4.disk s 0 ≡ 0) w3-start (p4.header h).count;
    home =
        λ b o. p4.disk b (λ e. absurd (omega (arith, w3-start))) ∙ new b o (member w.n w.block b);
  }
    where
      new :
          (b : ℕ)
          → IsHome w.start b
          → ((i : ℕ) × (i < w.n) × (w.block i ≡ b)) ⊎ ((i : ℕ) → i < w.n → w.block i ≢ b)
          → w3.disk b ≡ w.cache b
      new b o (inl m) =
          subst (λ (a : ℕ). w3.disk a ≡ w.cache a) m.2
            (p3.home (omega (arith, powers)) m.0 m.1
              ∙ ap (λ (s : ℕ). w2.cache (s + m.0 + 1)) w2-start
              ∙ p2.cache (w.start + m.0 + 1) (ne-start1 _ (omega arith))
              ∙ p1.cached m.0 m.1)
      new b o (inr out) =
          p3.frame b out
          ∙ p2.disk b (ne-start1 b (omega arith))
          ∙ p1.disk b (omega arith)
          ∙ sym (t.clean b out)

-- Atomicity, first half. If the power fails during `commit` of a well-placed transaction after at
-- most `w.n` disk writes, that is before the header block is written, then recovery, given power
-- for `w.n` writes, leaves every home block with the contents that it had before the transaction.
pub commit-old :
    (w : Log) (p b : ℕ)
    → IsTransaction w
    → 0 < w.n
    → w.power ≤ w.n
    → IsHome w.start b
    → (initlog w.start w.size (restart p (commit w))).disk b ≡ w.disk b
commit-old w p b t some_ h o =
    rw (commit-w4 w t some_) (recover-Settled w t p (w4 w t) w.disk (early w t h) b o)

-- Atomicity, second half. If at least the first `w.n + 1` disk writes of `commit` of a well-placed
-- transaction reach the disk, that is those of `write_log` and the header block, then whenever the power fails after that,
-- recovery, given power for `w.n` writes, leaves every home block with the contents that the
-- transaction gave it in the cache.
pub commit-new :
    (w : Log) (p b : ℕ)
    → IsTransaction w
    → 0 < w.n
    → w.n < w.power
    → w.n ≤ p
    → IsHome w.start b
    → (initlog w.start w.size (restart p (commit w))).disk b ≡ w.cache b
commit-new w p b t some_ h enough o = rw (commit-w4 w t some_) (elim (dec_lt 0 (w3 w t).power) [
  | yes live ↦ recover-Settled w t p (w4 w t) w.cache (late w t live) b o
  | no dead ↦ recover-Committed w t p (w4 w t) (middle w t h (omega arith)) enough b o
])
