-- ===== src/Log/Tests.antt =====
-- Runs of the log at a small transaction, and the theorems about it there.
use ele3021_spring.Common.{ℕ, false, ◌≢◌, ◌≡◌, arith, refl, done}
use ele3021_spring.Log.{reboot, Log, Block, update, initlog, commit, log_write}
use ele3021_spring.Log.Restart.{IsTransaction, restart}
use ele3021_spring.Log.Crash.{commit-old, commit-new}
use ele3021_spring.Log.Absorb.{Adds, log_write-Adds, HasRoom}

abbrev empty : Block
empty = λ j. 0

abbrev fresh : Block
fresh = λ j. 7

-- Block 32 was changed in the cache; `p` disk writes are left.
abbrev tx : ℕ → Log
tx p = record {
  start = 2;
  size = 30;
  outstanding = 0;
  committing = false;
  n = 1;
  block = λ i. 32;
  cache = update (λ b. empty) 32 fresh;
  dirty = λ b. false;
  disk = λ b. empty;
  power = p;
}

tx-IsTransaction : (p : ℕ) → IsTransaction (tx p)
tx-IsTransaction p = record {
  placed = record {
    few = omega arith;
    away = λ i lt. omega arith;
    distinct = λ i j a b e. omega arith;
  };
  clean = λ b out. outside b (out 0 (omega arith));
  idle = refl;
}
  where
    outside : (b : ℕ) → 32 ≢ b → update (λ b. empty) 32 fresh b ≡ empty
    outside b ne = ground arith

commit-new_example : (initlog 2 30 (restart 5 (commit (tx 2)))).disk 32 ≡ fresh
commit-new_example =
    commit-new (tx 2) 5 32 (tx-IsTransaction 2) (omega arith) (omega arith) (omega arith)
      (omega arith)

commit-old_example : (initlog 2 30 (restart 5 (commit (tx 1)))).disk 32 ≡ empty
commit-old_example =
    commit-old (tx 1) 5 32 (tx-IsTransaction 1) (omega arith) (omega arith) (omega arith)

-- The word of block 32 after a crash with two writes done, by evaluation.
recovered : (initlog 2 30 (restart 5 (commit (tx 2)))).disk 32 3 ≡ 7
unfolding initlog commit reboot
recovered = refl

-- The operation that has changed block 32 on a log of LOGSIZE blocks.
abbrev dealt : Log
dealt = record (tx 9) { outstanding = 1 }

dealt-IsTransaction : IsTransaction dealt
dealt-IsTransaction = record {
  placed = (tx-IsTransaction 9).placed;
  clean = (tx-IsTransaction 9).clean;
  idle = refl;
}

dealt-HasRoom : HasRoom dealt
dealt-HasRoom = record {
  some_ = omega arith;
  few = omega arith;
  fits = omega arith;
  size = omega arith;
}

log_write-Adds_example : (w' : Log) × (log_write 60 fresh dealt ≡ done w') × Adds dealt w' 60 fresh
log_write-Adds_example =
    log_write-Adds dealt 60 fresh dealt-IsTransaction (omega arith) dealt-HasRoom
