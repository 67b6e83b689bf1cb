-- ===== src/Log/Space.antt =====
-- What `log_write` of xv6-public/log.c does when the log is not full.
use ele3021_spring.Common.{ℕ, ◌≤◌, ◌≡◌, ◌+◌, true, arith, ◌<◌, done, if◌then◌else◌, ◌==◌}
use ele3021_spring.Log.{Log, Block, logsize, find_block, log_write, update}

-- The log after `log_write` of `b`.
unfoldable pub logged : ℕ → Block → Log → Log
unfolding find_block
logged b x w =
    let i = find_block w.n 0 w.block b in
    record w {
      cache = update w.cache b x;
      block = update w.block i b;
      n = if i == w.n then w.n + 1 else w.n;
      dirty = update w.dirty b true;
    }

pub log_write-logged :
    (b : ℕ) (x : Block) (w : Log)
    → w.n < logsize
    → w.n + 1 < w.size
    → 0 < w.outstanding
    → w.outstanding ≤ 3
    → log_write b x w ≡ done (logged b x w)
unfolding log_write logged
log_write-logged b x w full large some_ few = ground arith
