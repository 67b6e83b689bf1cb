-- ===== src/Syscall/Denied.antt =====
-- The log of xv6-public/log.c where an operation that ended is ended again, as `sys_mkdir` of
-- xv6-public/sysfile.c does where `create` is denied.
use ele3021_spring.Common.{ℕ, false, ◌≡◌, Outcome, ◌>>=◌}
use ele3021_spring.Log.{Log, Block, begin_op, end_op, log_write}

-- Two `end_op` after one `begin_op` on an idle log, then an operation that writes a block.
abbrev pub twice_ended : ℕ → Block → Log → Outcome Log
twice_ended b x w =
    end_op (begin_op w).1 >>= λ w1. end_op w1 >>= λ w2. log_write b x (begin_op w2).1

abbrev pub IsIdle : Log → Type 0
IsIdle w = (w.outstanding ≡ 0) × (w.committing ≡ false) × (w.n ≡ 0)
