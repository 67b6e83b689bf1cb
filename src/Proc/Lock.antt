-- ===== src/Proc/Lock.antt =====
-- `acquire(&ptable.lock)` and `release(&ptable.lock)` on one CPU, where the holder of the lock is
-- always the CPU that asks: a second `acquire`, or a `release` of a free lock, panics.
use ele3021_spring.Common.{if◌then◌else◌, Outcome, done, panicked, true, false}
use ele3021_spring.Proc.{Ptable}

unfoldable pub acquire : Ptable → Outcome Ptable
acquire t = if t.locked then panicked else done (record t { locked = true })

unfoldable pub release : Ptable → Outcome Ptable
release t = if t.locked then done (record t { locked = false }) else panicked
