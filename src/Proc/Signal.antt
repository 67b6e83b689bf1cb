-- ===== src/Proc/Signal.antt =====
-- `wakeup1`, `wakeup` and `kill` of xv6-public/proc.c.
pub mod Laws
use ele3021_spring.Common.{
  ℕ, suc, zero, Bool, true, false, ◌&&◌, ◌==◌, if◌then◌else◌, List, [], ◌∷◌, Option, none, some,
  map, Outcome, done, panicked, faulted, ◌>>=◌, get_elem?, set, minus,
}
use mathlib.Core.Option
use ele3021_spring.Proc.{Proc, Ptable, sleeping, runnable, is_sleeping}
use ele3021_spring.Proc.Lock.{acquire, release}

-- The body of the loop of `wakeup1`.
unfoldable pub wake : ℕ → Proc → Proc
wake chan p = if is_sleeping p.state && p.chan == chan then record p { state = runnable } else p

unfoldable pub wakeup1 : ℕ → Ptable → Ptable
wakeup1 chan t = record t { proc = map (wake chan) t.proc }

unfoldable pub wakeup : ℕ → Ptable → Outcome Ptable
wakeup chan t = do t1 ← acquire t; release (wakeup1 chan t1)

-- What `kill` does to the process it finds.
unfoldable pub kill_one : Proc → Proc
kill_one p = record p { killed = 1; state = if is_sleeping p.state then runnable else p.state }

-- The loop of `kill`: the table with the first process of that pid changed, if there is one.
unfoldable pub kill_scan : ℕ → List Proc → Option (List Proc)
unfolding kill_one
kill_scan pid [] = none
kill_scan pid (p ∷ ps) =
    if p.pid == pid then some (kill_one p ∷ ps) else Option.map (λ qs. p ∷ qs) (kill_scan pid ps)

unfoldable pub kill : ℕ → Ptable → Outcome (ℕ × Ptable)
kill pid t = do
  t1 ← acquire t
  elim (kill_scan pid t1.proc) [
    | some ps ↦ do t2 ← release (record t1 { proc = ps }); done (0, t2)
    | none ↦ do t2 ← release t1; done (minus 1, t2)
  ]
