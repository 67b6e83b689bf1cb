-- ===== src/Proc/Reaping.antt =====
-- What one round of `wait` in xv6-public/proc.c does.
use ele3021_spring.Proc.Life.{World, Kernel}
use ele3021_spring.Common.{
  ℕ, ◌≡◌, none, some, get_elem?, false, true, ◌&&◌, All, Bool, ◌≢◌, done, ◌⊎◌, set,
}
use ele3021_spring.Proc.{Proc, is_zombie, zombie, unused}
use ele3021_spring.Proc.Pids.{UniquePids}
use ele3021_spring.Proc.Family.{is_child_of, Waiting, reaped, have_kids, no_child, asleep}

-- A child of `cur` that has exited.
abbrev is_dead_child : ℕ → Proc → Bool
is_dead_child cur p = is_child_of cur p && is_zombie p.state

-- A dead child in slot `i` is reaped: its slot is freed, all others are as they were, and the lock
-- is free.
pub record Reaped {S : Type 0} (cur : ℕ) (w w' : World S) (pid : ℕ) : Type 0 where
  pub place : ℕ
  pub child : Proc
  pub here : get_elem? w.table.proc place ≡ some child
  pub parent : child.parent ≡ some cur
  pub dead : child.state ≡ zombie
  pub pid_lem : pid ≡ child.pid
  pub freed :
      get_elem? w'.table.proc place
      ≡ some (record child {
        kstack = 0;
        pid = 0;
        parent = none;
        name = set child.name 0 0;
        killed = 0;
        state = unused;
      })
  pub others : (j : ℕ) → place ≢ j → get_elem? w'.table.proc j ≡ get_elem? w.table.proc j
  pub unique : UniquePids w'.table
  pub free : w'.table.locked ≡ false

-- No child is dead, and there is none at all or the caller was killed; or it goes to sleep, with
-- the lock held.
abbrev pub Waits : {S : Type 0} → ℕ → Proc → World S → Waiting → World S → Type 0
Waits cur c w (reaped pid) w' = Reaped cur w w' pid
Waits cur c w no_child w' =
    All (λ p. is_dead_child cur p ≡ false) w.table.proc
    × (w'.table ≡ w.table)
    × ((have_kids cur w.table.proc ≡ false) ⊎ (c.killed ≢ 0))
Waits cur c w asleep w' =
    All (λ p. is_dead_child cur p ≡ false) w.table.proc
    × (w'.table ≡ record w.table { locked = true })
    × (have_kids cur w.table.proc ≡ true)
    × (c.killed ≡ 0)

-- The kernel stack and the page table of the child that a round of `wait` would reap can be freed.
pub record CanReap {S : Type 0} (k : Kernel S) (p : Proc) (s : S) : Type 0 where
  pub stackless : S
  pub kfrees : k.kfree p.kstack s ≡ done stackless
  pub rest : S
  pub frees : k.freevm p.pgdir stackless ≡ done rest
