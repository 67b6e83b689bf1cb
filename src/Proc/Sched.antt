-- ===== src/Proc/Sched.antt =====
-- `sched`, `yield`, `yield2` and `sleep` of xv6-public/proc.c, each up to the switch to the scheduler
-- and from the switch back on.
use ele3021_spring.Common.{
  ℕ, Bool, true, false, not, ◌==◌, if◌then◌else◌, Option, none, some, get_elem?, Outcome, done,
  panicked, faulted, ◌>>=◌,
}
use ele3021_spring.Mlfq.{modify, time_quantum}
use ele3021_spring.Proc.{Ptable, ProcState, runnable, sleeping}
use ele3021_spring.Proc.Lock.{acquire, release}

abbrev pub is_running : ProcState → Bool
is_running ProcState.running = true
is_running _ = false

-- The tests of `sched`, for the process in slot `cur`: `ncli` is the CPU's count of `pushcli`, and
-- `fl_if` says that interrupts are enabled. The table is what the scheduler finds.
unfoldable pub sched : ℕ → ℕ → Bool → Ptable → Outcome Ptable
sched cur ncli fl_if t =
    if not t.locked
    then panicked
    else if not (ncli == 1)
    then panicked
    else elim (get_elem? t.proc cur) [
      | none ↦ faulted
      | some p ↦ if is_running p.state then panicked else if fl_if then panicked else done t
    ]

-- `yield` up to the switch; after it, there is only `release`.
unfoldable pub yield : ℕ → ℕ → Bool → Ptable → Outcome Ptable
unfolding sched
yield cur ncli fl_if t = acquire t >>= λ t1.
    sched cur ncli fl_if
      (record t1 { proc = modify cur (λ p. record p { state = runnable }) t1.proc })

unfoldable pub yield2 : ℕ → ℕ → Bool → Ptable → Outcome Ptable
unfolding sched
yield2 cur ncli fl_if t = acquire t >>= λ t1. sched cur ncli fl_if (record t1 {
  proc = modify cur (λ p. record p { state = runnable; level = 0; hold = time_quantum 0 }) t1.proc;
})

-- A lock of `sleep`'s caller: `ptable.lock` itself, or another one that is held.
pub data SleepLock : Type 0 where
  null_lock ptable_lock other_lock : SleepLock

-- `sleep` up to the switch. `release_other` is the release of another lock, done while
-- `ptable.lock` is held.
module _ {S : Type 0} (release_other acquire_other : S → Outcome S) where
  unfoldable pub sleep : Option ℕ → ℕ → SleepLock → ℕ → Bool → Ptable × S → Outcome (Ptable × S)
  unfolding sched
  sleep none chan lk ncli fl_if (t, s) = panicked
  sleep (some cur) chan null_lock ncli fl_if (t, s) = panicked
  sleep (some cur) chan ptable_lock ncli fl_if (t, s) =
      sched cur ncli fl_if
        (record t { proc = modify cur (λ p. record p { chan = chan; state = sleeping }) t.proc })
      >>= λ t1. done (t1, s)
  sleep (some cur) chan other_lock ncli fl_if (t, s) = acquire t >>= λ t1. release_other s >>= λ s1.
      sched cur ncli fl_if
        (record t1 { proc = modify cur (λ p. record p { chan = chan; state = sleeping }) t1.proc })
      >>= λ t2. done (t2, s1)

  -- The end of `sleep`, when the process has been switched to again.
  unfoldable pub awake : ℕ → SleepLock → Ptable × S → Outcome (Ptable × S)
  awake cur lk (t, s) =
      let t1 = record t { proc = modify cur (λ p. record p { chan = 0 }) t.proc } in
      elim lk [
        | null_lock ↦ done (t1, s)
        | ptable_lock ↦ done (t1, s)
        | other_lock ↦ release t1 >>= λ t2. acquire_other s >>= λ s1. done (t2, s1)
      ]
