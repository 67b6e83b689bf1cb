-- ===== src/Spinlock.antt =====
-- One lock of xv6-public/spinlock.c that several CPUs contend for: `acquire` and `release` as their
-- atomic steps, in any order. `holding` of a CPU reads two fields in one step, since no other CPU
-- changes what it answers.
pub mod Exclusion
mod Tests
use ele3021_spring.Common.{
  ℕ, Bool, if◌then◌else◌, Outcome, false, List, Option, ◌&&◌, ◌==◌, panicked, none, done, some,
  true, ◌∷◌, ◌>>=◌, [],
}

-- Where a CPU is: outside, in the loop of `acquire`, behind it, inside, or between the two stores of
-- `release`.
pub data Place : Type 0 where
  outside spinning taken inside clearing : Place

-- The lock, its `cpu` field as the number of the CPU, and the places of all CPUs.
pub record Machine : Type 0 where
  pub locked : Bool
  pub cpu : Option ℕ
  pub place : ℕ → Place

unfoldable pub holding : ℕ → Machine → Bool
holding c m = m.locked && elim m.cpu [ none ↦ false | some d ↦ d == c ]

abbrev pub put : ℕ → Place → Machine → Machine
put c p m = record m { place = λ d. if c == d then p else m.place d }

-- The next step of CPU `c`: the test of `acquire`, one `xchg`, the store of `lk->cpu`, the test of
-- `release` with its store, and the store that frees the lock.
unfoldable pub step : ℕ → Machine → Outcome Machine
unfolding holding
step c m = elim (m.place c) [
  | outside ↦ if holding c m then panicked else done (put c spinning m)
  | spinning ↦ if m.locked then done m else done (put c taken (record m { locked = true }))
  | taken ↦ done (put c inside (record m { cpu = some c }))
  | inside ↦ if holding c m then done (put c clearing (record m { cpu = none })) else panicked
  | clearing ↦ done (put c outside (record m { locked = false }))
]

-- `initlock`, with all CPUs outside.
abbrev pub initlock : Machine
initlock = record { locked = false; cpu = none; place = λ c. outside }

-- The CPUs take steps in the order of the list.
unfoldable pub run : List ℕ → Machine → Outcome Machine
unfolding step
run [] m = done m
run (c ∷ cs) m = step c m >>= run cs
