-- ===== src/Spinlock/Tests.antt =====
-- Two CPUs at one lock.
use ele3021_spring.Common.{ℕ, List, ◌≡◌, ◌∷◌, ◌>>=◌, [], done, refl}
use ele3021_spring.Spinlock.{Machine, taken, inside, initlock, run}
use ele3021_spring.Spinlock.Exclusion.{IsSafe, run-initlock}

-- Both try; CPU 1 gets the lock first, and CPU 0 when it is free again.
abbrev order : List ℕ
order = 0 ∷ 1 ∷ 1 ∷ 0 ∷ 1 ∷ 1 ∷ 1 ∷ 0 ∷ 0 ∷ []

run-initlock_example : (m : Machine) × (run order initlock ≡ done m) × IsSafe m
run-initlock_example = run-initlock order

first_gets : (run (0 ∷ 1 ∷ 1 ∷ 0 ∷ []) initlock >>= λ m. done (m.place 1)) ≡ done taken
unfolding run
first_gets = refl

second_gets : (run order initlock >>= λ m. done (m.place 0)) ≡ done inside
unfolding run
second_gets = refl
