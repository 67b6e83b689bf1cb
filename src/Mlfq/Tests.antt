-- ===== src/Mlfq/Tests.antt =====
-- The scheduler on a table of three processes.
use ele3021_spring.Common.{ℕ, List, ◌≡◌, All, map, ◌∷◌, refl, arith, true, []}
use ele3021_spring.Proc.{Proc, blank, runnable, sleeping}
use ele3021_spring.Mlfq.{eligible, lowest, pick, pass, schedule, boost, age}
use ele3021_spring.Mlfq.Choose.{IsBest, pick-IsBest}
use ele3021_spring.Mlfq.Quanta.{InQueue, schedule-InQueue, boost-lowest}
use ele3021_spring.Mlfq.Pass.{NoMore, pass-ends}

abbrev slow : Proc
slow = record blank { state = runnable; pid = 1; level = 1; hold = 2; priority = 3 }

abbrev keen : Proc
keen = record blank { state = runnable; pid = 2; level = 1; hold = 5; priority = 9 }

abbrev asleep : Proc
asleep = record blank { state = sleeping; pid = 3; level = 1; hold = 0; priority = 10 }

abbrev table : List Proc
table = slow ∷ asleep ∷ keen ∷ []

-- What a process does in its turn: nothing.
abbrev rest : ℕ → List Proc → List Proc
rest n ps = ps

pick-IsBest_example : IsBest 1 table (pick 1 table 0 0 3)
unfolding eligible
pick-IsBest_example = pick-IsBest 1 table 0 slow refl refl

picked : pick 1 table 0 0 3 ≡ 2
unfolding pick
picked = refl

rest-NoMore : (n : ℕ) (ps : List Proc) → NoMore ps (rest n ps)
rest-NoMore n [] = tt
rest-NoMore n (p ∷ ps) = (omega arith, rest-NoMore n ps)

pass-ends_example : (pass rest 40 1 0 table).0 ≡ true
pass-ends_example = pass-ends rest rest-NoMore 40 1 0 table (omega arith)

schedule-InQueue_example : All (InQueue 3) (schedule rest 3 40 7 (true, table)).1
schedule-InQueue_example =
    schedule-InQueue 3 (omega arith) (omega arith) rest (λ n ps h. h) 40 7 true table (omega arith)

boost-lowest_example : lowest 3 (map (age 3) (map boost table)) ≡ 0
boost-lowest_example = boost-lowest 3 table 0 slow (omega arith) refl refl
