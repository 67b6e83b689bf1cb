-- ===== src/Mlfq/Quanta.antt =====
-- Levels and time quanta in the scheduler of xv6-public/proc.c.
use ele3021_spring.Common.{
  ℕ, ◌<◌, ◌≤◌, List, ◌≡◌, ◌*◌, arith, Bool-cases, All, get_elem?, ◌+◌, ltb, ◌∷◌, suc, Bool, false,
  some, zero, ◌-◌, [], Option-cases, if◌then◌else◌, true, refl, ◌&&◌, inl, ◌%◌, map, leb, inr, ◌==◌,
  All-map, get_elem?-map,
}
use ele3021_spring.Proc.{Proc, is_runnable, is_sleeping}
use ele3021_spring.Mlfq.{
  time_quantum, boost, demote, promote, age, charge, modify, start_running, turn, pass, schedule,
  lowest, eligible, pick,
}
use ele3021_spring.Mlfq.Choose.{lowest-least}

-- The quantum of queue i is 2i + 4 ticks.
time_quantum_lem : (level : ℕ) → level < 5 → time_quantum level ≡ 2 * level + 4
time_quantum_lem zero h = refl
time_quantum_lem (suc zero) h = refl
time_quantum_lem (suc (suc zero)) h = refl
time_quantum_lem (suc (suc (suc zero))) h = refl
time_quantum_lem (suc (suc (suc (suc zero)))) h = refl
time_quantum_lem (suc (suc (suc (suc (suc l))))) h = absurd (omega arith)

-- A slot of the table is in one of the `k` queues, with at most that queue's quantum left.
pub record InQueue (k : ℕ) (p : Proc) : Type 0 where
  pub level : p.level < k
  pub hold : p.hold ≤ 2 * p.level + 4

module _ (k : ℕ) (two : 2 ≤ k) (five : k ≤ 5) where
  boost-InQueue : (p : Proc) → InQueue k (boost p)
  unfolding boost
  boost-InQueue p = omega arith

  demote-InQueue : (p : Proc) → InQueue k p → InQueue k (demote k p)
  unfolding demote
  demote-InQueue p v = elim (Bool-cases (ltb p.level (k - 1) && leb p.hold 0)) [
    | inl e ↦ rw e (record {
      level = ground arith;
      hold = omega (arith, time_quantum_lem (p.level + 1) (ground arith));
    })
    | inr e ↦ rw e v
  ]

  promote-InQueue : (p : Proc) → InQueue k p → InQueue k (promote p)
  unfolding promote
  promote-InQueue p v = ground arith

  age-InQueue : (p : Proc) → InQueue k p → InQueue k (age k p)
  unfolding age
  age-InQueue p v = promote-InQueue (demote k p) (demote-InQueue p v)

  charge-InQueue : (p : Proc) → InQueue k p → InQueue k (charge p)
  unfolding charge
  charge-InQueue p v = ground arith

  start_running-InQueue : (p : Proc) → InQueue k p → InQueue k (start_running p)
  unfolding start_running
  start_running-InQueue p v = record { level = v.level; hold = v.hold }

  All-modify :
      (f : Proc → Proc)
      → ((p : Proc) → InQueue k p → InQueue k (f p))
      → (i : ℕ) (ps : List Proc) → All (InQueue k) ps
      → All (InQueue k) (modify i f ps)
  All-modify f keep i [] h = tt
  All-modify f keep zero (p ∷ ps) h = (keep p h.0, h.1)
  All-modify f keep (suc i) (p ∷ ps) h = (h.0, All-modify f keep i ps h.1)

  module _ (run : ℕ → List Proc → List Proc)
      (keeps : (n : ℕ) (ps : List Proc) → All (InQueue k) ps → All (InQueue k) (run n ps)) where
    turn-InQueue : (n : ℕ) (ps : List Proc) → All (InQueue k) ps → All (InQueue k) (turn run n ps)
    unfolding turn
    turn-InQueue n ps h =
        All-modify charge charge-InQueue n (run n (modify n start_running ps))
          (keeps n _ (All-modify start_running start_running-InQueue n ps h))

    pass-InQueue :
        (fuel level i : ℕ) (ps : List Proc)
        → All (InQueue k) ps
        → All (InQueue k) (pass run fuel level i ps).1
    unfolding pass
    pass-InQueue zero level i ps h = h
    pass-InQueue (suc fuel) level i ps h = elim (Option-cases (get_elem? ps i)) [
      | inl e ↦ rw (pass, e) h
      | inr (p, e) ↦ elim (Bool-cases (eligible level p)) [
        | inl g ↦
            rw (pass, e, g)
              (pass-InQueue fuel level (suc (pick level ps 0 i p.priority))
                (turn run (pick level ps 0 i p.priority) ps)
                (turn-InQueue (pick level ps 0 i p.priority) ps h))
        | inr g ↦ rw (pass, e, g) (pass-InQueue fuel level (suc i) ps h)
      ]
    ]

    -- One iteration of the scheduler keeps every slot in one of its 2 to 5 queues, with no more
    -- quantum left than that queue's 2i + 4 ticks, if what the processes do in their turns does.
    pub schedule-InQueue :
        (fuel ticks : ℕ) (flag : Bool) (ps : List Proc)
        → All (InQueue k) ps
        → All (InQueue k) (schedule run k fuel ticks (flag, ps)).1
    unfolding schedule
    schedule-InQueue fuel ticks flag ps h = elim (Bool-cases (lowest k aged == k)) [
      | inl e ↦ rw e (All-map (InQueue k) boost (λ p v. boost-InQueue p) aged aged-InQueue)
      | inr e ↦ rw e (pass-InQueue fuel (lowest k aged) 0 aged aged-InQueue)
    ]
      where
        boosted : List Proc
        boosted = if ticks % 100 == 0 && flag then map boost ps else ps

        boosted-InQueue : (b : Bool) → All (InQueue k) (if b then map boost ps else ps)
        boosted-InQueue true = All-map (InQueue k) boost (λ p v. boost-InQueue p) ps h
        boosted-InQueue false = h

        aged : List Proc
        aged = map (age k) boosted

        aged-InQueue : All (InQueue k) aged
        aged-InQueue =
            All-map (InQueue k) (age k) age-InQueue boosted
              (boosted-InQueue (ticks % 100 == 0 && flag))

  -- A process that is not asleep, has used up its quantum and is not in the last queue moves to the
  -- next queue with that queue's full quantum.
  pub age-next :
      (p : Proc)
      → is_sleeping p.state ≡ false
      → p.hold ≡ 0
      → p.level + 1 < k
      → ((age k p).level ≡ p.level + 1) × ((age k p).hold ≡ 2 * (p.level + 1) + 4)
  unfolding age
  age-next p awake used low = ground (arith, awake, used, low, time_quantum_lem (p.level + 1))

-- After a boost the topmost queue is the one that the scheduler serves, as soon as some process is
-- RUNNABLE: `boost` and then `age` of all processes put it in queue 0 with quantum left, and
-- `lowest` finds that queue.
pub boost-lowest :
    (k : ℕ) (ps : List Proc) (i : ℕ) (p : Proc)
    → 2 ≤ k
    → get_elem? ps i ≡ some p
    → is_runnable p.state ≡ true
    → lowest k (map (age k) (map boost ps)) ≡ 0
unfolding age boost
boost-lowest k ps i p two e r = omega (
  arith,
  lowest-least (map (age k) (map boost ps)) k i (age k (boost p))
      (get_elem?-map (age k) (map boost ps) i (get_elem?-map boost ps i e)) (boosted p r).0
      (boosted p r).1,
  boosted p r,
)
  where
    boosted :
        (p : Proc)
        → is_runnable p.state ≡ true
        → (is_runnable (age k (boost p)).state ≡ true)
          × (0 < (age k (boost p)).hold)
          × ((age k (boost p)).level ≡ 0)
    boosted p r = ground (arith, r)
