-- ===== src/Mlfq.antt =====
-- The multilevel feedback queue scheduler of xv6-public/proc.c, the build with MLFQ_SCHED. `k` is
-- MLFQ_K, from 2 to 5; the table is the list of its slots. `level` and `hold` are ints that the
-- kernel never makes negative (`hold` is decremented only where it is positive), so their
-- comparisons are those of ℕ; `priority` is compared as a signed word.
pub mod Choose
pub mod Quanta
pub mod Pass
mod Tests
use ele3021_spring.Common.{
  ℕ, suc, zero, ◌+◌, ◌-◌, ◌*◌, ◌%◌, Bool, true, false, ◌&&◌, not, ◌==◌, ltb, leb, slt,
  if◌then◌else◌, List, [], ◌∷◌, map, get_or, set, length, Option, none, some, get_elem?,
}
use ele3021_spring.Proc.{Proc, ProcState, running, is_sleeping, is_runnable}

-- `TIME_QUANTUM`
abbrev pub time_quantum : ℕ → ℕ
time_quantum level = get_or (4 ∷ 6 ∷ 8 ∷ 10 ∷ 12 ∷ []) level 0

unfoldable pub boost : Proc → Proc
boost p = record p { level = 0; hold = 4 }

-- A process that has used up its quantum goes down one queue; a sleeping one goes to the top.
unfoldable pub demote : ℕ → Proc → Proc
demote k p =
    if ltb p.level (k - 1) && leb p.hold 0
    then record p { level = p.level + 1; hold = time_quantum (p.level + 1) }
    else p

unfoldable pub promote : Proc → Proc
promote p = if is_sleeping p.state then record p { level = 0; hold = time_quantum 0 } else p

unfoldable pub age : ℕ → Proc → Proc
unfolding demote promote
age k p = promote (demote k p)

-- A process that may run in queue `level`.
unfoldable pub eligible : ℕ → Proc → Bool
eligible level p = is_runnable p.state && (p.level == level && ltb 0 p.hold)

-- The loop that finds the first queue with such a process; `now` is `now_level`.
unfoldable pub lower : ℕ → Proc → ℕ
lower now p = if is_runnable p.state && (ltb 0 p.hold && ltb p.level now) then p.level else now

unfoldable pub lowest : ℕ → List Proc → ℕ
unfolding lower
lowest now [] = now
lowest now (p ∷ ps) = lowest (lower now p) ps

-- The inner loop: `best` is the slot of `new_p` and `prio` its priority, `j` the slot of `temp_p`.
unfoldable pub pick : ℕ → List Proc → ℕ → ℕ → ℕ → ℕ
unfolding eligible
pick level [] j best prio = best
pick level (p ∷ ps) j best prio =
    let up = eligible level p && slt prio p.priority in
    pick level ps (suc j) (if up then j else best) (if up then p.priority else prio)

-- The quantum that a process loses for its turn.
unfoldable pub charge : Proc → Proc
charge p = if ltb 0 p.hold then record p { hold = p.hold - 1 } else p

abbrev pub modify : ℕ → (Proc → Proc) → List Proc → List Proc
modify i f [] = []
modify zero f (p ∷ ps) = f p ∷ ps
modify (suc i) f (p ∷ ps) = p ∷ modify i f ps

unfoldable pub start_running : Proc → Proc
start_running p = record p { state = running }

-- `run n ps` is the table when process `n`, switched to with the table `ps`, comes back through
-- `swtch`: what that process and the kernel on its behalf do meanwhile.
module _ (run : ℕ → List Proc → List Proc) where
  -- One turn: slot `n` runs and is charged.
  unfoldable pub turn : ℕ → List Proc → List Proc
  unfolding start_running charge
  turn n ps = modify n charge (run n (modify n start_running ps))

  -- The loop over the table from slot `i` on, with fuel: whether it came to the end of the table,
  -- and the table. After a turn the loop goes on behind the slot that had the turn.
  unfoldable pub pass : ℕ → ℕ → ℕ → List Proc → Bool × List Proc
  unfolding eligible pick turn
  pass zero level i ps = (false, ps)
  pass (suc fuel) level i ps = elim (get_elem? ps i) [
    | none ↦ (true, ps)
    | some p ↦ elim (eligible level p) [
      | false ↦ pass fuel level (suc i) ps
      | true ↦ let n = pick level ps 0 i p.priority in pass fuel level (suc n) (turn n ps)
    ]
  ]

  -- One iteration of the scheduler's endless loop at time `ticks`: the new `flag` and table.
  unfoldable pub schedule : ℕ → ℕ → ℕ → Bool × List Proc → Bool × List Proc
  unfolding boost age lowest pass
  schedule k fuel ticks (flag, ps) =
      let due = ticks % 100 == 0 in
      let ps1 = if due && flag then map boost ps else ps in
      let flag1 = if due && flag then false else flag in
      let flag2 = if not due then true else flag1 in
      let ps2 = map (age k) ps1 in
      let level = lowest k ps2 in
      if level == k then (flag2, map boost ps2) else (flag2, (pass fuel level 0 ps2).1)
