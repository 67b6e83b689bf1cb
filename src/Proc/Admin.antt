-- ===== src/Proc/Admin.antt =====
-- `setpriority`, `getadmin`, `setmemorylimit`, `isalive` and `getlev` of xv6-public/proc.c. `cur`
-- is the slot of the running process. Messages to the console are left out.
pub mod Laws
use ele3021_spring.Common.{
  ℕ, Outcome, List, get_elem?, Bool, if◌then◌else◌, ◌∷◌, Option, some, ◌==◌, done, slt, [], none,
  false, faulted, ◌>>=◌, ◌||◌, ◌&&◌, minus, not, ltb, set,
}
use ele3021_spring.Proc.{Proc, Ptable, ExecMode, administrator, is_admin, is_unused}
use mathlib.Core.Option
use ele3021_spring.Proc.Lock.{acquire, release}
use ele3021_spring.CString.{strcmp}

abbrev pub min_priority : ℕ
min_priority = 0

abbrev pub max_priority : ℕ
max_priority = 10

-- `myproc()->level`
unfoldable pub getlev : ℕ → Ptable → Outcome ℕ
getlev cur t = elim (get_elem? t.proc cur) [ some p ↦ done p.level | none ↦ faulted ]

-- `p->parent->pid`: a null `parent` is followed.
unfoldable pub parent_pid : List Proc → Proc → Outcome ℕ
parent_pid table p = elim p.parent [
  | none ↦ faulted
  | some i ↦ elim (get_elem? table i) [ none ↦ faulted | some q ↦ done q.pid ]
]

-- `p->pid == pid && p->parent->pid == parent->pid`
unfoldable pub is_child : List Proc → ℕ → ℕ → Proc → Outcome Bool
unfolding parent_pid
is_child table me pid p =
    if p.pid == pid then (parent_pid table p >>= λ q. done (q == me)) else done false

-- The loop of `setpriority`: the slots after it, and `flag`.
unfoldable pub set_priorities : List Proc → ℕ → ℕ → ℕ → List Proc → Outcome (List Proc × Bool)
unfolding is_child
set_priorities table me pid priority [] = done ([], false)
set_priorities table me pid priority (p ∷ ps) = is_child table me pid p >>= λ b.
    set_priorities table me pid priority ps >>= λ r.
    done ((if b then record p { priority = priority } else p) ∷ r.0, b || r.1)

unfoldable pub bad_priority : ℕ → Bool
bad_priority priority = slt priority min_priority || slt max_priority priority

-- From `acquire` to `release`, for the caller's pid `me`.
unfoldable pub setpriority_locked : ℕ → ℕ → ℕ → Ptable → Outcome (ℕ × Ptable)
unfolding set_priorities
setpriority_locked me pid priority t =
    if bad_priority priority
    then done (minus 2, t)
    else (set_priorities t.proc me pid priority t.proc >>= λ r.
        done (if r.1 then 0 else minus 1, record t { proc = r.0 }))

unfoldable pub setpriority : ℕ → ℕ → ℕ → Ptable → Outcome (ℕ × Ptable)
unfolding setpriority_locked acquire release
setpriority cur pid priority t = elim (get_elem? t.proc cur) [
  | none ↦ faulted
  | some c ↦ do
    t1 ← acquire t
    r ← setpriority_locked c.pid pid priority t1
    t2 ← release r.1
    done (r.0, t2)
]

-- "2016024875"
abbrev pub correct : List ℕ
correct = b'2' ∷ b'0' ∷ b'1' ∷ b'6' ∷ b'0' ∷ b'2' ∷ b'4' ∷ b'8' ∷ b'7' ∷ b'5' ∷ []

unfoldable pub getadmin : ℕ → List ℕ → Ptable → Outcome (ℕ × Ptable)
unfolding acquire release strcmp
getadmin cur password t = acquire t >>= λ t1.
    if strcmp password correct == 0
    then elim (get_elem? t1.proc cur) [
      | none ↦ faulted
      | some p ↦
          release (record t1 { proc = set t1.proc cur (record p { mode = administrator }) })
          >>= λ t2. done (0, t2)
    ]
    else (release t1 >>= λ t2. done (minus 1, t2))

-- The loop of `setmemorylimit`: `none` when no live slot has the pid, else the return value and
-- the slots.
unfoldable pub set_limit : ℕ → ℕ → List Proc → Option (ℕ × List Proc)
set_limit pid limit [] = none
set_limit pid limit (p ∷ ps) =
    if p.pid == pid && not (is_unused p.state)
    then (if ltb limit p.sz && not (limit == 0)
        then some (minus 1, p ∷ ps)
        else some (0, record p { limit = limit } ∷ ps))
    else Option.map (λ r. (r.0, p ∷ r.1)) (set_limit pid limit ps)

-- The first test of `setmemorylimit`, for the calling process.
unfoldable pub limit_denied : ℕ → Proc → Bool
limit_denied limit c = slt limit 0 || not (is_admin c.mode)

-- The lock is taken once the process was found, and only then.
unfoldable pub setmemorylimit : ℕ → ℕ → ℕ → Ptable → Outcome (ℕ × Ptable)
unfolding set_limit acquire release
setmemorylimit cur pid limit t = elim (get_elem? t.proc cur) [
  | none ↦ faulted
  | some c ↦ if limit_denied limit c then done (minus 1, t) else elim (set_limit pid limit t.proc) [
    | none ↦ done (minus 1, t)
    | some r ↦ do t1 ← acquire t; t2 ← release (record t1 { proc = r.1 }); done (r.0, t2)
  ]
]

-- The loop of `isalive`.
unfoldable pub any_alive : ℕ → List Proc → Bool
any_alive pid [] = false
any_alive pid (p ∷ ps) = (p.killed == 0 && p.pid == pid) || any_alive pid ps

-- A process that is found is reported before the `release`.
unfoldable pub isalive : ℕ → Ptable → Outcome (ℕ × Ptable)
unfolding any_alive acquire release
isalive pid t = acquire t >>= λ t1.
    if any_alive pid t1.proc then done (1, t1) else (release t1 >>= λ t2. done (0, t2))
