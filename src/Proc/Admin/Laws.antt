-- ===== src/Proc/Admin/Laws.antt =====
-- What the administrative calls of xv6-public/proc.c allow, and what they keep.
use ele3021_spring.Common.{
  ℕ, ◌≡◌, List, get_elem?, ◌⊎◌, All, false, some, ◌≤◌, ◌∷◌, done, true, none, Bool-cases, minus,
  panicked, faulted, ◌==◌, arith, refl, suc, ◌&&◌, [], not, zero, inl, inr, ltb, Bool, some_inj,
  subst, ==_refl, Option-cases, ◌>>=◌, Outcome, ap,
}
use ele3021_spring.Proc.{Proc, Ptable, is_admin, is_unused}
use ele3021_spring.Proc.Lock.{acquire, release}
use ele3021_spring.Proc.Admin.{
  max_priority, parent_pid, is_child, set_priorities, setpriority_locked, setpriority, set_limit,
  setmemorylimit, any_alive, isalive, limit_denied, bad_priority,
}

-- The memory of a process lies within its limit, where it has one.
abbrev pub WithinLimit : Proc → Type 0
WithinLimit p = (p.limit ≡ 0) ⊎ (p.sz ≤ p.limit)

abbrev Fits : ℕ × List Proc → Type 0
Fits r = All WithinLimit r.1

allowed :
    (limit : ℕ) (p : Proc)
    → (ltb limit p.sz && not (limit == 0)) ≡ false
    → WithinLimit (record p { limit = limit })
allowed limit p e = ground arith

-- What `set_limit` returns, if anything, keeps every process within its limit.
set_limit-WithinLimit :
    (pid limit : ℕ) (ps : List Proc) (r : ℕ) (qs : List Proc)
    → All WithinLimit ps
    → set_limit pid limit ps ≡ some (r, qs)
    → All WithinLimit qs
unfolding set_limit
set_limit-WithinLimit pid limit [] r qs h e = cc
set_limit-WithinLimit pid limit (p ∷ ps) r qs h e =
    elim (Bool-cases (p.pid == pid && not (is_unused p.state))) [
      | inl found ↦ elim (Bool-cases (ltb limit p.sz && not (limit == 0))) [
        | inl deny ↦ subst Fits (some_inj _ _ (rw (found, deny) at e)) h
        | inr allow ↦
            subst Fits (some_inj _ _ (rw (found, allow) at e)) (allowed limit p allow, h.1)
      ]
      | inr other ↦ elim (Option-cases (set_limit pid limit ps)) [
        | inl none_ ↦ cc (rw (other, none_) at e)
        | inr (x, later) ↦
            subst Fits (some_inj _ _ (rw (other, later) at e))
              (h.0, set_limit-WithinLimit pid limit ps x.0 x.1 h.1 later)
      ]
    ]

-- `setmemorylimit`, whenever it returns, leaves every process within its limit and the lock free.
pub setmemorylimit-WithinLimit :
    (cur pid limit : ℕ) (t : Ptable) (c : Proc)
    → t.locked ≡ false
    → get_elem? t.proc cur ≡ some c
    → All WithinLimit t.proc
    → (r : ℕ) × (t' : Ptable) × (setmemorylimit cur pid limit t ≡ done (r, t'))
      × All WithinLimit t'.proc
      × (t'.locked ≡ false)
unfolding setmemorylimit acquire release
setmemorylimit-WithinLimit cur pid limit t c free here h =
    elim (Bool-cases (limit_denied limit c)) [
      | inl deny ↦ (minus 1, t, rw (setmemorylimit, here, deny), h, free)
      | inr allow ↦ elim (Option-cases (set_limit pid limit t.proc)) [
        | inl none_ ↦ (minus 1, t, rw (setmemorylimit, here, allow, none_), h, free)
        | inr (x, found) ↦ (
          x.0,
          record t { locked = false; proc = x.1 },
          rw (setmemorylimit, here, allow, found, acquire, free, release, ◌>>=◌),
          set_limit-WithinLimit pid limit t.proc x.0 x.1 h found,
          refl,
        )
      ]
    ]

-- A process may be refused: the caller is no administrator.
pub setmemorylimit-refused :
    (cur pid limit : ℕ) (t : Ptable) (c : Proc)
    → get_elem? t.proc cur ≡ some c
    → is_admin c.mode ≡ false
    → setmemorylimit cur pid limit t ≡ done (minus 1, t)
unfolding setmemorylimit limit_denied
setmemorylimit-refused cur pid limit t c here no_ = ground (arith, here, no_)

-- `isalive` of the pid of a live process returns 1 with `ptable.lock` still held, so the next
-- `acquire` of the lock, by any call on the process table, panics.
pub isalive-keeps_lock :
    (pid : ℕ) (t : Ptable)
    → t.locked ≡ false
    → any_alive pid t.proc ≡ true
    → (t' : Ptable) × (isalive pid t ≡ done (1, t')) × (t'.locked ≡ true) × (acquire t' ≡ panicked)
unfolding isalive acquire
isalive-keeps_lock pid t free alive = (record t { locked = true }, rw (free, alive), refl, refl)

is_child-cases :
    (table : List Proc) (me pid : ℕ) (p : Proc)
    → (is_child table me pid p ≡ faulted) ⊎ ((b : Bool) × (is_child table me pid p ≡ done b))
unfolding is_child parent_pid
is_child-cases table me pid p = elim (Bool-cases (p.pid == pid)) [
  | inl same ↦ elim (Option-cases p.parent) [
    | inl root ↦ inl (rw (is_child, same, parent_pid, root, ◌>>=◌))
    | inr (i, e) ↦ elim (Option-cases (get_elem? table i)) [
      | inl out ↦ inl (rw (is_child, same, parent_pid, e, out, ◌>>=◌))
      | inr (q, at) ↦ inr (q.pid == me, rw (is_child, same, parent_pid, e, at, ◌>>=◌))
    ]
  ]
  | inr other ↦ inr (false, rw (is_child, other))
]

-- A slot with the pid, whose parent pointer is null, makes the scan fault.
set_priorities-orphan :
    (table : List Proc) (me pid priority : ℕ) (ps : List Proc) (i : ℕ) (p : Proc)
    → get_elem? ps i ≡ some p
    → p.pid ≡ pid
    → p.parent ≡ none
    → (set_priorities table me pid priority ps ≡ faulted)
unfolding set_priorities is_child parent_pid
set_priorities-orphan table me pid priority [] i p e s o = cc
set_priorities-orphan table me pid priority (q ∷ ps) zero p e s o =
    let same : q ≡ p = some_inj q p e in
    rw (set_priorities, same, is_child, s, ==_refl pid, parent_pid, o, ◌>>=◌)
set_priorities-orphan table me pid priority (q ∷ ps) (suc i) p e s o =
    elim (is_child-cases table me pid q) [
      | inl bad ↦ rw (set_priorities, bad, ◌>>=◌)
      | inr (b, fine) ↦
          rw (set_priorities, fine, set_priorities-orphan table me pid priority ps i p e s o, ◌>>=◌)
    ]

priority-ok : (priority : ℕ) → priority ≤ max_priority → bad_priority priority ≡ false
unfolding bad_priority
priority-ok priority h = ground arith

-- `setpriority` with a priority from 0 to 10 and the lock free follows a null pointer as soon as
-- some slot of the table has the given pid and a null parent, as init has, and as every slot has
-- that was never used, if the pid is 0.
pub setpriority-orphan :
    (cur pid priority : ℕ) (t : Ptable) (c : Proc) (i : ℕ) (p : Proc)
    → t.locked ≡ false
    → get_elem? t.proc cur ≡ some c
    → priority ≤ max_priority
    → get_elem? t.proc i ≡ some p
    → p.pid ≡ pid
    → p.parent ≡ none
    → setpriority cur pid priority t ≡ faulted
unfolding setpriority
setpriority-orphan cur pid priority t c i p free here small e s o =
    rw (setpriority, here, acquire, free, ◌>>=◌) (ap returned (orphan c.pid))
  where
    orphan : (me : ℕ) → setpriority_locked me pid priority (record t { locked = true }) ≡ faulted
    orphan me = rw (
      setpriority_locked,
      priority-ok priority small,
      set_priorities-orphan t.proc me pid priority t.proc i p e s o,
      ◌>>=◌,
    )

    returned : Outcome (ℕ × Ptable) → Outcome (ℕ × Ptable)
    returned m = m >>= λ r. release r.1 >>= λ t2. done (r.0, t2)
