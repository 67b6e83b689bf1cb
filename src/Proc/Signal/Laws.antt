-- ===== src/Proc/Signal/Laws.antt =====
-- What `wakeup` and `kill` of xv6-public/proc.c do to the process table.
use ele3021_spring.Common.{
  ℕ, ◌≡◌, List, false, some, none, done, get_elem?, map, set, ◌≢◌, ◌>>=◌, ◌∷◌, Bool-cases, ◌==◌,
  inl, ==→eq, inr, sym, Option-cases, some_inj, [], suc, ◌∙◌, ap, refl, subst, ◌⊎◌, minus, arith,
  zero, if◌then◌else◌,
}
use ele3021_spring.Proc.{Proc, Ptable, is_sleeping, runnable}
use ele3021_spring.Proc.Lock.{acquire, release}
use ele3021_spring.Proc.Signal.{wake, wakeup1, wakeup, kill_one, kill_scan, kill}

-- `wakeup` with the lock free returns with the lock free, the same pid counter and as many slots;
-- in each slot a process asleep on the channel becomes RUNNABLE and is otherwise as it was, and
-- any other process is as it was.
pub wakeup_lem :
    (chan : ℕ) (t : Ptable)
    → t.locked ≡ false
    → wakeup chan t ≡ done (record t { proc = map (wake chan) t.proc })
unfolding wakeup wakeup1 acquire release
wakeup_lem chan t free = rw (free, ◌>>=◌)

-- A slot in the table of a scan that found the pid.
kill_scan-slot :
    (pid : ℕ) (ps qs : List Proc)
    → kill_scan pid ps ≡ some qs
    → (i : ℕ) × (p : Proc) × (get_elem? ps i ≡ some p)
      × (p.pid ≡ pid)
      × (qs ≡ set ps i (kill_one p))
unfolding kill_scan
kill_scan-slot pid [] qs h = cc
kill_scan-slot pid (p ∷ ps) qs h = elim (Bool-cases (p.pid == pid)) [
  | inl e ↦ (0, p, refl, ==→eq p.pid pid e, sym (some_inj _ _ (rw e at h)))
  | inr e ↦ elim (Option-cases (kill_scan pid ps)) [
    | inl none_ ↦ cc (rw (e, none_) at h)
    | inr (rs, found) ↦
        let (i, q, a, b, c) = kill_scan-slot pid ps rs found in
        (suc i, q, a, b, sym (some_inj _ _ (rw (e, found) at h)) ∙ ap (λ (l : List Proc). p ∷ l) c)
  ]
]

-- A scan that found nothing: no slot has the pid.
kill_scan-none :
    (pid : ℕ) (ps : List Proc) (i : ℕ) (p : Proc)
    → kill_scan pid ps ≡ none
    → get_elem? ps i ≡ some p
    → p.pid ≢ pid
unfolding kill_scan
kill_scan-none pid [] i p h e = cc
kill_scan-none pid (q ∷ ps) zero p h e =
    subst (λ (x : Proc). x.pid ≢ pid) (some_inj q p e) (ground (arith, h))
kill_scan-none pid (q ∷ ps) (suc i) p h e = kill_scan-none pid ps i p (ground (arith, h)) e

-- What `kill` must do: mark one process of that pid, waking it if it sleeps, and return 0; or, if
-- no slot has the pid, return -1 and change nothing.
abbrev pub Kills : ℕ → Ptable → Type 0
Kills pid t =
    ((i : ℕ) × (p : Proc) × (get_elem? t.proc i ≡ some p)
      × (p.pid ≡ pid)
      × (kill pid t
          ≡ done (
            0,
            record t {
              proc = set t.proc i (record p {
                killed = 1;
                state = if is_sleeping p.state then runnable else p.state;
              });
            },
          )))
    ⊎ (((i : ℕ) (p : Proc) → get_elem? t.proc i ≡ some p → p.pid ≢ pid)
        × (kill pid t ≡ done (minus 1, t)))

kill_found :
    (pid : ℕ) (t : Ptable) (qs : List Proc)
    → t.locked ≡ false
    → kill_scan pid t.proc ≡ some qs
    → kill pid t ≡ done (0, record t { proc = qs })
unfolding kill acquire release
kill_found pid t qs free e = rw (free, e, ◌>>=◌)

kill_missing :
    (pid : ℕ) (t : Ptable)
    → t.locked ≡ false
    → kill_scan pid t.proc ≡ none
    → kill pid t ≡ done (minus 1, t)
unfolding kill acquire release
kill_missing pid t free e = rw (free, e, ◌>>=◌)

-- `kill` with the lock free returns with the lock free again; it marks as killed exactly one
-- process of the given pid, makes it RUNNABLE if it was asleep, changes nothing else and returns
-- 0, or, if no slot of the table has that pid, returns -1 and changes nothing.
pub kill-Kills : (pid : ℕ) (t : Ptable) → t.locked ≡ false → Kills pid t
unfolding kill_one
kill-Kills pid t free = elim (Option-cases (kill_scan pid t.proc)) [
  | inl e ↦ inr (λ i p. kill_scan-none pid t.proc i p e, kill_missing pid t free e)
  | inr (qs, e) ↦
      let (i, p, there, same, result) = kill_scan-slot pid t.proc qs e in
      inl (
        i,
        p,
        there,
        same,
        kill_found pid t qs free e ∙ (λ j. done (0, record t { proc = result j })),
      )
]
