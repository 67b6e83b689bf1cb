-- ===== src/Proc/Family.antt =====
-- `fork`, `fork2`, `exit` and `wait` of xv6-public/proc.c. `exit` is modelled up to its call of
-- `sched`, from which it does not return, and `wait` for one round of its endless loop.
use ele3021_spring.Common.{
  ℕ, zero, suc, ◌+◌, Bool, false, ◌&&◌, ◌||◌, not, ◌==◌, if◌then◌else◌, List, [], ◌∷◌, Option, none,
  some, get_elem?, set, map, length, Outcome, done, panicked, faulted, ◌>>=◌, minus, leb,
}
use ele3021_spring.CString.{strcpy, safestrcpy, strlen}
use ele3021_spring.Mlfq.{modify}
use ele3021_spring.Proc.{Proc, is_zombie, unused, runnable, zombie}
use ele3021_spring.Proc.Signal.{wake}
use ele3021_spring.Proc.Life.{Kernel, World, change, slot, lock, unlock, allocproc, trapframe_size}

-- Where `eax` stands in `struct trapframe`.
abbrev pub frame_eax : ℕ
frame_eax = 28

-- `p->parent == curproc`
unfoldable pub is_child_of : ℕ → Proc → Bool
is_child_of cur p = elim p.parent [ none ↦ false | some i ↦ i == cur ]

-- The size of `userid`, the last field of `struct proc`: a longer `strcpy` leaves the slot.
abbrev pub userid_size : ℕ
userid_size = 16

-- What a child takes over from its parent, and what `fork` sets when all is copied.
unfoldable pub inherit : ℕ → ℕ → Proc → List ℕ → Proc → Proc
inherit pgdir cur c username q = record q {
  pgdir = pgdir;
  sz = c.sz;
  parent = some cur;
  mode = c.mode;
  limit = c.limit;
  userid = strcpy q.userid 0 username;
}

module _ {S : Type 0} (k : Kernel S) where
  -- The loop of `fork` over the open files of both processes.
  unfoldable pub dup_files : List (Option ℕ) → List (Option ℕ) → S → Outcome (List (Option ℕ) × S)
  dup_files (some f ∷ fs) (_ ∷ ns) s =
      k.filedup f s >>= λ s1. dup_files fs ns s1 >>= λ r. done (some f ∷ r.0, r.1)
  dup_files (none ∷ fs) (n ∷ ns) s = dup_files fs ns s >>= λ r. done (n ∷ r.0, r.1)
  dup_files [] ns s = done (ns, s)
  dup_files (f ∷ fs) [] s = done ([], s)

  unfoldable pub dup_cwd : Option ℕ → S → Outcome S
  dup_cwd none s = faulted
  dup_cwd (some d) s = k.idup d s

  -- `fork` from the copy of the page table on, for the child in slot `i` with the page table
  -- `pgdir`: what it returns.
  unfoldable pub fork_child : ℕ → ℕ → Proc → List ℕ → ℕ → World S → Outcome (ℕ × World S)
  unfolding inherit dup_files dup_cwd strlen
  fork_child i cur c username pgdir w =
      let w1 = change i (inherit pgdir cur c username) w in
      if leb userid_size (strlen username)
      then faulted
      else slot i w1 >>= λ np.
          dup_files c.ofile np.ofile
            (k.store (np.tf + frame_eax) 0 (k.copy np.tf c.tf trapframe_size w1.rest))
          >>= λ d. dup_cwd c.cwd d.1 >>= λ s.
              let w2 =
                change i
                  (λ q. record q { ofile = d.0; cwd = c.cwd; name = safestrcpy q.name 0 c.name 16 })
                  (record w1 { rest = s }) in
              lock w2 >>= λ w3.
              unlock (change i (λ q. record q { state = runnable }) w3) >>= λ w4. done (np.pid, w4)

  -- `fork` where there is no memory for the child.
  unfoldable pub fork_undo : ℕ → World S → Outcome (ℕ × World S)
  fork_undo i w = slot i w >>= λ np. k.kfree np.kstack w.rest >>= λ s. done (
    minus 1,
    change i (λ q. record q { pgdir = 0; kstack = 0; state = unused }) (record w { rest = s }),
  )

  -- `fork` and `fork2`, which differ in the user of the child only.
  unfoldable pub fork_as : ℕ → ℕ → ℕ → (Proc → List ℕ) → ℕ → World S → Outcome (ℕ × World S)
  unfolding fork_child fork_undo
  fork_as trapret forkret ticks username cur w = allocproc k trapret forkret ticks w >>= λ a.
      elim a.0 [
        | none ↦ done (minus 1, a.1)
        | some i ↦ slot cur a.1 >>= λ c. k.copyuvm c.pgdir c.sz a.1.rest >>= λ g.
            let w1 = record a.1 { rest = g.1 } in
            if g.0 == 0 then fork_undo i w1 else fork_child i cur c (username c) g.0 w1
      ]

  unfoldable pub fork : ℕ → ℕ → ℕ → ℕ → World S → Outcome (ℕ × World S)
  unfolding fork_as
  fork trapret forkret ticks cur w = fork_as trapret forkret ticks (λ c. c.userid) cur w

  unfoldable pub fork2 : ℕ → ℕ → ℕ → List ℕ → ℕ → World S → Outcome (ℕ × World S)
  unfolding fork_as
  fork2 trapret forkret ticks username cur w = fork_as trapret forkret ticks (λ c. username) cur w

  -- The loop of `exit` over the open files.
  unfoldable pub close_files : List (Option ℕ) → S → Outcome S
  close_files [] s = done s
  close_files (none ∷ fs) s = close_files fs s
  close_files (some f ∷ fs) s = k.fileclose f s >>= close_files fs

-- `wakeup1` of the channel `chan`, on the slots.
abbrev pub wake_all : ℕ → List Proc → List Proc
wake_all chan ps = map (wake chan) ps

-- One round of the loop of `exit` that passes children to init, for slot `i`; `chan` is the
-- address of init's slot.
unfoldable pub adopt_one : ℕ → ℕ → ℕ → ℕ → List Proc → List Proc
unfolding is_child_of
adopt_one cur init chan i ps = elim (get_elem? ps i) [
  | none ↦ ps
  | some p ↦
      if is_child_of cur p
      then (let qs = modify i (λ q. record q { parent = some init }) ps in
          if is_zombie p.state then wake_all chan qs else qs)
      else ps
]

-- That loop with `n` rounds left, from slot `i` on.
unfoldable pub adopt : ℕ → ℕ → ℕ → ℕ → ℕ → List Proc → List Proc
unfolding adopt_one
adopt cur init chan zero i ps = ps
adopt cur init chan (suc n) i ps = adopt cur init chan n (suc i) (adopt_one cur init chan i ps)

-- `address i` is the address of slot `i` of the table, which processes sleep on.
module _ (address : ℕ → ℕ) where
  -- The channel that a parent sleeps on; 0 for a null pointer.
  unfoldable pub parent_chan : Option ℕ → ℕ
  parent_chan none = 0
  parent_chan (some i) = address i

  -- `exit` of the process in slot `cur` after `acquire`, up to `sched`.
  unfoldable pub exit_table : ℕ → ℕ → Option ℕ → List Proc → List Proc
  unfolding adopt parent_chan
  exit_table cur init parent ps =
      let ps1 = wake_all (parent_chan parent) ps in
      modify cur (λ p. record p { state = zombie })
        (adopt cur init (address init) (length ps1) 0 ps1)

module _ {S : Type 0} (k : Kernel S) (address : ℕ → ℕ) where
  -- `initproc` is the slot of init; the table that `sched` finds.
  unfoldable pub exit : ℕ → ℕ → World S → Outcome (World S)
  unfolding close_files exit_table
  exit initproc cur w =
      if cur == initproc
      then panicked
      else (slot cur w >>= λ c. close_files k c.ofile w.rest >>= λ s1. k.begin_op s1 >>= λ s2.
          elim c.cwd [ none ↦ faulted | some d ↦ k.iput d s2 ] >>= λ s3. k.end_op s3 >>= λ s4.
          lock
            (record (change cur (λ p. record p { ofile = map (λ _. none) p.ofile; cwd = none }) w) {
              rest = s4;
            })
          >>= λ w1. done (record w1 {
            table = record w1.table {
              proc = exit_table address cur initproc c.parent w1.table.proc;
            };
          }))

-- The first ZOMBIE child from slot `i` on, and whether there is any child.
unfoldable pub zombie_child : ℕ → ℕ → List Proc → Option ℕ
unfolding is_child_of
zombie_child cur i [] = none
zombie_child cur i (p ∷ ps) =
    if is_child_of cur p && is_zombie p.state then some i else zombie_child cur (suc i) ps

unfoldable pub have_kids : ℕ → List Proc → Bool
unfolding is_child_of
have_kids cur [] = false
have_kids cur (p ∷ ps) = is_child_of cur p || have_kids cur ps

-- What one round of `wait` does: return a pid, return -1, or go to sleep with the lock held.
pub data Waiting : Type 0 where
  reaped : ℕ → Waiting
  no_child : Waiting
  asleep : Waiting

-- What `wait` does to the slot of a child that has exited.
unfoldable pub reap : Proc → Proc
reap p = record p {
  kstack = 0;
  pid = 0;
  parent = none;
  name = set p.name 0 0;
  killed = 0;
  state = unused;
}

module _ {S : Type 0} (k : Kernel S) where
  unfoldable pub wait : ℕ → World S → Outcome (Waiting × World S)
  unfolding zombie_child have_kids reap
  wait cur w = slot cur w >>= λ c. lock w >>= λ w1. elim (zombie_child cur 0 w1.table.proc) [
    | some i ↦ slot i w1 >>= λ p. k.kfree p.kstack w1.rest >>= λ s1. k.freevm p.pgdir s1 >>= λ s2.
        unlock (record (change i reap w1) { rest = s2 }) >>= λ w2. done (reaped p.pid, w2)
    | none ↦
        if not (have_kids cur w1.table.proc) || not (c.killed == 0)
        then (unlock w1 >>= λ w2. done (no_child, w2))
        else done (asleep, w1)
  ]
