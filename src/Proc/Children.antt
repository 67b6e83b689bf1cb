-- ===== src/Proc/Children.antt =====
-- What `fork` and `fork2` of xv6-public/proc.c do to the process table when the calls below them
-- return.
use ele3021_spring.Common.{
  ℕ, ◌≡◌, ◌≢◌, ◌+◌, refl, ◌∙◌, ap, List, Option, none, some, get_elem?, false, done, ◌>>=◌, Outcome,
  ◌⊎◌, true, minus, Bool, ◌==◌, if◌then◌else◌, ◌<◌, sym, word, inr, inl, Bool-cases, ==→eq, ==→ne,
}
use ele3021_spring.Mlfq.{modify}
use ele3021_spring.CString.{strcpy, strlen}
use ele3021_spring.Proc.{Proc, runnable, is_unused, unused}
use ele3021_spring.Proc.Slots.{
  get_elem?-modify, IsUsed, get_elem?-modify_ne, modify-Carries, modify-Carries_at,
}
use ele3021_spring.Proc.Life.{Kernel, World, allocproc, trapframe_size}
use ele3021_spring.Proc.Family.{
  inherit, fork_child, fork_undo, fork_as, userid_size, dup_files, frame_eax,
}
use ele3021_spring.Proc.Pids.{UniquePids, Carries-UniquePids}
use ele3021_spring.Proc.Forking.{Bears, Barren, used_ne, allocproc-Makes, CanFork}
use ele3021_spring.Proc.Copying.{made, made-pid, fork_child-done}

-- What a child has from its parent `c` in slot `cur`, and its pid.
pub record IsChild (cur : ℕ) (c : Proc) (username : List ℕ) (pid : ℕ) (q : Proc) : Type 0 where
  pub parent : q.parent ≡ some cur
  pub state : q.state ≡ runnable
  pub pid_new : q.pid ≡ pid
  pub sz : q.sz ≡ c.sz
  pub mode : q.mode ≡ c.mode
  pub limit : q.limit ≡ c.limit
  pub cwd : q.cwd ≡ c.cwd
  pub userid : (m : List ℕ) × (q.userid ≡ strcpy m 0 username)

made-IsChild :
    (pgdir cur : ℕ) (c : Proc) (username : List ℕ) (files : List (Option ℕ)) (pid : ℕ) (q : Proc)
    → q.pid ≡ pid
    → IsChild cur c username pid (made pgdir cur c username files q)
unfolding inherit
made-IsChild pgdir cur c username files pid q e = record {
  parent = refl;
  state = refl;
  pid_new = e;
  sz = refl;
  mode = refl;
  limit = refl;
  cwd = refl;
  userid = (q.userid, refl);
}

-- A new child in slot `i`, which was free; all other slots are as they were, and pids are unique.
pub record Forked {S : Type 0} (cur : ℕ) (c : Proc) (username : List ℕ) (w w' : World S)
    : Type 0 where
  pub place : ℕ
  pub child : Proc
  pub here : get_elem? w'.table.proc place ≡ some child
  pub is_child : IsChild cur c username w.table.nextpid child
  pub was_free : (p : Proc) × (get_elem? w.table.proc place ≡ some p) × (is_unused p.state ≡ true)
  pub others : (j : ℕ) → place ≢ j → get_elem? w'.table.proc j ≡ get_elem? w.table.proc j
  pub unique : UniquePids w'.table
  pub free : w'.table.locked ≡ false

-- What `fork` returns, with the world after it.
abbrev pub Forks : {S : Type 0} → ℕ → Proc → List ℕ → World S → Outcome (ℕ × World S) → Type 0
Forks {S} cur c username w o =
    (r : ℕ) × (w' : World S) × (o ≡ done (r, w'))
    × (((r ≡ w.table.nextpid) × Forked cur c username w w') ⊎ ((r ≡ minus 1) × Barren w w'))

with_pid :
    {S : Type 0}
    → (o : Outcome (ℕ × World S)) (w : World S) (p q : ℕ) → p ≡ q
    → o ≡ done (p, w)
    → o ≡ done (q, w)
with_pid o w p q e h = h ∙ ap (λ r. done (r, w)) e

module _ {S : Type 0} (k : Kernel S) where
  undone :
      (w w1 : World S) (i : ℕ) (np : Proc) (s : S)
      → Bears w w1 i np
      → Barren w (record {
        table = record w1.table {
          proc = modify i (λ q. record q { pgdir = 0; kstack = 0; state = unused }) w1.table.proc;
        };
        rest = s;
      })
  undone w w1 i np s b = record {
    unique = Carries-UniquePids w1.table _ b.unique refl (
        modify-Carries i (λ q. record q { pgdir = 0; kstack = 0; state = unused }) w1.table.proc
          (λ p x. cc));
    free = b.free;
    others = λ j p e used.
        let ne = used_ne w.table.proc i j b.was_free.0 p b.was_free.1 b.was_free.2 e used in
        get_elem?-modify_ne i j (λ q. record q { pgdir = 0; kstack = 0; state = unused })
          w1.table.proc ne
        ∙ b.others j ne
        ∙ e;
  }

  forked :
      (w w1 : World S) (i cur pgdir : ℕ) (np c : Proc) (username : List ℕ) (files : List (Option ℕ))
      (s : S)
      → Bears w w1 i np
      → Forked cur c username w (record {
        table = record w1.table { proc = modify i (made pgdir cur c username files) w1.table.proc };
        rest = s;
      })
  forked w w1 i cur pgdir np c username files s b = record {
    place = i;
    child = made pgdir cur c username files np;
    here = get_elem?-modify i (made pgdir cur c username files) w1.table.proc b.here;
    is_child = made-IsChild pgdir cur c username files w.table.nextpid np b.pid;
    was_free = b.was_free;
    others = λ j ne.
        get_elem?-modify_ne i j (made pgdir cur c username files) w1.table.proc ne ∙ b.others j ne;
    unique = Carries-UniquePids w1.table _ b.unique refl (
        modify-Carries_at i (made pgdir cur c username files) w1.table.proc np b.here b.used
          (sym (made-pid pgdir cur c username files np)));
    free = b.free;
  }

  undo-done :
      (i : ℕ) (w : World S) (np : Proc)
      → get_elem? w.table.proc i ≡ some np
      → (s : S) → k.kfree np.kstack w.rest ≡ done s
      → (fork_undo k i w
          ≡ done (
            minus 1,
            record {
              table = record w.table {
                proc =
                    modify i (λ q. record q { pgdir = 0; kstack = 0; state = unused }) w.table.proc;
              };
              rest = s;
            },
          ))
  unfolding fork_undo
  undo-done i w np here s f = rw (fork_undo, here, ◌>>=◌, f) refl

  module _ (trapret forkret ticks : ℕ) (username : Proc → List ℕ) (cur : ℕ) (w : World S) (c : Proc)
      (at_cur : get_elem? w.table.proc cur ≡ some c) where
    fork_none :
        (w' : World S)
        → allocproc k trapret forkret ticks w ≡ done (none, w')
        → fork_as k trapret forkret ticks username cur w ≡ done (minus 1, w')
    unfolding fork_as
    fork_none w' a = rw (fork_as, a, ◌>>=◌) refl

    fork_some :
        (i g : ℕ) (w' : World S) (s : S) (b : Bool)
        → allocproc k trapret forkret ticks w ≡ done (some i, w')
        → get_elem? w'.table.proc cur ≡ some c
        → k.copyuvm c.pgdir c.sz w'.rest ≡ done (g, s)
        → (g == 0) ≡ b
        → fork_as k trapret forkret ticks username cur w ≡ (
            if b
            then fork_undo k i (record w' { rest = s })
            else fork_child k i cur c (username c) g (record w' { rest = s }))
    unfolding fork_as
    fork_some i g w' s b a e m z = rw (fork_as, a, ◌>>=◌, e, m, z) refl

    -- `fork` or `fork2` by a process in use, where its calls below the table return and the name of the
    -- user has at most 15 bytes, with the lock free, pids unique and `nextpid` below the largest word, returns
    -- with the lock free and pids unique: either the pid of a new RUNNABLE child in a slot that was
    -- free, with the size, limit, mode and directory of its parent and the given user, and all other
    -- slots as they were; or -1, with every process in use as it was.
    pub fork_as-Forks :
        (can : CanFork k trapret forkret c w.rest)
        → IsUsed c
        → strlen (username c) < userid_size
        → w.table.locked ≡ false
        → UniquePids w.table
        → w.table.nextpid + 1 < word
        → Forks cur c (username c) w (fork_as k trapret forkret ticks username cur w)
    fork_as-Forks can used short free u small =
        elim (allocproc-Makes k trapret forkret ticks c w can free u small) [
          | inr n ↦ (minus 1, n.0, fork_none n.0 n.1, inr (refl, n.2))
          | inl a ↦
              let w1 = a.2 in
              let b = a.4 in
              let still =
                b.others cur (
                  used_ne w.table.proc a.0 cur b.was_free.0 c b.was_free.1 b.was_free.2 at_cur used)
                ∙ at_cur in
              let g = can.pgdir in
              let copied : k.copyuvm c.pgdir c.sz w1.rest ≡ done (g, can.s2) =
                ap (k.copyuvm c.pgdir c.sz) a.8 ∙ can.copies a.5 in
              let w2 : World S = record w1 { rest = can.s2 } in
              elim (Bool-cases (g == 0)) [
                | inl z ↦
                    let f = can.kfrees (==→eq g 0 z) in
                    let undo =
                      undo-done a.0 w2 a.1 b.here f.0 (ap (λ v. k.kfree v can.s2) a.6 ∙ f.1) in
                    (
                      minus 1,
                      _,
                      fork_some a.0 g w1 can.s2 true a.3 still copied z ∙ undo,
                      inr (refl, undone w w1 a.0 a.1 f.0 b),
                    )
                | inr z ↦
                    let d = can.dups (==→ne g 0 z) a.1.ofile in
                    let dups =
                      ap
                        (λ tf.
                          dup_files k c.ofile a.1.ofile
                            (k.store (tf + frame_eax) 0 (k.copy tf c.tf trapframe_size can.s2)))
                        a.7
                      ∙ d.3 in
                    let f =
                      fork_child-done k a.0 cur c (username c) g w2 a.1 b.here b.free short d.0 d.1
                        d.2 dups d.4 in
                    (
                      w.table.nextpid,
                      _,
                      with_pid _ _ _ _ b.pid
                          (fork_some a.0 g w1 can.s2 false a.3 still copied z ∙ f),
                      inl (refl, forked w w1 a.0 cur g a.1 c (username c) d.0 d.2 b),
                    )
              ]
        ]
