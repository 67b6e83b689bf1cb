-- ===== src/Proc/Forking.antt =====
-- What `allocproc`, `fork` and `fork2` of xv6-public/proc.c do to the process table when the calls
-- below them return.
use ele3021_spring.Proc.Family.{dup_files, frame_eax, dup_cwd}
use ele3021_spring.Common.{
  ℕ, ◌≡◌, ◌≢◌, refl, sym, ◌∙◌, ap, List, none, some, some_inj, get_elem?, false, true, done, ◌>>=◌,
  ◌==◌, ◌⊎◌, ◌+◌, ◌<◌, word, inr, inl, Bool-cases, Option, ==→ne,
}
use ele3021_spring.Mlfq.{modify}
use ele3021_spring.Proc.{Proc, is_unused, unused, Ptable}
use ele3021_spring.Proc.Slots.{
  get_elem?-modify, get_elem?-modify_ne, modify-Carries_at, modify-Carries, IsUsed,
}
use ele3021_spring.Proc.Life.{
  Kernel, World, born, alloc_slot, allocproc, set_stack, frame_at, context_at, trapframe_size,
}
use ele3021_spring.Proc.Pids.{
  UniquePids, Carries-UniquePids, with_born, with_born-UniquePids, alloc_slot-AllocsSlot, born-pid,
}

-- What `fork` by the process `c` calls below the process table from the state `s` on, where these
-- calls return: `stack` is what `kalloc` gives and `pgdir` what `copyuvm` gives, 0 for no memory.
pub record CanFork {S : Type 0} (k : Kernel S) (trapret forkret : ℕ) (c : Proc) (s : S)
    : Type 0 where
  pub stack : ℕ
  pub s1 : S
  pub kallocs : k.kalloc s ≡ done (stack, s1)
  pub pgdir : ℕ
  pub s2 : S
  pub copies :
      stack ≢ 0 → k.copyuvm c.pgdir c.sz (set_stack k trapret forkret stack s1) ≡ done (pgdir, s2)
  pub kfrees : pgdir ≡ 0 → (s3 : S) × (k.kfree stack s2 ≡ done s3)
  pub dups :
      pgdir ≢ 0
      → (ns : List (Option ℕ))
      → (d : List (Option ℕ)) × (s3 s4 : S) × (dup_files k c.ofile ns (
            k.store (frame_at stack + frame_eax) 0 (k.copy (frame_at stack) c.tf trapframe_size s2))
          ≡ done (d, s3))
        × (dup_cwd k c.cwd s3 ≡ done s4)

-- What a birth in slot `i` leaves: pids stay unique, the slot was free and has the next pid, and
-- all other slots are as they were.
pub record Bears {S : Type 0} (w w' : World S) (i : ℕ) (np : Proc) : Type 0 where
  pub unique : UniquePids w'.table
  pub free : w'.table.locked ≡ false
  pub here : get_elem? w'.table.proc i ≡ some np
  pub pid : np.pid ≡ w.table.nextpid
  pub used : IsUsed np
  pub was_free : (p : Proc) × (get_elem? w.table.proc i ≡ some p) × (is_unused p.state ≡ true)
  pub others : (j : ℕ) → i ≢ j → get_elem? w'.table.proc j ≡ get_elem? w.table.proc j

-- Where no process is made: pids stay unique, and all slots in use are as they were.
pub record Barren {S : Type 0} (w w' : World S) : Type 0 where
  pub unique : UniquePids w'.table
  pub free : w'.table.locked ≡ false
  pub others :
      (j : ℕ) (p : Proc)
      → get_elem? w.table.proc j ≡ some p
      → IsUsed p
      → get_elem? w'.table.proc j ≡ some p

born-IsUsed : (ticks pid : ℕ) (p : Proc) → IsUsed (born ticks pid p)
unfolding born
born-IsUsed ticks pid p = refl

-- A used slot is not the free one.
pub used_ne :
    (ps : List Proc) (i j : ℕ) (p q : Proc)
    → get_elem? ps i ≡ some p
    → is_unused p.state ≡ true
    → get_elem? ps j ≡ some q
    → IsUsed q
    → i ≢ j
used_ne ps i j p q e u f v same = true_ne_false (
    sym u
    ∙ ap (λ (x : Proc). is_unused x.state) (some_inj _ _ (sym e ∙ ap (get_elem? ps) same ∙ f))
    ∙ v)
  where
    true_ne_false : true ≢ false
    true_ne_false h = cc

module _ {S : Type 0} (k : Kernel S) (trapret forkret ticks : ℕ) where
  -- `allocproc` with memory for the kernel stack.
  alloc_some :
      (w : World S) (i v : ℕ) (s : S)
      → alloc_slot ticks w.table ≡ done (some i, with_born ticks i w.table)
      → k.kalloc w.rest ≡ done (v, s)
      → (v == 0) ≡ false
      → allocproc k trapret forkret ticks w
        ≡ done (
          some i,
          record {
            table = record (with_born ticks i w.table) {
              proc =
                  modify i
                    (λ p. record p { kstack = v; tf = frame_at v; context = context_at v })
                    (with_born ticks i w.table).proc;
            };
            rest = set_stack k trapret forkret v s;
          },
        )
  unfolding allocproc
  alloc_some w i v s a m z = rw (allocproc, a, ◌>>=◌, m, z) refl

  alloc_undone :
      (w : World S) (i v : ℕ) (s : S)
      → alloc_slot ticks w.table ≡ done (some i, with_born ticks i w.table)
      → k.kalloc w.rest ≡ done (v, s)
      → (v == 0) ≡ true
      → allocproc k trapret forkret ticks w
        ≡ done (
          none,
          record {
            table = record (with_born ticks i w.table) {
              proc =
                  modify i
                    (λ p. record p { kstack = v; state = unused })
                    (with_born ticks i w.table).proc;
            };
            rest = s;
          },
        )
  unfolding allocproc
  alloc_undone w i v s a m z = rw (allocproc, a, ◌>>=◌, m, z) refl

  abbrev pub Makes : (c : Proc) (w : World S) → CanFork k trapret forkret c w.rest → Type 0
  Makes c w can =
      ((i : ℕ) × (np : Proc) × (w' : World S) × (allocproc k trapret forkret ticks w
          ≡ done (some i, w'))
        × Bears w w' i np
        × (can.stack ≢ 0)
        × (np.kstack ≡ can.stack)
        × (np.tf ≡ frame_at can.stack)
        × (w'.rest ≡ set_stack k trapret forkret can.stack can.s1))
      ⊎ ((w' : World S) × (allocproc k trapret forkret ticks w ≡ done (none, w')) × Barren w w')

  -- `allocproc` returns: with a new process, or with none.
  pub allocproc-Makes :
      (c : Proc) (w : World S) (can : CanFork k trapret forkret c w.rest)
      → w.table.locked ≡ false
      → UniquePids w.table
      → w.table.nextpid + 1 < word
      → Makes c w can
  unfolding allocproc
  allocproc-Makes c w can free u small = elim (alloc_slot-AllocsSlot ticks w.table free) [
    | inr n ↦
        inr (w, rw (n, ◌>>=◌) refl, record { unique = u; free = free; others = λ j p e used. e })
    | inl a ↦
        let i = a.0 in
        let v = can.stack in
        let t : Ptable = with_born ticks i w.table in
        let ut = with_born-UniquePids ticks i w.table u small in
        let born_here = get_elem?-modify i (born ticks w.table.nextpid) w.table.proc a.2 in
        let q : Proc = born ticks w.table.nextpid a.1 in
        elim (Bool-cases (v == 0)) [
          | inl z ↦ inr (
            _,
            alloc_undone w i v can.s1 a.4 can.kallocs z,
            record {
              unique = Carries-UniquePids t _ ut refl (
                  modify-Carries i (λ p. record p { kstack = v; state = unused }) t.proc
                    (λ p x. absurd (unused_used x)));
              free = free;
              others = λ j p e used.
                  let ne = used_ne w.table.proc i j a.1 p a.2 a.3 e used in
                  get_elem?-modify_ne i j (λ p. record p { kstack = v; state = unused }) t.proc ne
                  ∙ get_elem?-modify_ne i j (born ticks w.table.nextpid) w.table.proc ne
                  ∙ e;
            },
          )
          | inr z ↦
              let f : Proc → Proc =
                λ p. record p { kstack = v; tf = frame_at v; context = context_at v } in
              inl (
                i,
                f q,
                _,
                alloc_some w i v can.s1 a.4 can.kallocs z,
                record {
                  unique = Carries-UniquePids t _ ut refl (
                      modify-Carries_at i f t.proc q born_here
                        (born-IsUsed ticks w.table.nextpid a.1) refl);
                  free = free;
                  here = get_elem?-modify i f t.proc born_here;
                  pid = born-pid ticks w.table.nextpid a.1;
                  used = born-IsUsed ticks w.table.nextpid a.1;
                  was_free = (a.1, a.2, a.3);
                  others = λ j ne.
                      get_elem?-modify_ne i j f t.proc ne
                      ∙ get_elem?-modify_ne i j (born ticks w.table.nextpid) w.table.proc ne;
                },
                ==→ne v 0 z,
                refl,
                refl,
                refl,
              )
        ]
  ]
    where
      unused_used : true ≢ false
      unused_used x = cc
