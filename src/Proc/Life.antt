-- ===== src/Proc/Life.antt =====
-- `allocproc`, `userinit` and `growproc` of xv6-public/proc.c, in the build with MLFQ_SCHED. The
-- calls that they and `fork`, `exit` and `wait` make below the process table are an interface,
-- `Kernel`, over the state `S` of the rest of the kernel.
use ele3021_spring.Common.{
  ℕ, suc, ◌+◌, ◌-◌, ◌||◌, ◌==◌, leb, slt, add32, if◌then◌else◌, List, [], ◌∷◌, Option, none, some,
  get_elem?, Outcome, done, panicked, faulted, ◌>>=◌, minus,
}
use ele3021_spring.CString.{strcpy, safestrcpy}
use ele3021_spring.Users.{root}
use ele3021_spring.Mlfq.{time_quantum, modify}
use ele3021_spring.Proc.{Proc, Ptable, is_unused, unused, embryo, runnable, user}
use ele3021_spring.Proc.Lock.{acquire, release}
use ele3021_spring.Proc.Admin.{min_priority}

-- Memory is reached by address: `store` of a uint, `fill` by `memset`, and `copy` of a struct, with
-- its size last. Inodes are given by the slot of the inode cache, files by that of the file table.
pub record Kernel (S : Type 0) : Type 0 where
  pub kalloc : S → Outcome (ℕ × S)
  pub kfree : ℕ → S → Outcome S
  pub store : ℕ → ℕ → S → S
  pub fill : ℕ → ℕ → ℕ → S → S
  pub copy : ℕ → ℕ → ℕ → S → S
  pub setupkvm : S → Outcome (ℕ × S)
  pub inituvm : ℕ → S → Outcome S
  pub copyuvm : ℕ → ℕ → S → Outcome (ℕ × S)
  pub freevm : ℕ → S → Outcome S
  pub allocuvm : ℕ → ℕ → ℕ → S → Outcome (ℕ × S)
  pub deallocuvm : ℕ → ℕ → ℕ → S → Outcome (ℕ × S)
  pub switchuvm : Proc → S → Outcome S
  pub filedup : ℕ → S → Outcome S
  pub fileclose : ℕ → S → Outcome S
  pub idup : ℕ → S → Outcome S
  pub iput : ℕ → S → Outcome S
  pub namei_root : S → Outcome (Option ℕ × S)
  pub begin_op : S → Outcome S
  pub end_op : S → Outcome S

-- The process table, and the rest.
pub record World (S : Type 0) : Type 0 where
  pub table : Ptable
  pub rest : S

-- A change of one slot of the table.
abbrev pub change : {S : Type 0} → ℕ → (Proc → Proc) → World S → World S
change i f w = record w { table = record w.table { proc = modify i f w.table.proc } }

-- The process at a pointer; a pointer that is no slot is not followed.
abbrev pub slot : {S : Type 0} → ℕ → World S → Outcome Proc
slot i w = elim (get_elem? w.table.proc i) [ none ↦ faulted | some p ↦ done p ]

abbrev pub lock : {S : Type 0} → World S → Outcome (World S)
lock w = acquire w.table >>= λ t. done (record w { table = t })

abbrev pub unlock : {S : Type 0} → World S → Outcome (World S)
unlock w = release w.table >>= λ t. done (record w { table = t })

-- The first UNUSED slot from slot `i` on.
unfoldable pub free_slot : ℕ → List Proc → Option ℕ
free_slot i [] = none
free_slot i (p ∷ ps) = if is_unused p.state then some i else free_slot (suc i) ps

-- What `allocproc` does to the slot that it found.
unfoldable pub born : ℕ → ℕ → Proc → Proc
born ticks pid p = record p {
  state = embryo;
  pid = pid;
  time_c = ticks;
  priority = min_priority;
  level = 0;
  hold = time_quantum 0;
  mode = user;
  limit = 0;
  userid = strcpy p.userid 0 root;
}

-- The part of `allocproc` under the lock: the slot found.
unfoldable pub alloc_slot : ℕ → Ptable → Outcome (Option ℕ × Ptable)
unfolding free_slot born acquire release
alloc_slot ticks t = acquire t >>= λ t1. elim (free_slot 0 t1.proc) [
  | none ↦ release t1 >>= λ t2. done (none, t2)
  | some i ↦
      release (record t1 {
        proc = modify i (born ticks t1.nextpid) t1.proc;
        nextpid = add32 t1.nextpid 1;
      })
      >>= λ t2. done (some i, t2)
]

abbrev pub kstacksize : ℕ
kstacksize = 4096

-- Sizes of `struct trapframe` and `struct context`, and the places of fields in them.
abbrev pub trapframe_size : ℕ
trapframe_size = 76

abbrev pub context_size : ℕ
context_size = 20

abbrev pub context_eip : ℕ
context_eip = 16

-- Where `allocproc` puts the trap frame and the context on a kernel stack.
abbrev pub frame_at : ℕ → ℕ
frame_at kstack = kstack + kstacksize - trapframe_size

abbrev pub context_at : ℕ → ℕ
context_at kstack = frame_at kstack - 4 - context_size

-- `trapret` and `forkret` are the addresses of those labels.
module _ {S : Type 0} (k : Kernel S) (trapret forkret : ℕ) where
  -- The stores of `allocproc` to the new kernel stack.
  unfoldable pub set_stack : ℕ → S → S
  set_stack kstack s =
      k.store (context_at kstack + context_eip) forkret
        (k.fill (context_at kstack) 0 context_size (k.store (frame_at kstack - 4) trapret s))

  -- The new process's slot, or none.
  unfoldable pub allocproc : ℕ → World S → Outcome (Option ℕ × World S)
  unfolding alloc_slot set_stack
  allocproc ticks w = alloc_slot ticks w.table >>= λ r. elim r.0 [
    | none ↦ done (none, record w { table = r.1 })
    | some i ↦ k.kalloc w.rest >>= λ s.
        let w1 = record w { table = r.1; rest = s.1 } in
        if s.0 == 0
        then done (none, change i (λ p. record p { kstack = s.0; state = unused }) w1)
        else done (
          some i,
          record (change i
              (λ p. record p { kstack = s.0; tf = frame_at s.0; context = context_at s.0 }) w1) {
                rest = set_stack s.0 s.1;
              },
        )
  ]

-- "initcode" and the sizes that `userinit` uses.
abbrev pub initcode : List ℕ
initcode = b'i' ∷ b'n' ∷ b'i' ∷ b't' ∷ b'c' ∷ b'o' ∷ b'd' ∷ b'e' ∷ []

-- `tf->ds`, `tf->es`, `tf->cs`, `tf->eflags`, `tf->esp`, `tf->ss` and `tf->eip`, and the values that
-- `userinit` gives them; a ushort and its padding, which was cleared before, are stored as a uint.
abbrev pub user_frame : {S : Type 0} → Kernel S → ℕ → S → S
user_frame k tf s = k.store (tf + 56) 0 (
    k.store (tf + 68) 4096 (
      k.store (tf + 64) 0x200 (
        k.store (tf + 72) 0x23 (
          k.store (tf + 40) 0x23
            (k.store (tf + 44) 0x23 (k.store (tf + 60) 0x1b (k.fill tf 0 trapframe_size s)))))))

module _ {S : Type 0} (k : Kernel S) (trapret forkret : ℕ) where
  -- `userinit`: the slot of `initproc`.
  unfoldable pub userinit : ℕ → World S → Outcome (ℕ × World S)
  unfolding allocproc
  userinit ticks w = allocproc k trapret forkret ticks w >>= λ r. elim r.0 [
    | none ↦ faulted
    | some i ↦ k.setupkvm r.1.rest >>= λ g.
        if g.0 == 0
        then panicked
        else (k.inituvm g.0 g.1 >>= λ s1.
            let w1 =
              change i (λ p. record p { pgdir = g.0; sz = 4096 }) (record r.1 { rest = s1 }) in
            slot i w1 >>= λ p. k.namei_root (user_frame k p.tf s1) >>= λ c.
            let w2 =
              change i (λ q. record q { name = safestrcpy q.name 0 initcode 16; cwd = c.0 })
                (record w1 { rest = c.1 }) in
            lock w2 >>= λ w3.
            unlock (change i (λ q. record q { state = runnable }) w3) >>= λ w4. done (i, w4))
  ]

-- `growproc` for the process in slot `cur`, with `n` as a signed word.
module _ {S : Type 0} (k : Kernel S) where
  -- The new size that it sets, or none where it returns -1.
  unfoldable pub grown : Proc → ℕ → S → Outcome (Option ℕ × S)
  grown p n s =
      if slt 0 n
      then (if leb (add32 p.sz n) p.limit || p.limit == 0
          then (k.allocuvm p.pgdir p.sz (add32 p.sz n) s >>= λ r.
              done (if r.0 == 0 then none else some r.0, r.1))
          else done (none, s))
      else if slt n 0
      then (k.deallocuvm p.pgdir p.sz (add32 p.sz n) s >>= λ r.
          done (if r.0 == 0 then none else some r.0, r.1))
      else done (some p.sz, s)

  unfoldable pub growproc : ℕ → ℕ → World S → Outcome (ℕ × World S)
  unfolding grown
  growproc cur n w = slot cur w >>= λ p. grown p n w.rest >>= λ r. elim r.0 [
    | none ↦ done (minus 1, record w { rest = r.1 })
    | some sz ↦ k.switchuvm (record p { sz = sz }) r.1 >>= λ s.
        done (0, record (change cur (λ q. record q { sz = sz }) w) { rest = s })
  ]
