-- ===== src/Proc.antt =====
-- The process table of xv6-public/proc.c and proc.h. Pointers to table slots are indices; the
-- 32-bit fields are kept as bit patterns.
pub mod Lock
pub mod Signal
pub mod Admin
pub mod Life
pub mod Family
pub mod Sched
pub mod Slots
pub mod Pids
pub mod Orphans
pub mod Woken
pub mod Kept
pub mod Exiting
pub mod Reaping
pub mod Growth
pub mod Forking
pub mod Copying
pub mod Children
mod Tests
mod LifeTests
use ele3021_spring.Common.{replicate, ℕ, List, Option, none, [], Bool, true, false}

-- `enum procstate`
pub data ProcState : Type 0 where
  unused embryo sleeping runnable running zombie : ProcState

-- `enum execmode`
pub data ExecMode : Type 0 where
  user administrator : ExecMode

-- `struct proc`. `parent` is the slot of the parent, `none` a null pointer; `kstack`, `pgdir`,
-- `tf`, `context` and `chan` are addresses, 0 for null; `ofile` holds slots of the file table.
pub record Proc : Type 0 where
  pub sz : ℕ
  pub pgdir : ℕ
  pub kstack : ℕ
  pub state : ProcState
  pub pid : ℕ
  pub parent : Option ℕ
  pub tf : ℕ
  pub context : ℕ
  pub chan : ℕ
  pub killed : ℕ
  pub ofile : List (Option ℕ)
  pub cwd : Option ℕ
  pub name : List ℕ
  pub time_c : ℕ
  pub priority : ℕ
  pub level : ℕ
  pub hold : ℕ
  pub mode : ExecMode
  pub limit : ℕ
  pub userid : List ℕ

-- `ptable` with `nextpid`; `locked` says that `ptable.lock` is held.
pub record Ptable : Type 0 where
  pub locked : Bool
  pub proc : List Proc
  pub nextpid : ℕ

-- Tests of a state, as the source compares it.
abbrev pub is_unused : ProcState → Bool
is_unused unused = true
is_unused _ = false

abbrev pub is_sleeping : ProcState → Bool
is_sleeping sleeping = true
is_sleeping _ = false

abbrev pub is_runnable : ProcState → Bool
is_runnable runnable = true
is_runnable _ = false

abbrev pub is_zombie : ProcState → Bool
is_zombie zombie = true
is_zombie _ = false

abbrev pub is_admin : ExecMode → Bool
is_admin administrator = true
is_admin _ = false

-- A slot of the table before its first use: the zeroed memory of the kernel's data segment.
abbrev pub blank : Proc
blank = record {
  sz = 0;
  pgdir = 0;
  kstack = 0;
  state = unused;
  pid = 0;
  parent = none;
  tf = 0;
  context = 0;
  chan = 0;
  killed = 0;
  ofile = replicate 16 none;
  cwd = none;
  name = replicate 16 0;
  time_c = 0;
  priority = 0;
  level = 0;
  hold = 0;
  mode = user;
  limit = 0;
  userid = replicate 16 0;
}
