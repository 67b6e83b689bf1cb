-- ===== src/Syscall.antt =====
-- The system calls on files of xv6-public/sysfile.c, and `sys_chmod` of PRJ03_syscall.c: here those on
-- descriptors, in the children those on path names. What they call of files, inodes, paths and the log
-- is the interface `Calls`, over a state `S`; inodes and files are slots.
pub mod Ends
pub mod Links
pub mod Open
pub mod Exec
pub mod Counts
pub mod Balance
pub mod Linking
pub mod Unlinking
pub mod Opening
pub mod Denied
pub mod Paths
pub mod Opened
mod Tests
use ele3021_spring.Common.{
  ℕ, Outcome, done, Option, List, Bool, ◌>>=◌, minus, none, if◌then◌else◌, some, ◌==◌, slt, suc,
  set, ◌||◌, ◌+◌, not, [], get_or, ◌∷◌,
}
use ele3021_spring.CString.{strcmp}
use ele3021_spring.Users.{root}
use ele3021_spring.Proc.{Proc}
use ele3021_spring.Fs.{test_bit}
use ele3021_spring.Inode.{Inode}
use ele3021_spring.File.{File}
use ele3021_spring.Sysargs.{User, argint, argptr, argstr}

-- `inode` and `set_inode` are loads and stores of the fields of an inode, `set_file` of a file, and
-- `store` of a word of the user's memory. `namei` and `nameiparent` are those of a process;
-- `dirlookup` gives an inode and its offset; `ialloc` does not return without an inode.
pub record Calls (S : Type 0) : Type 0 where
  pub begin_op : S → Outcome S
  pub end_op : S → Outcome S
  pub namei : Proc → List ℕ → S → Outcome (Option ℕ × S)
  pub nameiparent : Proc → List ℕ → S → Outcome (Option (ℕ × List ℕ) × S)
  pub inode : ℕ → S → Inode
  pub set_inode : ℕ → Inode → S → S
  pub ilock : ℕ → S → Outcome S
  pub iunlock : ℕ → S → Outcome S
  pub iput : ℕ → S → Outcome S
  pub iupdate : ℕ → S → Outcome S
  pub ialloc : ℕ → ℕ → S → Outcome (ℕ × S)
  pub readi : ℕ → ℕ → ℕ → S → Outcome (Option (List ℕ) × S)
  pub writei : ℕ → List ℕ → ℕ → S → Outcome (Option ℕ × S)
  pub dirlookup : ℕ → List ℕ → S → Outcome (Option (ℕ × ℕ) × S)
  pub dirlink : ℕ → List ℕ → ℕ → S → Outcome (ℕ × S)
  pub filealloc : S → Outcome (Option ℕ × S)
  pub filedup : ℕ → S → Outcome S
  pub fileclose : ℕ → S → Outcome S
  pub set_file : ℕ → (File → File) → S → S
  pub fileread : ℕ → ℕ → ℕ → S → Outcome (ℕ × S)
  pub filewrite : ℕ → ℕ → ℕ → S → Outcome (ℕ × S)
  pub filestat : ℕ → ℕ → S → Outcome (ℕ × S)
  pub pipealloc : S → Outcome (Option (ℕ × ℕ) × S)
  pub store : ℕ → ℕ → S → S
  pub exec : List ℕ → List (List ℕ) → Proc → S → Outcome (ℕ × Proc × S)

abbrev pub nofile : ℕ
nofile = 16

-- What a call leaves: its result, the calling process, and the rest.
abbrev pub Reply : Type 0 → Type 0
Reply S = Outcome (ℕ × Proc × S)

abbrev pub fail : {S : Type 0} → Proc → S → Reply S
fail p s = done (minus 1, p, s)

-- The descriptor and its file.
unfoldable pub argfd : ℕ → User → Proc → Option (ℕ × ℕ)
unfolding argint
argfd n u p = elim (argint n u) [
  | none ↦ none
  | some fd ↦
      if slt fd 0 || not (slt fd nofile)
      then none
      else elim (get_or p.ofile fd none) [ none ↦ none | some f ↦ some (fd, f) ]
]

-- The first descriptor from `i` on that is free.
unfoldable pub free_fd : ℕ → List (Option ℕ) → Option ℕ
free_fd i [] = none
free_fd i (f ∷ fs) = let later = free_fd (suc i) fs in elim f [ none ↦ some i | some x ↦ later ]

unfoldable pub fdalloc : ℕ → Proc → Option (ℕ × Proc)
unfolding free_fd
fdalloc f p = elim (free_fd 0 p.ofile) [
  | none ↦ none
  | some fd ↦ some (fd, record p { ofile = set p.ofile fd (some f) })
]

-- `!strcmp(userid, "root") || !strcmp(userid, ip->userid)`, and the test of a bit of the mode for
-- the owner and for others, as places.
unfoldable pub allowed : ℕ → ℕ → Proc → Inode → Bool
unfolding strcmp test_bit
allowed usr oth p ip =
    if strcmp p.userid root == 0 || strcmp p.userid ip.userid == 0
    then test_bit ip.mode usr
    else test_bit ip.mode oth

-- The size of `struct stat`.
abbrev pub stat_size : ℕ
stat_size = 40

module _ {S : Type 0} (k : Calls S) (u : User) (p : Proc) where
  unfoldable pub sys_dup : S → Reply S
  unfolding argfd fdalloc
  sys_dup s = elim (argfd 0 u p) [
    | none ↦ fail p s
    | some r ↦ elim (fdalloc r.1 p) [
      | none ↦ fail p s
      | some a ↦ k.filedup r.1 s >>= λ s1. done (a.0, a.1, s1)
    ]
  ]

  -- The arguments that `sys_read` and `sys_write` fetch: file, address and count.
  unfoldable pub transfer_args : Option (ℕ × ℕ × ℕ)
  unfolding argfd argptr
  transfer_args = elim (argfd 0 u p) [
    | none ↦ none
    | some r ↦ elim (argint 2 u) [
      | none ↦ none
      | some n ↦ elim (argptr 1 n u) [ none ↦ none | some addr ↦ some (r.1, addr, n) ]
    ]
  ]

  unfoldable pub sys_read : S → Reply S
  unfolding transfer_args
  sys_read s = elim transfer_args [
    | none ↦ fail p s
    | some a ↦ k.fileread a.0 a.1 a.2 s >>= λ r. done (r.0, p, r.1)
  ]

  unfoldable pub sys_write : S → Reply S
  unfolding transfer_args
  sys_write s = elim transfer_args [
    | none ↦ fail p s
    | some a ↦ k.filewrite a.0 a.1 a.2 s >>= λ r. done (r.0, p, r.1)
  ]

  unfoldable pub sys_close : S → Reply S
  unfolding argfd
  sys_close s = elim (argfd 0 u p) [
    | none ↦ fail p s
    | some r ↦ k.fileclose r.1 s >>= λ s1. done (0, record p { ofile = set p.ofile r.0 none }, s1)
  ]

  unfoldable pub sys_fstat : S → Reply S
  unfolding argfd argptr
  sys_fstat s = elim (argfd 0 u p) [
    | none ↦ fail p s
    | some r ↦ elim (argptr 1 stat_size u) [
      | none ↦ fail p s
      | some addr ↦ k.filestat r.1 addr s >>= λ a. done (a.0, p, a.1)
    ]
  ]

  -- `sys_pipe` where a descriptor is missing: both files are closed again.
  abbrev pub close_both : ℕ → ℕ → S → Reply S
  close_both rf wf s = k.fileclose rf s >>= λ s1. k.fileclose wf s1 >>= λ s2. fail p s2

  unfoldable pub sys_pipe : S → Reply S
  unfolding argptr fdalloc
  sys_pipe s = elim (argptr 0 8 u) [
    | none ↦ fail p s
    | some addr ↦ k.pipealloc s >>= λ r. elim r.0 [
      | none ↦ fail p r.1
      | some fs ↦ elim (fdalloc fs.0 p) [
        | none ↦ close_both fs.0 fs.1 r.1
        | some a ↦ elim (fdalloc fs.1 a.1) [
          | none ↦ close_both fs.0 fs.1 r.1
          | some b ↦ done (0, b.1, k.store (addr + 4) b.0 (k.store addr a.0 r.1))
        ]
      ]
    ]
  ]
