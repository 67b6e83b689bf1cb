-- ===== src/Syscall/Opened.antt =====
-- `sys_open` of xv6-public/sysfile.c: what it gives back, and what it keeps.
use ele3021_spring.Common.{ℕ, some, ◌≡◌, suc, minus, sub32, ◌⊎◌}
use ele3021_spring.Proc.{Proc}
use ele3021_spring.Sysargs.{User}
use ele3021_spring.Syscall.{Calls, free_fd}
use ele3021_spring.Syscall.Ends.{Ends}
use ele3021_spring.Syscall.Counts.{Counts, Holds, IsCounted}

module _ {S : Type 0} (k : Calls S) (c : Counts S) (ok : IsCounted k c) (u : User) (p : Proc) where
  -- What `sys_open` leaves: a new descriptor, and the reference to the inode kept; or all given
  -- back; or -1, with one operation ended too many.
  abbrev pub Opens : ℕ → ℕ → ℕ → ℕ × Proc × S → Type 0
  Opens o l r q =
      ((free_fd 0 p.ofile ≡ some q.0) × Holds c o l (suc r) q.2)
      ⊎ (Holds c o l r q.2 ⊎ ((q.0 ≡ minus 1) × Holds c (sub32 o 1) l r q.2))
