-- ===== src/Syscall/Counts.antt =====
-- What the system calls of xv6-public/sysfile.c hold while they run, as counts: operations of the log
-- begun, inodes locked, and references to inodes. The counts of operations are ints.
use ele3021_spring.Common.{ℕ, none, some, ◌≡◌, Option, add32, List, suc, sub32, done}
use ele3021_spring.Proc.{Proc}
use ele3021_spring.Inode.{Inode}
use ele3021_spring.Path.{dirent_size}
use ele3021_spring.Syscall.{Calls, File}
use ele3021_spring.Syscall.Ends.{Ends}

pub record Counts (S : Type 0) : Type 0 where
  pub ops : S → ℕ
  pub locks : S → ℕ
  pub refs : S → ℕ

abbrev pub Holds : {S : Type 0} → Counts S → ℕ → ℕ → ℕ → S → Type 0
Holds c o l r s = (c.ops s ≡ o) × (c.locks s ≡ l) × (c.refs s ≡ r)

-- A reference comes with a result.
abbrev pub Finds : {A S : Type 0} → Counts S → ℕ → ℕ → ℕ → Option A × S → Type 0
Finds c o l r (none, s) = Holds c o l r s
Finds c o l r (some a, s) = Holds c o l (suc r) s

-- The calls below, whenever they return, change the counts as their comments in the source say: a lock
-- is held when it is released, and a reference when it is put. They may panic, and they may fail. A
-- file that was just allocated has no inode to put when it is closed.
pub record IsCounted {S : Type 0} (k : Calls S) (c : Counts S) : Type 0 where
  pub begins : (o l r : ℕ) (s : S) → Holds c o l r s → Ends (k.begin_op s) (Holds c (add32 o 1) l r)
  pub ends : (o l r : ℕ) (s : S) → Holds c o l r s → Ends (k.end_op s) (Holds c (sub32 o 1) l r)
  pub names :
      (p : Proc) (path : List ℕ) (o l r : ℕ) (s : S)
      → Holds c o l r s
      → Ends (k.namei p path s) (Finds c o l r)
  pub parents :
      (p : Proc) (path : List ℕ) (o l r : ℕ) (s : S)
      → Holds c o l r s
      → Ends (k.nameiparent p path s) (Finds c o l r)
  pub locks : (ip o l r : ℕ) (s : S) → Holds c o l r s → Ends (k.ilock ip s) (Holds c o (suc l) r)
  pub unlocks :
      (ip o l r : ℕ) (s : S) → Holds c o (suc l) r s → Ends (k.iunlock ip s) (Holds c o l r)
  pub puts : (ip o l r : ℕ) (s : S) → Holds c o l (suc r) s → Ends (k.iput ip s) (Holds c o l r)
  pub sets :
      (ip : ℕ) (x : Inode) (o l r : ℕ) (s : S)
      → Holds c o l r s
      → Holds c o l r (k.set_inode ip x s)
  pub updates : (ip o l r : ℕ) (s : S) → Holds c o l r s → Ends (k.iupdate ip s) (Holds c o l r)
  pub reads :
      (dp off o l r : ℕ) (s : S)
      → Holds c o l r s
      → Ends (k.readi dp off dirent_size s) (λ q. Holds c o l r q.1)
  pub writes :
      (dp off o l r : ℕ) (de : List ℕ) (s : S)
      → Holds c o l r s
      → Ends (k.writei dp de off s) (λ q. Holds c o l r q.1)
  pub lookups :
      (dp : ℕ) (name : List ℕ) (o l r : ℕ) (s : S)
      → Holds c o l r s
      → Ends (k.dirlookup dp name s) (Finds c o l r)
  pub links :
      (dp : ℕ) (name : List ℕ) (inum o l r : ℕ) (s : S)
      → Holds c o l r s
      → Ends (k.dirlink dp name inum s) (λ q. Holds c o l r q.1)
  pub allocs :
      (dev type o l r : ℕ) (s : S)
      → Holds c o l r s
      → Ends (k.ialloc dev type s) (λ q. Holds c o l (suc r) q.1)
  pub opens : (o l r : ℕ) (s : S) → Holds c o l r s → Ends (k.filealloc s) (λ q. Holds c o l r q.1)
  pub closes :
      (f o l r : ℕ) (s0 s : S)
      → k.filealloc s0 ≡ done (some f, s)
      → Holds c o l r s
      → Ends (k.fileclose f s) (Holds c o l r)
  pub files :
      (f : ℕ) (change : File → File) (o l r : ℕ) (s : S)
      → Holds c o l r s
      → Holds c o l r (k.set_file f change s)
