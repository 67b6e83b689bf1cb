-- ===== src/Syscall/Tests.antt =====
-- System calls over a file system that only counts.
use ele3021_spring.Common.{
  ℕ, Bool, true, false, none, some, ◌∷◌, [], ◌≡◌, refl, done, replicate, add32, if◌then◌else◌, ap,
  arith, sub32, suc, ◌==◌, ◌-◌, length, Option,
}
use ele3021_spring.Log.{Log}
use ele3021_spring.Proc.{Proc, blank, running}
use ele3021_spring.Inode.{Inode, t_file}
use ele3021_spring.Sysargs.{User, argstr, argint}
use ele3021_spring.Syscall.{Calls}
use ele3021_spring.Syscall.Ends.{Ends, ends_done}
use ele3021_spring.Syscall.Counts.{Counts, Holds, Finds, IsCounted}
use ele3021_spring.Syscall.Links.{sys_link, sys_unlink}
use ele3021_spring.Syscall.Open.{sys_open, sys_chmod}
use ele3021_spring.Syscall.Linking.{sys_link-Holds}
use ele3021_spring.Syscall.Unlinking.{sys_unlink-Holds}
use ele3021_spring.Syscall.Paths.{sys_chmod-keeps}

-- Operations, locks and references.
abbrev Tally : Type 0
Tally = ℕ × ℕ × ℕ

abbrev an_inode : ℕ → Inode
an_inode mode = record {
  dev = 1;
  inum = 5;
  ref = 1;
  lock = none;
  valid = true;
  type_ = t_file;
  major = 0;
  minor = 0;
  nlink = 1;
  size = 40;
  addrs = replicate 8 0;
  userid = b'r' ∷ b'o' ∷ b'o' ∷ b't' ∷ replicate 12 0;
  mode = mode;
}

abbrev look : Bool → Tally → Option (ℕ × ℕ) × Tally
look true s = (some (2, 32), (s.0, s.1, suc s.2))
look false s = (none, s)

-- Every path names inode 1, and every name is there, as inode 2, or none is.
abbrev counting : Bool → ℕ → Calls Tally
counting there mode = record {
  begin_op = λ s. done (add32 s.0 1, s.1, s.2);
  end_op = λ s. done (sub32 s.0 1, s.1, s.2);
  namei = λ p path s. done (some 1, (s.0, s.1, suc s.2));
  nameiparent = λ p path s. done (some (1, replicate 14 b'x'), (s.0, s.1, suc s.2));
  inode = λ ip s. an_inode mode;
  set_inode = λ ip x s. s;
  ilock = λ ip s. done (s.0, suc s.1, s.2);
  iunlock = λ ip s. done (s.0, s.1 - 1, s.2);
  iput = λ ip s. done (s.0, s.1, s.2 - 1);
  iupdate = λ ip s. done s;
  ialloc = λ dev type s. done (3, (s.0, s.1, suc s.2));
  readi = λ dp off n s. done (some (replicate 16 0), s);
  writei = λ dp de off s. done (some (length de), s);
  dirlookup = λ dp name s. done (look there s);
  dirlink = λ dp name inum s. done (0, s);
  filealloc = λ s. done (some 7, s);
  filedup = λ f s. done s;
  fileclose = λ f s. done s;
  set_file = λ f change s. s;
  fileread = λ f a n s. done (n, s);
  filewrite = λ f a n s. done (n, s);
  filestat = λ f a s. done (0, s);
  pipealloc = λ s. done (none, s);
  store = λ a v s. s;
  exec = λ path argv p s. done (0, p, s);
}

abbrev tally : Counts Tally
tally = record { ops = λ s. s.0; locks = λ s. s.1; refs = λ s. s.2 }

lookup_found :
    (there : Bool) (o l r : ℕ) (s : Tally) → Holds tally o l r s → Finds tally o l r (look there s)
lookup_found true o l r s h = (h.0, h.1, ap suc h.2)
lookup_found false o l r s h = h

counting-IsCounted : (there : Bool) (mode : ℕ) → IsCounted (counting there mode) tally
counting-IsCounted there mode = record {
  begins = λ o l r s h. ends_done _ (ap (λ x. add32 x 1) h.0, h.1, h.2);
  ends = λ o l r s h. ends_done _ (ap (λ x. sub32 x 1) h.0, h.1, h.2);
  names = λ p path o l r s h. ends_done _ (h.0, h.1, ap suc h.2);
  parents = λ p path o l r s h. ends_done _ (h.0, h.1, ap suc h.2);
  locks = λ ip o l r s h. ends_done _ (h.0, ap suc h.1, h.2);
  unlocks = λ ip o l r s h. ends_done _ (h.0, omega (arith, h.1), h.2);
  puts = λ ip o l r s h. ends_done _ (h.0, h.1, omega (arith, h.2));
  sets = λ ip x o l r s h. h;
  updates = λ ip o l r s h. ends_done s h;
  reads = λ dp off o l r s h. ends_done (some (replicate 16 0), s) h;
  writes = λ dp off o l r de s h. ends_done (some (length de), s) h;
  lookups = λ dp name o l r s h. ends_done _ (lookup_found there o l r s h);
  links = λ dp name inum o l r s h. ends_done (0, s) h;
  allocs = λ dev type o l r s h. ends_done _ (h.0, h.1, ap suc h.2);
  opens = λ o l r s h. ends_done (some 7, s) h;
  closes = λ f o l r s0 s e h. ends_done s h;
  files = λ f change o l r s h. h;
}

-- The strings "a" at 20 and "b" at 30 are the first two arguments, or the second is another word.
abbrev memory : ℕ → ℕ → ℕ → ℕ
memory low high a =
    if a == 4
    then 20
    else if a == 8
    then low
    else if a == 9
    then high
    else if a == 20
    then b'a'
    else if a == 30
    then b'b'
    else 0

abbrev caller : User
caller = record { sz = 100; esp = 0; mem = memory 30 0 }

-- The second argument is 512, which is O_CREATE.
abbrev creator : User
creator = record { sz = 100; esp = 0; mem = memory 0 2 }

-- A process of the user root in the directory of inode 1, and one of the user "kim".
abbrev shell : Proc
shell = record blank {
  state = running;
  cwd = some 1;
  userid = b'r' ∷ b'o' ∷ b'o' ∷ b't' ∷ replicate 12 0;
}

abbrev guest : Proc
guest = record shell { userid = b'k' ∷ b'i' ∷ b'm' ∷ replicate 13 0 }

sys_link-Holds_example :
    Ends (sys_link (counting true 63) caller shell (0, 0, 1)) (λ q. Holds tally 0 0 1 q.2)
sys_link-Holds_example =
    sys_link-Holds (counting true 63) tally (counting-IsCounted true 63) caller shell 0 0 1
      (0, 0, 1) (omega arith) (refl, refl, refl)

sys_unlink-Holds_example :
    Ends (sys_unlink (counting true 63) caller shell (0, 0, 1)) (λ q. Holds tally 0 0 1 q.2)
sys_unlink-Holds_example =
    sys_unlink-Holds (counting true 63) tally (counting-IsCounted true 63) caller shell 0 0 1
      (0, 0, 1) (omega arith) (refl, refl, refl)

first_arg : argstr 0 caller ≡ some (b'a' ∷ [])
unfolding argstr argint
first_arg = refl

second_arg : argint 1 caller ≡ some 30
unfolding argint
second_arg = refl

sys_chmod-keeps_example :
    Ends (sys_chmod (counting true 63) caller shell (0, 0, 1)) (λ q. Holds tally 0 0 2 q.2)
sys_chmod-keeps_example =
    sys_chmod-keeps (counting true 63) tally (counting-IsCounted true 63) caller shell 0 0 1 30
      (0, 0, 1) (b'a' ∷ []) first_arg second_arg (λ s1 s2 e. cc) (omega arith) (refl, refl, refl)

abbrev idle_log : Log
idle_log = record {
  start = 2;
  size = 30;
  outstanding = 0;
  committing = false;
  n = 0;
  block = λ i. 0;
  cache = λ b i. 0;
  dirty = λ b. false;
  disk = λ b i. 0;
  power = 100;
}

-- These calls return over the counting file system.
links : sys_link (counting true 63) caller shell (0, 0, 1) ≡ done (0, shell, (0, 0, 1))
unfolding sys_link
links = refl

opens :
    sys_open (counting false 63) creator shell (0, 0, 1)
    ≡ done (0, record shell { ofile = some 7 ∷ replicate 15 none }, (0, 0, 2))
unfolding sys_open
opens = refl

changes : sys_chmod (counting true 63) caller shell (0, 0, 1) ≡ done (0, shell, (0, 0, 2))
unfolding sys_chmod
changes = refl
