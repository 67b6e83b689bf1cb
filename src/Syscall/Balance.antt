-- ===== src/Syscall/Balance.antt =====
-- The system calls of xv6-public/sysfile.c give back what they take.
use ele3021_spring.Common.{
  ℕ, suc, sub32, ◌>>=◌, minus, Option, Outcome, ◌<◌, word, add32, ◌∙◌, arith, none, some,
}
use ele3021_spring.Proc.{Proc}
use ele3021_spring.Inode.{Inode}
use ele3021_spring.Sysargs.{User}
use ele3021_spring.Syscall.{Calls, fail, Reply}
use ele3021_spring.Syscall.Ends.{ends_weaken, Ends, ends_done, ends_bind}
use ele3021_spring.Syscall.Counts.{Counts, Holds, IsCounted, Finds}
use ele3021_spring.Syscall.Links.{iunlockput, update_links, give_up, unlink_again, less_links}

-- After a call that may find something.
pub ends_found :
    {A B S : Type 0} {P : B → Type 0} (c : Counts S) (o l r : ℕ) (q : Option A × S)
    {x : S → Outcome B} {f : A → S → Outcome B}
    → Finds c o l r q
    → ((s : S) → Holds c o l r s → Ends (x s) P)
    → ((a : A) (s : S) → Holds c o l (suc r) s → Ends (f a s) P)
    → Ends (elim q.0 [ none ↦ x q.1 | some a ↦ f a q.1 ]) P
ends_found c o l r (none, s) h x f = x s h
ends_found c o l r (some a, s) h x f = f a s h

module _ {S : Type 0} (k : Calls S) (c : Counts S) (ok : IsCounted k c) where
  pub iunlockput-Holds :
      (ip o l r : ℕ) (s : S)
      → Holds c o (suc l) (suc r) s
      → Ends (iunlockput k ip s) (Holds c o l r)
  iunlockput-Holds ip o l r s h =
      ends_bind (ok.unlocks ip o l (suc r) s h) (λ s1 h1. ok.puts ip o l r s1 h1)

  pub update_links-Holds :
      (f : Inode → Inode) (ip o l r : ℕ) (s : S)
      → Holds c o l r s
      → Ends (update_links k f ip s) (Holds c o l r)
  update_links-Holds f ip o l r s h =
      ok.updates ip o l r (k.set_inode ip (f (k.inode ip s)) s)
        (ok.sets ip (f (k.inode ip s)) o l r s h)

  module _ (u : User) (p : Proc) where
    -- A call has given back what it took, and one operation more has ended.
    abbrev pub Over : ℕ → ℕ → ℕ → ℕ × Proc × S → Type 0
    Over o l r q = Holds c (sub32 o 1) l r q.2

    pub give_up-Over :
        (ip o l r : ℕ) (s : S)
        → Holds c o (suc l) (suc r) s
        → Ends (give_up k u p ip s) (Over o l r)
    give_up-Over ip o l r s h =
        ends_bind (iunlockput-Holds ip o l r s h)
          (λ s1 h1. ends_bind (ok.ends o l r s1 h1) (λ s2 h2. ends_done (minus 1, p, s2) h2))

    pub quit-Over :
        (o l r : ℕ) (s : S) → Holds c o l r s → Ends (k.end_op s >>= λ s2. fail p s2) (Over o l r)
    quit-Over o l r s h = ends_bind (ok.ends o l r s h) (λ s2 h2. ends_done (minus 1, p, s2) h2)

    pub unlink_again-Over :
        (ip o l r : ℕ) (s : S) → Holds c o l (suc r) s → Ends (unlink_again k u p ip s) (Over o l r)
    unlink_again-Over ip o l r s h = ends_bind (ok.locks ip o l (suc r) s h) (λ s1 h1.
        ends_bind (update_links-Holds less_links ip o (suc l) (suc r) s1 h1)
          (λ s2 h2. give_up-Over ip o l r s2 h2))

    -- After `begin_op`, all is given back in the end.
    pub Over-Holds :
        (o l r : ℕ) (m : Reply S)
        → o < word
        → Ends m (Over (add32 o 1) l r)
        → Ends m (λ q. Holds c o l r q.2)
    Over-Holds o l r m small e = ends_weaken e (λ q h. (h.0 ∙ omega (arith, small), h.1, h.2))

    pub fail-Holds :
        (o l r : ℕ) (s : S) → Holds c o l r s → Ends (fail p s) (λ q. Holds c o l r q.2)
    fail-Holds o l r s h = ends_done (minus 1, p, s) h
