-- ===== src/Syscall/Paths.antt =====
-- `sys_chdir` of xv6-public/sysfile.c and `sys_chmod` of xv6-public/PRJ03_syscall.c: what
-- they give back, and what they keep.

use ele3021_spring.Common.{
  ℕ, none, some, faulted, done, ◌<◌, List, word, ◌≡◌, suc, ◌≢◌, sym, ◌>>=◌, ◌∙◌, Option, add32,
  if◌then◌else◌, not, ◌==◌, ◌&&◌, minus, ap, some_inj, refl,
}
use ele3021_spring.CString.{strcmp}
use ele3021_spring.Users.{root}
use ele3021_spring.Proc.{Proc}
use ele3021_spring.Inode.{t_dir, t_dev}
use ele3021_spring.Sysargs.{User, argstr, argint}
use ele3021_spring.Syscall.{Calls, fail, allowed}
use ele3021_spring.Syscall.Ends.{Ends, ends_done, ends_if, ends_option, ends_bind, ends_known}
use ele3021_spring.Syscall.Counts.{Counts, Holds, Finds, IsCounted}
use ele3021_spring.Syscall.Open.{sys_chdir, sys_chmod, chmod}
use ele3021_spring.Syscall.Balance.{Over, ends_found, give_up-Over, quit-Over, Over-Holds}

module _ {S : Type 0} (k : Calls S) (c : Counts S) (ok : IsCounted k c) (u : User) (p : Proc) where
  -- Whenever `sys_chdir` by a process with a current directory returns, it holds as many operations,
  -- locks and references as before: the reference to the old directory is put where that to the new
  -- one is kept.
  pub sys_chdir-Holds :
      (o l r d : ℕ) (s : S)
      → o < word
      → p.cwd ≡ some d
      → Holds c o l r s
      → Ends (sys_chdir k u p s) (λ q. Holds c o l r q.2)
  unfolding sys_chdir
  sys_chdir-Holds o l r d s small cwd h = Over-Holds k c ok u p o l r _ small (
      ends_bind (ok.begins o l r s h) (λ s1 h1.
        ends_option (argstr 0 u) (λ _. quit-Over k c ok u p (add32 o 1) l r s1 h1)
          (λ path _. ends_bind (ok.names p path (add32 o 1) l r s1 h1) (λ q f.
            ends_found c (add32 o 1) l r q f (quit-Over k c ok u p (add32 o 1) l r) (λ ip s2 h2.
              ends_bind (ok.locks ip (add32 o 1) l (suc r) s2 h2) (λ s3 h3.
                ends_if (not (allowed 3 0 p (k.inode ip s3)))
                  (λ _. give_up-Over k c ok u p ip (add32 o 1) l r s3 h3)
                  (λ _.
                    ends_if (not ((k.inode ip s3).type_ == t_dir))
                      (λ _. give_up-Over k c ok u p ip (add32 o 1) l r s3 h3)
                      (λ _. ends_bind (ok.unlocks ip (add32 o 1) l (suc r) s3 h3) (λ s4 h4.
                        ends_bind (put_old (add32 o 1) s4 h4) (λ s5 h5.
                          ends_bind (ok.ends (add32 o 1) l r s5 h5)
                            (λ s6 h6. ends_done (0, record p { cwd = some ip }, s6) h6)))))))))))
    where
      put_old :
          (o1 : ℕ) (s4 : S)
          → Holds c o1 l (suc r) s4
          → Ends (elim p.cwd [ none ↦ faulted | some e ↦ k.iput e s4 ]) (Holds c o1 l r)
      put_old o1 s4 h4 = ends_option p.cwd (λ n. cc (sym n ∙ cwd)) (λ e _. ok.puts e o1 l r s4 h4)

  -- Whenever `sys_chmod` of a path that names an inode returns, it holds one reference to an inode more
  -- than before, whatever it returns.
  pub sys_chmod-keeps :
      (o l r mode : ℕ) (s : S) (path : List ℕ)
      → argstr 0 u ≡ some path
      → argint 1 u ≡ some mode
      → ((s1 s2 : S) → k.namei p path s1 ≢ done (none, s2))
      → o < word
      → Holds c o l r s
      → Ends (sys_chmod k u p s) (λ q. Holds c o l (suc r) q.2)
  unfolding sys_chmod
  sys_chmod-keeps o l r mode s path arg0 arg1 there small h =
      ends_option (argstr 0 u) (λ n. cc (sym n ∙ arg0))
        (λ path2 e2.
          ends_option (argint 1 u) (λ n. cc (sym n ∙ arg1))
            (λ mode2 _. Over-Holds k c ok u p o l (suc r) _ small (
              ends_bind (ok.begins o l r s h) (λ s1 h1.
                ends_bind (ends_known (ok.names p path2 (add32 o 1) l r s1 h1)) (λ q f.
                  named (add32 o 1) mode2 q
                    (λ s2 n.
                      there s1 s2
                        (ap (λ x. k.namei p x s1) (some_inj _ _ (sym arg0 ∙ e2)) ∙ f.0 ∙ ap done n))
                    f.1)))))
    where
      closed :
          (o1 ip q : ℕ) (s2 : S)
          → Holds c o1 (suc l) (suc r) s2
          → Ends
              (k.iunlock ip s2 >>= λ s3. k.end_op s3 >>= λ s4. done (q, p, s4))
              (Over k c ok u p o1 l (suc r))
      closed o1 ip q s2 h2 =
          ends_bind (ok.unlocks ip o1 l (suc r) s2 h2)
            (λ s3 h3. ends_bind (ok.ends o1 l (suc r) s3 h3) (λ s4 h4. ends_done (q, p, s4) h4))

      named :
          (o1 mode : ℕ) (q : Option ℕ × S)
          → ((s2 : S) → q ≢ (none, s2))
          → Finds c o1 l r q
          → Ends
              (elim q.0 [
                | none ↦ k.end_op q.1 >>= λ s2. fail p s2
                | some ip ↦ k.ilock ip q.1 >>= λ s2.
                    if not (strcmp p.userid root == 0)
                      && not (strcmp p.userid (k.inode ip s2).userid == 0)
                    then (k.iunlock ip s2 >>= λ s3. k.end_op s3 >>= λ s4. fail p s4)
                    else if (k.inode ip s2).type_ == t_dev
                    then (k.iunlock ip s2 >>= λ s3. k.end_op s3 >>= λ s4. fail p s4)
                    else (chmod k u p ip mode s2 >>= λ s3.
                        k.iunlock ip s3 >>= λ s4. k.end_op s4 >>= λ s5. done (0, p, s5))
              ])
              (Over k c ok u p o1 l (suc r))
      named o1 mode (none, s1) n f = absurd (n s1 refl)
      named o1 mode (some ip, s1) n f = ends_bind (ok.locks ip o1 l (suc r) s1 f) (λ s2 h2.
          ends_if
            (not (strcmp p.userid root == 0) && not (strcmp p.userid (k.inode ip s2).userid == 0))
            (λ _. closed o1 ip (minus 1) s2 h2)
            (λ _.
              ends_if ((k.inode ip s2).type_ == t_dev) (λ _. closed o1 ip (minus 1) s2 h2)
                (λ _.
                  ends_bind
                    (ok.updates ip o1 (suc l) (suc r) _ (
                      ok.sets ip (record (k.inode ip s2) { mode = mode }) o1 (suc l) (suc r) s2 h2))
                    (λ s3 h3. closed o1 ip 0 s3 h3))))
