-- ===== src/Syscall/Linking.antt =====
-- `sys_link` of xv6-public/sysfile.c gives back what it takes.
use ele3021_spring.Common.{ℕ, suc, ◌>>=◌, ◌<◌, List, word, add32, not, ◌==◌, slt}
use ele3021_spring.Proc.{Proc}
use ele3021_spring.Inode.{t_dir}
use ele3021_spring.Sysargs.{User, argstr}
use ele3021_spring.Syscall.{Calls}
use ele3021_spring.Syscall.Ends.{Ends, ends_done, ends_bind, ends_if, ends_option}
use ele3021_spring.Syscall.Counts.{Counts, Holds, IsCounted}
use ele3021_spring.Syscall.Links.{iunlockput, unlink_again, link_rest, sys_link, more_links}
use ele3021_spring.Syscall.Balance.{
  Over, ends_found, iunlockput-Holds, update_links-Holds, give_up-Over, quit-Over,
  unlink_again-Over, Over-Holds, fail-Holds,
}

module _ {S : Type 0} (k : Calls S) (c : Counts S) (ok : IsCounted k c) (u : User) (p : Proc) where
  link_rest-Over :
      (ip o l r : ℕ) (at : ℕ × List ℕ) (s : S)
      → Holds c o l (suc (suc r)) s
      → Ends (link_rest k u p ip at s) (Over k c ok u p o l r)
  unfolding link_rest
  link_rest-Over ip o l r at s h = ends_bind (ok.locks at.0 o l (suc (suc r)) s h) (λ s5 h5.
      ends_if (not ((k.inode at.0 s5).dev == (k.inode ip s5).dev)) (λ _. again s5 h5)
        (λ _.
          ends_bind (ok.links at.0 at.1 (k.inode ip s5).inum o (suc l) (suc (suc r)) s5 h5) (λ q h6.
            ends_if (slt q.0 0) (λ _. again q.1 h6)
              (λ _. ends_bind (iunlockput-Holds k c ok at.0 o l (suc r) q.1 h6) (λ s7 h7.
                ends_bind (ok.puts ip o l r s7 h7)
                  (λ s8 h8. ends_bind (ok.ends o l r s8 h8) (λ s9 h9. ends_done (0, p, s9) h9)))))))
    where
      again :
          (s5 : S)
          → Holds c o (suc l) (suc (suc r)) s5
          → Ends (iunlockput k at.0 s5 >>= λ s6. unlink_again k u p ip s6) (Over k c ok u p o l r)
      again s5 h5 =
          ends_bind (iunlockput-Holds k c ok at.0 o l (suc r) s5 h5)
            (λ s6 h6. unlink_again-Over k c ok u p ip o l r s6 h6)

  -- Whenever `sys_link` returns, it holds as many operations, locks and references as before, whatever
  -- it returns and whichever calls below it fail.
  pub sys_link-Holds :
      (o l r : ℕ) (s : S)
      → o < word
      → Holds c o l r s
      → Ends (sys_link k u p s) (λ q. Holds c o l r q.2)
  unfolding sys_link
  sys_link-Holds o l r s small h =
      ends_option (argstr 0 u) (λ _. fail-Holds k c ok u p o l r s h)
        (λ old _.
          ends_option (argstr 1 u) (λ _. fail-Holds k c ok u p o l r s h)
            (λ new _. Over-Holds k c ok u p o l r _ small (
              ends_bind (ok.begins o l r s h) (λ s1 h1.
                ends_bind (ok.names p old (add32 o 1) l r s1 h1) (λ q f.
                  ends_found c (add32 o 1) l r q f (quit-Over k c ok u p (add32 o 1) l r)
                    (λ ip s2 h2. ends_bind (ok.locks ip (add32 o 1) l (suc r) s2 h2) (λ s3 h3.
                      ends_if ((k.inode ip s3).type_ == t_dir)
                        (λ _. give_up-Over k c ok u p ip (add32 o 1) l r s3 h3)
                        (λ _.
                          ends_bind
                            (update_links-Holds k c ok more_links ip (add32 o 1) (suc l) (suc r) s3
                              h3)
                            (λ s4 h4.
                              ends_bind (ok.unlocks ip (add32 o 1) l (suc r) s4 h4) (λ s5 h5.
                                ends_bind (ok.parents p new (add32 o 1) l (suc r) s5 h5) (λ d g.
                                  ends_found c (add32 o 1) l (suc r) d g
                                    (unlink_again-Over k c ok u p ip (add32 o 1) l r)
                                    (λ at s6 h6.
                                      link_rest-Over ip (add32 o 1) l r at s6 h6))))))))))))
