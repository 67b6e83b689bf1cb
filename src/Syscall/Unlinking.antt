-- ===== src/Syscall/Unlinking.antt =====
-- `sys_unlink` of xv6-public/sysfile.c gives back what it takes.
use ele3021_spring.Common.{
  ℕ, none, some, panicked, Option, true, ◌==◌, suc, ◌<◌, List, ltb, ◌+◌, if◌then◌else◌, word,
  Outcome, false, ◌*◌, done, ◌>>=◌, length, zero, not, add32, ◌||◌, replicate,
}
use ele3021_spring.Proc.{Proc}
use ele3021_spring.Inode.{t_dir}
use ele3021_spring.Path.{dirent_size, dirent_inum, namecmp}
use ele3021_spring.Sysargs.{User, argstr}
use ele3021_spring.Syscall.{Calls, allowed}
use ele3021_spring.Syscall.Ends.{
  Ends, ends_done, ends_if, ends_option, ends_bind, ends_bool, ends_panic,
}
use ele3021_spring.Syscall.Counts.{Counts, Holds, Finds, IsCounted}
use ele3021_spring.Syscall.Links.{
  iunlockput, update_links, give_up, empty_from, isdirempty, in_use, unlink_entry, sys_unlink,
  no_links, less_links, dot, dot_dot,
}
use ele3021_spring.Syscall.Balance.{
  Over, ends_found, iunlockput-Holds, update_links-Holds, give_up-Over, quit-Over, Over-Holds,
  fail-Holds,
}

module _ {S : Type 0} (k : Calls S) (c : Counts S) (ok : IsCounted k c) where
  -- An entry that is not whole panics.
  whole :
      {A : Type 0} {P : A → Type 0} (m : Option (List ℕ)) {f : List ℕ → Outcome A}
      → ((de : List ℕ) → Ends (f de) P)
      → Ends
          (elim m [
            | none ↦ panicked
            | some de ↦ elim (length de == dirent_size) [ false ↦ panicked | true ↦ f de ]
          ])
          P
  whole none f = ends_panic
  whole (some de) f = ends_bool (length de == dirent_size) (λ _. f de) (λ n. ends_panic)

  empty_from-Holds :
      (fuel off dp o l r : ℕ) (s : S)
      → Holds c o l r s
      → Ends (empty_from k fuel off dp s) (λ q. Holds c o l r q.1)
  unfolding empty_from
  empty_from-Holds zero off dp o l r s h = ends_done (true, s) h
  empty_from-Holds (suc fuel) off dp o l r s h =
      ends_bool (ltb off (k.inode dp s).size)
        (λ _. ends_bind (ok.reads dp off o l r s h) (λ q e. whole q.0 (λ de.
          ends_bool (dirent_inum de == 0)
            (λ _. empty_from-Holds fuel (off + dirent_size) dp o l r q.1 e)
            (λ _. ends_done (false, q.1) e))))
        (λ _. ends_done (true, s) h)

  in_use-Holds :
      (ip o l r : ℕ) (s : S) → Holds c o l r s → Ends (in_use k ip s) (λ q. Holds c o l r q.1)
  unfolding in_use isdirempty
  in_use-Holds ip o l r s h =
      ends_if ((k.inode ip s).type_ == t_dir)
        (λ _.
          ends_bind (empty_from-Holds ((k.inode ip s).size + 1) (2 * dirent_size) ip o l r s h)
            (λ q e. ends_done (not q.0, q.1) e))
        (λ _. ends_done (false, s) h)

  module _ (u : User) (p : Proc) where
    -- After the entry was cleared.
    cleared-Over :
        (dp ip o l r : ℕ) (s : S)
        → Holds c o (suc (suc l)) (suc (suc r)) s
        → Ends
            ((if (k.inode ip s).type_ == t_dir then update_links k less_links dp s else done s)
              >>= λ s2. iunlockput k dp s2 >>= λ s3. update_links k less_links ip s3 >>= λ s4.
                  iunlockput k ip s4 >>= λ s5. k.end_op s5 >>= λ s6. done (0, p, s6))
            (Over k c ok u p o l r)
    cleared-Over dp ip o l r s h =
        ends_bind
          (ends_if ((k.inode ip s).type_ == t_dir)
            (λ _. update_links-Holds k c ok less_links dp o (suc (suc l)) (suc (suc r)) s h)
            (λ _. ends_done s h))
          (λ s2 h2. ends_bind (iunlockput-Holds k c ok dp o (suc l) (suc r) s2 h2) (λ s3 h3.
            ends_bind (update_links-Holds k c ok less_links ip o (suc l) (suc r) s3 h3) (λ s4 h4.
              ends_bind (iunlockput-Holds k c ok ip o l r s4 h4)
                (λ s5 h5. ends_bind (ok.ends o l r s5 h5) (λ s6 h6. ends_done (0, p, s6) h6)))))

    unlink_entry-Over :
        (dp ip off o l r : ℕ) (s : S)
        → Holds c o (suc l) (suc (suc r)) s
        → Ends (unlink_entry k u p dp ip off s) (Over k c ok u p o l r)
    unfolding unlink_entry
    unlink_entry-Over dp ip off o l r s h =
        ends_bind (ok.locks ip o (suc l) (suc (suc r)) s h) (λ s1 h1.
          ends_if (no_links (k.inode ip s1)) (λ n. ends_panic)
            (λ _. ends_bind (in_use-Holds ip o (suc (suc l)) (suc (suc r)) s1 h1) (λ q h2.
              ends_if q.0
                (λ _.
                  ends_bind (iunlockput-Holds k c ok ip o (suc l) (suc r) q.1 h2)
                    (λ s2 h3. give_up-Over k c ok u p dp o l r s2 h3))
                (λ _.
                  ends_bind
                    (ok.writes dp off o (suc (suc l)) (suc (suc r)) (replicate dirent_size 0) q.1
                      h2)
                    (λ w h3. written w h3)))))
      where
        written :
            (w : Option ℕ × S)
            → Holds c o (suc (suc l)) (suc (suc r)) w.1
            → Ends
                (elim w.0 [
                  | none ↦ panicked
                  | some n ↦
                      if not (n == dirent_size)
                      then panicked
                      else ((if (k.inode ip w.1).type_ == t_dir
                            then update_links k less_links dp w.1
                            else done w.1)
                          >>= λ s2. iunlockput k dp s2 >>= λ s3.
                              update_links k less_links ip s3 >>= λ s4.
                              iunlockput k ip s4 >>= λ s5. k.end_op s5 >>= λ s6. done (0, p, s6))
                ])
                (Over k c ok u p o l r)
        written (none, s2) h3 = ends_panic
        written (some n, s2) h3 =
            ends_if (not (n == dirent_size)) (λ b. ends_panic) (λ _. cleared-Over dp ip o l r s2 h3)

    -- Whenever `sys_unlink` returns, it holds as many operations, locks and references as before,
    -- whatever it returns and whichever calls below it fail.
    pub sys_unlink-Holds :
        (o l r : ℕ) (s : S)
        → o < word
        → Holds c o l r s
        → Ends (sys_unlink k u p s) (λ q. Holds c o l r q.2)
    unfolding sys_unlink
    sys_unlink-Holds o l r s small h =
        ends_option (argstr 0 u) (λ _. fail-Holds k c ok u p o l r s h)
          (λ path _. Over-Holds k c ok u p o l r _ small (
            ends_bind (ok.begins o l r s h) (λ s1 h1.
              ends_bind (ok.parents p path (add32 o 1) l r s1 h1) (λ d g.
                ends_found c (add32 o 1) l r d g (quit-Over k c ok u p (add32 o 1) l r) (λ at s2 h2.
                  ends_bind (ok.locks at.0 (add32 o 1) l (suc r) s2 h2) (λ s3 h3.
                    ends_if (not (allowed 4 1 p (k.inode at.0 s3)))
                      (λ _. give_up-Over k c ok u p at.0 (add32 o 1) l r s3 h3)
                      (λ _.
                        ends_if (namecmp at.1 dot == 0 || namecmp at.1 dot_dot == 0)
                          (λ _. give_up-Over k c ok u p at.0 (add32 o 1) l r s3 h3)
                          (λ _. entry at (add32 o 1) s3 h3))))))))
      where
        entry :
            (at : ℕ × List ℕ) (o1 : ℕ) (s3 : S)
            → Holds c o1 (suc l) (suc r) s3
            → Ends
                (k.dirlookup at.0 at.1 s3 >>= λ q. elim q.0 [
                  | none ↦ give_up k u p at.0 q.1
                  | some e ↦ unlink_entry k u p at.0 e.0 e.1 q.1
                ])
                (Over k c ok u p o1 l r)
        entry at o1 s3 h3 = ends_bind (ok.lookups at.0 at.1 o1 (suc l) (suc r) s3 h3) found
          where
            found :
                (q : Option (ℕ × ℕ) × S)
                → Finds c o1 (suc l) (suc r) q
                → Ends
                    (elim q.0 [
                      | none ↦ give_up k u p at.0 q.1
                      | some e ↦ unlink_entry k u p at.0 e.0 e.1 q.1
                    ])
                    (Over k c ok u p o1 l r)
            found (none, s4) f = give_up-Over k c ok u p at.0 o1 l r s4 f
            found (some x, s4) f = unlink_entry-Over at.0 x.0 x.1 o1 l r s4 f
