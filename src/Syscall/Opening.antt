-- ===== src/Syscall/Opening.antt =====
-- `create` and `sys_mkdir` of xv6-public/sysfile.c: what they give back. `create` ends its caller's
-- operation where it is denied.
use ele3021_spring.Common.{
  ℕ, none, some, panicked, ◌⊎◌, inl, inr, Option, suc, List, ◌≡◌, ◌<◌, sub32, not, Outcome, minus,
  word, ◌==◌, ◌>>=◌, add32, ◌&&◌, if◌then◌else◌, ◌∙◌, slt, arith, refl,
}
use ele3021_spring.Proc.{Proc}
use ele3021_spring.Inode.{t_dir, t_file}
use ele3021_spring.Sysargs.{User, argstr}
use ele3021_spring.Syscall.{Calls, allowed}
use ele3021_spring.Syscall.Ends.{Ends, ends_done, ends_if, ends_option, ends_bind, ends_panic}
use ele3021_spring.Syscall.Counts.{Counts, Holds, Finds, IsCounted}
use ele3021_spring.Syscall.Links.{more_links, dot, dot_dot}
use ele3021_spring.Syscall.Open.{
  create, create_old, create_new, link_dots, deny, created, sys_mkdir,
}
use ele3021_spring.Syscall.Balance.{ends_found, iunlockput-Holds, update_links-Holds}

-- What `create` leaves: a locked inode with a reference, or nothing; or nothing, with its caller's
-- operation ended.
abbrev pub Creates : {S : Type 0} → Counts S → ℕ → ℕ → ℕ → Option ℕ × S → Type 0
Creates c o l r (some ip, s) = Holds c o (suc l) (suc r) s
Creates c o l r (none, s) = Holds c o l r s ⊎ Holds c (sub32 o 1) l r s

module _ {S : Type 0} (k : Calls S) (c : Counts S) (ok : IsCounted k c) where
  pub deny-Creates :
      (ip o l r : ℕ) (s : S) → Holds c o (suc l) (suc r) s → Ends (deny k ip s) (Creates c o l r)
  deny-Creates ip o l r s h =
      ends_bind (iunlockput-Holds k c ok ip o l r s h)
        (λ s1 h1. ends_bind (ok.ends o l r s1 h1) (λ s2 h2. ends_done (none, s2) (inr h2)))

  create_old-Creates :
      (p : Proc) (type dp ip o l r : ℕ) (s : S)
      → Holds c o (suc l) (suc (suc r)) s
      → Ends (create_old k p type dp ip s) (Creates c o l r)
  unfolding create_old
  create_old-Creates p type dp ip o l r s h =
      ends_bind (iunlockput-Holds k c ok dp o l (suc r) s h) (λ s1 h1.
        ends_bind (ok.locks ip o l (suc r) s1 h1) (λ s2 h2.
          ends_if (not (allowed 4 1 p (k.inode ip s2))) (λ _. deny-Creates ip o l r s2 h2)
            (λ _.
              ends_if (type == t_file && (k.inode ip s2).type_ == t_file)
                (λ _. ends_done (some ip, s2) h2)
                (λ _.
                  ends_bind (iunlockput-Holds k c ok ip o l r s2 h2)
                    (λ s3 h3. ends_done (none, s3) (inl h3))))))

  -- A link that fails panics.
  link :
      {A : Type 0} {P : A → Type 0} (dp : ℕ) (name : List ℕ) (inum o l r : ℕ) (s : S)
      {f : S → Outcome A}
      → Holds c o l r s
      → ((s1 : S) → Holds c o l r s1 → Ends (f s1) P)
      → Ends (k.dirlink dp name inum s >>= λ q. if slt q.0 0 then panicked else f q.1) P
  link dp name inum o l r s h f =
      ends_bind (ok.links dp name inum o l r s h)
        (λ q e. ends_if (slt q.0 0) (λ n. ends_panic) (λ _. f q.1 e))

  link_dots-Holds :
      (dp ip o l r : ℕ) (s : S) → Holds c o l r s → Ends (link_dots k dp ip s) (Holds c o l r)
  unfolding link_dots
  link_dots-Holds dp ip o l r s h =
      ends_bind (update_links-Holds k c ok more_links dp o l r s h) (λ s1 h1.
        link ip dot (k.inode ip s1).inum o l r s1 h1
          (λ s2 h2. link ip dot_dot (k.inode dp s2).inum o l r s2 h2 (λ s3 h3. ends_done s3 h3)))

  create_new-Creates :
      (p : Proc) (name : List ℕ) (type major minor dp o l r : ℕ) (s : S)
      → Holds c o (suc l) (suc r) s
      → Ends (create_new k p name type major minor dp s) (Creates c o l r)
  unfolding create_new
  create_new-Creates p name type major minor dp o l r s h =
      ends_if (not (allowed 4 1 p (k.inode dp s))) (λ _. deny-Creates dp o l r s h)
        (λ _. ends_bind (ok.allocs (k.inode dp s).dev type o (suc l) (suc r) s h) (λ a h1.
          ends_bind (ok.locks a.0 o (suc l) (suc (suc r)) a.1 h1) (λ s1 h2.
            ends_bind
              (ok.updates a.0 o (suc (suc l)) (suc (suc r)) _
                (ok.sets a.0 _ o (suc (suc l)) (suc (suc r)) s1 h2))
              (λ s2 h3.
                ends_bind
                  (ends_if (type == t_dir)
                    (λ _. link_dots-Holds dp a.0 o (suc (suc l)) (suc (suc r)) s2 h3)
                    (λ _. ends_done s2 h3))
                  (λ s3 h4.
                    link dp name (k.inode a.0 s3).inum o (suc (suc l)) (suc (suc r)) s3 h4 (λ s4 h5.
                      ends_bind (iunlockput-Holds k c ok dp o (suc l) (suc r) s4 h5)
                        (λ s5 h6. ends_done (some a.0, s5) h6)))))))

  pub create-Creates :
      (p : Proc) (path : List ℕ) (type major minor o l r : ℕ) (s : S)
      → Holds c o l r s
      → Ends (create k p path type major minor s) (Creates c o l r)
  unfolding create
  create-Creates p path type major minor o l r s h = ends_bind (ok.parents p path o l r s h) (λ d g.
      ends_found c o l r d g (λ s1 h1. ends_done (none, s1) (inl h1))
        (λ at s1 h1. ends_bind (ok.locks at.0 o l (suc r) s1 h1) (λ s2 h2.
          ends_bind (ok.lookups at.0 at.1 o (suc l) (suc r) s2 h2) (λ q f. looked at q f))))
    where
      looked :
          (at : ℕ × List ℕ) (q : Option (ℕ × ℕ) × S)
          → Finds c o (suc l) (suc r) q
          → Ends
              (elim q.0 [
                | some e ↦ create_old k p type at.0 e.0 q.1
                | none ↦ create_new k p at.1 type major minor at.0 q.1
              ])
              (Creates c o l r)
      looked at (none, s1) f = create_new-Creates p at.1 type major minor at.0 o l r s1 f
      looked at (some e, s1) f = create_old-Creates p type at.0 e.0 o l r s1 f

  module _ (u : User) (p : Proc) where
    -- A call that gave all back, or returned -1 after it ended one operation too many.
    abbrev pub OverTwice : ℕ → ℕ → ℕ → ℕ × Proc × S → Type 0
    OverTwice o l r q = Holds c o l r q.2 ⊎ ((q.0 ≡ minus 1) × Holds c (sub32 o 1) l r q.2)

    pub created-OverTwice :
        (o l r : ℕ) (q : Option ℕ × S)
        → o < word
        → Creates c (add32 o 1) l r q
        → Ends (created k u p q) (OverTwice o l r)
    created-OverTwice o l r (some ip, s) small h =
        ends_bind (iunlockput-Holds k c ok ip (add32 o 1) l r s h) (λ s1 h1.
          ends_bind (ok.ends (add32 o 1) l r s1 h1)
            (λ s2 h2. ends_done (0, p, s2) (inl (h2.0 ∙ omega (arith, small), h2.1, h2.2))))
    created-OverTwice o l r (none, s) small (inl h) =
        ends_bind (ok.ends (add32 o 1) l r s h)
          (λ s2 h2. ends_done (minus 1, p, s2) (inl (h2.0 ∙ omega (arith, small), h2.1, h2.2)))
    created-OverTwice o l r (none, s) small (inr h) =
        ends_bind (ok.ends (sub32 (add32 o 1) 1) l r s h) (λ s2 h2.
          ends_done (minus 1, p, s2) (inr (refl, (h2.0 ∙ omega (arith, small), h2.1, h2.2))))

    -- Whenever `sys_mkdir` returns, it leaves as many operations, locks and references as before, or -1
    -- and one operation ended too many.
    pub sys_mkdir-OverTwice :
        (o l r : ℕ) (s : S)
        → o < word
        → Holds c o l r s
        → Ends (sys_mkdir k u p s) (OverTwice o l r)
    unfolding sys_mkdir
    sys_mkdir-OverTwice o l r s small h = ends_bind (ok.begins o l r s h) (λ s1 h1.
        ends_option (argstr 0 u)
          (λ _.
            ends_bind (ok.ends (add32 o 1) l r s1 h1)
              (λ s2 h2. ends_done (minus 1, p, s2) (inl (h2.0 ∙ omega (arith, small), h2.1, h2.2))))
          (λ path _.
            ends_bind (create-Creates p path t_dir 0 0 (add32 o 1) l r s1 h1)
              (λ q f. created-OverTwice o l r q small f)))
