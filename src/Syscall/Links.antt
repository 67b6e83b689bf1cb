-- ===== src/Syscall/Links.antt =====
-- `sys_link` and `sys_unlink` of xv6-public/sysfile.c.
use ele3021_spring.Common.{
  ℕ, ◌+◌, Bool, List, Outcome, ◌>>=◌, ◌%◌, ◌==◌, ◌∷◌, done, ◌*◌, if◌then◌else◌, ◌||◌, [], true, not,
  panicked, leb, suc, false, replicate, ltb, none, some, slt, length, zero,
}
use ele3021_spring.Proc.{Proc}
use ele3021_spring.Inode.{Inode, t_dir}
use ele3021_spring.Path.{namecmp, dirent_size, dirent_inum}
use ele3021_spring.Sysargs.{User, argstr}
use ele3021_spring.Syscall.{Calls, Reply, fail, allowed}

-- `ip->nlink++` and `ip->nlink--` of a short, and `ip->nlink < 1`.
abbrev pub more_links : Inode → Inode
more_links ip = record ip { nlink = (ip.nlink + 1) % 65536 }

abbrev pub less_links : Inode → Inode
less_links ip = record ip { nlink = (ip.nlink + 65535) % 65536 }

abbrev pub no_links : Inode → Bool
no_links ip = ip.nlink == 0 || leb 32768 ip.nlink

-- "." and "..".
abbrev pub dot : List ℕ
dot = b'.' ∷ []

abbrev pub dot_dot : List ℕ
dot_dot = b'.' ∷ b'.' ∷ []

module _ {S : Type 0} (k : Calls S) where
  abbrev pub iunlockput : ℕ → S → Outcome S
  iunlockput ip s = k.iunlock ip s >>= λ s1. k.iput ip s1

  -- A change of the links of a locked inode, and its `iupdate`.
  abbrev pub update_links : (Inode → Inode) → ℕ → S → Outcome S
  update_links f ip s = k.iupdate ip (k.set_inode ip (f (k.inode ip s)) s)

  module _ (u : User) (p : Proc) where
    -- `iunlockput(ip); end_op(); return -1;`
    abbrev pub give_up : ℕ → S → Reply S
    give_up ip s = iunlockput ip s >>= λ s1. k.end_op s1 >>= λ s2. fail p s2

    -- The end of `sys_link` at the label `bad`.
    abbrev pub unlink_again : ℕ → S → Reply S
    unlink_again ip s = k.ilock ip s >>= λ s1. update_links less_links ip s1 >>= λ s2. give_up ip s2

    -- `sys_link` of the inode `ip`, with its links counted, in the directory and name `at`.
    unfoldable pub link_rest : ℕ → ℕ × List ℕ → S → Reply S
    link_rest ip at s = k.ilock at.0 s >>= λ s5.
        if not ((k.inode at.0 s5).dev == (k.inode ip s5).dev)
        then (iunlockput at.0 s5 >>= λ s6. unlink_again ip s6)
        else (k.dirlink at.0 at.1 (k.inode ip s5).inum s5 >>= λ l.
            if slt l.0 0
            then (iunlockput at.0 l.1 >>= λ s6. unlink_again ip s6)
            else (iunlockput at.0 l.1 >>= λ s6.
                k.iput ip s6 >>= λ s7. k.end_op s7 >>= λ s8. done (0, p, s8)))

    unfoldable pub sys_link : S → Reply S
    unfolding argstr link_rest
    sys_link s = elim (argstr 0 u) [
      | none ↦ fail p s
      | some old ↦ elim (argstr 1 u) [
        | none ↦ fail p s
        | some new ↦ k.begin_op s >>= λ s1. k.namei p old s1 >>= λ r. elim r.0 [
          | none ↦ k.end_op r.1 >>= λ s2. fail p s2
          | some ip ↦ k.ilock ip r.1 >>= λ s2.
              if (k.inode ip s2).type_ == t_dir
              then give_up ip s2
              else (update_links more_links ip s2 >>= λ s3. k.iunlock ip s3 >>= λ s4.
                  k.nameiparent p new s4 >>= λ d. elim d.0 [
                    | none ↦ unlink_again ip d.1
                    | some at ↦ link_rest ip at d.1
                  ])
        ]
      ]
    ]

  -- The loop of `isdirempty` with fuel, from offset `off` on.
  unfoldable pub empty_from : ℕ → ℕ → ℕ → S → Outcome (Bool × S)
  empty_from zero off dp s = done (true, s)
  empty_from (suc fuel) off dp s = elim (ltb off (k.inode dp s).size) [
    | false ↦ done (true, s)
    | true ↦ k.readi dp off dirent_size s >>= λ r. elim r.0 [
      | none ↦ panicked
      | some de ↦ elim (length de == dirent_size) [
        | false ↦ panicked
        | true ↦ elim (dirent_inum de == 0) [
          | false ↦ done (false, r.1)
          | true ↦ empty_from fuel (off + dirent_size) dp r.1
        ]
      ]
    ]
  ]

  unfoldable pub isdirempty : ℕ → S → Outcome (Bool × S)
  unfolding empty_from
  isdirempty dp s = empty_from ((k.inode dp s).size + 1) (2 * dirent_size) dp s

  -- `ip->type == T_DIR && !isdirempty(ip)`
  unfoldable pub in_use : ℕ → S → Outcome (Bool × S)
  unfolding isdirempty
  in_use ip s =
      if (k.inode ip s).type_ == t_dir
      then (isdirempty ip s >>= λ r. done (not r.0, r.1))
      else done (false, s)

  module _ (u : User) (p : Proc) where
    -- `sys_unlink` of the inode `ip`, in the locked directory `dp` at offset `off`.
    unfoldable pub unlink_entry : ℕ → ℕ → ℕ → S → Reply S
    unfolding in_use
    unlink_entry dp ip off s = k.ilock ip s >>= λ s1.
        if no_links (k.inode ip s1)
        then panicked
        else (in_use ip s1 >>= λ e.
            if e.0
            then (iunlockput ip e.1 >>= λ s2. give_up u p dp s2)
            else (k.writei dp (replicate dirent_size 0) off e.1 >>= λ w. elim w.0 [
              | none ↦ panicked
              | some n ↦
                  if not (n == dirent_size)
                  then panicked
                  else ((if (k.inode ip w.1).type_ == t_dir
                        then update_links less_links dp w.1
                        else done w.1)
                      >>= λ s2. iunlockput dp s2 >>= λ s3. update_links less_links ip s3 >>= λ s4.
                          iunlockput ip s4 >>= λ s5. k.end_op s5 >>= λ s6. done (0, p, s6))
            ]))

    unfoldable pub sys_unlink : S → Reply S
    unfolding argstr allowed namecmp unlink_entry
    sys_unlink s = elim (argstr 0 u) [
      | none ↦ fail p s
      | some path ↦ k.begin_op s >>= λ s1. k.nameiparent p path s1 >>= λ d. elim d.0 [
        | none ↦ k.end_op d.1 >>= λ s2. fail p s2
        | some at ↦ k.ilock at.0 d.1 >>= λ s2.
            if not (allowed 4 1 p (k.inode at.0 s2))
            then give_up u p at.0 s2
            else if namecmp at.1 dot == 0 || namecmp at.1 dot_dot == 0
            then give_up u p at.0 s2
            else (k.dirlookup at.0 at.1 s2 >>= λ r. elim r.0 [
              | none ↦ give_up u p at.0 r.1
              | some e ↦ unlink_entry at.0 e.0 e.1 r.1
            ])
      ]
    ]
