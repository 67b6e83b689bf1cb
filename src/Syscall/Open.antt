-- ===== src/Syscall/Open.antt =====
-- `create`, `sys_open`, `sys_mkdir`, `sys_mknod` and `sys_chdir` of xv6-public/sysfile.c, and
-- `sys_chmod` of xv6-public/PRJ03_syscall.c.
use ele3021_spring.Common.{
  ℕ, Outcome, List, Bool, ◌>>=◌, Option, done, if◌then◌else◌, none, not, slt, ◌==◌, ◌&&◌, panicked,
  some, true, ◌||◌, ◌%◌, faulted,
}
use ele3021_spring.CString.{strcmp, strcpy}
use ele3021_spring.Users.{root}
use ele3021_spring.Proc.{Proc}
use ele3021_spring.Fs.{test_bit}
use ele3021_spring.Inode.{Inode, t_dir, t_file, t_dev}
use ele3021_spring.File.{fd_inode}
use ele3021_spring.Sysargs.{User, argstr, argint}
use ele3021_spring.Syscall.{Calls, Reply, fail, allowed, fdalloc}
use ele3021_spring.Syscall.Links.{iunlockput, give_up, update_links, more_links, dot, dot_dot}

-- `O_CREATE`, `O_WRONLY` and `O_RDWR` as bits of the mode of `open`.
abbrev pub o_create : ℕ → Bool
o_create omode = test_bit omode 9

abbrev pub o_wronly : ℕ → Bool
o_wronly omode = test_bit omode 0

abbrev pub o_rdwr : ℕ → Bool
o_rdwr omode = test_bit omode 1

-- The permission that `open` without O_CREATE needs.
unfoldable pub may_open : ℕ → Proc → Inode → Bool
unfolding allowed
may_open omode p ip =
    if omode == 0
    then allowed 5 2 p ip
    else if omode == 1
    then allowed 4 1 p ip
    else if omode == 2
    then allowed 4 1 p ip && allowed 5 2 p ip
    else true

module _ {S : Type 0} (k : Calls S) where
  -- `create` where it is denied: `iunlockput(ip); end_op(); return 0;`
  abbrev pub deny : ℕ → S → Outcome (Option ℕ × S)
  deny ip s = iunlockput k ip s >>= λ s1. k.end_op s1 >>= λ s2. done (none, s2)

  -- `create` where the name exists, as the inode `ip`.
  unfoldable pub create_old : Proc → ℕ → ℕ → ℕ → S → Outcome (Option ℕ × S)
  unfolding allowed
  create_old p type dp ip s = iunlockput k dp s >>= λ s1. k.ilock ip s1 >>= λ s2.
      if not (allowed 4 1 p (k.inode ip s2))
      then deny ip s2
      else if type == t_file && (k.inode ip s2).type_ == t_file
      then done (some ip, s2)
      else (iunlockput k ip s2 >>= λ s3. done (none, s3))

  -- "." and ".." in a new directory `ip`.
  unfoldable pub link_dots : ℕ → ℕ → S → Outcome S
  link_dots dp ip s = update_links k more_links dp s >>= λ s1.
      k.dirlink ip dot (k.inode ip s1).inum s1 >>= λ r.
      if slt r.0 0
      then panicked
      else (k.dirlink ip dot_dot (k.inode dp r.1).inum r.1 >>= λ q.
          if slt q.0 0 then panicked else done q.1)

  -- `create` where the name is new.
  unfoldable pub create_new : Proc → List ℕ → ℕ → ℕ → ℕ → ℕ → S → Outcome (Option ℕ × S)
  unfolding allowed strcpy link_dots
  create_new p name type major minor dp s =
      if not (allowed 4 1 p (k.inode dp s))
      then deny dp s
      else (k.ialloc (k.inode dp s).dev type s >>= λ a. k.ilock a.0 a.1 >>= λ s1.
          let ip = k.inode a.0 s1 in
          let ip1 = record ip {
            major = major;
            minor = minor;
            nlink = 1;
            userid = strcpy ip.userid 0 p.userid;
          } in
          k.iupdate a.0 (k.set_inode a.0 ip1 s1) >>= λ s2.
          (if type == t_dir then link_dots dp a.0 s2 else done s2) >>= λ s3.
          k.dirlink dp name (k.inode a.0 s3).inum s3 >>= λ r.
          if slt r.0 0 then panicked else (iunlockput k dp r.1 >>= λ s4. done (some a.0, s4)))

  unfoldable pub create : Proc → List ℕ → ℕ → ℕ → ℕ → S → Outcome (Option ℕ × S)
  unfolding create_old create_new
  create p path type major minor s = k.nameiparent p path s >>= λ d. elim d.0 [
    | none ↦ done (none, d.1)
    | some at ↦ k.ilock at.0 d.1 >>= λ s1. k.dirlookup at.0 at.1 s1 >>= λ r. elim r.0 [
      | some e ↦ create_old p type at.0 e.0 r.1
      | none ↦ create_new p at.1 type major minor at.0 r.1
    ]
  ]

  module _ (u : User) (p : Proc) where
    -- The end of `sys_open`, with the inode `ip` locked.
    unfoldable pub open_inode : ℕ → ℕ → S → Reply S
    unfolding fdalloc test_bit
    open_inode omode ip s = k.filealloc s >>= λ r. elim r.0 [
      | none ↦ give_up k u p ip r.1
      | some f ↦ elim (fdalloc f p) [
        | none ↦ k.fileclose f r.1 >>= λ s1. give_up k u p ip s1
        | some a ↦ k.iunlock ip r.1 >>= λ s1. k.end_op s1 >>= λ s2. done (
          a.0,
          a.1,
          k.set_file f
              (λ x. record x {
                type_ = fd_inode;
                ip = ip;
                off = 0;
                readable = if o_wronly omode then 0 else 1;
                writable = if o_wronly omode || o_rdwr omode then 1 else 0;
              })
              s2,
        )
      ]
    ]

    unfoldable pub sys_open : S → Reply S
    unfolding argstr argint create may_open open_inode
    sys_open s = elim (argstr 0 u) [
      | none ↦ fail p s
      | some path ↦ elim (argint 1 u) [
        | none ↦ fail p s
        | some omode ↦ k.begin_op s >>= λ s1.
            if o_create omode
            then (create p path t_file 0 0 s1 >>= λ r. elim r.0 [
              | none ↦ k.end_op r.1 >>= λ s2. fail p s2
              | some ip ↦ open_inode omode ip r.1
            ])
            else (k.namei p path s1 >>= λ r. elim r.0 [
              | none ↦ k.end_op r.1 >>= λ s2. fail p s2
              | some ip ↦ k.ilock ip r.1 >>= λ s2.
                  if not (may_open omode p (k.inode ip s2))
                  then give_up k u p ip s2
                  else if (k.inode ip s2).type_ == t_dir && not (omode == 0)
                  then give_up k u p ip s2
                  else open_inode omode ip s2
            ])
      ]
    ]

    -- The end of `sys_mkdir` and `sys_mknod` after `create`.
    abbrev pub created : Option ℕ × S → Reply S
    created r = elim r.0 [
      | none ↦ k.end_op r.1 >>= λ s1. fail p s1
      | some ip ↦ iunlockput k ip r.1 >>= λ s1. k.end_op s1 >>= λ s2. done (0, p, s2)
    ]

    unfoldable pub sys_mkdir : S → Reply S
    unfolding argstr create
    sys_mkdir s = k.begin_op s >>= λ s1. elim (argstr 0 u) [
      | none ↦ k.end_op s1 >>= λ s2. fail p s2
      | some path ↦ create p path t_dir 0 0 s1 >>= λ r. created r
    ]

    unfoldable pub sys_mknod : S → Reply S
    unfolding argstr argint create
    sys_mknod s = k.begin_op s >>= λ s1. elim (argstr 0 u) [
      | none ↦ k.end_op s1 >>= λ s2. fail p s2
      | some path ↦ elim (argint 1 u) [
        | none ↦ k.end_op s1 >>= λ s2. fail p s2
        | some major ↦ elim (argint 2 u) [
          | none ↦ k.end_op s1 >>= λ s2. fail p s2
          | some minor ↦ create p path t_dev (major % 65536) (minor % 65536) s1 >>= λ r. created r
        ]
      ]
    ]

    unfoldable pub sys_chdir : S → Reply S
    unfolding argstr allowed
    sys_chdir s = k.begin_op s >>= λ s1. elim (argstr 0 u) [
      | none ↦ k.end_op s1 >>= λ s2. fail p s2
      | some path ↦ k.namei p path s1 >>= λ r. elim r.0 [
        | none ↦ k.end_op r.1 >>= λ s2. fail p s2
        | some ip ↦ k.ilock ip r.1 >>= λ s2.
            if not (allowed 3 0 p (k.inode ip s2))
            then give_up k u p ip s2
            else if not ((k.inode ip s2).type_ == t_dir)
            then give_up k u p ip s2
            else (k.iunlock ip s2 >>= λ s3.
                elim p.cwd [ none ↦ faulted | some d ↦ k.iput d s3 ] >>= λ s4.
                k.end_op s4 >>= λ s5. done (0, record p { cwd = some ip }, s5))
      ]
    ]

    -- `sys_chmod` after its tests: `chmod`.
    abbrev pub chmod : ℕ → ℕ → S → Outcome S
    chmod ip mode s = k.iupdate ip (k.set_inode ip (record (k.inode ip s) { mode = mode }) s)

    unfoldable pub sys_chmod : S → Reply S
    unfolding argstr argint strcmp
    sys_chmod s = elim (argstr 0 u) [
      | none ↦ fail p s
      | some path ↦ elim (argint 1 u) [
        | none ↦ fail p s
        | some mode ↦ k.begin_op s >>= λ s1. k.namei p path s1 >>= λ r. elim r.0 [
          | none ↦ k.end_op r.1 >>= λ s2. fail p s2
          | some ip ↦ k.ilock ip r.1 >>= λ s2.
              if not (strcmp p.userid root == 0)
                && not (strcmp p.userid (k.inode ip s2).userid == 0)
              then (k.iunlock ip s2 >>= λ s3. k.end_op s3 >>= λ s4. fail p s4)
              else if (k.inode ip s2).type_ == t_dev
              then (k.iunlock ip s2 >>= λ s3. k.end_op s3 >>= λ s4. fail p s4)
              else (chmod ip mode s2 >>= λ s3.
                  k.iunlock ip s3 >>= λ s4. k.end_op s4 >>= λ s5. done (0, p, s5))
        ]
      ]
    ]
