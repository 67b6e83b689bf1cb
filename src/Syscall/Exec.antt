-- ===== src/Syscall/Exec.antt =====
-- `sys_exec` of xv6-public/sysfile.c.
use ele3021_spring.Common.{
  ℕ, Option, List, none, suc, some, add32, ◌*◌, ◌==◌, true, false, [], ◌∷◌, zero,
}
use ele3021_spring.Proc.{Proc}
use ele3021_spring.Sysargs.{User, argstr, argint, fetchint, fetchstr}
use ele3021_spring.Syscall.{Calls, Reply, fail}

abbrev pub maxarg : ℕ
maxarg = 32

-- The loop over the vector of arguments at `uargv`, with `n` places of `argv` left, from entry `i` on.
unfoldable pub fetch_argv : ℕ → ℕ → ℕ → User → Option (List (List ℕ))
unfolding fetchint fetchstr
fetch_argv zero i uargv u = none
fetch_argv (suc n) i uargv u = elim (fetchint (add32 uargv (4 * i)) u) [
  | none ↦ none
  | some uarg ↦ elim (uarg == 0) [
    | true ↦ some []
    | false ↦ elim (fetchstr uarg u) [
      | none ↦ none
      | some arg ↦ elim (fetch_argv n (suc i) uargv u) [
        | none ↦ none
        | some rest ↦ some (arg ∷ rest)
      ]
    ]
  ]
]

unfoldable pub sys_exec : {S : Type 0} → Calls S → User → Proc → S → Reply S
unfolding argstr argint fetch_argv
sys_exec k u p s = elim (argstr 0 u) [
  | none ↦ fail p s
  | some path ↦ elim (argint 1 u) [
    | none ↦ fail p s
    | some uargv ↦ elim (fetch_argv maxarg 0 uargv u) [
      | none ↦ fail p s
      | some argv ↦ k.exec path argv p s
    ]
  ]
]
