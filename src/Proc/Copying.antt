-- ===== src/Proc/Copying.antt =====
-- The copying that `fork` of xv6-public/proc.c does for the child.
use ele3021_spring.Common.{
  ℕ, ◌≡◌, ◌+◌, refl, ◌∙◌, ap, List, Option, some, get_elem?, false, done, ◌>>=◌, Outcome, ◌<◌, leb,
  arith,
}
use ele3021_spring.Mlfq.{modify}
use ele3021_spring.CString.{safestrcpy, strlen}
use ele3021_spring.Proc.{Proc, runnable}
use ele3021_spring.Proc.Slots.{get_elem?-modify, modify-modify}
use ele3021_spring.Proc.Lock.{acquire, release}
use ele3021_spring.Proc.Life.{Kernel, World, trapframe_size}
use ele3021_spring.Proc.Family.{inherit, dup_files, dup_cwd, fork_child, frame_eax, userid_size}

-- The child's slot when `fork` is done.
abbrev pub made : ℕ → ℕ → Proc → List ℕ → List (Option ℕ) → Proc → Proc
made pgdir cur c username files q =
    let p = inherit pgdir cur c username q in
    record p { ofile = files; cwd = c.cwd; name = safestrcpy p.name 0 c.name 16; state = runnable }

pub made-pid :
    (pgdir cur : ℕ) (c : Proc) (username : List ℕ) (files : List (Option ℕ)) (q : Proc)
    → (made pgdir cur c username files q).pid ≡ q.pid
unfolding inherit
made-pid pgdir cur c username files q = refl

module _ {S : Type 0} (k : Kernel S) where
  pub fork_child-done :
      (i cur : ℕ) (c : Proc) (username : List ℕ) (pgdir : ℕ) (w : World S) (np : Proc)
      → get_elem? w.table.proc i ≡ some np
      → w.table.locked ≡ false
      → strlen username < userid_size
      → (files : List (Option ℕ)) (s3 s4 : S)
      → dup_files k c.ofile np.ofile
          (k.store (np.tf + frame_eax) 0 (k.copy np.tf c.tf trapframe_size w.rest))
        ≡ done (files, s3)
      → dup_cwd k c.cwd s3 ≡ done s4
      → (fork_child k i cur c username pgdir w
          ≡ done (
            np.pid,
            record {
              table = record w.table {
                proc = modify i (made pgdir cur c username files) w.table.proc;
              };
              rest = s4;
            },
          ))
  unfolding fork_child acquire release inherit
  fork_child-done i cur c username pgdir w np here free short files s3 s4 d e =
      rw (fork_child, fits, g, ◌>>=◌, dups, e, acquire, free) (ap result tables)
    where
      fits : leb userid_size (strlen username) ≡ false
      fits = ground (arith, short)

      dups :
          dup_files k c.ofile (inherit pgdir cur c username np).ofile (
            k.store
              ((inherit pgdir cur c username np).tf + frame_eax)
              0
              (k.copy (inherit pgdir cur c username np).tf c.tf trapframe_size w.rest))
          ≡ done (files, s3)
      dups = d

      g :
          get_elem? (modify i (inherit pgdir cur c username) w.table.proc) i
          ≡ some (inherit pgdir cur c username np)
      g = get_elem?-modify i (inherit pgdir cur c username) w.table.proc here

      copied : Proc → Proc
      copied q = record q { ofile = files; cwd = c.cwd; name = safestrcpy q.name 0 c.name 16 }

      started : Proc → Proc
      started q = record q { state = runnable }

      result : List Proc → Outcome (ℕ × World S)
      result ps = done (
        np.pid,
        record {
          table = record { locked = false; proc = ps; nextpid = w.table.nextpid };
          rest = s4;
        },
      )

      tables :
          modify i started (modify i copied (modify i (inherit pgdir cur c username) w.table.proc))
          ≡ modify i (made pgdir cur c username files) w.table.proc
      tables =
          ap (modify i started) (modify-modify i (inherit pgdir cur c username) copied w.table.proc)
          ∙ modify-modify i (λ q. copied (inherit pgdir cur c username q)) started w.table.proc
