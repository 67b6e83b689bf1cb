-- ===== src/Proc/LifeTests.antt =====
-- Births, forks, exits and waits on a small table.
use ele3021_spring.CString.{strlen}
use ele3021_spring.Common.{
  ℕ, some, none, false, refl, ◌≡◌, ◌∷◌, done, [], arith, zero, suc, get_elem?, All, inl, inr, ◌<◌,
  ap, ◌+◌, ◌>>=◌, sym, some_inj, subst, List, Option, replicate,
}
use ele3021_spring.Proc.{Proc, blank, running, sleeping, zombie}
use ele3021_spring.Proc.Slots.{IsUsed}
use ele3021_spring.Proc.Lock.{acquire, release}
use ele3021_spring.Proc.Life.{allocproc, Kernel, World, growproc, set_stack}
use ele3021_spring.Proc.Family.{
  fork_as, exit, wait, reaped, dup_files, close_files, dup_cwd, parent_chan,
}
use ele3021_spring.Proc.Pids.{UniquePids}
use ele3021_spring.Proc.Forking.{CanFork}
use ele3021_spring.Proc.Children.{Forks, fork_as-Forks}
use ele3021_spring.Proc.Exiting.{Exited, exit-Exited, CanExit}
use ele3021_spring.Proc.Growth.{Sizes, growproc-WithinLimit}
use ele3021_spring.Proc.Admin.Laws.{WithinLimit}

-- A kernel that hands out the page at 8192 and counts nothing.
abbrev calm : Kernel ℕ
calm = record {
  kalloc = λ s. done (8192, s);
  kfree = λ v s. done s;
  store = λ a v s. s;
  fill = λ a c n s. s;
  copy = λ d a n s. s;
  setupkvm = λ s. done (4096, s);
  inituvm = λ g s. done s;
  copyuvm = λ g n s. done (4096, s);
  freevm = λ g s. done s;
  allocuvm = λ g old new s. done (new, s);
  deallocuvm = λ g old new s. done (old, s);
  switchuvm = λ p s. done s;
  filedup = λ f s. done s;
  fileclose = λ f s. done s;
  idup = λ d s. done s;
  iput = λ d s. done s;
  namei_root = λ s. done (some 0, s);
  begin_op = λ s. done s;
  end_op = λ s. done s;
}

abbrev init : Proc
init = record blank { state = sleeping; pid = 1; chan = 77; sz = 4096; cwd = some 0 }

abbrev shell : Proc
shell = record blank {
  state = running;
  pid = 2;
  parent = some 0;
  sz = 8192;
  cwd = some 0;
  limit = 20000;
}

abbrev dead : Proc
dead = record blank { state = zombie; pid = 3; parent = some 1; kstack = 4096 }

-- init, a shell, its dead child, and a free slot.
abbrev family : World ℕ
family = record {
  table = record { locked = false; proc = init ∷ shell ∷ dead ∷ blank ∷ []; nextpid = 4 };
  rest = 0;
}

-- The pids count up from 1.
pid_at :
    (i : ℕ) (p : Proc)
    → get_elem? family.table.proc i ≡ some p
    → IsUsed p
    → (p.pid ≡ suc i) × (i < 3)
pid_at zero p e u = (ap (λ (x : Proc). x.pid) (sym (some_inj _ _ e)), omega arith)
pid_at (suc zero) p e u = (ap (λ (x : Proc). x.pid) (sym (some_inj _ _ e)), omega arith)
pid_at (suc (suc zero)) p e u = (ap (λ (x : Proc). x.pid) (sym (some_inj _ _ e)), omega arith)
pid_at (suc (suc (suc zero))) p e u = cc (subst IsUsed (sym (some_inj _ _ e)) u)
pid_at (suc (suc (suc (suc i)))) p e u = cc

family-UniquePids : UniquePids family.table
family-UniquePids = record {
  below = λ i p e u. omega (arith, pid_at i p e u);
  distinct = λ i j p q e f u v s. omega (arith, pid_at i p e u, pid_at j q f v, s);
}

calm-Sizes : Sizes calm shell 4096 0
calm-Sizes = record {
  grows = λ up. (12288, 0, refl, inr (inl refl));
  shrinks = λ down. (8192, 0, refl, omega arith);
  switches = λ sz s. (s, refl);
}

calm_files :
    (n : ℕ) (ns : List (Option ℕ))
    → (d : List (Option ℕ)) × (dup_files calm (replicate n none) ns 0 ≡ done (d, 0))
unfolding dup_files
calm_files zero ns = (ns, refl)
calm_files (suc n) [] = ([], refl)
calm_files (suc n) (x ∷ ns) =
    let r = calm_files n ns in (x ∷ r.0, ap (λ o. o >>= λ q. done (x ∷ q.0, q.1)) r.1)

calm-CanExit : CanExit calm shell 0 0
unfolding close_files
calm-CanExit = record {
  s1 = 0;
  closes = refl;
  s2 = 0;
  begins = refl;
  s3 = 0;
  iputs = refl;
  s4 = 0;
  ends = refl;
}

calm-CanFork : CanFork calm 100 200 shell 0
unfolding set_stack dup_cwd
calm-CanFork = record {
  stack = 8192;
  s1 = 0;
  kallocs = refl;
  pgdir = 4096;
  s2 = 0;
  copies = λ n. refl;
  kfrees = λ z. (0, refl);
  dups = λ n ns. let r = calm_files 16 ns in (r.0, 0, 0, r.1, refl);
}

fork_as-Forks_example :
    Forks 1 shell shell.userid family (fork_as calm 100 200 7 (λ c. c.userid) 1 family)
unfolding strlen
fork_as-Forks_example =
    fork_as-Forks calm 100 200 7 (λ c. c.userid) 1 family shell refl calm-CanFork refl (omega arith)
      refl family-UniquePids (omega arith)

exit-Exited_example :
    (w' : World ℕ) × (exit calm (λ i. 1000 + i) 0 1 family ≡ done w')
    × Exited 1 0 (parent_chan (λ i. 1000 + i) shell.parent) family w'
exit-Exited_example =
    exit-Exited calm (λ i. 1000 + i) 0 1 0 family shell (omega arith) refl refl refl refl
      calm-CanExit family-UniquePids

growproc-WithinLimit_example :
    (r : ℕ) × (w' : World ℕ) × (growproc calm 1 4096 family ≡ done (r, w'))
    × All WithinLimit w'.table.proc
growproc-WithinLimit_example =
    growproc-WithinLimit calm 1 4096 family shell refl calm-Sizes
      (inl refl, (inr (omega arith), (inl refl, (inl refl, tt))))

-- The dead child is reaped.
reaped_child : (wait calm 1 family >>= λ r. done r.0) ≡ done (reaped 3)
unfolding wait acquire release
reaped_child = refl

-- A new child has pid 4.
forked_pid : (fork_as calm 100 200 7 (λ c. c.userid) 1 family >>= λ r. done r.0) ≡ done 4
unfolding fork_as allocproc
forked_pid = refl
