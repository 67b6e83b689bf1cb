-- ===== src/Proc/Exiting.antt =====
-- What `exit` of xv6-public/proc.c leaves to the scheduler.
use ele3021_spring.Proc.Woken.{
  Has, IsLasting, modify-Has, IsThere, adopt-Has, Runs, map-Has, IsThere-IsLasting, Runs-IsLasting,
  wake_sleeper,
}
use ele3021_spring.Common.{
  ℕ, ◌≡◌, inl, inr, refl, sym, ◌∙◌, ap, subst, List, Option, none, some, some_inj, get_elem?, map,
  length, false, true, arith, done, ◌>>=◌, ◌==◌, get_elem?-lt, ◌≢◌,
}
use ele3021_spring.Mlfq.{modify}
use ele3021_spring.Proc.{Proc, zombie, sleeping}
use ele3021_spring.Proc.Signal.{wake}
use ele3021_spring.Proc.Slots.{
  IsUsed, Carries, modify_from, map-Carries, Carries-trans, get_elem?-modify, modify-Carries,
  get_elem?-modify_ne,
}
use ele3021_spring.Proc.Lock.{acquire}
use ele3021_spring.Proc.Life.{Kernel, World}
use ele3021_spring.Proc.Family.{adopt, wake_all, exit_table, parent_chan, exit, close_files}
use ele3021_spring.Proc.Kept.{SamePids, SamePids-trans, wake-SamePids, adopt-SamePids}
use ele3021_spring.Proc.Pids.{UniquePids, Carries-UniquePids}
use ele3021_spring.Proc.Orphans.{
  new_parent, Parents, range_rule, adopt-Parents, adopt-Carries, wake_all-Parents, wake-Keeps,
  new_parent-eq,
}

module _ (address : ℕ → ℕ) (cur init : ℕ) (parent : Option ℕ) (ps : List Proc) where
  woken : List Proc
  woken = wake_all (parent_chan address parent) ps

  adopted : List Proc
  unfolding woken
  adopted = adopt cur init (address init) (length woken) 0 woken

  exit_table_lem :
      exit_table address cur init parent ps ≡ modify cur (λ p. record p { state = zombie }) adopted
  unfolding exit_table adopted woken
  exit_table_lem = refl

  woken-Carries : Carries ps woken
  unfolding woken
  woken-Carries =
      map-Carries (wake (parent_chan address parent)) ps (wake-Keeps (parent_chan address parent))

  adopted-Carries : Carries ps adopted
  unfolding adopted
  adopted-Carries =
      Carries-trans ps woken adopted woken-Carries
        (adopt-Carries cur init (address init) (length woken) 0 woken)

  whole :
      (j : ℕ) (q : Proc)
      → get_elem? woken j ≡ some q
      → range_rule cur init (length woken) 0 j q ≡ new_parent cur init q
  whole j q e = ground (arith, get_elem?-lt woken j e)

  adopted-Parents : Parents (λ j p. new_parent cur init p) ps adopted
  unfolding adopted woken
  adopted-Parents j q e =
      let a = adopt-Parents cur init (address init) (length woken) 0 woken j q e in
      let b = wake_all-Parents (parent_chan address parent) ps j a.0 a.1 in
      (b.0, b.1, a.2 ∙ whole j a.0 a.1 ∙ new_parent-eq cur init a.0 b.0 b.2)

  -- Every process whose parent exits is init's child; all others keep their parents.
  pub exit_table-Parents :
      Parents (λ j p. new_parent cur init p) ps (exit_table address cur init parent ps)
  exit_table-Parents = rw exit_table_lem (λ j q e.
      let m = modify_from cur j (λ p. record p { state = zombie }) adopted q e in
      let a = adopted-Parents j m.0 m.1 in
      (
        a.0,
        a.1,
        elim m.2 [
          | inl s ↦ ap (λ (x : Proc). x.parent) s.1 ∙ a.2
          | inr s ↦ ap (λ (x : Proc). x.parent) s.1 ∙ a.2
        ],
      ))

  adopted-SamePids : SamePids ps adopted
  unfolding adopted woken
  adopted-SamePids =
      SamePids-trans ps woken adopted (wake-SamePids (parent_chan address parent) ps)
        (adopt-SamePids cur init (address init) (length woken) 0 woken)

  exit_table-Carries :
      (c : Proc)
      → get_elem? ps cur ≡ some c
      → IsUsed c
      → Carries ps (exit_table address cur init parent ps)
  exit_table-Carries c here used = rw exit_table_lem (λ j q e v.
      let m = modify_from cur j (λ p. record p { state = zombie }) adopted q e in
      elim m.2 [
        | inl s ↦
            let a = adopted-SamePids j m.0 m.1 in
            let at_cur : c ≡ a.0 = some_inj _ _ (sym here ∙ ap (get_elem? ps) s.0 ∙ a.1) in
            (a.0, a.1, subst IsUsed at_cur used, a.2 ∙ sym (ap (λ (x : Proc). x.pid) s.1))
        | inr s ↦
            let a = adopted-Carries j m.0 m.1 (subst IsUsed s.1 v) in
            (a.0, a.1, a.2, a.3 ∙ sym (ap (λ (x : Proc). x.pid) s.1))
      ])

  zombie_here :
      (q : Proc) → get_elem? (exit_table address cur init parent ps) cur ≡ some q → q.state ≡ zombie
  zombie_here q e =
      let m =
        modify_from cur cur (λ p. record p { state = zombie }) adopted q
          (ap (λ qs. get_elem? qs cur) (sym exit_table_lem) ∙ e) in
      elim m.2 [ inl s ↦ ap (λ (x : Proc). x.state) s.1 | inr s ↦ absurd (s.0 refl) ]

-- What `exit` leaves to the scheduler: the process is a ZOMBIE in its slot, no slot is gone, who
-- slept on the channel `chan` of the parent is RUNNABLE, the children are init's, every other parent
-- is as it was, pids are unique, and the lock is held.
pub record Exited {S : Type 0} (cur init chan : ℕ) (w w' : World S) : Type 0 where
  pub zombie_ : (q : Proc) × (get_elem? w'.table.proc cur ≡ some q) × (q.state ≡ zombie)
  pub stays : (j : ℕ) (p : Proc) → get_elem? w.table.proc j ≡ some p → Has IsThere j w'.table.proc
  pub woken_ :
      (j : ℕ) (p : Proc)
      → get_elem? w.table.proc j ≡ some p
      → cur ≢ j
      → p.state ≡ sleeping
      → p.chan ≡ chan
      → Has Runs j w'.table.proc
  pub parents : Parents (λ j p. new_parent cur init p) w.table.proc w'.table.proc
  pub unique : UniquePids w'.table
  pub held : w'.table.locked ≡ true

-- Every slot is still there, and who slept on the parent runs, unless it is the one that exits.
module _ (address : ℕ → ℕ) (cur init : ℕ) (parent : Option ℕ) (ps : List Proc) (j : ℕ) (p : Proc)
    (e : get_elem? ps j ≡ some p) where
  adopted-Has :
      (P : Proc → Type 0)
      → IsLasting P
      → P (wake (parent_chan address parent) p)
      → Has P j (adopted address cur init parent ps)
  unfolding adopted woken
  adopted-Has P ok h =
      adopt-Has P ok j cur init (address init) (length (woken address cur init parent ps)) 0
        (woken address cur init parent ps)
        (map-Has P j (wake (parent_chan address parent)) ps p e h)

  exit_table-Has : Has IsThere j (exit_table address cur init parent ps)
  exit_table-Has = rw (exit_table_lem address cur init parent ps) (
      modify-Has IsThere j cur (λ x. record x { state = zombie })
        (adopted address cur init parent ps) (λ x h. tt) (adopted-Has IsThere IsThere-IsLasting tt))

  exit_table-Runs :
      cur ≢ j
      → p.state ≡ sleeping
      → p.chan ≡ parent_chan address parent
      → Has Runs j (exit_table address cur init parent ps)
  exit_table-Runs ne s c = rw (exit_table_lem address cur init parent ps) (
      let a = adopted-Has Runs Runs-IsLasting (wake_sleeper (parent_chan address parent) p s c) in
      (
        a.0,
        get_elem?-modify_ne cur j (λ x. record x { state = zombie })
              (adopted address cur init parent ps) ne
            ∙ a.1,
        a.2,
      ))

abbrev closed : Proc → Proc
closed p = record p { ofile = map (λ _. none) p.ofile; cwd = none }

-- The calls that `exit` by the process `c` with the directory `d` makes below the process table from
-- the state `s` on, where these calls return.
pub record CanExit {S : Type 0} (k : Kernel S) (c : Proc) (d : ℕ) (s : S) : Type 0 where
  pub s1 : S
  pub closes : close_files k c.ofile s ≡ done s1
  pub s2 : S
  pub begins : k.begin_op s1 ≡ done s2
  pub s3 : S
  pub iputs : k.iput d s2 ≡ done s3
  pub s4 : S
  pub ends : k.end_op s3 ≡ done s4

module _ {S : Type 0} (k : Kernel S) where
  exit-done :
      (address : ℕ → ℕ) (init cur d : ℕ) (w : World S) (c : Proc)
      → (cur == init) ≡ false
      → w.table.locked ≡ false
      → get_elem? w.table.proc cur ≡ some c
      → c.cwd ≡ some d
      → (can : CanExit k c d w.rest)
      → (exit k address init cur w
          ≡ done (record {
            table = record {
              locked = true;
              proc = exit_table address cur init c.parent (modify cur closed w.table.proc);
              nextpid = w.table.nextpid;
            };
            rest = can.s4;
          }))
  unfolding exit acquire
  exit-done address init cur d w c ne free here dir can =
      rw (exit, ne, here, ◌>>=◌, can.closes, can.begins, dir, can.iputs, can.ends, free) refl

  closed-Parents : (cur : ℕ) (ps : List Proc) → Parents (λ j p. p.parent) ps (modify cur closed ps)
  closed-Parents cur ps j q e =
      let m = modify_from cur j closed ps q e in
      (
        m.0,
        m.1,
        elim m.2 [
          | inl s ↦ ap (λ (x : Proc). x.parent) s.1
          | inr s ↦ ap (λ (x : Proc). x.parent) s.1
        ],
      )

  -- `exit` of a process that is not init and has a current directory, where its calls below the table
  -- return, with the lock free and pids unique, comes to `sched` with the process a ZOMBIE, all others
  -- that slept on the address of its parent RUNNABLE, its children passed to init, every other parent
  -- as it was, pids unique and the lock held.
  pub exit-Exited :
      (address : ℕ → ℕ) (init cur d : ℕ) (w : World S) (c : Proc)
      → cur ≢ init
      → w.table.locked ≡ false
      → get_elem? w.table.proc cur ≡ some c
      → IsUsed c
      → c.cwd ≡ some d
      → CanExit k c d w.rest
      → UniquePids w.table
      → (w' : World S) × (exit k address init cur w ≡ done w')
        × Exited cur init (parent_chan address c.parent) w w'
  exit-Exited address init cur d w c ne free here used dir can u =
      let r = exit-done address init cur d w c (ground (arith, ne)) free here dir can in
      let ps : List Proc = modify cur closed w.table.proc in
      (
        _,
        r,
        record {
          zombie_ =
              let q =
                exit_table-Has address cur init c.parent ps cur (closed c)
                  (get_elem?-modify cur closed w.table.proc here) in
              (q.0, q.1, zombie_here address cur init c.parent ps q.0 q.1);
          stays = λ j p e.
              let m = modify-Has IsThere j cur closed w.table.proc (λ x h. tt) (p, e, tt) in
              exit_table-Has address cur init c.parent ps j m.0 m.1;
          woken_ = λ j p e n z h.
              exit_table-Runs address cur init c.parent ps j p
                (get_elem?-modify_ne cur j closed w.table.proc n ∙ e) n z h;
          parents = λ j q e.
              let a = exit_table-Parents address cur init c.parent ps j q e in
              let b = closed-Parents cur w.table.proc j a.0 a.1 in
              (b.0, b.1, a.2 ∙ new_parent-eq cur init a.0 b.0 b.2);
          unique = Carries-UniquePids w.table _ u refl (
              Carries-trans w.table.proc ps _
                (modify-Carries cur closed w.table.proc (λ p v. (v, refl)))
                (exit_table-Carries address cur init c.parent ps (closed c)
                  (get_elem?-modify cur closed w.table.proc here) used));
          held = refl;
        },
      )
