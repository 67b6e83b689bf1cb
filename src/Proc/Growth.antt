-- ===== src/Proc/Growth.antt =====
-- `growproc` of xv6-public/proc.c and the memory limit of a process.
use ele3021_spring.Common.{
  ℕ, zero, suc, ◌≡◌, ◌⊎◌, ◌≤◌, inl, inr, refl, sym, subst, List, [], ◌∷◌, Option, none, some,
  some_inj, get_elem?, ◌||◌, ◌==◌, arith, done, ◌>>=◌, Bool-cases, All, slt, add32, leb, minus,
  true,
}
use ele3021_spring.Mlfq.{modify}
use ele3021_spring.Proc.{Proc}
use ele3021_spring.Proc.Admin.Laws.{WithinLimit}
use ele3021_spring.Proc.Life.{Kernel, World, change, grown, growproc}

-- What `allocuvm` and `deallocuvm` answer to `growproc` by `n` of the process `p`: 0 for no memory, else the new size, or the old size where
-- the new one is on the wrong side of it; and `switchuvm` to that process returns.
pub record Sizes {S : Type 0} (k : Kernel S) (p : Proc) (n : ℕ) (s : S) : Type 0 where
  pub grows :
      slt 0 n ≡ true
      → (r : ℕ) × (s' : S) × (k.allocuvm p.pgdir p.sz (add32 p.sz n) s ≡ done (r, s'))
        × ((r ≡ 0) ⊎ ((r ≡ add32 p.sz n) ⊎ (r ≡ p.sz)))
  pub shrinks :
      slt n 0 ≡ true
      → (r : ℕ) × (s' : S) × (k.deallocuvm p.pgdir p.sz (add32 p.sz n) s ≡ done (r, s'))
        × (r ≤ p.sz)
  pub switches : (sz : ℕ) (s' : S) → (s2 : S) × (k.switchuvm (record p { sz = sz }) s' ≡ done s2)

All-modify :
    (i : ℕ) (f : Proc → Proc) (ps : List Proc) (p : Proc)
    → get_elem? ps i ≡ some p
    → All WithinLimit ps
    → WithinLimit (f p)
    → All WithinLimit (modify i f ps)
All-modify i f [] p e h q = tt
All-modify zero f (x ∷ ps) p e h q =
    (subst (λ (y : Proc). WithinLimit (f y)) (sym (some_inj _ _ e)) q, h.1)
All-modify (suc i) f (x ∷ ps) p e h q = (h.0, All-modify i f ps p e h.1 q)

at_slot :
    (i : ℕ) (ps : List Proc) (p : Proc)
    → get_elem? ps i ≡ some p
    → All WithinLimit ps
    → WithinLimit p
at_slot i [] p e h = cc
at_slot zero (x ∷ ps) p e h = subst WithinLimit (some_inj _ _ e) h.0
at_slot (suc i) (x ∷ ps) p e h = at_slot i ps p e h.1

-- A new size that keeps the process within its limit, or none.
abbrev Grown : Proc → Option ℕ → Type 0
Grown p none = Unit {0}
Grown p (some sz) = WithinLimit (record p { sz = sz })

module _ {S : Type 0} (k : Kernel S) where
  grown-Grown :
      (p : Proc) (n : ℕ) (s : S)
      → Sizes k p n s
      → WithinLimit p
      → (o : Option ℕ) × (s' : S) × (grown k p n s ≡ done (o, s')) × Grown p o
  unfolding grown
  grown-Grown p n s sizes h = elim (Bool-cases (slt 0 n)) [
    | inl up ↦ elim (Bool-cases (leb (add32 p.sz n) p.limit || p.limit == 0)) [
      | inr no_ ↦ (none, s, rw (grown, up, no_) refl, tt)
      | inl fits ↦
          let a = sizes.grows up in
          elim (Bool-cases (a.0 == 0)) [
            | inl z ↦ (none, a.1, rw (grown, up, fits, a.2, ◌>>=◌, z) refl, tt)
            | inr z ↦ (
              some a.0,
              a.1,
              rw (grown, up, fits, a.2, ◌>>=◌, z) refl,
              ground (arith, fits, a.3, h, z),
            )
          ]
    ]
    | inr up ↦ elim (Bool-cases (slt n 0)) [
      | inl down ↦
          let a = sizes.shrinks down in
          elim (Bool-cases (a.0 == 0)) [
            | inl z ↦ (none, a.1, rw (grown, up, down, a.2, ◌>>=◌, z) refl, tt)
            | inr z ↦
                (some a.0, a.1, rw (grown, up, down, a.2, ◌>>=◌, z) refl, omega (arith, a.3, h))
          ]
      | inr down ↦ (some p.sz, s, rw (grown, up, down) refl, h)
    ]
  ]

  -- If `allocuvm` answers the process 0, the old size or the new one, `deallocuvm` at most the old
  -- size, and `switchuvm` to it returns, then `growproc` by the process, with all processes within their limits,
  -- returns and leaves them so.
  pub growproc-WithinLimit :
      (cur n : ℕ) (w : World S) (p : Proc)
      → get_elem? w.table.proc cur ≡ some p
      → Sizes k p n w.rest
      → All WithinLimit w.table.proc
      → (r : ℕ) × (w' : World S) × (growproc k cur n w ≡ done (r, w'))
        × All WithinLimit w'.table.proc
  unfolding growproc
  growproc-WithinLimit cur n w p here sizes h =
      let g = grown-Grown p n w.rest sizes (at_slot cur w.table.proc p here h) in
      result g.0 g.1 g.2 g.3
    where
      result :
          (o : Option ℕ) (s' : S)
          → grown k p n w.rest ≡ done (o, s')
          → Grown p o
          → (r : ℕ) × (w' : World S) × (growproc k cur n w ≡ done (r, w'))
            × All WithinLimit w'.table.proc
      result none s' e q = (minus 1, record w { rest = s' }, rw (growproc, here, ◌>>=◌, e) refl, h)
      result (some sz) s' e q =
          let a = sizes.switches sz s' in
          (
            0,
            record (change cur (λ x. record x { sz = sz }) w) { rest = a.0 },
            rw (growproc, here, ◌>>=◌, e, a.1) refl,
            All-modify cur (λ x. record x { sz = sz }) w.table.proc p here h q,
          )
