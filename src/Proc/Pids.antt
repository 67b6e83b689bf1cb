-- ===== src/Proc/Pids.antt =====
-- The pids of xv6-public/proc.c: no two slots in use have the same.
use ele3021_spring.Common.{
  ℕ, suc, ◌≡◌, ◌⊎◌, ◌<◌, ◌+◌, inl, inr, refl, sym, ◌∙◌, ap, List, [], ◌∷◌, none, some, some_inj,
  get_elem?, false, true, arith, word, add32, done, ◌>>=◌, Bool-cases, Option-cases,
}
use ele3021_spring.Mlfq.{modify}
use ele3021_spring.Proc.{Proc, Ptable, is_unused}
use ele3021_spring.Proc.Slots.{IsUsed, Carries, modify_from}
use ele3021_spring.Proc.Lock.{acquire, release}
use ele3021_spring.Proc.Life.{free_slot, born, alloc_slot}

-- Every slot in use has a pid below `nextpid`, and no two have the same.
pub record UniquePids (t : Ptable) : Type 0 where
  pub below : (i : ℕ) (p : Proc) → get_elem? t.proc i ≡ some p → IsUsed p → p.pid < t.nextpid
  pub distinct :
      (i j : ℕ) (p q : Proc)
      → get_elem? t.proc i ≡ some p
      → get_elem? t.proc j ≡ some q
      → IsUsed p
      → IsUsed q
      → p.pid ≡ q.pid
      → i ≡ j

pub Carries-UniquePids :
    (t t' : Ptable) → UniquePids t → t'.nextpid ≡ t.nextpid → Carries t.proc t'.proc → UniquePids t'
Carries-UniquePids t t' u n c = record {
  below = λ i p e used. let m = c i p e used in omega (arith, u.below i m.0 m.1 m.2, m.3, n);
  distinct = λ i j p q e f up uq same.
      let m = c i p e up in
      let o = c j q f uq in u.distinct i j m.0 o.0 m.1 o.1 m.2 o.2 (m.3 ∙ same ∙ sym o.3);
}

-- The slot that `free_slot` finds is not in use.
pub free_slot-some :
    (i : ℕ) (ps : List Proc) (k : ℕ)
    → free_slot i ps ≡ some k
    → (p : Proc) × (j : ℕ) × (k ≡ i + j) × (get_elem? ps j ≡ some p) × (is_unused p.state ≡ true)
unfolding free_slot
free_slot-some i [] k e = cc
free_slot-some i (p ∷ ps) k e = elim (Bool-cases (is_unused p.state)) [
  | inl u ↦ (p, 0, sym (some_inj _ _ (rw u at e)) ∙ omega arith, refl, u)
  | inr v ↦
      let m = free_slot-some (suc i) ps k (rw v at e) in (m.0, suc m.1, m.2 ∙ omega arith, m.3, m.4)
]

-- The table after a birth in slot `i`.
abbrev pub with_born : ℕ → ℕ → Ptable → Ptable
with_born ticks i t = record t {
  proc = modify i (born ticks t.nextpid) t.proc;
  nextpid = add32 t.nextpid 1;
}

pub born-pid : (ticks pid : ℕ) (p : Proc) → (born ticks pid p).pid ≡ pid
unfolding born
born-pid ticks pid p = refl

-- A used slot after a birth is the new one, or an old one.
born_from :
    (ticks i : ℕ) (t : Ptable) (j : ℕ) (q : Proc)
    → UniquePids t
    → get_elem? (with_born ticks i t).proc j ≡ some q
    → IsUsed q
    → ((i ≡ j) × (q.pid ≡ t.nextpid)) ⊎ ((q.pid < t.nextpid) × (get_elem? t.proc j ≡ some q))
born_from ticks i t j q u e used =
    let m = modify_from i j (born ticks t.nextpid) t.proc q e in
    elim m.2 [
      | inl s ↦ inl (s.0, ap (λ (p : Proc). p.pid) s.1 ∙ born-pid ticks t.nextpid m.0)
      | inr s ↦
          let old : get_elem? t.proc j ≡ some q = m.1 ∙ ap (λ p. some p) (sym s.1) in
          inr (u.below j q old used, old)
    ]

pub with_born-UniquePids :
    (ticks i : ℕ) (t : Ptable)
    → UniquePids t
    → t.nextpid + 1 < word
    → UniquePids (with_born ticks i t)
with_born-UniquePids ticks i t u small = record {
  below = λ j p e used. elim (born_from ticks i t j p u e used) [
    | inl s ↦ omega (arith, s.1, small)
    | inr s ↦ omega (arith, s.0, small)
  ];
  distinct = λ j j' p q e f up uq same. elim (born_from ticks i t j p u e up) [
    | inl s ↦ elim (born_from ticks i t j' q u f uq) [
      | inl r ↦ sym s.0 ∙ r.0
      | inr r ↦ absurd (omega (arith, s.1, r.0, same))
    ]
    | inr s ↦ elim (born_from ticks i t j' q u f uq) [
      | inl r ↦ absurd (omega (arith, s.0, r.1, same))
      | inr r ↦ u.distinct j j' p q s.1 r.1 up uq same
    ]
  ];
}

-- What the locked part of `allocproc` does: it finds a slot that is not in use, which is born with
-- the next pid, or finds none and changes nothing.
abbrev pub AllocsSlot : ℕ → Ptable → Type 0
AllocsSlot ticks t =
    ((i : ℕ) × (p : Proc) × (get_elem? t.proc i ≡ some p)
      × (is_unused p.state ≡ true)
      × (alloc_slot ticks t ≡ done (some i, with_born ticks i t)))
    ⊎ (alloc_slot ticks t ≡ done (none, t))

pub alloc_slot-AllocsSlot : (ticks : ℕ) (t : Ptable) → t.locked ≡ false → AllocsSlot ticks t
unfolding alloc_slot acquire release
alloc_slot-AllocsSlot ticks t free = elim (Option-cases (free_slot 0 t.proc)) [
  | inl n ↦ inr (rw (free, ◌>>=◌, acquire, n) refl)
  | inr s ↦
      let m = free_slot-some 0 t.proc s.0 s.1 in
      inl (
        s.0,
        m.0,
        ap (get_elem? t.proc) (omega (arith, m.2)) ∙ m.3,
        m.4,
        rw (free, ◌>>=◌, acquire, s.1) refl,
      )
]
