-- ===== src/Mlfq/Choose.antt =====
-- Which process the scheduler of xv6-public/proc.c chooses.
use ele3021_spring.Common.{
  ℕ, ◌≤◌, ◌≡◌, List, slt, arith, if◌then◌else◌, true, ◌∷◌, get_elem?, ◌⊎◌, ◌<◌, false, ◌&&◌, [],
  some, subst, dec_lt, suc, inl, inr, refl, some_inj, Bool-cases, ◌+◌, zero, sym, ◌∙◌,
}
use ele3021_spring.Proc.{Proc, is_runnable}
use ele3021_spring.Mlfq.{eligible, lower, lowest, pick}

lower-le : (now : ℕ) (p : Proc) → lower now p ≤ now
unfolding lower
lower-le now p = ground arith

lower-level : (now : ℕ) (p : Proc) → is_runnable p.state ≡ true → 0 < p.hold → lower now p ≤ p.level
unfolding lower
lower-level now p r h = ground arith

lowest-le : (now : ℕ) (ps : List Proc) → lowest now ps ≤ now
unfolding lowest
lowest-le now [] = omega arith
lowest-le now (p ∷ ps) = omega (arith, lowest-le (lower now p) ps, lower-le now p)

-- No process that is RUNNABLE with some quantum left is in a higher queue than the one chosen.
pub lowest-least :
    (ps : List Proc) (now i : ℕ) (p : Proc)
    → get_elem? ps i ≡ some p
    → is_runnable p.state ≡ true
    → 0 < p.hold
    → lowest now ps ≤ p.level
unfolding lowest
lowest-least [] now i p e r h = cc
lowest-least (q ∷ ps) now zero p e r h =
    subst (λ (x : Proc). lowest (lower now q) ps ≤ x.level) (some_inj q p e)
      (omega (
        arith,
        lowest-le (lower now q) ps,
        lower-level now q (ground (arith, e, r)) (ground (arith, e, h)),
      ))
lowest-least (q ∷ ps) now (suc i) p e r h = lowest-least ps (lower now q) i p e r h

lower-eligible : (now : ℕ) (p : Proc) → lower now p ≡ now ⊎ (eligible (lower now p) p ≡ true)
unfolding lower eligible
lower-eligible now p = ground arith

-- A queue that was found has a process that may run.
pub lowest-eligible :
    (ps : List Proc) (now : ℕ)
    → lowest now ps < now
    → (i : ℕ) × (p : Proc) × (get_elem? ps i ≡ some p) × (eligible (lowest now ps) p ≡ true)
unfolding lowest
lowest-eligible [] now h = absurd (omega arith)
lowest-eligible (q ∷ ps) now h = elim (dec_lt (lowest (lower now q) ps) (lower now q)) [
  | yes deeper ↦ let (i, p, e, g) = lowest-eligible ps (lower now q) deeper in (suc i, p, e, g)
  | no here ↦
      let same : lowest (lower now q) ps ≡ lower now q =
        omega (arith, lowest-le (lower now q) ps) in
      elim (lower-eligible now q) [
        | inl stay ↦ absurd (omega arith)
        | inr g ↦ (0, q, refl, rw same g)
      ]
]

-- The priority of the best process so far, after one more and after all of the list.
best_step : ℕ → ℕ → Proc → ℕ
best_step level prio p = if eligible level p && slt prio p.priority then p.priority else prio

best_prio : ℕ → List Proc → ℕ → ℕ
best_prio level [] prio = prio
best_prio level (p ∷ ps) prio = best_prio level ps (best_step level prio p)

-- `a` is at least `b`, as signed 32-bit integers.
abbrev AtLeast : ℕ → ℕ → Type 0
AtLeast a b = slt a b ≡ false

AtLeast-trans : (a b c : ℕ) → AtLeast a b → AtLeast b c → AtLeast a c
AtLeast-trans a b c h g = ground arith

AtLeast-refl : (a : ℕ) → AtLeast a a
AtLeast-refl a = ground arith

best_step-AtLeast : (level prio : ℕ) (p : Proc) → AtLeast (best_step level prio p) prio
unfolding best_step
best_step-AtLeast level prio p = elim (Bool-cases (eligible level p)) [
  | inl e ↦ rw e (ground arith)
  | inr e ↦ rw e (AtLeast-refl prio)
]

best_step-eligible :
    (level prio : ℕ) (p : Proc)
    → eligible level p ≡ true
    → AtLeast (best_step level prio p) p.priority
unfolding best_step
best_step-eligible level prio p e = rw e (ground arith)

best_prio-AtLeast : (level : ℕ) (ps : List Proc) (prio : ℕ) → AtLeast (best_prio level ps prio) prio
unfolding best_prio
best_prio-AtLeast level [] prio = AtLeast-refl prio
best_prio-AtLeast level (p ∷ ps) prio =
    AtLeast-trans (best_prio level ps (best_step level prio p)) (best_step level prio p) prio
      (best_prio-AtLeast level ps (best_step level prio p)) (best_step-AtLeast level prio p)

best_prio-eligible :
    (level : ℕ) (ps : List Proc) (prio i : ℕ) (p : Proc)
    → get_elem? ps i ≡ some p
    → eligible level p ≡ true
    → AtLeast (best_prio level ps prio) p.priority
unfolding best_prio
best_prio-eligible level [] prio i p e g = cc
best_prio-eligible level (q ∷ ps) prio zero p e g =
    subst (λ (x : Proc). AtLeast (best_prio level ps (best_step level prio q)) x.priority)
      (some_inj q p e)
      (AtLeast-trans (best_prio level ps (best_step level prio q)) (best_step level prio q)
        q.priority (best_prio-AtLeast level ps (best_step level prio q))
        (best_step-eligible level prio q
          (subst (λ (x : Proc). eligible level x ≡ true) (sym (some_inj q p e)) g)))
best_prio-eligible level (q ∷ ps) prio (suc i) p e g =
    best_prio-eligible level ps (best_step level prio q) i p e g

-- Where the choice of `pick` comes from: the process given at the start, or one of the list.
abbrev Origin : ℕ → List Proc → ℕ → ℕ → ℕ → Type 0
Origin level ps j best prio =
    ((pick level ps j best prio ≡ best) × (best_prio level ps prio ≡ prio))
    ⊎ ((i : ℕ) × (p : Proc) × (pick level ps j best prio ≡ j + i)
        × (get_elem? ps i ≡ some p)
        × (eligible level p ≡ true)
        × (best_prio level ps prio ≡ p.priority))

-- One round of both loops, by whether the new process is better.
module _ (level : ℕ) (q : Proc) (ps : List Proc) (j best prio : ℕ) where
  up_step :
      (eligible level q && slt prio q.priority) ≡ true
      → (pick level (q ∷ ps) j best prio ≡ pick level ps (suc j) j q.priority)
        × (best_prio level (q ∷ ps) prio ≡ best_prio level ps q.priority)
        × (eligible level q ≡ true)
  unfolding pick best_prio best_step
  up_step e = (rw (pick, e), rw (best_prio, best_step, e), ground arith)

  stay_step :
      (eligible level q && slt prio q.priority) ≡ false
      → (pick level (q ∷ ps) j best prio ≡ pick level ps (suc j) best prio)
        × (best_prio level (q ∷ ps) prio ≡ best_prio level ps prio)
  unfolding pick best_prio best_step
  stay_step e = (rw (pick, e), rw (best_prio, best_step, e))

  Origin-up :
      (eligible level q && slt prio q.priority) ≡ true
      → Origin level ps (suc j) j q.priority
      → Origin level (q ∷ ps) j best prio
  Origin-up e (inl (a, b)) =
      let s = up_step e in inr (0, q, s.0 ∙ a ∙ omega arith, refl, s.2, s.1 ∙ b)
  Origin-up e (inr (i, p, a, b, c, d)) =
      let s = up_step e in inr (suc i, p, s.0 ∙ a ∙ omega arith, b, c, s.1 ∙ d)

  Origin-stay :
      (eligible level q && slt prio q.priority) ≡ false
      → Origin level ps (suc j) best prio
      → Origin level (q ∷ ps) j best prio
  Origin-stay e (inl (a, b)) = let s = stay_step e in inl (s.0 ∙ a, s.1 ∙ b)
  Origin-stay e (inr (i, p, a, b, c, d)) =
      let s = stay_step e in inr (suc i, p, s.0 ∙ a ∙ omega arith, b, c, s.1 ∙ d)

pick-Origin : (level : ℕ) (ps : List Proc) (j best prio : ℕ) → Origin level ps j best prio
unfolding pick best_prio
pick-Origin level [] j best prio = inl (refl, refl)
pick-Origin level (q ∷ ps) j best prio =
    elim (Bool-cases (eligible level q && slt prio q.priority)) [
      | inl e ↦ Origin-up level q ps j best prio e (pick-Origin level ps (suc j) j q.priority)
      | inr e ↦ Origin-stay level q ps j best prio e (pick-Origin level ps (suc j) best prio)
    ]

-- A process of queue `level` that may run, in slot `n`, of the highest priority there.
pub record IsBest (level : ℕ) (ps : List Proc) (n : ℕ) : Type 0 where
  pub slot : Proc
  pub there : get_elem? ps n ≡ some slot
  pub able : eligible level slot ≡ true
  pub highest :
      (j : ℕ) (r : Proc)
      → get_elem? ps j ≡ some r
      → eligible level r ≡ true
      → slt slot.priority r.priority ≡ false

-- Started at a process of the queue that may run, the inner loop of the scheduler chooses a slot
-- whose process may run in that queue, such that no process that may run there has a higher
-- priority.
pub pick-IsBest :
    (level : ℕ) (ps : List Proc) (i : ℕ) (p : Proc)
    → get_elem? ps i ≡ some p
    → eligible level p ≡ true
    → IsBest level ps (pick level ps 0 i p.priority)
pick-IsBest level ps i p e g = best (pick-Origin level ps 0 i p.priority)
  where
    top :
        (j : ℕ) (r : Proc)
        → get_elem? ps j ≡ some r
        → eligible level r ≡ true
        → slt (best_prio level ps p.priority) r.priority ≡ false
    top j r = best_prio-eligible level ps p.priority j r

    best : Origin level ps 0 i p.priority → IsBest level ps (pick level ps 0 i p.priority)
    best (inl (a, b)) = record {
      slot = p;
      there = rw a e;
      able = g;
      highest = λ j r ej gj. subst (λ (m : ℕ). slt m r.priority ≡ false) b (top j r ej gj);
    }
    best (inr (n, q, a, b, c, d)) = record {
      slot = q;
      there = subst (λ (m : ℕ). get_elem? ps m ≡ some q) (sym (a ∙ omega arith)) b;
      able = c;
      highest = λ j r ej gj. subst (λ (m : ℕ). slt m r.priority ≡ false) d (top j r ej gj);
    }
