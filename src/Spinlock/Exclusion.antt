-- ===== src/Spinlock/Exclusion.antt =====
-- Mutual exclusion by the locks of xv6-public/spinlock.c.
use ele3021_spring.Common.{
  ℕ, Bool, ◌≡◌, Option, false, true, ◌⊎◌, ◌≢◌, some, ℕ_discrete, ap, inl, arith, Bool-cases,
  ==_refl, sym, inr, Option-cases, ◌∙◌, ==→eq, refl, done, subst, List, [], none, some_inj, ◌∷◌,
  ◌>>=◌,
}
use ele3021_spring.Spinlock.{
  Place, outside, spinning, taken, inside, clearing, Machine, holding, put, step, initlock, run,
}

-- Between the `xchg` that took the lock and the store that frees it.
abbrev pub owns : Place → Bool
owns outside = false
owns spinning = false
owns taken = true
owns inside = true
owns clearing = true

abbrev is_inside : Place → Bool
is_inside inside = true
is_inside _ = false

abbrev is_taken : Place → Bool
is_taken taken = true
is_taken _ = false

-- One CPU at most has the lock; the lock is taken while one has it; and `cpu` names the CPU inside.
pub record IsSafe (m : Machine) : Type 0 where
  pub one : (c d : ℕ) → owns (m.place c) ≡ true → owns (m.place d) ≡ true → c ≡ d
  pub taken_ : (c : ℕ) → owns (m.place c) ≡ true → m.locked ≡ true
  pub named : (c : ℕ) → m.cpu ≡ some c → m.place c ≡ inside
  pub inside_ : (c : ℕ) → m.place c ≡ inside → m.cpu ≡ some c

place_at :
    (c d : ℕ) (p : Place) (m : Machine)
    → ((c ≡ d) × ((put c p m).place d ≡ p)) ⊎ ((c ≢ d) × ((put c p m).place d ≡ m.place d))
place_at c d p m = elim (ℕ_discrete c d) [
  | yes e ↦ inl (e, ground (arith, e))
  | no n ↦ inr (n, ground (arith, n))
]

holding-cpu : (c : ℕ) (m : Machine) → holding c m ≡ true → m.cpu ≡ some c
unfolding holding
holding-cpu c m h = elim (Bool-cases m.locked) [
  | inr n ↦ cc (rw n at h)
  | inl l ↦ elim (Option-cases m.cpu) [
    | inl n ↦ cc (rw (l, n) at h)
    | inr s ↦ s.1 ∙ ap (λ x. some x) (==→eq s.0 c (rw (l, s.1) at h))
  ]
]

cpu-holding : (c : ℕ) (m : Machine) → m.locked ≡ true → m.cpu ≡ some c → holding c m ≡ true
unfolding holding
cpu-holding c m l e = rw (l, e) (==_refl c)

inside_owns : (p : Place) → p ≡ inside → owns p ≡ true
inside_owns p e = ap owns e

-- A step to a place without the lock, which keeps `cpu` and comes from no place inside.
left-IsSafe :
    (c : ℕ) (p : Place) (m : Machine) (locked : Bool)
    → IsSafe m
    → owns p ≡ false
    → m.place c ≢ inside
    → ((d : ℕ) → c ≢ d → owns (m.place d) ≡ true → locked ≡ true)
    → IsSafe (put c p (record m { locked = locked }))
left-IsSafe c p m locked s out not_in still = record {
  one = λ d e h k. s.one d e (back d h).1 (back e k).1;
  taken_ = λ d h. still d (back d h).0 (back d h).1;
  named = λ d h. elim (place_at c d p m) [
    | inl e ↦ absurd (not_in (ap m.place e.0 ∙ s.named d h))
    | inr e ↦ e.1 ∙ s.named d h
  ];
  inside_ = λ d h. elim (place_at c d p m) [
    | inl e ↦ cc (sym out ∙ inside_owns p (sym e.1 ∙ h))
    | inr e ↦ s.inside_ d (sym e.1 ∙ h)
  ];
}
  where
    back : (d : ℕ) → owns ((put c p m).place d) ≡ true → (c ≢ d) × (owns (m.place d) ≡ true)
    back d h = elim (place_at c d p m) [
      | inl e ↦ cc (sym out ∙ ap owns (sym e.1) ∙ h)
      | inr e ↦ (e.0, ap owns (sym e.1) ∙ h)
    ]

-- A step of the CPU that gets or has the lock.
moved-IsSafe :
    (c : ℕ) (p : Place) (m : Machine) (cpu : Option ℕ)
    → ((d : ℕ) → c ≢ d → owns (m.place d) ≡ false)
    → ((d : ℕ) → cpu ≡ some d → (c ≡ d) × (p ≡ inside))
    → (p ≡ inside → cpu ≡ some c)
    → IsSafe (put c p (record m { locked = true; cpu = cpu }))
moved-IsSafe c p m cpu alone named inside_ = record {
  one = λ d e h k. sym (only d h) ∙ only e k;
  taken_ = λ d h. refl;
  named = λ d h. elim (place_at c d p m) [
    | inl e ↦ e.1 ∙ (named d h).1
    | inr e ↦ absurd (e.0 (named d h).0)
  ];
  inside_ = λ d h. elim (place_at c d p m) [
    | inl e ↦ inside_ (sym e.1 ∙ h) ∙ ap (λ x. some x) e.0
    | inr e ↦ cc (sym (alone d e.0) ∙ inside_owns (m.place d) (sym e.1 ∙ h))
  ];
}
  where
    only : (d : ℕ) → owns ((put c p m).place d) ≡ true → c ≡ d
    only d h = elim (place_at c d p m) [
      | inl e ↦ e.0
      | inr e ↦ cc (sym (alone d e.0) ∙ ap owns (sym e.1) ∙ h)
    ]

Place-cases :
    (p : Place) → (p ≡ outside) ⊎ ((p ≡ spinning) ⊎ ((p ≡ taken) ⊎ ((p ≡ inside) ⊎ (p ≡ clearing))))
Place-cases outside = inl refl
Place-cases spinning = inr (inl refl)
Place-cases taken = inr (inr (inl refl))
Place-cases inside = inr (inr (inr (inl refl)))
Place-cases clearing = inr (inr (inr (inr refl)))

-- What a step does at each place.
module _ (c : ℕ) (m : Machine) where
  step_outside : m.place c ≡ outside → holding c m ≡ false → step c m ≡ done (put c spinning m)
  unfolding step
  step_outside e h = rw (step, e, h) refl

  step_waits : m.place c ≡ spinning → m.locked ≡ true → step c m ≡ done m
  unfolding step
  step_waits e h = rw (step, e, h) refl

  step_takes :
      m.place c ≡ spinning
      → m.locked ≡ false
      → step c m ≡ done (put c taken (record m { locked = true }))
  unfolding step
  step_takes e h = rw (step, e, h) refl

  step_enters : m.place c ≡ taken → step c m ≡ done (put c inside (record m { cpu = some c }))
  unfolding step
  step_enters e = rw (step, e) refl

  step_leaves :
      m.place c ≡ inside
      → holding c m ≡ true
      → step c m ≡ done (put c clearing (record m { cpu = none }))
  unfolding step
  step_leaves e h = rw (step, e, h) refl

  step_frees : m.place c ≡ clearing → step c m ≡ done (put c outside (record m { locked = false }))
  unfolding step
  step_frees e = rw (step, e) refl

-- Where CPU `c` has the lock, no other has.
others_free :
    (c : ℕ) (m : Machine)
    → IsSafe m
    → owns (m.place c) ≡ true
    → (d : ℕ) → c ≢ d
    → owns (m.place d) ≡ false
others_free c m s h d n = elim (Bool-cases (owns (m.place d))) [
  | inl o ↦ absurd (n (s.one c d h o))
  | inr o ↦ o
]

-- The same machine, where the lock is taken.
with_locked :
    (c : ℕ) (p : Place) (m : Machine) (cpu : Option ℕ)
    → m.locked ≡ true
    → IsSafe (put c p (record m { locked = true; cpu = cpu }))
    → IsSafe (put c p (record m { cpu = cpu }))
with_locked c p m cpu l s =
    subst (λ b. IsSafe (put c p (record m { locked = b; cpu = cpu }))) (sym l) s

-- A step of any CPU returns, and keeps the machine safe.
step-IsSafe : (c : ℕ) (m : Machine) → IsSafe m → (m' : Machine) × (step c m ≡ done m') × IsSafe m'
step-IsSafe c m s = elim (Place-cases (m.place c)) [
  | inl e ↦ elim (Bool-cases (holding c m)) [
    | inl h ↦ cc (sym (ap owns e) ∙ ap owns (s.named c (holding-cpu c m h)))
    | inr h ↦ (
      put c spinning m,
      step_outside c m e h,
      left-IsSafe c spinning m m.locked s refl (λ i. cc (sym (ap owns e) ∙ ap owns i))
          (λ d n o. s.taken_ d o),
    )
  ]
  | inr (inl e) ↦ elim (Bool-cases m.locked) [
    | inl l ↦ (m, step_waits c m e l, s)
    | inr l ↦ (
      put c taken (record m { locked = true }),
      step_takes c m e l,
      moved-IsSafe c taken m m.cpu (λ d n. unowned d l)
          (λ d h. cc (sym (unowned d l) ∙ inside_owns (m.place d) (s.named d h)))
          (λ i. cc (ap is_taken i)),
    )
  ]
  | inr (inr (inl e)) ↦
      let o : owns (m.place c) ≡ true = ap owns e in
      (
        put c inside (record m { cpu = some c }),
        step_enters c m e,
        with_locked c inside m (some c) (s.taken_ c o) (
            moved-IsSafe c inside m (some c) (others_free c m s o) (λ d h. (some_inj _ _ h, refl))
              (λ i. refl)),
      )
  | inr (inr (inr (inl e))) ↦
      let o : owns (m.place c) ≡ true = ap owns e in
      (
        put c clearing (record m { cpu = none }),
        step_leaves c m e (cpu-holding c m (s.taken_ c o) (s.inside_ c e)),
        with_locked c clearing m none (s.taken_ c o) (
            moved-IsSafe c clearing m none (others_free c m s o) (λ d h. cc)
              (λ i. cc (ap is_inside i))),
      )
  | inr (inr (inr (inr e))) ↦
      let o : owns (m.place c) ≡ true = ap owns e in
      (
        put c outside (record m { locked = false }),
        step_frees c m e,
        left-IsSafe c outside m false s refl (λ i. cc (sym (ap is_inside e) ∙ ap is_inside i))
            (λ d n od. absurd (n (s.one c d o od))),
      )
]
  where
    unowned : (d : ℕ) → m.locked ≡ false → owns (m.place d) ≡ false
    unowned d l = elim (Bool-cases (owns (m.place d))) [
      | inl o ↦ cc (sym l ∙ s.taken_ d o)
      | inr o ↦ o
    ]

run-step : (c : ℕ) (cs : List ℕ) (m m' : Machine) → step c m ≡ done m' → run (c ∷ cs) m ≡ run cs m'
unfolding run
run-step c cs m m' e = rw (e, ◌>>=◌) refl

run_end : (m : Machine) → run [] m ≡ done m
unfolding run
run_end m = refl

run-IsSafe :
    (cs : List ℕ) (m : Machine) → IsSafe m → (m' : Machine) × (run cs m ≡ done m') × IsSafe m'
run-IsSafe [] m s = (m, run_end m, s)
run-IsSafe (c ∷ cs) m s =
    let a = step-IsSafe c m s in
    let b = run-IsSafe cs a.0 a.2 in (b.0, run-step c cs m a.0 a.1 ∙ b.1, b.2)

initlock-IsSafe : IsSafe initlock
initlock-IsSafe = record {
  one = λ c d h k. cc;
  taken_ = λ c h. cc;
  named = λ c h. cc;
  inside_ = λ c h. cc (ap owns h);
}

-- Whatever steps the CPUs take, in any order, from a fresh lock on: no `acquire` and no `release`
-- panics, one CPU at most has the lock, the lock is taken while one has it, and `cpu` names the CPU
-- that is inside.
pub run-initlock : (cs : List ℕ) → (m : Machine) × (run cs initlock ≡ done m) × IsSafe m
run-initlock cs = run-IsSafe cs initlock initlock-IsSafe
