-- ===== src/Mlfq/Pass.antt =====
-- The pass of the scheduler of xv6-public/proc.c over the table ends.
use ele3021_spring.Common.{
  ℕ, List, ◌≤◌, ◌≡◌, ◌∷◌, length, arith, ◌<◌, get_elem?, true, ◌*◌, ◌+◌, some, suc, ◌∙◌, [], subst,
  ap, ◌-◌, Option-cases, refl, sym, zero, inl, some_inj, inr, Bool-cases, get_elem?-lt,
}
use ele3021_spring.Proc.{Proc}
use ele3021_spring.Mlfq.{charge, modify, start_running, turn, pass, eligible, pick}
use ele3021_spring.Mlfq.Choose.{IsBest, pick-IsBest}

-- The quanta left in the whole table.
abbrev pub holds : List Proc → ℕ
holds [] = 0
holds (p ∷ ps) = p.hold + holds ps

-- The second table has as many slots, and no slot has more quantum left than in the first.
abbrev pub NoMore : List Proc → List Proc → Type 0
NoMore [] [] = Unit
NoMore [] (q ∷ qs) = ⊥
NoMore (p ∷ ps) [] = ⊥
NoMore (p ∷ ps) (q ∷ qs) = (q.hold ≤ p.hold) × NoMore ps qs

NoMore-holds : (ps qs : List Proc) → NoMore ps qs → holds qs ≤ holds ps
NoMore-holds [] [] h = omega arith
NoMore-holds [] (q ∷ qs) h = absurd h
NoMore-holds (p ∷ ps) [] h = absurd h
NoMore-holds (p ∷ ps) (q ∷ qs) h = omega (arith, h.0, NoMore-holds ps qs h.1)

NoMore-length : (ps qs : List Proc) → NoMore ps qs → length qs ≡ length ps
NoMore-length [] [] h = refl
NoMore-length [] (q ∷ qs) h = absurd h
NoMore-length (p ∷ ps) [] h = absurd h
NoMore-length (p ∷ ps) (q ∷ qs) h = ap suc (NoMore-length ps qs h.1)

charge-le : (p : Proc) → (charge p).hold ≤ p.hold
unfolding charge
charge-le p = ground arith

charge-lt : (p q : Proc) → q.hold ≤ p.hold → 0 < p.hold → (charge q).hold < p.hold
unfolding charge
charge-lt p q le pos = ground arith

-- A turn of a slot with some quantum left uses up quantum.
charge-holds :
    (ps qs : List Proc) (n : ℕ) (p : Proc)
    → NoMore ps qs
    → get_elem? ps n ≡ some p
    → 0 < p.hold
    → holds (modify n charge qs) < holds ps
charge-holds [] qs n p h e pos = cc
charge-holds (x ∷ ps) [] n p h e pos = absurd h
charge-holds (x ∷ ps) (q ∷ qs) zero p h e pos = omega (
  arith,
  NoMore-holds ps qs h.1,
  charge-lt x q h.0 (subst (λ (y : Proc). 0 < y.hold) (sym (some_inj x p e)) pos),
)
charge-holds (x ∷ ps) (q ∷ qs) (suc n) p h e pos =
    omega (arith, h.0, charge-holds ps qs n p h.1 e pos)

length-modify : (i : ℕ) (f : Proc → Proc) (ps : List Proc) → length (modify i f ps) ≡ length ps
length-modify i f [] = refl
length-modify zero f (p ∷ ps) = refl
length-modify (suc i) f (p ∷ ps) = ap suc (length-modify i f ps)

holds-start_running : (i : ℕ) (ps : List Proc) → holds (modify i start_running ps) ≡ holds ps
unfolding start_running
holds-start_running i [] = refl
holds-start_running zero (p ∷ ps) = refl
holds-start_running (suc i) (p ∷ ps) = omega (arith, holds-start_running i ps)

started :
    (n : ℕ) (ps : List Proc) (p : Proc)
    → get_elem? ps n ≡ some p
    → get_elem? (modify n start_running ps) n ≡ some (start_running p)
started n [] p e = cc
started zero (x ∷ ps) p e = cc
started (suc n) (x ∷ ps) p e = started n ps p e

eligible-hold : (level : ℕ) (p : Proc) → eligible level p ≡ true → 0 < p.hold
unfolding eligible
eligible-hold level p e = ground arith

bound : (h' h l n i : ℕ) → h' < h → h' * suc l + (l - suc n) < h * suc l + (l - i)
bound h' h l n i lt = grind arith

module _ (run : ℕ → List Proc → List Proc)
    (frugal : (n : ℕ) (ps : List Proc) → NoMore ps (run n ps)) where
  turn-less :
      (level n : ℕ) (ps : List Proc)
      → IsBest level ps n
      → (holds (turn run n ps) < holds ps) × (length (turn run n ps) ≡ length ps)
  unfolding turn start_running
  turn-less level n ps b = (
    omega (
      arith,
      holds-start_running n ps,
      charge-holds (modify n start_running ps) (run n (modify n start_running ps)) n
          (start_running b.slot) (frugal n (modify n start_running ps))
          (started n ps b.slot b.there) (eligible-hold level b.slot b.able),
    ),
    length-modify n charge (run n (modify n start_running ps))
        ∙ NoMore-length (modify n start_running ps) (run n (modify n start_running ps))
            (frugal n (modify n start_running ps))
        ∙ length-modify n start_running ps,
  )

  -- The fuel that a pass from slot `i` on needs.
  abbrev pub enough : ℕ → List Proc → ℕ
  enough i ps = holds ps * suc (length ps) + (length ps - i)

  enough-turn :
      (n i : ℕ) (ps qs : List Proc)
      → holds qs < holds ps
      → length qs ≡ length ps
      → i < length ps
      → enough (suc n) qs < enough i ps
  enough-turn n i ps qs less same lt = rw same (bound (holds qs) (holds ps) (length ps) n i less)

  -- If no process gains quantum during a turn, the pass comes to the end of the table within
  -- (quanta left + 1) * (slots + 1) rounds, although it may jump back to an earlier slot.
  pub pass-ends :
      (fuel level i : ℕ) (ps : List Proc) → enough i ps < fuel → (pass run fuel level i ps).0 ≡ true
  unfolding pass
  pass-ends zero level i ps h = absurd (omega arith)
  pass-ends (suc fuel) level i ps h = elim (Option-cases (get_elem? ps i)) [
    | inl e ↦ rw (pass, e)
    | inr (p, e) ↦ elim (Bool-cases (eligible level p)) [
      | inl g ↦
          let less =
            turn-less level (pick level ps 0 i p.priority) ps (pick-IsBest level ps i p e g) in
          rw (pass, e, g)
            (pass-ends fuel level (suc (pick level ps 0 i p.priority))
              (turn run (pick level ps 0 i p.priority) ps)
              (omega (
                arith,
                enough-turn (pick level ps 0 i p.priority) i ps
                    (turn run (pick level ps 0 i p.priority) ps) less.0 less.1
                    (get_elem?-lt ps i e),
              )))
      | inr g ↦
          rw (pass, e, g) (pass-ends fuel level (suc i) ps (omega (arith, get_elem?-lt ps i e)))
    ]
  ]
