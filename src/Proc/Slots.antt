-- ===== src/Proc/Slots.antt =====
-- Changes of single slots of the process table, and what a table carries over from another.
use ele3021_spring.Common.{
  ℕ, zero, suc, ◌≡◌, ◌≢◌, ◌⊎◌, inl, inr, refl, sym, ◌∙◌, ap, subst, List, [], ◌∷◌, some, some_inj,
  get_elem?, map, false, arith, length,
}
use ele3021_spring.Mlfq.{modify}
use ele3021_spring.Proc.{Proc, is_unused}

pub get_elem?-modify :
    (i : ℕ) (f : Proc → Proc) (ps : List Proc) {p : Proc}
    → get_elem? ps i ≡ some p
    → get_elem? (modify i f ps) i ≡ some (f p)
get_elem?-modify i f [] e = cc
get_elem?-modify zero f (x ∷ ps) e = ap (λ o. some (f o)) (some_inj _ _ e)
get_elem?-modify (suc i) f (x ∷ ps) e = get_elem?-modify i f ps e

pub get_elem?-modify_ne :
    (i j : ℕ) (f : Proc → Proc) (ps : List Proc)
    → i ≢ j
    → get_elem? (modify i f ps) j ≡ get_elem? ps j
get_elem?-modify_ne i j f [] ne = refl
get_elem?-modify_ne zero zero f (x ∷ ps) ne = absurd (ne refl)
get_elem?-modify_ne zero (suc j) f (x ∷ ps) ne = refl
get_elem?-modify_ne (suc i) zero f (x ∷ ps) ne = refl
get_elem?-modify_ne (suc i) (suc j) f (x ∷ ps) ne =
    get_elem?-modify_ne i j f ps (λ e. ne (ap suc e))

pub length-modify : (i : ℕ) (f : Proc → Proc) (ps : List Proc) → length (modify i f ps) ≡ length ps
length-modify i f [] = refl
length-modify zero f (x ∷ ps) = refl
length-modify (suc i) f (x ∷ ps) = ap suc (length-modify i f ps)

-- Where a changed slot comes from.
pub modify_from :
    (i j : ℕ) (f : Proc → Proc) (ps : List Proc) (q : Proc)
    → get_elem? (modify i f ps) j ≡ some q
    → (p : Proc) × (get_elem? ps j ≡ some p) × (((i ≡ j) × (q ≡ f p)) ⊎ ((i ≢ j) × (q ≡ p)))
modify_from i j f [] q e = cc
modify_from zero zero f (x ∷ ps) q e = (x, refl, inl (refl, sym (some_inj _ _ e)))
modify_from zero (suc j) f (x ∷ ps) q e = (q, e, inr (omega arith, refl))
modify_from (suc i) zero f (x ∷ ps) q e = (q, e, inr (omega arith, refl))
modify_from (suc i) (suc j) f (x ∷ ps) q e =
    let m = modify_from i j f ps q e in
    (m.0, m.1, elim m.2 [ inl s ↦ inl (ap suc s.0, s.1) | inr s ↦ inr (omega (arith, s.0), s.1) ])

pub map_from :
    (j : ℕ) (f : Proc → Proc) (ps : List Proc) (q : Proc)
    → get_elem? (map f ps) j ≡ some q
    → (p : Proc) × (get_elem? ps j ≡ some p) × (q ≡ f p)
map_from j f [] q e = cc
map_from zero f (x ∷ ps) q e = (x, refl, sym (some_inj _ _ e))
map_from (suc j) f (x ∷ ps) q e = map_from j f ps q e

-- A slot that is in use.
abbrev pub IsUsed : Proc → Type 0
IsUsed p = is_unused p.state ≡ false

-- Every used slot of `qs` was used in `ps`, with the same pid.
abbrev pub Carries : List Proc → List Proc → Type 0
Carries ps qs =
    (j : ℕ) (q : Proc)
    → get_elem? qs j ≡ some q
    → IsUsed q
    → (p : Proc) × (get_elem? ps j ≡ some p) × IsUsed p × (p.pid ≡ q.pid)

-- A change of a slot that brings no slot into use and keeps the pid of used ones.
abbrev pub Keeps : (Proc → Proc) → Type 0
Keeps f = (p : Proc) → IsUsed (f p) → IsUsed p × (p.pid ≡ (f p).pid)

pub modify-Carries :
    (i : ℕ) (f : Proc → Proc) (ps : List Proc) → Keeps f → Carries ps (modify i f ps)
modify-Carries i f ps keeps j q e used =
    let m = modify_from i j f ps q e in
    elim m.2 [
      | inl s ↦
          let u = keeps m.0 (subst IsUsed s.1 used) in
          (m.0, m.1, u.0, u.1 ∙ sym (ap (λ (p : Proc). p.pid) s.1))
      | inr s ↦ (m.0, m.1, subst IsUsed s.1 used, sym (ap (λ (p : Proc). p.pid) s.1))
    ]

pub map-Carries : (f : Proc → Proc) (ps : List Proc) → Keeps f → Carries ps (map f ps)
map-Carries f ps keeps j q e used =
    let m = map_from j f ps q e in
    let u = keeps m.0 (subst IsUsed m.2 used) in
    (m.0, m.1, u.0, u.1 ∙ sym (ap (λ (p : Proc). p.pid) m.2))

pub Carries-trans : (ps qs rs : List Proc) → Carries ps qs → Carries qs rs → Carries ps rs
Carries-trans ps qs rs a b j r e used =
    let m = b j r e used in let n = a j m.0 m.1 m.2 in (n.0, n.1, n.2, n.3 ∙ m.3)

pub Carries-refl : (ps : List Proc) → Carries ps ps
Carries-refl ps j q e used = (q, e, used, refl)

pub modify-modify :
    (i : ℕ) (f g : Proc → Proc) (ps : List Proc)
    → modify i g (modify i f ps) ≡ modify i (λ p. g (f p)) ps
modify-modify i f g [] = refl
modify-modify zero f g (x ∷ ps) = refl
modify-modify (suc i) f g (x ∷ ps) = ap (λ qs. x ∷ qs) (modify-modify i f g ps)

-- A change of a slot that is in use already.
pub modify-Carries_at :
    (i : ℕ) (f : Proc → Proc) (ps : List Proc) (p : Proc)
    → get_elem? ps i ≡ some p
    → IsUsed p
    → p.pid ≡ (f p).pid
    → Carries ps (modify i f ps)
modify-Carries_at i f ps p here used same j q e uq =
    let m = modify_from i j f ps q e in
    elim m.2 [
      | inl s ↦
          let at_i : p ≡ m.0 = some_inj _ _ (sym here ∙ ap (get_elem? ps) s.0 ∙ m.1) in
          (
            p,
            ap (get_elem? ps) (sym s.0) ∙ here,
            used,
            same ∙ ap (λ (x : Proc). (f x).pid) at_i ∙ sym (ap (λ (x : Proc). x.pid) s.1),
          )
      | inr s ↦ (m.0, m.1, subst IsUsed s.1 uq, sym (ap (λ (x : Proc). x.pid) s.1))
    ]
