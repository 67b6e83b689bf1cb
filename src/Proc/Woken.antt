-- ===== src/Proc/Woken.antt =====
-- What stays true of a slot while `exit` of xv6-public/proc.c passes children on.
use ele3021_spring.Proc.Slots.{get_elem?-modify, get_elem?-modify_ne}
use ele3021_spring.Common.{
  ℕ, List, some, ◌≡◌, arith, get_elem?, ℕ_discrete, Option-cases, suc, ap, map, inl, zero, sym,
  get_elem?-map, inr, ◌∙◌, Bool-cases,
}
use ele3021_spring.Mlfq.{modify}
use ele3021_spring.Proc.{Proc, is_zombie, sleeping, runnable}
use ele3021_spring.Proc.Signal.{wake}
use ele3021_spring.Proc.Family.{is_child_of, adopt_one, adopt}

-- Slot `j` is there, and `P` holds of it.
abbrev pub Has : (Proc → Type 0) → ℕ → List Proc → Type 0
Has P j ps = (q : Proc) × (get_elem? ps j ≡ some q) × P q

module _ (P : Proc → Type 0) (j : ℕ) where
  pub modify-Has :
      (i : ℕ) (f : Proc → Proc) (ps : List Proc)
      → ((p : Proc) → P p → P (f p))
      → Has P j ps
      → Has P j (modify i f ps)
  modify-Has i f ps keep h = elim (ℕ_discrete i j) [
    | yes s ↦ (
      f h.0,
      ap (get_elem? (modify i f ps)) (sym s) ∙ get_elem?-modify i f ps (ap (get_elem? ps) s ∙ h.1),
      keep h.0 h.2,
    )
    | no n ↦ (h.0, get_elem?-modify_ne i j f ps n ∙ h.1, h.2)
  ]

  pub map-Has :
      (f : Proc → Proc) (ps : List Proc) (p : Proc)
      → get_elem? ps j ≡ some p
      → P (f p)
      → Has P j (map f ps)
  map-Has f ps p e h = (f p, get_elem?-map f ps j e, h)

-- What holds however the parent is set and whoever is woken.
pub record IsLasting (P : Proc → Type 0) : Type 0 where
  pub adopts : (p : Proc) (i : ℕ) → P p → P (record p { parent = some i })
  pub wakes : (chan : ℕ) (p : Proc) → P p → P (wake chan p)

module _ (P : Proc → Type 0) (ok : IsLasting P) (j : ℕ) where
  adopt_one-Has :
      (cur init chan i : ℕ) (ps : List Proc) → Has P j ps → Has P j (adopt_one cur init chan i ps)
  unfolding adopt_one
  adopt_one-Has cur init chan i ps h = elim (Option-cases (get_elem? ps i)) [
    | inl n ↦ rw (adopt_one, n) h
    | inr x ↦
        let moved =
          modify-Has P j i (λ q. record q { parent = some init }) ps (λ p. ok.adopts p init) h in
        elim (Bool-cases (is_child_of cur x.0)) [
          | inr no_ ↦ rw (adopt_one, x.1, no_) h
          | inl child ↦ elim (Bool-cases (is_zombie x.0.state)) [
            | inr no_ ↦ rw (adopt_one, x.1, child, no_) moved
            | inl z ↦
                rw (adopt_one, x.1, child, z)
                  (map-Has P j (wake chan) _ moved.0 moved.1 (ok.wakes chan moved.0 moved.2))
          ]
        ]
  ]

  pub adopt-Has :
      (cur init chan n i : ℕ) (ps : List Proc) → Has P j ps → Has P j (adopt cur init chan n i ps)
  unfolding adopt
  adopt-Has cur init chan zero i ps h = h
  adopt-Has cur init chan (suc n) i ps h =
      adopt-Has cur init chan n (suc i) (adopt_one cur init chan i ps)
        (adopt_one-Has cur init chan i ps h)

abbrev pub IsThere : Proc → Type 0
IsThere p = Unit

abbrev pub Runs : Proc → Type 0
Runs p = p.state ≡ runnable

pub IsThere-IsLasting : IsLasting IsThere
IsThere-IsLasting = record { adopts = λ p i h. tt; wakes = λ chan p h. tt }

wake-Runs : (chan : ℕ) (p : Proc) → Runs p → Runs (wake chan p)
unfolding wake
wake-Runs chan p h = ground (arith, h)

pub Runs-IsLasting : IsLasting Runs
Runs-IsLasting = record { adopts = λ p i h. h; wakes = wake-Runs }

pub wake_sleeper : (chan : ℕ) (p : Proc) → p.state ≡ sleeping → p.chan ≡ chan → Runs (wake chan p)
unfolding wake
wake_sleeper chan p s c = ground (arith, s, c)
