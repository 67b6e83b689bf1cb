-- ===== src/Proc/Kept.antt =====
-- The passing on of children in `exit` of xv6-public/proc.c changes no pid.
use ele3021_spring.Common.{
  ℕ, zero, suc, ◌≡◌, refl, sym, ◌∙◌, ap, List, some, get_elem?, Bool-cases, Option-cases, inl, inr,
  arith, map,
}
use ele3021_spring.Mlfq.{modify}
use ele3021_spring.Proc.{Proc, is_zombie}
use ele3021_spring.Proc.Signal.{wake}
use ele3021_spring.Proc.Slots.{modify_from, map_from}
use ele3021_spring.Proc.Family.{is_child_of, adopt_one, adopt}

-- The slots of `qs` are slots of `ps`, with the same pids.
abbrev pub SamePids : List Proc → List Proc → Type 0
SamePids ps qs =
    (j : ℕ) (q : Proc)
    → get_elem? qs j ≡ some q
    → (p : Proc) × (get_elem? ps j ≡ some p) × (p.pid ≡ q.pid)

wake-pid : (chan : ℕ) (p : Proc) → p.pid ≡ (wake chan p).pid
unfolding wake
wake-pid chan p = ground arith

pub wake-SamePids : (chan : ℕ) (ps : List Proc) → SamePids ps (map (wake chan) ps)
wake-SamePids chan ps j q e =
    let m = map_from j (wake chan) ps q e in
    (m.0, m.1, wake-pid chan m.0 ∙ sym (ap (λ (x : Proc). x.pid) m.2))

moved :
    (i init : ℕ) (ps : List Proc) → SamePids ps (modify i (λ q. record q { parent = some init }) ps)
moved i init ps j q e =
    let m = modify_from i j (λ q. record q { parent = some init }) ps q e in
    (
      m.0,
      m.1,
      elim m.2 [
        | inl s ↦ sym (ap (λ (x : Proc). x.pid) s.1)
        | inr s ↦ sym (ap (λ (x : Proc). x.pid) s.1)
      ],
    )

pub SamePids-trans : (ps qs rs : List Proc) → SamePids ps qs → SamePids qs rs → SamePids ps rs
SamePids-trans ps qs rs a b j r e = let m = b j r e in let n = a j m.0 m.1 in (n.0, n.1, n.2 ∙ m.2)

same : (ps : List Proc) → SamePids ps ps
same ps j q e = (q, e, refl)

adopt_one-SamePids :
    (cur init chan i : ℕ) (ps : List Proc) → SamePids ps (adopt_one cur init chan i ps)
unfolding adopt_one
adopt_one-SamePids cur init chan i ps = elim (Option-cases (get_elem? ps i)) [
  | inl n ↦ rw (adopt_one, n) (same ps)
  | inr x ↦ elim (Bool-cases (is_child_of cur x.0)) [
    | inr no_ ↦ rw (adopt_one, x.1, no_) (same ps)
    | inl child ↦ elim (Bool-cases (is_zombie x.0.state)) [
      | inr no_ ↦ rw (adopt_one, x.1, child, no_) (moved i init ps)
      | inl z ↦
          rw (adopt_one, x.1, child, z)
            (SamePids-trans ps _ _ (moved i init ps) (wake-SamePids chan _))
    ]
  ]
]

pub adopt-SamePids :
    (cur init chan n i : ℕ) (ps : List Proc) → SamePids ps (adopt cur init chan n i ps)
unfolding adopt
adopt-SamePids cur init chan zero i ps = same ps
adopt-SamePids cur init chan (suc n) i ps =
    SamePids-trans ps (adopt_one cur init chan i ps) _ (adopt_one-SamePids cur init chan i ps)
      (adopt-SamePids cur init chan n (suc i) (adopt_one cur init chan i ps))
