-- ===== src/Proc/Orphans.antt =====
-- What `exit` of xv6-public/proc.c does to the process table.
use ele3021_spring.Common.{
  ℕ, zero, suc, ◌≡◌, ◌≢◌, ◌+◌, inl, inr, refl, sym, ◌∙◌, ap, List, Option, none, some, some_inj,
  get_elem?, false, true, arith, Bool-cases, Option-cases, ◌==◌, if◌then◌else◌, ℕ_discrete, ==_refl,
  leb, ◌&&◌, ltb,
}
use ele3021_spring.Mlfq.{modify}
use ele3021_spring.Proc.{Proc, is_zombie}
use ele3021_spring.Proc.Signal.{wake}
use ele3021_spring.Proc.Slots.{
  Carries, Keeps, modify_from, map_from, modify-Carries, map-Carries, Carries-trans, Carries-refl,
}
use ele3021_spring.Proc.Family.{is_child_of, adopt_one, adopt, wake_all}

-- The parent of a process when `cur` has exited.
unfoldable pub new_parent : ℕ → ℕ → Proc → Option ℕ
new_parent cur init p = if is_child_of cur p then some init else p.parent

wake-parent : (chan : ℕ) (p : Proc) → (wake chan p).parent ≡ p.parent
unfolding wake
wake-parent chan p = ground arith

pub wake-Keeps : (chan : ℕ) → Keeps (wake chan)
unfolding wake
wake-Keeps chan p used = ground (arith, used)

-- A slot of a table after a step, and the slot that it was.
abbrev pub Parents : (ℕ → Proc → Option ℕ) → List Proc → List Proc → Type 0
Parents rule ps qs =
    (j : ℕ) (q : Proc)
    → get_elem? qs j ≡ some q
    → (p : Proc) × (get_elem? ps j ≡ some p) × (q.parent ≡ rule j p)

pub wake_all-Parents : (chan : ℕ) (ps : List Proc) → Parents (λ j p. p.parent) ps (wake_all chan ps)
wake_all-Parents chan ps j q e =
    let m = map_from j (wake chan) ps q e in
    (m.0, m.1, ap (λ (x : Proc). x.parent) m.2 ∙ wake-parent chan m.0)

-- Slot `i` alone is given its new parent.
abbrev one_rule : ℕ → ℕ → ℕ → ℕ → Proc → Option ℕ
one_rule cur init i j p = if i == j then new_parent cur init p else p.parent

rule_here :
    (cur init i j : ℕ) (p : Proc)
    → i ≡ j
    → is_child_of cur p ≡ true
    → some init ≡ one_rule cur init i j p
unfolding new_parent
rule_here cur init i j p e c = rw (c, sym e, ==_refl i) refl

rule_other : (cur init i j : ℕ) (p : Proc) → i ≢ j → p.parent ≡ one_rule cur init i j p
rule_other cur init i j p ne = ground (arith, ne)

rule_not :
    (cur init i j : ℕ) (p : Proc) → is_child_of cur p ≡ false → p.parent ≡ one_rule cur init i j p
unfolding new_parent
rule_not cur init i j p c = elim (Bool-cases (i == j)) [
  | inl y ↦ rw (y, c) refl
  | inr n ↦ rw n refl
]

modify-Parents :
    (cur init i : ℕ) (ps : List Proc) (x : Proc)
    → get_elem? ps i ≡ some x
    → is_child_of cur x ≡ true
    → Parents (one_rule cur init i) ps (modify i (λ q. record q { parent = some init }) ps)
modify-Parents cur init i ps x here child j q e =
    let m = modify_from i j (λ q. record q { parent = some init }) ps q e in
    (
      m.0,
      m.1,
      elim m.2 [
        | inl s ↦
            let same : x ≡ m.0 = some_inj _ _ (sym here ∙ ap (get_elem? ps) s.0 ∙ m.1) in
            let c : is_child_of cur m.0 ≡ true = sym (ap (is_child_of cur) same) ∙ child in
            ap (λ (y : Proc). y.parent) s.1 ∙ rule_here cur init i j m.0 s.0 c
        | inr s ↦ ap (λ (y : Proc). y.parent) s.1 ∙ rule_other cur init i j m.0 s.0
      ],
    )

adopt_one-Parents :
    (cur init chan i : ℕ) (ps : List Proc)
    → Parents (one_rule cur init i) ps (adopt_one cur init chan i ps)
unfolding adopt_one
adopt_one-Parents cur init chan i ps = elim (Option-cases (get_elem? ps i)) [
  | inl n ↦
      rw (adopt_one, n)
        (λ j q e. (
          q,
          e,
          elim (ℕ_discrete i j) [
            | yes s ↦ absurd (none_some (sym n ∙ ap (get_elem? ps) s ∙ e))
            | no s ↦ rule_other cur init i j q s
          ],
        ))
  | inr x ↦ elim (Bool-cases (is_child_of cur x.0)) [
    | inr no_ ↦
        rw (adopt_one, x.1, no_)
          (λ j q e. (
            q,
            e,
            elim (ℕ_discrete i j) [
              | yes s ↦ rule_not cur init i j q (
                  sym (ap (is_child_of cur) (some_inj _ _ (sym x.1 ∙ ap (get_elem? ps) s ∙ e)))
                  ∙ no_)
              | no s ↦ rule_other cur init i j q s
            ],
          ))
    | inl child ↦ elim (Bool-cases (is_zombie x.0.state)) [
      | inr no_ ↦ rw (adopt_one, x.1, child, no_) (modify-Parents cur init i ps x.0 x.1 child)
      | inl z ↦
          rw (adopt_one, x.1, child, z)
            (λ j q e.
              let a =
                wake_all-Parents chan (modify i (λ y. record y { parent = some init }) ps) j q e in
              let b = modify-Parents cur init i ps x.0 x.1 child j a.0 a.1 in (b.0, b.1, a.2 ∙ b.2))
    ]
  ]
]
  where
    none_some : {q : Proc} → none ≢ some q
    none_some h = cc

-- The slots from `i` on, `n` of them, are given their new parents.
abbrev pub range_rule : ℕ → ℕ → ℕ → ℕ → ℕ → Proc → Option ℕ
range_rule cur init n i j p = if leb i j && ltb j (i + n) then new_parent cur init p else p.parent

pub new_parent-eq :
    (cur init : ℕ) (p q : Proc)
    → p.parent ≡ q.parent
    → new_parent cur init p ≡ new_parent cur init q
unfolding new_parent is_child_of
new_parent-eq cur init p q e =
    ap (λ (o : Option ℕ). if elim o [ none ↦ false | some i ↦ i == cur ] then some init else o) e

range_later :
    (cur init n i j : ℕ) (a b : Proc)
    → i ≢ j
    → a.parent ≡ b.parent
    → range_rule cur init n (suc i) j a ≡ range_rule cur init (suc n) i j b
range_later cur init n i j a b ne e = ground (arith, ne, e, new_parent-eq cur init a b e)

range_before :
    (cur init n i j : ℕ) (a : Proc) → i ≡ j → range_rule cur init n (suc i) j a ≡ a.parent
range_before cur init n i j a e = ground (arith, e)

range_first :
    (cur init n i j : ℕ) (b : Proc)
    → i ≡ j
    → new_parent cur init b ≡ range_rule cur init (suc n) i j b
range_first cur init n i j b e = ground (arith, e)

one_here : (cur init i j : ℕ) (b : Proc) → i ≡ j → one_rule cur init i j b ≡ new_parent cur init b
one_here cur init i j b e = ground (arith, e)

pub adopt-Parents :
    (cur init chan n i : ℕ) (ps : List Proc)
    → Parents (range_rule cur init n i) ps (adopt cur init chan n i ps)
unfolding adopt
adopt-Parents cur init chan zero i ps j q e = (q, e, ground arith)
adopt-Parents cur init chan (suc n) i ps j q e =
    let a = adopt-Parents cur init chan n (suc i) (adopt_one cur init chan i ps) j q e in
    let b = adopt_one-Parents cur init chan i ps j a.0 a.1 in
    (
      b.0,
      b.1,
      elim (ℕ_discrete i j) [
        | yes s ↦
            a.2
            ∙ range_before cur init n i j a.0 s
            ∙ b.2
            ∙ one_here cur init i j b.0 s
            ∙ range_first cur init n i j b.0 s
        | no s ↦
            a.2 ∙ range_later cur init n i j a.0 b.0 s (b.2 ∙ sym (rule_other cur init i j b.0 s))
      ],
    )

-- Pids through the loop.
adopt_one-Carries :
    (cur init chan i : ℕ) (ps : List Proc) → Carries ps (adopt_one cur init chan i ps)
unfolding adopt_one
adopt_one-Carries cur init chan i ps = elim (Option-cases (get_elem? ps i)) [
  | inl n ↦ rw (adopt_one, n) (Carries-refl ps)
  | inr x ↦ elim (Bool-cases (is_child_of cur x.0)) [
    | inr no_ ↦ rw (adopt_one, x.1, no_) (Carries-refl ps)
    | inl child ↦ elim (Bool-cases (is_zombie x.0.state)) [
      | inr no_ ↦ rw (adopt_one, x.1, child, no_) moved
      | inl z ↦
          rw (adopt_one, x.1, child, z)
            (Carries-trans ps _ _ moved (map-Carries (wake chan) _ (wake-Keeps chan)))
    ]
  ]
]
  where
    moved : Carries ps (modify i (λ q. record q { parent = some init }) ps)
    moved = modify-Carries i (λ q. record q { parent = some init }) ps (λ p u. (u, refl))

pub adopt-Carries :
    (cur init chan n i : ℕ) (ps : List Proc) → Carries ps (adopt cur init chan n i ps)
unfolding adopt
adopt-Carries cur init chan zero i ps = Carries-refl ps
adopt-Carries cur init chan (suc n) i ps =
    Carries-trans ps (adopt_one cur init chan i ps) _ (adopt_one-Carries cur init chan i ps)
      (adopt-Carries cur init chan n (suc i) (adopt_one cur init chan i ps))
