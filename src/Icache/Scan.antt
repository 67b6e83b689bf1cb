-- ===== src/Icache/Scan.antt =====
-- The scan of `iget` in xv6-public/fs.c over the inode cache, and changes of one slot.
use ele3021_spring.Common.{
  ℕ, slt, get_elem?, List, ◌≡◌, true, some, none, false, ◌+◌, ◌∷◌, ◌≢◌, Bool-cases, ==_refl, set,
  inl, ap, ◌==◌, inr, ◌⊎◌, sym, ==→ne, ==→eq, ℕ_discrete, some_inj, ◌∙◌, get_elem?-lt, arith, suc,
  [], refl, subst, get_elem?-set_self, zero, get_elem?-set_ne,
}
use ele3021_spring.Inode.{Inode}
use ele3021_spring.Icache.{is_for, cached, empty_slot}

-- A slot with references.
abbrev pub IsLive : Inode → Type 0
IsLive ip = slt 0 ip.ref ≡ true

-- A place in a list is its head or a place in its tail.
head_or :
    (P : Inode → Type 0) (q : Inode) (ips : List Inode) (j : ℕ) (p : Inode)
    → get_elem? (q ∷ ips) j ≡ some p
    → P q
    → ((k : ℕ) → get_elem? ips k ≡ some p → P p)
    → P p
head_or P q ips zero p e h t = subst P (some_inj _ _ e) h
head_or P q ips (suc j) p e h t = t j e

pub cached-some :
    (dev inum i : ℕ) (ips : List Inode) (k : ℕ)
    → cached dev inum i ips ≡ some k
    → (p : Inode) × (j : ℕ) × (k ≡ i + j) × (get_elem? ips j ≡ some p) × (is_for dev inum p ≡ true)
unfolding cached
cached-some dev inum i [] k e = cc
cached-some dev inum i (p ∷ ips) k e = elim (Bool-cases (is_for dev inum p)) [
  | inl u ↦ (p, 0, sym (some_inj _ _ (rw u at e)) ∙ omega arith, refl, u)
  | inr v ↦
      let m = cached-some dev inum (suc i) ips k (rw v at e) in
      (m.0, suc m.1, m.2 ∙ omega arith, m.3, m.4)
]

pub cached-none :
    (dev inum i : ℕ) (ips : List Inode)
    → cached dev inum i ips ≡ none
    → (j : ℕ) (p : Inode) → get_elem? ips j ≡ some p
    → is_for dev inum p ≡ false
unfolding cached
cached-none dev inum i [] e j p at_j = cc
cached-none dev inum i (q ∷ ips) e j p at_j = elim (Bool-cases (is_for dev inum q)) [
  | inl u ↦ cc (rw u at e)
  | inr v ↦
      head_or (λ x. is_for dev inum x ≡ false) q ips j p at_j v
        (λ k at_k. cached-none dev inum (suc i) ips (rw v at e) k p at_k)
]

pub empty_slot-some :
    (i : ℕ) (ips : List Inode) (k : ℕ)
    → empty_slot i ips ≡ some k
    → (p : Inode) × (j : ℕ) × (k ≡ i + j) × (get_elem? ips j ≡ some p) × (p.ref ≡ 0)
unfolding empty_slot
empty_slot-some i [] k e = cc
empty_slot-some i (p ∷ ips) k e = elim (Bool-cases (p.ref == 0)) [
  | inl u ↦ (p, 0, sym (some_inj _ _ (rw u at e)) ∙ omega arith, refl, ==→eq p.ref 0 u)
  | inr v ↦
      let m = empty_slot-some (suc i) ips k (rw v at e) in
      (m.0, suc m.1, m.2 ∙ omega arith, m.3, m.4)
]

pub empty_slot-none :
    (i : ℕ) (ips : List Inode)
    → empty_slot i ips ≡ none
    → (j : ℕ) (p : Inode) → get_elem? ips j ≡ some p
    → p.ref ≢ 0
unfolding empty_slot
empty_slot-none i [] e j p at_j = cc
empty_slot-none i (q ∷ ips) e j p at_j = elim (Bool-cases (q.ref == 0)) [
  | inl u ↦ cc (rw u at e)
  | inr v ↦
      head_or (λ x. x.ref ≢ 0) q ips j p at_j (==→ne q.ref 0 v)
        (λ k at_k. empty_slot-none (suc i) ips (rw v at e) k p at_k)
]

pub for_parts :
    (dev inum : ℕ) (p : Inode)
    → is_for dev inum p ≡ true
    → IsLive p × (p.dev ≡ dev) × (p.inum ≡ inum)
unfolding is_for
for_parts dev inum p h = elim (Bool-cases (slt 0 p.ref)) [
  | inr n ↦ cc (rw n at h)
  | inl l ↦ elim (Bool-cases (p.dev == dev)) [
    | inr n ↦ cc (rw (l, n) at h)
    | inl d ↦ (l, ==→eq p.dev dev d, ==→eq p.inum inum (rw (l, d) at h))
  ]
]

pub parts-for :
    (dev inum : ℕ) (p : Inode) → IsLive p → p.dev ≡ dev → p.inum ≡ inum → is_for dev inum p ≡ true
unfolding is_for
parts-for dev inum p l d n = rw (l, d, n, ==_refl dev) (==_refl inum)

-- Where a changed slot comes from.
pub set_from :
    (i j : ℕ) (v : Inode) (ips : List Inode) (p q : Inode)
    → get_elem? ips i ≡ some p
    → get_elem? (set ips i v) j ≡ some q
    → ((i ≡ j) × (q ≡ v)) ⊎ ((i ≢ j) × (get_elem? ips j ≡ some q))
set_from i j v ips p q here e = elim (ℕ_discrete i j) [
  | yes s ↦ inl (
    s,
    sym (
        some_inj _ _ (
          sym (get_elem?-set_self ips i v (get_elem?-lt ips i here))
          ∙ ap (get_elem? (set ips i v)) s
          ∙ e)),
  )
  | no n ↦ inr (n, sym (get_elem?-set_ne ips i j v n) ∙ e)
]
