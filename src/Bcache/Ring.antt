-- ===== src/Bcache/Ring.antt =====
-- The list of buffers of xv6-public/bio.c as a ring.
use ele3021_spring.Bcache.{Bcache, head, store, unlink, push_front}
use ele3021_spring.Common.{
  ℕ, List, ◌≡◌, All, ◌++◌, ◌∷◌, subst, arith, [], ◌∙◌, sym, ◌≢◌, ◌==◌, false,
}
use ele3021_spring.Kalloc.Chain.{Absent, Distinct}

-- From `from` over the buffers to `to`, forwards and backwards.
abbrev pub Links : (ℕ → ℕ) → (ℕ → ℕ) → ℕ → List ℕ → ℕ → Type 0
Links next prev from [] to = (next from ≡ to) × (prev to ≡ from)
Links next prev from (x ∷ xs) to = (next from ≡ x) × (prev x ≡ from) × Links next prev x xs to

-- The buffers of the list, each once, the most recently used one first.
pub record IsRing (c : Bcache) (ring : List ℕ) : Type 0 where
  pub links : Links c.next c.prev head ring head
  pub distinct : Distinct ring
  pub apart : Absent head ring

module _ {P Q : ℕ → Type 0} where
  All-weaken : (xs : List ℕ) → ((j : ℕ) → P j → Q j) → All P xs → All Q xs
  All-weaken [] f a = tt
  All-weaken (x ∷ xs) f a = (f x a.0, All-weaken xs f a.1)

All-apart : (v w : ℕ) (xs : List ℕ) → Absent v xs → Absent w xs → All (λ j. (j ≢ v) × (j ≢ w)) xs
All-apart v w [] a b = tt
All-apart v w (x ∷ xs) a b = ((a.0, b.0), All-apart v w xs a.1 b.1)

module _ (P : ℕ → Type 0) where
  All-prefix : (xs ys : List ℕ) → All P (xs ++ ys) → All P xs
  All-prefix [] ys a = tt
  All-prefix (x ∷ xs) ys a = (a.0, All-prefix xs ys a.1)

  All-suffix : (xs ys : List ℕ) → All P (xs ++ ys) → All P ys
  All-suffix [] ys a = a
  All-suffix (x ∷ xs) ys a = All-suffix xs ys a.1

  pub All-without : (xs ys : List ℕ) (b : ℕ) → All P (xs ++ (b ∷ ys)) → P b × All P (xs ++ ys)
  All-without [] ys b a = a
  All-without (x ∷ xs) ys b a = let r = All-without xs ys b a.1 in (r.0, (a.0, r.1))

-- The list without one of its buffers.
pub Distinct-without :
    (xs ys : List ℕ) (b : ℕ) → Distinct (xs ++ (b ∷ ys)) → Absent b (xs ++ ys) × Distinct (xs ++ ys)
Distinct-without [] ys b d = d
Distinct-without (x ∷ xs) ys b d =
    let r = Distinct-without xs ys b d.1 in
    let a = All-without (λ w. w ≢ x) xs ys b d.0 in ((λ e. a.0 (sym e), r.0), (a.1, r.1))

-- Stores to other buffers do not change a part of the list.
Links-stays :
    (next prev next' prev' : ℕ → ℕ) (from : ℕ) (xs : List ℕ) (to : ℕ)
    → All (λ j. next' j ≡ next j) (from ∷ xs)
    → All (λ j. prev' j ≡ prev j) xs
    → prev' to ≡ prev to
    → Links next prev from xs to
    → Links next' prev' from xs to
Links-stays next prev next' prev' from [] to a b e l = (a.0 ∙ l.0, e ∙ l.1)
Links-stays next prev next' prev' from (x ∷ xs) to a b e l =
    (a.0 ∙ l.0, b.0 ∙ l.1, Links-stays next prev next' prev' x xs to a.1 b.1 e l.2)

-- What stands at the ends of a part of the list is one of its buffers.
Links-last :
    (Q : ℕ → Type 0) (next prev : ℕ → ℕ) (from : ℕ) (xs : List ℕ) (to : ℕ)
    → Links next prev from xs to
    → All Q (from ∷ xs)
    → Q (prev to)
Links-last Q next prev from [] to l a = subst Q (sym l.1) a.0
Links-last Q next prev from (x ∷ xs) to l a = Links-last Q next prev x xs to l.2 a.1

Links-first :
    (Q : ℕ → Type 0) (next prev : ℕ → ℕ) (from : ℕ) (xs : List ℕ) (to : ℕ)
    → Links next prev from xs to
    → All Q xs
    → Q to
    → Q (next from)
Links-first Q next prev from [] to l a q = subst Q (sym l.0) q
Links-first Q next prev from (x ∷ xs) to l a q = subst Q (sym l.0) a.0

Links-split :
    (next prev : ℕ → ℕ) (from : ℕ) (xs ys : List ℕ) (b to : ℕ)
    → Links next prev from (xs ++ (b ∷ ys)) to
    → Links next prev from xs b × Links next prev b ys to
Links-split next prev from [] ys b to l = ((l.0, l.1), l.2)
Links-split next prev from (x ∷ xs) ys b to l =
    let r = Links-split next prev x xs ys b to l.2 in ((l.0, l.1, r.0), r.1)

-- The parts before and behind a buffer, with the two stores that join them.
module _ (next prev : ℕ → ℕ) (b to : ℕ) (ys : List ℕ) (behind : Links next prev b ys to) where
  abbrev next_joined : ℕ → ℕ
  next_joined = store next (prev b) (next b)

  abbrev prev_joined : ℕ → ℕ
  prev_joined = store prev (next b) (prev b)

  Links-join :
      (from : ℕ) (xs : List ℕ)
      → Links next prev from xs b
      → Absent from (xs ++ ys)
      → Absent to (xs ++ ys)
      → Distinct (xs ++ ys)
      → Links next_joined prev_joined from (xs ++ ys) to
  Links-join from [] before a t d = at_ys ys behind a t d
    where
      at_ys :
          (zs : List ℕ)
          → Links next prev b zs to
          → Absent from zs
          → Absent to zs
          → Distinct zs
          → Links next_joined prev_joined from zs to
      at_ys [] l a1 t1 d1 = (ground (arith, before, l), ground (arith, before, l))
      at_ys (z ∷ zs) l a1 t1 d1 = (
        ground (arith, before, l),
        ground (arith, before, l),
        Links-stays next prev next_joined prev_joined z zs to
            (All-weaken (z ∷ zs) (λ j ne. ground (arith, ne, before)) a1)
            (All-weaken zs (λ j ne. ground (arith, ne, l)) d1.0) (ground (arith, l, t1)) l.2,
      )
  Links-join from (x ∷ xs) before a t d =
      let p : prev b ≢ from =
        Links-last (λ j. j ≢ from) next prev x xs b before.2
          (All-prefix (λ w. w ≢ from) (x ∷ xs) ys a) in
      let n : next b ≢ x =
        Links-first (λ j. j ≢ x) next prev b ys to behind (All-suffix (λ w. w ≢ x) xs ys d.0)
          (λ e. t.0 (sym e)) in
      (ground (arith, p, before), ground (arith, n, before), Links-join x xs before.2 d.0 t.1 d.1)

pub unlink-IsRing :
    (c : Bcache) (xs ys : List ℕ) (i : ℕ)
    → IsRing c (xs ++ (i ∷ ys))
    → IsRing (unlink i c) (xs ++ ys)
unfolding unlink
unlink-IsRing c xs ys i r =
    let parts = Links-split c.next c.prev head xs ys i head r.links in
    let a = All-without (λ w. w ≢ head) xs ys i r.apart in
    let d = Distinct-without xs ys i r.distinct in
    let other : c.next i ≢ i =
      Links-first (λ j. j ≢ i) c.next c.prev i ys head parts.1 (All-suffix (λ w. w ≢ i) xs ys d.0)
        (λ e. a.0 (sym e)) in
    let same : (i == c.next i) ≡ false = ground (arith, other) in
    record {
      links = rw same (Links-join c.next c.prev i head ys parts.1 head xs parts.0 a.1 a.1 d.1);
      distinct = d.1;
      apart = a.1;
    }

pub push_front-IsRing :
    (c : Bcache) (ring : List ℕ) (i : ℕ)
    → IsRing c ring
    → Absent i ring
    → i ≢ head
    → IsRing (push_front i c) (i ∷ ring)
unfolding push_front
push_front-IsRing c [] i r out ne = record {
  links = (
    ground (arith, ne),
    ground (arith, ne, r.links),
    (ground (arith, ne, r.links), ground (arith, ne, r.links)),
  );
  distinct = (out, r.distinct);
  apart = (ne, r.apart);
}
push_front-IsRing c (x ∷ xs) i r out ne = record {
  links = (
    ground (arith, ne),
    ground (arith, ne, out.0, r.links),
    (
      ground (arith, ne, r.links),
      ground (arith, ne, r.links),
      Links-stays c.next c.prev (push_front i c).next (push_front i c).prev x xs head
          (All-weaken (x ∷ xs) (λ j ne2. ground (arith, ne2))
            (All-apart head i (x ∷ xs) r.apart out))
          (All-weaken xs (λ j ne2. ground (arith, ne2, r.links))
            (All-apart i x xs out.1 r.distinct.0))
          (ground (arith, ne, r.links, r.apart)) r.links.2,
    ),
  );
  distinct = (out, r.distinct);
  apart = (ne, r.apart);
}
