-- ===== src/Kalloc/Chain.antt =====
-- The linked free list of xv6-public/kalloc.c against a list of pages.
use ele3021_spring.Common.{ℕ, ◌<◌, ◌≡◌, ◌≢◌, refl, List, [], ◌∷◌, false, All, done, ◌>>=◌, arith}
use ele3021_spring.Kalloc.{Kmem, store, kalloc, bad_page, kfree}

-- The pages reached from `head` by following the stored words.
abbrev pub Chain : (ℕ → ℕ) → ℕ → List ℕ → Type 0
Chain next head [] = head ≡ 0
Chain next head (v ∷ vs) = (head ≡ v) × (v ≢ 0) × Chain next (next v) vs

abbrev pub Absent : ℕ → List ℕ → Type 0
Absent v vs = All (λ w. w ≢ v) vs

abbrev pub Distinct : List ℕ → Type 0
Distinct [] = Unit
Distinct (v ∷ vs) = Absent v vs × Distinct vs

-- The free list holds the pages `vs`, each once, all pages that `kfree` accepts; no lock is held.
pub record IsFreeList (kend : ℕ) (k : Kmem) (vs : List ℕ) : Type 0 where
  pub chain : Chain k.next k.freelist vs
  pub distinct : Distinct vs
  pub good : All (λ v. bad_page kend v ≡ false) vs
  pub unlocked : k.locked ≡ false

-- A store to a page that is not on the list does not change the list.
Chain-store :
    (next : ℕ → ℕ) (v w head : ℕ) (vs : List ℕ)
    → Absent v vs
    → Chain next head vs
    → Chain (store next v w) head vs
Chain-store next v w head [] a c = c
Chain-store next v w head (x ∷ vs) a c =
    (c.0, c.1, rw same (Chain-store next v w (next x) vs a.1 c.2))
  where
    same : store next v w x ≡ next x
    same = ground (arith, a.0)

-- A page that `kfree` accepts is not the null pointer, given that the kernel ends above 0.
good-ne-zero : (kend v : ℕ) → 0 < kend → bad_page kend v ≡ false → v ≢ 0
unfolding bad_page
good-ne-zero kend v h g e = ground arith

-- Freeing an acceptable page that is not on the free list returns, puts the page in front of the
-- list and keeps the list well formed.
pub kfree-IsFreeList :
    (kend v : ℕ) (k : Kmem) (vs : List ℕ)
    → 0 < kend
    → bad_page kend v ≡ false
    → Absent v vs
    → IsFreeList kend k vs
    → (k' : Kmem) × (kfree kend v k ≡ done k') × IsFreeList kend k' (v ∷ vs)
unfolding kfree
kfree-IsFreeList kend v k vs pos good absent inv = (
  record k { next = store k.next v k.freelist; freelist = v },
  ground (arith, inv.unlocked),
  record {
    chain = (
      refl,
      good-ne-zero kend v pos good,
      rw stored (Chain-store k.next v k.freelist k.freelist vs absent inv.chain),
    );
    distinct = (absent, inv.distinct);
    good = (good, inv.good);
    unlocked = inv.unlocked;
  },
)
  where
    stored : store k.next v k.freelist v ≡ k.freelist
    stored = ground arith

-- What an allocation from the free list `vs` must give: the first page, with the rest of the list
-- still well formed, or 0 and an unchanged allocator when the list is empty.
abbrev pub Allocates : ℕ → Kmem → List ℕ → Type 0
Allocates kend k [] = kalloc k ≡ done (0, k)
Allocates kend k (v ∷ vs) =
    (k' : Kmem) × (kalloc k ≡ done (v, k'))
    × (bad_page kend v ≡ false)
    × Absent v vs
    × IsFreeList kend k' vs

-- Allocation from a well-formed free list takes its first page, which `kfree` accepts back and
-- which is no longer on the list; what is left is well formed. From an empty list it returns 0
-- and changes nothing.
pub kalloc-Allocates :
    (kend : ℕ) (k : Kmem) (vs : List ℕ) → IsFreeList kend k vs → Allocates kend k vs
unfolding kalloc
kalloc-Allocates kend k [] inv = ground (arith, inv.chain, inv.unlocked)
kalloc-Allocates kend k (v ∷ vs) inv = (
  record k { freelist = k.next v },
  ground (arith, inv.chain, inv.unlocked),
  inv.good.0,
  inv.distinct.0,
  record {
    chain = inv.chain.2;
    distinct = inv.distinct.1;
    good = inv.good.1;
    unlocked = inv.unlocked;
  },
)

-- A page that was freed is the page that the next allocation returns, and the allocator is then
-- on the same free list as before.
pub kalloc-kfree :
    (kend v : ℕ) (k : Kmem) (vs : List ℕ)
    → 0 < kend
    → bad_page kend v ≡ false
    → Absent v vs
    → IsFreeList kend k vs
    → (k' : Kmem) × ((kfree kend v k >>= kalloc) ≡ done (v, k')) × IsFreeList kend k' vs
kalloc-kfree kend v k vs pos good absent inv =
    let (k1, freed, inv1) = kfree-IsFreeList kend v k vs pos good absent inv in
    let (k2, taken, _, _, inv2) = kalloc-Allocates kend k1 (v ∷ vs) inv1 in
    (k2, rw freed taken, inv2)
