-- ===== src/Kalloc/Init.antt =====
-- `freerange` of xv6-public/kalloc.c puts every whole page of a range on the free list.
use ele3021_spring.Common.{
  ℕ, suc, zero, ◌+◌, ◌-◌, ◌/◌, ◌%◌, ◌<◌, ◌≤◌, ◌≡◌, List, [], ◌∷◌, false, leb, All, done, arith,
  word, Outcome, true, refl,
}
use ele3021_spring.Kalloc.{
  Kmem, pgsize, kernbase, phystop, bad_page, free_pages, freerange, page_round_up, kfree,
}
use ele3021_spring.Kalloc.Chain.{Absent, IsFreeList, kfree-IsFreeList}

-- The free list after `n` pages from `p` on were freed one after the other.
abbrev pub freed : ℕ → ℕ → List ℕ → List ℕ
freed zero p vs = vs
freed (suc n) p vs = freed n (p + pgsize) (p ∷ vs)

-- An address that `kfree` accepts: on a page boundary, past the kernel, below the top of memory.
page-good :
    (kend p : ℕ)
    → p % pgsize ≡ 0
    → kend ≤ p
    → kernbase ≤ p
    → p < kernbase + phystop
    → bad_page kend p ≡ false
unfolding bad_page
page-good kend p al lo kb hi = ground arith

below-Absent : (p : ℕ) (vs : List ℕ) → All (λ w. w < p) vs → Absent p vs
below-Absent p [] h = tt
below-Absent p (w ∷ vs) h = (omega (arith, h.0), below-Absent p vs h.1)

below_mono : (p q : ℕ) (vs : List ℕ) → p ≤ q → All (λ w. w < p) vs → All (λ w. w < q) vs
below_mono p q [] le h = tt
below_mono p q (w ∷ vs) le h = (omega (arith, h.0), below_mono p q vs le h.1)

-- A run of the allocator that returns, with the free list `vs`.
abbrev pub Frees : ℕ → Outcome Kmem → List ℕ → Type 0
Frees kend m vs = (k' : Kmem) × (m ≡ done k') × IsFreeList kend k' vs

-- One round of the loop.
free_pages-suc :
    (kend fuel p vend : ℕ) (k k1 : Kmem) (ws : List ℕ)
    → leb (p + pgsize) vend ≡ true
    → kfree kend p k ≡ done k1
    → Frees kend (free_pages kend fuel (p + pgsize) vend k1) ws
    → Frees kend (free_pages kend (suc fuel) p vend k) ws
unfolding free_pages
free_pages-suc kend fuel p vend k k1 ws more e h = rw (more, free_pages, e) h

free_pages-end :
    (kend fuel p vend : ℕ) (k : Kmem) (ws : List ℕ)
    → leb (p + pgsize) vend ≡ false
    → IsFreeList kend k ws
    → Frees kend (free_pages kend (suc fuel) p vend k) ws
unfolding free_pages
free_pages-end kend fuel p vend k ws last inv = rw (last, free_pages) (k, refl, inv)

module _ (kend : ℕ) (pos : 0 < kend) (vend : ℕ) (top : vend ≤ kernbase + phystop) where
  free_pages-IsFreeList :
      (n fuel p : ℕ) (k : Kmem) (vs : List ℕ)
      → n < fuel
      → n ≡ (vend - p) / pgsize
      → p % pgsize ≡ 0
      → kend ≤ p
      → kernbase ≤ p
      → All (λ w. w < p) vs
      → IsFreeList kend k vs
      → Frees kend (free_pages kend fuel p vend k) (freed n p vs)
  free_pages-IsFreeList n zero p k vs f e al lo kb below inv = absurd (omega arith)
  free_pages-IsFreeList zero (suc fuel) p k vs f e al lo kb below inv =
      free_pages-end kend fuel p vend k vs (ground arith) inv
  free_pages-IsFreeList (suc n) (suc fuel) p k vs f e al lo kb below inv =
      let (k1, e1, inv1) =
        kfree-IsFreeList kend p k vs pos (page-good kend p al lo kb (omega arith))
          (below-Absent p vs below) inv in
      free_pages-suc kend fuel p vend k k1 (freed n (p + pgsize) (p ∷ vs)) (ground arith) e1 (
        free_pages-IsFreeList n fuel (p + pgsize) k1 (p ∷ vs) (omega arith) (omega arith)
          (omega arith) (omega arith) (omega arith)
          (omega arith, below_mono p (p + pgsize) vs (omega arith) below) inv1)

  -- `freerange`, from a well-formed free list that lies below the range, returns with every whole
  -- page of the range in front of the list, once each, and the list well formed.
  pub freerange-IsFreeList :
      (vstart : ℕ) (k : Kmem) (vs : List ℕ)
      → kend ≤ vstart
      → kernbase ≤ vstart
      → vstart + pgsize ≤ word
      → All (λ w. w < vstart) vs
      → IsFreeList kend k vs
      → let p = page_round_up vstart in
        Frees kend (freerange kend vstart vend k) (freed ((vend - p) / pgsize) p vs)
  unfolding freerange page_round_up
  freerange-IsFreeList vstart k vs lo kb small below inv =
      free_pages-IsFreeList _ _ (page_round_up vstart) k vs (omega arith) refl (omega arith)
        (omega arith) (omega arith) (below_mono vstart _ vs (omega arith) below) inv
