-- ===== src/Kalloc/Tests.antt =====
-- The allocator on a few pages.
use ele3021_spring.Common.{ℕ, ◌+◌, false, [], ◌≡◌, true, ◌∷◌, refl, arith, ◌*◌, ◌-◌, ◌/◌}
use ele3021_spring.Kalloc.{Kmem, kernbase, pgsize, page_round_up, freerange, bad_page}
use ele3021_spring.Kalloc.Chain.{IsFreeList}
use ele3021_spring.Kalloc.Init.{Frees, freed, freerange-IsFreeList}

-- The first page of the tests, and an allocator with no pages.
abbrev page : ℕ
page = kernbase + 0x200000

abbrev nothing : Kmem
nothing = record { use_lock = false; locked = false; freelist = 0; next = λ a. 0 }

nothing-IsFreeList : IsFreeList page nothing []
nothing-IsFreeList = record { chain = refl; distinct = tt; good = tt; unlocked = refl }

page-good : bad_page page page ≡ false
unfolding bad_page
page-good = refl

-- One free page.
abbrev single : Kmem
single = record nothing { freelist = page; use_lock = true }

single-IsFreeList : IsFreeList page single (page ∷ [])
single-IsFreeList = record {
  chain = (refl, omega arith, refl);
  distinct = (tt, tt);
  good = (page-good, tt);
  unlocked = refl;
}

freerange-IsFreeList_example :
    let p = page_round_up (page + 5) in
    Frees page
      (freerange page (page + 5) (page + 3 * pgsize) nothing)
      (freed ((page + 3 * pgsize - p) / pgsize) p [])
freerange-IsFreeList_example =
    freerange-IsFreeList page (omega arith) (page + 3 * pgsize) (omega arith) (page + 5) nothing []
      (omega arith) (omega arith) (omega arith) tt nothing-IsFreeList
