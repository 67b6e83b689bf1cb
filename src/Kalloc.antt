-- ===== src/Kalloc.antt =====
-- xv6-public/kalloc.c: the allocator of physical pages. The free list lives in the free pages: of
-- a page's contents only the word that a `struct run` keeps there is modelled.
pub mod Chain
pub mod Init
mod Tests
use ele3021_spring.Common.{
  ℕ, suc, zero, ◌+◌, ◌-◌, ◌*◌, ◌/◌, ◌%◌, Bool, true, false, ◌||◌, not, ◌==◌, ltb, leb,
  if◌then◌else◌, Outcome, done, panicked, faulted, ◌>>=◌, word, sub32,
}

abbrev pub pgsize : ℕ
pgsize = 4096

abbrev pub kernbase : ℕ
kernbase = 0x80000000

abbrev pub phystop : ℕ
phystop = 0xE000000

-- `kmem`; `next` is the first word of each page, and 0 a null pointer.
pub record Kmem : Type 0 where
  pub use_lock : Bool
  pub locked : Bool
  pub freelist : ℕ
  pub next : ℕ → ℕ

-- A store to the first word of the page at `v`.
abbrev pub store : (ℕ → ℕ) → ℕ → ℕ → ℕ → ℕ
store next v w a = if a == v then w else next a

-- `if(kmem.use_lock) acquire(&kmem.lock)`
unfoldable pub lock_if : Kmem → Outcome Kmem
lock_if k =
    if k.use_lock then if k.locked then panicked else done (record k { locked = true }) else done k

unfoldable pub unlock_if : Kmem → Outcome Kmem
unlock_if k =
    if k.use_lock then if k.locked then done (record k { locked = false }) else panicked else done k

-- The page that `kalloc` returns, 0 if there is none.
unfoldable pub kalloc : Kmem → Outcome (ℕ × Kmem)
unfolding lock_if unlock_if
kalloc k = do
  k1 ← lock_if k
  let r = k1.freelist
  k2 ← unlock_if (if r == 0 then k1 else record k1 { freelist = k1.next r })
  done (r, k2)

-- `PGROUNDUP` on 32-bit words
unfoldable pub page_round_up : ℕ → ℕ
page_round_up a = (a + pgsize - 1) % word / pgsize * pgsize

-- `kend` is the linker's symbol `end`, the first address after the kernel.
module _ (kend : ℕ) where
  -- The test by which `kfree` refuses an address.
  unfoldable pub bad_page : ℕ → Bool
  bad_page v = not (v % pgsize == 0) || ltb v kend || leb phystop (sub32 v kernbase)

  unfoldable pub kfree : ℕ → Kmem → Outcome Kmem
  unfolding bad_page lock_if unlock_if
  kfree v k =
      if bad_page v
      then panicked
      else (lock_if k >>= λ k1.
          unlock_if (record k1 { next = store k1.next v k1.freelist; freelist = v }))

  -- The loop of `freerange`, with fuel; each round needs 4096 more bytes below `vend`.
  unfoldable pub free_pages : ℕ → ℕ → ℕ → Kmem → Outcome Kmem
  free_pages zero p vend k = done k
  free_pages (suc fuel) p vend k = elim (leb (p + pgsize) vend) [
    | true ↦ kfree p k >>= free_pages fuel (p + pgsize) vend
    | false ↦ done k
  ]

  unfoldable pub freerange : ℕ → ℕ → Kmem → Outcome Kmem
  unfolding page_round_up free_pages
  freerange vstart vend k =
      let p = page_round_up vstart in free_pages ((vend - p) / pgsize + 1) p vend k

  unfoldable pub kinit1 : ℕ → ℕ → Kmem → Outcome Kmem
  unfolding freerange
  kinit1 vstart vend k = freerange vstart vend (record k { locked = false; use_lock = false })

  unfoldable pub kinit2 : ℕ → ℕ → Kmem → Outcome Kmem
  unfolding freerange
  kinit2 vstart vend k = do k1 ← freerange vstart vend k; done (record k1 { use_lock = true })
