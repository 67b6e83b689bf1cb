-- ===== src/Vm.antt =====
-- Page tables: xv6-public/vm.c and the macros of mmu.h and memlayout.h. Memory is the words at kernel
-- addresses, with the free list in `Kmem`. A `memmove` of data is recorded in `moves`, the last one
-- first, as destination, source and count: no page table lies in a page of data.
pub mod Bits
pub mod Walk
pub mod Entries
pub mod Mapping
mod Tests
use ele3021_spring.Common.{
  ℕ, List, suc, ◌/◌, sub32, add32, ◌%◌, Bool, if◌then◌else◌, Outcome, ◌+◌, ◌==◌, ◌*◌, leb, ◌>>=◌,
  Option, done, ◌∷◌, false, zero, ◌&&◌, some, minus, ltb, ◌-◌, panicked, [], true, not, slt,
  faulted, min, none, word,
}
use ele3021_spring.Kalloc.{Kmem, kalloc, kfree, pgsize, kernbase, phystop, page_round_up}

pub record Vm : Type 0 where
  pub kmem : Kmem
  pub word_at : ℕ → ℕ
  pub moves : List (ℕ × ℕ × ℕ)

-- `a | b` of words with `n` bits.
unfoldable pub or_bits : ℕ → ℕ → ℕ → ℕ
or_bits zero a b = 0
or_bits (suc n) a b = (if a % 2 == 0 then b % 2 else 1) + 2 * or_bits n (a / 2) (b / 2)

abbrev pub or32 : ℕ → ℕ → ℕ
or32 a b = or_bits 32 a b

-- `PDX` and `PTX`.
abbrev pub pdx : ℕ → ℕ
pdx va = va / 0x400000 % 1024

abbrev pub ptx : ℕ → ℕ
ptx va = va / 4096 % 1024

abbrev pub v2p : ℕ → ℕ
v2p a = sub32 a kernbase

abbrev pub p2v : ℕ → ℕ
p2v a = add32 a kernbase

abbrev pub pte_addr : ℕ → ℕ
pte_addr pte = pte / 4096 * 4096

abbrev pub pte_flags : ℕ → ℕ
pte_flags pte = pte % 4096

-- `pte & PTE_P` and `pte & PTE_U`.
abbrev pub present : ℕ → Bool
present pte = pte % 2 == 1

abbrev pub for_user : ℕ → Bool
for_user pte = pte / 4 % 2 == 1

abbrev pub page_round_down : ℕ → ℕ
page_round_down a = a / 4096 * 4096

-- A store of a word, and `memset` of a page.
abbrev pub put_word : ℕ → ℕ → Vm → Vm
put_word a x w = record w { word_at = λ b. if a == b then x else w.word_at b }

abbrev pub fill_page : ℕ → ℕ → Vm → Vm
fill_page v x w = record w {
  word_at = λ b. if leb v b && ltb b (v + pgsize) then x else w.word_at b;
}

abbrev pub alloc_page : Vm → Outcome (ℕ × Vm)
alloc_page w = kalloc w.kmem >>= λ r. done (r.0, record w { kmem = r.1 })

-- Where the table of page directory entry `i` is, and whether there is one.
abbrev pub entry_at : ℕ → ℕ → ℕ
entry_at pgdir i = pgdir + 4 * i

abbrev pub table_of : ℕ → ℕ
table_of pde = p2v (pte_addr pde)

-- `walkpgdir`: the address of the page table entry.
unfoldable pub walkpgdir : ℕ → ℕ → Bool → Vm → Outcome (Option ℕ × Vm)
unfolding or_bits
walkpgdir pgdir va alloc w =
    let pde = w.word_at (entry_at pgdir (pdx va)) in
    if present pde
    then done (some (table_of pde + 4 * ptx va), w)
    else if not alloc
    then done (none, w)
    else (alloc_page w >>= λ r.
        if r.0 == 0
        then done (none, r.1)
        else done (
          some (r.0 + 4 * ptx va),
          put_word (entry_at pgdir (pdx va)) (or32 (v2p r.0) 7) (fill_page r.0 0 r.1),
        ))

-- The loop of `mappages` with fuel, from page `a` to `last`: its result.
unfoldable pub map_loop : ℕ → ℕ → ℕ → ℕ → ℕ → ℕ → Vm → Outcome (ℕ × Vm)
unfolding walkpgdir or_bits
map_loop zero pgdir a last pa perm w = done (minus 1, w)
map_loop (suc fuel) pgdir a last pa perm w = walkpgdir pgdir a true w >>= λ r. elim r.0 [
  | none ↦ done (minus 1, r.1)
  | some pte ↦
      let w1 = put_word pte (or32 (or32 pa perm) 1) r.1 in
      elim (present (r.1.word_at pte)) [
        | true ↦ panicked
        | false ↦ elim (a == last) [
          | true ↦ done (0, w1)
          | false ↦ map_loop fuel pgdir (add32 a pgsize) last (add32 pa pgsize) perm w1
        ]
      ]
]

-- `mappages`; the distance between the first page and the last one, in words, bounds its rounds.
unfoldable pub mappages : ℕ → ℕ → ℕ → ℕ → ℕ → Vm → Outcome (ℕ × Vm)
unfolding map_loop
mappages pgdir va size pa perm w =
    let a = page_round_down va in
    let last = page_round_down (sub32 (add32 va size) 1) in
    map_loop (sub32 last a / pgsize + 1) pgdir a last pa perm w

-- `kend` is the linker's symbol `end`.
module _ (kend : ℕ) where
  -- `kfree`, which fills the page.
  abbrev pub free_page : ℕ → Vm → Outcome Vm
  free_page v w = kfree kend v w.kmem >>= λ m. done (fill_page v 0x1010101 (record w { kmem = m }))

  -- The loop of `deallocuvm` with fuel.
  unfoldable pub dealloc_loop : ℕ → ℕ → ℕ → ℕ → Vm → Outcome Vm
  unfolding walkpgdir
  dealloc_loop zero pgdir a oldsz w = done w
  dealloc_loop (suc fuel) pgdir a oldsz w = elim (ltb a oldsz) [
    | false ↦ done w
    | true ↦ walkpgdir pgdir a false w >>= λ r. elim r.0 [
      | none ↦
          dealloc_loop fuel pgdir (add32 (sub32 ((pdx a + 1) * 0x400000 % word) pgsize) pgsize)
            oldsz w
      | some pte ↦ elim (present (w.word_at pte)) [
        | false ↦ dealloc_loop fuel pgdir (add32 a pgsize) oldsz w
        | true ↦
            let pa = pte_addr (w.word_at pte) in
            (if pa == 0
              then panicked
              else (free_page (p2v pa) w >>= λ w1. done (put_word pte 0 w1)))
            >>= dealloc_loop fuel pgdir (add32 a pgsize) oldsz
      ]
    ]
  ]

  unfoldable pub deallocuvm : ℕ → ℕ → ℕ → Vm → Outcome (ℕ × Vm)
  unfolding dealloc_loop
  deallocuvm pgdir oldsz newsz w =
      if leb oldsz newsz
      then done (oldsz, w)
      else (dealloc_loop ((oldsz - newsz) / pgsize + 1) pgdir (page_round_up newsz) oldsz w
          >>= λ w1. done (newsz, w1))

  -- The loop of `freevm` over the page directory, with `n` entries left from entry `i` on.
  unfoldable pub free_tables : ℕ → ℕ → ℕ → Vm → Outcome Vm
  free_tables zero i pgdir w = done w
  free_tables (suc n) i pgdir w =
      let pde = w.word_at (entry_at pgdir i) in
      (if present pde then free_page (table_of pde) w else done w) >>= free_tables n (suc i) pgdir

  unfoldable pub freevm : ℕ → Vm → Outcome Vm
  unfolding deallocuvm free_tables
  freevm pgdir w =
      if pgdir == 0
      then panicked
      else (deallocuvm pgdir kernbase 0 w >>= λ r.
          free_tables 1024 0 pgdir r.1 >>= λ w1. free_page pgdir w1)

  -- The loop of `allocuvm` with fuel: whether there was memory for all pages.
  unfoldable pub alloc_loop : ℕ → ℕ → ℕ → ℕ → ℕ → Vm → Outcome (ℕ × Vm)
  unfolding mappages deallocuvm
  alloc_loop zero pgdir a oldsz newsz w = done (newsz, w)
  alloc_loop (suc fuel) pgdir a oldsz newsz w = elim (ltb a newsz) [
    | false ↦ done (newsz, w)
    | true ↦ alloc_page w >>= λ r. elim (r.0 == 0) [
      | true ↦ deallocuvm pgdir newsz oldsz r.1 >>= λ d. done (0, d.1)
      | false ↦ mappages pgdir a pgsize (v2p r.0) 6 (fill_page r.0 0 r.1) >>= λ m.
          elim (slt m.0 0) [
            | true ↦
                deallocuvm pgdir newsz oldsz m.1 >>= λ d. free_page r.0 d.1 >>= λ w1. done (0, w1)
            | false ↦ alloc_loop fuel pgdir (add32 a pgsize) oldsz newsz m.1
          ]
    ]
  ]

  unfoldable pub allocuvm : ℕ → ℕ → ℕ → Vm → Outcome (ℕ × Vm)
  unfolding alloc_loop
  allocuvm pgdir oldsz newsz w =
      if leb kernbase newsz
      then done (0, w)
      else if ltb newsz oldsz
      then done (oldsz, w)
      else alloc_loop ((newsz - oldsz) / pgsize + 1) pgdir (page_round_up oldsz) oldsz newsz w

  -- `kmap`; `data` is the linker's symbol. A mapping is an address, the physical range and the
  -- permissions.
  abbrev pub kmap : ℕ → List (ℕ × ℕ × ℕ × ℕ)
  kmap data_ =
      (kernbase, 0, 0x100000, 2)
      ∷ (kernbase + 0x100000, 0x100000, v2p data_, 0)
      ∷ (data_, v2p data_, phystop, 2)
      ∷ (0xFE000000, 0xFE000000, 0, 2)
      ∷ []

  -- The loop of `setupkvm`: whether all mappings were made.
  unfoldable pub map_all : ℕ → List (ℕ × ℕ × ℕ × ℕ) → Vm → Outcome (Bool × Vm)
  unfolding mappages
  map_all pgdir [] w = done (true, w)
  map_all pgdir (m ∷ ms) w = mappages pgdir m.0 (sub32 m.2 m.1) m.1 m.3 w >>= λ r.
      elim (slt r.0 0) [ true ↦ done (false, r.1) | false ↦ map_all pgdir ms r.1 ]

  unfoldable pub setupkvm : ℕ → Vm → Outcome (ℕ × Vm)
  unfolding map_all freevm
  setupkvm data_ w = alloc_page w >>= λ r.
      if r.0 == 0
      then done (0, r.1)
      else (map_all r.0 (kmap data_) (fill_page r.0 0 r.1) >>= λ m.
          if m.0 then done (r.0, m.1) else (freevm r.0 m.1 >>= λ w1. done (0, w1)))

  -- The loop of `copyuvm` with fuel, from address `i` on: whether all was copied.
  unfoldable pub copy_loop : ℕ → ℕ → ℕ → ℕ → ℕ → Vm → Outcome (Bool × Vm)
  unfolding walkpgdir mappages
  copy_loop zero pgdir d i sz w = done (true, w)
  copy_loop (suc fuel) pgdir d i sz w = elim (ltb i sz) [
    | false ↦ done (true, w)
    | true ↦ walkpgdir pgdir i false w >>= λ r. elim r.0 [
      | none ↦ panicked
      | some pte ↦ elim (present (w.word_at pte)) [
        | false ↦ panicked
        | true ↦
            let x = w.word_at pte in
            alloc_page w >>= λ a. elim (a.0 == 0) [
              | true ↦ done (false, a.1)
              | false ↦
                  mappages d i pgsize (v2p a.0) (pte_flags x)
                    (record a.1 { moves = (a.0, p2v (pte_addr x), pgsize) ∷ a.1.moves })
                  >>= λ m. elim (slt m.0 0) [
                    | true ↦ free_page a.0 m.1 >>= λ w1. done (false, w1)
                    | false ↦ copy_loop fuel pgdir d (add32 i pgsize) sz m.1
                  ]
            ]
      ]
    ]
  ]

  unfoldable pub copyuvm : ℕ → ℕ → ℕ → Vm → Outcome (ℕ × Vm)
  unfolding setupkvm copy_loop
  copyuvm data_ pgdir sz w = setupkvm data_ w >>= λ r.
      if r.0 == 0
      then done (0, r.1)
      else (copy_loop (sz / pgsize + 1) pgdir r.0 0 sz r.1 >>= λ c.
          if c.0 then done (r.0, c.1) else (freevm r.0 c.1 >>= λ w1. done (0, w1)))

-- `inituvm`, which does not look at what `kalloc` and `mappages` return; address 0 is not mapped.
unfoldable pub inituvm : ℕ → ℕ → ℕ → Vm → Outcome Vm
unfolding mappages
inituvm pgdir init sz w =
    if leb pgsize sz
    then panicked
    else (alloc_page w >>= λ r.
        if r.0 == 0
        then faulted
        else (mappages pgdir 0 pgsize (v2p r.0) 6 (fill_page r.0 0 r.1) >>= λ m.
            done (record m.1 { moves = (r.0, init, sz) ∷ m.1.moves })))

unfoldable pub clearpteu : ℕ → ℕ → Vm → Outcome Vm
unfolding walkpgdir
clearpteu pgdir uva w = walkpgdir pgdir uva false w >>= λ r. elim r.0 [
  | none ↦ panicked
  | some pte ↦ let x = w.word_at pte in done (put_word pte (if for_user x then x - 4 else x) w)
]

-- `uva2ka`, which follows a null pointer where there is no table.
unfoldable pub uva2ka : ℕ → ℕ → Vm → Outcome ℕ
unfolding walkpgdir
uva2ka pgdir uva w = walkpgdir pgdir uva false w >>= λ r. elim r.0 [
  | none ↦ faulted
  | some pte ↦
      let x = w.word_at pte in done (if present x && for_user x then p2v (pte_addr x) else 0)
]

-- The loop of `copyout` with fuel; each round but the last ends a page.
unfoldable pub copyout_loop : ℕ → ℕ → ℕ → ℕ → ℕ → Vm → Outcome (ℕ × Vm)
unfolding uva2ka
copyout_loop zero pgdir va buf len w = done (0, w)
copyout_loop (suc fuel) pgdir va buf len w = elim (len == 0) [
  | true ↦ done (0, w)
  | false ↦
      let va0 = page_round_down va in
      let n = min (pgsize - (va - va0)) len in
      uva2ka pgdir va0 w >>= λ pa0. elim (pa0 == 0) [
        | true ↦ done (minus 1, w)
        | false ↦
            copyout_loop fuel pgdir (add32 va0 pgsize) (buf + n) (len - n)
              (record w { moves = (pa0 + (va - va0), buf, n) ∷ w.moves })
      ]
]

unfoldable pub copyout : ℕ → ℕ → ℕ → ℕ → Vm → Outcome (ℕ × Vm)
unfolding copyout_loop
copyout pgdir va buf len w = copyout_loop (len + 1) pgdir va buf len w

-- `loaduvm`; `readi` is that of the inode, to an address, from an offset, of a count.
module _ (readi : ℕ → ℕ → ℕ → Vm → Outcome (ℕ × Vm)) where
  -- Its loop with fuel, from `i` on.
  unfoldable pub load_loop : ℕ → ℕ → ℕ → ℕ → ℕ → ℕ → Vm → Outcome (ℕ × Vm)
  unfolding walkpgdir
  load_loop zero pgdir addr offset sz i w = done (0, w)
  load_loop (suc fuel) pgdir addr offset sz i w = elim (ltb i sz) [
    | false ↦ done (0, w)
    | true ↦ walkpgdir pgdir (add32 addr i) false w >>= λ r. elim r.0 [
      | none ↦ panicked
      | some pte ↦
          let n = if ltb (sz - i) pgsize then sz - i else pgsize in
          readi (p2v (pte_addr (w.word_at pte))) (add32 offset i) n w >>= λ q. elim (q.0 == n) [
            | false ↦ done (minus 1, q.1)
            | true ↦ load_loop fuel pgdir addr offset sz (add32 i pgsize) q.1
          ]
    ]
  ]

  unfoldable pub loaduvm : ℕ → ℕ → ℕ → ℕ → Vm → Outcome (ℕ × Vm)
  unfolding load_loop
  loaduvm pgdir addr offset sz w =
      if not (addr % pgsize == 0)
      then panicked
      else load_loop (sz / pgsize + 1) pgdir addr offset sz 0 w
