-- ===== src/Vm/Walk.antt =====
-- The page table entries that `walkpgdir` finds and makes, in xv6-public/vm.c.
use ele3021_spring.Common.{
  ℕ, if◌then◌else◌, List, Outcome, All, Option, ◌∷◌, ◌<◌, ◌≡◌, [], ◌+◌, word, true, done, ◌≢◌, ◌*◌,
  ◌%◌, none, some, arith, ◌∙◌, ◌⊎◌, false, inl, sym, inr, Bool-cases, ap, refl, ℕ_discrete, subst,
  ◌==◌,
}
use ele3021_spring.Kalloc.{Kmem, bad_page}
use ele3021_spring.Kalloc.Chain.{IsFreeList, Absent, kalloc-Allocates}
use ele3021_spring.Vm.{
  Vm, entry_at, present, pdx, table_of, fill_page, put_word, or32, v2p, ptx, walkpgdir,
}
use ele3021_spring.Vm.Bits.{put_other, put_here, pages_apart, fill_other, new_table, fill_here}

-- The page directory entry and the page table entry of an address, 0 where it has no table.
abbrev pub pde_of : ℕ → ℕ → Vm → ℕ
pde_of pgdir i w = w.word_at (entry_at pgdir i)

abbrev pub entry : ℕ → ℕ → Vm → ℕ
entry pgdir va w =
    if present (pde_of pgdir (pdx va) w)
    then w.word_at (table_of (pde_of pgdir (pdx va) w) + 4 * ptx va)
    else 0

-- A page directory with its tables: pages that are not free, and each used once.
pub record IsPgdir (kend pgdir : ℕ) (w : Vm) (free : List ℕ) : Type 0 where
  pub free_list : IsFreeList kend w.kmem free
  pub small : All (λ v. v < word) free
  pub aligned : pgdir % 4096 ≡ 0
  pub used : Absent pgdir free
  pub table_used :
      (i : ℕ)
      → i < 1024
      → present (pde_of pgdir i w) ≡ true
      → (pgdir ≢ table_of (pde_of pgdir i w)) × Absent (table_of (pde_of pgdir i w)) free
  pub tables_apart :
      (i j : ℕ)
      → i < 1024
      → j < 1024
      → i ≢ j
      → present (pde_of pgdir i w) ≡ true
      → present (pde_of pgdir j w) ≡ true
      → table_of (pde_of pgdir i w) ≢ table_of (pde_of pgdir j w)

-- The entry of `va` is at `pte`.
abbrev pub StandsAt : ℕ → ℕ → ℕ → Vm → Type 0
StandsAt pgdir va pte w =
    (present (pde_of pgdir (pdx va) w) ≡ true)
    × (pte ≡ table_of (pde_of pgdir (pdx va) w) + 4 * ptx va)

-- What a walk that may allocate does: it ends without an entry as there is no free page, or gives
-- where the entry of the address stands; no entry of any address changes.
abbrev pub Walked : ℕ → ℕ → ℕ → Vm → Outcome (Option ℕ × Vm) → Type 0
Walked kend pgdir va w o =
    ((w' : Vm) × (o ≡ done (none, w'))
      × IsPgdir kend pgdir w' []
      × ((b : ℕ) → entry pgdir b w' ≡ entry pgdir b w))
    ⊎ ((pte : ℕ) × (w' : Vm) × (free : List ℕ) × (o ≡ done (some pte, w'))
        × StandsAt pgdir va pte w'
        × IsPgdir kend pgdir w' free
        × ((b : ℕ) → entry pgdir b w' ≡ entry pgdir b w))

-- A word of a table, or of the page directory, is not in a page that is free.
module _ (kend pgdir v : ℕ) (vs : List ℕ) (w : Vm) (inv : IsPgdir kend pgdir w (v ∷ vs))
    (k' : Kmem) where
  abbrev filled : Vm
  filled = fill_page v 0 (record w { kmem = k' })

  abbrev grown : ℕ → Vm
  grown i = put_word (entry_at pgdir i) (or32 (v2p v) 7) filled

  good-aligned : v % 4096 ≡ 0
  unfolding bad_page
  good-aligned = let g = inv.free_list.good.0 in ground (arith, g)

  -- The new table fills an entry, and other entries of the page directory stay.
  grown-here : (i : ℕ) → pde_of pgdir i (grown i) ≡ or32 (v2p v) 7
  grown-here i = put_here (entry_at pgdir i) (or32 (v2p v) 7) filled

  grown-other : (i j : ℕ) → j < 1024 → i ≢ j → pde_of pgdir j (grown i) ≡ pde_of pgdir j w
  grown-other i j h ne =
      put_other (entry_at pgdir i) (or32 (v2p v) 7) (entry_at pgdir j) filled (omega (arith, ne))
      ∙ fill_other v 0 pgdir (4 * j) (record w { kmem = k' }) good-aligned inv.aligned
          (λ e. inv.used.0 e) (omega arith)

  -- The words of a table that was there stay.
  grown-table :
      (i j t : ℕ)
      → i < 1024
      → j < 1024
      → t < 1024
      → present (pde_of pgdir j w) ≡ true
      → (grown i).word_at (table_of (pde_of pgdir j w) + 4 * t)
        ≡ w.word_at (table_of (pde_of pgdir j w) + 4 * t)
  grown-table i j t hi hj ht p =
      let (apart, out) = inv.table_used j hj p in
      put_other (entry_at pgdir i) (or32 (v2p v) 7) (table_of (pde_of pgdir j w) + 4 * t) filled (
        pages_apart pgdir (table_of (pde_of pgdir j w)) (4 * i) (4 * t) inv.aligned (omega arith)
          apart (omega arith) (omega arith))
      ∙ fill_other v 0 (table_of (pde_of pgdir j w)) (4 * t) (record w { kmem = k' }) good-aligned
          (omega arith) (λ e. out.0 e) (omega arith)

  -- A page directory entry of the grown directory is the new one, or as it was.
  grown-cases :
      (i j : ℕ)
      → j < 1024
      → ((j ≡ i) × (pde_of pgdir j (grown i) ≡ or32 (v2p v) 7))
        ⊎ ((i ≢ j) × (pde_of pgdir j (grown i) ≡ pde_of pgdir j w))
  grown-cases i j h = elim (ℕ_discrete i j) [
    | yes e ↦ inl (sym e, subst (λ t. pde_of pgdir t (grown i) ≡ or32 (v2p v) 7) e (grown-here i))
    | no ne ↦ inr (ne, grown-other i j h ne)
  ]

  new_at : (present (or32 (v2p v) 7) ≡ true) × (table_of (or32 (v2p v) 7) ≡ v)
  new_at = new_table v inv.small.0 good-aligned

  grown-entry :
      (va b : ℕ)
      → present (pde_of pgdir (pdx va) w) ≡ false
      → entry pgdir b (grown (pdx va)) ≡ entry pgdir b w
  grown-entry va b off = elim (grown-cases (pdx va) (pdx b) (omega arith)) [
    | inl (same, e) ↦
        let here : (grown (pdx va)).word_at (v + 4 * ptx b) ≡ 0 =
          put_other (entry_at pgdir (pdx va)) (or32 (v2p v) 7) (v + 4 * ptx b) filled (
            pages_apart pgdir v (4 * pdx va) (4 * ptx b) inv.aligned good-aligned
              (λ q. inv.used.0 (sym q)) (omega arith) (omega arith))
          ∙ fill_here v 0 (4 * ptx b) (record w { kmem = k' }) (omega arith) in
        rw (e, same, new_at.1, new_at.0, off) here
    | inr (ne, e) ↦ elim (Bool-cases (present (pde_of pgdir (pdx b) w))) [
      | inl p ↦
          rw (e, p)
            (grown-table (pdx va) (pdx b) (ptx b) (omega arith) (omega arith) (omega arith) p)
      | inr p ↦ rw (e, p) refl
    ]
  ]

  grown-IsPgdir :
      (i : ℕ) → i < 1024 → Absent v vs → IsFreeList kend k' vs → IsPgdir kend pgdir (grown i) vs
  grown-IsPgdir i h out fl = record {
    free_list = fl;
    small = inv.small.1;
    aligned = inv.aligned;
    used = inv.used.1;
    table_used = λ j hj p. elim (grown-cases i j hj) [
      | inl (same, e) ↦ rw (e, new_at.1) ((λ q. inv.used.0 (sym q)), out)
      | inr (ne, e) ↦ let u = inv.table_used j hj (sym (ap present e) ∙ p) in rw e (u.0, u.1.1)
    ];
    tables_apart = λ j l hj hl ne p q. elim (grown-cases i j hj) [
      | inl (same, e) ↦ elim (grown-cases i l hl) [
        | inl (same', e') ↦ absurd (ne (same ∙ sym same'))
        | inr (ne', e') ↦
            let u = inv.table_used l hl (sym (ap present e') ∙ q) in rw (e, e', new_at.1) u.1.0
      ]
      | inr (ne1, e) ↦
          let u = inv.table_used j hj (sym (ap present e) ∙ p) in
          elim (grown-cases i l hl) [
            | inl (same', e') ↦ rw (e, e', new_at.1) (λ z. u.1.0 (sym z))
            | inr (ne', e') ↦
                rw (e, e')
                  (inv.tables_apart j l hj hl ne (sym (ap present e) ∙ p) (sym (ap present e') ∙ q))
          ]
    ];
  }

-- With its flag clear, a page directory entry has no table, and a page from the allocator is one.
walkpgdir_grows :
    (kend pgdir va : ℕ) (w : Vm) (free : List ℕ)
    → IsPgdir kend pgdir w free
    → present (pde_of pgdir (pdx va) w) ≡ false
    → Walked kend pgdir va w (walkpgdir pgdir va true w)
unfolding walkpgdir
walkpgdir_grows kend pgdir va w [] inv off =
    let e = kalloc-Allocates kend w.kmem [] inv.free_list in
    rw (off, e) (inl (w, refl, inv, λ b. refl))
walkpgdir_grows kend pgdir va w (v ∷ vs) inv off =
    let (k', e, good, out, fl) = kalloc-Allocates kend w.kmem (v ∷ vs) inv.free_list in
    let i : pdx va < 1024 = omega arith in
    let some_page : (v == 0) ≡ false = ground (arith, inv.free_list.chain) in
    rw (off, e, some_page)
      (inr (
        v + 4 * ptx va,
        grown kend pgdir v vs w inv k' (pdx va),
        vs,
        refl,
        rw (grown-here kend pgdir v vs w inv k' (pdx va), (new_at kend pgdir v vs w inv k').1)
            ((new_at kend pgdir v vs w inv k').0, refl),
        grown-IsPgdir kend pgdir v vs w inv k' (pdx va) i out fl,
        λ b. grown-entry kend pgdir v vs w inv k' va b off,
      ))

-- `walkpgdir` on a well-formed page directory, allocating, ends without an entry only when no page
-- is free, and otherwise gives the place of the address's entry; the page directory stays well
-- formed, and no entry of any address changes.
pub walkpgdir-Walked :
    (kend pgdir va : ℕ) (w : Vm) (free : List ℕ)
    → IsPgdir kend pgdir w free
    → Walked kend pgdir va w (walkpgdir pgdir va true w)
unfolding walkpgdir
walkpgdir-Walked kend pgdir va w free inv = elim (Bool-cases (present (pde_of pgdir (pdx va) w))) [
  | inr off ↦ walkpgdir_grows kend pgdir va w free inv off
  | inl on ↦ rw on (
      inr (
        table_of (pde_of pgdir (pdx va) w) + 4 * ptx va,
        w,
        free,
        refl,
        (on, refl),
        inv,
        λ b. refl,
      ))
]
