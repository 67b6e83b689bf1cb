-- ===== src/Vm/Entries.antt =====
-- A store to a page table entry and the other entries: xv6-public/vm.c.
use ele3021_spring.Vm.Bits.{put_other, put_here, pages_apart, same_page}
use ele3021_spring.Vm.Walk.{IsPgdir, StandsAt, pde_of, entry}
use ele3021_spring.Vm.{Vm, put_word, present, pdx, ptx, table_of, entry_at}
use ele3021_spring.Common.{
  ℕ, List, ◌<◌, sym, ap, word, ◌≡◌, ◌/◌, ◌∙◌, ◌≢◌, arith, true, Bool-cases, inr, ◌+◌, inl, ◌*◌,
  ℕ_discrete, refl,
}

-- A store of the entry of `va`, at `pte`.
module _ (kend pgdir va pte x : ℕ) (w : Vm) (free : List ℕ) (inv : IsPgdir kend pgdir w free)
    (at_ : StandsAt pgdir va pte w) where
  abbrev pub stored : Vm
  stored = put_word pte x w

  stored-pde : (i : ℕ) → i < 1024 → pde_of pgdir i stored ≡ pde_of pgdir i w
  stored-pde i h =
      let apart = (inv.table_used (pdx va) (omega arith) at_.0).0 in
      put_other pte x (entry_at pgdir i) w (
        rw at_.1 (λ e.
          pages_apart pgdir (table_of (pde_of pgdir (pdx va) w)) (4 * i) (4 * ptx va) inv.aligned
            (omega arith) apart (omega arith) (omega arith) (sym e)))

  pub stored-IsPgdir : IsPgdir kend pgdir stored free
  stored-IsPgdir = record {
    free_list = inv.free_list;
    small = inv.small;
    aligned = inv.aligned;
    used = inv.used;
    table_used =
        λ i h p. rw (stored-pde i h) (inv.table_used i h (sym (ap present (stored-pde i h)) ∙ p));
    tables_apart = λ i j hi hj ne p q.
        rw (stored-pde i hi, stored-pde j hj)
          (inv.tables_apart i j hi hj ne (sym (ap present (stored-pde i hi)) ∙ p)
            (sym (ap present (stored-pde j hj)) ∙ q));
  }

  pub stored-here : (b : ℕ) → va < word → b < word → va / 4096 ≡ b / 4096 → entry pgdir b stored ≡ x
  stored-here b hv hb same =
      let d : pdx b ≡ pdx va = omega (arith, same) in
      let t : ptx b ≡ ptx va = omega (arith, same) in
      rw (d, t, stored-pde (pdx va) (omega arith), at_.0, at_.1)
        (put_here (table_of (pde_of pgdir (pdx va) w) + 4 * ptx va) x w)

  -- The word of another page's entry stays.
  stored-word :
      (b : ℕ)
      → va < word
      → b < word
      → va / 4096 ≢ b / 4096
      → present (pde_of pgdir (pdx b) w) ≡ true
      → pte ≢ table_of (pde_of pgdir (pdx b) w) + 4 * ptx b
  stored-word b hv hb ne p = elim (ℕ_discrete (pdx va) (pdx b)) [
    | yes d ↦ rw (at_.1, d) (λ e. ne (same_page va b hv hb d (omega (arith, e))))
    | no d ↦ rw at_.1 (
        pages_apart (table_of (pde_of pgdir (pdx va) w)) (table_of (pde_of pgdir (pdx b) w))
          (4 * ptx va) (4 * ptx b) (omega arith) (omega arith)
          (inv.tables_apart (pdx va) (pdx b) (omega arith) (omega arith) d at_.0 p) (omega arith)
          (omega arith))
  ]

  pub stored-other :
      (b : ℕ) → va < word → b < word → va / 4096 ≢ b / 4096 → entry pgdir b stored ≡ entry pgdir b w
  stored-other b hv hb ne = elim (Bool-cases (present (pde_of pgdir (pdx b) w))) [
    | inr p ↦ rw (stored-pde (pdx b) (omega arith), p) refl
    | inl p ↦
        rw (stored-pde (pdx b) (omega arith), p)
          (put_other pte x (table_of (pde_of pgdir (pdx b) w) + 4 * ptx b) w
            (stored-word b hv hb ne p))
  ]
