-- ===== src/Vm/Mapping.antt =====
-- What `mappages` of xv6-public/vm.c does to the entries of a page directory.
use ele3021_spring.Vm.Entries.{stored-other, stored-here, stored-IsPgdir}
use ele3021_spring.Vm.Walk.{IsPgdir, StandsAt, entry, walkpgdir-Walked}
use ele3021_spring.Vm.{
  Vm, put_word, present, map_loop, pgsize, or32, page_round_down, walkpgdir, mappages,
}
use ele3021_spring.Common.{
  ℕ, List, ◌<◌, sym, word, ◌≡◌, ◌/◌, ◌∙◌, ◌≢◌, arith, true, Bool-cases, inr, ◌+◌, inl, ◌*◌,
  ℕ_discrete, refl, if◌then◌else◌, Outcome, ◌≤◌, ◌%◌, leb, done, ◌&&◌, ◌⊎◌, false, suc, ltb, minus,
  [], ◌-◌, zero, none, some, add32, sub32,
}

-- The entry of `b` after the pages from `a` to `last` are mapped to the ones from `pa`.
abbrev pub entry_mapped : ℕ → ℕ → ℕ → ℕ → ℕ → ℕ → Vm → ℕ
entry_mapped pgdir a last pa perm b w =
    if leb a b && ltb b (last + pgsize)
    then or32 (or32 (pa + (page_round_down b - a)) perm) 1
    else entry pgdir b w

-- The pages are all mapped, or no page is left for a table and pages outside are as they were.
abbrev pub Maps : ℕ → ℕ → ℕ → ℕ → ℕ → ℕ → Vm → Outcome (ℕ × Vm) → Type 0
Maps kend pgdir a last pa perm w o =
    ((w' : Vm) × (free : List ℕ) × (o ≡ done (0, w'))
      × IsPgdir kend pgdir w' free
      × ((b : ℕ) → b < word → entry pgdir b w' ≡ entry_mapped pgdir a last pa perm b w))
    ⊎ ((w' : Vm) × (o ≡ done (minus 1, w'))
        × IsPgdir kend pgdir w' []
        × ((b : ℕ) → b < word → b < a ⊎ last + pgsize ≤ b → entry pgdir b w' ≡ entry pgdir b w))

-- No address of the range has a mapping.
abbrev pub IsUnmapped : ℕ → ℕ → ℕ → Vm → Type 0
IsUnmapped pgdir a last w = (b : ℕ) → a ≤ b → b < last + pgsize → present (entry pgdir b w) ≡ false

-- The entry of an address is the word where it stands.
StandsAt-entry :
    (pgdir va pte : ℕ) (w : Vm) → StandsAt pgdir va pte w → w.word_at pte ≡ entry pgdir va w
StandsAt-entry pgdir va pte w s = rw (s.0, s.1) refl

-- One page is mapped: the first of those that are left.
map_one :
    (pgdir a last pa perm b : ℕ) (w w1 : Vm)
    → a % 4096 ≡ 0
    → a ≤ last
    → ((c : ℕ) → a / 4096 ≡ c / 4096 → c < word → entry pgdir c w1 ≡ or32 (or32 pa perm) 1)
    → ((c : ℕ) → a / 4096 ≢ c / 4096 → c < word → entry pgdir c w1 ≡ entry pgdir c w)
    → b < word
    → entry_mapped pgdir (a + pgsize) last (pa + pgsize) perm b w1
      ≡ entry_mapped pgdir a last pa perm b w
map_one pgdir a last pa perm b w w1 al le here other small =
    elim (ℕ_discrete (a / 4096) (b / 4096)) [
      | yes s ↦
          let in_ : (leb a b && ltb b (last + pgsize)) ≡ true = ground (arith, al, s, le) in
          let out : (leb (a + pgsize) b && ltb b (last + pgsize)) ≡ false =
            ground (arith, al, s, le) in
          let p : pa + (page_round_down b - a) ≡ pa = omega (arith, al, s) in
          rw (in_, out, p) (here b s small)
      | no n ↦ elim (Bool-cases (leb a b && ltb b (last + pgsize))) [
        | inl in_ ↦
            let in' : (leb (a + pgsize) b && ltb b (last + pgsize)) ≡ true =
              ground (arith, al, n, in_) in
            let h : a + pgsize ≤ b = ground (arith, al, n, in_) in
            let p : pa + pgsize + (page_round_down b - (a + pgsize))
                ≡ pa + (page_round_down b - a) =
              omega (arith, al, h) in
            rw (in_, in', p) refl
        | inr out ↦
            let out' : (leb (a + pgsize) b && ltb b (last + pgsize)) ≡ false =
              ground (arith, out) in
            rw (out, out') (other b n small)
      ]
    ]

-- What a round of the loop does, by the tests it makes.
map_loop_fails :
    (f pgdir a last pa perm : ℕ) (w w' : Vm)
    → walkpgdir pgdir a true w ≡ done (none, w')
    → map_loop (suc f) pgdir a last pa perm w ≡ done (minus 1, w')
unfolding map_loop
map_loop_fails f pgdir a last pa perm w w' e = rw e refl

map_loop_ends :
    (f pgdir a pa perm pte : ℕ) (w w' : Vm)
    → walkpgdir pgdir a true w ≡ done (some pte, w')
    → present (w'.word_at pte) ≡ false
    → map_loop (suc f) pgdir a a pa perm w ≡ done (0, put_word pte (or32 (or32 pa perm) 1) w')
unfolding map_loop
map_loop_ends f pgdir a pa perm pte w w' e off = rw e (ground (arith, off))

map_loop_goes_on :
    (f pgdir a last pa perm pte : ℕ) (w w' : Vm)
    → walkpgdir pgdir a true w ≡ done (some pte, w')
    → present (w'.word_at pte) ≡ false
    → a ≢ last
    → a + pgsize < word
    → pa + pgsize < word
    → map_loop (suc f) pgdir a last pa perm w
      ≡ map_loop f pgdir
          (a + pgsize)
          last
          (pa + pgsize)
          perm
          (put_word pte (or32 (or32 pa perm) 1) w')
unfolding map_loop
map_loop_goes_on f pgdir a last pa perm pte w w' e off ne fits pfits =
    let sa : add32 a pgsize ≡ a + pgsize = omega (arith, fits) in
    let sp : add32 pa pgsize ≡ pa + pgsize = omega (arith, pfits) in
    rw (e, sym sa, sym sp) (ground (arith, off, ne))

-- A page is mapped at the place where its walk ended.
module _ (kend pgdir a last pa perm pte : ℕ) (w w' : Vm) (free : List ℕ)
    (inv : IsPgdir kend pgdir w' free) (at_ : StandsAt pgdir a pte w')
    (same : (b : ℕ) → entry pgdir b w' ≡ entry pgdir b w) (al : a % 4096 ≡ 0) (le : a ≤ last)
    (top : last + pgsize ≤ word) where
  abbrev first_mapped : Vm
  first_mapped = put_word pte (or32 (or32 pa perm) 1) w'

  first-other :
      (b : ℕ) → a / 4096 ≢ b / 4096 → b < word → entry pgdir b first_mapped ≡ entry pgdir b w
  first-other b ne h =
      stored-other kend pgdir a pte (or32 (or32 pa perm) 1) w' free inv at_ b
        (omega (arith, le, top)) h ne
      ∙ same b

  first-entry :
      (b : ℕ)
      → b < word
      → entry_mapped pgdir (a + pgsize) last (pa + pgsize) perm b first_mapped
        ≡ entry_mapped pgdir a last pa perm b w
  first-entry b =
      map_one pgdir a last pa perm b w first_mapped al le
        (λ c s h.
          stored-here kend pgdir a pte (or32 (or32 pa perm) 1) w' free inv at_ c
            (omega (arith, le, top)) h s)
        first-other

  first-IsUnmapped : IsUnmapped pgdir a last w → IsUnmapped pgdir (a + pgsize) last first_mapped
  first-IsUnmapped un b lo hi =
      rw (first-other b (omega (arith, al, lo)) (omega (arith, hi, top)))
        (un b (omega (arith, lo)) hi)

  -- The rest of the pages after this one.
  first-Maps :
      (o : Outcome (ℕ × Vm))
      → Maps kend pgdir (a + pgsize) last (pa + pgsize) perm first_mapped o
      → Maps kend pgdir a last pa perm w o
  first-Maps o (inl (w2, free', e, inv', mapped)) =
      inl (w2, free', e, inv', λ b h. mapped b h ∙ first-entry b h)
  first-Maps o (inr (w2, e, inv', stays)) =
      inr (w2, e, inv', λ b h out. stays b h (outside b out) ∙ first-other b (apart b out) h)
    where
      outside : (b : ℕ) → b < a ⊎ last + pgsize ≤ b → b < a + pgsize ⊎ last + pgsize ≤ b
      outside b (inl lt) = inl (omega (arith, lt))
      outside b (inr ge) = inr ge

      apart : (b : ℕ) → b < a ⊎ last + pgsize ≤ b → a / 4096 ≢ b / 4096
      apart b (inl lt) = omega (arith, lt, al)
      apart b (inr ge) = omega (arith, ge, al, le)

-- No page is left after the last one.
past_last :
    (pgdir a pa perm b : ℕ) (w : Vm)
    → entry pgdir b w ≡ entry_mapped pgdir (a + pgsize) a pa perm b w
past_last pgdir a pa perm b w =
    let out : (leb (a + pgsize) b && ltb b (a + pgsize)) ≡ false = ground arith in rw out refl

-- The entry that the walk found has no mapping, as the range had none.
walked_unmapped :
    (pgdir a last pte : ℕ) (w w' : Vm)
    → StandsAt pgdir a pte w'
    → ((b : ℕ) → entry pgdir b w' ≡ entry pgdir b w)
    → IsUnmapped pgdir a last w
    → a ≤ last
    → present (w'.word_at pte) ≡ false
walked_unmapped pgdir a last pte w w' at_ same un le =
    rw (StandsAt-entry pgdir a pte w' at_, same a) (un a (omega arith) (omega (arith, le)))

-- The loop, with as many rounds left as there are pages.
map_loop-Maps :
    (n kend pgdir a last pa perm : ℕ) (w : Vm) (free : List ℕ)
    → IsPgdir kend pgdir w free
    → a % 4096 ≡ 0
    → last ≡ a + n * 4096
    → last + pgsize ≤ word
    → pa + n * 4096 < word
    → IsUnmapped pgdir a last w
    → Maps kend pgdir a last pa perm w (map_loop (suc n) pgdir a last pa perm w)
map_loop-Maps zero kend pgdir a last pa perm w free inv al dist top ptop un =
    elim (walkpgdir-Walked kend pgdir a w free inv) [
      | inl (w', e, inv', same) ↦
          inr (w', map_loop_fails 0 pgdir a last pa perm w w' e, inv', λ b _ _. same b)
      | inr (pte, w', free', e, at_, inv', same) ↦
          let off = walked_unmapped pgdir a last pte w w' at_ same un (omega (arith, dist)) in
          let l : last ≡ a = omega (arith, dist) in
          let w1 = put_word pte (or32 (or32 pa perm) 1) w' in
          first-Maps kend pgdir a last pa perm pte w w' free' inv' at_ same al (omega (arith, dist))
            top (map_loop 1 pgdir a last pa perm w)
            (inl (
              w1,
              free',
              rw l (map_loop_ends 0 pgdir a pa perm pte w w' e off),
              stored-IsPgdir kend pgdir a pte (or32 (or32 pa perm) 1) w' free' inv' at_,
              λ b _. rw l (past_last pgdir a (pa + pgsize) perm b w1),
            ))
    ]
map_loop-Maps (suc n) kend pgdir a last pa perm w free inv al dist top ptop un =
    elim (walkpgdir-Walked kend pgdir a w free inv) [
      | inl (w', e, inv', same) ↦
          inr (w', map_loop_fails (suc n) pgdir a last pa perm w w' e, inv', λ b _ _. same b)
      | inr (pte, w', free', e, at_, inv', same) ↦
          let off = walked_unmapped pgdir a last pte w w' at_ same un (omega (arith, dist)) in
          let w1 = put_word pte (or32 (or32 pa perm) 1) w' in
          first-Maps kend pgdir a last pa perm pte w w' free' inv' at_ same al (omega (arith, dist))
            top (map_loop (suc (suc n)) pgdir a last pa perm w)
            (rw
              (map_loop_goes_on (suc n) pgdir a last pa perm pte w w' e off (omega (arith, dist))
                (omega (arith, dist, top)) (omega (arith, ptop)))
              (map_loop-Maps n kend pgdir (a + pgsize) last (pa + pgsize) perm w1 free'
                (stored-IsPgdir kend pgdir a pte (or32 (or32 pa perm) 1) w' free' inv' at_)
                (omega (arith, al)) (omega (arith, dist)) top (omega (arith, ptop))
                (first-IsUnmapped kend pgdir a last pa perm pte w w' free' inv' at_ same al
                  (omega (arith, dist)) top un)))
    ]

-- `mappages` on a well-formed page directory, for pages without a mapping, of a range that does
-- not wrap around: it maps every page of the range to the physical page at the same distance from
-- `pa`, with the permissions and the present flag, and leaves the entries of all other addresses;
-- or it returns -1, no page is free, and the entries outside the range are as they were. In both
-- cases the page directory stays well formed.
pub mappages-Maps :
    (kend pgdir va size pa perm : ℕ) (w : Vm) (free : List ℕ)
    → IsPgdir kend pgdir w free
    → 0 < size
    → page_round_down (va + size - 1) + pgsize ≤ word
    → pa + (page_round_down (va + size - 1) - page_round_down va) < word
    → IsUnmapped pgdir (page_round_down va) (page_round_down (va + size - 1)) w
    → Maps kend pgdir
        (page_round_down va)
        (page_round_down (va + size - 1))
        pa
        perm
        w
        (mappages pgdir va size pa perm w)
unfolding mappages
mappages-Maps kend pgdir va size pa perm w free inv pos top ptop un =
    let a = page_round_down va in
    let last = page_round_down (va + size - 1) in
    let n = (last - a) / 4096 in
    let end : sub32 (add32 va size) 1 ≡ va + size - 1 = omega (arith, pos, top) in
    let rounds : sub32 last a / pgsize + 1 ≡ suc n = omega (arith, pos, top) in
    let dist : last ≡ a + n * 4096 = omega (arith, pos) in
    rw (end, rounds)
      (map_loop-Maps n kend pgdir a last pa perm w free inv (omega arith) dist top
        (omega (arith, ptop)) un)
