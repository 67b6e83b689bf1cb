-- ===== src/Sysargs/Bounds.antt =====
-- What the fetched arguments of system calls point to lies in the memory of the process.
use ele3021_spring.Common.{
  ℕ, List, ◌≡◌, ◌≤◌, ◌<◌, some, none, ◌∷◌, ◌+◌, ◌⊎◌, word, ◌≢◌, suc, Option-cases, [], Bool-cases,
  arith, inl, ◌==◌, leb, inr, subst, ℕ_discrete, leb→le, some_inj, ==→ne, ◌-◌, ==→eq, ap, refl,
  zero, ◌∙◌, false,
}
use ele3021_spring.Kalloc.{kernbase}
use ele3021_spring.Sysargs.{User, scan_string, fetchstr, argint, argptr, bad_block}

-- The string `cs` with its NUL stands at `s`, below `top`.
abbrev pub Stands : List ℕ → ℕ → ℕ → (ℕ → ℕ) → Type 0
Stands [] s top mem = (s < top) × (mem s ≡ 0)
Stands (c ∷ cs) s top mem = (mem s ≡ c) × (c ≢ 0) × Stands cs (suc s) top mem

scan_string-Stands :
    (n s : ℕ) (mem : ℕ → ℕ) (cs : List ℕ) → scan_string n s mem ≡ some cs → Stands cs s (s + n) mem
unfolding scan_string
scan_string-Stands zero s mem cs e = cc
scan_string-Stands (suc n) s mem cs e = elim (Bool-cases (mem s == 0)) [
  | inl z ↦
      subst (λ x. Stands x s (s + suc n) mem) (some_inj _ _ (rw z at e))
        (omega arith, ==→eq (mem s) 0 z)
  | inr nz ↦ elim (Option-cases (scan_string n (suc s) mem)) [
    | inl no_ ↦ cc (rw (nz, no_) at e)
    | inr r ↦
        let count : suc s + n ≡ s + suc n = omega arith in
        subst (λ x. Stands x s (s + suc n) mem) (some_inj _ _ (rw (nz, r.1) at e))
          (
            refl,
            ==→ne (mem s) 0 nz,
            subst (λ x. Stands r.0 (suc s) x mem) count (scan_string-Stands n (suc s) mem r.0 r.1),
          )
  ]
]

scan_string-none :
    (n s : ℕ) (mem : ℕ → ℕ) → scan_string n s mem ≡ none → (j : ℕ) → s ≤ j → j < s + n → mem j ≢ 0
unfolding scan_string
scan_string-none zero s mem e j a b = absurd (omega arith)
scan_string-none (suc n) s mem e j a b = elim (Bool-cases (mem s == 0)) [
  | inl z ↦ cc (rw z at e)
  | inr nz ↦ elim (Option-cases (scan_string n (suc s) mem)) [
    | inr r ↦ cc (rw (nz, r.1) at e)
    | inl no_ ↦ elim (ℕ_discrete s j) [
      | yes q ↦ λ z. ==→ne (mem s) 0 nz (ap mem q ∙ z)
      | no q ↦ scan_string-none n (suc s) mem no_ j (omega (arith, a, q)) (omega arith)
    ]
  ]
]

-- `fetchstr` gives the string that stands at the address, which ends with its NUL below the size of
-- the process; it fails exactly when there is none.
pub fetchstr-Stands :
    (addr : ℕ) (u : User)
    → ((cs : List ℕ) × (fetchstr addr u ≡ some cs) × Stands cs addr u.sz u.mem)
      ⊎ ((fetchstr addr u ≡ none) × ((j : ℕ) → addr ≤ j → j < u.sz → u.mem j ≢ 0))
unfolding fetchstr
fetchstr-Stands addr u = elim (Bool-cases (leb u.sz addr)) [
  | inl l ↦ inr (rw l refl, λ j a b. absurd (omega (arith, a, b, leb→le u.sz addr l)))
  | inr l ↦
      let below : addr + (u.sz - addr) ≡ u.sz = ground (arith, l) in
      elim (Option-cases (scan_string (u.sz - addr) addr u.mem)) [
        | inl no_ ↦ inr (
          rw (l, no_) refl,
          λ j a b. scan_string-none (u.sz - addr) addr u.mem no_ j a (omega (arith, b, below)),
        )
        | inr r ↦ inl (
          r.0,
          rw (l, r.1) refl,
          subst (λ x. Stands r.0 addr x u.mem) below
              (scan_string-Stands (u.sz - addr) addr u.mem r.0 r.1),
        )
      ]
]

good_block :
    (i size : ℕ) (u : User)
    → u.sz ≤ kernbase
    → size < word
    → bad_block i size u ≡ false
    → (i < u.sz) × (i + size ≤ u.sz)
unfolding bad_block
good_block i size u low small e = ground (arith, e, low, small)

-- In a process that ends below the kernel, the block that `argptr` accepts lies in the process: its
-- size is not negative, and its last byte is below the size of the process.
pub argptr-inside :
    (n size : ℕ) (u : User) (p : ℕ)
    → u.sz ≤ kernbase
    → size < word
    → argptr n size u ≡ some p
    → (p < u.sz) × (p + size ≤ u.sz)
unfolding argptr
argptr-inside n size u p low small e = elim (Option-cases (argint n u)) [
  | inl no_ ↦ cc (rw (argptr, no_) at e)
  | inr r ↦ elim (Bool-cases (bad_block r.0 size u)) [
    | inl bad ↦ cc (rw (argptr, r.1, bad) at e)
    | inr good ↦
        let here : r.0 ≡ p = some_inj _ _ (rw (argptr, r.1, good) at e) in
        let g = good_block r.0 size u low small good in
        (omega (arith, g, here), omega (arith, g, here))
  ]
]
