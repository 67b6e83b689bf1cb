-- ===== src/Vm/Bits.antt =====
-- The words of page tables: addresses with flags, and where they are found.
use ele3021_spring.Common.{
  ℕ, suc, ◌<◌, ◌%◌, ◌≡◌, ◌≢◌, ◌*◌, arith, ◌/◌, word, true, ◌+◌, zero, ◌∙◌, ap, Bool-cases, leb,
  ◌&&◌, ltb, inr, inl, refl, ◌==◌,
}
use ele3021_spring.Kalloc.{pgsize}
use ele3021_spring.Vm.{Vm, or_bits, or32, pdx, ptx, v2p, present, table_of, put_word, fill_page}

-- The powers of two.
unfoldable power : ℕ → ℕ
power zero = 1
power (suc n) = 2 * power n

or_nothing : (n a : ℕ) → a < power n → or_bits n a 0 ≡ a
unfolding or_bits power
or_nothing zero a h = omega (arith, h)
or_nothing (suc n) a h = let i = or_nothing n (a / 2) (omega (arith, h)) in ground (arith, i)

or_even :
    (n a b : ℕ)
    → a % 2 ≡ 0
    → or_bits n (a / 2) (b / 2) ≡ a / 2 + b / 2
    → or_bits (suc n) a b ≡ a + b
unfolding or_bits
or_even n a b even i = ground (arith, even, i)

-- The flags P, W and U of an aligned address.
or_table : (x : ℕ) → x < word → x % 4096 ≡ 0 → or32 x 7 ≡ x + 7
unfolding power
or_table x small aligned = or_even 31 x 7 (omega (arith, aligned)) (
    or_even 30 (x / 2) 3 (omega (arith, aligned)) (
      or_even 29 (x / 2 / 2) 1 (omega (arith, aligned))
        (or_nothing 29 (x / 2 / 2 / 2) (omega (arith, small)) ∙ omega arith)))

present-or_bits : (n a : ℕ) → present (or_bits (suc n) a 1) ≡ true
unfolding or_bits
present-or_bits n a = elim (Bool-cases (a % 2 == 0)) [
  | inl e ↦ rw e (ground arith)
  | inr e ↦ rw e (ground arith)
]

pub present-or : (a : ℕ) → present (or32 a 1) ≡ true
present-or a = present-or_bits 31 a

-- The page table entry of a new table at `v`.
pub new_table :
    (v : ℕ)
    → v < word
    → v % 4096 ≡ 0
    → (present (or32 (v2p v) 7) ≡ true) × (table_of (or32 (v2p v) 7) ≡ v)
new_table v small aligned =
    let x = v2p v in
    let e : or32 x 7 ≡ x + 7 = or_table x (omega arith) (omega (arith, aligned)) in
    (rw e (ground (arith, aligned)), ap table_of e ∙ omega (arith, small, aligned))

-- Pages that are not the same have no address in common.
pub pages_apart :
    (p q i j : ℕ) → p % 4096 ≡ 0 → q % 4096 ≡ 0 → p ≢ q → i < 4096 → j < 4096 → p + i ≢ q + j
pages_apart p q i j a b ne si sj e = absurd (ne (omega (arith, a, b, si, sj, e)))

pub put_here : (a x : ℕ) (w : Vm) → (put_word a x w).word_at a ≡ x
put_here a x w = ground arith

pub put_other : (a x b : ℕ) (w : Vm) → a ≢ b → (put_word a x w).word_at b ≡ w.word_at b
put_other a x b w ne = ground (arith, ne)

pub fill_here : (v x i : ℕ) (w : Vm) → i < 4096 → (fill_page v x w).word_at (v + i) ≡ x
fill_here v x i w h = ground (arith, h)

pub fill_other :
    (v x p i : ℕ) (w : Vm)
    → v % 4096 ≡ 0
    → p % 4096 ≡ 0
    → v ≢ p
    → i < 4096
    → (fill_page v x w).word_at (p + i) ≡ w.word_at (p + i)
fill_other v x p i w av ap_ ne h = elim (Bool-cases (leb v (p + i) && ltb (p + i) (v + pgsize))) [
  | inr out ↦ rw out refl
  | inl in_ ↦ absurd (ne (ground (arith, in_, av, ap_, h)))
]

-- The indices of an address name its page.
pub same_page :
    (a b : ℕ) → a < word → b < word → pdx a ≡ pdx b → ptx a ≡ ptx b → a / 4096 ≡ b / 4096
same_page a b sa sb d t = omega (arith, sa, sb, d, t)
