-- ===== src/Fs/Bitmap.antt =====
-- The block bitmap of xv6-public/fs.c: marking and freeing one block changes its bit alone.
use ele3021_spring.Common.{
  ℕ, ◌≡◌, ◌≢◌, ◌⊎◌, inl, inr, refl, sym, ap, ◌∙◌, true, false, arith, ℕ_discrete, done,
}
use ele3021_spring.Fs.{
  Fs, test_bit, set_bit, clear_bit, store_at, bblock, bit_byte, bit_place, is_used, mark, bfree,
  log_block,
}
use ele3021_spring.Fs.Bits.{test-set, test-set_ne, test-clear, test-clear_ne}

store_hit : (b i v : ℕ) (f : ℕ → ℕ → ℕ) → store_at b i v f b i ≡ v
store_hit b i v f = ground arith

store_miss :
    (b i v : ℕ) (f : ℕ → ℕ → ℕ) (c j : ℕ) → (b ≢ c) ⊎ (i ≢ j) → store_at b i v f c j ≡ f c j
store_miss b i v f c j o = ground (arith, o)

-- Different blocks have different bits.
places :
    (fs : Fs) (b c : ℕ)
    → b ≢ c
    → ((bblock fs b ≢ bblock fs c) ⊎ (bit_byte b ≢ bit_byte c))
      ⊎ ((bblock fs b ≡ bblock fs c) × (bit_byte b ≡ bit_byte c) × (bit_place b ≢ bit_place c))
places fs b c ne = elim (ℕ_discrete (bblock fs b) (bblock fs c)) [
  | no x ↦ inl (inl x)
  | yes x ↦ elim (ℕ_discrete (bit_byte b) (bit_byte c)) [
    | no y ↦ inl (inr y)
    | yes y ↦ inr (x, y, omega (arith, ne, x, y))
  ]
]

-- The bitmap with the byte of block `b` changed to `v`.
abbrev with_byte : ℕ → ℕ → Fs → Fs
with_byte b v fs = record fs { bytes = store_at (bblock fs b) (bit_byte b) v fs.bytes }

used_same : (fs : Fs) (b v : ℕ) → is_used (with_byte b v fs) b ≡ test_bit v (bit_place b)
unfolding is_used
used_same fs b v =
    ap (λ x. test_bit x (bit_place b)) (store_hit (bblock fs b) (bit_byte b) v fs.bytes)

used_other :
    (fs : Fs) (b c v : ℕ)
    → b ≢ c
    → ((j : ℕ) → bit_place b ≢ j → test_bit v j ≡ test_bit (fs.bytes (bblock fs b) (bit_byte b)) j)
    → is_used (with_byte b v fs) c ≡ is_used fs c
unfolding is_used
used_other fs b c v ne keeps = elim (places fs b c ne) [
  | inl o ↦
      ap (λ x. test_bit x (bit_place c))
        (store_miss (bblock fs b) (bit_byte b) v fs.bytes (bblock fs c) (bit_byte c) o)
  | inr s ↦
      ap (λ x. test_bit x (bit_place c))
        (ap (λ x. store_at (bblock fs b) (bit_byte b) v fs.bytes x (bit_byte c)) (sym s.0)
          ∙ ap (store_at (bblock fs b) (bit_byte b) v fs.bytes (bblock fs b)) (sym s.1)
          ∙ store_hit (bblock fs b) (bit_byte b) v fs.bytes)
      ∙ keeps (bit_place c) s.2
      ∙ ap (λ x. test_bit (fs.bytes x (bit_byte b)) (bit_place c)) s.0
      ∙ ap (λ x. test_bit (fs.bytes (bblock fs c) x) (bit_place c)) s.1
]

pub mark-used : (fs : Fs) (b : ℕ) → is_used (mark b fs) b ≡ true
unfolding mark is_used
mark-used fs b =
    used_same fs b (set_bit (fs.bytes (bblock fs b) (bit_byte b)) (bit_place b))
    ∙ test-set (fs.bytes (bblock fs b) (bit_byte b)) (bit_place b)

pub mark-other : (fs : Fs) (b c : ℕ) → b ≢ c → is_used (mark b fs) c ≡ is_used fs c
unfolding mark is_used
mark-other fs b c ne =
    used_other fs b c (set_bit (fs.bytes (bblock fs b) (bit_byte b)) (bit_place b)) ne
      (λ j. test-set_ne (fs.bytes (bblock fs b) (bit_byte b)) (bit_place b) j)

-- What `bfree` of a block in use does: its bit alone is cleared, and the bitmap block is logged.
pub record Freed (fs fs' : Fs) (b : ℕ) : Type 0 where
  pub free : is_used fs' b ≡ false
  pub others : (c : ℕ) → b ≢ c → is_used fs' c ≡ is_used fs c
  pub contents : (c : ℕ) → c ≢ bblock fs b → (i : ℕ) → fs'.bytes c i ≡ fs.bytes c i
  pub sb : fs'.sb ≡ fs.sb

-- `bfree` of a block in use clears its bit and returns; the bits of all other blocks and the contents
-- of all blocks but the one with the bit are as they were.
pub bfree-Freed :
    (fs : Fs) (b : ℕ) → is_used fs b ≡ true → (fs' : Fs) × (bfree b fs ≡ done fs') × Freed fs fs' b
unfolding bfree is_used
bfree-Freed fs b u = (
  log_block (bblock fs b)
      (with_byte b (clear_bit (fs.bytes (bblock fs b) (bit_byte b)) (bit_place b)) fs),
  rw (bfree, u) refl,
  record {
    free =
        used_same fs b (clear_bit (fs.bytes (bblock fs b) (bit_byte b)) (bit_place b))
        ∙ test-clear (fs.bytes (bblock fs b) (bit_byte b)) (bit_place b);
    others = λ c ne.
        used_other fs b c (clear_bit (fs.bytes (bblock fs b) (bit_byte b)) (bit_place b)) ne
          (λ j. test-clear_ne (fs.bytes (bblock fs b) (bit_byte b)) (bit_place b) j);
    contents = λ c ne i.
        store_miss (bblock fs b) (bit_byte b)
          (clear_bit (fs.bytes (bblock fs b) (bit_byte b)) (bit_place b)) fs.bytes c i
          (inl (λ e. ne (sym e)));
    sb = refl;
  },
)
