-- ===== src/Fs/Alloc.antt =====
-- `balloc` of xv6-public/fs.c: it finds a free block if there is one, and takes it.
use ele3021_spring.Common.{
  ℕ, zero, suc, ◌≡◌, ◌≢◌, ◌⊎◌, ◌+◌, ◌-◌, ◌≤◌, ◌<◌, inl, inr, refl, sym, ap, ◌∙◌, true, false, arith,
  ltb, done, panicked, Bool-cases, Option-cases, none, some, some_inj, ℕ_discrete, dec_lt, ltb→lt,
  ◌/◌,
}
use ele3021_spring.Fs.{
  Fs, bblock, is_used, mark, bzero, scan_bits, scan_parts, balloc, bpb, bit_byte, bit_place,
  test_bit,
}
use ele3021_spring.Fs.Bitmap.{mark-used, mark-other}

-- A free block.
abbrev pub IsFree : Fs → ℕ → Type 0
IsFree fs x = (x < fs.sb.size) × (is_used fs x ≡ false)

-- All blocks from `lo` on and below `hi` are in use.
abbrev Full : Fs → ℕ → ℕ → Type 0
Full fs lo hi = (y : ℕ) → lo ≤ y → y < hi → y < fs.sb.size → is_used fs y ≡ true

scan_bits-some : (n b bi : ℕ) (fs : Fs) (x : ℕ) → scan_bits n b bi fs ≡ some x → IsFree fs x
unfolding scan_bits
scan_bits-some zero b bi fs x e = cc
scan_bits-some (suc n) b bi fs x e = elim (Bool-cases (ltb (b + bi) fs.sb.size)) [
  | inr no_ ↦ cc (rw no_ at e)
  | inl lt ↦ elim (Bool-cases (is_used fs (b + bi))) [
    | inl u ↦ scan_bits-some n b (suc bi) fs x (rw (lt, u) at e)
    | inr u ↦
        let s : b + bi ≡ x = some_inj _ _ (rw (lt, u) at e) in
        (ground (arith, lt, s), ap (is_used fs) (sym s) ∙ u)
  ]
]

scan_bits-none : (n b bi : ℕ) (fs : Fs) → scan_bits n b bi fs ≡ none → Full fs (b + bi) (b + bi + n)
unfolding scan_bits
scan_bits-none zero b bi fs e = λ y a c d. absurd (omega arith)
scan_bits-none (suc n) b bi fs e = elim (Bool-cases (ltb (b + bi) fs.sb.size)) [
  | inr no_ ↦ λ y a c d. absurd (ground (arith, no_, a, d))
  | inl lt ↦ elim (Bool-cases (is_used fs (b + bi))) [
    | inr u ↦ cc (rw (lt, u) at e)
    | inl u ↦ λ y a c d. elim (ℕ_discrete (b + bi) y) [
      | yes s ↦ ap (is_used fs) (sym s) ∙ u
      | no s ↦
          scan_bits-none n b (suc bi) fs (rw (lt, u) at e) y (omega (arith, a, s)) (omega arith) d
    ]
  ]
]

scan_parts-some : (n b : ℕ) (fs : Fs) (x : ℕ) → scan_parts n b fs ≡ some x → IsFree fs x
unfolding scan_parts
scan_parts-some zero b fs x e = cc
scan_parts-some (suc n) b fs x e = elim (Bool-cases (ltb b fs.sb.size)) [
  | inr no_ ↦ cc (rw (scan_parts, no_) at e)
  | inl lt ↦ elim (Option-cases (scan_bits bpb b 0 fs)) [
    | inr s ↦ scan_bits-some bpb b 0 fs x (s.1 ∙ rw (scan_parts, lt, s.1) at e)
    | inl no_ ↦ scan_parts-some n (b + bpb) fs x (rw (scan_parts, lt, no_) at e)
  ]
]

-- The fuel of `balloc` is enough.
scan_parts-none :
    (n b : ℕ) (fs : Fs) → fs.sb.size - b < n → scan_parts n b fs ≡ none → Full fs b fs.sb.size
unfolding scan_parts
scan_parts-none zero b fs enough e = absurd (omega arith)
scan_parts-none (suc n) b fs enough e = elim (Bool-cases (ltb b fs.sb.size)) [
  | inr no_ ↦ λ y a c d. absurd (ground (arith, no_, a, d))
  | inl lt ↦ elim (Option-cases (scan_bits bpb b 0 fs)) [
    | inr s ↦ cc (rw (scan_parts, lt, s.1) at e)
    | inl no_ ↦
        let part = scan_bits-none bpb b 0 fs no_ in
        let later =
          scan_parts-none n (b + bpb) fs (omega (arith, enough, ltb→lt b fs.sb.size lt))
            (rw (scan_parts, lt, no_) at e) in
        λ y a c d. elim (dec_lt y (b + bpb)) [
          | yes l ↦ part y (omega (arith, a)) (omega (arith, l)) d
          | no l ↦ later y (omega (arith, l)) c d
        ]
  ]
]

-- What `balloc` does with the block `b` that it found: it is marked and zeroed, the other blocks
-- keep their bits, and all blocks but `b` and the one with its bit keep their contents.
pub record Allocated (fs fs' : Fs) (b : ℕ) : Type 0 where
  pub was_free : IsFree fs b
  pub used : is_used fs' b ≡ true
  pub others : (c : ℕ) → c < fs.sb.size → b ≢ c → is_used fs' c ≡ is_used fs c
  pub zeroed : (i : ℕ) → fs'.bytes b i ≡ 0
  pub contents : (c : ℕ) → b ≢ c → bblock fs b ≢ c → (i : ℕ) → fs'.bytes c i ≡ fs.bytes c i
  pub sb : fs'.sb ≡ fs.sb

-- The blocks of the bitmap itself are in use.
abbrev pub IsMarked : Fs → Type 0
IsMarked fs = (y : ℕ) → y < fs.sb.size → is_used fs (bblock fs y) ≡ true

bzero-bytes : (b c i : ℕ) (fs : Fs) → b ≢ c → (bzero b fs).bytes c i ≡ fs.bytes c i
unfolding bzero
bzero-bytes b c i fs ne = ground (arith, ne)

bzero-zero : (b i : ℕ) (fs : Fs) → (bzero b fs).bytes b i ≡ 0
unfolding bzero
bzero-zero b i fs = ground arith

bzero-used : (b c : ℕ) (fs : Fs) → b ≢ bblock fs c → is_used (bzero b fs) c ≡ is_used fs c
unfolding is_used bzero
bzero-used b c fs ne =
    ap (λ (x : ℕ). test_bit x (bit_place c)) (bzero-bytes b (bblock fs c) (bit_byte c) fs ne)

mark-bytes : (b c i : ℕ) (fs : Fs) → bblock fs b ≢ c → (mark b fs).bytes c i ≡ fs.bytes c i
unfolding mark
mark-bytes b c i fs ne = ground (arith, ne)

mark-sb : (b : ℕ) (fs : Fs) → (mark b fs).sb ≡ fs.sb
unfolding mark
mark-sb b fs = refl

bzero-sb : (b : ℕ) (fs : Fs) → (bzero b fs).sb ≡ fs.sb
unfolding bzero
bzero-sb b fs = refl

taken : (fs : Fs) (b : ℕ) → IsMarked fs → IsFree fs b → Allocated fs (bzero b (mark b fs)) b
taken fs b m free = record {
  was_free = free;
  used = bzero-used b b (mark b fs) (not_bitmap b free.0) ∙ mark-used fs b;
  others = λ c lt ne. bzero-used b c (mark b fs) (not_bitmap c lt) ∙ mark-other fs b c ne;
  zeroed = λ i. bzero-zero b i (mark b fs);
  contents = λ c ne nb i. bzero-bytes b c i (mark b fs) ne ∙ mark-bytes b c i fs nb;
  sb = bzero-sb b (mark b fs) ∙ mark-sb b fs;
}
  where
    not_bitmap : (c : ℕ) → c < fs.sb.size → b ≢ bblock (mark b fs) c
    not_bitmap c lt e =
        cc (
          sym free.1
          ∙ ap (is_used fs) (e ∙ ap (λ s. c / bpb + s.bmapstart) (mark-sb b fs))
          ∙ m c lt)

-- On a disk whose bitmap is marked in itself, `balloc` takes a free block if there is one, zeroed
-- and marked, with no other bit changed; it panics only if every block is in use.
pub balloc-Allocated :
    (fs : Fs)
    → IsMarked fs
    → ((b : ℕ) × (fs' : Fs) × (balloc fs ≡ done (b, fs')) × Allocated fs fs' b)
      ⊎ ((balloc fs ≡ panicked) × ((y : ℕ) → y < fs.sb.size → is_used fs y ≡ true))
unfolding balloc
balloc-Allocated fs m = elim (Option-cases (scan_parts (fs.sb.size + 1) 0 fs)) [
  | inr s ↦ inl (
    s.0,
    bzero s.0 (mark s.0 fs),
    rw (balloc, s.1) refl,
    taken fs s.0 m (scan_parts-some (fs.sb.size + 1) 0 fs s.0 s.1),
  )
  | inl n ↦ inr (
    rw (balloc, n) refl,
    λ y lt. scan_parts-none (fs.sb.size + 1) 0 fs (omega arith) n y (omega arith) lt lt,
  )
]
