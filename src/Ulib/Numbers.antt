-- ===== src/Ulib/Numbers.antt =====
-- Numbers written by `printint` of xv6-public/printf.c and read by `atoi` of xv6-public/ulib.c.
use ele3021_spring.Common.{
  ℕ, List, ◌/◌, ◌<◌, [], suc, ◌≡◌, Bool, ◌*◌, ◌==◌, ◌∷◌, refl, word, ◌^◌, ◌⊎◌, ◌≢◌, ◌+◌, true,
  false, arith, zero, inl, ◌≤◌, length, ltb, ◌%◌, Bool-cases, slt, ap, inr, ◌-◌, ==→eq, ◌∙◌, ==→ne,
  sub32, length-append, sym,
}
use ele3021_spring.Ulib.{
  atoi, atoi_loop, is_digit, digit, digit_loop, backwards, buffer, printint, is_minus,
}

-- One step of `atoi` over the digit `d`.
atoi_step :
    (n d : ℕ) (s : List ℕ)
    → d < 10
    → n * 10 + d < word
    → atoi_loop n (digit d ∷ s) ≡ atoi_loop (n * 10 + d) s
unfolding atoi_loop digit
atoi_step n d s small fits =
    let is_low : ltb d 10 ≡ true = ground (arith, small) in
    let here : is_digit (48 + d) ≡ true = ground (arith, small) in
    let value : (n * 10 + (48 + d) + word - 48) % word ≡ n * 10 + d = omega (arith, small, fits) in
    rw (is_low, here) (ap (λ k. atoi_loop k s) value)

last_digit :
    (fuel x base : ℕ)
    → (x / base == 0) ≡ true
    → digit_loop (suc fuel) x base ≡ digit (x % base) ∷ []
unfolding digit_loop
last_digit fuel x base e = rw (digit_loop, e) refl

next_digit :
    (fuel x base : ℕ)
    → (x / base == 0) ≡ false
    → digit_loop (suc fuel) x base ≡ digit (x % base) ∷ digit_loop fuel (x / base) base
unfolding digit_loop
next_digit fuel x base e = rw (digit_loop, e) refl

backwards_cons : (c : ℕ) (buf out : List ℕ) → backwards (c ∷ buf) out ≡ backwards buf (c ∷ out)
unfolding backwards
backwards_cons c buf out = refl

backwards_nil : (out : List ℕ) → backwards [] out ≡ out
unfolding backwards
backwards_nil out = refl

-- The digits of `x`, written backwards in front of `s`, are read as `x`.
atoi-digits :
    (fuel x : ℕ) (s : List ℕ)
    → x < fuel
    → x < word
    → atoi_loop 0 (backwards (digit_loop fuel x 10) s) ≡ atoi_loop x s
atoi-digits zero x s enough small = absurd (omega arith)
atoi-digits (suc fuel) x s enough small = elim (Bool-cases (x / 10 == 0)) [
  | inl z ↦
      let e : x / 10 ≡ 0 = ==→eq (x / 10) 0 z in
      ap (λ b. atoi_loop 0 (backwards b s)) (last_digit fuel x 10 z)
      ∙ ap (atoi_loop 0) (backwards_cons (digit (x % 10)) [] s ∙ backwards_nil (digit (x % 10) ∷ s))
      ∙ atoi_step 0 (x % 10) s (omega arith) (omega arith)
      ∙ ap (λ k. atoi_loop k s) (omega (arith, e))
  | inr n ↦
      let ne : x / 10 ≢ 0 = ==→ne (x / 10) 0 n in
      ap (λ b. atoi_loop 0 (backwards b s)) (next_digit fuel x 10 n)
      ∙ ap (atoi_loop 0) (backwards_cons (digit (x % 10)) (digit_loop fuel (x / 10) 10) s)
      ∙ atoi-digits fuel (x / 10) (digit (x % 10) ∷ s) (omega (arith, enough, ne))
          (omega (arith, small))
      ∙ atoi_step (x / 10) (x % 10) s (omega arith) (omega (arith, small))
      ∙ ap (λ k. atoi_loop k s) (omega arith)
]

plain : (x : ℕ) → x < 2 ^ 31 → printint x 10 true ≡ backwards (digit_loop (x + 1) x 10) []
unfolding printint buffer
plain x small = let no_minus : slt x 0 ≡ false = ground (arith, small) in rw no_minus refl

atoi_end : (n : ℕ) → atoi_loop n [] ≡ n
unfolding atoi_loop
atoi_end n = refl

-- `atoi` reads an int that is not negative back from what `printint` writes for it in base 10.
pub atoi-printint : (x : ℕ) → x < 2 ^ 31 → atoi (printint x 10 true) ≡ x
unfolding atoi
atoi-printint x small =
    ap (atoi_loop 0) (plain x small)
    ∙ atoi-digits (x + 1) x [] (omega arith) (omega (arith, small))
    ∙ atoi_end x

-- The powers of ten.
unfoldable power : ℕ → ℕ
power zero = 1
power (suc k) = 10 * power k

quotient_small : (x base p : ℕ) → (base ≡ 10) ⊎ (base ≡ 16) → x < 10 * p → x / base < p
quotient_small x base p (inl e) h = rw e (omega (arith, h))
quotient_small x base p (inr e) h = rw e (omega (arith, h))

shrinks_ten : (x base : ℕ) → base ≡ 10 → x / base ≢ 0 → suc (x / base) ≤ x
shrinks_ten x base e ne = rw e (omega (arith, rw e at ne))

shrinks_sixteen : (x base : ℕ) → base ≡ 16 → x / base ≢ 0 → suc (x / base) ≤ x
shrinks_sixteen x base e ne = rw e (omega (arith, rw e at ne))

-- A number below ten to the `k + 1` has at most `k + 1` digits.
length-digits :
    (k fuel x base : ℕ)
    → (base ≡ 10) ⊎ (base ≡ 16)
    → x < power (suc k)
    → length (digit_loop fuel x base) ≤ suc k
unfolding power digit_loop
length-digits k zero x base b h = omega arith
length-digits zero (suc fuel) x base b h = elim (Bool-cases (x / base == 0)) [
  | inl z ↦ omega (arith, ap length (last_digit fuel x base z))
  | inr n ↦
      absurd (omega (arith, ==→ne (x / base) 0 n, quotient_small x base 1 b (omega (arith, h))))
]
length-digits (suc k) (suc fuel) x base b h = elim (Bool-cases (x / base == 0)) [
  | inl z ↦ omega (arith, ap length (last_digit fuel x base z))
  | inr n ↦ omega (
    arith,
    ap length (next_digit fuel x base n),
    length-digits k fuel (x / base) base b (quotient_small x base (power (suc k)) b h),
  )
]

-- The 16 bytes of `buf` are enough: `printint` of any word, in base 10 or 16, fills at most 11.
pub length-buffer :
    (xx base : ℕ) (sgn : Bool)
    → (base ≡ 10) ⊎ (base ≡ 16)
    → xx < word
    → length (buffer xx base sgn) ≤ 11
unfolding buffer power
length-buffer xx base sgn b small = elim (Bool-cases (is_minus xx sgn)) [
  | inl m ↦
      let x = sub32 0 xx in
      rw m (
        omega (
          arith,
          length-append (digit_loop (x + 1) x base) (45 ∷ []),
          length-digits 9 (x + 1) x base b (omega arith),
        ))
  | inr m ↦ rw m (omega (arith, length-digits 9 (xx + 1) xx base b (omega (arith, small))))
]

-- The fuel of `digit_loop` is enough: with more, the digits are the same.
pub digit_loop-fuel :
    (fuel more x base : ℕ)
    → (base ≡ 10) ⊎ (base ≡ 16)
    → x < fuel
    → x < more
    → digit_loop fuel x base ≡ digit_loop more x base
digit_loop-fuel zero more x base b h g = absurd (omega arith)
digit_loop-fuel (suc fuel) zero x base b h g = absurd (omega arith)
digit_loop-fuel (suc fuel) (suc more) x base b h g = elim (Bool-cases (x / base == 0)) [
  | inl z ↦ last_digit fuel x base z ∙ sym (last_digit more x base z)
  | inr n ↦
      let ne : x / base ≢ 0 = ==→ne (x / base) 0 n in
      let smaller : suc (x / base) ≤ x = elim b [
        | inl e ↦ shrinks_ten x base e ne
        | inr e ↦ shrinks_sixteen x base e ne
      ] in
      next_digit fuel x base n
      ∙ ap (λ ds. digit (x % base) ∷ ds)
          (digit_loop-fuel fuel more (x / base) base b (omega (arith, smaller, h))
            (omega (arith, smaller, g)))
      ∙ sym (next_digit more x base n)
]
