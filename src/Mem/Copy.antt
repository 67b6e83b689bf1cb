-- ===== src/Mem/Copy.antt =====
-- What `memmove` and `memcmp` of xv6-public/string.c promise, overlapping areas included.
use ele3021_spring.Common.{
  ℕ, zero, suc, ◌≡◌, ◌≢◌, ◌⊎◌, ◌≤◌, ◌<◌, ◌+◌, inl, inr, arith, refl, sym, ap, ◌∙◌, Bool-cases, ltb,
  ◌&&◌, ℕ_discrete, sub32, ◌↔◌,
}
use ele3021_spring.Mem.{store_byte, forward, backward, memmove, memcmp}

stored : (m : ℕ → ℕ) (a v : ℕ) → store_byte m a v a ≡ v
stored m a v = ground arith

not_stored : (m : ℕ → ℕ) (a v b : ℕ) → a ≢ b → store_byte m a v b ≡ m b
not_stored m a v b ne = ground arith

forward_outside : (n d s : ℕ) (m : ℕ → ℕ) (a : ℕ) → (a < d) ⊎ (d + n ≤ a) → forward n d s m a ≡ m a
unfolding forward
forward_outside zero d s m a o = refl
forward_outside (suc n) d s m a o =
    forward_outside n (suc d) (suc s) (store_byte m d (m s)) a (omega arith)
    ∙ not_stored m d (m s) a (omega arith)

backward_outside :
    (n d s : ℕ) (m : ℕ → ℕ) (a : ℕ) → (a < d) ⊎ (d + n ≤ a) → backward n d s m a ≡ m a
unfolding backward
backward_outside zero d s m a o = refl
backward_outside (suc n) d s m a o =
    backward_outside n d s (store_byte m (d + n) (m (s + n))) a (omega arith)
    ∙ not_stored m (d + n) (m (s + n)) a (omega arith)

-- Upwards is right unless the destination starts inside the source.
forward_copies :
    (n d s : ℕ) (m : ℕ → ℕ) (i : ℕ)
    → (d ≤ s) ⊎ (s + n ≤ d)
    → i < n
    → forward n d s m (d + i) ≡ m (s + i)
unfolding forward
forward_copies zero d s m i o lt = absurd (omega arith)
forward_copies (suc n) d s m zero o lt =
    ap (forward n (suc d) (suc s) (store_byte m d (m s))) (zero_right d)
    ∙ forward_outside n (suc d) (suc s) (store_byte m d (m s)) d (omega arith)
    ∙ stored m d (m s)
    ∙ ap m (sym (zero_right s))
  where
    zero_right : (k : ℕ) → k + 0 ≡ k
    zero_right k = omega arith
forward_copies (suc n) d s m (suc i) o lt =
    ap (forward n (suc d) (suc s) (store_byte m d (m s))) (over d)
    ∙ forward_copies n (suc d) (suc s) (store_byte m d (m s)) i (omega arith) (omega arith)
    ∙ not_stored m d (m s) (suc s + i) (omega arith)
    ∙ ap m (sym (over s))
  where
    over : (k : ℕ) → k + suc i ≡ suc k + i
    over k = omega arith

-- Downwards is right if the destination is above the source.
backward_copies :
    (n d s : ℕ) (m : ℕ → ℕ) (i : ℕ) → s < d → i < n → backward n d s m (d + i) ≡ m (s + i)
unfolding backward
backward_copies zero d s m i o lt = absurd (omega arith)
backward_copies (suc n) d s m i o lt = elim (ℕ_discrete i n) [
  | yes e ↦
      backward_outside n d s (store_byte m (d + n) (m (s + n))) (d + i) (omega arith)
      ∙ ap (store_byte m (d + n) (m (s + n))) (omega (arith, e))
      ∙ stored m (d + n) (m (s + n))
      ∙ ap m (omega (arith, e))
  | no ne ↦
      backward_copies n d s (store_byte m (d + n) (m (s + n))) i o (omega arith)
      ∙ not_stored m (d + n) (m (s + n)) (s + i) (omega arith)
]

-- `memmove` leaves at the destination what was at the source before, also where the two areas
-- overlap, and changes nothing else.
pub memmove-copies :
    (d s n : ℕ) (m : ℕ → ℕ)
    → ((i : ℕ) → i < n → memmove d s n m (d + i) ≡ m (s + i))
      × ((a : ℕ) → (a < d) ⊎ (d + n ≤ a) → memmove d s n m a ≡ m a)
unfolding memmove
memmove-copies d s n m = elim (Bool-cases (ltb s d && ltb d (s + n))) [
  | inl y ↦ (
    λ i lt. rw y (backward_copies n d s m i (ground (arith, y)) lt),
    λ a o. rw y (backward_outside n d s m a o),
  )
  | inr no_ ↦ (
    λ i lt. rw no_ (forward_copies n d s m i (ground (arith, no_)) lt),
    λ a o. rw no_ (forward_outside n d s m a o),
  )
]

-- Two areas of bytes are the same.
abbrev pub Same : ℕ → (ℕ → ℕ) → ℕ → ℕ → Type 0
Same n m a b = (i : ℕ) → i < n → m (a + i) ≡ m (b + i)

bytes_differ : (x y : ℕ) → x < 256 → y < 256 → x ≢ y → sub32 x y ≢ 0
bytes_differ x y bx by ne = omega (arith, ne)

memcmp_step :
    (n : ℕ) (m : ℕ → ℕ) (a b : ℕ) → m a ≡ m b → memcmp (suc n) m a b ≡ memcmp n m (suc a) (suc b)
unfolding memcmp
memcmp_step n m a b e = ground (arith, e)

memcmp_differ : (n : ℕ) (m : ℕ → ℕ) (a b : ℕ) → m a ≢ m b → memcmp (suc n) m a b ≡ sub32 (m a) (m b)
unfolding memcmp
memcmp_differ n m a b ne = ground (arith, ne)

extend_areas :
    (n : ℕ) (m : ℕ → ℕ) (a b : ℕ) → m a ≡ m b → Same n m (suc a) (suc b) → Same (suc n) m a b
extend_areas n m a b e h zero lt = ap m (zero_right a) ∙ e ∙ ap m (sym (zero_right b))
  where
    zero_right : (k : ℕ) → k + 0 ≡ k
    zero_right k = omega arith
extend_areas n m a b e h (suc i) lt = ap m (over a) ∙ h i (omega arith) ∙ ap m (sym (over b))
  where
    over : (k : ℕ) → k + suc i ≡ suc k + i
    over k = omega arith

memcmp-Same :
    (n : ℕ) (m : ℕ → ℕ) (a b : ℕ) → ((x : ℕ) → m x < 256) → memcmp n m a b ≡ 0 → Same n m a b
memcmp-Same zero m a b bytes h = λ i lt. absurd (omega arith)
memcmp-Same (suc n) m a b bytes h = elim (ℕ_discrete (m a) (m b)) [
  | yes e ↦
      extend_areas n m a b e
        (memcmp-Same n m (suc a) (suc b) bytes (sym (memcmp_step n m a b e) ∙ h))
  | no ne ↦
      absurd (bytes_differ (m a) (m b) (bytes a) (bytes b) ne (sym (memcmp_differ n m a b ne) ∙ h))
]

Same-memcmp : (n : ℕ) (m : ℕ → ℕ) (a b : ℕ) → Same n m a b → memcmp n m a b ≡ 0
unfolding memcmp
Same-memcmp zero m a b h = refl
Same-memcmp (suc n) m a b h = memcmp_step n m a b first ∙ Same-memcmp n m (suc a) (suc b) later
  where
    first : m a ≡ m b
    first = ap m (omega arith) ∙ h 0 (omega arith) ∙ ap m (omega arith)

    later : Same n m (suc a) (suc b)
    later i lt = ap m (omega arith) ∙ h (suc i) (omega arith) ∙ ap m (omega arith)

-- On bytes, `memcmp` returns 0 exactly when the two areas are the same.
pub memcmp_iff :
    (n : ℕ) (m : ℕ → ℕ) (a b : ℕ) → ((x : ℕ) → m x < 256) → (memcmp n m a b ≡ 0) ↔ Same n m a b
memcmp_iff n m a b bytes = (memcmp-Same n m a b bytes, Same-memcmp n m a b)
