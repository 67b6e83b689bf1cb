-- ===== src/Icache/Bytes.antt =====
-- Bytes stored in a block and read again, as xv6-public/fs.c does with inodes.
use ele3021_spring.Common.{
  ℕ, ◌≤◌, List, length, ◌<◌, ◌+◌, ◌≡◌, ◌⊎◌, ◌∷◌, suc, word, ◌++◌, ◌*◌, All, arith, ◌∙◌, ap, [],
  zero, refl, sym, ◌/◌, if◌then◌else◌, length-append, inr, Bool-cases, ◌==◌, ◌-◌, inl,
}
use ele3021_spring.CString.{text}
use ele3021_spring.Inode.{splice, slice}
use ele3021_spring.Icache.{bytes_of, num, addr_bytes, addrs_at}

pub length-slice : (n o : ℕ) (g : ℕ → ℕ) → length (slice n o g) ≡ n
unfolding slice
length-slice zero o g = refl
length-slice (suc n) o g = ap suc (length-slice n (suc o) g)

pub slice_ext :
    (n o : ℕ) (f g : ℕ → ℕ) → ((j : ℕ) → o ≤ j → j < o + n → f j ≡ g j) → slice n o f ≡ slice n o g
unfolding slice
slice_ext zero o f g h = refl
slice_ext (suc n) o f g h =
    ap2 (h o (omega arith) (omega arith))
      (slice_ext n (suc o) f g (λ j a b. h j (omega arith) (omega arith)))
  where
    ap2 : {a b : ℕ} {xs ys : List ℕ} → a ≡ b → xs ≡ ys → a ∷ xs ≡ b ∷ ys
    ap2 e d = cc

pub splice_other :
    (xs : List ℕ) (o : ℕ) (g : ℕ → ℕ) (j : ℕ)
    → (j < o) ⊎ (o + length xs ≤ j)
    → splice xs o g j ≡ g j
unfolding splice
splice_other [] o g j out = refl
splice_other (x ∷ xs) o g j out =
    ground (arith, out, splice_other xs (suc o) g j (omega (arith, out)))

splice_here : (x : ℕ) (xs : List ℕ) (o : ℕ) (g : ℕ → ℕ) → splice (x ∷ xs) o g o ≡ x
unfolding splice
splice_here x xs o g = ground arith

splice_past :
    (x : ℕ) (xs : List ℕ) (o : ℕ) (g : ℕ → ℕ) (j : ℕ)
    → suc o ≤ j
    → splice (x ∷ xs) o g j ≡ splice xs (suc o) g j
unfolding splice
splice_past x xs o g j h = ground (arith, h)

pub slice-splice : (xs : List ℕ) (o : ℕ) (g : ℕ → ℕ) → slice (length xs) o (splice xs o g) ≡ xs
unfolding slice
slice-splice [] o g = refl
slice-splice (x ∷ xs) o g =
    let hd = splice_here x xs o g in
    let tl =
      slice_ext (length xs) (suc o) (splice (x ∷ xs) o g) (splice xs (suc o) g)
        (λ j a b. splice_past x xs o g j a)
      ∙ slice-splice xs (suc o) g in
    cc

pub slice-splice_ne :
    (n o : ℕ) (xs : List ℕ) (p : ℕ) (g : ℕ → ℕ)
    → (o + n ≤ p) ⊎ (p + length xs ≤ o)
    → slice n o (splice xs p g) ≡ slice n o g
slice-splice_ne n o xs p g out =
    slice_ext n o (splice xs p g) g (λ j a b. splice_other xs p g j (omega (arith, out, a, b)))

-- The same, where the length of the bytes is known.
pub read_back :
    (n : ℕ) (xs : List ℕ) (o : ℕ) (g : ℕ → ℕ) → length xs ≡ n → slice n o (splice xs o g) ≡ xs
read_back n xs o g e = ap (λ k. slice k o (splice xs o g)) (sym e) ∙ slice-splice xs o g

pub length-bytes_of : (n v : ℕ) → length (bytes_of n v) ≡ n
unfolding bytes_of
length-bytes_of zero v = refl
length-bytes_of (suc n) v = ap suc (length-bytes_of n (v / 256))

pub num-bytes_of_two : (v : ℕ) → v < 65536 → num (bytes_of 2 v) ≡ v
unfolding num bytes_of
num-bytes_of_two v h = omega arith

pub num-bytes_of_four : (v : ℕ) → v < word → num (bytes_of 4 v) ≡ v
unfolding num bytes_of
num-bytes_of_four v h = omega arith

splice-append :
    (xs ys : List ℕ) (o : ℕ) (g : ℕ → ℕ) (j : ℕ)
    → splice (xs ++ ys) o g j ≡ splice xs o (splice ys (o + length xs) g) j
unfolding splice
splice-append [] ys o g j = ap (λ k. splice ys k g j) (omega arith)
splice-append (x ∷ xs) ys o g j =
    let same =
      splice-append xs ys (suc o) g j
      ∙ ap (λ k. splice xs (suc o) (splice ys k g) j) (omega arith) in
    ap (λ v. if o == j then x else v) same

pub addrs_at_ext :
    (n o : ℕ) (f g : ℕ → ℕ)
    → ((j : ℕ) → o ≤ j → j < o + 4 * n → f j ≡ g j)
    → addrs_at n o f ≡ addrs_at n o g
unfolding addrs_at
addrs_at_ext zero o f g h = refl
addrs_at_ext (suc n) o f g h =
    let hd = slice_ext 4 o f g (λ j a b. h j a (omega arith)) in
    let tl = addrs_at_ext n (o + 4) f g (λ j a b. h j (omega arith) (omega arith)) in cc

pub length-addr_bytes : (xs : List ℕ) → length (addr_bytes xs) ≡ 4 * length xs
unfolding addr_bytes
length-addr_bytes [] = refl
length-addr_bytes (a ∷ xs) =
    omega (
      arith,
      length-append (bytes_of 4 a) (addr_bytes xs),
      length-bytes_of 4 a,
      length-addr_bytes xs,
    )

pub addrs_at-addr_bytes :
    (xs : List ℕ) (o : ℕ) (g : ℕ → ℕ)
    → All (λ a. a < word) xs
    → addrs_at (length xs) o (splice (addr_bytes xs) o g) ≡ xs
unfolding addrs_at addr_bytes
addrs_at-addr_bytes [] o g h = refl
addrs_at-addr_bytes (a ∷ xs) o g h =
    let B = bytes_of 4 a in
    let behind : o + length B ≡ o + 4 = ap (λ k. o + k) (length-bytes_of 4 a) in
    let inner = splice (addr_bytes xs) (o + length B) g in
    let cut = splice-append B (addr_bytes xs) o g in
    let hd : num (slice 4 o (splice (B ++ addr_bytes xs) o g)) ≡ a =
      ap num (
        slice_ext 4 o (splice (B ++ addr_bytes xs) o g) (splice B o inner) (λ j c d. cut j)
        ∙ read_back 4 B o inner (length-bytes_of 4 a))
      ∙ num-bytes_of_four a h.0 in
    let tl : addrs_at (length xs) (o + 4) (splice (B ++ addr_bytes xs) o g) ≡ xs =
      addrs_at_ext (length xs) (o + 4) (splice (B ++ addr_bytes xs) o g) inner
        (λ j c d. cut j ∙ splice_other B o inner j (inr (omega (arith, behind, c))))
      ∙ ap (λ k. addrs_at (length xs) (o + 4) (splice (addr_bytes xs) k g)) behind
      ∙ addrs_at-addr_bytes xs (o + 4) g h.1 in
    cc

pub slice-split : (n m o : ℕ) (g : ℕ → ℕ) → slice (n + m) o g ≡ slice n o g ++ slice m (o + n) g
unfolding slice
slice-split zero m o g =
    let start : o ≡ o + 0 = omega arith in
    let none_ : 0 + m ≡ m = omega arith in ap (λ k. slice k o g) none_ ∙ ap (λ k. slice m k g) start
slice-split (suc n) m o g =
    let count : suc n + m ≡ suc (n + m) = omega arith in
    let place : suc o + n ≡ o + suc n = omega arith in
    ap (λ k. slice k o g) count
    ∙ ap (λ xs. g o ∷ xs)
        (slice-split n m (suc o) g ∙ ap (λ k. slice n (suc o) g ++ slice m k g) place)

-- A string that is followed by a NUL.
text-closed : (u ys : List ℕ) → text ((text u ++ (0 ∷ [])) ++ ys) ≡ text u
text-closed [] ys = refl
text-closed (c ∷ u) ys = elim (Bool-cases (c == 0)) [
  | inl z ↦ rw z refl
  | inr n ↦ rw (n, n) (ap (λ s. c ∷ s) (text-closed u ys))
]

pub text-append : (u ys : List ℕ) → length (text u) < length u → text (u ++ ys) ≡ text u
text-append [] ys h = absurd (omega arith)
text-append (c ∷ u) ys h = elim (Bool-cases (c == 0)) [
  | inl z ↦ rw z refl
  | inr n ↦ rw n (ap (λ s. c ∷ s) (text-append u ys (omega (arith, rw n at h))))
]

-- The string that is read where a string with its NUL was written.
pub text-slice :
    (n o : ℕ) (u : List ℕ) (g : ℕ → ℕ)
    → length (text u) < n
    → text (slice n o (splice (text u ++ (0 ∷ [])) o g)) ≡ text u
text-slice n o u g h =
    let t = text u ++ (0 ∷ []) in
    let len : length t ≡ length (text u) + 1 = length-append (text u) (0 ∷ []) in
    let f = splice t o g in
    ap (λ k. text (slice k o f)) (omega (arith, len, h))
    ∙ ap text (slice-split (length t) (n - length t) o f)
    ∙ ap (λ xs. text (xs ++ slice (n - length t) (o + length t) f)) (slice-splice t o g)
    ∙ text-closed u (slice (n - length t) (o + length t) f)
