-- ===== src/Bcache/Found.antt =====
-- What the searches of xv6-public/bio.c over the list of buffers find.

use ele3021_spring.Bcache.Scan.{first_buf, last_buf}
use ele3021_spring.Bcache.{Buf}
use ele3021_spring.Common.{
  ℕ, List, Bool, ◌≡◌, ◌∷◌, All, [], false, some, none, ◌++◌, true, Bool-cases, Option-cases, inl,
  inr, arith, subst, ◌∙◌, ap,
}

-- No buffer passes a test.
abbrev pub NonePass : (Buf → Bool) → (ℕ → Buf) → List ℕ → Type 0
NonePass test buf ring = All (λ j. test (buf j) ≡ false) ring

pub first_buf-some :
    (test : Buf → Bool) (buf : ℕ → Buf) (xs : List ℕ) (i : ℕ)
    → first_buf test buf xs ≡ some i
    → test (buf i) ≡ true
first_buf-some test buf [] i e = cc
first_buf-some test buf (x ∷ xs) i e = elim (Bool-cases (test (buf x))) [
  | inl t ↦ let s : x ≡ i = ground (arith, t, e) in subst (λ k. test (buf k) ≡ true) s t
  | inr t ↦ first_buf-some test buf xs i (ground (arith, t, e))
]

pub first_buf-none :
    (test : Buf → Bool) (buf : ℕ → Buf) (xs : List ℕ)
    → first_buf test buf xs ≡ none
    → NonePass test buf xs
first_buf-none test buf [] e = tt
first_buf-none test buf (x ∷ xs) e = elim (Bool-cases (test (buf x))) [
  | inl t ↦ absurd (ground (arith, t, e))
  | inr t ↦ (t, first_buf-none test buf xs (ground (arith, t, e)))
]

pub last_buf-none :
    (test : Buf → Bool) (buf : ℕ → Buf) (xs : List ℕ)
    → last_buf test buf xs ≡ none
    → NonePass test buf xs
last_buf-none test buf [] e = tt
last_buf-none test buf (x ∷ xs) e = elim (Option-cases (last_buf test buf xs)) [
  | inr r ↦ absurd (ground (arith, r.1, e))
  | inl n ↦ elim (Bool-cases (test (buf x))) [
    | inl t ↦ absurd (ground (arith, t, n, e))
    | inr t ↦ (t, last_buf-none test buf xs n)
  ]
]

-- Buffer `i` of the list is the last that passes.
abbrev pub IsLast : (Buf → Bool) → (ℕ → Buf) → ℕ → List ℕ → Type 0
IsLast test buf i ring =
    (xs ys : List ℕ) × (ring ≡ xs ++ (i ∷ ys)) × (test (buf i) ≡ true) × NonePass test buf ys

pub last_buf-some :
    (test : Buf → Bool) (buf : ℕ → Buf) (xs : List ℕ) (i : ℕ)
    → last_buf test buf xs ≡ some i
    → IsLast test buf i xs
last_buf-some test buf [] i e = cc
last_buf-some test buf (x ∷ xs) i e = elim (Option-cases (last_buf test buf xs)) [
  | inr r ↦
      let s : r.0 ≡ i = ground (arith, r.1, e) in
      let (as_, bs, split, t, rest) = last_buf-some test buf xs i (r.1 ∙ ap some s) in
      (x ∷ as_, bs, ap (λ l. x ∷ l) split, t, rest)
  | inl n ↦ elim (Bool-cases (test (buf x))) [
    | inl t ↦
        let s : x ≡ i = ground (arith, t, n, e) in
        (
          [],
          xs,
          ap (λ k. k ∷ xs) s,
          subst (λ k. test (buf k) ≡ true) s t,
          last_buf-none test buf xs n,
        )
    | inr t ↦ absurd (ground (arith, t, n, e))
  ]
]
