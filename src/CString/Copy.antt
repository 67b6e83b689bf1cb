-- ===== src/CString/Copy.antt =====
-- What the copying routines leave at the destination, and what they leave alone.
use ele3021_spring.Common.{
  ℕ, suc, zero, ◌+◌, ◌<◌, ◌≡◌, ◌≢◌, ◌⊎◌, refl, List, [], ◌∷◌, length, get_or, set, drop, length-set,
  get_or-set_self, get_or-set_ne, arith, if◌then◌else◌, ◌==◌, Bool-cases, inl, inr, ◌∙◌, ==→eq,
  ==→ne, ◌++◌, subst, ◌≤◌, ℕ_discrete,
}
use ele3021_spring.CString.{text, strcpy, strlen, fill_zero}

-- The memory holds the string `s`, with its NUL, at `at`.
abbrev pub Holds : List ℕ → ℕ → List ℕ → Type 0
Holds mem at [] = get_or mem at 0 ≡ 0
Holds mem at (c ∷ s) = (get_or mem at 0 ≡ c) × (c ≢ 0) × Holds mem (suc at) s

text-drop :
    (mem : List ℕ) (at : ℕ)
    → text (drop at mem)
      ≡ (if get_or mem at 0 == 0 then [] else get_or mem at 0 ∷ text (drop (suc at) mem))
text-drop [] zero = refl
text-drop [] (suc at) = refl
text-drop (a ∷ mem) zero = refl
text-drop (a ∷ mem) (suc at) = text-drop mem at

pub Holds-text : (mem : List ℕ) (at : ℕ) (s : List ℕ) → Holds mem at s → text (drop at mem) ≡ s
Holds-text mem at [] h = ground (arith, text-drop mem at)
Holds-text mem at (c ∷ s) h = ground (arith, text-drop mem at, Holds-text mem (suc at) s h.2)

-- A store outside the string and its NUL keeps it.
pub Holds-set :
    (mem : List ℕ) (at : ℕ) (s : List ℕ) (i v : ℕ)
    → (i < at) ⊎ (at + length s < i)
    → Holds mem at s
    → Holds (set mem i v) at s
Holds-set mem at [] i v o h = rw (get_or-set_ne mem i at v 0 (omega arith)) h
Holds-set mem at (c ∷ s) i v o h = (
  rw (get_or-set_ne mem i at v 0 (omega arith)) h.0,
  h.1,
  Holds-set mem (suc at) s i v (omega arith) h.2,
)

pub length-strcpy : (mem : List ℕ) (at : ℕ) (s : List ℕ) → length (strcpy mem at s) ≡ length mem
unfolding strcpy
length-strcpy mem at [] = length-set mem at 0
length-strcpy mem at (a ∷ s) =
    ground
      (arith, length-set mem at 0, length-set mem at a, length-strcpy (set mem at a) (suc at) s)

-- `strcpy` changes no cell before the destination, nor one past the string's NUL.
pub get_or-strcpy_ne :
    (mem : List ℕ) (at : ℕ) (s : List ℕ) (j : ℕ)
    → (j < at) ⊎ (at + length (text s) < j)
    → get_or (strcpy mem at s) j 0 ≡ get_or mem j 0
unfolding strcpy
get_or-strcpy_ne mem at [] j o = get_or-set_ne mem at j 0 0 (omega arith)
get_or-strcpy_ne mem at (a ∷ s) j o = ground (
  arith,
  get_or-set_ne mem at j 0 0,
  get_or-set_ne mem at j a 0,
  get_or-strcpy_ne (set mem at a) (suc at) s j,
)

strcpy-Holds_cons :
    (mem : List ℕ) (at a : ℕ) (s : List ℕ)
    → a ≢ 0
    → at < length mem
    → Holds (strcpy (set mem at a) (suc at) s) (suc at) (text s)
    → Holds (strcpy (set mem at a) (suc at) s) at (a ∷ text s)
strcpy-Holds_cons mem at a s ne lt h = (
  get_or-strcpy_ne (set mem at a) (suc at) s at (omega arith) ∙ get_or-set_self mem at a 0 lt,
  ne,
  h,
)

-- Where the string with its NUL fits, `strcpy` leaves it at the destination.
pub strcpy-Holds :
    (mem : List ℕ) (at : ℕ) (s : List ℕ)
    → at + length (text s) < length mem
    → Holds (strcpy mem at s) at (text s)
unfolding strcpy
strcpy-Holds mem at [] fits = get_or-set_self mem at 0 0 (omega arith)
strcpy-Holds mem at (a ∷ s) fits = elim (Bool-cases (a == 0)) [
  | inl e ↦ rw e (get_or-set_self mem at 0 0 (omega arith))
  | inr e ↦ rw e (
      strcpy-Holds_cons mem at a s (ground arith) (ground arith)
        (strcpy-Holds (set mem at a) (suc at) s (ground (arith, length-set mem at a))))
]

-- `strcpy` keeps a string that lies before the destination or past the copy.
pub Holds-strcpy :
    (mem : List ℕ) (at : ℕ) (s : List ℕ) (i : ℕ) (t : List ℕ)
    → (i + length t < at) ⊎ (at + length (text s) < i)
    → Holds mem i t
    → Holds (strcpy mem at s) i t
Holds-strcpy mem at s i [] o h = rw (get_or-strcpy_ne mem at s i (omega arith)) h
Holds-strcpy mem at s i (c ∷ t) o h = (
  rw (get_or-strcpy_ne mem at s i (omega arith)) h.0,
  h.1,
  Holds-strcpy mem at s (suc i) t (omega arith) h.2,
)

Holds-shift :
    (a : ℕ) (mem : List ℕ) (at : ℕ) (s : List ℕ) → Holds mem at s → Holds (a ∷ mem) (suc at) s
Holds-shift a mem at [] h = h
Holds-shift a mem at (c ∷ s) h = (h.0, h.1, Holds-shift a mem (suc at) s h.2)

-- Every pointer holds the string that is read from it.
pub text-Holds : (mem : List ℕ) (at : ℕ) → Holds mem at (text (drop at mem))
text-Holds [] zero = refl
text-Holds [] (suc at) = refl
text-Holds (a ∷ mem) zero = elim (Bool-cases (a == 0)) [
  | inl e ↦ rw e (==→eq a 0 e)
  | inr e ↦ rw e (refl, ==→ne a 0 e, Holds-shift a mem 0 (text mem) (text-Holds mem 0))
]
text-Holds (a ∷ mem) (suc at) = Holds-shift a mem at (text (drop at mem)) (text-Holds mem at)

-- Two memories that agree before the NUL of `s`, where the second goes on with `t`.
pub Holds-append :
    (mem mem' : List ℕ) (at : ℕ) (s t : List ℕ)
    → ((j : ℕ) → j < at + length s → get_or mem' j 0 ≡ get_or mem j 0)
    → Holds mem at s
    → Holds mem' (at + length s) t
    → Holds mem' at (s ++ t)
Holds-append mem mem' at [] t same h g = subst (λ (n : ℕ). Holds mem' n t) (omega arith) g
Holds-append mem mem' at (c ∷ s) t same h g = (
  same at (omega arith) ∙ h.0,
  h.1,
  Holds-append mem mem' (suc at) s t (λ j lt. same j (omega arith)) h.2
      (subst (λ (n : ℕ). Holds mem' n t) (omega arith) g),
)

pub strlen-text : (s : List ℕ) → strlen s ≡ length (text s)
unfolding strlen
strlen-text [] = refl
strlen-text (a ∷ s) = ground (arith, strlen-text s)

pub length-fill_zero : (n : ℕ) (mem : List ℕ) (at : ℕ) → length (fill_zero n mem at) ≡ length mem
unfolding fill_zero
length-fill_zero zero mem at = refl
length-fill_zero (suc n) mem at = length-fill_zero n (set mem at 0) (suc at) ∙ length-set mem at 0

-- Clearing `n` bytes changes no cell outside them.
pub get_or-fill_zero_ne :
    (n : ℕ) (mem : List ℕ) (at j : ℕ)
    → (j < at) ⊎ (at + n ≤ j)
    → get_or (fill_zero n mem at) j 0 ≡ get_or mem j 0
unfolding fill_zero
get_or-fill_zero_ne zero mem at j o = refl
get_or-fill_zero_ne (suc n) mem at j o =
    get_or-fill_zero_ne n (set mem at 0) (suc at) j (omega arith)
    ∙ get_or-set_ne mem at j 0 0 (omega arith)

pub Holds-fill_zero :
    (n : ℕ) (mem : List ℕ) (at i : ℕ) (t : List ℕ)
    → (i + length t < at) ⊎ (at + n ≤ i)
    → Holds mem i t
    → Holds (fill_zero n mem at) i t
Holds-fill_zero n mem at i [] o h = rw (get_or-fill_zero_ne n mem at i (omega arith)) h
Holds-fill_zero n mem at i (c ∷ t) o h = (
  rw (get_or-fill_zero_ne n mem at i (omega arith)) h.0,
  h.1,
  Holds-fill_zero n mem at (suc i) t (omega arith) h.2,
)

-- A cleared cell reads 0.
pub get_or-fill_zero :
    (n : ℕ) (mem : List ℕ) (at j : ℕ)
    → at ≤ j
    → j < at + n
    → at + n ≤ length mem
    → get_or (fill_zero n mem at) j 0 ≡ 0
unfolding fill_zero
get_or-fill_zero zero mem at j le lt fits = absurd (omega arith)
get_or-fill_zero (suc n) mem at j le lt fits = elim (ℕ_discrete at j) [
  | yes e ↦
      get_or-fill_zero_ne n (set mem at 0) (suc at) j (omega arith)
      ∙ rw (← e) (get_or-set_self mem at 0 0 (omega arith))
  | no ne ↦
      get_or-fill_zero n (set mem at 0) (suc at) j (omega arith) (omega arith)
        (omega (arith, length-set mem at 0))
]
